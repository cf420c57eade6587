-- ===== src/Session/Keeps.antt =====
-- What an action does to the refresh, from a setting of it, with a rule for each way to build one.
use mathlib.Core.Path.{subst}
use rowhammer_tester.Prelude.{
  Bool, true, false, ◌≡◌, ◌⊎◌, inl, inr, refl, sym, ap, ◌∙◌, if◌then◌else◌, Result, raised, ok,
  Error,
}
use rowhammer_tester.Session.{
  refresh, Ending, failed, waiting, returned, Action, after, ◌>>=◌, pure, throw, write, lift,
}
use rowhammer_tester.Session.Refresh.{
  IsQuiet, IsMemory, StartsWith, refresh_after, has_returned, memory-IsQuiet, memory-IsCalm,
  refresh_after-quiet, refresh_after-append, StartsWith-append, StartsWith-calm, StartsWith-quiet,
}
use rowhammer_tester.Session.Emits.{Emits, Emits-map}

-- With the refresh at `pre` before: every call that starts an attack finds it off, and where the action
-- returns it is at `post`.
pub record Keeps {ℓ} (pre post : Bool) {A : Type ℓ} (m : Action A) : Type 0 where
  pub starts_off : StartsWith false pre m.events
  pub behind : (has_returned m.ending ≡ false) ⊎ (refresh_after m.events pre ≡ post)

pub Keeps-bind {ℓ κ} :
    {pre mid post : Bool} {A : Type ℓ} {B : Type κ} {m : Action A} {next : A → Action B}
    → Keeps pre mid m
    → ((a : A) → Keeps mid post (next a))
    → Keeps pre post (m >>= next)
unfolding ◌>>=◌
Keeps-bind {pre} {mid} {post} {A} {B} {m} {next} h k = by_ending m.ending h.behind
  where
    Left : Ending A → Type 0
    Left e = (has_returned e ≡ false) ⊎ (refresh_after m.events pre ≡ mid)

    by_ending : (e : Ending A) → Left e → Keeps pre post (after m.events e next)
    by_ending (failed error) left = record { starts_off = h.starts_off; behind = inl refl }
    by_ending waiting left = record { starts_off = h.starts_off; behind = inl refl }
    by_ending (returned a) (inl never) = absurd cc
    by_ending (returned a) (inr at) = record {
      starts_off =
          StartsWith-append false pre m.events (next a).events h.starts_off
            (subst (λ on. StartsWith false on (next a).events) (sym at) (k a).starts_off);
      behind = elim (k a).behind [
        | inl never ↦ inl never
        | inr there ↦ inr (
            refresh_after-append m.events (next a).events pre
            ∙ ap (refresh_after (next a).events) at
            ∙ there)
      ];
    }

pub Keeps-pure {ℓ} : {on : Bool} {A : Type ℓ} {a : A} → Keeps on on (pure a)
Keeps-pure = record { starts_off = tt; behind = inr refl }

pub Keeps-throw {ℓ} : {on : Bool} {A : Type ℓ} {e : Error} → Keeps on on (throw {A = A} e)
Keeps-throw = record { starts_off = tt; behind = inl refl }

pub Keeps-lift {ℓ} : {on : Bool} {A : Type ℓ} (r : Result A) → Keeps on on (lift r)
Keeps-lift (raised error) = record { starts_off = tt; behind = inl refl }
Keeps-lift (ok a) = record { starts_off = tt; behind = inr refl }

pub Keeps-memory {ℓ} : {on : Bool} {A : Type ℓ} {m : Action A} → Emits IsMemory m → Keeps on on m
Keeps-memory {on} {A} {m} h = record {
  starts_off = StartsWith-calm false on m.events ((Emits-map memory-IsCalm h).all_events);
  behind = inr (refresh_after-quiet m.events on ((Emits-map memory-IsQuiet h).all_events));
}

pub Keeps-quiet {ℓ} : {A : Type ℓ} {m : Action A} → Emits IsQuiet m → Keeps false false m
Keeps-quiet {A} {m} h = record {
  starts_off = StartsWith-quiet false m.events h.all_events;
  behind = inr (refresh_after-quiet m.events false h.all_events);
}

pub Keeps-off : {pre : Bool} → Keeps pre false (write refresh 0)
Keeps-off = record { starts_off = ((λ s. cc), tt); behind = inr refl }

pub Keeps-on : {pre : Bool} → Keeps pre true (write refresh 1)
Keeps-on = record { starts_off = ((λ s. cc), tt); behind = inr refl }

pub Keeps-if {ℓ} :
    {pre post : Bool} {A : Type ℓ} (test : Bool) {x y : Action A}
    → Keeps pre post x
    → Keeps pre post y
    → Keeps pre post (if test then x else y)
Keeps-if true h k = h
Keeps-if false h k = k
