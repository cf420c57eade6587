-- ===== src/Session/Disabled.antt =====
-- Attacks with the refresh turned off in front of them and on again behind them.
use mathlib.Core.Path.{subst}
use rowhammer_tester.Prelude.{
  Bool, true, false, ◌≡◌, refl, ap, ◌∙◌, sym, Bool-cases, inl, inr, ◌∷◌, ◌++◌,
}
use rowhammer_tester.Session.{
  refresh, write_register, Ending, failed, waiting, returned, Action, after, ◌>>=◌, ◌>>◌, write,
}
use rowhammer_tester.Session.Refresh.{
  IsQuiet, IsCalm, IsMemory, StartsWith, refresh_after, has_returned, memory-IsQuiet, memory-IsCalm,
  refresh_after-quiet, refresh_after-append, StartsWith-append, StartsWith-calm, StartsWith-quiet,
}
use rowhammer_tester.Session.Emits.{Emits, Emits-map}

-- An action in front of another, by whether it returns.
pub bind-returned {ℓ} :
    {B : Type ℓ} (m : Action (Unit {0})) (next : Unit {0} → Action B)
    → has_returned m.ending ≡ true
    → (m >>= next).events ≡ m.events ++ (next tt).events
unfolding ◌>>=◌
bind-returned {B} m next h = by_ending m.ending h
  where
    by_ending :
        (e : Ending (Unit {0}))
        → has_returned e ≡ true
        → (after m.events e next).events ≡ m.events ++ (next tt).events
    by_ending (failed error) h = cc
    by_ending waiting h = cc
    by_ending (returned a) h = refl

pub bind-stopped {ℓ} :
    {B : Type ℓ} (m : Action (Unit {0})) (next : Unit {0} → Action B)
    → has_returned m.ending ≡ false
    → (m >>= next).events ≡ m.events
unfolding ◌>>=◌
bind-stopped {B} m next h = by_ending m.ending h
  where
    by_ending :
        (e : Ending (Unit {0})) → has_returned e ≡ false → (after m.events e next).events ≡ m.events
    by_ending (failed error) h = refl
    by_ending waiting h = refl
    by_ending (returned a) h = cc

-- Attacks behind which the refresh is turned on again, for what neither starts attacks nor sets the
-- refresh in the end.
module _ {ℓ} {B : Type ℓ} (attacks : Action (Unit {0})) (last : Action B) where
  abbrev pub reenabled : Action B
  reenabled = attacks >> (write refresh 1 >> last)

  pub reenabled-refresh :
      Emits IsQuiet attacks
      → Emits IsQuiet last
      → refresh_after reenabled.events false ≡ has_returned attacks.ending
  unfolding ◌>>=◌
  reenabled-refresh q r =
      let off = refresh_after-quiet attacks.events false q.all_events in
      elim (Bool-cases (has_returned attacks.ending)) [
        | inl ends ↦
            ap (λ es. refresh_after es false) (bind-returned attacks _ ends)
            ∙ refresh_after-append attacks.events (write_register refresh 1 ∷ last.events) false
            ∙ refresh_after-quiet last.events true r.all_events
            ∙ sym ends
        | inr stops ↦
            ap (λ es. refresh_after es false) (bind-stopped attacks _ stops) ∙ off ∙ sym stops
      ]

  pub reenabled-StartsWith :
      Emits IsQuiet attacks → Emits IsCalm last → StartsWith false false reenabled.events
  unfolding ◌>>=◌
  reenabled-StartsWith q r =
      let started = StartsWith-quiet false attacks.events q.all_events in
      elim (Bool-cases (has_returned attacks.ending)) [
        | inl ends ↦ subst (StartsWith false false) (sym (bind-returned attacks _ ends)) (
            StartsWith-append false false attacks.events (write_register refresh 1 ∷ last.events)
              started
              (StartsWith-calm false (refresh_after attacks.events false)
                (write_register refresh 1 ∷ last.events) (refl, r.all_events)))
        | inr stops ↦ subst (StartsWith false false) (sym (bind-stopped attacks _ stops)) started
      ]

  -- The same behind what prepares the memory, and behind the write that turns the refresh off.
  module _ (prepared : Action (Unit {0})) (on : Bool) where
    abbrev pub disabled : Action B
    disabled = prepared >> (write refresh 0 >> reenabled)

    pub disabled_lem :
        Emits IsMemory prepared
        → has_returned prepared.ending ≡ true
        → Emits IsQuiet attacks
        → Emits IsMemory last
        → (refresh_after disabled.events on ≡ has_returned attacks.ending)
          × StartsWith false on disabled.events
    unfolding ◌>>=◌
    disabled_lem p h q r =
        let es : disabled.events ≡ prepared.events ++ write_register refresh 0 ∷ reenabled.events =
          bind-returned prepared _ h in
        (
          ap (λ es. refresh_after es on) es
              ∙ refresh_after-append prepared.events (write_register refresh 0 ∷ reenabled.events)
                  on
              ∙ reenabled-refresh q (Emits-map memory-IsQuiet r),
          subst (StartsWith false on) (sym es) (
              StartsWith-append false on prepared.events
                (write_register refresh 0 ∷ reenabled.events)
                (StartsWith-calm false on prepared.events ((Emits-map memory-IsCalm p).all_events))
                ((λ s. cc, reenabled-StartsWith q (Emits-map memory-IsCalm r)))),
        )
