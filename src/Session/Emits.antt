-- ===== src/Session/Emits.antt =====
-- What all the calls of an action satisfy, with a rule for each way to build one.
use rowhammer_tester.Prelude.{
  refl, Bool, true, false, List, [], ◌∷◌, ◌++◌, map, All, if◌then◌else◌, Result, raised, ok, Error,
  All-map,
}
use rowhammer_tester.Memory.{Write}
use rowhammer_tester.Session.{
  Event, write_memory, Ending, failed, waiting, returned, Action, after, ◌>>=◌, pure, throw,
  wait_on, emit, lift, require, write_words,
}
use rowhammer_tester.Session.Refresh.{IsQuiet, IsMemory}

pub All-append : (P : Event → Type 0) (xs ys : List Event) → All P xs → All P ys → All P (xs ++ ys)
All-append P [] ys h k = k
All-append P (x ∷ xs) ys (p, h) k = (p, All-append P xs ys h k)

-- Each call that an action makes satisfies a predicate.
pub record Emits {ℓ} (P : Event → Type 0) {A : Type ℓ} (m : Action A) : Type 0 where
  pub all_events : All P m.events

pub Emits-bind {ℓ κ} :
    {P : Event → Type 0} {A : Type ℓ} {B : Type κ} {m : Action A} {next : A → Action B}
    → Emits P m
    → ((a : A) → Emits P (next a))
    → Emits P (m >>= next)
unfolding ◌>>=◌
Emits-bind {P} {A} {B} {m} {next} h k = by_ending m.ending
  where
    by_ending : (e : Ending A) → Emits P (after m.events e next)
    by_ending (failed error) = record { all_events = h.all_events }
    by_ending waiting = record { all_events = h.all_events }
    by_ending (returned a) = record {
      all_events = All-append P m.events (next a).events h.all_events ((k a).all_events);
    }

pub Emits-lift {ℓ} : {P : Event → Type 0} {A : Type ℓ} (r : Result A) → Emits P (lift r)
Emits-lift (raised error) = record { all_events = tt }
Emits-lift (ok a) = record { all_events = tt }

pub Emits-nothing {ℓ} : {P : Event → Type 0} {A : Type ℓ} {a : A} → Emits P (pure a)
Emits-nothing = record { all_events = tt }

pub Emits-throw {ℓ} : {P : Event → Type 0} {A : Type ℓ} {e : Error} → Emits P (throw {A = A} e)
Emits-throw = record { all_events = tt }

pub Emits-wait {ℓ} : {P : Event → Type 0} {A : Type ℓ} → Emits P (wait_on {A = A})
Emits-wait = record { all_events = tt }

pub Emits-one : {P : Event → Type 0} {e : Event} → P e → Emits P (emit (e ∷ []))
Emits-one h = record { all_events = (h, tt) }

pub Emits-require : {P : Event → Type 0} (test : Bool) → Emits P (require test)
Emits-require true = record { all_events = tt }
Emits-require false = record { all_events = tt }

pub Emits-if {ℓ} :
    {P : Event → Type 0} {A : Type ℓ} (test : Bool) {x y : Action A}
    → Emits P x
    → Emits P y
    → Emits P (if test then x else y)
Emits-if true h k = h
Emits-if false h k = k

Emits-words :
    (P : Event → Type 0)
    → ((w : Write) → P (write_memory w))
    → (ws : List Write) → Emits P (write_words ws)
Emits-words P h ws = record { all_events = each ws }
  where
    each : (ws : List Write) → All P (map write_memory ws)
    each [] = tt
    each (w ∷ ws) = (h w, each ws)

pub Emits-map {ℓ} :
    {P Q : Event → Type 0} {A : Type ℓ} {m : Action A}
    → ((e : Event) → P e → Q e)
    → Emits P m
    → Emits Q m
Emits-map {P} {Q} {A} {m} f h = record { all_events = All-map f m.events h.all_events }

pub write_words-IsMemory : (ws : List Write) → Emits IsMemory (write_words ws)
write_words-IsMemory = Emits-words IsMemory (λ w. tt)

pub write_words-IsQuiet : (ws : List Write) → Emits IsQuiet (write_words ws)
write_words-IsQuiet = Emits-words IsQuiet (λ w. refl)

-- With these rules `search` goes through a `do` block.
pub ruleset emits = (
  Emits-bind, Emits-lift, Emits-nothing, Emits-throw, Emits-wait, Emits-one, Emits-require,
  Emits-if, write_words-IsMemory, write_words-IsQuiet,
)
