-- ===== src/Session/Refresh.antt =====
-- What a sequence of calls does to the refresh of the memory controller, and how that composes.
use rowhammer_tester.Prelude.{
  Bool, true, false, not, ◌≡◌, refl, ap, ◌∙◌, List, [], ◌∷◌, ◌++◌, All, ◌==◌, if◌then◌else◌,
}
use rowhammer_tester.Session.{
  Register, rowhammer_enabled, refresh, payload_executor_start, reader_start, Event, write_register,
  write_memory, count_read, bist_write, Ending, failed, waiting, returned,
}

abbrev pub is_refresh_register : Register → Bool
is_refresh_register refresh = true
is_refresh_register _ = false

-- The registers that start an attack.
abbrev pub is_start : Register → Bool
is_start rowhammer_enabled = true
is_start payload_executor_start = true
is_start reader_start = true
is_start _ = false

abbrev pub sets_refresh : Event → Bool
sets_refresh (write_register r v) = is_refresh_register r
sets_refresh (write_memory w) = false
sets_refresh count_read = false
sets_refresh (bist_write b) = false

abbrev pub starts : Event → Bool
starts (write_register r v) = if is_start r then not (v == 0) else false
starts (write_memory w) = false
starts count_read = false
starts (bist_write b) = false

-- Whether the refresh is on behind a call.
abbrev pub next_refresh : Event → Bool → Bool
next_refresh (write_register r v) on = if is_refresh_register r then not (v == 0) else on
next_refresh (write_memory w) on = on
next_refresh count_read on = on
next_refresh (bist_write b) on = on

abbrev pub refresh_after : List Event → Bool → Bool
refresh_after [] on = on
refresh_after (e ∷ es) on = refresh_after es (next_refresh e on)

-- Each call that starts an attack finds the refresh as `wanted`.
abbrev pub StartsWith : (wanted on : Bool) → List Event → Type 0
StartsWith wanted on [] = Unit
StartsWith wanted on (e ∷ es) =
    (starts e ≡ true → on ≡ wanted) × StartsWith wanted (next_refresh e on) es

-- No call sets the refresh, and none starts an attack.
abbrev pub IsQuiet : Event → Type 0
IsQuiet e = sets_refresh e ≡ false

abbrev pub IsCalm : Event → Type 0
IsCalm e = starts e ≡ false

abbrev pub has_returned {ℓ} : {A : Type ℓ} → Ending A → Bool
has_returned (failed error) = false
has_returned waiting = false
has_returned (returned a) = true

quiet-next : (e : Event) (on : Bool) → IsQuiet e → next_refresh e on ≡ on
quiet-next (write_register r v) on h = rw h refl
quiet-next (write_memory w) on h = refl
quiet-next count_read on h = refl
quiet-next (bist_write b) on h = refl

pub refresh_after-quiet : (es : List Event) (on : Bool) → All IsQuiet es → refresh_after es on ≡ on
refresh_after-quiet [] on h = refl
refresh_after-quiet (e ∷ es) on (q, h) =
    ap (refresh_after es) (quiet-next e on q) ∙ refresh_after-quiet es on h

pub refresh_after-append :
    (xs ys : List Event) (on : Bool)
    → refresh_after (xs ++ ys) on ≡ refresh_after ys (refresh_after xs on)
refresh_after-append [] ys on = refl
refresh_after-append (x ∷ xs) ys on = refresh_after-append xs ys (next_refresh x on)

pub StartsWith-append :
    (wanted on : Bool) (xs ys : List Event)
    → StartsWith wanted on xs
    → StartsWith wanted (refresh_after xs on) ys
    → StartsWith wanted on (xs ++ ys)
StartsWith-append wanted on [] ys h k = k
StartsWith-append wanted on (x ∷ xs) ys (p, h) k =
    (p, StartsWith-append wanted (next_refresh x on) xs ys h k)

pub StartsWith-calm : (wanted on : Bool) (es : List Event) → All IsCalm es → StartsWith wanted on es
StartsWith-calm wanted on [] h = tt
StartsWith-calm wanted on (e ∷ es) (c, h) =
    (λ s. cc, StartsWith-calm wanted (next_refresh e on) es h)

pub StartsWith-quiet :
    (wanted : Bool) (es : List Event) → All IsQuiet es → StartsWith wanted wanted es
StartsWith-quiet wanted [] h = tt
StartsWith-quiet wanted (e ∷ es) (q, h) =
    (λ s. refl, rw (quiet-next e wanted q) (StartsWith-quiet wanted es h))

-- Calls that write no register.
abbrev pub IsMemory : Event → Type 0
IsMemory (write_register r v) = ⊥
IsMemory (write_memory w) = Unit
IsMemory count_read = Unit
IsMemory (bist_write b) = Unit

pub memory-IsQuiet : (e : Event) → IsMemory e → IsQuiet e
memory-IsQuiet (write_register r v) h = elim h [ ]
memory-IsQuiet (write_memory w) h = refl
memory-IsQuiet count_read h = refl
memory-IsQuiet (bist_write b) h = refl

pub memory-IsCalm : (e : Event) → IsMemory e → IsCalm e
memory-IsCalm (write_register r v) h = elim h [ ]
memory-IsCalm (write_memory w) h = refl
memory-IsCalm count_read h = refl
memory-IsCalm (bist_write b) h = refl
