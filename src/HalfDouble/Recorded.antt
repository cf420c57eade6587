-- ===== src/HalfDouble/Recorded.antt =====
-- What process_errors makes of the errors of a measurement.
use rowhammer_tester.Prelude.{
  ℕ, ◌+◌, ◌<◌, ◌≡◌, refl, sym, ap, ◌∙◌, Bool, true, false, ◌&&◌, ◌||◌, List, [], ◌∷◌, All, All-map,
  ltb, ◌==◌, if◌then◌else◌, arith, ok, >>=-eq-ok, ok-injective, Bool-cases, inl, inr,
}
use rowhammer_tester.RowMapping.{RowMapping}
use rowhammer_tester.RowGenerator.{get_logical_victim}
use rowhammer_tester.HammerTolerance.{ReadError}
use rowhammer_tester.HalfDouble.{Params, Machine, advance}
use rowhammer_tester.HalfDouble.Process.{
  Errors, Key, same_key, Found, Analysis, set_row, to_logical, recorded_dilution, is_recorded,
  record_victim, see_row, see_rows, process_errors,
}

-- How many rows of a list are the row `v`.
abbrev hits : ℕ → List Errors → ℕ
hits v [] = 0
hits v (e ∷ es) = (if e.row == v then 1 else 0) + hits v es

abbrev Above : ℕ → List Errors → Type 0
Above low es = All (λ e. low < e.row) es

abbrev Ascending : List Errors → Type 0
Ascending [] = Unit
Ascending (e ∷ es) = Above e.row es × Ascending es

hits-Above : (v : ℕ) (es : List Errors) → Above v es → hits v es ≡ 0
hits-Above v [] h = refl
hits-Above v (e ∷ es) (lt, h) = ground (arith, hits-Above v es h)

set_row-Above :
    (low row : ℕ) (errors : List ReadError) (es : List Errors)
    → low < row
    → Above low es
    → Above low (set_row row errors es)
unfolding set_row
set_row-Above low row errors [] lt h = (lt, tt)
set_row-Above low row errors (e ∷ es) lt (p, h) =
    let rest = set_row-Above low row errors es lt h in
    elim (Bool-cases (ltb row e.row)) [
      | inl before ↦ rw before (lt, (p, h))
      | inr not_before ↦ elim (Bool-cases (row == e.row)) [
        | inl same ↦ rw (not_before, same) (lt, h)
        | inr behind ↦ rw (not_before, behind) (p, rest)
      ]
    ]

set_row-Ascending :
    (row : ℕ) (errors : List ReadError) (es : List Errors)
    → Ascending es
    → Ascending (set_row row errors es)
unfolding set_row
set_row-Ascending row errors [] h = (tt, tt)
set_row-Ascending row errors (e ∷ es) (above, h) =
    let rest = set_row-Ascending row errors es h in
    elim (Bool-cases (ltb row e.row)) [
      | inl before ↦
          let lt : row < e.row = ground arith in
          rw before (((lt, All-map (λ f g. lower f g lt) es above)), (above, h))
      | inr not_before ↦ elim (Bool-cases (row == e.row)) [
        | inl same ↦
            let eq : e.row ≡ row = ground arith in rw (not_before, same) (rw eq at above, h)
        | inr behind ↦
            rw (not_before, behind) (set_row-Above e.row row errors es (ground arith) above, rest)
      ]
    ]
  where
    lower : (f : Errors) → e.row < f.row → row < e.row → row < f.row
    lower f g lt = omega arith

hits-set_row :
    (v row : ℕ) (errors : List ReadError) (es : List Errors)
    → Ascending es
    → hits v (set_row row errors es) ≡ (if row == v then 1 else hits v es)
unfolding set_row
hits-set_row v row errors [] h = ground arith
hits-set_row v row errors (e ∷ es) (above, h) = elim (Bool-cases (row == v)) [
  | inr other ↦ ground (arith, hits-set_row v row errors es h)
  | inl here ↦
      let rest = hits-set_row v row errors es h in
      elim (Bool-cases (ltb row e.row)) [
        | inl before ↦
            let low : Above v es =
              All-map (λ f (g : e.row < f.row). lower f g (ground arith)) es above in
            ground (arith, hits-Above v es low)
        | inr not_before ↦ elim (Bool-cases (row == e.row)) [
          | inl same ↦
              let low : Above v es =
                All-map (λ f (g : e.row < f.row). as_high f g (ground arith)) es above in
              ground (arith, hits-Above v es low)
          | inr behind ↦ ground (arith, rest)
        ]
      ]
]
  where
    lower : (f : Errors) → e.row < f.row → v < e.row → v < f.row
    lower f g lt = omega arith

    as_high : (f : Errors) → e.row < f.row → e.row ≡ v → v < f.row
    as_high f g eq = omega arith

-- Whether the victim is among the rows, which are physical here.
abbrev pub victim_in : RowMapping → ℕ → List Errors → Bool
victim_in mapping v [] = false
victim_in mapping v (e ∷ es) = (mapping.physical_to_logical e.row == v) || victim_in mapping v es

hits-to_logical :
    (mapping : RowMapping) (v : ℕ) (es logical : List Errors)
    → Ascending logical
    → hits v (to_logical mapping es logical)
      ≡ (if victim_in mapping v es then 1 else hits v logical)
unfolding to_logical
hits-to_logical mapping v [] logical h = refl
hits-to_logical mapping v (e ∷ es) logical h =
    let row = mapping.physical_to_logical e.row in
    let rest =
      hits-to_logical mapping v es (set_row row e.errors logical)
        (set_row-Ascending row e.errors logical h) in
    ground (arith, rest, hits-set_row v row e.errors logical h)

-- The key under which a victim is recorded.
abbrev pub key_of : Machine → Key
key_of m = record { diluted = recorded_dilution m.state m.dilution; reads = m.total_read_count }

abbrev pub once : Bool → ℕ
once b = if b then 1 else 0

module _ (m : Machine) (v : ℕ) (k : Key) where
  see_row-count :
      (e : Errors) (f : Found)
      → ((see_row m v e f).victim_flipped ≡ (f.victim_flipped || (e.row == v)))
        × ((see_row m v e f).counts.row_count k
            ≡ f.counts.row_count k
              + once ((e.row == v) && (is_recorded m.state && same_key k (key_of m))))
  unfolding see_row record_victim
  see_row-count e f = elim (Bool-cases (e.row == v)) [
    | inl here ↦ elim (Bool-cases (is_recorded m.state)) [
      | inl counted ↦ elim (Bool-cases (same_key k (key_of m))) [
        | inl same ↦ rw (here, counted, same) (ground arith, refl)
        | inr other ↦ rw (here, counted, other) (ground arith, omega arith)
      ]
      | inr skipped ↦ rw (here, skipped) (ground arith, omega arith)
    ]
    | inr elsewhere ↦ rw elsewhere (ground arith, omega arith)
  ]

  abbrev counted_here : Bool
  counted_here = is_recorded m.state && same_key k (key_of m)

  see_rows-flipped :
      (es : List Errors) (f : Found)
      → (see_rows m v es f).victim_flipped ≡ (f.victim_flipped || ltb 0 (hits v es))
  unfolding see_rows
  see_rows-flipped [] f = ground arith
  see_rows-flipped (e ∷ es) f =
      ground (arith, see_rows-flipped es (see_row m v e f), (see_row-count e f).0)

  see_rows-count :
      (es : List Errors) (f : Found)
      → (see_rows m v es f).counts.row_count k
        ≡ f.counts.row_count k + (if counted_here then hits v es else 0)
  unfolding see_rows
  see_rows-count [] f = ground arith
  see_rows-count (e ∷ es) f =
      let rest = see_rows-count es (see_row m v e f) in
      let one = (see_row-count e f).1 in
      elim (Bool-cases counted_here) [
        | inl counts ↦
            rw counts
              (let r = rw counts at rest in let o = rw counts at one in ground (arith, r, o))
        | inr skips ↦
            rw skips (let r = rw skips at rest in let o = rw skips at one in ground (arith, r, o))
      ]

once_lem :
    (n : ℕ) (flipped counted : Bool)
    → n ≡ (if flipped then 1 else 0)
    → (if counted then n else 0) ≡ once (flipped && counted)
once_lem n true true h = h
once_lem n true false h = refl
once_lem n false true h = h
once_lem n false false h = refl

-- When `process_errors` returns, the state machine has advanced with a flipped victim exactly if a row
-- with errors is the logical victim of the iteration; and then, if the state was not the first, the
-- victim was counted once under its dilution and read count, and no row under any other key. Without
-- such a row, or in the first state, no count of rows has changed.
pub process_errors-recorded :
    (p : Params) (mapping : RowMapping) (row_errors : List Errors) (a b : Analysis) (victim : ℕ)
    (k : Key)
    → process_errors p mapping row_errors a ≡ ok b
    → get_logical_victim a.machine.generator a.machine.iteration ≡ ok victim
    → let flipped = victim_in mapping victim row_errors in
      (advance p flipped a.machine ≡ ok b.machine)
      × (b.counts.row_count k
          ≡ a.counts.row_count k
            + once (flipped && (is_recorded a.machine.state && same_key k (key_of a.machine))))
unfolding process_errors
process_errors-recorded p mapping row_errors a b victim k e v =
    let start : Found = record { victim_flipped = false; victim_errors = 0; counts = a.counts } in
    let logical = to_logical mapping row_errors [] in
    let f = see_rows a.machine victim logical start in
    let m = a.machine in
    let seen = hits-to_logical mapping victim row_errors [] tt in
    let flipped : f.victim_flipped ≡ victim_in mapping victim row_errors =
      ground (arith, see_rows-flipped m victim k logical start, seen) in
    let count : f.counts.row_count k
        ≡ a.counts.row_count k
          + once (
              victim_in mapping victim row_errors
              && (is_recorded a.machine.state && same_key k (key_of a.machine))) =
      see_rows-count m victim k logical start
      ∙ ap (λ n. a.counts.row_count k + n)
          (once_lem (hits victim logical) (victim_in mapping victim row_errors)
            (is_recorded m.state && same_key k (key_of m)) seen) in
    let (machine, steps, made) =
      >>=-eq-ok (advance p f.victim_flipped m) _ (rw (process_errors, v) at e) in
    let made_b = ok-injective made in
    (
      ap (λ t. advance p t m) (sym flipped) ∙ steps ∙ ap (λ t. ok t.machine) made_b,
      ap (λ t. t.counts.row_count k) (sym made_b) ∙ count,
    )
