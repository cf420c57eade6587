-- ===== src/RowHammer/Pairs.antt =====
-- rowhammer.py: main, the pairs of rows that its arguments select. The random numbers are given.
-- `parser.error` exits. The numeric arguments are natural numbers here: the parser also takes negative
-- ones, with which a range may run downwards and rows be negative, and these are left out.
use native.Mathlib.Nat.{mod-add-div', mod-lt, mul-le-mul_right}
use rowhammer_tester.Prelude.{
  ℕ, zero, suc, ◌+◌, ◌-◌, ◌*◌, ◌/◌, ◌≤◌, ◌<◌, ◌≡◌, refl, ap, ap₂, ◌∙◌, true, false, Option, some,
  none, List, [], ◌∷◌, map, get_elem?, ltb, ◌==◌, if◌then◌else◌, range_from, Result, raised, ok,
  ◌>>=◌, system_exit, value_error, arith, Bool-cases, inl, inr,
}

-- `range(start, stop, step)`, for a step that is not negative.
unfoldable pub range_between : (start stop step : ℕ) → Result (List ℕ)
range_between start stop step =
    if step == 0
    then raised value_error
    else ok (range_from ((stop - start + step - 1) / step) start step)

-- Which operation the arguments select; the parser keeps the groups exclusive. A negative distance,
-- with which `main` exits, and a negative jump, with which it does not, are left out.
pub data Selection : Type 0 where
  hammer_only : List ℕ → Selection
  all_rows : (distance jump : ℕ) → Selection
  sequential : Selection
  const : Option (ℕ × ℕ) → Selection
  random : (ℕ → ℕ) → Selection
  no_attack : Selection
  no_operation : Selection

unfoldable pub random_pairs : (ℕ → ℕ) → ℕ → ℕ → List (List ℕ)
random_pairs drawn zero i = []
random_pairs drawn (suc n) i = (drawn i ∷ drawn (i + 1) ∷ []) ∷ random_pairs drawn n (i + 2)

unfoldable pub row_pairs : (start_row nrows : ℕ) → Selection → Result (List (List ℕ))
unfolding range_between random_pairs
row_pairs start_row nrows (hammer_only rows) = ok (rows ∷ [])
row_pairs start_row nrows (all_rows distance jump) = do
  firsts ← range_between start_row (nrows - distance) jump
  ok (map (λ i. i ∷ (i + distance) ∷ []) firsts)
row_pairs start_row nrows sequential =
    if nrows == 0
    then raised system_exit
    else ok (map (λ i. start_row ∷ (start_row + i) ∷ []) (range_from nrows 0 1))
row_pairs start_row nrows (const none) = raised system_exit
row_pairs start_row nrows (const (some (a, b))) = ok ((a ∷ b ∷ []) ∷ [])
row_pairs start_row nrows (random drawn) =
    if nrows == 0 then raised system_exit else ok (random_pairs drawn nrows 0)
row_pairs start_row nrows no_attack = ok []
row_pairs start_row nrows no_operation = raised system_exit

-- The pair of which the first row is `i`.
abbrev pair_at : (distance i : ℕ) → List ℕ
pair_at distance i = i ∷ (i + distance) ∷ []

some_left : (n : ℕ) → true ≡ ltb 0 (suc n)
some_left n = ground arith

get_elem?-range_from :
    (distance n start step k : ℕ)
    → get_elem? (map (pair_at distance) (range_from n start step)) k
      ≡ (if ltb k n then some (pair_at distance (start + k * step)) else none)
get_elem?-range_from distance zero start step k = ground arith
get_elem?-range_from distance (suc n) start step zero =
    ap₂ (λ b i. if b then some (pair_at distance i) else none) (some_left n) (omega arith)
get_elem?-range_from distance (suc n) start step (suc k) =
    let further : start + step + k * step ≡ start + suc k * step = ground arith in
    get_elem?-range_from distance n (start + step) step k
    ∙ ap₂ (λ b i. if b then some (pair_at distance i) else none) (ground arith) further

-- The steps of a range that stay below its end.
below_end : (width step k : ℕ) → 0 < step → ltb k ((width + step - 1) / step) ≡ ltb (k * step) width
below_end width step k pos =
    let n : ℕ = (width + step - 1) / step in
    let whole = mod-add-div' (width + step - 1) step in
    let part = mod-lt (width + step - 1) pos in
    elim (Bool-cases (ltb k n)) [
      | inl e ↦
          let one_more : suc k * step ≤ n * step = mul-le-mul_right step (ground (arith, e)) in
          let below : k * step < width = omega (arith, whole, one_more, pos) in
          e ∙ ground (arith, below)
      | inr e ↦
          let as_many : n * step ≤ k * step = mul-le-mul_right step (ground (arith, e)) in
          let above : width ≤ k * step = omega (arith, whole, as_many, part, pos) in
          e ∙ ground (arith, above)
    ]

-- For a jump of at least one, `--all-rows` selects a list of pairs, of which the pair `k`, counted
-- from 0, is of the row `k` jumps behind the start row and the one at the distance asked for, as long
-- as that second row is below the number of rows, and the list ends there.
pub row_pairs-all_rows :
    (start_row nrows distance jump : ℕ)
    → 0 < jump
    → (pairs : List (List ℕ)) × (row_pairs start_row nrows (all_rows distance jump) ≡ ok pairs)
      × ((k : ℕ)
          → let first = start_row + k * jump in
            get_elem? pairs k ≡ (
              if ltb (first + distance) nrows
              then some (first ∷ (first + distance) ∷ [])
              else none))
unfolding row_pairs range_between
row_pairs-all_rows start_row nrows distance jump pos =
    let stop : ℕ = nrows - distance in
    let n : ℕ = (stop - start_row + jump - 1) / jump in
    (
      map (pair_at distance) (range_from n start_row jump),
      rw some_step refl,
      λ k.
          get_elem?-range_from distance n start_row jump k
          ∙ ap (λ b. if b then some (pair_at distance (start_row + k * jump)) else none)
              (below_end (stop - start_row) jump k pos ∙ ends (k * jump)),
    )
  where
    some_step : (jump == 0) ≡ false
    some_step = ground (arith, pos)

    ends : (i : ℕ) → ltb i (nrows - distance - start_row) ≡ ltb (start_row + i + distance) nrows
    ends i = ground arith
