-- ===== src/BitflipReport/Sums.antt =====
-- The numbers of run_summary add up.
use rowhammer_tester.Prelude.{
  ℕ, suc, ◌+◌, ◌≤◌, ◌<◌, ◌≡◌, refl, ap, ◌∙◌, List, [], ◌∷◌, length, All, leb, ◌==◌, if◌then◌else◌,
  arith, Bool-cases, inl, inr,
}
use rowhammer_tester.BitFlips.{FlipRow}
use rowhammer_tester.BitflipReport.{
  Spot, same_cell, distinct, Cell, add_bit, put_bit, cells_of, Tally, tick_key, counter, get,
  sum_from, Pairs, count_pair, count_pairs, sizes, run_summary,
}

get-tick_key :
    (n k : ℕ) (ts : List Tally) → get n (tick_key k ts) ≡ (if k == n then 1 else 0) + get n ts
unfolding get tick_key
get-tick_key n k [] = ground arith
get-tick_key n k (t ∷ ts) = ground (arith, get-tick_key n k ts)

sum_from-tick_key :
    (l k : ℕ) (ts : List Tally)
    → sum_from l (tick_key k ts) ≡ (if leb l k then 1 else 0) + sum_from l ts
unfolding sum_from tick_key
sum_from-tick_key l k [] = ground arith
sum_from-tick_key l k (t ∷ ts) = ground (arith, sum_from-tick_key l k ts)

-- What is counted as single, double, triple, and four or more.
abbrev total : List Tally → ℕ
total ts = get 1 ts + get 2 ts + get 3 ts + sum_from 4 ts

total-tick_key : (k : ℕ) (ts : List Tally) → 0 < k → total (tick_key k ts) ≡ suc (total ts)
total-tick_key k ts pos =
    ground (
      arith,
      get-tick_key 1 k ts,
      get-tick_key 2 k ts,
      get-tick_key 3 k ts,
      sum_from-tick_key 4 k ts,
    )

total-counter :
    (ns : List ℕ) (ts : List Tally)
    → All (λ n. 0 < n) ns
    → total (counter ns ts) ≡ length ns + total ts
unfolding counter
total-counter [] ts h = omega arith
total-counter (n ∷ ns) ts (pos, h) =
    omega (arith, total-counter ns (tick_key n ts) h, total-tick_key n ts pos)

-- Every cell has a bit.
abbrev Filled : List Cell → Type 0
Filled cells = All (λ n. 0 < n) (sizes cells)

length-add_bit : (bit : ℕ) (bits : List ℕ) → 0 < length bits → 0 < length (add_bit bit bits)
length-add_bit bit bits h = ground arith

put_bit-Filled : (s : Spot) (cells : List Cell) → Filled cells → Filled (put_bit s cells)
unfolding put_bit
put_bit-Filled s [] h = (omega arith, tt)
put_bit-Filled s (c ∷ cs) (p, h) =
    let rest = put_bit-Filled s cs h in
    elim (Bool-cases (same_cell s.row s.byte c.row c.byte)) [
      | inl here ↦ rw here (length-add_bit s.bit c.bits p, h)
      | inr there ↦ rw there (p, rest)
    ]

cells_of-Filled : (ss : List Spot) (cells : List Cell) → Filled cells → Filled (cells_of ss cells)
unfolding cells_of
cells_of-Filled [] cells h = h
cells_of-Filled (s ∷ ss) cells h = cells_of-Filled ss (put_bit s cells) (put_bit-Filled s cells h)

length-put_bit : (s : Spot) (cells : List Cell) → length (put_bit s cells) ≤ suc (length cells)
unfolding put_bit
length-put_bit s [] = omega arith
length-put_bit s (c ∷ cs) = ground (arith, length-put_bit s cs)

length-cells_of :
    (ss : List Spot) (cells : List Cell) → length (cells_of ss cells) ≤ length ss + length cells
unfolding cells_of
length-cells_of [] cells = omega arith
length-cells_of (s ∷ ss) cells =
    omega (arith, length-cells_of ss (put_bit s cells), length-put_bit s cells)

length-distinct : (fs : List FlipRow) → length (distinct fs) ≤ length fs
unfolding distinct
length-distinct [] = omega arith
length-distinct (f ∷ fs) = ground (arith, length-distinct fs)

length-sizes : (cells : List Cell) → length (sizes cells) ≡ length cells
length-sizes [] = refl
length-sizes (c ∷ cs) = ap suc (length-sizes cs)

abbrev both : Pairs → ℕ
both p = p.adjacent + p.non_adjacent

both-count_pair :
    (bits : List ℕ) (p : Pairs)
    → both (count_pair bits p) ≡ (if length bits == 2 then 1 else 0) + both p
unfolding count_pair
both-count_pair [] p = ground arith
both-count_pair (x ∷ []) p = ground arith
both-count_pair (x ∷ y ∷ []) p = ground arith
both-count_pair (x ∷ y ∷ z ∷ bits) p = ground arith

double_lem :
    (cells : List Cell) (p : Pairs) (ts : List Tally)
    → get 2 (counter (sizes cells) ts) + both p ≡ get 2 ts + both (count_pairs cells p)
unfolding counter count_pairs
double_lem [] p ts = refl
double_lem (c ∷ cs) p ts = omega (
  arith,
  double_lem cs (count_pair c.bits p) (tick_key (length c.bits) ts),
  both-count_pair c.bits p,
  get-tick_key 2 (length c.bits) ts,
)

-- In the summary of every run, the cells with one, two, three and more flipped bits are all its byte
-- cells, of which there are no more than flips; and the double ones are those with adjacent and those
-- with non-adjacent bits.
pub run_summary-sums :
    (fs : List FlipRow)
    → let s = run_summary fs in
      (s.single + s.double + s.triple + s.four_plus ≡ s.byte_cells)
      × (s.double ≡ s.double_adjacent + s.double_non_adjacent)
      × (s.byte_cells ≤ s.flips)
unfolding run_summary get sum_from
run_summary-sums fs =
    let cells = cells_of (distinct fs) [] in
    let filled = cells_of-Filled (distinct fs) [] tt in
    (
      total-counter (sizes cells) [] filled ∙ omega (arith, length-sizes cells),
      omega (arith, double_lem cells (record { adjacent = 0; non_adjacent = 0 }) []),
      omega (arith, length-cells_of (distinct fs) [], length-distinct fs),
    )
