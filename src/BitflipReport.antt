-- ===== src/BitflipReport.antt =====
-- rowhammer_tester/scripts/bitflip_report.py: the statistics of a run, of run_summary and again of
-- build_report. The flips are the rows of the log. A set is a list without its repetitions, whose
-- order does not show in the numbers; a Counter is the list of its keys with their counts.
pub mod Sums
pub mod Same
use rowhammer_tester.Prelude.{
  ℕ, zero, suc, ◌+◌, ◌-◌, max, min, Bool, true, false, not, ◌&&◌, ◌||◌, Option, some, none, List,
  [], ◌∷◌, map, length, leb, ◌==◌, if◌then◌else◌,
}
use rowhammer_tester.BitFlips.{FlipRow}

-- A bit of a byte of a row; the bank is not part of it.
pub record Spot : Type 0 where
  pub row : ℕ
  pub byte : ℕ
  pub bit : ℕ

abbrev pub spot_of : FlipRow → Spot
spot_of f = record { row = f.row; byte = f.byte_in_row; bit = f.bit_in_byte }

abbrev pub same_cell : (row byte row' byte' : ℕ) → Bool
same_cell row byte row' byte' = if row == row' then byte == byte' else false

abbrev pub same_spot : Spot → Spot → Bool
same_spot s t = if same_cell s.row s.byte t.row t.byte then s.bit == t.bit else false

abbrev pub has_spot : Spot → List Spot → Bool
has_spot s [] = false
has_spot s (t ∷ ts) = same_spot s t || has_spot s ts

-- `{(f["row"], f["byte_in_row"], f["bit_in_byte"]) for f in run_flips}`
unfoldable pub distinct : List FlipRow → List Spot
distinct [] = []
distinct (f ∷ fs) =
    let rest = distinct fs in if has_spot (spot_of f) rest then rest else spot_of f ∷ rest

-- An item of `per_cell`.
pub record Cell : Type 0 where
  pub row : ℕ
  pub byte : ℕ
  pub bits : List ℕ

abbrev pub has_bit : ℕ → List ℕ → Bool
has_bit bit [] = false
has_bit bit (b ∷ bs) = (bit == b) || has_bit bit bs

abbrev pub add_bit : ℕ → List ℕ → List ℕ
add_bit bit bits = if has_bit bit bits then bits else bit ∷ bits

-- `per_cell[(row, byte)].add(bit)`
unfoldable pub put_bit : Spot → List Cell → List Cell
put_bit s [] = record { row = s.row; byte = s.byte; bits = s.bit ∷ [] } ∷ []
put_bit s (c ∷ cs) =
    let rest = put_bit s cs in
    if same_cell s.row s.byte c.row c.byte
    then record { row = c.row; byte = c.byte; bits = add_bit s.bit c.bits } ∷ cs
    else c ∷ rest

unfoldable pub cells_of : List Spot → List Cell → List Cell
unfolding put_bit
cells_of [] cells = cells
cells_of (s ∷ ss) cells = cells_of ss (put_bit s cells)

-- A key of a Counter of numbers, with its count.
pub record Tally : Type 0 where
  pub key : ℕ
  pub count : ℕ

unfoldable pub tick_key : ℕ → List Tally → List Tally
tick_key n [] = record { key = n; count = 1 } ∷ []
tick_key n (t ∷ ts) =
    let rest = tick_key n ts in
    if t.key == n then record { key = t.key; count = t.count + 1 } ∷ ts else t ∷ rest

-- `Counter(values)`
unfoldable pub counter : List ℕ → List Tally → List Tally
unfolding tick_key
counter [] tallies = tallies
counter (n ∷ ns) tallies = counter ns (tick_key n tallies)

-- `hist.get(n, 0)`
unfoldable pub get : ℕ → List Tally → ℕ
get n [] = 0
get n (t ∷ ts) = let rest = get n ts in if t.key == n then t.count else rest

-- `sum(count for n, count in hist.items() if n >= least)`
unfoldable pub sum_from : ℕ → List Tally → ℕ
sum_from least [] = 0
sum_from least (t ∷ ts) = (if leb least t.key then t.count else 0) + sum_from least ts

-- The pairs of bits that are adjacent, and those that are not.
pub record Pairs : Type 0 where
  pub adjacent : ℕ
  pub non_adjacent : ℕ

-- `low, high = sorted(bits)`, where there are two.
unfoldable pub count_pair : List ℕ → Pairs → Pairs
count_pair (x ∷ y ∷ []) p =
    if max x y - min x y == 1
    then record p { adjacent = p.adjacent + 1 }
    else record p { non_adjacent = p.non_adjacent + 1 }
count_pair [] p = p
count_pair (x ∷ []) p = p
count_pair (x ∷ y ∷ z ∷ bits) p = p

unfoldable pub count_pairs : List Cell → Pairs → Pairs
unfolding count_pair
count_pairs [] p = p
count_pairs (c ∷ cs) p = count_pairs cs (count_pair c.bits p)

pub record RunSummary : Type 0 where
  pub flips : ℕ
  pub byte_cells : ℕ
  pub single : ℕ
  pub double : ℕ
  pub triple : ℕ
  pub four_plus : ℕ
  pub double_adjacent : ℕ
  pub double_non_adjacent : ℕ

abbrev pub sizes : List Cell → List ℕ
sizes cells = map (λ c. length c.bits) cells

unfoldable pub run_summary : List FlipRow → RunSummary
unfolding distinct cells_of counter get sum_from count_pairs
run_summary run_flips =
    let per_cell = cells_of (distinct run_flips) [] in
    let hist = counter (sizes per_cell) [] in
    let pairs = count_pairs per_cell (record { adjacent = 0; non_adjacent = 0 }) in
    record {
      flips = length run_flips;
      byte_cells = length per_cell;
      single = get 1 hist;
      double = get 2 hist;
      triple = get 3 hist;
      four_plus = sum_from 4 hist;
      double_adjacent = pairs.adjacent;
      double_non_adjacent = pairs.non_adjacent;
    }

-- An item of the Counter of cells, in build_report.
pub record CellCount : Type 0 where
  pub row : ℕ
  pub byte : ℕ
  pub count : ℕ

unfoldable pub tick_cell : Spot → List CellCount → List CellCount
tick_cell s [] = record { row = s.row; byte = s.byte; count = 1 } ∷ []
tick_cell s (c ∷ cs) =
    let rest = tick_cell s cs in
    if same_cell s.row s.byte c.row c.byte
    then record { row = c.row; byte = c.byte; count = c.count + 1 } ∷ cs
    else c ∷ rest

-- `Counter((row, byte) for row, byte, _bit in keys)`
unfoldable pub count_cells : List Spot → List CellCount → List CellCount
unfolding tick_cell
count_cells [] counts = counts
count_cells (s ∷ ss) counts = count_cells ss (tick_cell s counts)

-- The line of a run in the table of build_report: the cells, and those with one, two, three and more
-- bits.
pub record ReportLine : Type 0 where
  pub cells : ℕ
  pub one : ℕ
  pub two : ℕ
  pub three : ℕ
  pub more : ℕ

unfoldable pub report_line : List FlipRow → ReportLine
unfolding distinct count_cells counter get sum_from
report_line run_flips =
    let per_cell = count_cells (distinct run_flips) [] in
    let hist = counter (map (λ c. c.count) per_cell) [] in
    record {
      cells = length per_cell;
      one = get 1 hist;
      two = get 2 hist;
      three = get 3 hist;
      more = sum_from 4 hist;
    }
