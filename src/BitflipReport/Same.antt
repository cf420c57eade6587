-- ===== src/BitflipReport/Same.antt =====
-- The two ways in which the script counts the bits of the cells give the same numbers.
use rowhammer_tester.Prelude.{
  suc, ◌≡◌, refl, ap, ap₂, sym, Bool, false, ◌||◌, List, [], ◌∷◌, map, length, All, if◌then◌else◌,
  arith, Bool-cases, inl, inr,
}
use rowhammer_tester.BitFlips.{FlipRow}
use rowhammer_tester.BitflipReport.{
  Spot, spot_of, same_cell, same_spot, has_spot, distinct, Cell, has_bit, put_bit, cells_of,
  counter, get, sum_from, sizes, run_summary, CellCount, tick_cell, count_cells, report_line,
}

-- No spot stands twice.
abbrev NoTwice : List Spot → Type 0
NoTwice [] = Unit
NoTwice (s ∷ ss) = (has_spot s ss ≡ false) × NoTwice ss

distinct-NoTwice : (fs : List FlipRow) → NoTwice (distinct fs)
unfolding distinct
distinct-NoTwice [] = tt
distinct-NoTwice (f ∷ fs) =
    let rest = distinct-NoTwice fs in
    elim (Bool-cases (has_spot (spot_of f) (distinct fs))) [
      | inl there ↦ rw there rest
      | inr fresh ↦ rw fresh (fresh, rest)
    ]

-- Whether a cell has the bit of a spot.
abbrev held : Spot → List Cell → Bool
held s [] = false
held s (c ∷ cs) =
    (if same_cell s.row s.byte c.row c.byte then has_bit s.bit c.bits else false) || held s cs

-- The cells of the sets and of the Counter are the same, and as large.
abbrev SameCells : List Cell → List CellCount → Type 0
SameCells [] [] = Unit
SameCells [] (k ∷ ks) = ⊥
SameCells (c ∷ cs) [] = ⊥
SameCells (c ∷ cs) (k ∷ ks) =
    (c.row ≡ k.row) × (c.byte ≡ k.byte) × (length c.bits ≡ k.count) × SameCells cs ks

put_bit-same :
    (s : Spot) (cells : List Cell) (counts : List CellCount)
    → held s cells ≡ false
    → SameCells cells counts
    → SameCells (put_bit s cells) (tick_cell s counts)
unfolding put_bit tick_cell
put_bit-same s [] [] h same = (refl, refl, refl, tt)
put_bit-same s [] (k ∷ ks) h same = elim same [ ]
put_bit-same s (c ∷ cs) [] h same = elim same [ ]
put_bit-same s (c ∷ cs) (k ∷ ks) h (row, byte, size, same) =
    let rest = λ (g : held s cs ≡ false). put_bit-same s cs ks g same in
    let there : same_cell s.row s.byte k.row k.byte ≡ same_cell s.row s.byte c.row c.byte =
      ap₂ (same_cell s.row s.byte) (sym row) (sym byte) in
    elim (Bool-cases (same_cell s.row s.byte c.row c.byte)) [
      | inl here ↦
          let new : has_bit s.bit c.bits ≡ false = ground arith in
          rw (there, here, new) (row, byte, omega arith, same)
      | inr elsewhere ↦ rw (there, elsewhere) (row, byte, size, rest (ground arith))
    ]

same_spot-sym : (s t : Spot) → same_spot s t ≡ same_spot t s
same_spot-sym s t = ground arith

held-put_bit :
    (s t : Spot) (cells : List Cell)
    → same_spot s t ≡ false
    → held s cells ≡ false
    → held s (put_bit t cells) ≡ false
unfolding put_bit
held-put_bit s t [] differ h = ground arith
held-put_bit s t (c ∷ cs) differ h = ground (arith, held-put_bit s t cs differ)

-- The spots that are still to come are in no cell.
abbrev Fresh : List Cell → List Spot → Type 0
Fresh cells ss = All (λ s. held s cells ≡ false) ss

has_spot-Fresh :
    (t : Spot) (cells : List Cell) (ss : List Spot)
    → has_spot t ss ≡ false
    → Fresh cells ss
    → Fresh (put_bit t cells) ss
has_spot-Fresh t cells [] absent h = tt
has_spot-Fresh t cells (s ∷ ss) absent (new, h) = (
  held-put_bit s t cells (ground (arith, same_spot-sym s t)) new,
  has_spot-Fresh t cells ss (ground arith) h,
)

cells_of-same :
    (ss : List Spot) (cells : List Cell) (counts : List CellCount)
    → NoTwice ss
    → Fresh cells ss
    → SameCells cells counts
    → SameCells (cells_of ss cells) (count_cells ss counts)
unfolding cells_of count_cells
cells_of-same [] cells counts once new same = same
cells_of-same (s ∷ ss) cells counts (absent, once) (new, later) same =
    cells_of-same ss (put_bit s cells) (tick_cell s counts) once
      (has_spot-Fresh s cells ss absent later) (put_bit-same s cells counts new same)

sizes-same :
    (cells : List Cell) (counts : List CellCount)
    → SameCells cells counts
    → (sizes cells ≡ map (λ c. c.count) counts) × (length cells ≡ length counts)
sizes-same [] [] same = (refl, refl)
sizes-same [] (k ∷ ks) same = elim same [ ]
sizes-same (c ∷ cs) [] same = elim same [ ]
sizes-same (c ∷ cs) (k ∷ ks) (row, byte, size, same) =
    let (rest, many) = sizes-same cs ks same in (ap₂ ◌∷◌ size rest, ap suc many)

Fresh-nothing : (ss : List Spot) → Fresh [] ss
Fresh-nothing [] = tt
Fresh-nothing (s ∷ ss) = (refl, Fresh-nothing ss)

-- For every run, the line of the report, which counts the distinct spots of each cell, has the cells
-- and the numbers of the run's summary, which collects the bits of each cell in a set.
pub report_line-run_summary :
    (fs : List FlipRow)
    → let s = run_summary fs in
      report_line fs ≡ record {
        cells = s.byte_cells;
        one = s.single;
        two = s.double;
        three = s.triple;
        more = s.four_plus;
      }
unfolding report_line run_summary
report_line-run_summary fs =
    let spots = distinct fs in
    let (values, many) =
      sizes-same (cells_of spots []) (count_cells spots [])
        (cells_of-same spots [] [] (distinct-NoTwice fs) (Fresh-nothing spots) tt) in
    ap₂
      (λ n ns. record {
        cells = n;
        one = get 1 (counter ns []);
        two = get 2 (counter ns []);
        three = get 3 (counter ns []);
        more = sum_from 4 (counter ns []);
      })
      (sym many) (sym values)
