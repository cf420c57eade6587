-- ===== src/RowHammer.antt =====
-- rowhammer_tester/scripts/rowhammer.py: class RowHammer, its rows and their errors. The cache of
-- the rows' addresses is left out: the bank and the settings stay, so it holds what would be
-- computed again. What is printed is left out too.
pub mod Display
pub mod LastColumn
pub mod Main
pub mod Sweep
pub mod Pairs
pub mod Run
pub mod Refreshes
use rowhammer_tester.Prelude.{
  ℕ, zero, suc, ◌+◌, ◌-◌, ◌*◌, ◌/◌, ◌%◌, ◌^◌, min, max, Bool, true, false, Option, some, none, List,
  [], ◌∷◌, ◌++◌, map, length, sum, ltb, leb, ◌==◌, if◌then◌else◌, range_from, Result, raised, ok,
  ◌>>=◌, value_error, index_error, key_error, unbound_local_error,
}
use rowhammer_tester.AddressConverter.{Converter, Location, encode_bus, decode_bus}
use rowhammer_tester.Memory.{memcheck}
use rowhammer_tester.BitFlips.{bitflips, bitflip_list, FlipRow, Block, dump_word}

-- The attributes that the attacks read.
pub record Attacker : Type 0 where
  pub nrows : ℕ
  pub column : ℕ
  pub bank : ℕ
  pub rows_start : ℕ
  pub colbits : ℕ
  pub no_refresh : Bool
  pub payload_executor : Bool
  pub sleeps : Bool
  pub data_inversion : Bool
  pub log_directory : Bool

unfoldable pub rows : Attacker → List ℕ
rows a = range_from a.nrows a.rows_start 1

-- A dictionary by rows: a key that is missing raises.
abbrev pub Patterns : Type 0
Patterns = List (ℕ × ℕ)

unfoldable pub pattern_of : Patterns → ℕ → Result ℕ
pattern_of [] row = raised key_error
pattern_of ((key, word) ∷ patterns) row =
    let rest = pattern_of patterns row in if key == row then ok word else rest

unfoldable pub patterns_const : ℕ → List ℕ → Patterns
patterns_const value rows = map (λ row. (row, value)) rows

unfoldable pub patterns_alternating_per_row : List ℕ → Patterns
patterns_alternating_per_row rows = map (λ row. (row, if row % 2 == 0 then 0xffffffff else 0)) rows

-- Python's `max` and `min` of a list.
abbrev pub max_from : ℕ → List ℕ → ℕ
max_from m [] = m
max_from m (x ∷ xs) = max_from (max m x) xs

abbrev pub min_from : ℕ → List ℕ → ℕ
min_from m [] = m
min_from m (x ∷ xs) = min_from (min m x) xs

-- An error of a row: the number of the word, what was read, and what was expected.
pub record WordError : Type 0 where
  pub index : ℕ
  pub word : ℕ
  pub expected : ℕ

pub record RowErrors : Type 0 where
  pub row : ℕ
  pub errors : List WordError

-- `errors_count`
unfoldable pub errors_count : List RowErrors → ℕ
errors_count [] = 0
errors_count (r ∷ rs) = elim r.errors [ [] ↦ errors_count rs | _ ↦ suc (errors_count rs) ]

unfoldable pub sum_flips : List WordError → ℕ
sum_flips [] = 0
sum_flips (e ∷ es) = bitflips e.word e.expected + sum_flips es

unfoldable pub errors_bitcount : List RowErrors → ℕ
unfolding sum_flips
errors_bitcount [] = 0
errors_bitcount (r ∷ rs) = sum_flips r.errors + errors_bitcount rs

-- What `row_access_iterator` yields.
pub record Access : Type 0 where
  pub row : ℕ
  pub words : ℕ
  pub base_addr : ℕ

-- The item of `err_dict` of a row.
pub record Summary : Type 0 where
  pub key : ℕ
  pub row : ℕ
  pub cols : List (ℕ × List ℕ)
  pub flips : ℕ

-- `cols[col] = bitflips`
unfoldable pub set_col : ℕ → List ℕ → List (ℕ × List ℕ) → List (ℕ × List ℕ)
set_col col flips [] = (col, flips) ∷ []
set_col col flips ((key, old) ∷ cols) =
    let rest = set_col col flips cols in
    if key == col then (col, flips) ∷ cols else (key, old) ∷ rest

-- The local variables of `display_errors` that outlive a round of its loop.
pub record Locals : Type 0 where
  pub decoded_row : Option ℕ
  pub row_flips : Option ℕ

-- `flips`, set in the rounds of the rows that have errors.
unfoldable pub latest : List WordError → Option ℕ → Option ℕ
unfolding sum_flips
latest [] flips = flips
latest (e ∷ errors) flips = some (sum_flips (e ∷ errors))

abbrev pub minimum : List ℕ → Result ℕ
minimum [] = raised value_error
minimum (x ∷ xs) = ok (min_from x xs)

abbrev pub main_base : ℕ
main_base = 0x40000000

module _ (log2_int : ℕ → ℕ) (c : Converter) (a : Attacker) where
  abbrev pub bus_address : ℕ → ℕ → Result ℕ
  bus_address row col =
      encode_bus log2_int c main_base 32 (record { bank = a.bank; row = row; col = col })

  unfoldable pub column_addresses : ℕ → List ℕ → Result (List ℕ)
  column_addresses row [] = ok []
  column_addresses row (col ∷ cols) = do
    address ← bus_address row col
    addresses ← column_addresses row cols
    ok (address ∷ addresses)

  unfoldable pub addresses_per_row : ℕ → Result (List ℕ)
  unfolding column_addresses
  addresses_per_row row = column_addresses row (range_from (2 ^ a.colbits) 0 1)

  -- `min(self.addresses_per_row(row))`
  unfoldable pub row_base : ℕ → Result ℕ
  unfolding addresses_per_row
  row_base row = addresses_per_row row >>= minimum

  unfoldable pub access_of : ℕ → List ℕ → Result Access
  access_of row [] = raised value_error
  access_of row (first ∷ addresses) = ok (record {
    row = row;
    words = (max_from first addresses - min_from first addresses) / 4;
    base_addr = first;
  })

  -- One item of `row_access_iterator`.
  unfoldable pub row_access : ℕ → Result Access
  unfolding addresses_per_row access_of
  row_access row = addresses_per_row row >>= access_of row

  -- `check_errors`, reading through `read`.
  unfoldable pub check_rows : (ℕ → ℕ → List ℕ) → Patterns → List ℕ → Result (List RowErrors)
  unfolding row_access pattern_of memcheck
  check_rows read patterns [] = ok []
  check_rows read patterns (row ∷ rows) = do
    access ← row_access row
    pattern_word ← pattern_of patterns row
    let errors = memcheck read access.base_addr 255 access.words pattern_word
    rest ← check_rows read patterns rows
    ok (
        record {
          row = row;
          errors = map (λ e. record { index = e.0; word = e.1; expected = pattern_word }) errors;
        }
        ∷ rest)

  unfoldable pub check_errors : (ℕ → ℕ → List ℕ) → Patterns → Result (List RowErrors)
  unfolding check_rows rows
  check_errors read patterns = check_rows read patterns (rows a)

  -- The loop over the errors of a row, where it runs.
  unfoldable pub show_words :
      ℕ → List WordError → Option ℕ → List (ℕ × List ℕ) → Result (Option ℕ × List (ℕ × List ℕ))
  unfolding row_base set_col
  show_words row [] decoded cols = ok (decoded, cols)
  show_words row (e ∷ errors) decoded cols = do
    base_addr ← row_base row
    let at = decode_bus log2_int c main_base 32 (base_addr + 4 * e.index)
    show_words row errors (some at.row) (set_col at.col (bitflip_list e.word e.expected) cols)

  -- `err_dict[str(row)]`, of two variables that an earlier round may have set, or none.
  unfoldable pub summary_of : ℕ → Locals → List (ℕ × List ℕ) → Result Summary
  summary_of row l cols = elim l.decoded_row [
    | none ↦ raised unbound_local_error
    | some decoded ↦ elim l.row_flips [
      | none ↦ raised unbound_local_error
      | some flips ↦ ok (record { key = row; row = decoded; cols = cols; flips = flips })
    ]
  ]

  -- The loop of `display_errors` with `do_error_summary`.
  unfoldable pub summarize : List RowErrors → Locals → Result (List Summary)
  unfolding latest show_words summary_of
  summarize [] l = ok []
  summarize (r ∷ rs) l = do
    let flips = latest r.errors l.row_flips
    (decoded, cols) ← show_words r.row r.errors l.decoded_row []
    summary ← summary_of r.row (record { decoded_row = decoded; row_flips = flips }) cols
    rest ← summarize rs (record { decoded_row = decoded; row_flips = flips })
    ok (summary ∷ rest)
