-- ===== src/HalfDouble/Process.antt =====
-- half_double_analysis.py: process_errors, and the loop `while not pg.done()` of playbook.py. What the
-- loop does between the calls of the generator, filling the memory, executing the payload, testing and
-- decoding, is the function that gives the errors of a measurement by its number.
use rowhammer_tester.Prelude.{
  ℕ, zero, suc, ◌+◌, Bool, true, false, Option, some, none, List, [], ◌∷◌, ◌++◌, ltb, ◌==◌,
  if◌then◌else◌, Result, ok, ◌>>=◌,
}
use rowhammer_tester.RowMapping.{RowMapping}
use rowhammer_tester.RowGenerator.{get_logical_victim}
use rowhammer_tester.HammerTolerance.{ReadError}
use rowhammer_tester.BitFlips.{bitflips}
use rowhammer_tester.HalfDouble.{
  Params, Machine, AnalysisState, at_distance_one, at_distance_two, initialize, advance, done,
}

unfoldable pub sum_bitflips : List ReadError → ℕ
sum_bitflips [] = 0
sum_bitflips (e ∷ es) = bitflips e.value e.expected + sum_bitflips es

-- A key of the three dictionaries.
pub record Key : Type 0 where
  pub diluted : Option ℕ
  pub reads : ℕ

abbrev pub same_dilution : Option ℕ → Option ℕ → Bool
same_dilution (some a) (some b) = a == b
same_dilution none none = true
same_dilution (some a) none = false
same_dilution none (some b) = false

abbrev pub same_key : Key → Key → Bool
same_key a b = if same_dilution a.diluted b.diluted then a.reads == b.reads else false

pub record Counts : Type 0 where
  pub row_count : Key → ℕ
  pub bit_count : Key → ℕ
  pub victim_list : Key → List ℕ

unfoldable pub nothing_counted : Counts
nothing_counted = record { row_count = λ k. 0; bit_count = λ k. 0; victim_list = λ k. [] }

-- A row of `row_errors_logical`.
pub record Errors : Type 0 where
  pub row : ℕ
  pub errors : List ReadError

-- `row_errors_logical[logical] = (row, errors)`, kept in the order of the keys.
unfoldable pub set_row : ℕ → List ReadError → List Errors → List Errors
set_row row errors [] = record { row = row; errors = errors } ∷ []
set_row row errors (e ∷ es) =
    let rest = set_row row errors es in
    if ltb row e.row
    then record { row = row; errors = errors } ∷ e ∷ es
    else if row == e.row
    then record { row = row; errors = errors } ∷ es
    else e ∷ rest

unfoldable pub to_logical : RowMapping → List Errors → List Errors → List Errors
unfolding set_row
to_logical mapping [] logical = logical
to_logical mapping (e ∷ es) logical =
    to_logical mapping es (set_row (mapping.physical_to_logical e.row) e.errors logical)

-- `dilution` of a victim that is recorded; the one at the first state is not.
unfoldable pub recorded_dilution : AnalysisState → ℕ → Option ℕ
recorded_dilution at_distance_two dilution = none
recorded_dilution _ dilution = some dilution

unfoldable pub is_recorded : AnalysisState → Bool
is_recorded at_distance_one = false
is_recorded _ = true

-- The three updates under a key.
unfoldable pub record_victim : Key → (bits victim : ℕ) → Counts → Counts
record_victim key bits victim c = record {
  row_count = λ k. if same_key k key then c.row_count k + 1 else c.row_count k;
  bit_count = λ k. if same_key k key then c.bit_count k + bits else c.bit_count k;
  victim_list = λ k. if same_key k key then c.victim_list k ++ victim ∷ [] else c.victim_list k;
}

-- The variables of the loop over the logical rows.
pub record Found : Type 0 where
  pub victim_flipped : Bool
  pub victim_errors : ℕ
  pub counts : Counts

unfoldable pub see_row : Machine → ℕ → Errors → Found → Found
unfolding recorded_dilution is_recorded record_victim sum_bitflips
see_row m victim e f =
    let bits = f.victim_errors + sum_bitflips e.errors in
    let key : Key = record {
      diluted = recorded_dilution m.state m.dilution;
      reads = m.total_read_count;
    } in
    if e.row == victim
    then (if is_recorded m.state
        then record {
          victim_flipped = true;
          victim_errors = bits;
          counts = record_victim key bits victim f.counts;
        }
        else record f { victim_flipped = true })
    else f

unfoldable pub see_rows : Machine → ℕ → List Errors → Found → Found
unfolding see_row
see_rows m victim [] f = f
see_rows m victim (e ∷ es) f = see_rows m victim es (see_row m victim e f)

-- The generator, with its dictionaries.
pub record Analysis : Type 0 where
  pub machine : Machine
  pub counts : Counts

module _ (p : Params) (mapping : RowMapping) where
  unfoldable pub process_errors : List Errors → Analysis → Result Analysis
  unfolding to_logical see_rows
  process_errors row_errors a = do
    victim ← get_logical_victim a.machine.generator a.machine.iteration
    let f =
        see_rows a.machine victim (to_logical mapping row_errors [])
          (record { victim_flipped = false; victim_errors = 0; counts = a.counts })
    machine ← advance p f.victim_flipped a.machine
    ok (record { machine = machine; counts = f.counts })

  -- `none` when the fuel ends before the analysis is done.
  unfoldable pub analyse :
      (ℕ → List Errors) → ℕ → (number : ℕ) → Analysis → Result (Option Analysis)
  unfolding process_errors
  analyse measured zero number a = ok (if done p a.machine then some a else none)
  analyse measured (suc fuel) number a =
      let next : Result (Option Analysis) =
        process_errors (measured number) a >>= λ b. analyse measured fuel (number + 1) b in
      if done p a.machine then ok (some a) else next

  unfoldable pub run_analysis : (ℕ → List Errors) → ℕ → Result (Option Analysis)
  unfolding analyse nothing_counted
  run_analysis measured fuel = initialize p >>= λ m.
      analyse measured fuel 0 (record { machine = m; counts = nothing_counted })
