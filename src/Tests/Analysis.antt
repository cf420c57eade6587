-- ===== src/Tests/Analysis.antt =====
-- The half double analysis.
use rowhammer_tester.Prelude.{
  ℕ, ◌+◌, ◌-◌, ◌≡◌, refl, true, false, some, List, [], ◌∷◌, All, Result, ok, raised, ◌&&◌, arith,
}
use rowhammer_tester.RowMapping.{trivial_row_mapping, type_a_row_mapping}
use rowhammer_tester.RowGenerator.{get_logical_victim, attack_row, half_double_generate_rows}
use rowhammer_tester.HalfDouble.{
  Params, Machine, at_distance_one, at_distance_two, advance, noflip_distance_two, next_row,
  update_param,
}
use rowhammer_tester.HalfDouble.Invariant.{IsUsable, IsConsistent, Progress}
use rowhammer_tester.HalfDouble.Steps.{advance-IsConsistent}
use rowhammer_tester.HalfDouble.Ends.{run_analysis-done}
use rowhammer_tester.HalfDouble.Decoys.{IsDecoy, advance-decoys}
use rowhammer_tester.HalfDouble.Process.{
  Errors, Analysis, run_analysis, process_errors, to_logical, set_row, see_rows, see_row,
  record_victim, recorded_dilution, is_recorded, sum_bitflips, nothing_counted, same_key,
}
use rowhammer_tester.HalfDouble.Recorded.{victim_in, once, key_of, process_errors-recorded}

abbrev params : Params
params = record {
  max_total_read_count = 1000;
  read_count_steps = 10;
  initial_dilution = 4;
  dilution_multiplier = 2;
  max_dilution = 64;
  attack_rows_start = 100;
  max_attack_row_idx = 6;
  decoy_rows_start = 2000;
}

usable : IsUsable params
usable = record {
  some_rows = omega arith;
  grows = omega arith;
  has_steps = omega arith;
  steps_count = omega arith;
}

-- Behind a first measurement with no flip.
abbrev far_only : Machine
far_only = record {
  state = at_distance_two;
  iteration = 0;
  total_read_count = 1000;
  dilution = 4;
  read_count = 250;
  generator = record {
    nr_rows = 4;
    distance_one = false;
    double_sided = true;
    distance_two = true;
    attack_rows_start = 100;
    max_attack_row_idx = 6;
    decoy_rows_start = 2000;
  };
}

far_only-IsConsistent : IsConsistent params far_only
far_only-IsConsistent = record {
  divided = refl;
  told = refl;
  some_dilution = omega arith;
  reads_bounded = omega arith;
  bounds = refl;
  sides = refl;
  state_holds = (refl, refl, refl, omega arith);
}

advance-IsConsistent_example :
    (m' : Machine) × (advance params false far_only ≡ ok m')
    × IsConsistent params m'
    × Progress params far_only m'
advance-IsConsistent_example =
    advance-IsConsistent params far_only false usable far_only-IsConsistent

advance-decoys_example :
    (m' : Machine) × (advance params true far_only ≡ ok m')
    × (m'.state ≡ at_distance_one)
    × (m'.iteration ≡ 0 + 1)
    × (rows : List ℕ) × (half_double_generate_rows m'.generator type_a_row_mapping 1 ≡ ok rows)
    × All (IsDecoy m'.generator type_a_row_mapping) rows
advance-decoys_example =
    advance-decoys params far_only type_a_row_mapping 1 usable far_only-IsConsistent refl

-- Each measurement finds the row 102 flipped.
abbrev flips_always : ℕ → List Errors
flips_always number = record { row = 102; errors = record { value = 1; expected = 0 } ∷ [] } ∷ []

run_analysis-done_example :
    (a : Analysis) × (run_analysis params trivial_row_mapping flips_always 1000000 ≡ ok (some a))
    × (a.machine.iteration ≡ 6 - 4)
    × IsConsistent params a.machine
run_analysis-done_example =
    run_analysis-done params trivial_row_mapping flips_always 1000000 usable (omega arith)

-- The measurement of the machine above in which the victim has flipped.
abbrev before : Analysis
before = record { machine = far_only; counts = nothing_counted }

abbrev analysis_or : Result Analysis → Analysis
analysis_or (ok a) = a
analysis_or (raised e) = before

unfoldable behind : Analysis
unfolding process_errors get_logical_victim attack_row to_logical set_row see_rows see_row
    record_victim recorded_dilution is_recorded sum_bitflips nothing_counted
behind = analysis_or (process_errors params trivial_row_mapping (flips_always 0) before)

processed : process_errors params trivial_row_mapping (flips_always 0) before ≡ ok behind
unfolding behind process_errors get_logical_victim attack_row advance noflip_distance_two next_row
    update_param trivial_row_mapping
processed = refl

the_victim : get_logical_victim far_only.generator 0 ≡ ok 102
unfolding get_logical_victim attack_row
the_victim = refl

process_errors-recorded_example :
    let flipped = victim_in trivial_row_mapping 102 (flips_always 0) in
    (advance params flipped far_only ≡ ok behind.machine)
    × (behind.counts.row_count (key_of far_only)
        ≡ before.counts.row_count (key_of far_only)
          + once (
              flipped
              && (is_recorded at_distance_two && same_key (key_of far_only) (key_of far_only))))
process_errors-recorded_example =
    process_errors-recorded params trivial_row_mapping (flips_always 0) before behind 102
      (key_of far_only) processed the_victim
