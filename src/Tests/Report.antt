-- ===== src/Tests/Report.antt =====
-- The report on bit flips.
use rowhammer_tester.Prelude.{ℕ, ◌+◌, ◌≤◌, ◌≡◌, none, List, [], ◌∷◌}
use rowhammer_tester.BitFlips.{FlipRow}
use rowhammer_tester.BitflipReport.{run_summary, report_line}
use rowhammer_tester.BitflipReport.Sums.{run_summary-sums}
use rowhammer_tester.BitflipReport.Same.{report_line-run_summary}

abbrev flip : ℕ → ℕ → FlipRow
flip byte bit = record {
  read_count = none;
  row = 5;
  bank = 0;
  col = 0;
  byte_in_row = byte;
  byte_lane = byte;
  bit_in_byte = bit;
  flip_addr = byte;
  data_bit = 1;
  expected_bit = 0;
  block_addr = 0;
  block_word_index = 0;
}

-- Two adjacent bits of a byte, one of them seen twice, and a bit of another byte.
abbrev flips : List FlipRow
flips = flip 0 1 ∷ flip 0 2 ∷ flip 0 1 ∷ flip 3 7 ∷ []

run_summary-sums_example :
    let s = run_summary flips in
    (s.single + s.double + s.triple + s.four_plus ≡ s.byte_cells)
    × (s.double ≡ s.double_adjacent + s.double_non_adjacent)
    × (s.byte_cells ≤ s.flips)
run_summary-sums_example = run_summary-sums flips

report_line-run_summary_example :
    let s = run_summary flips in
    report_line flips ≡ record {
      cells = s.byte_cells;
      one = s.single;
      two = s.double;
      three = s.triple;
      more = s.four_plus;
    }
report_line-run_summary_example = report_line-run_summary flips
