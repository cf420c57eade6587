-- ===== src/Tests/Tolerance.antt =====
-- The statistics of the hammer tolerance generator.
use rowhammer_tester.Prelude.{◌+◌, ◌≡◌, refl, List, [], ◌∷◌, Result, ok, raised}
use rowhammer_tester.HammerTolerance.{
  Stats, ReadError, ones, extract_ones, beat_chips, gather_beats, gather_chips, gather_error,
  gather_all, gather_full_stats,
}
use rowhammer_tester.HammerTolerance.Weights.{chips_total}
use rowhammer_tester.HammerTolerance.Totals.{flipped_bits, gather_full_stats-bit_errors}

abbrev nothing_yet : Stats
nothing_yet = record {
  row_errors = λ i. 0;
  bit_errors = λ i. 0;
  beat_errors = λ i j. 0;
  chip_errors_per_read = λ i j k. 0;
  chip_errors_per_beat = λ i j k. 0;
  chips_with_errors_per_beat = λ i j. 0;
}

-- Three flips of the first two chips of eight.
abbrev errors : List ReadError
errors = record { value = 259; expected = 0 } ∷ []

abbrev stats_or : Result Stats → Stats
stats_or (ok s) = s
stats_or (raised e) = nothing_yet

unfoldable gathered : Stats
unfolding gather_full_stats
gathered = stats_or (gather_full_stats 8 100 errors nothing_yet)

gathers : gather_full_stats 8 100 errors nothing_yet ≡ ok gathered
unfolding gathered gather_full_stats gather_all gather_error gather_beats gather_chips beat_chips
    ones extract_ones
gathers = refl

gather_full_stats-bit_errors_example :
    (gathered.bit_errors 100 ≡ 0 + flipped_bits errors)
    × (chips_total 8 (gathered.chip_errors_per_read 100)
        ≡ chips_total 8 (nothing_yet.chip_errors_per_read 100) + flipped_bits errors)
gather_full_stats-bit_errors_example =
    gather_full_stats-bit_errors 8 100 errors nothing_yet gathered refl gathers
