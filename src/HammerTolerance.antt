-- ===== src/HammerTolerance.antt =====
-- rowhammer_tester/scripts/playbook/payload_generators/hammer_tolerance.py: the statistics over the
-- errors of a victim row. A defaultdict of counts is a function. The reversed string of a number's
-- binary digits is the number: a slice of it is counted from its low bits.
pub mod Digits
pub mod Weights
pub mod Beats
pub mod Totals
use rowhammer_tester.Prelude.{
  ℕ, zero, suc, ◌+◌, ◌-◌, ◌*◌, ◌/◌, ◌%◌, ◌^◌, bit_xor, Bool, true, false, List, [], ◌∷◌, ltb, ◌==◌,
  if◌then◌else◌, Result, ok, raised, assert, ◌>>=◌, ◌>>◌, zero_division_error,
}

pub record Stats : Type 0 where
  pub row_errors : ℕ → ℕ
  pub bit_errors : ℕ → ℕ
  pub beat_errors : ℕ → ℕ → ℕ
  pub chip_errors_per_read : ℕ → ℕ → ℕ → ℕ
  pub chip_errors_per_beat : ℕ → ℕ → ℕ → ℕ
  pub chips_with_errors_per_beat : ℕ → ℕ → ℕ

-- `d[i] += n`, under one key, two and three.
abbrev pub add : ℕ → ℕ → (ℕ → ℕ) → ℕ → ℕ
add i n d x = if x == i then d x + n else d x

abbrev pub add_at : ℕ → ℕ → (ℕ → ℕ → ℕ) → ℕ → ℕ → ℕ
add_at i j d x = if x == i then add j 1 (d x) else d x

abbrev pub add_under : ℕ → ℕ → ℕ → (ℕ → ℕ → ℕ → ℕ) → ℕ → ℕ → ℕ → ℕ
add_under i j k d x = if x == i then add_at j k (d x) else d x

-- `.count("1")` of the first `width` digits.
unfoldable pub ones : ℕ → ℕ → ℕ
ones zero n = 0
ones (suc width) n = n % 2 + ones width (n / 2)

-- The same of a slice.
abbrev pub ones_from : ℕ → ℕ → ℕ → ℕ
ones_from start width n = ones width (n / 2 ^ start)

-- `extract_bits`, counted: `nr_groups` groups from the digit `idx` on.
unfoldable pub extract_ones : ℕ → (idx stride size : ℕ) → ℕ → ℕ
extract_ones zero idx stride size n = 0
extract_ones (suc nr_groups) idx stride size n =
    ones_from idx size n + extract_ones nr_groups (idx + stride) stride size n

abbrev pub dq_bits : ℕ → ℕ
dq_bits nr_chips = 64 / nr_chips

-- The variables of the loop over the beats: `total_flip_count`, and the statistics.
pub record Gathered : Type 0 where
  pub total : ℕ
  pub stats : Stats

module _ (nr_chips step flips : ℕ) where
  -- The loop over the chips of a beat, `n` of them from `chip` on.
  unfoldable pub beat_chips : ℕ → (chip beat : ℕ) → Stats → Stats
  beat_chips zero chip beat s = s
  beat_chips (suc n) chip beat s =
      let flipped = ones_from (64 * beat + chip * dq_bits nr_chips) (dq_bits nr_chips) flips in
      beat_chips n (chip + 1) beat (
        if flipped == 0
        then s
        else record s { chip_errors_per_beat = add_under step chip flipped s.chip_errors_per_beat })

  -- What is counted of a beat with flips; `chip_count` is then the number of chips.
  abbrev pub count_beat : (beat flipped : ℕ) → Stats → Stats
  count_beat beat flipped s =
      let counted =
        beat_chips nr_chips 0 beat (record s { beat_errors = add_at step flipped s.beat_errors }) in
      if ltb 0 nr_chips
      then record counted {
        chips_with_errors_per_beat = add_at step nr_chips counted.chips_with_errors_per_beat;
      }
      else counted

  -- The loop over the beats, `n` of them from `beat` on.
  unfoldable pub gather_beats : ℕ → (beat : ℕ) → Gathered → Result Gathered
  unfolding beat_chips
  gather_beats zero beat g = ok g
  gather_beats (suc n) beat g =
      let flipped = ones_from (64 * beat) 64 flips in
      let rest = gather_beats n (beat + 1) (
        if flipped == 0
        then g
        else record { total = g.total + flipped; stats = count_beat beat flipped g.stats }) in
      assert (ltb flipped 64) >> rest

  -- The loop over the chips of the whole read.
  unfoldable pub gather_chips : ℕ → (chip : ℕ) → Stats → Stats
  unfolding extract_ones
  gather_chips zero chip s = s
  gather_chips (suc n) chip s =
      let flipped = extract_ones 8 (chip * dq_bits nr_chips) 64 (dq_bits nr_chips) flips in
      gather_chips n (chip + 1) (
        if flipped == 0
        then s
        else record s { chip_errors_per_read = add_under step chip flipped s.chip_errors_per_read })

  abbrev pub gather_end : Gathered → Result Stats
  gather_end g =
      let counted = gather_chips nr_chips 0 g.stats in
      ok (record counted { bit_errors = add step g.total counted.bit_errors })

  -- An error of 512 bits.
  unfoldable pub gather_error : Stats → Result Stats
  unfolding gather_beats gather_chips
  gather_error s =
      assert (ltb flips (2 ^ 512))
      >> (gather_beats 8 0 (record { total = 0; stats = s }) >>= gather_end)

pub record ReadError : Type 0 where
  pub value : ℕ
  pub expected : ℕ

-- The loop over the errors.
unfoldable pub gather_all : (nr_chips step : ℕ) → List ReadError → Stats → Result Stats
unfolding gather_error
gather_all nr_chips step [] s = ok s
gather_all nr_chips step (e ∷ errors) s =
    gather_error nr_chips step (bit_xor e.value e.expected) s >>= gather_all nr_chips step errors

unfoldable pub gather_full_stats : (nr_chips step : ℕ) → List ReadError → Stats → Result Stats
gather_full_stats nr_chips step errors s =
    if nr_chips == 0 then raised zero_division_error else gather_all nr_chips step errors s
