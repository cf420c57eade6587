-- ===== src/HammerTolerance/Beats.antt =====
-- rowhammer_tester/scripts/playbook/payload_generators/hammer_tolerance.py: what the loop over the
-- beats of an error, and that over its chips, leave and add up to.
use rowhammer_tester.Prelude.{
  ℕ, zero, suc, ◌+◌, ◌*◌, ◌/◌, ◌^◌, ◌≡◌, ◌≢◌, refl, ap, ◌∙◌, Bool, true, false, ltb, ◌==◌,
  if◌then◌else◌, arith, ok, ok-injective, assert-eq-ok, Bool-cases, inl, inr,
}
use mathlib.Core.Path.{subst}
use rowhammer_tester.HammerTolerance.{
  Stats, add_at, add_under, ones, ones_from, extract_ones, dq_bits, beat_chips, count_beat,
  Gathered, gather_beats, gather_chips,
}
use rowhammer_tester.HammerTolerance.Digits.{div_further, ones-add, none-ones}

kept_beat :
    (b : Bool) (s : Stats) (d : ℕ → ℕ → ℕ → ℕ)
    → let s' = if b then s else record s { chip_errors_per_beat = d } in
      (s'.bit_errors ≡ s.bit_errors)
      × (s'.chips_with_errors_per_beat ≡ s.chips_with_errors_per_beat)
      × (s'.chip_errors_per_read ≡ s.chip_errors_per_read)
kept_beat true s d = (refl, refl, refl)
kept_beat false s d = (refl, refl, refl)

kept_read :
    (b : Bool) (s : Stats) (d : ℕ → ℕ → ℕ → ℕ)
    → ((if b then s else record s { chip_errors_per_read = d }).bit_errors ≡ s.bit_errors)
      × ((if b then s else record s { chip_errors_per_read = d }).chips_with_errors_per_beat
          ≡ s.chips_with_errors_per_beat)
kept_read true s d = (refl, refl)
kept_read false s d = (refl, refl)

module _ (nr_chips step flips : ℕ) where
  beat_chips-totals :
      (n chip beat : ℕ) (s : Stats)
      → ((beat_chips nr_chips step flips n chip beat s).bit_errors ≡ s.bit_errors)
        × ((beat_chips nr_chips step flips n chip beat s).chips_with_errors_per_beat
            ≡ s.chips_with_errors_per_beat)
        × ((beat_chips nr_chips step flips n chip beat s).chip_errors_per_read
            ≡ s.chip_errors_per_read)
  unfolding beat_chips
  beat_chips-totals zero chip beat s = (refl, refl, refl)
  beat_chips-totals (suc n) chip beat s =
      let flipped : ℕ = ones_from (64 * beat + chip * dq_bits nr_chips) (dq_bits nr_chips) flips in
      let d : ℕ → ℕ → ℕ → ℕ = add_under step chip flipped s.chip_errors_per_beat in
      let (bits, chips, reads) = kept_beat (flipped == 0) s d in
      let (bits', chips', reads') =
        beat_chips-totals n (chip + 1) beat
          (if flipped == 0 then s else record s { chip_errors_per_beat = d }) in
      (bits' ∙ bits, chips' ∙ chips, reads' ∙ reads)

  pub gather_chips-totals :
      (n chip : ℕ) (s : Stats)
      → ((gather_chips nr_chips step flips n chip s).bit_errors ≡ s.bit_errors)
        × ((gather_chips nr_chips step flips n chip s).chips_with_errors_per_beat
            ≡ s.chips_with_errors_per_beat)
  unfolding gather_chips
  gather_chips-totals zero chip s = (refl, refl)
  gather_chips-totals (suc n) chip s =
      let flipped : ℕ = extract_ones 8 (chip * dq_bits nr_chips) 64 (dq_bits nr_chips) flips in
      let d : ℕ → ℕ → ℕ → ℕ = add_under step chip flipped s.chip_errors_per_read in
      let (bits, chips) = kept_read (flipped == 0) s d in
      let (bits', chips') =
        gather_chips-totals n (chip + 1)
          (if flipped == 0 then s else record s { chip_errors_per_read = d }) in
      (bits' ∙ bits, chips' ∙ chips)

module _ (nr_chips step flips x k : ℕ) (other : k ≢ nr_chips) where
  -- The bits are as they were, and so are one entry of the histogram of chips and the histograms of a
  -- read.
  abbrev pub Same : Stats → Stats → Type 0
  Same s s' =
      (s'.bit_errors ≡ s.bit_errors)
      × (s'.chips_with_errors_per_beat x k ≡ s.chips_with_errors_per_beat x k)
      × (s'.chip_errors_per_read ≡ s.chip_errors_per_read)

  other_entry : (d : ℕ → ℕ → ℕ) → add_at step nr_chips d x k ≡ d x k
  other_entry d = ground arith

  count_beat-Same :
      (beat flipped : ℕ) (s : Stats) → Same s (count_beat nr_chips step flips beat flipped s)
  count_beat-Same beat flipped s =
      let counted : Stats = record s { beat_errors = add_at step flipped s.beat_errors } in
      let (bits, chips, reads) = beat_chips-totals nr_chips step flips nr_chips 0 beat counted in
      let entry = ap (λ (d : ℕ → ℕ → ℕ). d x k) chips in
      elim (Bool-cases (ltb 0 nr_chips)) [
        | inl e ↦ rw e (
          bits,
          other_entry
                (beat_chips nr_chips step flips nr_chips 0 beat counted).chips_with_errors_per_beat
              ∙ entry,
          reads,
        )
        | inr e ↦ rw e (bits, entry, reads)
      ]

  abbrev next_beat : ℕ → Gathered → Gathered
  next_beat beat g = if ones_from (64 * beat) 64 flips == 0 then g else record {
    total = g.total + ones_from (64 * beat) 64 flips;
    stats = count_beat nr_chips step flips beat (ones_from (64 * beat) 64 flips) g.stats;
  }

  next_beat-Same :
      (beat : ℕ) (g : Gathered)
      → ((next_beat beat g).total ≡ g.total + ones_from (64 * beat) 64 flips)
        × Same g.stats (next_beat beat g).stats
  next_beat-Same beat g = elim (Bool-cases (ones_from (64 * beat) 64 flips == 0)) [
    | inl e ↦ rw e (ground (arith, e), (refl, refl, refl))
    | inr e ↦ rw e (refl, count_beat-Same beat (ones_from (64 * beat) 64 flips) g.stats)
  ]

  two_parts :
      (n beat : ℕ)
      → ones (64 * suc n) (flips / 2 ^ (64 * beat))
        ≡ ones 64 (flips / 2 ^ (64 * beat)) + ones (64 * n) (flips / 2 ^ (64 * (beat + 1)))
  two_parts n beat =
      let parts : 64 * suc n ≡ 64 + 64 * n = omega arith in
      let behind : 64 * beat + 64 ≡ 64 * (beat + 1) = omega arith in
      ap (λ k. ones k (flips / 2 ^ (64 * beat))) parts
      ∙ ones-add 64 (64 * n) (flips / 2 ^ (64 * beat))
      ∙ ap (λ k. ones 64 (flips / 2 ^ (64 * beat)) + ones (64 * n) k)
          (div_further flips (64 * beat) 64 ∙ ap (λ (k : ℕ). flips / 2 ^ k) behind)

  pub gather_beats-total :
      (n beat : ℕ) (g g' : Gathered)
      → gather_beats nr_chips step flips n beat g ≡ ok g'
      → (g'.total ≡ g.total + ones (64 * n) (flips / 2 ^ (64 * beat))) × Same g.stats g'.stats
  unfolding gather_beats
  gather_beats-total zero beat g g' e =
      let same : g ≡ g' = ok-injective e in
      let none_left : g.total ≡ g.total + ones (64 * 0) (flips / 2 ^ (64 * beat)) =
        omega (arith, none-ones (flips / 2 ^ (64 * beat))) in
      subst
        (λ (h : Gathered).
          (h.total ≡ g.total + ones (64 * 0) (flips / 2 ^ (64 * beat))) × Same g.stats h.stats)
        same (none_left, (refl, refl, refl))
  gather_beats-total (suc n) beat g g' e =
      let (_, done) =
        assert-eq-ok (ltb (ones_from (64 * beat) 64 flips) 64)
          (gather_beats nr_chips step flips n (beat + 1) (next_beat beat g)) e in
      let (total, (bits, chips, reads)) =
        gather_beats-total n (beat + 1) (next_beat beat g) g' done in
      let (total', (bits', chips', reads')) = next_beat-Same beat g in
      let both : ones (64 * suc n) (flips / 2 ^ (64 * beat))
          ≡ ones 64 (flips / 2 ^ (64 * beat)) + ones (64 * n) (flips / 2 ^ (64 * (beat + 1))) =
        two_parts n beat in
      (omega (arith, total, total', both), (bits ∙ bits', chips ∙ chips', reads ∙ reads'))
