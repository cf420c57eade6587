-- ===== src/HammerTolerance/Totals.antt =====
-- rowhammer_tester/scripts/playbook/payload_generators/hammer_tolerance.py: what the statistics add up
-- to.
use rowhammer_tester.Prelude.{
  ℕ, suc, ◌+◌, ◌*◌, ◌/◌, ◌^◌, ◌≡◌, ◌≢◌, refl, sym, ap, ap₂, ◌∙◌, bit_xor, List, [], ◌∷◌, ltb, ◌==◌,
  arith, ok, ◌>>=◌, >>=-eq-ok, ok-injective, assert-eq-ok, Bool-cases, inl, inr,
}
use rowhammer_tester.HammerTolerance.{
  Stats, add, ones, dq_bits, Gathered, gather_beats, gather_chips, gather_end, gather_error,
  ReadError, gather_all, gather_full_stats,
}
use rowhammer_tester.HammerTolerance.Beats.{gather_chips-totals, gather_beats-total}
use rowhammer_tester.HammerTolerance.Weights.{chips_total, gather_chips-total}
use rowhammer_tester.HammerTolerance.Digits.{read_flips, read_flips_lem}

module _ (nr_chips step flips x k : ℕ) (other : k ≢ nr_chips) where
  gather_error-totals :
      (s s' : Stats)
      → gather_error nr_chips step flips s ≡ ok s'
      → (s'.bit_errors step ≡ s.bit_errors step + ones 512 flips)
        × (s'.chips_with_errors_per_beat x k ≡ s.chips_with_errors_per_beat x k)
        × (chips_total nr_chips (s'.chip_errors_per_read step)
            ≡ chips_total nr_chips (s.chip_errors_per_read step)
              + read_flips nr_chips 0 (dq_bits nr_chips) 8 0 flips)
  unfolding gather_error
  gather_error-totals s s' e =
      let (_, done) =
        assert-eq-ok (ltb flips (2 ^ 512))
          (gather_beats nr_chips step flips 8 0 start >>= gather_end nr_chips step flips) e in
      let (g, beats, end) =
        >>=-eq-ok (gather_beats nr_chips step flips 8 0 start) (gather_end nr_chips step flips)
          done in
      let (total, (bits, chips, reads)) =
        gather_beats-total nr_chips step flips x k other 8 0 start g beats in
      let (bits', chips') = gather_chips-totals nr_chips step flips nr_chips 0 g.stats in
      let counted : Stats = gather_chips nr_chips step flips nr_chips 0 g.stats in
      let last : record counted { bit_errors = add step g.total counted.bit_errors } ≡ s' =
        ok-injective end in
      let before : counted.bit_errors step ≡ s.bit_errors step =
        ap (λ (d : ℕ → ℕ). d step) (bits' ∙ bits) in
      let all : ones 512 (flips / 2 ^ (64 * 0)) ≡ ones 512 flips = ap (ones 512) (omega arith) in
      (
        sym (ap (λ (t : Stats). t.bit_errors step) last)
            ∙ add_here g.total counted.bit_errors
            ∙ omega (arith, before, total, all),
        sym (ap (λ (t : Stats). t.chips_with_errors_per_beat x k) last)
            ∙ ap (λ (d : ℕ → ℕ → ℕ). d x k) chips'
            ∙ chips,
        sym (ap (λ (t : Stats). chips_total nr_chips (t.chip_errors_per_read step)) last)
            ∙ gather_chips-total nr_chips step flips nr_chips nr_chips 0 g.stats (omega arith)
            ∙ ap
                (λ (d : ℕ → ℕ → ℕ → ℕ).
                  chips_total nr_chips (d step)
                  + read_flips nr_chips 0 (dq_bits nr_chips) 8 0 flips)
                reads,
      )
    where
      start : Gathered
      start = record { total = 0; stats = s }

      add_here : (n : ℕ) (d : ℕ → ℕ) → add step n d step ≡ d step + n
      add_here n d = ground arith

-- The bits that differ in the errors.
abbrev pub flipped_bits : List ReadError → ℕ
flipped_bits [] = 0
flipped_bits (e ∷ errors) = ones 512 (bit_xor e.value e.expected) + flipped_bits errors

-- The same, slice by slice of the chips.
abbrev chip_flips : ℕ → List ReadError → ℕ
chip_flips nr_chips [] = 0
chip_flips nr_chips (e ∷ errors) =
    read_flips nr_chips 0 (dq_bits nr_chips) 8 0 (bit_xor e.value e.expected)
    + chip_flips nr_chips errors

module _ (nr_chips step x k : ℕ) (other : k ≢ nr_chips) where
  gather_all-totals :
      (errors : List ReadError) (s s' : Stats)
      → gather_all nr_chips step errors s ≡ ok s'
      → (s'.bit_errors step ≡ s.bit_errors step + flipped_bits errors)
        × (s'.chips_with_errors_per_beat x k ≡ s.chips_with_errors_per_beat x k)
        × (chips_total nr_chips (s'.chip_errors_per_read step)
            ≡ chips_total nr_chips (s.chip_errors_per_read step) + chip_flips nr_chips errors)
  unfolding gather_all
  gather_all-totals [] s s' e =
      let same : s ≡ s' = ok-injective e in
      (
        sym (ap (λ (t : Stats). t.bit_errors step) same) ∙ omega arith,
        sym (ap (λ (t : Stats). t.chips_with_errors_per_beat x k) same),
        sym (ap (λ (t : Stats). chips_total nr_chips (t.chip_errors_per_read step)) same)
            ∙ omega arith,
      )
  gather_all-totals (r ∷ errors) s s' e =
      let flips : ℕ = bit_xor r.value r.expected in
      let (t, first, rest) =
        >>=-eq-ok (gather_error nr_chips step flips s) (gather_all nr_chips step errors) e in
      let (bits, chips, reads) = gather_error-totals nr_chips step flips x k other s t first in
      let (bits', chips', reads') = gather_all-totals errors t s' rest in
      (omega (arith, bits, bits'), chips' ∙ chips, chained _ _ _ _ _ reads reads')
    where
      chained : (a b c m n : ℕ) → b ≡ a + m → c ≡ b + n → c ≡ a + (m + n)
      chained a b c m n p q = omega (arith, p, q)

  gather_full_stats-totals :
      (errors : List ReadError) (s s' : Stats)
      → gather_full_stats nr_chips step errors s ≡ ok s'
      → (s'.bit_errors step ≡ s.bit_errors step + flipped_bits errors)
        × (s'.chips_with_errors_per_beat x k ≡ s.chips_with_errors_per_beat x k)
        × (chips_total nr_chips (s'.chip_errors_per_read step)
            ≡ chips_total nr_chips (s.chip_errors_per_read step) + chip_flips nr_chips errors)
  unfolding gather_full_stats
  gather_full_stats-totals errors s s' e = elim (Bool-cases (nr_chips == 0)) [
    | inl q ↦ absurd (cc (rw q at e))
    | inr q ↦ gather_all-totals errors s s' (rw q at e)
  ]

flipped_bits-chip_flips :
    (nr_chips : ℕ) (errors : List ReadError)
    → nr_chips * dq_bits nr_chips ≡ 64
    → chip_flips nr_chips errors ≡ flipped_bits errors
flipped_bits-chip_flips nr_chips [] e = refl
flipped_bits-chip_flips nr_chips (r ∷ errors) e =
    let flips : ℕ = bit_xor r.value r.expected in
    let whole : ones (64 * 8) (flips / 2 ^ 0) ≡ ones 512 flips = ap (ones 512) (omega arith) in
    ap₂ (λ (a b : ℕ). a + b) (read_flips_lem nr_chips (dq_bits nr_chips) 8 0 flips e ∙ whole)
      (flipped_bits-chip_flips nr_chips errors e)

-- Where the chips divide the 64 bits of a beat: what `gather_full_stats` adds to the bit errors of a
-- step is the number of bits that differ in the errors, and so is what it adds to the histograms of
-- the chips over a read, `chip_errors_per_read`, in that step, where each entry stands for as many
-- bits as its key says.
pub gather_full_stats-bit_errors :
    (nr_chips step : ℕ) (errors : List ReadError) (s s' : Stats)
    → nr_chips * dq_bits nr_chips ≡ 64
    → gather_full_stats nr_chips step errors s ≡ ok s'
    → (s'.bit_errors step ≡ s.bit_errors step + flipped_bits errors)
      × (chips_total nr_chips (s'.chip_errors_per_read step)
          ≡ chips_total nr_chips (s.chip_errors_per_read step) + flipped_bits errors)
gather_full_stats-bit_errors nr_chips step errors s s' whole e =
    let (bits, _, reads) =
      gather_full_stats-totals nr_chips step 0 (suc nr_chips) (omega arith) errors s s' e in
    (
      bits,
      reads
          ∙ ap (λ (n : ℕ). chips_total nr_chips (s.chip_errors_per_read step) + n)
              (flipped_bits-chip_flips nr_chips errors whole),
    )

-- The histogram of the chips with errors in a beat has entries for the number of all chips alone:
-- `gather_full_stats` leaves every other entry of every step as it was, whatever the errors.
pub gather_full_stats-chips :
    (nr_chips step x k : ℕ) (errors : List ReadError) (s s' : Stats)
    → k ≢ nr_chips
    → gather_full_stats nr_chips step errors s ≡ ok s'
    → s'.chips_with_errors_per_beat x k ≡ s.chips_with_errors_per_beat x k
gather_full_stats-chips nr_chips step x k errors s s' other e =
    (gather_full_stats-totals nr_chips step x k other errors s s' e).1
