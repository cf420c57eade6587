-- ===== src/Encoder/Delay.antt =====
-- The extra NOOPs that stretch a command beyond its 5-bit timeslice.
use rowhammer_tester.Prelude.{
  ℕ, zero, suc, ◌+◌, ◌-◌, ◌*◌, ◌/◌, ◌^◌, ◌<◌, min, ◌≡◌, ◌≢◌, false, List, [], ◌∷◌, arith, ok, map,
  sum, ◌==◌, if◌then◌else◌, inl, inr, Bool-cases, and_mask, range_from, All,
}
use rowhammer_tester.OpCode.{OpCode, value, noop, loop}
use rowhammer_tester.OpCode.Width
use rowhammer_tester.Decoder.{Geometry, decode, decode_timeslice}
use rowhammer_tester.Encoder.{encode, encode_parts, extra_noops, wait_step, base_timeslice}
use rowhammer_tester.Encoder.RoundTrip.{command_word, command_kwargs}
use rowhammer_tester.Encoder.Fields.{word_of_two}

-- The words of the extra NOOPs, from the offsets that the loop runs through.
noop_words : ℕ → List ℕ → List ℕ
noop_words remaining offsets = map (encode_parts 0 0) (
    map
      (λ i.
        (Width.op_code, value noop) ∷ (Width.timeslice_noop, min (remaining - i) wait_step) ∷ [])
      offsets)

sum-noop_words :
    (remaining n start : ℕ)
    → sum (map decode_timeslice (noop_words remaining (range_from n start wait_step)))
      ≡ min (remaining - start) (n * wait_step)
unfolding noop_words decode_timeslice
sum-noop_words remaining zero start = omega arith
sum-noop_words remaining (suc n) start = ground (
  arith,
  word_of_two (value noop) (min (remaining - start) wait_step),
  sum-noop_words remaining n (start + wait_step),
)

-- Each word is a NOOP that does not stop.
abbrev pub IsWait : Geometry → ℕ → Type 0
IsWait g w =
    ((decode g w).op_code ≡ value noop) × ((decode g w).stop ≡ false) × (0 < decode_timeslice w)

All-noop_words :
    (g : Geometry) (remaining n start : ℕ)
    → start + n * wait_step < remaining + wait_step
    → All (IsWait g) (noop_words remaining (range_from n start wait_step))
unfolding noop_words decode
All-noop_words g remaining zero start h = tt
All-noop_words g remaining (suc n) start h =
    let e = word_of_two (value noop) (min (remaining - start) wait_step) in
    (
      (ground (arith, e), ground (arith, e), ground (arith, e)),
      All-noop_words g remaining n (start + wait_step) (omega arith),
    )

extra_noops_lem :
    (g : Geometry) (remaining : ℕ)
    → let words = map (encode_parts 0 0) (extra_noops remaining) in
      (sum (map decode_timeslice words) ≡ remaining) × All (IsWait g) words
unfolding extra_noops noop_words
extra_noops_lem g remaining = (
  omega (arith, sum-noop_words remaining ((remaining + wait_step - 1) / wait_step) 0),
  All-noop_words g remaining ((remaining + wait_step - 1) / wait_step) 0 (omega arith),
)

abbrev extra_words : ℕ → List ℕ
extra_words t =
    if base_timeslice t == t
    then []
    else map (encode_parts 0 0) (extra_noops (t - base_timeslice t))

extra_words_lem :
    (g : Geometry) (t : ℕ)
    → 0 < t
    → (0 < base_timeslice t)
      × (base_timeslice t < 2 ^ 5)
      × (base_timeslice t + sum (map decode_timeslice (extra_words t)) ≡ t)
      × All (IsWait g) (extra_words t)
extra_words_lem g t pos = elim (Bool-cases (base_timeslice t == t)) [
  | inl same ↦ (
    ground (arith, and_mask 5 t),
    ground (arith, and_mask 5 t),
    rw same (ground arith),
    rw same tt,
  )
  | inr less ↦
      let (total, waits) = extra_noops_lem g (t - base_timeslice t) in
      (
        ground (arith, and_mask 5 t),
        ground (arith, and_mask 5 t),
        rw less (ground (arith, total, and_mask 5 t)),
        rw less waits,
      )
]

-- A command with any positive timeslice is encoded as its own word, with a timeslice between 1
-- and 31, followed by NOOPs that wait and do not stop; together they take that timeslice.
pub encode-delay :
    (g : Geometry) (op : OpCode) (t address : ℕ)
    → op ≢ noop
    → op ≢ loop
    → 0 < t
    → (b : ℕ) × (ws : List ℕ) × (encode op (command_kwargs t address)
        ≡ ok (command_word op b address ∷ ws))
      × (0 < b)
      × (b < 2 ^ 5)
      × (b + sum (map decode_timeslice ws) ≡ t)
      × All (IsWait g) ws
unfolding encode
encode-delay g op t address not_noop not_loop pos =
    let (low, high, total, waits) = extra_words_lem g t pos in
    (base_timeslice t, extra_words t, encoded op not_noop not_loop, low, high, total, waits)
  where
    encoded :
        (op : OpCode)
        → op ≢ noop
        → op ≢ loop
        → encode op (command_kwargs t address)
          ≡ ok (command_word op (base_timeslice t) address ∷ extra_words t)
    encoded op p q = ground arith
