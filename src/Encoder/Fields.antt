-- ===== src/Encoder/Fields.antt =====
-- The words that `encode_spec` builds by shifting and masking, as sums of their fields.
use rowhammer_tester.Prelude.{
  ℕ, ◌+◌, ◌*◌, ◌%◌, ◌^◌, ◌<◌, ◌≡◌, ◌∙◌, [], ◌∷◌, arith, ap, ap₂, and_mask, or_shifted,
}
use rowhammer_tester.OpCode.Width
use rowhammer_tester.Encoder.{Parts, encode_parts}

-- One round of the loop adds the next field above those that are there.
encode_parts_step :
    (instr n width val : ℕ) (parts : Parts)
    → instr < 2 ^ n
    → encode_parts instr n ((width, val) ∷ parts)
      ≡ encode_parts (instr + val % 2 ^ width * 2 ^ n) (n + width) parts
unfolding encode_parts
encode_parts_step instr n width val parts fits =
    rw (and_mask width val)
      (ap (λ t. encode_parts t (n + width) parts) (or_shifted n instr (val % 2 ^ width) fits))

first_field :
    (width val : ℕ) (parts : Parts)
    → encode_parts 0 0 ((width, val) ∷ parts) ≡ encode_parts (val % 2 ^ width) width parts
first_field width val parts =
    encode_parts_step 0 0 width val parts (omega arith)
    ∙ ap₂ (λ t w. encode_parts t w parts) (omega arith) (omega arith)

pub word_of_two :
    (a b : ℕ)
    → encode_parts 0 0 ((Width.op_code, a) ∷ (Width.timeslice_noop, b) ∷ [])
      ≡ a % 2 ^ 3 + b % 2 ^ 29 * 2 ^ 3
unfolding encode_parts
word_of_two a b =
    first_field 3 a ((29, b) ∷ []) ∙ encode_parts_step (a % 2 ^ 3) 3 29 b [] (omega arith)

-- A word of three fields, the second of them `width` bits wide.
word_of_three :
    (width rest a b c : ℕ)
    → a % 2 ^ 3 + b % 2 ^ width * 2 ^ 3 < 2 ^ (3 + width)
    → encode_parts 0 0 ((Width.op_code, a) ∷ (width, b) ∷ (rest, c) ∷ [])
      ≡ a % 2 ^ 3 + b % 2 ^ width * 2 ^ 3 + c % 2 ^ rest * 2 ^ (3 + width)
unfolding encode_parts
word_of_three width rest a b c fits =
    first_field 3 a ((width, b) ∷ (rest, c) ∷ [])
    ∙ encode_parts_step (a % 2 ^ 3) 3 width b ((rest, c) ∷ []) (omega arith)
    ∙ encode_parts_step (a % 2 ^ 3 + b % 2 ^ width * 2 ^ 3) (3 + width) rest c [] fits

pub word_of_command :
    (a b c : ℕ)
    → encode_parts 0 0 ((Width.op_code, a) ∷ (Width.timeslice, b) ∷ (Width.address, c) ∷ [])
      ≡ a % 2 ^ 3 + b % 2 ^ 5 * 2 ^ 3 + c % 2 ^ 24 * 2 ^ 8
word_of_command a b c = word_of_three 5 24 a b c (omega arith)

pub word_of_loop :
    (a b c : ℕ)
    → encode_parts 0 0 ((Width.op_code, a) ∷ (Width.loop_count, b) ∷ (Width.loop_jump, c) ∷ [])
      ≡ a % 2 ^ 3 + b % 2 ^ 12 * 2 ^ 3 + c % 2 ^ 17 * 2 ^ 15
word_of_loop a b c = word_of_three 12 17 a b c (omega arith)
