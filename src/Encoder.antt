-- ===== src/Encoder.antt =====
-- rowhammer_tester/gateware/payload_executor.py: class Encoder and its class Instruction.
-- An absent keyword argument is `none`. The warnings that are printed are left out.
pub mod Fields
pub mod RoundTrip
pub mod Delay
pub mod Address
use rowhammer_tester.Prelude.{
  ℕ, ◌+◌, ◌-◌, ◌*◌, ◌^◌, max, min, bit_and, bit_or, Bool, true, false, ◌&&◌, ◌||◌, not, Option,
  none, some, List, [], ◌∷◌, ◌++◌, map, range, ltb, ◌==◌, if◌then◌else◌,
}
use rowhammer_tester.Prelude.{Result, ok, raised, ◌>>=◌, ◌>>◌, assert, key_error, type_error}
use rowhammer_tester.OpCode.{OpCode, value, noop, loop, ref}
use rowhammer_tester.OpCode.Width

pub record Kwargs : Type 0 where
  pub count : Option ℕ
  pub jump : Option ℕ
  pub timeslice : Option ℕ
  pub address : Option ℕ

-- A list of (width, value), lowest bits first.
abbrev pub Parts : Type 0
Parts = List (ℕ × ℕ)

pub record Instruction : Type 0 where
  pub op_code : OpCode
  pub kwargs : Kwargs
  pub parts : Parts
  pub noops : List Parts

-- `kwargs[key]`
abbrev pub required : Option ℕ → Result ℕ
required none = raised key_error
required (some v) = ok v

abbrev pub is_some : Option ℕ → Bool
is_some none = false
is_some (some _) = true

-- `kwargs.get(key, 0)`
abbrev pub or_zero : Option ℕ → ℕ
or_zero none = 0
or_zero (some v) = v

-- The longest wait that one of the extra NOOPs gets.
abbrev pub wait_step : ℕ
wait_step = Width.timeslice_noop - 1

unfoldable pub extra_noops : ℕ → List Parts
extra_noops remaining =
    map
      (λ i.
        (Width.op_code, value noop) ∷ (Width.timeslice_noop, min (remaining - i) wait_step) ∷ [])
      (range remaining wait_step)

abbrev pub base_timeslice : ℕ → ℕ
base_timeslice timeslice = max (bit_and timeslice (2 ^ Width.timeslice - 1)) 1

unfoldable pub new_loop : Kwargs → Result Instruction
new_loop kwargs = do
  count ← required kwargs.count
  assert (ltb count (2 ^ Width.loop_count))
  jump ← required kwargs.jump
  ok (record {
    op_code = loop;
    kwargs = kwargs;
    parts = (Width.op_code, value loop) ∷ (Width.loop_count, count) ∷ (Width.loop_jump, jump) ∷ [];
    noops = [];
  })

unfoldable pub new_noop : Kwargs → Result Instruction
new_noop kwargs = do
  timeslice ← required kwargs.timeslice
  assert (ltb timeslice (2 ^ Width.timeslice_noop))
  ok (record {
    op_code = noop;
    kwargs = kwargs;
    parts = (Width.op_code, value noop) ∷ (Width.timeslice_noop, timeslice) ∷ [];
    noops = [];
  })

abbrev pub is_ref : OpCode → Bool
is_ref ref = true
is_ref _ = false

unfoldable pub new_command : OpCode → Kwargs → Result Instruction
unfolding extra_noops
new_command op kwargs = do
  timeslice ← required kwargs.timeslice
  assert (not (timeslice == 0))
  assert (is_some kwargs.address || is_ref op)
  let base = base_timeslice timeslice
  ok (record {
    op_code = op;
    kwargs = kwargs;
    parts =
        (Width.op_code, value op)
        ∷ (Width.timeslice, base)
        ∷ (Width.address, or_zero kwargs.address)
        ∷ [];
    noops = if base == timeslice then [] else extra_noops (timeslice - base);
  })

-- `Instruction.__init__`
unfoldable pub new_instruction : OpCode → Kwargs → Result Instruction
unfolding new_loop new_noop new_command
new_instruction loop kwargs = new_loop kwargs
new_instruction noop kwargs = new_noop kwargs
new_instruction op kwargs = new_command op kwargs

-- The inner loop of `encode_spec`, over its variables `instr` and `n`.
unfoldable pub encode_parts : ℕ → ℕ → Parts → ℕ
encode_parts instr n [] = instr
encode_parts instr n ((width, val) ∷ parts) =
    encode_parts (bit_or instr (bit_and val (2 ^ width - 1) * 2 ^ n)) (n + width) parts

unfoldable pub encode_spec : Instruction → List ℕ
unfolding encode_parts
encode_spec spec = map (encode_parts 0 0) (spec.parts ∷ spec.noops)

unfoldable pub encode_payload : List Instruction → List ℕ
unfolding encode_spec
encode_payload [] = []
encode_payload (i ∷ payload) = encode_spec i ++ encode_payload payload

unfoldable pub encode : OpCode → Kwargs → Result (List ℕ)
unfolding encode_spec new_instruction
encode op kwargs = do spec ← new_instruction op kwargs; ok (encode_spec spec)

-- The state of an encoder object.
pub record Encoder : Type 0 where
  pub bankbits : ℕ
  pub nranks : ℕ

abbrev pub rowcol : Option ℕ → Option ℕ → ℕ
rowcol (some row) col = row
rowcol none (some col) = col
rowcol none none = 0

-- `address |= rank` of an absent rank is a TypeError.
abbrev with_rank : ℕ → Option ℕ → Result ℕ
with_rank address none = raised type_error
with_rank address (some rank) = ok (bit_or address rank)

-- `Encoder.address`; `log2_int` is migen's.
unfoldable pub address : (ℕ → ℕ) → Encoder → Option ℕ → ℕ → Option ℕ → Option ℕ → Result ℕ
address log2_int e rank bank row col = do
  assert (not (is_some row && is_some col))
  let a = bit_or (bit_and bank (2 ^ e.bankbits - 1)) (rowcol row col * 2 ^ e.bankbits)
  if ltb 1 e.nranks then with_rank (a * 2 ^ log2_int e.nranks) rank else ok a
