-- ===== src/Decoder.antt =====
-- rowhammer_tester/gateware/payload_executor.py: class Decoder. Its outputs are combinational, so
-- they are one function of the instruction word. The slice `s[a:b]` of a signal is
-- `s / 2 ^ a % 2 ^ (b - a)`, and an assignment keeps the low bits that the target has.
use rowhammer_tester.Prelude.{ℕ, ◌+◌, ◌/◌, ◌%◌, ◌^◌, ◌≤◌, max, Bool, ◌&&◌, ◌==◌, if◌then◌else◌}
use rowhammer_tester.OpCode.{value, noop}
use rowhammer_tester.OpCode.Width

-- The keyword arguments of `Decoder.__init__`.
pub record Geometry : Type 0 where
  pub rankbits : ℕ
  pub bankbits : ℕ
  pub rowbits : ℕ
  pub colbits : ℕ

-- The assertion of `Decoder.__init__` on them.
abbrev pub FitsAddress : Geometry → Type 0
FitsAddress g = g.rankbits + g.bankbits + max g.rowbits g.colbits ≤ Width.address

pub record Decoded : Type 0 where
  pub op_code : ℕ
  pub timeslice : ℕ
  pub address : ℕ
  pub cas : Bool
  pub ras : Bool
  pub we : Bool
  pub dfi_rank : ℕ
  pub dfi_bank : ℕ
  pub dfi_address : ℕ
  pub loop_count : ℕ
  pub loop_jump : ℕ
  pub stop : Bool

abbrev pub bit : ℕ → ℕ → Bool
bit x i = x / 2 ^ i % 2 == 1

unfoldable pub decode_op : ℕ → ℕ
decode_op instruction = instruction % 2 ^ Width.op_code

unfoldable pub decode_timeslice : ℕ → ℕ
unfolding decode_op
decode_timeslice instruction =
    let tail : ℕ = instruction / 2 ^ Width.op_code in
    if decode_op instruction == value noop
    then tail % 2 ^ Width.timeslice_noop
    else tail % 2 ^ Width.timeslice

unfoldable pub decode_address : ℕ → ℕ
decode_address instruction =
    instruction / 2 ^ Width.op_code / 2 ^ Width.timeslice % 2 ^ Width.address

unfoldable pub decode_count : ℕ → ℕ
decode_count instruction = instruction / 2 ^ Width.op_code % 2 ^ Width.loop_count

unfoldable pub decode_jump : ℕ → ℕ
decode_jump instruction =
    instruction / 2 ^ Width.op_code / 2 ^ Width.loop_count % 2 ^ Width.loop_jump

unfoldable pub decode : Geometry → ℕ → Decoded
unfolding decode_op decode_timeslice decode_address decode_count decode_jump
decode g instruction =
    let op : ℕ = decode_op instruction in
    let slice : ℕ = decode_timeslice instruction in
    let address : ℕ = decode_address instruction in
    record {
      op_code = op;
      timeslice = slice;
      address = address;
      cas = bit op 1;
      ras = bit op 2;
      we = bit op 0;
      dfi_rank = address % 2 ^ g.rankbits;
      dfi_bank = address / 2 ^ g.rankbits % 2 ^ g.bankbits;
      dfi_address = address / 2 ^ (g.rankbits + g.bankbits) % 2 ^ max g.rowbits g.colbits;
      loop_count = decode_count instruction;
      loop_jump = decode_jump instruction;
      stop = op == value noop && slice == 0;
    }
