-- ===== src/Playbook.antt =====
-- rowhammer_tester/scripts/playbook/lib/__init__.py: payloads from lists of rows. A payload that
-- the source appends to is returned longer; what is printed is left out. `log2_int` is migen's.
-- `ceil(rolled / n)` is taken exactly, as it is below 2 ** 53.
pub mod Lcm
pub mod LongLoop
pub mod Refresh
use mathlib.Core.Logic.{dite}
use mathlib.Core.WellFounded
use mathlib.Core.WellFounded.{Acc, WellFounded}
use native.Mathlib.Decide.{dec_lt}
use native.Mathlib.Nat.{mod-lt}
use rowhammer_tester.Prelude.{
  ℕ, zero, suc, ◌+◌, ◌-◌, ◌*◌, ◌/◌, ◌%◌, ◌^◌, ◌<◌, max, min, Bool, true, false, Option, some, none,
  List, [], ◌∷◌, ◌++◌, length, ltb, leb, ◌==◌, if◌then◌else◌, arith, lt_wf,
}
use rowhammer_tester.Prelude.{
  Result, ok, raised, ◌>>=◌, ◌>>◌, assert, zero_division_error, system_exit,
}
use rowhammer_tester.OpCode.{OpCode, noop, loop, act, pre, ref}
use rowhammer_tester.OpCode.Width
use rowhammer_tester.Encoder.{
  Encoder, Kwargs, Instruction, new_instruction, address, encode_payload,
}

-- Cycle counts of the memory's timing parameters.
pub record Timings : Type 0 where
  pub tras : ℕ
  pub trp : ℕ
  pub trefi : ℕ
  pub trfc : ℕ

-- `encoder.Instruction(op, timeslice=t)`, and with an address.
unfoldable pub timed : OpCode → ℕ → Option ℕ → Result Instruction
unfolding new_instruction
timed op timeslice addr =
    new_instruction op
      (record { count = none; jump = none; timeslice = some timeslice; address = addr })

unfoldable pub new_jump : ℕ → ℕ → Result Instruction
unfolding new_instruction
new_jump count jump =
    new_instruction loop
      (record { count = some count; jump = some jump; timeslice = none; address = none })

-- What stays the same in a loop: the arguments of `encode_one_loop` but the counts and the payload.
pub record Setup : Type 0 where
  pub row_sequence : List ℕ
  pub timings : Timings
  pub encoder : Encoder
  pub bank : ℕ
  pub rank : Option ℕ
  pub refresh_op : OpCode

pub record LoopState : Type 0 where
  pub payload : List Instruction
  pub accum : ℕ
  pub local_refreshes : ℕ

abbrev pub count_max : ℕ
count_max = 2 ^ Width.loop_count - 1

-- The count of the loop with index `outer_idx`.
unfoldable pub loop_count : ℕ → ℕ → ℕ
loop_count rolled zero =
    let count = rolled % (count_max + 1) in if count == 0 then count_max else count - 1
loop_count rolled (suc outer_idx) = count_max

unfoldable pub n_loops : ℕ → ℕ
n_loops rolled = (rolled + count_max) / (count_max + 1)

module _ (log2_int : ℕ → ℕ) (setup : Setup) where
  -- One refresh in the middle of a loop, where the next row would come too late.
  unfoldable pub refresh_if_due : LoopState → Result LoopState
  refresh_if_due s =
      let t = setup.timings in
      if ltb t.trefi (s.accum + t.tras + t.trp)
      then (do
        i ← timed setup.refresh_op t.trfc none
        ok (record {
          payload = s.payload ++ i ∷ [];
          accum = t.trfc;
          local_refreshes = s.local_refreshes + 1;
        }))
      else ok s

  -- The body of the inner `for row in row_sequence`.
  unfoldable pub row_step : ℕ → LoopState → Result LoopState
  unfolding refresh_if_due
  row_step row before = do
    s ← refresh_if_due before
    act_address ← address log2_int setup.encoder setup.rank setup.bank (some row) none
    activate ← timed act setup.timings.tras (some act_address)
    pre_address ← address log2_int setup.encoder setup.rank 0 none (some (2 ^ 10))
    precharge ← timed pre setup.timings.trp (some pre_address)
    ok (record s {
      payload = s.payload ++ activate ∷ precharge ∷ [];
      accum = s.accum + (setup.timings.tras + setup.timings.trp);
    })

  unfoldable pub rows_loop : List ℕ → LoopState → Result LoopState
  rows_loop [] s = ok s
  rows_loop (row ∷ rows) s = row_step row s >>= rows_loop rows

  unfoldable pub unrolled_loop : ℕ → LoopState → Result LoopState
  unrolled_loop zero s = ok s
  unrolled_loop (suc n) s = rows_loop setup.row_sequence s >>= unrolled_loop n

  -- The payload with one loop more, and the refreshes that the loop issues.
  unfoldable pub encode_one_loop : ℕ → ℕ → List Instruction → Result (List Instruction × ℕ)
  unfolding row_step rows_loop unrolled_loop
  encode_one_loop unrolled rolled payload = do
    first ← timed setup.refresh_op setup.timings.trfc none
    s ← unrolled_loop unrolled (record {
      payload = payload ++ first ∷ [];
      accum = setup.timings.trfc + 1;
      local_refreshes = 1;
    })
    let jump_target = 2 * unrolled * length setup.row_sequence + s.local_refreshes
    assert (ltb jump_target (2 ^ Width.loop_jump))
    jump ← new_jump rolled jump_target
    ok (s.payload ++ jump ∷ [], s.local_refreshes * (rolled + 1))

  unfoldable pub outer_loop : ℕ → ℕ → ℕ → ℕ → List Instruction → ℕ → Result (List Instruction × ℕ)
  unfolding encode_one_loop loop_count
  outer_loop unrolled rolled zero outer_idx payload refreshes = ok (payload, refreshes)
  outer_loop unrolled rolled (suc left) outer_idx payload refreshes = do
    (payload', more) ← encode_one_loop unrolled (loop_count rolled outer_idx) payload
    outer_loop unrolled rolled left (outer_idx + 1) payload' (refreshes + more)

  unfoldable pub encode_long_loop : ℕ → ℕ → List Instruction → Result (List Instruction × ℕ)
  unfolding outer_loop n_loops
  encode_long_loop unrolled rolled payload = outer_loop unrolled rolled (n_loops rolled) 0 payload 0

-- `while rem: gcd, rem = rem, gcd % rem`
unfoldable pub gcd_loop : (gcd rem : ℕ) → Acc ◌<◌ rem → ℕ
gcd_loop gcd rem (Acc.intro _ smaller) =
    dite (dec_lt 0 rem) (λ h. gcd_loop rem (gcd % rem) (smaller (gcd % rem) (mod-lt gcd h)))
      (λ _. gcd)

-- Python's `//`
abbrev pub floor_div : ℕ → ℕ → Result ℕ
floor_div a b = if b == 0 then raised zero_division_error else ok (a / b)

unfoldable pub least_common_multiple : ℕ → ℕ → Result ℕ
unfolding gcd_loop lt_wf dec_lt
least_common_multiple x y = floor_div (x * y) (gcd_loop x y (lt_wf.apply y))

abbrev pub max_acts_in_loop : ℕ
max_acts_in_loop = (2 ^ Width.loop_jump - 1) / 2

-- How often the rows are repeated in one loop body. With tREFI below tRFC the source divides a
-- negative number and fails the assertion below, as it does for the 0 that `-` gives here.
unfoldable pub repetitions : Timings → List ℕ → Result ℕ
unfolding least_common_multiple
repetitions t row_sequence = do
  acts_per_interval ← floor_div (t.trefi - t.trfc) (t.trp + t.tras)
  multiple ← least_common_multiple acts_per_interval (length row_sequence)
  let repeatable_unit = min multiple max_acts_in_loop
  assert (leb (length row_sequence) repeatable_unit)
  floor_div repeatable_unit (length row_sequence)

-- `generate_payload_from_row_list` up to the check of its length.
unfoldable pub row_list_payload : (ℕ → ℕ) → Setup → ℕ → Result (List Instruction)
unfolding repetitions encode_long_loop
row_list_payload log2_int setup read_count = do
  let t = setup.timings
  repeat ← repetitions t setup.row_sequence
  first ← timed noop (max 1 (max (t.trfc - 2) (t.trefi - 2))) none
  (main, _) ← encode_long_loop log2_int setup repeat (read_count / repeat) (first ∷ [])
  (all, _) ← encode_long_loop log2_int setup 1 (read_count % repeat) main
  last ← timed setup.refresh_op 1 none
  stop ← timed noop 0 none
  ok (all ++ last ∷ stop ∷ [])

unfoldable pub generate_payload_from_row_list : (ℕ → ℕ) → Setup → ℕ → ℕ → Result (List ℕ)
unfolding row_list_payload encode_payload
generate_payload_from_row_list log2_int setup read_count payload_mem_size = do
  payload ← row_list_payload log2_int setup read_count
  let too_long = ltb (payload_mem_size / 4) (length payload)
  (if too_long then raised system_exit else ok (encode_payload payload))
