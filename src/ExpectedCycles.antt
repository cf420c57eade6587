-- ===== src/ExpectedCycles.antt =====
-- rowhammer_tester/scripts/utils.py: get_expected_execution_cycles. A missing attribute of an
-- instruction is an AttributeError.
use rowhammer_tester.Prelude.{
  ℕ, ◌+◌, ◌-◌, ◌*◌, Bool, true, false, Option, none, some, List, [], ◌∷◌, length, leb, ◌==◌,
  if◌then◌else◌, Result, ok, raised, ◌>>=◌, attribute_error,
}
use rowhammer_tester.OpCode.{OpCode, noop, loop}
use rowhammer_tester.Encoder.{Instruction}
use rowhammer_tester.Memory.{slice}

abbrev attribute : Option ℕ → Result ℕ
attribute none = raised attribute_error
attribute (some v) = ok v

-- `sum(ii.timeslice for ii in body)`
unfoldable sum_timeslices : List Instruction → Result ℕ
sum_timeslices [] = ok 0
sum_timeslices (i ∷ body) = do
  t ← attribute i.kwargs.timeslice
  rest ← sum_timeslices body
  ok (t + rest)

-- `payload[i - jump : i]`, where a negative start counts from the end.
unfoldable loop_body : List Instruction → ℕ → ℕ → List Instruction
unfolding slice
loop_body payload i jump =
    if leb jump i then slice payload (i - jump) i else slice payload (length payload + i - jump) i

-- The cycles of the instruction at `i`, and whether the loop goes on.
unfoldable instruction_cycles : List Instruction → ℕ → Instruction → OpCode → Result (ℕ × Bool)
unfolding sum_timeslices loop_body
instruction_cycles payload i instr noop = do
  t ← attribute instr.kwargs.timeslice
  ok (if t == 0 then (1, false) else (t, true))
instruction_cycles payload i instr loop = do
  jump ← attribute instr.kwargs.jump
  count ← attribute instr.kwargs.count
  body ← sum_timeslices (loop_body payload i jump)
  ok (1 + count * body, true)
instruction_cycles payload i instr _ = do t ← attribute instr.kwargs.timeslice; ok (t, true)

unfoldable cycles_from : List Instruction → ℕ → List Instruction → Result ℕ
unfolding instruction_cycles
cycles_from payload i [] = ok 0
cycles_from payload i (instr ∷ rest) = do
  (here, goes_on) ← instruction_cycles payload i instr instr.op_code
  let later = cycles_from payload (i + 1) rest
  (if goes_on then (do more ← later; ok (here + more)) else ok here)

unfoldable pub get_expected_execution_cycles : List Instruction → Result ℕ
unfolding cycles_from
get_expected_execution_cycles payload = cycles_from payload 0 payload
