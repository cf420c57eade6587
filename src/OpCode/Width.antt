-- ===== src/OpCode/Width.antt =====
-- rowhammer_tester/gateware/payload_executor.py: the field widths that class Decoder declares.
use rowhammer_tester.Prelude.{ℕ, ◌+◌}

abbrev pub instruction : ℕ
instruction = 32

abbrev pub op_code : ℕ
op_code = 3

abbrev pub timeslice : ℕ
timeslice = 5

abbrev pub address : ℕ
address = 24

abbrev pub timeslice_noop : ℕ
timeslice_noop = timeslice + address

abbrev pub loop_count : ℕ
loop_count = 12

abbrev pub loop_jump : ℕ
loop_jump = 17
