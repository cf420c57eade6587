-- ===== src/OpCode.antt =====
-- rowhammer_tester/gateware/payload_executor.py: class OpCode.
pub mod Width
use rowhammer_tester.Prelude.{ℕ}

pub data OpCode : Type 0 where
  noop loop act pre ref zqc read : OpCode

-- The three bits of an operation code; in a DRAM command they are (ras, cas, we).
abbrev pub value : OpCode → ℕ
value noop = 0b000
value loop = 0b111
value act = 0b100
value pre = 0b101
value ref = 0b110
value zqc = 0b001
value read = 0b010
