-- ===== src/PayloadChecker/Bank.antt =====
-- rowhammer_tester/payload/ddr3lib.py and ddr4lib.py: class Bank, the same in both. `next_tick` has an
-- entry for each opcode; that of REF stays 0, and an opcode without one counts as 0.
pub mod Limits
use rowhammer_tester.Prelude.{ℕ, ◌+◌, Option, none, some, ltb, if◌then◌else◌}
use rowhammer_tester.PayloadChecker.{
  Opcode, rd, act, pre, Time, at, never, too_early, postpone, CoreTiming,
}

pub record Bank : Type 0 where
  pub next_rd : Time
  pub next_act : Time
  pub next_pre : Time

abbrev pub fresh_bank : Bank
fresh_bank = record { next_rd = never; next_act = at 0; next_pre = at 0 }

-- `next_tick.get(opcode, 0)`
abbrev pub bank_next : Opcode → Bank → Time
bank_next rd b = b.next_rd
bank_next act b = b.next_act
bank_next pre b = b.next_pre
bank_next _ b = at 0

module _ (t : CoreTiming) where
  -- The loop over `parameters.get(instr.opcode, {})`.
  unfoldable pub bank_update : ℕ → Opcode → Bank → Bank
  bank_update tick rd b = record b { next_pre = postpone tick (at t.rtp) b.next_pre }
  bank_update tick act b = record {
    next_rd = postpone tick (at t.rcd) b.next_rd;
    next_act = postpone tick never b.next_act;
    next_pre = postpone tick (at t.ras) b.next_pre;
  }
  bank_update tick pre b = record b {
    next_rd = postpone tick never b.next_rd;
    next_act = postpone tick (at t.rp) b.next_act;
  }
  bank_update tick _ b = b

  -- `none` is the result False.
  unfoldable pub bank_execute : ℕ → Opcode → Bank → Option Bank
  unfolding bank_update
  bank_execute tick op b =
      if too_early tick (bank_next op b) then none else some (bank_update tick op b)
