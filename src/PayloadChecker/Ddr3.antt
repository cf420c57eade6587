-- ===== src/PayloadChecker/Ddr3.antt =====
-- rowhammer_tester/payload/ddr3lib.py: class Rank. Its list of banks is a function of the index, which
-- `VerifyInstr` bounds before anything is executed.
pub mod Limits
pub mod Sound
pub mod Refresh
use rowhammer_tester.Prelude.{
  ℕ, ◌+◌, ◌-◌, Bool, true, false, ◌&&◌, Option, none, some, List, [], ◌∷◌, ltb, ◌==◌, if◌then◌else◌,
}
use rowhammer_tester.PayloadChecker.{
  Opcode, rd, act, pre, ref, MemInstr, Time, at, never, too_early, postpone, CoreTiming, update,
  push_act, breaks_faw,
}
use rowhammer_tester.PayloadChecker.Bank.{Bank, fresh_bank, bank_execute}

pub record Ddr3Timing : Type 0 where
  pub core : CoreTiming
  pub ccd : ℕ
  pub rrd : ℕ

pub record Rank : Type 0 where
  pub next_rd : Time
  pub next_act : Time
  pub next_pre : Time
  pub next_ref : Time
  pub prev_acts : List ℕ
  pub banks : ℕ → Bank

abbrev pub fresh_rank : Rank
fresh_rank = record {
  next_rd = at 0;
  next_act = at 0;
  next_pre = at 0;
  next_ref = at 0;
  prev_acts = [];
  banks = λ i. fresh_bank;
}

abbrev pub rank_next : Opcode → Rank → Time
rank_next rd r = r.next_rd
rank_next act r = r.next_act
rank_next pre r = r.next_pre
rank_next ref r = r.next_ref
rank_next _ r = at 0

-- The tFAW check, and what is remembered of an ACT.
abbrev pub faw_violated : ℕ → ℕ → Opcode → Rank → Bool
faw_violated faw tick act r = breaks_faw faw tick r.prev_acts
faw_violated faw tick _ r = false

abbrev pub remember : ℕ → Opcode → Rank → Rank
remember tick act r = record r { prev_acts = push_act r.prev_acts tick }
remember tick _ r = r

module _ (t : Ddr3Timing) where
  unfoldable pub rank_update : ℕ → Opcode → Rank → Rank
  rank_update tick rd r = record r { next_rd = postpone tick (at t.ccd) r.next_rd }
  rank_update tick act r = record r {
    next_act = postpone tick (at t.rrd) r.next_act;
    next_ref = postpone tick never r.next_ref;
  }
  rank_update tick pre r = record r { next_ref = postpone tick (at t.core.rp) r.next_ref }
  rank_update tick ref r = record r {
    next_act = postpone tick (at t.core.rfc) r.next_act;
    next_pre = postpone tick (at t.core.rfc) r.next_pre;
    next_ref = postpone tick (at t.core.rfc) r.next_ref;
  }
  rank_update tick _ r = r

  -- With what the bank gave.
  abbrev pub with_bank : ℕ → MemInstr → Rank → Option Bank → Option Rank
  with_bank tick m r none = none
  with_bank tick m r (some b) =
      some (rank_update tick m.opcode (record r { banks = update r.banks m.bank b }))

  unfoldable pub rank_execute : ℕ → MemInstr → Rank → Option Rank
  unfolding rank_update bank_execute
  rank_execute tick m r =
      if too_early tick (rank_next m.opcode r)
      then none
      else if faw_violated t.core.faw tick m.opcode r
      then none
      else with_bank tick m (remember tick m.opcode r)
          (bank_execute t.core tick m.opcode (r.banks m.bank))
