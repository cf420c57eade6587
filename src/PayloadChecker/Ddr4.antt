-- ===== src/PayloadChecker/Ddr4.antt =====
-- rowhammer_tester/payload/ddr4lib.py: classes Rank and BankGroup. A list of bank groups or of banks is
-- a function of the index, which `VerifyInstr` bounds before anything is executed.
pub mod Limits
pub mod Sound
use rowhammer_tester.Prelude.{
  ℕ, ◌+◌, ◌-◌, Bool, true, false, Option, none, some, List, [], ◌∷◌, ltb, ◌==◌, if◌then◌else◌,
}
use rowhammer_tester.PayloadChecker.{
  Opcode, rd, act, pre, ref, MemInstr, Time, at, never, too_early, postpone, CoreTiming, update,
  push_act, breaks_faw,
}
use rowhammer_tester.PayloadChecker.Bank.{Bank, fresh_bank, bank_execute}

pub record Ddr4Timing : Type 0 where
  pub core : CoreTiming
  pub ccd_l : ℕ
  pub ccd_s : ℕ
  pub rrd_l : ℕ
  pub rrd_s : ℕ

pub record BankGroup : Type 0 where
  pub next_rd : ℕ
  pub next_act : ℕ
  pub banks : ℕ → Bank

abbrev pub fresh_group : BankGroup
fresh_group = record { next_rd = 0; next_act = 0; banks = λ i. fresh_bank }

abbrev pub group_next : Opcode → BankGroup → ℕ
group_next rd g = g.next_rd
group_next act g = g.next_act
group_next _ g = 0

pub record Rank : Type 0 where
  pub next_act : Time
  pub next_pre : Time
  pub next_ref : Time
  pub prev_acts : List ℕ
  pub groups : ℕ → BankGroup

-- The entry of RD stays 0.
abbrev pub fresh_rank : Rank
fresh_rank = record {
  next_act = at 0;
  next_pre = at 0;
  next_ref = at 0;
  prev_acts = [];
  groups = λ i. fresh_group;
}

abbrev pub rank_next : Opcode → Rank → Time
rank_next act r = r.next_act
rank_next pre r = r.next_pre
rank_next ref r = r.next_ref
rank_next _ r = at 0

abbrev pub faw_violated : ℕ → ℕ → Opcode → Rank → Bool
faw_violated faw tick act r = breaks_faw faw tick r.prev_acts
faw_violated faw tick _ r = false

abbrev pub remember : ℕ → Opcode → Rank → Rank
remember tick act r = record r { prev_acts = push_act r.prev_acts tick }
remember tick _ r = r

module _ (t : Ddr4Timing) where
  -- The loop over the parameters in BankGroup's `Execute`, and in `Update`.
  abbrev pub group_limit : ℕ → Opcode → BankGroup → BankGroup
  group_limit tick rd g = record g { next_rd = tick + t.ccd_l }
  group_limit tick act g = record g { next_act = tick + t.rrd_l }
  group_limit tick _ g = g

  abbrev pub group_update : ℕ → Opcode → BankGroup → BankGroup
  group_update tick rd g = record g { next_rd = tick + t.ccd_s }
  group_update tick act g = record g { next_act = tick + t.rrd_s }
  group_update tick _ g = g

  abbrev pub group_with : ℕ → MemInstr → BankGroup → Option Bank → Option BankGroup
  group_with tick m g none = none
  group_with tick m g (some b) =
      some (group_limit tick m.opcode (record g { banks = update g.banks m.bank b }))

  unfoldable pub group_execute : ℕ → MemInstr → BankGroup → Option BankGroup
  unfolding bank_execute
  group_execute tick m g =
      if ltb tick (group_next m.opcode g)
      then none
      else group_with tick m g (bank_execute t.core tick m.opcode (g.banks m.bank))

  unfoldable pub rank_update : ℕ → Opcode → Rank → Rank
  rank_update tick act r = record r { next_ref = postpone tick never r.next_ref }
  rank_update tick pre r = record r { next_ref = postpone tick (at t.core.rp) r.next_ref }
  rank_update tick ref r = record r {
    next_act = postpone tick (at t.core.rfc) r.next_act;
    next_pre = postpone tick (at t.core.rfc) r.next_pre;
    next_ref = postpone tick (at t.core.rfc) r.next_ref;
  }
  rank_update tick _ r = r

  -- With the group that was executed on; all others are told of it.
  abbrev pub regroup : ℕ → MemInstr → (ℕ → BankGroup) → BankGroup → ℕ → BankGroup
  regroup tick m groups g i = if i == m.bank_group then g else group_update tick m.opcode (groups i)

  abbrev pub with_group : ℕ → MemInstr → Rank → Option BankGroup → Option Rank
  with_group tick m r none = none
  with_group tick m r (some g) =
      some (rank_update tick m.opcode (record r { groups = regroup tick m r.groups g }))

  unfoldable pub rank_execute : ℕ → MemInstr → Rank → Option Rank
  unfolding rank_update group_execute
  rank_execute tick m r =
      if too_early tick (rank_next m.opcode r)
      then none
      else if faw_violated t.core.faw tick m.opcode r
      then none
      else with_group tick m (remember tick m.opcode r)
          (group_execute tick m (r.groups m.bank_group))
