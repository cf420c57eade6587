-- ===== src/Tests/Checker.antt =====
-- The payload checker.
use rowhammer_tester.Prelude.{ℕ, ◌≡◌, ◌≢◌, refl, Option, none, some, List, [], ◌∷◌, arith}
use rowhammer_tester.PayloadChecker.{
  Opcode, rd, act, pre, ref, jmp, MemInstr, Instr, mem, jmp_instr, CoreTiming, never,
  ddr3_verify_instr, ddr4_verify_instr,
}
use rowhammer_tester.PayloadChecker.Bank.{bank_execute}
use rowhammer_tester.PayloadChecker.Legal.{Legal}
use rowhammer_tester.PayloadChecker.Run.{State, initial, check, step, Outcome, accepted, unfinished}
use rowhammer_tester.PayloadChecker.Run.Ends.{check-Ends}
use rowhammer_tester.PayloadChecker.Run.Nested.{nested, ddr3_check-nested}
use rowhammer_tester.PayloadChecker.Ddr3.{Ddr3Timing, Rank, fresh_rank, rank_execute}
use rowhammer_tester.PayloadChecker.Ddr3.Sound.{
  same_bank, ddr3_gap, ddr3_fields, ddr3_check, ddr3_issued, ddr3_check-Legal,
}
use rowhammer_tester.PayloadChecker.Ddr3.Refresh.{ref-while_open}
use rowhammer_tester.PayloadChecker.Ddr4.{Ddr4Timing}
use rowhammer_tester.PayloadChecker.Ddr4 as Ddr4
use rowhammer_tester.PayloadChecker.Ddr4.Sound.{ddr4_gap, ddr4_check, ddr4_issued, ddr4_check-Legal}
use rowhammer_tester.PayloadChecker.Ddr4.Sound as Sound4

abbrev core : CoreTiming
core = record { tick_ps = 1250; ras = 4; rp = 2; rfc = 9; rcd = 2; rtp = 1; faw = 8 }

abbrev ddr3 : Ddr3Timing
ddr3 = record { core = core; ccd = 2; rrd = 2 }

abbrev ddr4 : Ddr4Timing
ddr4 = record { core = core; ccd_l = 3; ccd_s = 2; rrd_l = 3; rrd_s = 2 }

abbrev memory_command : Opcode → ℕ → ℕ → MemInstr
memory_command op group bank = record {
  opcode = op;
  timeslice = 4;
  rank = 0;
  stack = 0;
  bank_group = group;
  bank = bank;
  addr = 8;
}

-- Two rounds of an ACT, a RD and a PRE.
abbrev hammer : ℕ → List Instr
hammer group =
    mem (memory_command act group 1)
    ∷ mem (memory_command rd group 1)
    ∷ mem (memory_command pre group 1)
    ∷ jmp_instr jmp 3 1
    ∷ []

abbrev end_of : Outcome → State
end_of (accepted s) = s
end_of _ = initial

unfoldable ddr3_end : State
unfolding ddr3_check
ddr3_end = end_of (ddr3_check ddr3 20 (hammer 0))

ddr3_passes : ddr3_check ddr3 20 (hammer 0) ≡ accepted ddr3_end
unfolding ddr3_end ddr3_check check ddr3_verify_instr rank_execute bank_execute step
ddr3_passes = refl

ddr3_check-Legal_example : Legal same_bank core (ddr3_gap ddr3) (ddr3_issued ddr3 20 (hammer 0))
ddr3_check-Legal_example = ddr3_check-Legal ddr3 20 (hammer 0) ddr3_end ddr3_passes

unfoldable ddr4_end : State
unfolding ddr4_check
ddr4_end = end_of (ddr4_check ddr4 20 (hammer 2))

ddr4_passes : ddr4_check ddr4 20 (hammer 2) ≡ accepted ddr4_end
unfolding ddr4_end ddr4_check check ddr4_verify_instr Ddr4.rank_execute bank_execute step
ddr4_passes = refl

ddr4_check-Legal_example :
    Legal Sound4.same_bank core (ddr4_gap ddr4) (ddr4_issued ddr4 20 (hammer 2))
ddr4_check-Legal_example =
    ddr4_check-Legal ddr4 20 (hammer 2) ddr4_end (omega arith) (omega arith) ddr4_passes

check-Ends_example :
    check (rank_execute ddr3) fresh_rank ddr3_verify_instr (ddr3_fields ddr3) 12 (hammer 0)
    ≢ unfinished
check-Ends_example =
    check-Ends (rank_execute ddr3) (hammer 0) fresh_rank ddr3_verify_instr (ddr3_fields ddr3) 12
      refl (omega arith)

ddr3_check-nested_example : ddr3_check ddr3 1000 (nested 5 2 3) ≡ unfinished
ddr3_check-nested_example =
    ddr3_check-nested ddr3 5 2 3 1000 refl (omega arith) (omega arith) (omega arith) (omega arith)
      (omega arith) (omega arith)

-- Banks 1 and 2 are open.
abbrev rank_or : Option Rank → Rank
rank_or (some r) = r
rank_or none = fresh_rank

unfoldable two_open : Rank
unfolding rank_execute
two_open = rank_or (
    rank_execute ddr3 3 (memory_command act 0 2)
      (rank_or (rank_execute ddr3 0 (memory_command act 0 1) fresh_rank)))

unfoldable one_open : Rank
unfolding rank_execute two_open
one_open = rank_or (rank_execute ddr3 9 (memory_command pre 0 2) two_open)

closes_one : rank_execute ddr3 9 (memory_command pre 0 2) two_open ≡ some one_open
unfolding one_open two_open rank_execute bank_execute step
closes_one = refl

no_ref : two_open.next_ref ≡ never
unfolding two_open rank_execute bank_execute step
no_ref = refl

ref-while_open_example :
    (r : Rank) × (rank_execute ddr3 11 (memory_command ref 0 0) one_open ≡ some r)
    × (r.banks 1 ≡ two_open.banks 1)
ref-while_open_example =
    ref-while_open ddr3 9 11 1 (memory_command pre 0 2) (memory_command ref 0 0) two_open one_open
      refl refl no_ref (omega arith) closes_one (omega arith)
