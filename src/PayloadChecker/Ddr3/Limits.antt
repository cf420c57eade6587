-- ===== src/PayloadChecker/Ddr3/Limits.antt =====
-- rowhammer_tester/payload/ddr3lib.py: what a Rank's `next_tick` holds of the commands it has
-- executed.
use rowhammer_tester.Prelude.{ℕ, ◌+◌, ◌≤◌, ◌≡◌, false, some, arith, Option-cases, inl, inr}
use rowhammer_tester.PayloadChecker.{
  Opcode, rd, act, pre, ref, MemInstr, Time, at, never, too_early, update,
}
use rowhammer_tester.PayloadChecker.Bank.{Bank, bank_execute}
use rowhammer_tester.PayloadChecker.Bank.Limits.{AtLeast, Finite}
use rowhammer_tester.PayloadChecker.Ddr3.{
  Ddr3Timing, Rank, rank_next, rank_update, rank_execute, faw_violated, remember,
}

-- As `AtLeast`, where a command that is never let through has the limit behind it.
abbrev pub Passed : ℕ → ℕ → Time → Type 0
Passed now limit (at n) = limit ≤ n
Passed now limit never = limit ≤ now

module _ (t : Ddr3Timing) where
  -- The ticks a rank keeps from a command to a later one, whatever the banks.
  abbrev pub rank_gap : Opcode → Opcode → ℕ
  rank_gap rd rd = t.ccd
  rank_gap act act = t.rrd
  rank_gap pre ref = t.core.rp
  rank_gap ref act = t.core.rfc
  rank_gap ref pre = t.core.rfc
  rank_gap ref ref = t.core.rfc
  rank_gap _ _ = 0

  -- That a rank remembers a command at `t0`.
  abbrev pub RankCovers : ℕ → ℕ → Opcode → Rank → Type 0
  RankCovers now t0 rd r = Finite (t0 + t.ccd) r.next_rd
  RankCovers now t0 act r = Finite (t0 + t.rrd) r.next_act
  RankCovers now t0 pre r = AtLeast (t0 + t.core.rp) r.next_ref
  RankCovers now t0 ref r =
      Finite (t0 + t.core.rfc) r.next_act
      × Finite (t0 + t.core.rfc) r.next_pre
      × Passed now (t0 + t.core.rfc) r.next_ref
  RankCovers now t0 _ r = Unit

  pub RankCovers-later :
      (a b t0 : ℕ) (op : Opcode) (r : Rank) → a ≤ b → RankCovers a t0 op r → RankCovers b t0 op r
  RankCovers-later a b t0 op r le h = ground arith

  -- The parts of an `Execute` that returns True.
  pub record Executed (tick : ℕ) (m : MemInstr) (r r' : Rank) : Type 0 where
    pub bank : Bank
    pub on_time : too_early tick (rank_next m.opcode r) ≡ false
    pub faw_ok : faw_violated t.core.faw tick m.opcode r ≡ false
    pub bank_ok : bank_execute t.core tick m.opcode (r.banks m.bank) ≡ some bank
    pub after :
        r'
        ≡ rank_update t tick m.opcode
            (record (remember tick m.opcode r) { banks = update r.banks m.bank bank })

  pub rank_execute-Executed :
      (tick : ℕ) (m : MemInstr) (r r' : Rank)
      → rank_execute t tick m r ≡ some r'
      → Executed tick m r r'
  unfolding rank_execute
  rank_execute-Executed tick m r r' e =
      elim (Option-cases (bank_execute t.core tick m.opcode (r.banks m.bank))) [
        | inl q ↦ absurd (ground (arith, e, q))
        | inr (b, q) ↦ record {
          bank = b;
          on_time = ground (arith, e);
          faw_ok = ground (arith, e, q);
          bank_ok = q;
          after = ground (arith, e, q);
        }
      ]

  pub rank_update-RankCovers :
      (tick t0 : ℕ) (op c : Opcode) (r : Rank)
      → too_early tick (rank_next c r) ≡ false
      → RankCovers tick t0 op r
      → t0 ≤ tick
      → RankCovers tick t0 op (rank_update t tick c r)
  unfolding rank_update
  rank_update-RankCovers tick t0 op c r e h le = ground arith

  pub rank_update-fresh :
      (tick : ℕ) (c : Opcode) (r : Rank) → RankCovers tick tick c (rank_update t tick c r)
  unfolding rank_update
  rank_update-fresh tick c r = ground arith

  pub rank_next-gap :
      (tick t0 : ℕ) (op c : Opcode) (r : Rank)
      → too_early tick (rank_next c r) ≡ false
      → RankCovers tick t0 op r
      → t0 ≤ tick
      → t0 + rank_gap op c ≤ tick
  rank_next-gap tick t0 op c r e h le = ground arith
