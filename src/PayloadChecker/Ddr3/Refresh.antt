-- ===== src/PayloadChecker/Ddr3/Refresh.antt =====
-- rowhammer_tester/payload/ddr3lib.py: the rank's entry for REF, which an ACT sets to infinity and the
-- next PRE to a tick.
use rowhammer_tester.Prelude.{ℕ, ◌+◌, ◌≤◌, ◌≡◌, ◌≢◌, ◌∙◌, some, arith}
use rowhammer_tester.PayloadChecker.{pre, ref, MemInstr, at, never, update}
use rowhammer_tester.PayloadChecker.Bank.{bank_update, bank_execute}
use rowhammer_tester.PayloadChecker.Ddr3.{Ddr3Timing, Rank, rank_update, rank_execute}

module _ (t : Ddr3Timing) where
  pre_next_ref :
      (tick : ℕ) (m : MemInstr) (r r' : Rank)
      → m.opcode ≡ pre
      → r.next_ref ≡ never
      → rank_execute t tick m r ≡ some r'
      → r'.next_ref ≡ at (tick + t.core.rp)
  unfolding rank_execute rank_update
  pre_next_ref tick m r r' p n e = ground arith

  pre_other_bank :
      (tick a : ℕ) (m : MemInstr) (r r' : Rank)
      → m.opcode ≡ pre
      → a ≢ m.bank
      → rank_execute t tick m r ≡ some r'
      → r'.banks a ≡ r.banks a
  unfolding rank_execute rank_update
  pre_other_bank tick a m r r' p other e = ground arith

  -- A REF where the rank lets it through.
  ref_executes :
      (tick n : ℕ) (m : MemInstr) (r : Rank)
      → m.opcode ≡ ref
      → r.next_ref ≡ at n
      → n ≤ tick
      → (r' : Rank) × (rank_execute t tick m r ≡ some r') × ((a : ℕ) → r'.banks a ≡ r.banks a)
  unfolding rank_execute rank_update bank_execute bank_update
  ref_executes tick n m r p e le = (
    rank_update t tick ref (record r { banks = update r.banks m.bank (r.banks m.bank) }),
    ground arith,
    λ a. ground arith,
  )

  -- While a bank is open, a PRE to another bank takes back that REF has to wait: in a rank whose
  -- `next_tick` for REF is infinite, behind a PRE to one bank that is executed, a REF at least tRP
  -- later is executed too, and a bank `a` that is not that one is still as it was.
  pub ref-while_open :
      (tick tick' a : ℕ) (m m' : MemInstr) (r r' : Rank)
      → m.opcode ≡ pre
      → m'.opcode ≡ ref
      → r.next_ref ≡ never
      → a ≢ m.bank
      → rank_execute t tick m r ≡ some r'
      → tick + t.core.rp ≤ tick'
      → (r'' : Rank) × (rank_execute t tick' m' r' ≡ some r'') × (r''.banks a ≡ r.banks a)
  ref-while_open tick tick' a m m' r r' p p' n other e le =
      let (r'', done, same) =
        ref_executes tick' (tick + t.core.rp) m' r' p' (pre_next_ref tick m r r' p n e) le in
      (r'', done, same a ∙ pre_other_bank tick a m r r' p other e)
