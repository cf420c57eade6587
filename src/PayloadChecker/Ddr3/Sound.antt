-- ===== src/PayloadChecker/Ddr3/Sound.antt =====
-- rowhammer_tester/payload/verify_payload.py with ddr3lib.py: what a DDR3 payload that passes does.
use rowhammer_tester.Prelude.{
  ℕ, ◌≤◌, ◌<◌, ◌≡◌, refl, ◌∙◌, ap, Bool, true, false, some, List, [], ◌∷◌, if◌then◌else◌, ◌==◌,
  arith,
}
use rowhammer_tester.PayloadChecker.{Opcode, MemInstr, Instr, update, ddr3_verify_instr}
use rowhammer_tester.PayloadChecker.Bank.{Bank, bank_execute}
use rowhammer_tester.PayloadChecker.Faw.{last_four, push_act-last_four, breaks_faw-FawKept}
use rowhammer_tester.PayloadChecker.Run.{
  initial, check, check-accepted, Outcome, accepted, State, all_positive,
}
use rowhammer_tester.PayloadChecker.Run.Follows.{Event, issued}
use rowhammer_tester.PayloadChecker.Legal.{add_act, FawOk, Legal}
use rowhammer_tester.PayloadChecker.Sound.{RankLaws, issued-Legal}
use rowhammer_tester.PayloadChecker.Ddr3.{
  Ddr3Timing, Rank, fresh_rank, rank_next, rank_update, rank_execute, faw_violated, remember,
}
use rowhammer_tester.PayloadChecker.Ddr3.Limits.{
  rank_gap, RankCovers, RankCovers-later, Executed, rank_execute-Executed, rank_update-RankCovers,
  rank_update-fresh, rank_next-gap,
}

abbrev pub same_bank : MemInstr → MemInstr → Bool
same_bank m x = x.bank == m.bank

module _ (t : Ddr3Timing) where
  abbrev pub ddr3_gap : MemInstr → MemInstr → ℕ
  ddr3_gap e m = rank_gap t e.opcode m.opcode

  remember-RankCovers :
      (now t0 tick : ℕ) (op : Opcode) (m : MemInstr) (r : Rank) (banks : ℕ → Bank)
      → RankCovers t now t0 op r
      → RankCovers t now t0 op (record (remember tick m.opcode r) { banks = banks })
  remember-RankCovers now t0 tick op m r banks h = ground arith

  -- The rank as `rank_update` takes it.
  abbrev touched : ℕ → MemInstr → Rank → Bank → Rank
  touched tick m r b = record (remember tick m.opcode r) { banks = update r.banks m.bank b }

  touched-rank_next :
      (tick : ℕ) (m : MemInstr) (r : Rank) (b : Bank)
      → rank_next m.opcode (touched tick m r b) ≡ rank_next m.opcode r
  touched-rank_next tick m r b = ground arith

  touched-prev_acts :
      (tick : ℕ) (m : MemInstr) (r : Rank) (b : Bank) (l : List ℕ)
      → r.prev_acts ≡ last_four l
      → (touched tick m r b).prev_acts ≡ last_four (add_act m.opcode tick l)
  touched-prev_acts tick m r b l h = ground (arith, push_act-last_four l tick)

  touched-banks :
      (tick : ℕ) (m : MemInstr) (r : Rank) (b : Bank)
      → (touched tick m r b).banks ≡ update r.banks m.bank b
  touched-banks tick m r b = ground arith

  update-prev_acts :
      (tick : ℕ) (c : Opcode) (r : Rank) → (rank_update t tick c r).prev_acts ≡ r.prev_acts
  unfolding rank_update
  update-prev_acts tick c r = ground arith

  update-banks : (tick : ℕ) (c : Opcode) (r : Rank) → (rank_update t tick c r).banks ≡ r.banks
  unfolding rank_update
  update-banks tick c r = ground arith

  module _ (tick : ℕ) (m : MemInstr) (r r' : Rank) (e : rank_execute t tick m r ≡ some r') where
    faw_violated-FawOk :
        (op : Opcode) (l : List ℕ)
        → 0 < t.core.faw
        → r.prev_acts ≡ last_four l
        → faw_violated t.core.faw tick op r ≡ false
        → FawOk t.core.faw tick op l
    faw_violated-FawOk op l pos h q = ground (arith, breaks_faw-FawKept t.core.faw tick l pos)

    parts : Executed t tick m r r'
    parts = rank_execute-Executed t tick m r r' e

    keeps :
        (t0 : ℕ) (x : MemInstr)
        → t0 ≤ tick
        → RankCovers t tick t0 x.opcode r
        → RankCovers t tick t0 x.opcode r'
    keeps t0 x le h = rw parts.after (
        rank_update-RankCovers t tick t0 x.opcode m.opcode (touched tick m r parts.bank)
          (rw (touched-rank_next tick m r parts.bank) parts.on_time)
          (remember-RankCovers tick t0 tick x.opcode m r _ h) le)

    covers : RankCovers t tick tick m.opcode r'
    covers = rw parts.after (rank_update-fresh t tick m.opcode _)

    on_bank :
        (b : Bank) × (bank_execute t.core tick m.opcode (r.banks m.bank) ≡ some b)
        × ((x : MemInstr) → r'.banks x.bank ≡ (if same_bank m x then b else r.banks x.bank))
    on_bank = (
      parts.bank,
      parts.bank_ok,
      λ x.
          ap (λ (q : Rank). q.banks x.bank) parts.after
          ∙ ap (λ (f : ℕ → Bank). f x.bank)
              (update-banks tick m.opcode (touched tick m r parts.bank)
                ∙ touched-banks tick m r parts.bank),
    )

    acts_next :
        (l : List ℕ)
        → r.prev_acts ≡ last_four l
        → r'.prev_acts ≡ last_four (add_act m.opcode tick l)
    acts_next l h =
        ap (λ (q : Rank). q.prev_acts) parts.after
        ∙ update-prev_acts tick m.opcode (touched tick m r parts.bank)
        ∙ touched-prev_acts tick m r parts.bank l h

    faw_kept :
        (l : List ℕ) → 0 < t.core.faw → r.prev_acts ≡ last_four l → FawOk t.core.faw tick m.opcode l
    faw_kept l pos h = faw_violated-FawOk m.opcode l pos h parts.faw_ok

  ddr3_laws : 0 < t.core.faw → RankLaws (rank_execute t) t.core
  ddr3_laws pos = record {
    same = same_bank;
    gap = ddr3_gap;
    bank_of = λ r m. r.banks m.bank;
    acts_of = λ r. r.prev_acts;
    Covers = λ now t0 e r. RankCovers t now t0 e.opcode r;
    same_self = λ m. ground arith;
    same_bank = λ m x r e. ap r.banks (ground (arith, e));
    later = λ a b t0 e r. RankCovers-later t a b t0 e.opcode r;
    keeps = λ tick t0 e m r r' done. keeps tick m r r' done t0 e;
    covers = covers;
    spaced = λ tick t0 e m r r' done le h.
        rank_next-gap t tick t0 e.opcode m.opcode r (parts tick m r r' done).on_time h le;
    on_bank = on_bank;
    acts_next = λ tick m r r' l e. acts_next tick m r r' e l;
    faw_kept = λ tick m r r' l e. faw_kept tick m r r' e l pos;
  }

  -- The fields of the timing message in `payload_ddr3.proto`.
  abbrev pub ddr3_fields : List ℕ
  ddr3_fields =
      t.core.tick_ps ∷ t.core.ras ∷ t.core.rp ∷ t.core.rfc ∷ t.ccd ∷ t.core.rcd ∷ t.rrd ∷ t.core.rtp
      ∷ t.core.faw ∷ []

-- `main` with `--dram ddr3`.
unfoldable pub ddr3_check : Ddr3Timing → ℕ → List Instr → Outcome
ddr3_check t fuel p = check (rank_execute t) fresh_rank ddr3_verify_instr (ddr3_fields t) fuel p

module _ (t : Ddr3Timing) where
  -- What `main` executes, the latest first.
  abbrev pub ddr3_issued : ℕ → List Instr → List Event
  ddr3_issued fuel p =
      issued (rank_execute t) fuel p (record { state = initial; rank = fresh_rank }) []

  fields-faw : all_positive (ddr3_fields t) ≡ true → 0 < t.core.faw
  fields-faw e = ground arith

  -- In a DDR3 payload that verify_payload.py accepts, each memory command that is executed comes at
  -- least the timing parameters behind every earlier one: tCCD, tRRD, tRP and tRFC for the rank, tRTP,
  -- tRCD, tRAS and tRP for commands to one bank. A RD goes to a bank that an ACT has opened and
  -- no PRE has closed since, an ACT to one that is closed, and no five ACTs come within tFAW.
  pub ddr3_check-Legal :
      (fuel : ℕ) (p : List Instr) (s : State)
      → ddr3_check t fuel p ≡ accepted s
      → Legal same_bank t.core (ddr3_gap t) (ddr3_issued fuel p)
  unfolding ddr3_check ddr3_laws
  ddr3_check-Legal fuel p s e =
      let (fields, _, _) =
        check-accepted (rank_execute t) fresh_rank ddr3_verify_instr (ddr3_fields t) fuel p s e in
      issued-Legal (rank_execute t) t.core (ddr3_laws t (fields-faw fields)) fuel p
        (record { state = initial; rank = fresh_rank }) (λ x. refl) refl
