-- ===== src/PayloadChecker/Ddr4/Sound.antt =====
-- rowhammer_tester/payload/verify_payload.py with ddr4lib.py: what a DDR4 payload that passes does.
use rowhammer_tester.Prelude.{
  ℕ, ◌+◌, ◌*◌, max, ◌≤◌, ◌<◌, ◌≡◌, refl, ◌∙◌, ap, ap₂, Bool, true, false, ◌&&◌, some, List, [], ◌∷◌,
  if◌then◌else◌, ◌==◌, arith,
}
use rowhammer_tester.PayloadChecker.{Opcode, MemInstr, Instr, update, ddr4_verify_instr}
use rowhammer_tester.PayloadChecker.Bank.{Bank, bank_execute}
use rowhammer_tester.PayloadChecker.Faw.{last_four, push_act-last_four, breaks_faw-FawKept}
use rowhammer_tester.PayloadChecker.Run.{
  initial, check, check-accepted, Outcome, accepted, State, all_positive,
}
use rowhammer_tester.PayloadChecker.Run.Follows.{Event, issued}
use rowhammer_tester.PayloadChecker.Legal.{add_act, FawOk, Legal}
use rowhammer_tester.PayloadChecker.Sound.{RankLaws, issued-Legal}
use rowhammer_tester.PayloadChecker.Ddr4.{
  Ddr4Timing, Rank, BankGroup, fresh_rank, rank_next, rank_update, rank_execute, group_limit,
  regroup, faw_violated, remember,
}
use rowhammer_tester.PayloadChecker.Ddr4.Limits.{
  rank_gap, long_gap, short_gap, RankCovers, GroupsCover, regroup-GroupCovers, regroup-fresh,
  group_next-gap, RankCovers-later, Executed, rank_execute-Executed, rank_update-RankCovers,
  rank_update-fresh, rank_next-gap,
}

abbrev pub same_bank : MemInstr → MemInstr → Bool
same_bank m x = x.bank_group == m.bank_group && x.bank == m.bank

module _ (t : Ddr4Timing) where
  -- What the rank keeps, and the bank groups.
  abbrev pub ddr4_gap : MemInstr → MemInstr → ℕ
  ddr4_gap e m = max (rank_gap t e.opcode m.opcode) (
      if m.bank_group == e.bank_group
      then long_gap t e.opcode m.opcode
      else short_gap t e.opcode m.opcode)

  -- A rank remembers a command, and so do its groups.
  abbrev Remembers : ℕ → ℕ → MemInstr → Rank → Type 0
  Remembers now t0 e r =
      RankCovers t now t0 e.opcode r × GroupsCover t t0 e.opcode e.bank_group r.groups

  remember-RankCovers :
      (now t0 tick : ℕ) (op : Opcode) (m : MemInstr) (r : Rank) (groups : ℕ → BankGroup)
      → RankCovers t now t0 op r
      → RankCovers t now t0 op (record (remember tick m.opcode r) { groups = groups })
  remember-RankCovers now t0 tick op m r groups h = ground arith

  -- The group that was executed on, and the rank as `rank_update` takes it.
  abbrev touched_group : ℕ → MemInstr → Rank → Bank → BankGroup
  touched_group tick m r b =
      group_limit t tick m.opcode
        (record (r.groups m.bank_group) { banks = update (r.groups m.bank_group).banks m.bank b })

  abbrev touched : ℕ → MemInstr → Rank → Bank → Rank
  touched tick m r b = record (remember tick m.opcode r) {
    groups = regroup t tick m (remember tick m.opcode r).groups (touched_group tick m r b);
  }

  touched-rank_next :
      (tick : ℕ) (m : MemInstr) (r : Rank) (b : Bank)
      → rank_next m.opcode (touched tick m r b) ≡ rank_next m.opcode r
  touched-rank_next tick m r b = ground arith

  touched-prev_acts :
      (tick : ℕ) (m : MemInstr) (r : Rank) (b : Bank) (l : List ℕ)
      → r.prev_acts ≡ last_four l
      → (touched tick m r b).prev_acts ≡ last_four (add_act m.opcode tick l)
  touched-prev_acts tick m r b l h = ground (arith, push_act-last_four l tick)

  touched-groups :
      (tick i : ℕ) (m : MemInstr) (r : Rank) (b : Bank)
      → (touched tick m r b).groups i ≡ regroup t tick m r.groups (touched_group tick m r b) i
  touched-groups tick i m r b = ground arith

  touched-banks :
      (tick : ℕ) (m x : MemInstr) (r : Rank) (b : Bank)
      → (regroup t tick m r.groups (touched_group tick m r b) x.bank_group).banks x.bank
        ≡ (if same_bank m x then b else (r.groups x.bank_group).banks x.bank)
  touched-banks tick m x r b = ground arith

  update-prev_acts :
      (tick : ℕ) (c : Opcode) (r : Rank) → (rank_update t tick c r).prev_acts ≡ r.prev_acts
  unfolding rank_update
  update-prev_acts tick c r = ground arith

  update-groups : (tick : ℕ) (c : Opcode) (r : Rank) → (rank_update t tick c r).groups ≡ r.groups
  unfolding rank_update
  update-groups tick c r = ground arith

  module _ (tick : ℕ) (m : MemInstr) (r r' : Rank) (e : rank_execute t tick m r ≡ some r') where
    faw_violated-FawOk :
        (op : Opcode) (l : List ℕ)
        → 0 < t.core.faw
        → r.prev_acts ≡ last_four l
        → faw_violated t.core.faw tick op r ≡ false
        → FawOk t.core.faw tick op l
    faw_violated-FawOk op l pos h q = ground (arith, breaks_faw-FawKept t.core.faw tick l pos)

    parts : Executed t tick m r r'
    parts = rank_execute-Executed t tick m r r' e

    groups_after :
        (i : ℕ) → r'.groups i ≡ regroup t tick m r.groups (touched_group tick m r parts.bank) i
    groups_after i =
        ap (λ (q : Rank). q.groups i) parts.after
        ∙ ap (λ (f : ℕ → BankGroup). f i)
            (update-groups tick m.opcode (touched tick m r parts.bank))
        ∙ touched-groups tick i m r parts.bank

    keeps :
        (t0 : ℕ) (x : MemInstr)
        → t.ccd_l ≤ 2 * t.ccd_s
        → t.rrd_l ≤ 2 * t.rrd_s
        → t0 ≤ tick
        → Remembers tick t0 x r
        → Remembers tick t0 x r'
    keeps t0 x ccd rrd le (h, hs) = (
      rw parts.after (
          rank_update-RankCovers t tick t0 x.opcode m.opcode (touched tick m r parts.bank)
            (rw (touched-rank_next tick m r parts.bank) parts.on_time)
            (remember-RankCovers tick t0 tick x.opcode m r _ h) le),
      λ i. rw (groups_after i) (
          regroup-GroupCovers t tick t0 x.bank_group i x.opcode m r.groups
            (update (r.groups m.bank_group).banks m.bank parts.bank) ccd rrd parts.group_on_time le
            (hs i) (hs m.bank_group)),
    )

    covers : Remembers tick tick m r'
    covers = (
      rw parts.after (rank_update-fresh t tick m.opcode _),
      λ i. rw (groups_after i) (
          regroup-fresh t tick i m r.groups
            (update (r.groups m.bank_group).banks m.bank parts.bank)),
    )

    spaced : (t0 : ℕ) (x : MemInstr) → t0 ≤ tick → Remembers tick t0 x r → t0 + ddr4_gap x m ≤ tick
    spaced t0 x le (h, hs) = omega (
      arith,
      rank_next-gap t tick t0 x.opcode m.opcode r parts.on_time h le,
      group_next-gap t tick t0 (m.bank_group == x.bank_group) x.opcode m.opcode
          (r.groups m.bank_group) parts.group_on_time le (hs m.bank_group),
    )

    on_bank :
        (b : Bank) × (bank_execute t.core tick m.opcode ((r.groups m.bank_group).banks m.bank)
          ≡ some b)
        × ((x : MemInstr)
            → (r'.groups x.bank_group).banks x.bank
              ≡ (if same_bank m x then b else (r.groups x.bank_group).banks x.bank))
    on_bank = (
      parts.bank,
      parts.bank_ok,
      λ x.
          ap (λ (g : BankGroup). g.banks x.bank) (groups_after x.bank_group)
          ∙ touched-banks tick m x r parts.bank,
    )

    acts_next :
        (l : List ℕ)
        → r.prev_acts ≡ last_four l
        → r'.prev_acts ≡ last_four (add_act m.opcode tick l)
    acts_next l h =
        ap (λ (q : Rank). q.prev_acts) parts.after
        ∙ update-prev_acts tick m.opcode (touched tick m r parts.bank)
        ∙ touched-prev_acts tick m r parts.bank l h

    faw_kept :
        (l : List ℕ) → 0 < t.core.faw → r.prev_acts ≡ last_four l → FawOk t.core.faw tick m.opcode l
    faw_kept l pos h = faw_violated-FawOk m.opcode l pos h parts.faw_ok

  same_bank-eq :
      (m x : MemInstr) → same_bank m x ≡ true → (x.bank_group ≡ m.bank_group) × (x.bank ≡ m.bank)
  same_bank-eq m x e = ground arith

  ddr4_laws :
      0 < t.core.faw
      → t.ccd_l ≤ 2 * t.ccd_s
      → t.rrd_l ≤ 2 * t.rrd_s
      → RankLaws (rank_execute t) t.core
  ddr4_laws pos ccd rrd = record {
    same = same_bank;
    gap = ddr4_gap;
    bank_of = λ r m. (r.groups m.bank_group).banks m.bank;
    acts_of = λ r. r.prev_acts;
    Covers = Remembers;
    same_self = λ m. ground arith;
    same_bank =
        λ m x r e. ap₂ (λ i j. (r.groups i).banks j) (same_bank-eq m x e).0 (same_bank-eq m x e).1;
    later = λ a b t0 e r le h. (RankCovers-later t a b t0 e.opcode r le h.0, h.1);
    keeps = λ tick t0 e m r r' done. keeps tick m r r' done t0 e ccd rrd;
    covers = covers;
    spaced = λ tick t0 e m r r' done. spaced tick m r r' done t0 e;
    on_bank = on_bank;
    acts_next = λ tick m r r' l e. acts_next tick m r r' e l;
    faw_kept = λ tick m r r' l e. faw_kept tick m r r' e l pos;
  }

  -- The fields of the timing message in `payload_ddr4.proto`.
  abbrev pub ddr4_fields : List ℕ
  ddr4_fields =
      t.core.tick_ps ∷ t.core.ras ∷ t.core.rp ∷ t.core.rfc ∷ t.core.rcd ∷ t.ccd_l ∷ t.ccd_s
      ∷ t.core.rtp ∷ t.rrd_l ∷ t.rrd_s ∷ t.core.faw ∷ []

-- `main` with `--dram ddr4`.
unfoldable pub ddr4_check : Ddr4Timing → ℕ → List Instr → Outcome
ddr4_check t fuel p = check (rank_execute t) fresh_rank ddr4_verify_instr (ddr4_fields t) fuel p

module _ (t : Ddr4Timing) where
  -- What `main` executes, the latest first.
  abbrev pub ddr4_issued : ℕ → List Instr → List Event
  ddr4_issued fuel p =
      issued (rank_execute t) fuel p (record { state = initial; rank = fresh_rank }) []

  fields-faw : all_positive (ddr4_fields t) ≡ true → 0 < t.core.faw
  fields-faw e = ground arith

  -- Where tCCD_L is at most twice tCCD_S and tRRD_L at most twice tRRD_S: in a DDR4 payload that
  -- verify_payload.py accepts, each memory command that is executed comes at least the timing
  -- parameters behind every earlier one: the long tCCD and tRRD in one bank group, the short ones
  -- across two, tRP and tRFC for the rank, tRTP, tRCD, tRAS and tRP for commands to one bank. A RD
  -- goes to a bank that an ACT has opened and no PRE has closed since, an ACT to one that is
  -- closed, and no five ACTs come within tFAW.
  pub ddr4_check-Legal :
      (fuel : ℕ) (p : List Instr) (s : State)
      → t.ccd_l ≤ 2 * t.ccd_s
      → t.rrd_l ≤ 2 * t.rrd_s
      → ddr4_check t fuel p ≡ accepted s
      → Legal same_bank t.core (ddr4_gap t) (ddr4_issued fuel p)
  unfolding ddr4_check ddr4_laws
  ddr4_check-Legal fuel p s ccd rrd e =
      let (fields, _, _) =
        check-accepted (rank_execute t) fresh_rank ddr4_verify_instr (ddr4_fields t) fuel p s e in
      issued-Legal (rank_execute t) t.core (ddr4_laws t (fields-faw fields) ccd rrd) fuel p
        (record { state = initial; rank = fresh_rank }) (λ x. refl) refl
