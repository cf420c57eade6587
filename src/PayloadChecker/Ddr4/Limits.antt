-- ===== src/PayloadChecker/Ddr4/Limits.antt =====
-- rowhammer_tester/payload/ddr4lib.py: what a Rank and its bank groups hold of the commands they have
-- executed.
use mathlib.Core.Path.{subst}
use rowhammer_tester.Prelude.{
  ℕ, ◌+◌, ◌*◌, ◌≤◌, ◌≡◌, Bool, false, some, ltb, ◌==◌, if◌then◌else◌, arith, Option-cases, inl, inr,
}
use rowhammer_tester.PayloadChecker.{Opcode, rd, act, pre, ref, MemInstr, too_early, update}
use rowhammer_tester.PayloadChecker.Bank.{Bank, bank_execute}
use rowhammer_tester.PayloadChecker.Bank.Limits.{AtLeast, Finite}
use rowhammer_tester.PayloadChecker.Ddr3.Limits.{Passed}
use rowhammer_tester.PayloadChecker.Ddr4.{
  Ddr4Timing, BankGroup, Rank, group_next, group_limit, group_execute, rank_next, rank_update,
  rank_execute, faw_violated, remember, regroup,
}

module _ (t : Ddr4Timing) where
  -- The ticks kept from a command to a later one, in the same bank group and in another.
  abbrev pub long_gap : Opcode → Opcode → ℕ
  long_gap rd rd = t.ccd_l
  long_gap act act = t.rrd_l
  long_gap _ _ = 0

  abbrev pub short_gap : Opcode → Opcode → ℕ
  short_gap rd rd = t.ccd_s
  short_gap act act = t.rrd_s
  short_gap _ _ = 0

  abbrev pub rank_gap : Opcode → Opcode → ℕ
  rank_gap pre ref = t.core.rp
  rank_gap ref act = t.core.rfc
  rank_gap ref pre = t.core.rfc
  rank_gap ref ref = t.core.rfc
  rank_gap _ _ = 0

  -- That a group remembers a command at `t0`, to the group itself or to another.
  abbrev pub GroupCovers : ℕ → Opcode → Bool → BankGroup → Type 0
  GroupCovers t0 rd own g = t0 + (if own then t.ccd_l else t.ccd_s) ≤ g.next_rd
  GroupCovers t0 act own g = t0 + (if own then t.rrd_l else t.rrd_s) ≤ g.next_act
  GroupCovers t0 _ own g = Unit

  -- That a rank does, whatever the group.
  abbrev pub RankCovers : ℕ → ℕ → Opcode → Rank → Type 0
  RankCovers now t0 pre r = AtLeast (t0 + t.core.rp) r.next_ref
  RankCovers now t0 ref r =
      Finite (t0 + t.core.rfc) r.next_act
      × Finite (t0 + t.core.rfc) r.next_pre
      × Passed now (t0 + t.core.rfc) r.next_ref
  RankCovers now t0 _ r = Unit

  pub RankCovers-later :
      (a b t0 : ℕ) (op : Opcode) (r : Rank) → a ≤ b → RankCovers a t0 op r → RankCovers b t0 op r
  RankCovers-later a b t0 op r le h = ground arith

  pub rank_update-RankCovers :
      (tick t0 : ℕ) (op c : Opcode) (r : Rank)
      → too_early tick (rank_next c r) ≡ false
      → RankCovers tick t0 op r
      → t0 ≤ tick
      → RankCovers tick t0 op (rank_update t tick c r)
  unfolding rank_update
  rank_update-RankCovers tick t0 op c r e h le = ground arith

  pub rank_update-fresh :
      (tick : ℕ) (c : Opcode) (r : Rank) → RankCovers tick tick c (rank_update t tick c r)
  unfolding rank_update
  rank_update-fresh tick c r = ground arith

  pub rank_next-gap :
      (tick t0 : ℕ) (op c : Opcode) (r : Rank)
      → too_early tick (rank_next c r) ≡ false
      → RankCovers tick t0 op r
      → t0 ≤ tick
      → t0 + rank_gap op c ≤ tick
  rank_next-gap tick t0 op c r e h le = ground arith

  -- The parts of the two `Execute` that return True.
  pub record Executed (tick : ℕ) (m : MemInstr) (r r' : Rank) : Type 0 where
    pub bank : Bank
    pub on_time : too_early tick (rank_next m.opcode r) ≡ false
    pub faw_ok : faw_violated t.core.faw tick m.opcode r ≡ false
    pub group_on_time : ltb tick (group_next m.opcode (r.groups m.bank_group)) ≡ false
    pub bank_ok :
        bank_execute t.core tick m.opcode ((r.groups m.bank_group).banks m.bank) ≡ some bank
    pub after :
        r'
        ≡ rank_update t tick m.opcode (record (remember tick m.opcode r) {
          groups = regroup t tick m (remember tick m.opcode r).groups (
              group_limit t tick m.opcode (record (r.groups m.bank_group) {
                banks = update (r.groups m.bank_group).banks m.bank bank;
              }));
        })

  group_parts :
      (tick : ℕ) (m : MemInstr) (g g' : BankGroup)
      → group_execute t tick m g ≡ some g'
      → (ltb tick (group_next m.opcode g) ≡ false)
        × ((b : Bank) × (bank_execute t.core tick m.opcode (g.banks m.bank) ≡ some b)
            × (g' ≡ group_limit t tick m.opcode (record g { banks = update g.banks m.bank b })))
  unfolding group_execute
  group_parts tick m g g' e =
      elim (Option-cases (bank_execute t.core tick m.opcode (g.banks m.bank))) [
        | inl q ↦ absurd (ground (arith, e, q))
        | inr (b, q) ↦ (ground (arith, e, q), (b, q, ground (arith, e, q)))
      ]

  pub rank_execute-Executed :
      (tick : ℕ) (m : MemInstr) (r r' : Rank)
      → rank_execute t tick m r ≡ some r'
      → Executed tick m r r'
  unfolding rank_execute
  rank_execute-Executed tick m r r' e =
      elim (Option-cases (group_execute t tick m (r.groups m.bank_group))) [
        | inl q ↦ absurd (ground (arith, e, q))
        | inr (g, q) ↦
            let (late, (b, done, g_is)) = group_parts tick m (r.groups m.bank_group) g q in
            record {
              bank = b;
              on_time = ground (arith, e);
              faw_ok = ground (arith, e, q);
              group_on_time = late;
              bank_ok = done;
              after =
                  subst
                    (λ x.
                      r'
                      ≡ rank_update t tick m.opcode (record (remember tick m.opcode r) {
                        groups = regroup t tick m (remember tick m.opcode r).groups x;
                      }))
                    g_is (ground (arith, e, q));
            }
      ]

  -- An event at `t0` in the group `ge`, told of all groups.
  abbrev pub GroupsCover : ℕ → Opcode → ℕ → (ℕ → BankGroup) → Type 0
  GroupsCover t0 op ge groups = (i : ℕ) → GroupCovers t0 op (i == ge) (groups i)

  pub regroup-GroupCovers :
      (tick t0 ge i : ℕ) (op : Opcode) (m : MemInstr) (groups : ℕ → BankGroup) (banks : ℕ → Bank)
      → t.ccd_l ≤ 2 * t.ccd_s
      → t.rrd_l ≤ 2 * t.rrd_s
      → ltb tick (group_next m.opcode (groups m.bank_group)) ≡ false
      → t0 ≤ tick
      → GroupCovers t0 op (i == ge) (groups i)
      → GroupCovers t0 op (m.bank_group == ge) (groups m.bank_group)
      → GroupCovers t0 op (i == ge) (
          regroup t tick m groups
            (group_limit t tick m.opcode (record (groups m.bank_group) { banks = banks }))
            i)
  regroup-GroupCovers tick t0 ge i rd m groups banks ccd rrd late le h hm = ground arith
  regroup-GroupCovers tick t0 ge i act m groups banks ccd rrd late le h hm = ground arith
  regroup-GroupCovers tick t0 ge i op m groups banks ccd rrd late le h hm = ground arith

  pub regroup-fresh :
      (tick i : ℕ) (m : MemInstr) (groups : ℕ → BankGroup) (banks : ℕ → Bank)
      → GroupCovers tick m.opcode (i == m.bank_group) (
          regroup t tick m groups
            (group_limit t tick m.opcode (record (groups m.bank_group) { banks = banks }))
            i)
  regroup-fresh tick i m groups banks = ground arith

  pub group_next-gap :
      (tick t0 : ℕ) (own : Bool) (op c : Opcode) (g : BankGroup)
      → ltb tick (group_next c g) ≡ false
      → t0 ≤ tick
      → GroupCovers t0 op own g
      → t0 + (if own then long_gap op c else short_gap op c) ≤ tick
  group_next-gap tick t0 own op c g late le h = ground arith
