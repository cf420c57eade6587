-- ===== src/PayloadChecker/Run/Counts.antt =====
-- rowhammer_tester/payload/verify_payload.py: that what runs was verified, and what `executed` counts.
use mathlib.Core.Path.{subst}
use rowhammer_tester.Prelude.{
  ℕ, zero, suc, ◌+◌, ◌^◌, ◌<◌, ◌≡◌, ◌≢◌, refl, sym, ◌∙◌, ap, Bool, true, Option, some, List, [],
  ◌∷◌, get_elem?, All, ◌==◌, if◌then◌else◌, arith, Option-cases, inl, inr,
}
use rowhammer_tester.PayloadChecker.{
  Opcode, number, MemInstr, Instr, mem, nop_instr, jmp_instr, empty, is_mem_opcode, verify_mem,
  verify_nop, verify_jmp, ddr3_verify_instr,
}
use rowhammer_tester.PayloadChecker.Run.{
  State, initial, Config, accepted, count_up, ticked, after_mem, step, jump, run, run_on,
  check-accepted, verify_from,
}
use rowhammer_tester.PayloadChecker.Run.Follows.{Event, noted, issued}
use rowhammer_tester.PayloadChecker.Ddr3.{Ddr3Timing, fresh_rank, rank_execute}
use rowhammer_tester.PayloadChecker.Ddr3.Sound.{ddr3_fields, ddr3_check, ddr3_issued}

verified_at :
    (verify : ℕ → Instr → Bool) (start i j : ℕ) (p : List Instr) (x : Instr)
    → j ≡ start + i
    → verify_from verify start p ≡ true
    → get_elem? p i ≡ some x
    → verify j x ≡ true
verified_at verify start i j [] x at_j v e = cc
verified_at verify start zero j (y ∷ p) x at_j v e =
    subst (λ k. verify k x ≡ true) {x = start} {y = j} (omega (arith, at_j)) (ground (arith, v, e))
verified_at verify start (suc i) j (y ∷ p) x at_j v e =
    verified_at verify (start + 1) i j p x (omega (arith, at_j)) (ground (arith, v)) e

-- The events of an opcode.
abbrev pub of_opcode : Opcode → List Event → ℕ
of_opcode op [] = 0
of_opcode op (e ∷ h) = (if number op == number e.instr.opcode then 1 else 0) + of_opcode op h

module _ {R : Type 0} (execute : ℕ → MemInstr → R → Option R) (p : List Instr)
    (verify : ℕ → Instr → Bool) (verified : verify_from verify 0 p ≡ true) where
  verified_here : (i : ℕ) (x : Instr) → get_elem? p i ≡ some x → verify i x ≡ true
  verified_here i x e = verified_at verify 0 i i p x (omega arith) verified e

  noted-All :
      (P : Event → Type 0)
      (good : (i tick : ℕ) (m : MemInstr)
        → verify i (mem m) ≡ true
        → P (record { tick = tick; instr = m }))
      (x : Instr) (s : State) (h : List Event)
      → verify s.ip x ≡ true
      → All P h
      → All P (noted x s h)
  noted-All P good (mem m) s h v all = (good s.ip s.tick m v, all)
  noted-All P good (nop_instr op t) s h v all = all
  noted-All P good (jmp_instr op a b) s h v all = all
  noted-All P good empty s h v all = all

  issued-All :
      (P : Event → Type 0)
      (good : (i tick : ℕ) (m : MemInstr)
        → verify i (mem m) ≡ true
        → P (record { tick = tick; instr = m }))
      (fuel : ℕ) (c : Config R) (h : List Event)
      → All P h
      → All P (issued execute fuel p c h)
  unfolding issued
  issued-All P good zero c h all = all
  issued-All P good (suc fuel) c h all = elim (Option-cases (get_elem? p c.state.ip)) [
    | inl e ↦ rw e all
    | inr (x, e) ↦ rw e (elim (Option-cases (step execute x c)) [
      | inl q ↦ rw q all
      | inr (c', q) ↦ rw q (
          issued-All P good fuel c' (noted x c.state h)
            (noted-All P good x c.state h (verified_here c.state.ip x e) all))
    ])
  ]

  module _ (op : Opcode)
      (tidy_nop : (i t : ℕ) (o : Opcode) → verify i (nop_instr o t) ≡ true → number op ≢ number o)
      (tidy_jmp : (i a b : ℕ) (o : Opcode)
        → verify i (jmp_instr o a b) ≡ true
        → number op ≢ number o) where
    executed_of :
        {c c' : Config R} {n : ℕ}
        → some c ≡ some c'
        → c.state.executed op ≡ n
        → c'.state.executed op ≡ n
    executed_of {c} {c'} {n} e =
        subst (λ (x : Config R). x.state.executed op ≡ n) {x = c} {y = c'} (cc)

    jump_executed : (a b : ℕ) (s : State) → (jump a b s).executed ≡ s.executed
    jump_executed a b s = ground arith

    other_count : (o : Opcode) (s : State) → number op ≢ number o → count_up o s op ≡ s.executed op
    other_count o s other = ground arith

    this_count :
        (m : MemInstr) (s : State) (h : List Event)
        → s.executed op ≡ of_opcode op h
        → count_up m.opcode s op ≡ of_opcode op (record { tick = s.tick; instr = m } ∷ h)
    this_count m s h e = ground arith

    step_counts :
        (x : Instr) (c c' : Config R) (h : List Event)
        → verify c.state.ip x ≡ true
        → step execute x c ≡ some c'
        → c.state.executed op ≡ of_opcode op h
        → c'.state.executed op ≡ of_opcode op (noted x c.state h)
    unfolding step
    step_counts (mem m) c c' h v e k = elim (Option-cases (execute c.state.tick m c.rank)) [
      | inl q ↦ absurd (cc (ap (after_mem m c.state) q, e))
      | inr (r, q) ↦ executed_of (ap (after_mem m c.state) (sym q) ∙ e) (this_count m c.state h k)
    ]
    step_counts (nop_instr o t) c c' h v e k =
        executed_of e (other_count o c.state (tidy_nop c.state.ip t o v) ∙ k)
    step_counts (jmp_instr o a b) c c' h v e k = executed_of e (
        ap (λ (f : Opcode → ℕ). f op) (jump_executed a b (ticked o c.state))
        ∙ other_count o c.state (tidy_jmp c.state.ip a b o v)
        ∙ k)
    step_counts empty c c' h v e k = cc

    same_state :
        {a b : State} {n : ℕ} → accepted a ≡ accepted b → a.executed op ≡ n → b.executed op ≡ n
    same_state {a} {b} {n} e = subst (λ (x : State). x.executed op ≡ n) {x = a} {y = b} (cc)

    run-executed :
        (fuel : ℕ) (c : Config R) (h : List Event) (s : State)
        → run execute fuel p c ≡ accepted s
        → c.state.executed op ≡ of_opcode op h
        → s.executed op ≡ of_opcode op (issued execute fuel p c h)
    unfolding run issued
    run-executed zero c h s e counts = cc
    run-executed (suc fuel) c h s e counts = elim (Option-cases (get_elem? p c.state.ip)) [
      | inl q ↦ rw q (same_state (rw q at e) counts)
      | inr (x, q) ↦
          let on : run_on execute (run execute fuel p) (step execute x c) ≡ accepted s =
            rw q at e in
          rw q (elim (Option-cases (step execute x c)) [
            | inl q' ↦ absurd (cc (ap (run_on execute (run execute fuel p)) q', on))
            | inr (c', q') ↦ rw q' (
                run-executed fuel c' (noted x c.state h) s
                  (ap (run_on execute (run execute fuel p)) (sym q') ∙ on)
                  (step_counts x c c' h (verified_here c.state.ip x q) q' counts))
          ])
    ]

tidy_nop :
    (op : Opcode) (i t : ℕ) (o : Opcode)
    → is_mem_opcode op ≡ true
    → ddr3_verify_instr i (nop_instr o t) ≡ true
    → number op ≢ number o
unfolding ddr3_verify_instr verify_nop
tidy_nop op i t o m v = ground arith

tidy_jmp :
    (op : Opcode) (i a b : ℕ) (o : Opcode)
    → is_mem_opcode op ≡ true
    → ddr3_verify_instr i (jmp_instr o a b) ≡ true
    → number op ≢ number o
unfolding ddr3_verify_instr verify_jmp
tidy_jmp op i a b o m v = ground arith

abbrev pub InRange : Event → Type 0
InRange e =
    (is_mem_opcode e.instr.opcode ≡ true)
    × (number e.instr.opcode < 8)
    × (e.instr.rank ≡ 0)
    × (e.instr.bank < 8)
    × (e.instr.addr < 2 ^ 16)

good_mem :
    (i tick : ℕ) (m : MemInstr)
    → ddr3_verify_instr i (mem m) ≡ true
    → InRange (record { tick = tick; instr = m })
unfolding ddr3_verify_instr verify_mem
good_mem i tick m v = ground arith

module _ (t : Ddr3Timing) where
  -- In a DDR3 payload that verify_payload.py accepts, every command that is executed is a RD, ACT,
  -- PRE or REF whose opcode is an index of `executed`, of rank 0, with a bank that the rank has and
  -- an address of 16 bits.
  pub ddr3_check-InRange :
      (fuel : ℕ) (p : List Instr) (s : State)
      → ddr3_check t fuel p ≡ accepted s
      → All InRange (ddr3_issued t fuel p)
  unfolding ddr3_check
  ddr3_check-InRange fuel p s e =
      let (_, verified, _) =
        check-accepted (rank_execute t) fresh_rank ddr3_verify_instr (ddr3_fields t) fuel p s e in
      issued-All (rank_execute t) p ddr3_verify_instr verified InRange good_mem fuel
        (record { state = initial; rank = fresh_rank }) [] _

  -- The counts that verify_payload.py prints for a DDR3 payload that it accepts are, for RD, ACT, PRE and REF,
  -- those of the commands that were executed.
  pub ddr3_check-executed :
      (fuel : ℕ) (p : List Instr) (s : State) (op : Opcode)
      → ddr3_check t fuel p ≡ accepted s
      → is_mem_opcode op ≡ true
      → s.executed op ≡ of_opcode op (ddr3_issued t fuel p)
  unfolding ddr3_check
  ddr3_check-executed fuel p s op e is_mem =
      let (_, verified, ran) =
        check-accepted (rank_execute t) fresh_rank ddr3_verify_instr (ddr3_fields t) fuel p s e in
      run-executed (rank_execute t) p ddr3_verify_instr verified op
        (λ i t o v. tidy_nop op i t o is_mem v) (λ i a b o v. tidy_jmp op i a b o is_mem v) fuel
        (record { state = initial; rank = fresh_rank }) [] s ran refl
