-- ===== src/PayloadChecker/Run/Nested.antt =====
-- rowhammer_tester/payload/verify_payload.py: one count for all JMPs, where one loop stands in
-- another.
use rowhammer_tester.Prelude.{
  ℕ, zero, suc, ◌<◌, ◌^◌, ◌≡◌, ◌∙◌, ◌⊎◌, inl, inr, refl, true, Option, some, List, [], ◌∷◌,
  get_elem?, ltb, arith, Bool-cases,
}
use rowhammer_tester.PayloadChecker.{
  nop, jmp, MemInstr, Instr, nop_instr, jmp_instr, ddr3_verify_instr, verify_nop, verify_jmp,
}
use rowhammer_tester.PayloadChecker.Run.{
  State, initial, ticked, Config, unfinished, step, jump, run, run_on, check, all_positive,
}
use rowhammer_tester.PayloadChecker.Ddr3.{Ddr3Timing, fresh_rank, rank_execute}
use rowhammer_tester.PayloadChecker.Ddr3.Sound.{ddr3_fields, ddr3_check}

-- A NOP in a loop of `inner + 1` rounds, in one of `outer + 1` rounds.
abbrev pub nested : ℕ → ℕ → ℕ → List Instr
nested t inner outer = nop_instr nop t ∷ jmp_instr jmp 1 inner ∷ jmp_instr jmp 2 outer ∷ []

module _ {R : Type 0} (execute : ℕ → MemInstr → R → Option R) (t inner outer : ℕ) where
  abbrev Caught : State → Type 0
  Caught s = (s.ip ≡ 0) ⊎ ((s.ip ≡ 1) ⊎ ((s.ip ≡ 2) × (s.loop ≡ 0)))

  Caught-inner : (s : State) → s.ip ≡ 1 → Caught (jump 1 inner s)
  Caught-inner s e = elim (Bool-cases (ltb s.loop inner)) [
    | inl q ↦ inl (ground (arith, q))
    | inr q ↦ inr (inr (ground (arith, q)))
  ]

  Caught-outer : (s : State) → 0 < outer → s.ip ≡ 2 → s.loop ≡ 0 → Caught (jump 2 outer s)
  Caught-outer s pos e l = inl (ground arith)

  run_round :
      (fuel : ℕ) (x : Instr) (c : Config R)
      → get_elem? (nested t inner outer) c.state.ip ≡ some x
      → run execute (suc fuel) (nested t inner outer) c
        ≡ run_on execute (run execute fuel (nested t inner outer)) (step execute x c)
  unfolding run
  run_round fuel x c e = rw e refl

  run-nested :
      (fuel : ℕ) (c : Config R)
      → 0 < outer
      → Caught c.state
      → run execute fuel (nested t inner outer) c ≡ unfinished
  unfolding run step
  run-nested zero c pos h = refl
  run-nested (suc fuel) c pos (inl e) =
      run_round fuel (nop_instr nop t) c (rw e refl)
      ∙ run-nested fuel _ pos (inr (inl (omega (arith, e))))
  run-nested (suc fuel) c pos (inr (inl e)) =
      run_round fuel (jmp_instr jmp 1 inner) c (rw e refl)
      ∙ run-nested fuel _ pos (Caught-inner (ticked jmp c.state) e)
  run-nested (suc fuel) c pos (inr (inr (e, l))) =
      run_round fuel (jmp_instr jmp 2 outer) c (rw e refl)
      ∙ run-nested fuel _ pos (Caught-outer (ticked jmp c.state) pos e l)

-- A payload of a NOP in a loop inside a loop, with timing parameters that are positive and with a
-- timeslice and counts that `VerifyInstr` takes: its run does not end, so that `main` returns after
-- no number of rounds.
pub ddr3_check-nested :
    (d : Ddr3Timing) (t inner outer fuel : ℕ)
    → all_positive (ddr3_fields d) ≡ true
    → 0 < t
    → t < 2 ^ 29
    → 0 < inner
    → inner < 2 ^ 20
    → 0 < outer
    → outer < 2 ^ 20
    → ddr3_check d fuel (nested t inner outer) ≡ unfinished
unfolding ddr3_check check ddr3_verify_instr verify_nop verify_jmp
ddr3_check-nested d t inner outer fuel fields t0 t1 i0 i1 o0 o1 = ground (
  arith,
  run-nested (rank_execute d) t inner outer fuel (record { state = initial; rank = fresh_rank }) o0
      (inl refl),
)
