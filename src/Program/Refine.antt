-- ===== src/Program/Refine.antt =====
-- The executor's state machine implements the instruction set, cycle by cycle.
use mathlib.Core.Path.{subst, subst₃}
use rowhammer_tester.Prelude.{
  ℕ, zero, suc, ◌+◌, ◌^◌, ◌≤◌, ◌<◌, ◌≡◌, ◌≢◌, refl, false, Option, some, none, arith, List, [],
  ◌++◌, max, inl, inr,
}
use rowhammer_tester.OpCode.{value, loop}
use rowhammer_tester.Decoder.{Geometry, decode}
use rowhammer_tester.Executor.{ready, run, State, Input, Command, stamp}
use rowhammer_tester.Executor.Pipeline.{At}
use rowhammer_tester.Program.{
  Arch, halt, next, wild, arch_step, arch_run, after, resume, slice_cycles, command_of,
}
use rowhammer_tester.Program.Steps.{
  steps, trace, Does, ticks-add, sent-add, plain-short, plain-long, jump, leave, ends, loop_goes,
  next_cases,
}

after-eq_some :
    (t : ℕ) (c : Option Command) (o : Option (List (ℕ × Command) × ℕ)) {cs : List (ℕ × Command)}
    {end : ℕ}
    → after t c o ≡ some (cs, end)
    → (rest : List (ℕ × Command)) × (o ≡ some (rest, end)) × (stamp t c rest ≡ cs)
after-eq_some t c none h = cc
after-eq_some t c (some (rest, e)) h = (rest, ground arith, ground arith)

module _ (addrbits : ℕ) (mem : ℕ → ℕ) (g : Geometry) (rdphase : ℕ) (inputs : ℕ → Input) where
  abbrev Steps : Arch → ℕ → ℕ → Option Command → Arch → State → Type 0
  Steps a t n c a' s = Does addrbits mem g rdphase inputs a t n c a' s × (a'.at < 2 ^ addrbits)

  plain :
      (a : Arch) (t : ℕ) (s : State)
      → At addrbits mem g rdphase run a.at a.loops s
      → a.at + 1 < 2 ^ addrbits
      → (decode g (mem a.at)).op_code ≢ value loop
      → (decode g (mem a.at)).stop ≡ false
      → Does addrbits mem g rdphase inputs a t
          (slice_cycles (decode g (mem a.at)))
          (some (command_of rdphase (decode g (mem a.at))))
          (record a { at = a.at + 1 })
          s
  plain a t s h inside other go = split (decode g (mem a.at)).timeslice refl
    where
      split :
          (k : ℕ)
          → (decode g (mem a.at)).timeslice ≡ k
          → Does addrbits mem g rdphase inputs a t
              (max 1 (decode g (mem a.at)).timeslice)
              (some (command_of rdphase (decode g (mem a.at))))
              (record a { at = a.at + 1 })
              s
      split zero e =
          let m : max 1 (decode g (mem a.at)).timeslice ≡ 1 = omega arith in
          rw m (plain-short addrbits mem g rdphase inputs a t s h inside other go (omega arith))
      split (suc zero) e =
          let m : max 1 (decode g (mem a.at)).timeslice ≡ 1 = omega arith in
          rw m (plain-short addrbits mem g rdphase inputs a t s h inside other go (omega arith))
      split (suc (suc k)) e =
          let m : max 1 (decode g (mem a.at)).timeslice ≡ suc (suc k) = omega arith in
          rw m (plain-long addrbits mem g rdphase inputs a t k s h inside other go e)

  -- From the state that is at an instruction, the cycles that the instruction takes lead to the
  -- state that is at the next one, and send its command in the first of them.
  step-Does :
      (a a' : Arch) (t n : ℕ) (c : Option Command) (s : State)
      → At addrbits mem g rdphase run a.at a.loops s
      → a.at < 2 ^ addrbits
      → arch_step addrbits mem g rdphase a ≡ next a' n c
      → Steps a t n c a' s
  step-Does a a' t n c s h inside e = elim (next_cases addrbits mem g rdphase inputs a a' n c e) [
    | inl (is_loop, done, not_end, p, q, r) ↦
        let go = loop_goes addrbits mem g rdphase inputs (mem a.at) is_loop in
        subst₃ (λ x k b. Steps a t k b x s) p q r
          (leave addrbits mem g rdphase inputs a t s h (omega arith) is_loop go done, omega arith)
    | inr (inl (is_loop, more, back, p, q, r)) ↦
        let go = loop_goes addrbits mem g rdphase inputs (mem a.at) is_loop in
        subst₃ (λ x k b. Steps a t k b x s) p q r
          (jump addrbits mem g rdphase inputs a t s h inside is_loop go more back, omega arith)
    | inr (inr (other, not_end, go, p, q, r)) ↦
        subst₃ (λ x k b. Steps a t k b x s) p q r
          (plain a t s h (omega arith) other go, omega arith)
  ]

  -- The machine ends an execution in `n` cycles, having sent `cs`.
  abbrev pub Finishes : ℕ → ℕ → List (ℕ × Command) → State → Type 0
  Finishes t n cs s =
      ((steps addrbits mem g rdphase inputs n t s).fsm ≡ ready)
      × ((steps addrbits mem g rdphase inputs n t s).wants_dfi ≡ false)
      × (trace addrbits mem g rdphase inputs n t s ≡ cs)

  Finishes-after :
      (t n m : ℕ) (c : Option Command) (cs : List (ℕ × Command)) (s : State)
      → trace addrbits mem g rdphase inputs n t s ≡ stamp t c []
      → Finishes (t + n) m cs (steps addrbits mem g rdphase inputs n t s)
      → Finishes t (n + m) (stamp t c cs) s
  Finishes-after t n m c cs s first (is_ready, gone, rest) =
      rw
        (
          ticks-add addrbits mem g rdphase inputs n m t s,
          sent-add addrbits mem g rdphase inputs n m t s,
        )
        (is_ready, gone, rw (first, rest) (stamp_front c))
    where
      stamp_front : (c : Option Command) → stamp t c [] ++ cs ≡ stamp t c cs
      stamp_front none = refl
      stamp_front (some c) = refl

  -- In a payload memory of at least two words: whatever execution the instruction set gives for a
  -- program, the machine that is at its first instruction carries out. It sends the same commands
  -- in the same cycles, and it is ready again, having given the DFI back, in the same cycle,
  -- whatever its inputs are meanwhile.
  pub ticks-arch_run :
      (fuel t end : ℕ) (a : Arch) (cs : List (ℕ × Command)) (s : State)
      → 2 ≤ 2 ^ addrbits
      → a.at < 2 ^ addrbits
      → At addrbits mem g rdphase run a.at a.loops s
      → arch_run addrbits mem g rdphase fuel t a ≡ some (cs, end)
      → (n : ℕ) × (t + n ≡ end) × Finishes t n cs s
  unfolding arch_run
  ticks-arch_run zero t end a cs s two inside h e = cc
  ticks-arch_run (suc fuel) t end a cs s two inside h e =
      (elim (arch_step addrbits mem g rdphase a)
          as (λ x.
            arch_step addrbits mem g rdphase a ≡ x
            → resume (arch_run addrbits mem g rdphase fuel) t x ≡ some (cs, end)
            → (n : ℕ) × (t + n ≡ end) × Finishes t n cs s) [
              | halt ↦ λ p q. (
                1,
                ground arith,
                subst (λ l. Finishes t 1 l s) {x = []} (ground arith)
                    (ends addrbits mem g rdphase inputs a t s h inside two p),
              )
              | wild ↦ λ p q. cc
              | next a' n c ↦ λ p q.
                  let (there, inside') = step-Does a a' t n c s h inside p in
                  let (rest, run_rest, all) =
                    after-eq_some t c (arch_run addrbits mem g rdphase fuel (t + n) a') q in
                  let (m, in_time, finishes) =
                    ticks-arch_run fuel (t + n) end a' rest
                      (steps addrbits mem g rdphase inputs n t s) two inside' there.0 run_rest in
                  (
                    n + m,
                    omega arith,
                    subst (λ l. Finishes t (n + m) l s) all
                        (Finishes-after t n m c rest s there.1 finishes),
                  )
            ])
        refl e
