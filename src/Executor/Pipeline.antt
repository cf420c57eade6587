-- ===== src/Executor/Pipeline.antt =====
-- Single cycles of the executor, in terms of the instruction that the pipeline is at.
use native.Mathlib.Nat.{
  mod-add-mod, mod-eq_of_lt, mod-add-div', div-lt_iff_lt-mul, add-mul-mod_self_right,
}
use rowhammer_tester.Prelude.{
  ℕ, suc, ◌+◌, ◌-◌, ◌*◌, ◌/◌, ◌%◌, ◌^◌, ◌≤◌, ◌<◌, ◌≡◌, ◌≢◌, ap, ◌∙◌, true, false, none, arith,
}
use rowhammer_tester.OpCode.{value, loop}
use rowhammer_tester.Decoder.{Geometry, decode}
use rowhammer_tester.Fetcher.{Fetcher, next_addr}
use rowhammer_tester.Executor.{Fsm, run, idle, bubble, State, Input, tick, command}

module _ (addrbits : ℕ) (mem : ℕ → ℕ) (g : Geometry) (rdphase : ℕ) where
  -- The pipeline is about to execute, or waits to execute, the instruction at `i`: it is in the
  -- instruction register, and the two behind it are on their way.
  pub record At (fsm : Fsm) (i loops : ℕ) (s : State) : Type 0 where
    pub in_state : s.fsm ≡ fsm
    pub holds_dfi : s.wants_dfi ≡ true
    pub at_instruction : s.instruction ≡ mem i
    pub at_fetched : s.fetched ≡ (i + 1) % 2 ^ addrbits
    pub at_counter : s.fetcher.program_counter ≡ (i + 2) % 2 ^ addrbits
    pub at_loops : s.loop_counter ≡ loops

  -- The same in IDLE, with `k` cycles to wait after this one.
  pub record AtIdle (i loops k : ℕ) (s : State) : Type 0 where
    pub at_idle : At idle i loops s
    pub at_old : s.fetcher.program_counter_old ≡ (i + 1) % 2 ^ addrbits
    pub wait : s.idle_counter ≡ k

  pub idle-zero :
      (input : Input) (i loops : ℕ) (s : State)
      → AtIdle i loops 0 s
      → At run i loops (tick addrbits mem g rdphase input s)
  unfolding tick
  idle-zero input i loops s h = ground arith

  pub idle-suc :
      (input : Input) (i loops k : ℕ) (s : State)
      → AtIdle i loops (suc k) s
      → AtIdle i loops k (tick addrbits mem g rdphase input s)
  unfolding tick
  idle-suc input i loops k s h = ground arith

  -- A cycle of RUN moves on to the next word.
  later : (i k : ℕ) → ((i + k) % 2 ^ addrbits + 1) % 2 ^ addrbits ≡ (i + 1 + k) % 2 ^ addrbits
  later i k = mod-add-mod (i + k) (2 ^ addrbits) 1 ∙ ap (λ t. t % 2 ^ addrbits) (omega arith)

  -- Not the last word of the memory, so the address after the next is not the wrapped 1.
  pub not_last : (i : ℕ) → i + 1 < 2 ^ addrbits → (i + 2) % 2 ^ addrbits ≢ 1
  not_last i h = grind arith

  pub last : (i : ℕ) → i + 1 ≡ 2 ^ addrbits → 2 ≤ 2 ^ addrbits → (i + 2) % 2 ^ addrbits ≡ 1
  last i h two = grind arith

  pub run-plain :
      (input : Input) (i loops : ℕ) (s : State)
      → At run i loops s
      → i + 1 < 2 ^ addrbits
      → (decode g (mem i)).stop ≡ false
      → (decode g (mem i)).op_code ≢ value loop
      → (decode g (mem i)).timeslice ≤ 1
      → At run (i + 1) loops (tick addrbits mem g rdphase input s)
  unfolding tick
  run-plain input i loops s h inside go other short =
      ground (arith, later i 1, later i 2, not_last i, mod-eq_of_lt inside)

  pub run-waits :
      (input : Input) (i loops : ℕ) (s : State)
      → At run i loops s
      → i + 1 < 2 ^ addrbits
      → (decode g (mem i)).stop ≡ false
      → (decode g (mem i)).op_code ≢ value loop
      → 1 < (decode g (mem i)).timeslice
      → AtIdle
          (i + 1)
          loops
          ((decode g (mem i)).timeslice - 2)
          (tick addrbits mem g rdphase input s)
  unfolding tick
  run-waits input i loops s h inside go other short =
      ground (arith, later i 1, later i 2, not_last i, mod-eq_of_lt inside)

  -- Two cycles before the instruction at `j` is executed, and one cycle before.
  pub record AtFirstBubble (j loops : ℕ) (s : State) : Type 0 where
    pub in_bubble : s.fsm ≡ bubble
    pub holds : s.wants_dfi ≡ true
    pub counter : s.fetcher.program_counter ≡ j
    pub loops_kept : s.loop_counter ≡ loops
    pub wait_one : s.idle_counter ≡ 1

  pub record AtLastBubble (j loops : ℕ) (s : State) : Type 0 where
    pub in_last : s.fsm ≡ bubble
    pub holds_last : s.wants_dfi ≡ true
    pub last_counter : s.fetcher.program_counter ≡ (j + 1) % 2 ^ addrbits
    pub last_fetched : s.fetched ≡ j
    pub last_loops : s.loop_counter ≡ loops
    pub wait_none : s.idle_counter ≡ 0

  pub first_bubble :
      (input : Input) (j loops : ℕ) (s : State)
      → AtFirstBubble j loops s
      → AtLastBubble j loops (tick addrbits mem g rdphase input s)
  unfolding tick
  first_bubble input j loops s h = ground arith

  pub last_bubble :
      (input : Input) (j loops : ℕ) (s : State)
      → AtLastBubble j loops s
      → At run j loops (tick addrbits mem g rdphase input s)
  unfolding tick
  last_bubble input j loops s h = ground (arith, mod-add-mod (j + 1) (2 ^ addrbits) 1)

  pub bubble_silent : (s : State) → s.fsm ≡ bubble → command addrbits mem g rdphase s ≡ none
  unfolding command
  bubble_silent s h = ground arith

  pub loop_silent :
      (i loops : ℕ) (s : State)
      → At run i loops s
      → (decode g (mem i)).op_code ≡ value loop
      → command addrbits mem g rdphase s ≡ none
  unfolding command
  loop_silent i loops s h is_loop = ground arith

  -- The jump goes back from the LOOP itself by its offset.
  pub jump_target :
      (f : Fetcher) (i offset : ℕ)
      → i < 2 ^ addrbits
      → offset ≤ i
      → f.program_counter ≡ (i + 2) % 2 ^ addrbits
      → next_addr addrbits f true offset ≡ i - offset
  unfolding next_addr
  jump_target f i offset inside back at =
      let n : ℕ = 2 ^ addrbits in
      let q : ℕ = (i + 2) / n in
      let pos : 0 < n = omega arith in
      let split : (i + 2) % n + q * n ≡ i + 2 = mod-add-div' (i + 2) n in
      let few : q < 3 = (div-lt_iff_lt-mul pos).1 (omega arith) in
      let r : ℕ = 131074 - q in
      let e : r + q ≡ 131074 = omega arith in
      let shifted : r * n + q * n ≡ 131074 * n = omega (arith, ap (λ (t : ℕ). t * n) e) in
      rw at (
        ap (λ t. t % n) (omega arith)
        ∙ add-mul-mod_self_right (i - offset) r n
        ∙ mod-eq_of_lt (omega arith))

  pub run-jumps :
      (input : Input) (i loops : ℕ) (s : State)
      → At run i loops s
      → i < 2 ^ addrbits
      → (decode g (mem i)).op_code ≡ value loop
      → (decode g (mem i)).stop ≡ false
      → loops ≢ (decode g (mem i)).loop_count
      → (decode g (mem i)).loop_jump ≤ i
      → AtFirstBubble
          (i - (decode g (mem i)).loop_jump)
          ((loops + 1) % 2 ^ 12)
          (tick addrbits mem g rdphase input s)
  unfolding tick
  run-jumps input i loops s h inside is_loop go more back =
      ground (arith, jump_target s.fetcher i (decode g (mem i)).loop_jump)

  pub run-leaves :
      (input : Input) (i loops : ℕ) (s : State)
      → At run i loops s
      → i + 1 < 2 ^ addrbits
      → (decode g (mem i)).op_code ≡ value loop
      → (decode g (mem i)).stop ≡ false
      → loops ≡ (decode g (mem i)).loop_count
      → At run (i + 1) 0 (tick addrbits mem g rdphase input s)
  unfolding tick
  run-leaves input i loops s h inside is_loop go no_more =
      ground (arith, later i 1, later i 2, not_last i, mod-eq_of_lt inside)
