-- ===== src/Program/Steps.antt =====
-- Single instructions on the executor's state machine: how many cycles each takes, what it sends.
use Prim.Native.Nat.add
use native.Mathlib.Nat.{add-zero}
use rowhammer_tester.Prelude.{
  ℕ, zero, suc, ◌+◌, ◌-◌, ◌%◌, ◌^◌, ◌≤◌, ◌<◌, ◌≡◌, ◌≢◌, refl, ◌∙◌, false, Option, some, none, arith,
  List, [], ◌++◌, ◌⊎◌,
}
use rowhammer_tester.OpCode.{value, loop}
use rowhammer_tester.Decoder.{Geometry, Decoded, decode}
use rowhammer_tester.Executor.{
  ready, run, State, Input, Command, tick, ticks, command, sent, stamp, terminates,
}
use rowhammer_tester.Executor.Pipeline.{
  At, AtIdle, idle-zero, idle-suc, run-plain, run-waits, not_last, last, first_bubble, last_bubble,
  bubble_silent, loop_silent, run-jumps, run-leaves,
}
use rowhammer_tester.Program.{Arch, halt, next, arch_step, command_of, slice_cycles}

module _ (addrbits : ℕ) (mem : ℕ → ℕ) (g : Geometry) (rdphase : ℕ) (inputs : ℕ → Input) where
  abbrev pub cycle : ℕ → State → State
  cycle t s = tick addrbits mem g rdphase (inputs t) s

  abbrev pub steps : ℕ → ℕ → State → State
  steps = ticks addrbits mem g rdphase inputs

  abbrev pub trace : ℕ → ℕ → State → List (ℕ × Command)
  trace = sent addrbits mem g rdphase inputs

  pub ticks-add : (a b t : ℕ) (s : State) → steps (a + b) t s ≡ steps b (t + a) (steps a t s)
  unfolding ticks
  ticks-add zero b t s = rw (add.zero, add-zero) refl
  ticks-add (suc a) b t s =
      let shift : t + suc a ≡ t + 1 + a = omega arith in
      rw (add.suc, shift) (ticks-add a b (t + 1) (cycle t s))

  stamp-append :
      (t : ℕ) (c : Option Command) (xs ys : List (ℕ × Command))
      → stamp t c (xs ++ ys) ≡ stamp t c xs ++ ys
  stamp-append t none xs ys = refl
  stamp-append t (some c) xs ys = refl

  pub sent-add :
      (a b t : ℕ) (s : State) → trace (a + b) t s ≡ trace a t s ++ trace b (t + a) (steps a t s)
  unfolding ticks sent
  sent-add zero b t s = rw (add.zero, add-zero) refl
  sent-add (suc a) b t s =
      let shift : t + suc a ≡ t + 1 + a = omega arith in
      rw (add.suc, shift, sent-add a b (t + 1) (cycle t s))
        (stamp-append t (command addrbits mem g rdphase s) (trace a (t + 1) (cycle t s))
          (trace b (t + 1 + a) (steps a (t + 1) (cycle t s))))

  -- The wait in IDLE sends nothing.
  idle_ticks :
      (k i loops t : ℕ) (s : State)
      → AtIdle addrbits mem g rdphase i loops k s
      → At addrbits mem g rdphase run i loops (steps (suc k) t s) × (trace (suc k) t s ≡ [])
  unfolding ticks sent command
  idle_ticks zero i loops t s h =
      (idle-zero addrbits mem g rdphase (inputs t) i loops s h, ground arith)
  idle_ticks (suc k) i loops t s h =
      let (then_run, silent) =
        idle_ticks k i loops (t + 1) (cycle t s)
          (idle-suc addrbits mem g rdphase (inputs t) i loops k s h) in
      (then_run, ground (arith, silent))

  -- What one instruction does to the machine, when it does not end the execution.
  abbrev pub Does : Arch → ℕ → ℕ → Option Command → Arch → State → Type 0
  Does a t n c a' s =
      At addrbits mem g rdphase run a'.at a'.loops (steps n t s) × (trace n t s ≡ stamp t c [])

  pub plain-short :
      (a : Arch) (t : ℕ) (s : State)
      → At addrbits mem g rdphase run a.at a.loops s
      → a.at + 1 < 2 ^ addrbits
      → (decode g (mem a.at)).op_code ≢ value loop
      → (decode g (mem a.at)).stop ≡ false
      → (decode g (mem a.at)).timeslice ≤ 1
      → Does a t 1 (some (command_of rdphase (decode g (mem a.at)))) (record a { at = a.at + 1 }) s
  unfolding ticks sent command terminates
  plain-short a t s h inside other go short = (
    run-plain addrbits mem g rdphase (inputs t) a.at a.loops s h inside go other short,
    ground (arith, not_last addrbits mem g rdphase a.at),
  )

  pub plain-long :
      (a : Arch) (t k : ℕ) (s : State)
      → At addrbits mem g rdphase run a.at a.loops s
      → a.at + 1 < 2 ^ addrbits
      → (decode g (mem a.at)).op_code ≢ value loop
      → (decode g (mem a.at)).stop ≡ false
      → (decode g (mem a.at)).timeslice ≡ suc (suc k)
      → Does a t
          (suc (suc k))
          (some (command_of rdphase (decode g (mem a.at))))
          (record a { at = a.at + 1 })
          s
  unfolding ticks sent command terminates
  plain-long a t k s h inside other go long =
      let waits =
        run-waits addrbits mem g rdphase (inputs t) a.at a.loops s h inside go other
          (omega arith) in
      let waits' : AtIdle addrbits mem g rdphase (a.at + 1) a.loops k (cycle t s) = record {
        at_idle = waits.at_idle;
        at_old = waits.at_old;
        wait = waits.wait ∙ omega arith;
      } in
      let (there, silent) = idle_ticks k (a.at + 1) a.loops (t + 1) (cycle t s) waits' in
      (there, ground (arith, silent, not_last addrbits mem g rdphase a.at))

  pub jump :
      (a : Arch) (t : ℕ) (s : State)
      → At addrbits mem g rdphase run a.at a.loops s
      → a.at < 2 ^ addrbits
      → (decode g (mem a.at)).op_code ≡ value loop
      → (decode g (mem a.at)).stop ≡ false
      → a.loops ≢ (decode g (mem a.at)).loop_count
      → (decode g (mem a.at)).loop_jump ≤ a.at
      → Does a t 3 none
          (record { at = a.at - (decode g (mem a.at)).loop_jump; loops = (a.loops + 1) % 2 ^ 12 })
          s
  unfolding ticks sent command terminates
  jump a t s h inside is_loop go more back =
      let first =
        run-jumps addrbits mem g rdphase (inputs t) a.at a.loops s h inside is_loop go more back in
      let second = first_bubble addrbits mem g rdphase (inputs (t + 1)) _ _ (cycle t s) first in
      (
        last_bubble addrbits mem g rdphase (inputs (t + 1 + 1)) _ _ _ second,
        rw
            (
              loop_silent addrbits mem g rdphase a.at a.loops s h is_loop,
              bubble_silent addrbits mem g rdphase (cycle t s) first.in_bubble,
              bubble_silent addrbits mem g rdphase (cycle (t + 1) (cycle t s)) second.in_last,
            )
            refl,
      )

  pub leave :
      (a : Arch) (t : ℕ) (s : State)
      → At addrbits mem g rdphase run a.at a.loops s
      → a.at + 1 < 2 ^ addrbits
      → (decode g (mem a.at)).op_code ≡ value loop
      → (decode g (mem a.at)).stop ≡ false
      → a.loops ≡ (decode g (mem a.at)).loop_count
      → Does a t 1 none (record { at = a.at + 1; loops = 0 }) s
  unfolding ticks sent
  leave a t s h inside is_loop go no_more = (
    run-leaves addrbits mem g rdphase (inputs t) a.at a.loops s h inside is_loop go no_more,
    rw (loop_silent addrbits mem g rdphase a.at a.loops s h is_loop) refl,
  )

  -- The execution ends: the executor is ready again and gives the DFI back, and sends nothing.
  abbrev pub Ends : ℕ → State → Type 0
  Ends t s = ((steps 1 t s).fsm ≡ ready) × ((steps 1 t s).wants_dfi ≡ false) × (trace 1 t s ≡ [])

  pub ends :
      (a : Arch) (t : ℕ) (s : State)
      → At addrbits mem g rdphase run a.at a.loops s
      → a.at < 2 ^ addrbits
      → 2 ≤ 2 ^ addrbits
      → arch_step addrbits mem g rdphase a ≡ halt
      → Ends t s
  unfolding ticks sent command tick arch_step
  ends a t s h inside two halts = (
    ground (arith, last addrbits mem g rdphase a.at),
    ground (arith, last addrbits mem g rdphase a.at),
    ground (arith, last addrbits mem g rdphase a.at),
  )

  pub loop_goes : (w : ℕ) → (decode g w).op_code ≡ value loop → (decode g w).stop ≡ false
  unfolding decode
  loop_goes w h = ground arith

  abbrev pub decoded : Arch → Decoded
  decoded a = decode g (mem a.at)

  abbrev pub step_to : Arch → Arch
  step_to a = record a { at = a.at + 1 }

  abbrev pub leave_to : Arch → Arch
  leave_to a = record { at = a.at + 1; loops = 0 }

  abbrev pub jump_to : Arch → Arch
  jump_to a = record { at = a.at - (decoded a).loop_jump; loops = (a.loops + 1) % 2 ^ 12 }

  -- The three ways in which an instruction leads to another.
  pub next_cases :
      (a a' : Arch) (n : ℕ) (c : Option Command)
      → arch_step addrbits mem g rdphase a ≡ next a' n c
      → (((decoded a).op_code ≡ value loop)
          × (a.loops ≡ (decoded a).loop_count)
          × (a.at + 1 ≢ 2 ^ addrbits)
          × (leave_to a ≡ a')
          × (1 ≡ n)
          × (none ≡ c))
        ⊎ (((decoded a).op_code ≡ value loop)
            × (a.loops ≢ (decoded a).loop_count)
            × ((decoded a).loop_jump ≤ a.at)
            × (jump_to a ≡ a')
            × (3 ≡ n)
            × (none ≡ c))
        ⊎ (((decoded a).op_code ≢ value loop)
            × (a.at + 1 ≢ 2 ^ addrbits)
            × ((decoded a).stop ≡ false)
            × (step_to a ≡ a')
            × (slice_cycles (decoded a) ≡ n)
            × (some (command_of rdphase (decoded a)) ≡ c))
  unfolding arch_step
  next_cases a a' n c h = ground arith
