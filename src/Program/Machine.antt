-- ===== src/Program/Machine.antt =====
-- Loops as the state machine executes them.
use mathlib.Core.List.{append-nil}
use mathlib.Core.Path.{subst}
use rowhammer_tester.Prelude.{
  ℕ, suc, ◌+◌, ◌*◌, ◌^◌, ◌≤◌, ◌<◌, ◌≡◌, refl, ap, ◌∙◌, true, some, arith, [], ◌++◌,
}
use rowhammer_tester.Decoder.{Geometry, decode}
use rowhammer_tester.Executor.{run, State, Input}
use rowhammer_tester.Executor.Pipeline.{At}
use rowhammer_tester.Program.{halt, arch_step, arch_run}
use rowhammer_tester.Program.Refine.{Finishes, ticks-arch_run}
use rowhammer_tester.Program.Loops.{
  Plain, Closes, prefix, block_cycles, loop_cycles, loop_sent, arch_run_loop, loop_cycles_lem,
}

module _ (addrbits : ℕ) (mem : ℕ → ℕ) (g : Geometry) (rdphase : ℕ) (inputs : ℕ → Input) where
  stops_there :
      (i : ℕ)
      → (decode g (mem i)).stop ≡ true
      → arch_step addrbits mem g rdphase (record { at = i; loops = 0 }) ≡ halt
  unfolding arch_step decode
  stops_there i h = ground arith

  run_stops :
      (i t : ℕ)
      → (decode g (mem i)).stop ≡ true
      → arch_run addrbits mem g rdphase 1 t (record { at = i; loops = 0 }) ≡ some ([], t + 1)
  unfolding arch_run
  run_stops i t h = rw (stops_there i h) refl

  -- In a payload memory of at least two words: the executor that is at the first of `n` words that
  -- are no LOOP and no STOP, with a LOOP over them and a STOP behind, executes them `count + 1`
  -- times for the LOOP's count and sends their commands in order each time. It is ready again,
  -- having given the DFI back, after the cycles of these rounds, three for each jump, one to leave
  -- the loop and one to stop.
  pub ticks-loop :
      (t j n count : ℕ) (s : State)
      → 2 ≤ 2 ^ addrbits
      → j + n + 1 < 2 ^ addrbits
      → Plain addrbits mem g rdphase j n
      → Closes addrbits mem g rdphase (j + n) n count
      → count < 2 ^ 12
      → (decode g (mem (j + n + 1))).stop ≡ true
      → At addrbits mem g rdphase run j 0 s
      → Finishes addrbits mem g rdphase inputs t
          (suc count * block_cycles addrbits mem g rdphase j n + 3 * count + 2)
          (loop_sent addrbits mem g rdphase t j n count)
          s
  ticks-loop t j n count s two inside plain closes fits stop h =
      let c : ℕ = loop_cycles addrbits mem g rdphase j n count in
      let sent = loop_sent addrbits mem g rdphase t j n count in
      let whole =
        arch_run_loop addrbits mem g rdphase count 1 t j n 0 count inside plain closes fits
          (omega arith) in
      let done = whole ∙ ap (prefix sent) (run_stops (j + n + 1) (t + c) stop) in
      let (m, in_time, finishes) =
        ticks-arch_run addrbits mem g rdphase inputs (suc n * suc count + 1) t (t + c + 1)
          (record { at = j; loops = 0 }) (sent ++ []) s two (omega arith) h done in
      subst (λ x. Finishes addrbits mem g rdphase inputs t x sent s) {x = m}
        (omega (arith, in_time, loop_cycles_lem addrbits mem g rdphase j n count))
        (subst (λ l. Finishes addrbits mem g rdphase inputs t m l s) (append-nil sent) finishes)
