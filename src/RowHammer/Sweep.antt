-- ===== src/RowHammer/Sweep.antt =====
-- When the refresh is off in the whole of main, with the class RowHammer.
use mathlib.Core.Path.{subst}
use rowhammer_tester.Prelude.{
  ℕ, ◌+◌, Bool, true, false, ◌&&◌, ◌≡◌, ◌⊎◌, sym, List, [], ◌∷◌, if◌then◌else◌,
  not_implemented_error,
}
use rowhammer_tester.Session.{refresh, Action, ◌>>◌, pure, throw, write}
use rowhammer_tester.Session.Refresh.{StartsWith, refresh_after, has_returned}
use rowhammer_tester.Session.Keeps.{
  Keeps, Keeps-bind, Keeps-pure, Keeps-throw, Keeps-lift, Keeps-memory, Keeps-quiet, Keeps-off,
  Keeps-on, Keeps-if,
}
use rowhammer_tester.RowHammer.{Attacker, Patterns, rows}
use rowhammer_tester.RowHammer.Run.{Board, Answers, attack_all, prepare_memory, report, run}
use rowhammer_tester.RowHammer.Refreshes.{
  attack_all-IsQuiet, prepare_memory-IsMemory, report-IsMemory,
}
use rowhammer_tester.RowHammer.Pairs.{
  Selection, hammer_only, all_rows, sequential, const, random, no_attack, no_operation,
  range_between,
}
use rowhammer_tester.RowHammer.Main.{
  RunReads, run_each, at_count, sweep_counts, sweep, attack_pair, run_pairs, attack_sweep,
}

run-Keeps :
    (board : Board) (a : Attacker) (pairs : List (List ℕ)) (generator : List ℕ → Patterns)
    (count : ℕ) (verify : Bool) (read read_after : ℕ → ℕ → List ℕ) (answers : ℕ → Answers)
    → a.no_refresh ≡ true
    → Keeps true true (run board a pairs generator count verify read read_after answers)
unfolding run
run-Keeps board a pairs generator count verify read read_after answers off =
    let patterns = generator (rows a) in
    let before = prepare_memory board a read patterns count verify in
    let attacks = attack_all board a count answers 0 pairs in
    let last = report board a read_after patterns count in
    let shape : run board a pairs generator count verify read read_after answers ≡ (
        if a.data_inversion then throw not_implemented_error else (do
          before
          write refresh 0
          (if a.sleeps then pure tt else attacks)
          write refresh 1
          last)) =
      λ i. if a.data_inversion then throw not_implemented_error else (do
        before
        (if off i then write refresh 0 else pure tt)
        (if a.sleeps then pure tt else attacks)
        (if off i then write refresh 1 else pure tt)
        last) in
    subst (Keeps true true) (sym shape) (
      Keeps-if a.data_inversion Keeps-throw (
        Keeps-bind (Keeps-memory (prepare_memory-IsMemory board a read patterns count verify)) (λ _.
          Keeps-bind Keeps-off (λ _.
            Keeps-bind
              (Keeps-if a.sleeps Keeps-pure
                (Keeps-quiet (attack_all-IsQuiet board a count answers 0 pairs)))
              (λ _.
                Keeps-bind Keeps-on
                  (λ _. Keeps-memory (report-IsMemory board a read_after patterns count)))))))

-- Whether main calls `run` for a selection, and not an attack by itself.
abbrev pub is_run : Selection → Bool
is_run (hammer_only rows) = false
is_run _ = true

module _ (attack_pair : ℕ → List ℕ → Action (Unit {0}))
    (run_pairs : ℕ → List (List ℕ) → Bool → Action Bool)
    (keeps : (count : ℕ) (pairs : List (List ℕ)) (found : Bool)
      → Keeps true true (run_pairs count pairs found)) where
  run_each-Keeps :
      (count : ℕ) (pairs : List (List ℕ)) (found : Bool)
      → Keeps true true (run_each attack_pair run_pairs count pairs found)
  unfolding run_each
  run_each-Keeps count [] found = Keeps-pure
  run_each-Keeps count (pair ∷ pairs) found =
      Keeps-bind (keeps count (pair ∷ []) found) (λ found'. run_each-Keeps count pairs found')

  at_count-Keeps :
      (selection : Selection) (pairs : List (List ℕ)) (count : ℕ) (found : Bool)
      → is_run selection ≡ true
      → Keeps true true (at_count attack_pair run_pairs selection pairs count found)
  unfolding at_count
  at_count-Keeps (hammer_only rows) pairs count found h = absurd cc
  at_count-Keeps (all_rows distance jump) pairs count found h = run_each-Keeps count pairs found
  at_count-Keeps no_attack pairs count found h = keeps 0 ((0 ∷ 0 ∷ []) ∷ []) found
  at_count-Keeps sequential pairs count found h = keeps count pairs found
  at_count-Keeps (const rows) pairs count found h = keeps count pairs found
  at_count-Keeps (random drawn) pairs count found h = keeps count pairs found
  at_count-Keeps no_operation pairs count found h = keeps count pairs found

  sweep_counts-Keeps :
      (exit : Bool) (selection : Selection) (pairs : List (List ℕ)) (counts : List ℕ) (found : Bool)
      → is_run selection ≡ true
      → Keeps true true (sweep_counts attack_pair run_pairs exit selection pairs counts found)
  unfolding sweep_counts
  sweep_counts-Keeps exit selection pairs [] found h = Keeps-pure
  sweep_counts-Keeps exit selection pairs (count ∷ counts) found h =
      Keeps-bind (at_count-Keeps selection pairs count found h) (λ found'.
        left_or_on found' (found' && exit)
          (sweep_counts-Keeps exit selection pairs counts found' h))
    where
      left_or_on :
          (found' leave : Bool)
          → Keeps true true (sweep_counts attack_pair run_pairs exit selection pairs counts found')
          → Keeps true true (elim leave as (λ _. Action Bool) [
            | true ↦ pure found'
            | false ↦ sweep_counts attack_pair run_pairs exit selection pairs counts found'
          ])
      left_or_on found' true k = Keeps-pure
      left_or_on found' false k = k

-- In main with the class RowHammer and refreshes disabled during attacks, whatever the pairs, the read
-- counts, `--exit-on-bit-flip` and what is read in the run of a read count and its pairs, for every
-- selection but `--hammer-only`: with the refresh on before, every call that starts an attack, in any
-- of the runs, finds the refresh off, and if all of it returns, the refresh is on again.
pub attack_sweep-refresh :
    (board : Board) (a : Attacker) (pattern : List ℕ → Patterns)
    (reads : ℕ → List (List ℕ) → RunReads) (exit : Bool) (selection : Selection)
    (pairs : List (List ℕ)) (count_start count_stop count_step : ℕ)
    → a.no_refresh ≡ true
    → is_run selection ≡ true
    → let m =
        attack_sweep board a pattern reads exit selection pairs count_start count_stop count_step in
      StartsWith false true m.events
      × ((has_returned m.ending ≡ false) ⊎ (refresh_after m.events true ≡ true))
unfolding attack_sweep sweep run_pairs
attack_sweep-refresh board a pattern reads exit selection pairs count_start count_stop count_step
      off runs =
    let keeps : (count : ℕ) (pairs : List (List ℕ)) (found : Bool)
        → Keeps true true (run_pairs board a pattern reads count pairs found) =
      λ count pairs found.
        Keeps-bind
          (run-Keeps board a pairs pattern count false (reads count pairs).read
            (reads count pairs).read_after (reads count pairs).answers off)
          (λ report. Keeps-pure) in
    let whole : Keeps true true (
        attack_sweep board a pattern reads exit selection pairs count_start count_stop count_step) =
      Keeps-bind (Keeps-lift (range_between count_start (count_stop + 1) count_step)) (λ counts.
        sweep_counts-Keeps (attack_pair board a pattern reads) (run_pairs board a pattern reads)
          keeps exit selection pairs counts false runs) in
    (whole.starts_off, whole.behind)
