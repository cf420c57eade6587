-- ===== src/RowHammer/Main.antt =====
-- rowhammer.py: main, from the pairs of rows and the read counts to the attacks. The loops are over any
-- attacker: `run_pairs` takes the `bitflip_found` from before its run and gives the one behind it.
-- `attack_sweep` is main with the class RowHammer; HwRowHammer/Run has the `hw_run_pairs` of the other
-- class. The error summary and the files are left out.
use rowhammer_tester.Prelude.{ℕ, ◌+◌, Bool, true, false, ◌&&◌, List, [], ◌∷◌, if◌then◌else◌}
use rowhammer_tester.Session.{Action, ◌>>=◌, ◌>>◌, pure, lift}
use rowhammer_tester.RowHammer.{Attacker, Patterns}
use rowhammer_tester.RowHammer.Run.{Board, Answers, attack, payload_executor_attack, run}
use rowhammer_tester.RowHammer.Pairs.{
  Selection, hammer_only, all_rows, sequential, const, random, no_attack, no_operation,
  range_between,
}

module _ (attack_pair : (read_count : ℕ) → List ℕ → Action (Unit {0}))
    (run_pairs : (read_count : ℕ) → List (List ℕ) → (found : Bool) → Action Bool) where
  -- The loop over the pairs of `--all-rows`: `bitflip_found` is an attribute, which each run may set.
  unfoldable pub run_each : ℕ → List (List ℕ) → (found : Bool) → Action Bool
  run_each count [] found = pure found
  run_each count (pair ∷ pairs) found = do
    found' ← run_pairs count (pair ∷ []) found
    run_each count pairs found'

  -- What is done with one read count.
  unfoldable pub at_count : Selection → List (List ℕ) → ℕ → (found : Bool) → Action Bool
  unfolding run_each
  at_count (hammer_only rows) pairs count found = do attack_pair count rows; pure found
  at_count (all_rows distance jump) pairs count found = run_each count pairs found
  at_count no_attack pairs count found = run_pairs 0 ((0 ∷ 0 ∷ []) ∷ []) found
  at_count sequential pairs count found = run_pairs count pairs found
  at_count (const rows) pairs count found = run_pairs count pairs found
  at_count (random drawn) pairs count found = run_pairs count pairs found
  at_count no_operation pairs count found = run_pairs count pairs found

  -- The loop over the read counts.
  unfoldable pub sweep_counts :
      (exit_on_bit_flip : Bool) → Selection → List (List ℕ) → List ℕ → (found : Bool) → Action Bool
  unfolding at_count
  sweep_counts exit selection pairs [] found = pure found
  sweep_counts exit selection pairs (count ∷ counts) found =
      at_count selection pairs count found >>= λ found'. elim (found' && exit) [
        | true ↦ pure found'
        | false ↦ sweep_counts exit selection pairs counts found'
      ]

  unfoldable pub sweep :
      (exit_on_bit_flip : Bool)
      → Selection
      → List (List ℕ)
      → (count_start count_stop count_step : ℕ) → Action Bool
  unfolding sweep_counts range_between
  sweep exit selection pairs count_start count_stop count_step = do
    counts ← lift (range_between count_start (count_stop + 1) count_step)
    sweep_counts exit selection pairs counts false

-- What is read in one run.
pub record RunReads : Type 0 where
  pub read : ℕ → ℕ → List ℕ
  pub read_after : ℕ → ℕ → List ℕ
  pub answers : ℕ → Answers

-- main with the class RowHammer; `reads` is what is read in the run of a read count and its pairs.
module _ (board : Board) (a : Attacker) (pattern : List ℕ → Patterns)
    (reads : ℕ → List (List ℕ) → RunReads) where
  unfoldable pub attack_pair : ℕ → List ℕ → Action (Unit {0})
  attack_pair count pair =
      let answers = (reads count (pair ∷ [])).answers 0 in
      if a.payload_executor
      then payload_executor_attack board a count pair answers.polled
      else attack board a pair count answers.counts

  -- A run that returns has set `bitflip_found`.
  unfoldable pub run_pairs : ℕ → List (List ℕ) → (found : Bool) → Action Bool
  run_pairs count pairs found =
      let r = reads count pairs in
      run board a pairs pattern count false r.read r.read_after r.answers >>= λ report.
      pure report.bitflip_found

  unfoldable pub attack_sweep :
      (exit_on_bit_flip : Bool)
      → Selection
      → List (List ℕ)
      → (count_start count_stop count_step : ℕ) → Action Bool
  unfolding sweep attack_pair run_pairs
  attack_sweep = sweep attack_pair run_pairs
