-- ===== src/HwRowHammer/Run.antt =====
-- hw_rowhammer.py: HwRowHammer.run. With no data inversion the divisor that it writes is -1, which is
-- 0 here. The values that it reads are arguments.
use rowhammer_tester.Prelude.{
  ℕ, Bool, true, false, not, Option, some, none, List, [], ◌∷◌, length, leb, ◌==◌, if◌then◌else◌,
  Result, raised, ok, index_error,
}
use rowhammer_tester.HwTest.{hw_memset, setup_inverters}
use rowhammer_tester.Session.{refresh, Action, ◌>>=◌, ◌>>◌, pure, wait_on, write, lift, require}
use rowhammer_tester.RowHammer.{Attacker, Patterns, errors_count}
use rowhammer_tester.RowHammer.Display.{display_errors}
use rowhammer_tester.RowHammer.Run.{Board, Report}
use rowhammer_tester.HwRowHammer.{
  Bist, Answers, Tested, bist_writes, hw_check_errors, hw_attack_all,
}

-- What is read in the course of a run.
pub record RunAnswers : Type 0 where
  pub writer_ready : ℕ
  pub memset_polls : List ℕ
  pub first_test : Tested
  pub attacks : ℕ → Answers
  pub last_test : Tested

-- `row_pairs[0][0]`
unfoldable pub first_row : List (List ℕ) → Result ℕ
first_row ((row ∷ _) ∷ _) = ok row
first_row _ = raised index_error

-- `list(patterns.values())[0]`
unfoldable pub first_pattern : Patterns → Result ℕ
first_pattern [] = raised index_error
first_pattern ((row, word) ∷ _) = ok word

module _ (board : Board) (b : Bist) (a : Attacker) where
  -- `hw_memset` of the whole memory.
  unfoldable pub fill_memory : ℕ → ℕ → List ℕ → Action (Unit {0})
  fill_memory pattern writer_ready polled = do
    (writes, polls) ←
        lift (hw_memset b.dma_bytes 0 b.main_ram_size (pattern ∷ []) writer_ready polled)
    bist_writes writes
    elim polls [ none ↦ wait_on | some n ↦ pure tt ]

  -- `prepared` is false where the run ends with the errors of the first test.
  unfoldable pub hw_prepare : ℕ → ℕ → Bool → (ℕ → List ℕ → Tested → Action Bool)
  unfolding fill_memory hw_check_errors
  hw_prepare pattern read_count verify_initial writer_ready polled tested = do
    fill_memory pattern writer_ready polled
    (if verify_initial
        then (do
          errors ← hw_check_errors board b a pattern tested
          (if errors_count errors == 0 then pure true else (do
            _ ←
                lift
                  (display_errors board.log2_int board.converter a (some read_count) false errors)
            pure false)))
        else pure true)

  unfoldable pub hw_report : ℕ → ℕ → Tested → Action Report
  unfolding hw_check_errors
  hw_report pattern read_count tested = do
    errors ← hw_check_errors board b a pattern tested
    (if errors_count errors == 0
        then pure (record { bitflip_found = false; errors_in_rows = some []; log = none })
        else (do
          shown ←
              lift (display_errors board.log2_int board.converter a (some read_count) true errors)
          pure (record { bitflip_found = true; errors_in_rows = shown.0; log = shown.1 })))

  abbrev pub hw_set_refresh : ℕ → Action (Unit {0})
  hw_set_refresh value = if a.no_refresh then write refresh value else pure tt

  -- What follows the preparation: `none` where the run returns early.
  unfoldable pub hw_go_on : ℕ → List (List ℕ) → ℕ → RunAnswers → Bool → Action (Option Report)
  unfolding hw_attack_all hw_report
  hw_go_on pattern row_pairs read_count answers prepared = if not prepared then pure none else (do
    hw_set_refresh 0
    attacked ←
        (if a.sleeps
          then pure true
          else hw_attack_all board b a read_count answers.attacks 0 row_pairs)
    (if not attacked then pure none else (do
      hw_set_refresh 1
      found ← hw_report pattern read_count answers.last_test
      pure (some found))))

  unfoldable pub hw_run :
      (divisor mask : ℕ)
      → List (List ℕ)
      → (List ℕ → Patterns)
      → ℕ
      → Bool
      → RunAnswers
      → Action (Option Report)
  unfolding hw_prepare hw_go_on first_row first_pattern
  hw_run divisor mask row_pairs pattern_generator read_count verify_initial answers = do
    inverters ← lift (setup_inverters divisor mask)
    bist_writes inverters
    require (leb 1 (length row_pairs))
    row ← lift (first_row row_pairs)
    pattern ← lift (first_pattern (pattern_generator (row ∷ [])))
    prepared ←
        hw_prepare pattern read_count verify_initial answers.writer_ready answers.memset_polls
          answers.first_test
    hw_go_on pattern row_pairs read_count answers prepared

  -- The run as main calls it: where it returns early, the `bitflip_found` from before it stays.
  unfoldable pub hw_run_pairs :
      (divisor mask : ℕ)
      → (List ℕ → Patterns)
      → (ℕ → List (List ℕ) → RunAnswers)
      → ℕ
      → List (List ℕ)
      → (found : Bool) → Action Bool
  unfolding hw_run
  hw_run_pairs divisor mask pattern answers count pairs found = do
    report ← hw_run divisor mask pairs pattern count true (answers count pairs)
    pure (elim report [ none ↦ found | some r ↦ r.bitflip_found ])
