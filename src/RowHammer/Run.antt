-- ===== src/RowHammer/Run.antt =====
-- rowhammer.py: the attacks, prepare_memory and run. The values that the board gives back are
-- arguments: `counts` those of `rowhammer_count` in one attack, and `read` and `read_after` what the
-- memory reads as before and behind the attacks.
use rowhammer_tester.Prelude.{
  ℕ, ◌+◌, Bool, true, false, not, Option, some, none, List, [], ◌∷◌, length, leb, ◌==◌,
  if◌then◌else◌, not_implemented_error,
}
use rowhammer_tester.OpCode.{noop, ref}
use rowhammer_tester.AddressConverter.{Converter, encode_dma}
use rowhammer_tester.Memory.{memfill}
use rowhammer_tester.Encoder.{Encoder}
use rowhammer_tester.Playbook.{Timings, Setup, generate_payload_from_row_list}
use rowhammer_tester.BitFlips.{FlipRow}
use rowhammer_tester.Session.{
  rowhammer_enabled, rowhammer_address1, rowhammer_address2, refresh, count_read, Action, ◌>>=◌,
  ◌>>◌, pure, throw, wait_on, emit, write, lift, require, write_words, Polled, execute_payload,
}
use rowhammer_tester.RowHammer.{
  Attacker, Patterns, Summary, rows, row_access, pattern_of, check_errors, errors_count,
}
use rowhammer_tester.RowHammer.Display.{display_errors}

-- What the scripts know of the board.
pub record Board : Type 0 where
  pub log2_int : ℕ → ℕ
  pub converter : Converter
  pub timings : Timings
  pub encoder : Encoder
  pub payload_base : ℕ
  pub payload_mem_size : ℕ

-- What is read in the course of one attack.
pub record Answers : Type 0 where
  pub counts : List ℕ
  pub polled : Polled

-- `while True: ... if count >= read_count: break`
unfoldable pub await_count : ℕ → List ℕ → Action (Unit {0})
await_count read_count [] = wait_on
await_count read_count (count ∷ counts) =
    let later = await_count read_count counts in
    emit (count_read ∷ []) >> (if leb read_count count then pure tt else later)

-- How a run ends: whether a bit flip was found, the errors in the rows, and the log.
pub record Report : Type 0 where
  pub bitflip_found : Bool
  pub errors_in_rows : Option (List Summary)
  pub log : Option (Option (List FlipRow))

module _ (board : Board) (a : Attacker) where
  unfoldable pub dma_addresses : List ℕ → Action (List ℕ)
  dma_addresses [] = pure []
  dma_addresses (row ∷ rows) = do
    address ←
        lift (encode_dma board.converter (record { bank = a.bank; row = row; col = a.column }))
    addresses ← dma_addresses rows
    pure (address ∷ addresses)

  -- `addresses[0]` and `addresses[1]`
  abbrev pub write_addresses : List ℕ → Action (Unit {0})
  write_addresses (first ∷ second ∷ _) = do
    write rowhammer_address1 first
    write rowhammer_address2 second
  write_addresses _ = pure tt

  unfoldable pub attack : List ℕ → ℕ → List ℕ → Action (Unit {0})
  unfolding dma_addresses await_count
  attack row_tuple read_count counts = do
    write rowhammer_enabled 0
    emit (count_read ∷ [])
    require (length row_tuple == 2)
    addresses ← dma_addresses row_tuple
    write_addresses addresses
    write rowhammer_enabled 1
    await_count read_count counts
    write rowhammer_enabled 0
    emit (count_read ∷ [])

  unfoldable pub attack_setup : List ℕ → Setup
  attack_setup row_tuple = record {
    row_sequence = row_tuple;
    timings = board.timings;
    encoder = board.encoder;
    bank = a.bank;
    rank = some 0;
    refresh_op = if not a.no_refresh then ref else noop;
  }

  unfoldable pub payload_executor_attack : ℕ → List ℕ → Polled → Action (Unit {0})
  unfolding attack_setup
  payload_executor_attack read_count row_tuple polled = do
    payload ← lift (
        generate_payload_from_row_list board.log2_int (attack_setup row_tuple) read_count
          board.payload_mem_size)
    execute_payload board.payload_base 255 payload polled

  -- The loop over the row pairs; the answers to the attack `i` are `answers i`.
  unfoldable pub attack_all : ℕ → (ℕ → Answers) → ℕ → List (List ℕ) → Action (Unit {0})
  unfolding attack payload_executor_attack
  attack_all read_count answers i [] = pure tt
  attack_all read_count answers i (row_tuple ∷ pairs) = do
    (if a.payload_executor
        then payload_executor_attack read_count row_tuple (answers i).polled
        else attack row_tuple read_count (answers i).counts)
    attack_all read_count answers (i + 1) pairs

  unfoldable pub fill_rows : Patterns → List ℕ → Action (Unit {0})
  fill_rows patterns [] = pure tt
  fill_rows patterns (row ∷ rows) = do
    access ← lift (row_access board.log2_int board.converter a row)
    pattern_word ← lift (pattern_of patterns row)
    write_words (memfill access.base_addr 255 access.words pattern_word)
    fill_rows patterns rows

  -- Errors that are found here are displayed, and the run goes on.
  unfoldable pub prepare_memory :
      (ℕ → ℕ → List ℕ) → Patterns → ℕ → (verify_initial : Bool) → Action (Unit {0})
  unfolding fill_rows
  prepare_memory read patterns read_count verify_initial = do
    fill_rows patterns (rows a)
    (if verify_initial
        then (do
          errors ← lift (check_errors board.log2_int board.converter a read patterns)
          (if errors_count errors == 0 then pure tt else (do
            _ ←
                lift
                  (display_errors board.log2_int board.converter a (some read_count) false errors)
            pure tt)))
        else pure tt)

  -- What follows the attacks.
  unfoldable pub report : (ℕ → ℕ → List ℕ) → Patterns → ℕ → Action Report
  report read_after patterns read_count = do
    errors ← lift (check_errors board.log2_int board.converter a read_after patterns)
    (if errors_count errors == 0
        then pure (record { bitflip_found = false; errors_in_rows = some []; log = none })
        else (do
          shown ← lift (
              display_errors board.log2_int board.converter a (some read_count) a.log_directory
                errors)
          pure (record { bitflip_found = true; errors_in_rows = shown.0; log = shown.1 })))

  abbrev pub set_refresh : ℕ → Action (Unit {0})
  set_refresh value = if a.no_refresh then write refresh value else pure tt

  unfoldable pub run :
      List (List ℕ)
      → (List ℕ → Patterns)
      → ℕ
      → Bool
      → (read read_after : ℕ → ℕ → List ℕ) → (ℕ → Answers)
      → Action Report
  unfolding attack_all prepare_memory report
  run row_pairs pattern_generator read_count verify_initial read read_after answers =
      if a.data_inversion then throw not_implemented_error else (do
        let patterns = pattern_generator (rows a)
        prepare_memory read patterns read_count verify_initial
        set_refresh 0
        (if a.sleeps then pure tt else attack_all read_count answers 0 row_pairs)
        set_refresh 1
        report read_after patterns read_count)
