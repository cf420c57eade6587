-- ===== src/HwRowHammer.antt =====
-- rowhammer_tester/scripts/hw_rowhammer.py: class HwRowHammer, which attacks through the BIST reader.
-- An address below that of its row's first column, which an error in a bank below the attacked one
-- has, gives the word 0 here, and so does the divider of an empty row tuple, which is -1. The divisor and the mask of the data inversion are numbers.
pub mod Run
pub mod Refreshes
use rowhammer_tester.Prelude.{
  ℕ, zero, suc, ◌+◌, ◌-◌, ◌*◌, ◌/◌, bit_and, Bool, true, false, not, Option, some, none, List, [],
  ◌∷◌, ◌++◌, map, replicate, length, leb, ◌==◌, if◌then◌else◌, Result, raised, ok, index_error,
}
use rowhammer_tester.AddressConverter.{decode_bus}
use rowhammer_tester.Memory.{memwrite}
use rowhammer_tester.Playbook.{floor_div}
use rowhammer_tester.HwTest.{BusWrite, BistError, hw_memset, hw_memtest, setup_inverters}
use rowhammer_tester.HwTest as HwTest
use rowhammer_tester.Session.{
  Register, refresh, reader_skip_fifo, reader_mem_mask, reader_modulo, reader_data_div,
  reader_count, reader_start, bist_write, Action, ◌>>=◌, ◌>>◌, pure, throw, wait_on, emit, write,
  lift, require, write_words, Polled,
}
use rowhammer_tester.RowHammer.{
  Attacker, Patterns, WordError, RowErrors, main_base, row_base, errors_count,
}
use rowhammer_tester.RowHammer.Display.{display_errors}
use rowhammer_tester.RowHammer.Run.{Board, Report, dma_addresses, payload_executor_attack}

-- What the BIST modules are like on the board.
pub record Bist : Type 0 where
  pub dma_bytes : ℕ
  pub main_ram_base : ℕ
  pub main_ram_size : ℕ
  pub reader_pattern_addr : ℕ
  pub reader_pattern_data : ℕ

-- What is read in the course of one attack.
pub record Answers : Type 0 where
  pub reader_ready : ℕ
  pub ready_values : List ℕ
  pub polled : Polled

-- What is read in the course of one memory test.
pub record Tested : Type 0 where
  pub reader_ready : ℕ
  pub rounds : List HwTest.Round

-- `while True: ... if ready.read(): break`
unfoldable pub await_ready : List ℕ → Action (Unit {0})
await_ready [] = wait_on
await_ready (value ∷ values) =
    let later = await_ready values in if value == 0 then later else pure tt

abbrev pub bist_writes : List BusWrite → Action (Unit {0})
bist_writes writes = emit (map bist_write writes)

-- `row_errors[row].append(e)`
unfoldable pub add_error : ℕ → WordError → List RowErrors → List RowErrors
add_error row e [] = record { row = row; errors = e ∷ [] } ∷ []
add_error row e (r ∷ rs) =
    let rest = add_error row e rs in
    if r.row == row then record { row = row; errors = r.errors ++ e ∷ [] } ∷ rs else r ∷ rest

-- `len(row_tuple) & (len(row_tuple) - 1) != 0`
unfoldable pub bist_refuses : List ℕ → Bool
bist_refuses row_tuple = not (bit_and (length row_tuple) (length row_tuple - 1) == 0)

module _ (board : Board) (b : Bist) (a : Attacker) where
  unfoldable pub hw_attack : List ℕ → ℕ → Answers → Action (Unit {0})
  unfolding await_ready
  hw_attack row_tuple read_count answers = do
    require (leb (length row_tuple) 32)
    addresses ← dma_addresses board a row_tuple
    write reader_skip_fifo 1
    write reader_skip_fifo 0
    require (answers.reader_ready == 1)
    write reader_skip_fifo 1
    write reader_mem_mask 0
    write reader_modulo 1
    write reader_data_div (length row_tuple - 1)
    write_words (memwrite b.reader_pattern_addr 255 addresses)
    write_words (memwrite b.reader_pattern_data 255 (replicate 16 0xaaaaaaaa))
    write reader_count read_count
    write reader_start 1
    write reader_start 0
    await_ready answers.ready_values
    write reader_modulo 0

  unfoldable pub group_errors : List BistError → List RowErrors → Action (List RowErrors)
  unfolding add_error
  group_errors [] found = pure found
  group_errors (e ∷ errors) found = do
    let address = b.main_ram_base + e.offset * b.dma_bytes
    let at = decode_bus board.log2_int board.converter main_base 32 address
    base_addr ← lift (row_base board.log2_int board.converter a at.row)
    let error : WordError = record {
      index = (address - base_addr) / 4;
      word = e.received;
      expected = e.expected;
    }
    group_errors errors (add_error at.row error found)

  -- The errors of the memory test, and its writes.
  unfoldable pub memory_test : ℕ → Tested → Action (List BistError)
  memory_test pattern tested = do
    (writes, found) ←
        lift (
          hw_memtest b.dma_bytes 0 b.main_ram_size (pattern ∷ []) tested.reader_ready tested.rounds)
    bist_writes writes
    elim found [
      | none ↦ wait_on
      | some (errors, continues) ↦ (do bist_writes continues; pure errors)
    ]

  unfoldable pub hw_check_errors : ℕ → Tested → Action (List RowErrors)
  unfolding memory_test group_errors
  hw_check_errors pattern tested = do errors ← memory_test pattern tested; group_errors errors []

  -- Whether all pairs were attacked: the loop returns at a row tuple that BIST cannot attack.
  unfoldable pub hw_attack_all : ℕ → (ℕ → Answers) → ℕ → List (List ℕ) → Action Bool
  unfolding hw_attack bist_refuses
  hw_attack_all read_count answers i [] = pure true
  hw_attack_all read_count answers i (row_tuple ∷ pairs) =
      let rest = hw_attack_all read_count answers (i + 1) pairs in
      if a.payload_executor
      then (do
        count ← lift (floor_div (read_count + length row_tuple - 1) (length row_tuple))
        payload_executor_attack board a count row_tuple (answers i).polled
        rest)
      else if bist_refuses row_tuple
      then pure false
      else (do hw_attack row_tuple read_count (answers i); rest)
