-- ===== src/HwTest.antt =====
-- rowhammer_tester/scripts/utils.py: hw_memset, hw_memtest and setup_inverters, as the writes that
-- they send to the registers and pattern memories, and what they do with the values they read. A
-- loop that polls takes the list of the values read; sleeping and progress bars are left out, as are the closing assertions of hw_memtest. `setup_inverters` is for a positive divisor.
pub mod Coverage
use rowhammer_tester.Prelude.{
  ℕ, zero, suc, ◌+◌, ◌-◌, ◌*◌, ◌/◌, ◌%◌, ◌^◌, Bool, true, false, bit_and, Option, none, some, List,
  [], ◌∷◌, ◌++◌, ◌==◌, if◌then◌else◌, replicate, map, Result, ok, raised, ◌>>=◌, ◌>>◌, assert,
  zero_division_error, assertion_error,
}

-- Which of the two BIST modules.
pub data Side : Type 0 where
  writer reader : Side

pub data Register : Type 0 where
  mem_mask data_mask count start divisor_mask selection_mask skip_fifo error_continue : Register

pub data BusWrite : Type 0 where
  to_register : Side → Register → ℕ → BusWrite
  to_pattern_data : Side → List ℕ → BusWrite
  to_pattern_addr : Side → ℕ → BusWrite

pub record BistError : Type 0 where
  pub offset : ℕ
  pub received : ℕ
  pub expected : ℕ

abbrev pub all_ones : ℕ
all_ones = 2 ^ 32 - 1

-- `assert len(patterns) == 1`, and the pattern.
unfoldable pub only_pattern : List ℕ → Result ℕ
only_pattern (p ∷ []) = ok (bit_and p all_ones)
only_pattern _ = raised assertion_error

-- `assert size % nbytes == 0`
unfoldable pub check_size : ℕ → ℕ → Result (Unit {0})
check_size size nbytes =
    if nbytes == 0 then raised zero_division_error else assert (size % nbytes == 0)

-- The writes to both pattern memories.
unfoldable pub set_pattern : ℕ → ℕ → ℕ → List BusWrite
set_pattern nbytes offset pattern =
    to_pattern_data writer (replicate (nbytes / 4) pattern)
    ∷ to_pattern_addr writer (offset / nbytes)
    ∷ to_pattern_data reader (replicate (nbytes / 4) pattern)
    ∷ to_pattern_addr reader (offset / nbytes)
    ∷ []

-- The writes from the unmasking of the address space to the start, of one side.
unfoldable pub start_side : Side → ℕ → ℕ → ℕ → ℕ → List BusWrite
unfolding set_pattern
start_side side nbytes offset size pattern =
    to_register side mem_mask all_ones ∷ set_pattern nbytes offset pattern
    ++ to_register side data_mask 0
      ∷ to_register side count (size / nbytes)
      ∷ to_register side start 1
      ∷ []

-- `while True: if ready.read(): break`: how many values are read.
unfoldable pub poll : List ℕ → Option ℕ
poll [] = none
poll (value ∷ values) =
    let later = poll values in
    if value == 0 then (elim later [ none ↦ none | some n ↦ some (suc n) ]) else some 1

-- The writes, and the number of polls, unless the values read end before the writer is ready.
unfoldable pub hw_memset : ℕ → ℕ → ℕ → List ℕ → ℕ → List ℕ → Result (List BusWrite × Option ℕ)
unfolding check_size only_pattern start_side poll
hw_memset nbytes offset size patterns writer_ready polled = do
  check_size size nbytes
  pattern ← only_pattern patterns
  assert (writer_ready == 1)
  ok (start_side writer nbytes offset size pattern, poll polled)

-- `append_errors`: each error that is ready is kept, and a continue written for it.
unfoldable pub append_errors : List BistError → List BistError → List BistError × List BusWrite
append_errors err ready = (err ++ ready, map (λ _. to_register reader error_continue 1) ready)

-- One round of the loop: whether the reader is ready, and the errors that can then be read.
pub record Round : Type 0 where
  pub reader_ready : ℕ
  pub errors_ready : List BistError

-- The errors, and the writes on the way; the errors of the round that breaks are those that
-- `append_errors` reads behind the loop.
unfoldable pub collect : List Round → List BistError → Option (List BistError × List BusWrite)
unfolding append_errors
collect [] err = none
collect (r ∷ rounds) err =
    let (err', continues) = append_errors err r.errors_ready in
    let later = collect rounds err' in
    if r.reader_ready == 0
    then (elim later [ none ↦ none | some found ↦ some (found.0, continues ++ found.1) ])
    else some (err', continues)

unfoldable pub hw_memtest :
    ℕ
    → ℕ
    → ℕ
    → List ℕ
    → ℕ
    → List Round
    → Result (List BusWrite × Option (List BistError × List BusWrite))
unfolding check_size only_pattern start_side collect
hw_memtest nbytes offset size patterns reader_ready rounds = do
  check_size size nbytes
  pattern ← only_pattern patterns
  assert (reader_ready == 1)
  ok (
    to_register reader skip_fifo 1
        ∷ to_register reader skip_fifo 0
        ∷ start_side reader nbytes offset size pattern,
    collect rounds [],
  )

unfoldable pub setup_inverters : ℕ → ℕ → Result (List BusWrite)
setup_inverters divisor mask = do
  assert (bit_and divisor (divisor - 1) == 0)
  ok (
      to_register writer divisor_mask (divisor - 1)
      ∷ to_register reader divisor_mask (divisor - 1)
      ∷ to_register writer selection_mask mask
      ∷ to_register reader selection_mask mask
      ∷ [])
