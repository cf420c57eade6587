-- ===== src/Tests/Attacks.antt =====
-- The attacks of the scripts, and the errors that they find.
use rowhammer_tester.Prelude.{
  ℕ, ◌+◌, ◌-◌, ◌*◌, ◌^◌, ◌≤◌, ◌<◌, ◌≡◌, refl, true, false, some, List, [], ◌∷◌, length, All, ok,
  arith, ◌==◌, if◌then◌else◌, none, ltb, get_elem?, ◌⊎◌,
}
use rowhammer_tester.AddressConverter.{
  Converter, encode_location, encode_bus, shift_by, bus_shift, masked,
}
use rowhammer_tester.Memory.{memfill}
use rowhammer_tester.Memory.Bursts.{spread}
use rowhammer_tester.BitFlips.{FlipRow, Block, bitflips, dump_word}
use rowhammer_tester.BitFlips.Exact.{Tells, logged, differs, dump_word-exact}
use rowhammer_tester.Session.{◌>>=◌}
use rowhammer_tester.Session.Refresh.{StartsWith, refresh_after, has_returned}
use rowhammer_tester.RowHammer.{
  Attacker, Access, RowErrors, rows, bus_address, column_addresses, addresses_per_row, access_of,
  row_access, pattern_of, patterns_alternating_per_row,
}
use rowhammer_tester.RowHammer.LastColumn.{row_access-last_column}
use rowhammer_tester.RowHammer.Run.{Board, Answers, fill_rows, prepare_memory, attack_all, run}
use rowhammer_tester.RowHammer.Refreshes.{run-refresh}
use rowhammer_tester.RowHammer.Pairs.{all_rows, range_between, row_pairs, row_pairs-all_rows}
use rowhammer_tester.RowHammer.Main.{RunReads, attack_sweep}
use rowhammer_tester.RowHammer.Sweep.{attack_sweep-refresh}
use rowhammer_tester.HwRowHammer.{Bist, hw_attack_all}
use rowhammer_tester.HwRowHammer.Run.{RunAnswers, hw_go_on}
use rowhammer_tester.HwRowHammer.Refreshes.{all_attacked, hw_go_on-refresh}

-- Two bits differ, the lowest and bit 9.
abbrev block : Block
block = record {
  read_count = some 1000;
  row = 5;
  bank = 0;
  col = 6;
  base_addr = 0x40000000;
  index = 3;
  word = 0x201;
  expected = 0;
}

dump_word-exact_example :
    (found : List FlipRow) × (dump_word block ≡ some found)
    × ((pos : ℕ) → logged pos found ≡ differs 0x201 0 pos)
    × (length found ≡ bitflips 0x201 0)
    × All (Tells block) found
dump_word-exact_example = dump_word-exact block

-- A memory of 8 rows of 4 columns of two bytes.
abbrev converter : Converter
converter = record {
  colbits = 2;
  rowbits = 3;
  bankbits = 1;
  address_align = 1;
  dram_port_width = 32;
}

-- migen's `log2_int` at what the converter asks of it.
abbrev log2_int : ℕ → ℕ
log2_int n = if n == 4 then 2 else 0

abbrev attacker : Attacker
attacker = record {
  nrows = 2;
  column = 2;
  bank = 0;
  rows_start = 1;
  colbits = 2;
  no_refresh = true;
  payload_executor = false;
  sleeps = false;
  data_inversion = false;
  log_directory = true;
}

row_access-last_column_example :
    (access : Access) × (last : ℕ) × (row_access log2_int converter attacker 1 ≡ ok access)
    × (bus_address log2_int converter attacker 1 0 ≡ ok access.base_addr)
    × (bus_address log2_int converter attacker 1 (2 ^ 2 - 1) ≡ ok last)
    × All (λ w. w.0 + 4 ≤ last) (spread (memfill access.base_addr 255 access.words 7))
    × (last < access.base_addr + 4 * access.words + 4)
row_access-last_column_example =
    row_access-last_column log2_int converter attacker 1 7 (omega arith) (omega arith) refl

-- Row 1 has no errors, row 2 has one.
abbrev first_is_clean : RowErrors
first_is_clean = record { row = 1; errors = [] }

abbrev second_flips : RowErrors
second_flips = record { row = 2; errors = record { index = 0; word = 1; expected = 0 } ∷ [] }

abbrev board : Board
board = record {
  log2_int = log2_int;
  converter = converter;
  timings = record { tras = 5; trp = 3; trefi = 50; trfc = 20 };
  encoder = record { bankbits = 1; nranks = 1 };
  payload_base = 0x10000;
  payload_mem_size = 4096;
}

abbrev memory : ℕ → ℕ → List ℕ
memory address n = []

-- The counter reaches 1000 at the second reading.
abbrev answers : ℕ → Answers
answers i = record {
  counts = 400 ∷ 1200 ∷ [];
  polled = record { refresh_enabled = false; first_status = 1; rounds = [] };
}

prepared :
    has_returned
      (prepare_memory board attacker memory
        (patterns_alternating_per_row (rows attacker))
        1000
        false).ending
    ≡ true
unfolding prepare_memory fill_rows rows row_access addresses_per_row column_addresses access_of
    encode_bus encode_location shift_by bus_shift masked pattern_of patterns_alternating_per_row
    ◌>>=◌
prepared = refl

run-refresh_example :
    let r =
      run board attacker
        ((1 ∷ 2 ∷ []) ∷ [])
        patterns_alternating_per_row
        1000
        false
        memory
        memory
        answers in
    (refresh_after r.events true
      ≡ has_returned (attack_all board attacker 1000 answers 0 ((1 ∷ 2 ∷ []) ∷ [])).ending)
    × StartsWith false true r.events
run-refresh_example =
    run-refresh board attacker ((1 ∷ 2 ∷ []) ∷ []) patterns_alternating_per_row 1000 false memory
      memory answers true refl refl refl prepared

abbrev bist : Bist
bist = record {
  dma_bytes = 16;
  main_ram_base = 0x40000000;
  main_ram_size = 128;
  reader_pattern_addr = 0x20000;
  reader_pattern_data = 0x30000;
}

abbrev run_answers : RunAnswers
run_answers = record {
  writer_ready = 1;
  memset_polls = 1 ∷ [];
  first_test = record { reader_ready = 1; rounds = [] };
  attacks = λ i. record {
    reader_ready = 1;
    ready_values = 1 ∷ [];
    polled = record { refresh_enabled = false; first_status = 1; rounds = [] };
  };
  last_test = record { reader_ready = 1; rounds = [] };
}

-- Three rows, which BIST cannot attack.
hw_go_on-refresh_example :
    let pairs : List (List ℕ) = (1 ∷ 2 ∷ 3 ∷ []) ∷ [] in
    let r = hw_go_on board bist attacker 7 pairs 1000 run_answers true in
    (refresh_after r.events true
      ≡ all_attacked (hw_attack_all board bist attacker 1000 run_answers.attacks 0 pairs).ending)
    × StartsWith false true r.events
hw_go_on-refresh_example =
    hw_go_on-refresh board bist attacker 7 1000 ((1 ∷ 2 ∷ 3 ∷ []) ∷ []) run_answers true refl refl

-- The start row 1 with 4 rows: the pair (1, 3) alone.
pairs_selected : row_pairs 1 4 (all_rows 2 1) ≡ ok ((1 ∷ 3 ∷ []) ∷ [])
unfolding row_pairs range_between
pairs_selected = refl

row_pairs-all_rows_example :
    (pairs : List (List ℕ)) × (row_pairs 1 4 (all_rows 2 1) ≡ ok pairs)
    × ((k : ℕ)
        → let first = 1 + k * 1 in
          get_elem? pairs k ≡ (if ltb (first + 2) 4 then some (first ∷ (first + 2) ∷ []) else none))
row_pairs-all_rows_example = row_pairs-all_rows 1 4 2 1 (omega arith)

-- What each run reads, and the same two pairs with two read counts.
abbrev each_run : ℕ → List (List ℕ) → RunReads
each_run count pairs = record { read = memory; read_after = memory; answers = answers }

abbrev two_pairs : List (List ℕ)
two_pairs = (1 ∷ 2 ∷ []) ∷ (2 ∷ 3 ∷ []) ∷ []

attack_sweep-refresh_example :
    let m =
      attack_sweep board attacker patterns_alternating_per_row each_run true
        (all_rows 1 1)
        two_pairs
        1000
        2000
        1000 in
    StartsWith false true m.events
    × ((has_returned m.ending ≡ false) ⊎ (refresh_after m.events true ≡ true))
attack_sweep-refresh_example =
    attack_sweep-refresh board attacker patterns_alternating_per_row each_run true (all_rows 1 1)
      two_pairs 1000 2000 1000 refl refl
