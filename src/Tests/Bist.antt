-- ===== src/Tests/Bist.antt =====
-- The BIST modules on a pattern of one entry, the DMA attacker and the scratchpad.
use rowhammer_tester.Prelude.{
  ℕ, ◌+◌, ◌%◌, ◌^◌, ◌≡◌, refl, Bool, true, false, List, [], ◌∷◌, ◌++◌, length, arith,
}
use rowhammer_tester.Bist.{Pattern, Config, Widths, inverted, masked_slot}
use rowhammer_tester.Bist.Writer.{
  Writer, WriterFsm, WriterInput, compute_mem_addr, writer_run, transfers,
}
use rowhammer_tester.Bist.Writer.Settles
use rowhammer_tester.Bist.Writer.Transfers.{
  outputs_from, rounds, transfers-outputs_from, writer_run-rounds,
}
use rowhammer_tester.Bist.Reader.{
  pattern_run, words_taken, errors_taken, PatternSide, PatternInput, ErrorWord, ErrorInput,
  ErrorSide, rd_data, wr_err, takes, pattern_step,
}
use rowhammer_tester.Bist.Reader.Compare
use rowhammer_tester.Bist.Reader.Compare.{
  read_slot, expected, pattern_step-Prepared, wr_err-waits, error_step-takes, error_step-holds,
}
use rowhammer_tester.Bist.Reader.Reports.{Shows, mismatches, pending, errors_taken-mismatches}
use rowhammer_tester.RowHammerDma.{DmaInput}
use rowhammer_tester.Scratchpad.{ReadPhase, Size, reset_scratchpad, cat_data, cat_we, writes}
use rowhammer_tester.Scratchpad.Spacing.{HasData, writes-adjacent}

abbrev one_hot : ℕ → ℕ
one_hot i = 2 ^ i

abbrev pattern : Pattern
pattern = record { addr = λ i. 0; word = λ i. 0xaa }

-- Three words; the rows whose lowest bit is set are inverted.
abbrev config : Config
config = record {
  modulo = false;
  count = 3;
  mem_mask = 0xff;
  data_mask = 0;
  data_div = 0;
  divisor_mask = 1;
  selection_mask = 2;
}

abbrev widths : Widths
widths = record { pattern_bits = 2; dma_bits = 8; data_width = 8; rowbits = 4; row_shift = 1 }

abbrev started : Writer
started = record {
  fsm = compute_mem_addr;
  cmd_counter = 0;
  mem_addr = 0;
  dram_addr = 0;
  wait_counter = 0;
  fetched = 0;
  inverter = record { index = 0; is_selected = false; data_out = 0 };
  last_address = 0;
}

prepared : Settles.Prepared one_hot pattern config widths started
prepared = record {
  below = λ e. ground arith;
  entry = λ e m. ground arith;
  at_wait = λ e. ground arith;
  at_compute = λ e. ground arith;
  at_invert = λ e. ground arith;
  at_send = λ e. ground arith;
}

writer_run-rounds_example :
    ((writer_run one_hot pattern config widths
        (rounds one_hot pattern config widths (omega arith) 3)
        started).fsm
      ≡ WriterFsm.ready)
    × (transfers one_hot pattern config widths
          (rounds one_hot pattern config widths (omega arith) 3)
          started
        ≡ outputs_from one_hot pattern config widths (omega arith) 0 3)
writer_run-rounds_example =
    writer_run-rounds one_hot pattern config widths (omega arith) started refl refl prepared

abbrev busy_dma : List WriterInput
busy_dma =
    record { start = false; sink_ready = false } ∷ record { start = false; sink_ready = true } ∷ []

transfers-outputs_from_example :
    (n : ℕ) × ((writer_run one_hot pattern config widths busy_dma started).cmd_counter ≡ 0 + n)
    × (transfers one_hot pattern config widths busy_dma started
        ≡ outputs_from one_hot pattern config widths (omega arith) 0 n)
    × Settles.Prepared one_hot pattern config widths
        (writer_run one_hot pattern config widths busy_dma started)
transfers-outputs_from_example =
    transfers-outputs_from one_hot pattern config widths (omega arith) busy_dma started
      (refl, (refl, tt)) prepared

-- The reader has the expected word ready for the first word.
abbrev reading : PatternSide
reading = record {
  fsm = rd_data;
  counter_gen = 0;
  data_mem_addr = 0;
  wait_counter = 2;
  fetched = 0;
  inverter = record { index = 0; is_selected = false; data_out = 0xaa };
  error_count = 0;
  error_sink = record { offset = 0; received = 0; expected = 0 };
}

-- The addresses of the words that come back.
abbrev served : ℕ → ℕ
served k = 0

abbrev comes_back : ℕ → PatternInput
comes_back word = record {
  start = false;
  skip_fifo = false;
  fifo_valid = true;
  fifo_address = 0;
  dma_valid = true;
  dma_word = word;
  error_ready = false;
}

ready_to_compare : Compare.Prepared one_hot pattern config widths served reading
unfolding inverted read_slot masked_slot
ready_to_compare = record {
  at_first = λ e m. ground arith;
  at_wait = λ e. ground arith;
  at_invert = λ e. ground arith;
  at_rd_data = λ e. (refl, refl, refl, refl, refl);
}

serves : (word : ℕ) → Compare.Serves one_hot pattern config widths served (comes_back word) reading
serves word = (λ e. refl, λ e. refl)

-- A word that differs, a cycle in which the error FIFO is full, and one in which it takes the error.
abbrev cycles : List PatternInput
cycles = comes_back 0xab ∷ comes_back 0xab ∷ (record (comes_back 0xab) { error_ready = true }) ∷ []

shown : Shows one_hot pattern config widths served cycles reading
unfolding pattern_step
shown = (
  refl,
  refl,
  serves 0xab,
  (refl, refl, (λ e. refl, λ e. refl), (refl, refl, (λ e. refl, λ e. refl), tt)),
)

errors_taken-mismatches_example :
    let s' = pattern_run one_hot pattern config widths cycles reading in
    let words = words_taken one_hot pattern config widths cycles reading in
    let wrong = mismatches one_hot pattern config widths served 0 words in
    (errors_taken one_hot pattern config widths cycles reading
        ++ pending one_hot pattern config widths served s'
      ≡ [] ++ wrong)
    × (s'.error_count ≡ (0 + length wrong) % 2 ^ 32)
    × (s'.counter_gen ≡ (0 + length words) % 2 ^ 32)
    × Compare.Prepared one_hot pattern config widths served s'
errors_taken-mismatches_example =
    errors_taken-mismatches one_hot pattern config widths served cycles reading shown
      ready_to_compare (omega arith) (omega arith)

pattern_step-Prepared_example :
    Compare.Prepared one_hot pattern config widths served
      (pattern_step one_hot pattern config widths (comes_back 0xab) reading)
pattern_step-Prepared_example =
    pattern_step-Prepared one_hot pattern config widths served (comes_back 0xab) reading
      (serves 0xab) ready_to_compare

abbrev failing : PatternSide
failing = record reading { fsm = wr_err; error_count = 1 }

abbrev error_word : ErrorWord
error_word = record { offset = 8; received = 0xab; expected = 0xaa }

abbrev in_fifo : ErrorInput
in_fifo = record { skip_fifo = false; source_valid = true; source = error_word; continue = false }

abbrev no_error : ErrorSide
no_error = record { valid = false; error_reg = record error_word { offset = 0 } }

abbrev unread : ErrorSide
unread = record no_error { valid = true }

taken : takes in_fifo no_error ≡ true
unfolding takes
taken = refl

-- Two reads, the first of them delayed by a cycle.
abbrev attack : Bool → DmaInput
attack ready = record {
  enabled = true;
  address1 = 10;
  address2 = 20;
  count_we = false;
  sink_ready = ready;
}

abbrev size : Size
size = record { depth = 4; counter_bits = 2; data_bits = 16 }

abbrev word : ℕ → List ReadPhase
word x =
    record { rddata = x; rddata_valid = true } ∷ record { rddata = x; rddata_valid = true } ∷ []

has_data : (x : ℕ) → HasData size (word x)
unfolding cat_we
has_data x = omega arith

writes-adjacent_example :
    writes size (word 7 ∷ word 8 ∷ []) reset_scratchpad
    ≡ (0, cat_data size (word 7)) ∷ (0, cat_data size (word 8)) ∷ []
writes-adjacent_example =
    writes-adjacent size (word 7) (word 8) reset_scratchpad refl (has_data 7) (has_data 8)
