-- ===== src/Bist/Reader.antt =====
-- rowhammer_tester/gateware/bist.py: class Reader, as its three state machines: one sends the
-- addresses, one compares the words that come back, one hands the errors to the user. litedram's
-- DMA and litex's FIFOs between them are inputs of each cycle.
pub mod Compare
pub mod Reports
use rowhammer_tester.Prelude.{
  ℕ, ◌+◌, ◌%◌, ◌^◌, Bool, true, false, not, ◌&&◌, ◌||◌, List, [], ◌∷◌, ◌++◌, bit_and, ◌==◌, leb,
  if◌then◌else◌,
}
use rowhammer_tester.Bist.{
  Pattern, Config, Widths, Inverter, inverter_step, masked_slot, dram_address, next_slot,
}

pub data AddressFsm : Type 0 where
  ready compute_mem_addr wait_for_dram_addr compute_dram_addr push_to_fifo push_to_dma : AddressFsm

pub record AddressSide : Type 0 where
  pub fsm : AddressFsm
  pub counter_addr : ℕ
  pub mem_addr : ℕ
  pub dram_addr : ℕ
  pub fetched : ℕ

pub record AddressInput : Type 0 where
  pub start : Bool
  pub fifo_ready : Bool
  pub dma_ready : Bool

-- A machine whose state names it shares with the address side.
pub data PatternFsm : Type 0 where
  ready compute_mem_addr wait_for_dram_addr invert_compute rd_data wr_err : PatternFsm

pub record ErrorWord : Type 0 where
  pub offset : ℕ
  pub received : ℕ
  pub expected : ℕ

pub record PatternSide : Type 0 where
  pub fsm : PatternFsm
  pub counter_gen : ℕ
  pub data_mem_addr : ℕ
  pub wait_counter : ℕ
  pub fetched : ℕ
  pub inverter : Inverter
  pub error_count : ℕ
  pub error_sink : ErrorWord

pub record PatternInput : Type 0 where
  pub start : Bool
  pub skip_fifo : Bool
  pub fifo_valid : Bool
  pub fifo_address : ℕ
  pub dma_valid : Bool
  pub dma_word : ℕ
  pub error_ready : Bool

abbrev is_rd_data : PatternFsm → Bool
is_rd_data rd_data = true
is_rd_data _ = false

abbrev pub is_wr_err : PatternFsm → Bool
is_wr_err wr_err = true
is_wr_err _ = false

module _ (one_hot : ℕ → ℕ) (p : Pattern) (c : Config) (w : Widths) where
  -- The port of the address memory.
  abbrev fetch_addr : AddressSide → AddressSide
  fetch_addr s = record s { fetched = s.mem_addr }

  unfoldable pub address_dispatch : AddressFsm → AddressInput → AddressSide → AddressSide
  unfolding masked_slot dram_address next_slot
  address_dispatch ready i s =
      if i.start
      then record (fetch_addr s) { fsm = compute_mem_addr; counter_addr = 0; mem_addr = 0 }
      else fetch_addr s
  address_dispatch compute_mem_addr i s = record (fetch_addr s) {
    fsm = if leb c.count s.counter_addr then ready else wait_for_dram_addr;
    mem_addr = if c.modulo then s.mem_addr else masked_slot c w s.counter_addr;
  }
  address_dispatch wait_for_dram_addr i s = record (fetch_addr s) { fsm = compute_dram_addr }
  address_dispatch compute_dram_addr i s = record (fetch_addr s) {
    fsm = push_to_fifo;
    dram_addr = dram_address c w (p.addr s.fetched) s.counter_addr;
  }
  address_dispatch push_to_fifo i s =
      if i.fifo_ready then record (fetch_addr s) { fsm = push_to_dma } else fetch_addr s
  address_dispatch push_to_dma i s =
      if i.dma_ready
      then record (fetch_addr s) {
        fsm = compute_mem_addr;
        counter_addr = (s.counter_addr + 1) % 2 ^ 32;
        mem_addr = next_slot c w s.mem_addr;
      }
      else fetch_addr s

  unfoldable pub address_step : AddressInput → AddressSide → AddressSide
  unfolding address_dispatch
  address_step i s = address_dispatch s.fsm i s

  -- The port of the data memory and the inverter, whose address is the FIFO's.
  unfoldable pub pattern_background : PatternInput → PatternSide → PatternSide
  unfolding inverter_step
  pattern_background i s = record s {
    fetched = s.data_mem_addr;
    inverter = inverter_step one_hot c w i.fifo_address (p.word s.fetched) s.inverter;
  }

  -- A word has come: RD_DATA with `dma.source.valid`.
  unfoldable pub compare_word : PatternInput → PatternSide → PatternSide
  unfolding pattern_background
  compare_word i s =
      let taken : PatternSide = record (pattern_background i s) {
        counter_gen = (s.counter_gen + 1) % 2 ^ 32;
      } in
      if not (i.dma_word == s.inverter.data_out)
      then record taken {
        error_count = (s.error_count + 1) % 2 ^ 32;
        error_sink = record {
          offset = i.fifo_address;
          received = i.dma_word;
          expected = s.inverter.data_out;
        };
        fsm = if i.skip_fifo then compute_mem_addr else wr_err;
      }
      else record taken { fsm = compute_mem_addr }

  unfoldable pub pattern_dispatch : PatternFsm → PatternInput → PatternSide → PatternSide
  unfolding pattern_background compare_word masked_slot
  pattern_dispatch ready i s =
      if i.start
      then record (pattern_background i s) {
        fsm = compute_mem_addr;
        counter_gen = 0;
        data_mem_addr = 0;
        error_count = 0;
      }
      else pattern_background i s
  pattern_dispatch compute_mem_addr i s = record (pattern_background i s) {
    fsm = if leb c.count s.counter_gen then ready else wait_for_dram_addr;
    data_mem_addr = if c.modulo then s.data_mem_addr else masked_slot c w s.counter_gen;
  }
  pattern_dispatch wait_for_dram_addr i s =
      if i.fifo_valid
      then record (pattern_background i s) { fsm = invert_compute; wait_counter = 0 }
      else pattern_background i s
  pattern_dispatch invert_compute i s = record (pattern_background i s) {
    fsm = if s.wait_counter == 2 then rd_data else invert_compute;
    wait_counter = (s.wait_counter + 1) % 2 ^ 2;
  }
  pattern_dispatch rd_data i s = if i.dma_valid then compare_word i s else pattern_background i s
  pattern_dispatch wr_err i s =
      if i.error_ready || i.skip_fifo
      then record (pattern_background i s) { fsm = compute_mem_addr }
      else pattern_background i s

  unfoldable pub pattern_step : PatternInput → PatternSide → PatternSide
  unfolding pattern_dispatch
  pattern_step i s = pattern_dispatch s.fsm i s

  -- The word that is taken from the DMA in this cycle, and the error that the FIFO takes, if any.
  unfoldable pub word_taken : PatternInput → PatternSide → List ℕ
  word_taken i s = if is_rd_data s.fsm && i.dma_valid then i.dma_word ∷ [] else []

  unfoldable pub error_taken : PatternInput → PatternSide → List ErrorWord
  error_taken i s = if is_wr_err s.fsm && i.error_ready then s.error_sink ∷ [] else []

  -- A run over the inputs of some cycles, and the words and errors that are taken in it.
  unfoldable pub pattern_run : List PatternInput → PatternSide → PatternSide
  pattern_run [] s = s
  pattern_run (i ∷ is) s = pattern_run is (pattern_step i s)

  unfoldable pub words_taken : List PatternInput → PatternSide → List ℕ
  words_taken [] s = []
  words_taken (i ∷ is) s = word_taken i s ++ words_taken is (pattern_step i s)

  unfoldable pub errors_taken : List PatternInput → PatternSide → List ErrorWord
  errors_taken [] s = []
  errors_taken (i ∷ is) s = error_taken i s ++ errors_taken is (pattern_step i s)

-- The error machine: `none` is INVALID, and an error that is ready to read is VALID.
pub record ErrorInput : Type 0 where
  pub skip_fifo : Bool
  pub source_valid : Bool
  pub source : ErrorWord
  pub continue : Bool

-- The register and whether it is valid.
pub record ErrorSide : Type 0 where
  pub valid : Bool
  pub error_reg : ErrorWord

-- `error_fifo.source.ready`
unfoldable pub takes : ErrorInput → ErrorSide → Bool
takes i s = i.source_valid && (not s.valid || i.continue)

unfoldable pub error_step : ErrorInput → ErrorSide → ErrorSide
error_step i s =
    if not s.valid
    then (if i.source_valid && not i.skip_fifo
        then record { valid = true; error_reg = i.source }
        else s)
    else if i.continue && i.source_valid
    then (if not i.skip_fifo then record s { error_reg = i.source } else record s { valid = false })
    else if i.continue
    then record s { valid = false }
    else s
