-- ===== src/Bist/Writer.antt =====
-- rowhammer_tester/gateware/bist.py: class Writer. The inputs of a cycle are the start signal and
-- whether the DMA takes a word; the DMA itself is litedram's.
pub mod Settles
pub mod Transfers
use rowhammer_tester.Prelude.{
  ℕ, zero, suc, ◌+◌, ◌%◌, ◌^◌, Bool, true, false, Option, some, none, List, [], ◌∷◌, ◌==◌, leb,
  if◌then◌else◌,
}
use rowhammer_tester.Bist.{
  Pattern, Config, Widths, Inverter, inverter_step, masked_slot, dram_address, next_slot,
}

pub data WriterFsm : Type 0 where
  ready compute_mem_addr wait_for_dram_addr compute_dram_addr invert_compute send : WriterFsm

pub record Writer : Type 0 where
  pub fsm : WriterFsm
  pub cmd_counter : ℕ
  pub mem_addr : ℕ
  pub dram_addr : ℕ
  pub wait_counter : ℕ
  pub fetched : ℕ
  pub inverter : Inverter
  pub last_address : ℕ

pub record WriterInput : Type 0 where
  pub start : Bool
  pub sink_ready : Bool

abbrev pub with_transfer : Option (ℕ × ℕ) → List (ℕ × ℕ) → List (ℕ × ℕ)
with_transfer none rest = rest
with_transfer (some t) rest = t ∷ rest

module _ (one_hot : ℕ → ℕ) (p : Pattern) (c : Config) (w : Widths) where
  -- The registers that every state writes: the ports' addresses and the inverter.
  unfoldable pub background : Writer → Writer
  unfolding inverter_step
  background s = record s {
    fetched = s.mem_addr;
    inverter = inverter_step one_hot c w s.dram_addr (p.word s.fetched) s.inverter;
  }

  unfoldable pub writer_dispatch : WriterFsm → WriterInput → Writer → Writer
  unfolding background masked_slot dram_address next_slot
  writer_dispatch ready i s =
      if i.start
      then record (background s) { fsm = compute_mem_addr; cmd_counter = 0; mem_addr = 0 }
      else background s
  writer_dispatch compute_mem_addr i s = record (background s) {
    fsm = if leb c.count s.cmd_counter then ready else wait_for_dram_addr;
    mem_addr = if c.modulo then s.mem_addr else masked_slot c w s.cmd_counter;
  }
  writer_dispatch wait_for_dram_addr i s = record (background s) { fsm = compute_dram_addr }
  writer_dispatch compute_dram_addr i s = record (background s) {
    fsm = invert_compute;
    wait_counter = 0;
    dram_addr = dram_address c w (p.addr s.fetched) s.cmd_counter;
  }
  writer_dispatch invert_compute i s = record (background s) {
    fsm = if s.wait_counter == 2 then send else invert_compute;
    wait_counter = (s.wait_counter + 1) % 2 ^ 2;
  }
  writer_dispatch send i s =
      if i.sink_ready
      then record (background s) {
        fsm = compute_mem_addr;
        cmd_counter = (s.cmd_counter + 1) % 2 ^ 32;
        mem_addr = next_slot c w s.mem_addr;
        last_address = s.dram_addr % 2 ^ 32;
      }
      else background s

  -- One cycle.
  unfoldable pub writer_step : WriterInput → Writer → Writer
  unfolding writer_dispatch
  writer_step i s = writer_dispatch s.fsm i s

  -- The address and word that the DMA takes in this cycle, if any.
  abbrev sends : WriterFsm → Bool → ℕ → ℕ → Option (ℕ × ℕ)
  sends send true address word = some (address, word)
  sends _ _ address word = none

  unfoldable pub transfer : WriterInput → Writer → Option (ℕ × ℕ)
  transfer i s = sends s.fsm i.sink_ready s.dram_addr s.inverter.data_out

  -- A run over the inputs of some cycles, and the transfers in it.
  unfoldable pub writer_run : List WriterInput → Writer → Writer
  writer_run [] s = s
  writer_run (i ∷ is) s = writer_run is (writer_step i s)

  unfoldable pub transfers : List WriterInput → Writer → List (ℕ × ℕ)
  transfers [] s = []
  transfers (i ∷ is) s = with_transfer (transfer i s) (transfers is (writer_step i s))
