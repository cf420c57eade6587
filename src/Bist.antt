-- ===== src/Bist.antt =====
-- rowhammer_tester/gateware/bist.py: the parts that its writer and reader share, that is classes
-- PatternMemory, AddressSelector, RowDataInverter and BISTModule. A pattern memory is a function
-- from its address; its ports are synchronous. `one_hot` is migen's one-hot decoder.
pub mod Writer
pub mod Reader
use rowhammer_tester.Prelude.{
  ℕ, ◌+◌, ◌-◌, ◌/◌, ◌%◌, ◌^◌, Bool, true, false, not, ◌&&◌, bit_and, ◌==◌, if◌then◌else◌,
}

pub record Pattern : Type 0 where
  pub addr : ℕ → ℕ
  pub word : ℕ → ℕ

-- The registers that the CSRs set, which stay the same during an operation.
pub record Config : Type 0 where
  pub modulo : Bool
  pub count : ℕ
  pub mem_mask : ℕ
  pub data_mask : ℕ
  pub data_div : ℕ
  pub divisor_mask : ℕ
  pub selection_mask : ℕ

-- Widths of the pattern memory's address, of the DMA's address and data, and the row bits.
pub record Widths : Type 0 where
  pub pattern_bits : ℕ
  pub dma_bits : ℕ
  pub data_width : ℕ
  pub rowbits : ℕ
  pub row_shift : ℕ

-- The registers of a RowDataInverter with its AddressSelector.
pub record Inverter : Type 0 where
  pub index : ℕ
  pub is_selected : Bool
  pub data_out : ℕ

module _ (one_hot : ℕ → ℕ) (c : Config) (w : Widths) where
  -- `addr[row_shift : row_shift + rowbits] & divisor_mask`
  unfoldable pub row_index : ℕ → ℕ
  row_index address = bit_and (address / 2 ^ w.row_shift % 2 ^ w.rowbits) c.divisor_mask

  unfoldable pub selects : ℕ → Bool
  selects index = not (bit_and c.selection_mask (one_hot index) == 0)

  unfoldable pub invert_if : Bool → ℕ → ℕ
  invert_if yes_or_not word = if yes_or_not then 2 ^ w.data_width - 1 - word else word

  unfoldable pub inverter_step : ℕ → ℕ → Inverter → Inverter
  unfolding row_index selects invert_if
  inverter_step address data_in s = record {
    index = row_index address;
    is_selected = selects s.index;
    data_out = invert_if s.is_selected data_in;
  }

  -- What the inverter gives once its registers have settled.
  unfoldable pub inverted : ℕ → ℕ → ℕ
  unfolding row_index selects invert_if
  inverted address word = invert_if (selects (row_index address)) word

-- `counter[: len(self.data_mask)] & self.data_mask`
unfoldable pub masked_slot : Config → Widths → ℕ → ℕ
masked_slot c w counter = bit_and (counter % 2 ^ w.pattern_bits) c.data_mask

-- `addr_port.dat_r + (counter & self.mem_mask)`
unfoldable pub dram_address : Config → Widths → ℕ → ℕ → ℕ
dram_address c w offset counter = (offset + bit_and counter c.mem_mask) % 2 ^ w.dma_bits

-- The pattern address behind `slot`, in the mode with a divisor.
unfoldable pub next_slot : Config → Widths → ℕ → ℕ
next_slot c w slot =
    if c.modulo && slot == c.data_div
    then 0
    else if c.modulo
    then (slot + 1) % 2 ^ w.pattern_bits
    else slot
