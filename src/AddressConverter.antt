-- ===== src/AddressConverter.antt =====
-- rowhammer_tester/scripts/utils.py: class DRAMAddressConverter. `log2_int` is migen's. A shift by
-- `shift` is written by the two numbers whose difference it is, as it may be negative.
pub mod RoundTrip
use rowhammer_tester.Prelude.{
  ℕ, Bool, ◌+◌, ◌-◌, ◌*◌, ◌/◌, ◌^◌, bit_and, bit_or, ltb, ◌==◌, if◌then◌else◌, Result, ok, ◌>>=◌,
  ◌>>◌, assert,
}

pub record Converter : Type 0 where
  pub colbits : ℕ
  pub rowbits : ℕ
  pub bankbits : ℕ
  pub address_align : ℕ
  pub dram_port_width : ℕ

unfoldable pub masked : ℕ → ℕ → ℕ → Result ℕ
masked value width offset = do
  let kept = bit_and value (2 ^ width - 1)
  assert (kept == value)
  ok (kept * 2 ^ offset)

unfoldable pub extract : ℕ → ℕ → ℕ → ℕ
extract value width offset = bit_and value ((2 ^ width - 1) * 2 ^ offset) / 2 ^ offset

-- `address << (up - down)`, or `>>` where that is negative.
unfoldable pub shift_by : ℕ → ℕ → ℕ → ℕ
shift_by up down address =
    if ltb down up then address * 2 ^ (up - down) else address / 2 ^ (down - up)

-- A bank, a row and a column.
pub record Location : Type 0 where
  pub bank : ℕ
  pub row : ℕ
  pub col : ℕ

module _ (c : Converter) where
  unfoldable pub encode_location : Location → Result ℕ
  unfolding masked
  encode_location l = do
    assert (ltb l.bank (2 ^ c.bankbits))
    assert (ltb l.col (2 ^ c.colbits))
    assert (ltb l.row (2 ^ c.rowbits))
    row ← masked l.row c.rowbits (c.bankbits + c.colbits)
    bank ← masked l.bank c.bankbits c.colbits
    col ← masked l.col c.colbits 0
    ok (bit_or (bit_or row bank) col)

  unfoldable pub decode_location : ℕ → Location
  unfolding extract
  decode_location address = record {
    bank = extract address c.bankbits c.colbits;
    row = extract address c.rowbits (c.bankbits + c.colbits);
    col = extract address c.colbits 0;
  }

  unfoldable pub encode_dma : Location → Result ℕ
  unfolding encode_location
  encode_dma l = do address ← encode_location l; ok (address / 2 ^ c.address_align)

  unfoldable pub decode_dma : ℕ → Location
  unfolding decode_location
  decode_dma address = decode_location (address * 2 ^ c.address_align)

module _ (log2_int : ℕ → ℕ) (c : Converter) where
  -- `_get_bus_shift` is this, less `address_align`.
  unfoldable pub bus_shift : ℕ → ℕ
  bus_shift bus_width = log2_int (c.dram_port_width / bus_width) + log2_int (bus_width / 8)

  unfoldable pub encode_bus : ℕ → ℕ → Location → Result ℕ
  unfolding encode_location shift_by bus_shift
  encode_bus base bus_width l = do
    address ← encode_location c l
    ok (base + shift_by (bus_shift bus_width) c.address_align address)

  -- For an address that is not below the base.
  unfoldable pub decode_bus : ℕ → ℕ → ℕ → Location
  unfolding decode_location shift_by bus_shift
  decode_bus base bus_width address =
      decode_location c (shift_by c.address_align (bus_shift bus_width) (address - base))

-- What `load` reads of LiteDRAM's settings.
pub record Settings : Type 0 where
  pub is_sdr : Bool
  pub nphases : ℕ
  pub dfi_databits : ℕ
  pub geom_colbits : ℕ
  pub geom_rowbits : ℕ
  pub geom_bankbits : ℕ

-- `DRAMAddressConverter.load`; `burst_length` is LiteDRAM's for the memory type.
unfoldable pub load : (ℕ → ℕ) → ℕ → Settings → Converter
load log2_int burst_length s = record {
  colbits = s.geom_colbits;
  rowbits = s.geom_rowbits;
  bankbits = s.geom_bankbits;
  address_align = log2_int (if s.is_sdr then s.nphases else burst_length);
  dram_port_width = s.nphases * s.dfi_databits;
}
