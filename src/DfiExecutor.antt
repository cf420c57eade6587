-- ===== src/DfiExecutor.antt =====
-- rowhammer_tester/gateware/payload_executor.py: classes DFIExecutor and RefreshCounter. A signal
-- of one bit for each rank is a number below 2 ^ nranks; `one_hot` is migen's one-hot decoder.
pub mod Refresh
use rowhammer_tester.Prelude.{
  ℕ, ◌+◌, ◌-◌, ◌%◌, ◌^◌, Bool, true, false, not, ◌&&◌, Option, some, none, ◌==◌, if◌then◌else◌,
}
use rowhammer_tester.OpCode.{value, noop, ref, read}
use rowhammer_tester.Decoder.{Decoded}
use rowhammer_tester.Executor.{Command}

-- The registers of one phase of the DFI.
pub record Phase : Type 0 where
  pub cke : ℕ
  pub odt : ℕ
  pub reset_n : ℕ
  pub cs_n : ℕ
  pub cas_n : Bool
  pub ras_n : Bool
  pub we_n : Bool
  pub address : ℕ
  pub bank : ℕ
  pub rddata_en : Bool

module _ (one_hot : ℕ → ℕ) (nranks : ℕ) where
  abbrev pub all_ranks : ℕ
  all_ranks = 2 ^ nranks - 1

  unfoldable pub chip_select : Decoded → ℕ
  chip_select d =
      if d.op_code == value noop
      then all_ranks
      else if d.op_code == value ref
      then 0
      else all_ranks - one_hot d.dfi_rank

  -- A phase that is selected takes the command, and keeps nothing.
  unfoldable pub selected : Decoded → Phase
  unfolding chip_select
  selected d = record {
    cke = all_ranks;
    odt = all_ranks;
    reset_n = all_ranks;
    cs_n = chip_select d;
    cas_n = not d.cas;
    ras_n = not d.ras;
    we_n = not d.we;
    address = d.dfi_address;
    bank = d.dfi_bank;
    rddata_en = d.op_code == value read;
  }

  -- One that is not keeps its address and bank.
  unfoldable pub inactive : Phase → Phase
  inactive p = record p {
    cke = all_ranks;
    odt = all_ranks;
    reset_n = all_ranks;
    cs_n = all_ranks;
    cas_n = true;
    ras_n = true;
    we_n = true;
    rddata_en = false;
  }

  -- One cycle of the phase with the index `i`, for what the executor sends.
  unfoldable pub phase_step : ℕ → Option Command → Phase → Phase
  unfolding selected inactive
  phase_step i none p = inactive p
  phase_step i (some c) p = if c.phase == i then selected c.decoded else inactive p

-- `RefreshCounter.refresh`, for the memory types but DDR5.
unfoldable pub is_refresh : Phase → Bool
is_refresh p = p.cs_n == 0 && not p.cas_n && not p.ras_n && p.we_n

-- The same for DDR5 on one sub-channel, where `cs_n` has one bit.
unfoldable pub is_refresh_ddr5 : Phase → Bool
is_refresh_ddr5 p = p.cs_n == 0 && p.address % 2 ^ 5 == 0b10011

unfoldable pub count_refresh : ℕ → Bool → ℕ → ℕ
count_refresh width refresh counter = if refresh then (counter + 1) % 2 ^ width else counter
