-- ===== src/Sram.antt =====
-- rowhammer_tester/gateware/sram.py: class SRAM, a memory on a Wishbone bus. One step is one clock
-- cycle. `delayed_enter` with a delay of 2 passes two states between ADDR and DATA. The memory port
-- is migen's, with a registered read that sees the write of its cycle, or with READ_FIRST does not.
pub mod Transactions
use rowhammer_tester.Prelude.{
  ℕ, zero, suc, ◌+◌, ◌*◌, ◌/◌, ◌%◌, Bool, true, false, not, ◌&&◌, List, [], ◌∷◌, ◌==◌,
  if◌then◌else◌,
}

pub data SramFsm : Type 0 where
  addr get_data wait data_phase : SramFsm

-- The bus signals of a cycle that the SRAM reads.
pub record BusRequest : Type 0 where
  pub cyc : Bool
  pub stb : Bool
  pub we : Bool
  pub adr : ℕ
  pub sel : ℕ
  pub dat_w : ℕ

-- The machine with the registers of its port, and the memory's words.
pub record Sram : Type 0 where
  pub fsm : SramFsm
  pub port_adr : ℕ
  pub port_we : ℕ
  pub port_dat_w : ℕ
  pub port_dat_r : ℕ
  pub reg_dat_r : ℕ
  pub words : ℕ → ℕ

-- The bytes of `new` that the enables select, over those of `old`; `bytes` of them.
unfoldable pub merge : ℕ → ℕ → ℕ → ℕ → ℕ
merge zero enables new old = 0
merge (suc bytes) enables new old =
    (if enables % 2 == 1 then new % 256 else old % 256)
    + 256 * merge bytes (enables / 2) (new / 256) (old / 256)

module _ (bytes : ℕ) (read_only read_first : Bool) where
  -- The memory behind the port's write.
  unfoldable pub written_words : Sram → ℕ → ℕ
  unfolding merge
  written_words s a =
      if a == s.port_adr then merge bytes s.port_we s.port_dat_w (s.words a) else s.words a

  -- What every cycle does: the port writes and reads, and the read data are registered.
  unfoldable pub port_step : Sram → Sram
  unfolding written_words
  port_step s = record s {
    port_dat_r = if read_first then s.words s.port_adr else written_words s s.port_adr;
    reg_dat_r = s.port_dat_r;
    words = written_words s;
  }

  unfoldable pub accept : BusRequest → Sram → Sram
  accept i s =
      if i.we && not read_only
      then record s { fsm = get_data; port_adr = i.adr; port_we = i.sel; port_dat_w = i.dat_w }
      else record s { fsm = get_data; port_adr = i.adr }

  unfoldable pub sram_dispatch : SramFsm → BusRequest → Sram → Sram
  unfolding accept
  sram_dispatch addr i s = if i.cyc && i.stb then accept i s else s
  sram_dispatch get_data i s = record s { fsm = wait }
  sram_dispatch wait i s = record s { fsm = data_phase }
  sram_dispatch data_phase i s = record s { fsm = addr }

  unfoldable pub sram_step : BusRequest → Sram → Sram
  unfolding port_step sram_dispatch
  sram_step i s = sram_dispatch s.fsm i (port_step s)

  -- `bus.ack`
  unfoldable pub acks : SramFsm → Bool
  acks data_phase = true
  acks _ = false

  unfoldable pub sram_run : ℕ → BusRequest → Sram → Sram
  unfolding sram_step
  sram_run zero i s = s
  sram_run (suc n) i s = sram_run n i (sram_step i s)
