-- ===== src/Tests/Bus.antt =====
-- The SRAM on its bus, and a memory fill.
use rowhammer_tester.Prelude.{
  ℕ, ◌^◌, ◌≡◌, ◌≢◌, refl, Bool, true, false, some, List, [], ◌∷◌, arith, ok,
}
use rowhammer_tester.Bist.{Pattern, Widths}
use rowhammer_tester.Sram.{addr, BusRequest, Sram, merge, acks, sram_run}
use rowhammer_tester.Sram.Transactions.{sram_run-reads}
use rowhammer_tester.HwTest.{writer, BusWrite, hw_memset, start_side, only_pattern}
use rowhammer_tester.HwTest.Coverage.{
  WriterSetup, Device, StartedWith, receive_all, hw_memset-covers,
}

abbrev request : Bool → ℕ → BusRequest
request we adr = record {
  cyc = true;
  stb = true;
  we = we;
  adr = adr;
  sel = 0b0011;
  dat_w = 0xaabbccdd;
}

-- A word was written to the address 1 before.
abbrev sram : Sram
sram = record {
  fsm = addr;
  port_adr = 1;
  port_we = 0b1111;
  port_dat_w = 7;
  port_dat_r = 0;
  reg_dat_r = 0;
  words = λ a. 0;
}

elsewhere : 2 ≢ sram.port_adr
elsewhere = omega arith

sram_run-reads_example :
    let s' = sram_run 4 false true 3 (request false 2) sram in
    (acks 4 false true s'.fsm ≡ true) × (s'.words 2 ≡ merge 4 0b1111 7 0)
sram_run-reads_example =
    sram_run-reads 4 false true (request false 2) sram refl refl refl refl elsewhere

abbrev device : Device
device = record {
  now = record {
    config = record {
      modulo = false;
      count = 0;
      mem_mask = 0;
      data_mask = 3;
      data_div = 0;
      divisor_mask = 0;
      selection_mask = 0;
    };
    first_addr = 0;
    first_words = [];
  };
  started = [];
}

abbrev pattern : Pattern
pattern = record { addr = λ i. 4; word = λ i. 0x55 }

abbrev widths : Widths
widths = record { pattern_bits = 10; dma_bits = 24; data_width = 128; rowbits = 5; row_shift = 7 }

abbrev sent : List BusWrite
sent = start_side writer 16 64 160 0x55

filled : hw_memset 16 64 160 (0x55 ∷ []) 1 (0 ∷ 0 ∷ 1 ∷ []) ≡ ok (sent, some 3)
unfolding hw_memset
filled = refl

hw_memset-covers_example :
    (word : ℕ) × (c : WriterSetup) × (only_pattern (0x55 ∷ []) ≡ ok word)
    × StartedWith 16 64 160 word 9 (λ i. 2 ^ i) pattern widths device (receive_all sent device) c
hw_memset-covers_example =
    hw_memset-covers 16 64 160 1 (0x55 ∷ []) (0 ∷ 0 ∷ 1 ∷ []) sent (some 3) device (λ i. 2 ^ i)
      pattern widths 9 filled refl (omega arith) (omega arith)
