-- ===== src/Tests/Scripts.antt =====
-- Addresses, memory accesses and keys of the scripts.
use rowhammer_tester.Prelude.{
  ℕ, zero, suc, ◌+◌, ◌-◌, ◌*◌, ◌≤◌, ◌≡◌, refl, ap, List, ◌∷◌, ◌++◌, arith, ok, replicate,
}
use rowhammer_tester.AddressConverter.{
  Converter, Location, bus_shift, encode_dma, decode_dma, encode_bus, decode_bus,
}
use rowhammer_tester.AddressConverter.RoundTrip.{
  InRange, aligned, decode_dma-encode_dma, decode_bus-encode_bus,
}
use rowhammer_tester.Memory.Bursts.{Reads}

-- The defaults of a DDR3 board.
abbrev converter : Converter
converter = record {
  colbits = 10;
  rowbits = 14;
  bankbits = 3;
  address_align = 3;
  dram_port_width = 128;
}

abbrev location : Location
location = record { bank = 5; row = 1000; col = 77 }

in_range : InRange converter location
in_range = record { bank_fits = omega arith; row_fits = omega arith; col_fits = omega arith }

decode_dma-encode_dma_example :
    (a : ℕ) × (encode_dma converter location ≡ ok a) × (decode_dma converter a ≡ aligned 3 location)
decode_dma-encode_dma_example = decode_dma-encode_dma converter location in_range (omega arith)

-- migen's `log2_int` at 4.
abbrev log2_int : ℕ → ℕ
log2_int n = 2

shift_is_four : bus_shift log2_int converter 32 ≡ 4
unfolding bus_shift
shift_is_four = refl

decode_bus-encode_bus_example :
    (a : ℕ) × (encode_bus log2_int converter 0x40000000 32 location ≡ ok a)
    × (0x40000000 ≤ a)
    × (decode_bus log2_int converter 0x40000000 32 a
        ≡ aligned (3 - bus_shift log2_int converter 32) location)
decode_bus-encode_bus_example =
    decode_bus-encode_bus log2_int converter 0x40000000 32 location in_range
      (omega (arith, shift_is_four))

-- A memory of zeros.
abbrev zeros : ℕ → ℕ → List ℕ
zeros a n = replicate n 0

zeros_join : (a b m n : ℕ) → zeros a m ++ zeros b n ≡ zeros a (m + n)
zeros_join a b zero n = let e : zero + n ≡ n = omega arith in rw e refl
zeros_join a b (suc m) n =
    let e : suc m + n ≡ suc (m + n) = omega arith in rw e (ap (λ l. 0 ∷ l) (zeros_join a b m n))

zeros-Reads : Reads zeros
zeros-Reads = record { joins = λ a m n. zeros_join a (a + 4 * m) m n; nothing = λ a. refl }
