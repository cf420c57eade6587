-- ===== src/Scratchpad.antt =====
-- rowhammer_tester/gateware/payload_executor.py: class Scratchpad, which stores the data of
-- subsequent READ commands. One step is one clock cycle; the write port's registers are part of the
-- state, and its write of a cycle is `write`.
pub mod Spacing
use rowhammer_tester.Prelude.{
  ℕ, zero, suc, ◌+◌, ◌-◌, ◌*◌, ◌/◌, ◌%◌, ◌^◌, Bool, true, false, Option, some, none, List, [], ◌∷◌,
  ◌==◌, if◌then◌else◌,
}

-- The read data of one DFI phase.
pub record ReadPhase : Type 0 where
  pub rddata : ℕ
  pub rddata_valid : Bool

-- The depth of the memory, the bits of the counter and of one phase's data.
pub record Size : Type 0 where
  pub depth : ℕ
  pub counter_bits : ℕ
  pub data_bits : ℕ

pub record Scratchpad : Type 0 where
  pub counter : ℕ
  pub overflow : Bool
  pub adr : ℕ
  pub dat_w : ℕ
  pub we : ℕ

abbrev pub reset_scratchpad : Scratchpad
reset_scratchpad = record { counter = 0; overflow = false; adr = 0; dat_w = 0; we = 0 }

module _ (size : Size) where
  -- `Cat(*[p.rddata for p in dfi.phases])`
  unfoldable pub cat_data : List ReadPhase → ℕ
  cat_data [] = 0
  cat_data (p ∷ ps) = p.rddata + 2 ^ size.data_bits * cat_data ps

  -- The byte enables: `Replicate(p.rddata_valid, we_replicate)` of each phase.
  unfoldable pub cat_we : List ReadPhase → ℕ
  cat_we [] = 0
  cat_we (p ∷ ps) =
      let bytes = size.data_bits / 8 in
      (if p.rddata_valid then 2 ^ bytes - 1 else 0) + 2 ^ bytes * cat_we ps

  unfoldable pub scratchpad_step : List ReadPhase → Scratchpad → Scratchpad
  unfolding cat_data cat_we
  scratchpad_step phases s = record {
    counter =
        if s.we == 0
        then s.counter
        else if s.counter == size.depth - 1
        then 0
        else (s.counter + 1) % 2 ^ size.counter_bits;
    overflow =
        if s.we == 0 then s.overflow else if s.counter == size.depth - 1 then true else s.overflow;
    adr = s.counter;
    dat_w = cat_data phases;
    we = cat_we phases;
  }

  -- The address and data that the memory is given in a cycle.
  unfoldable pub write : Scratchpad → Option (ℕ × ℕ)
  write s = if s.we == 0 then none else some (s.adr, s.dat_w)

  abbrev pub with_write : Option (ℕ × ℕ) → List (ℕ × ℕ) → List (ℕ × ℕ)
  with_write none later = later
  with_write (some w) later = w ∷ later

  -- The writes over a list of cycles.
  unfoldable pub writes : List (List ReadPhase) → Scratchpad → List (ℕ × ℕ)
  unfolding write scratchpad_step
  writes [] s = with_write (write s) []
  writes (phases ∷ rest) s = with_write (write s) (writes rest (scratchpad_step phases s))
