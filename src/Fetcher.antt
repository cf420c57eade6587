-- ===== src/Fetcher.antt =====
-- rowhammer_tester/gateware/payload_executor.py: class Fetcher. Its address signals have the width
-- of the payload memory's address; `jump_offset` is a 17-bit field of the instruction.
use rowhammer_tester.Prelude.{ℕ, ◌+◌, ◌-◌, ◌*◌, ◌%◌, ◌^◌, Bool, if◌then◌else◌}
use rowhammer_tester.OpCode.Width

pub record Fetcher : Type 0 where
  pub program_counter : ℕ
  pub program_counter_old : ℕ

abbrev pub pipeline_delay : ℕ
pipeline_delay = 2

-- The power-on state.
abbrev pub fetcher_reset : Fetcher
fetcher_reset = record { program_counter = 0; program_counter_old = 0 }

module _ (addrbits : ℕ) where
  -- The subtraction wraps, so a multiple of the modulus above any offset is added first.
  unfoldable pub next_addr : Fetcher → Bool → ℕ → ℕ
  next_addr f jump jump_offset =
      if jump
      then (f.program_counter
          + (2 ^ Width.loop_jump + pipeline_delay) * 2 ^ addrbits
          - jump_offset
          - pipeline_delay)
        % 2 ^ addrbits
      else (f.program_counter + 1) % 2 ^ addrbits

  unfoldable pub fetch_step : Fetcher → Bool → Bool → Bool → ℕ → Fetcher
  unfolding next_addr
  fetch_step f stall reset_pc jump jump_offset =
      if stall
      then (if reset_pc then record { program_counter = 0; program_counter_old = 0 } else f)
      else record {
        program_counter = next_addr f jump jump_offset;
        program_counter_old = f.program_counter;
      }

-- The address that the payload memory sees.
unfoldable pub mem_addr : Fetcher → Bool → ℕ
mem_addr f stall = if stall then f.program_counter_old else f.program_counter
