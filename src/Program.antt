-- ===== src/Program.antt =====
-- The instruction set of the payload executor without its pipeline, as the documentation in
-- rowhammer_tester/gateware/payload_executor.py (classes Decoder and PayloadExecutor) describes it:
-- the specification that the state machine of Executor is compared with.
pub mod Steps
pub mod Refine
pub mod Loops
pub mod Machine
use rowhammer_tester.Prelude.{
  ℕ, zero, suc, ◌+◌, ◌-◌, ◌%◌, ◌^◌, max, Bool, true, false, not, ◌&&◌, ◌||◌, Option, some, none,
  List, [], ◌∷◌, ◌==◌, leb, if◌then◌else◌,
}
use rowhammer_tester.OpCode.{value, loop}
use rowhammer_tester.OpCode.Width
use rowhammer_tester.Decoder.{Geometry, Decoded, decode}
use rowhammer_tester.Executor.{Command, stamp}

-- Before an instruction: its address, and how often the current loop has jumped back.
pub record Arch : Type 0 where
  pub at : ℕ
  pub loops : ℕ

-- `wild` is a jump to before the start of the memory.
pub data Next : Type 0 where
  halt wild : Next
  next : Arch → ℕ → Option Command → Next

-- A READ goes out on the read phase.
abbrev pub command_of : ℕ → Decoded → Command
command_of rdphase d = record {
  phase = if d.cas && not d.ras && not d.we then rdphase else 0;
  decoded = d;
}

-- A jump costs its own cycle and two for the pipeline to fill.
abbrev pub jump_cycles : ℕ
jump_cycles = 3

abbrev pub slice_cycles : Decoded → ℕ
slice_cycles d = max 1 d.timeslice

-- What an instruction adds in front of the rest of an execution.
abbrev pub after :
    ℕ → Option Command → Option (List (ℕ × Command) × ℕ) → Option (List (ℕ × Command) × ℕ)
after t c none = none
after t c (some (rest, end)) = some (stamp t c rest, end)

-- What follows an instruction at the cycle `t`, by the way to run the rest.
abbrev pub resume :
    (ℕ → Arch → Option (List (ℕ × Command) × ℕ)) → ℕ → Next → Option (List (ℕ × Command) × ℕ)
resume rest t halt = some ([], t + 1)
resume rest t wild = none
resume rest t (next a n c) = after t c (rest (t + n) a)

module _ (addrbits : ℕ) (mem : ℕ → ℕ) (g : Geometry) (rdphase : ℕ) where
  loop_next : Arch → Decoded → Bool → Next
  loop_next a d at_end =
      if a.loops == d.loop_count
      then (if at_end then halt else next (record { at = a.at + 1; loops = 0 }) 1 none)
      else if leb d.loop_jump a.at
      then next (record { at = a.at - d.loop_jump; loops = (a.loops + 1) % 2 ^ Width.loop_count })
          jump_cycles none
      else wild

  plain_next : Arch → Decoded → Bool → Next
  plain_next a d at_end =
      if at_end || d.stop
      then halt
      else next (record a { at = a.at + 1 }) (slice_cycles d) (some (command_of rdphase d))

  unfoldable pub arch_step : Arch → Next
  unfolding loop_next plain_next
  arch_step a =
      let d : Decoded = decode g (mem a.at) in
      let at_end : Bool = a.at + 1 == 2 ^ addrbits in
      if d.op_code == value loop then loop_next a d at_end else plain_next a d at_end

  -- A whole execution from the cycle `t`: the commands with their cycles, and the cycle after it.
  unfoldable pub arch_run : ℕ → ℕ → Arch → Option (List (ℕ × Command) × ℕ)
  arch_run zero t a = none
  arch_run (suc fuel) t a = resume (arch_run fuel) t (arch_step a)
