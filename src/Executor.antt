-- ===== src/Executor.antt =====
-- rowhammer_tester/gateware/payload_executor.py: class PayloadExecutor, its state machine, pipeline
-- and status registers. `tick` is one cycle of the system clock. The payload memory's port is
-- synchronous: `fetched` is the address that it registered in the cycle before, and its data now is
-- `mem fetched`. The enclosing section takes the memory and the constructor's arguments.
pub mod Pipeline
use rowhammer_tester.Prelude.{
  ℕ, ◌+◌, ◌-◌, ◌%◌, ◌^◌, Bool, true, false, not, ◌&&◌, ◌||◌, Option, some, none, ◌==◌, leb,
  if◌then◌else◌, List, [], ◌∷◌, zero, suc,
}
use rowhammer_tester.OpCode.{value, loop}
use rowhammer_tester.OpCode.Width
use rowhammer_tester.Decoder.{Geometry, Decoded, decode}
use rowhammer_tester.Fetcher.{Fetcher, pipeline_delay, fetcher_reset, fetch_step, mem_addr}

pub data Fsm : Type 0 where
  ready wait_dfi run idle bubble : Fsm

-- 64-bit registers that measure an execution.
pub record Status : Type 0 where
  pub exec_start : ℕ
  pub exec_stop : ℕ
  pub cycle_counter : ℕ

pub record State : Type 0 where
  pub fsm : Fsm
  pub wants_dfi : Bool
  pub loop_counter : ℕ
  pub idle_counter : ℕ
  pub fetcher : Fetcher
  pub fetched : ℕ
  pub instruction : ℕ
  pub status : Status

pub record Input : Type 0 where
  pub start : Bool
  pub dfi_ready : Bool

-- What `dfi_executor` is told to send: the phase and the decoder's outputs.
pub record Command : Type 0 where
  pub phase : ℕ
  pub decoded : Decoded

abbrev pub reset_state : State
reset_state = record {
  fsm = ready;
  wants_dfi = false;
  loop_counter = 0;
  idle_counter = 0;
  fetcher = fetcher_reset;
  fetched = 0;
  instruction = 0;
  status = record { exec_start = 0; exec_stop = 0; cycle_counter = 0 };
}

abbrev pub stalls : Fsm → Bool
stalls run = false
stalls bubble = false
stalls _ = true

abbrev pub executing : Fsm → Bool
executing run = true
executing idle = true
executing bubble = true
executing _ = false

abbrev pub is_ready : Fsm → Bool
is_ready ready = true
is_ready _ = false

abbrev cycle64 : ℕ
cycle64 = 2 ^ 64

-- The first `self.sync` block. A later assignment to a register wins.
unfoldable pub status_step : Status → Bool → Bool → Status
status_step s start executing =
    let first : Bool = executing && s.exec_start == 0 in
    record {
      exec_start = if first then s.cycle_counter else (if start then 0 else s.exec_start);
      exec_stop =
          if executing then (s.cycle_counter + 1) % cycle64 else (if start then 0 else s.exec_stop);
      cycle_counter = (s.cycle_counter + 1) % cycle64;
    }

-- A command in front of the later ones, each with its cycle.
abbrev pub stamp : ℕ → Option Command → List (ℕ × Command) → List (ℕ × Command)
stamp t none rest = rest
stamp t (some c) rest = (t, c) ∷ rest

module _ (addrbits : ℕ) (mem : ℕ → ℕ) (g : Geometry) (rdphase : ℕ) where
  -- The part of a cycle that every state shares: fetcher, memory port, instruction and status.
  unfoldable pub datapath : Input → Bool → ℕ → State → State
  unfolding fetch_step mem_addr status_step
  datapath input jump jump_offset s =
      let stall : Bool = stalls s.fsm in
      record s {
        fetcher = fetch_step addrbits s.fetcher stall (is_ready s.fsm) jump jump_offset;
        fetched = mem_addr s.fetcher stall;
        instruction = if stall then s.instruction else mem s.fetched;
        status = status_step s.status input.start (executing s.fsm);
      }

  -- The first condition of the state RUN.
  unfoldable pub terminates : Decoded → State → Bool
  unfolding mem_addr
  terminates d s =
      (mem_addr s.fetcher false == pipeline_delay - 1 || d.stop)
      && (not (d.op_code == value loop) || d.loop_count == s.loop_counter)

  -- The state RUN.
  unfoldable pub run_step : Input → Decoded → State → State
  unfolding terminates datapath
  run_step input d s =
      if terminates d s
      then record (datapath input false 0 s) { fsm = ready; wants_dfi = false }
      else if d.op_code == value loop
      then (if not (s.loop_counter == d.loop_count)
          then record (datapath input true d.loop_jump s) {
            fsm = bubble;
            loop_counter = (s.loop_counter + 1) % 2 ^ Width.loop_count;
            idle_counter = pipeline_delay - 1;
          }
          else record (datapath input false 0 s) { loop_counter = 0 })
      else if leb d.timeslice 1
      then datapath input false 0 s
      else record (datapath input false 0 s) { fsm = idle; idle_counter = d.timeslice - 2 }

  -- The states IDLE and BUBBLE count down to RUN.
  unfoldable pub count_down : Input → State → State
  unfolding datapath
  count_down input s =
      if s.idle_counter == 0
      then record (datapath input false 0 s) { fsm = run }
      else record (datapath input false 0 s) { idle_counter = s.idle_counter - 1 }

  unfoldable pub dispatch : Fsm → Input → State → State
  unfolding datapath run_step count_down
  dispatch ready input s =
      let s' : State = datapath input false 0 s in
      if input.start then record s' { fsm = wait_dfi; wants_dfi = true } else s'
  dispatch wait_dfi input s =
      let s' : State = datapath input false 0 s in
      if input.dfi_ready then record s' { fsm = bubble; idle_counter = pipeline_delay - 1 } else s'
  dispatch run input s = run_step input (decode g s.instruction) s
  dispatch idle input s = count_down input s
  dispatch bubble input s = count_down input s

  -- One cycle.
  unfoldable pub tick : Input → State → State
  unfolding dispatch
  tick input s = dispatch s.fsm input s

  abbrev is_read : Decoded → Bool
  is_read d = d.cas && not d.ras && not d.we

  -- What RUN sends in a cycle, if it sends anything.
  unfoldable pub run_command : Decoded → State → Option Command
  unfolding terminates
  run_command d s =
      if terminates d s || d.op_code == value loop
      then none
      else some (record { phase = if is_read d then rdphase else 0; decoded = d })

  abbrev pub command_in : Fsm → State → Option Command
  unfolding run_command
  command_in run s = run_command (decode g s.instruction) s
  command_in _ s = none

  unfoldable pub command : State → Option Command
  unfolding run_command
  command s = command_in s.fsm s

  -- `n` cycles from the cycle `t`, with the inputs of each.
  unfoldable pub ticks : (ℕ → Input) → ℕ → ℕ → State → State
  ticks inputs zero t s = s
  ticks inputs (suc n) t s = ticks inputs n (t + 1) (tick (inputs t) s)

  -- The commands sent in those cycles.
  unfoldable pub sent : (ℕ → Input) → ℕ → ℕ → State → List (ℕ × Command)
  sent inputs zero t s = []
  sent inputs (suc n) t s = stamp t (command s) (sent inputs n (t + 1) (tick (inputs t) s))
