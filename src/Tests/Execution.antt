-- ===== src/Tests/Execution.antt =====
-- A payload of three instructions and a loop, run by the executor.
use rowhammer_tester.Prelude.{
  ℕ, ◌+◌, ◌*◌, ◌^◌, replicate, ◌≡◌, ◌≢◌, refl, true, false, some, List, [], ◌∷◌, arith,
  if◌then◌else◌, ◌==◌,
}
use rowhammer_tester.Decoder.{Geometry, decode}
use rowhammer_tester.Executor.{State, Input, Command, run, command, tick}
use rowhammer_tester.Executor.Pipeline.{At}
use rowhammer_tester.Program.{Arch, arch_step, arch_run, command_of}
use rowhammer_tester.Program.Refine.{Finishes, ticks-arch_run}
use rowhammer_tester.Program.Loops.{Plain, Closes, block_cycles, loop_sent}
use rowhammer_tester.Program.Machine.{ticks-loop}
use rowhammer_tester.DfiSwitch.{
  Switch, SwitchInput, memory_controller, payload_execution, switch_step,
}
use rowhammer_tester.DfiSwitch.Handover.{Env, power_on, system_step, system_run, command_needs_dfi}
use rowhammer_tester.DfiExecutor.{Phase}

abbrev geometry : Geometry
geometry = record { rankbits = 0; bankbits = 3; rowbits = 14; colbits = 10 }

-- ACT for 2 cycles; PRE for 1; LOOP over both, once more; STOP.
abbrev memory : ℕ → ℕ
memory i =
    if i == 0
    then 4 + 2 * 8
    else if i == 1
    then 5 + 1 * 8
    else if i == 2
    then 7 + 1 * 8 + 2 * 2 ^ 15
    else 0

abbrev started : State
started = record {
  fsm = run;
  wants_dfi = true;
  loop_counter = 0;
  idle_counter = 0;
  fetcher = record { program_counter = 2; program_counter_old = 1 };
  fetched = 1;
  instruction = memory 0;
  status = record { exec_start = 0; exec_stop = 0; cycle_counter = 0 };
}

abbrev inputs : ℕ → Input
inputs t = record { start = false; dfi_ready = true }

abbrev first : Arch
first = record { at = 0; loops = 0 }

abbrev commands : List (ℕ × Command)
commands =
    let activate = command_of 1 (decode geometry (memory 0)) in
    let precharge = command_of 1 (decode geometry (memory 1)) in
    (0, activate) ∷ (2, precharge) ∷ (6, activate) ∷ (8, precharge) ∷ []

runs_payload : arch_run 4 memory geometry 1 10 0 first ≡ some (commands, 11)
unfolding arch_run arch_step decode
runs_payload = refl

started-At : At 4 memory geometry 1 run 0 0 started
started-At = record {
  in_state = refl;
  holds_dfi = refl;
  at_instruction = refl;
  at_fetched = refl;
  at_counter = refl;
  at_loops = refl;
}

ticks-arch_run_example :
    (n : ℕ) × (0 + n ≡ 11) × Finishes 4 memory geometry 1 inputs 0 n commands started
ticks-arch_run_example =
    ticks-arch_run 4 memory geometry 1 inputs 10 0 11 first commands started (omega arith)
      (omega arith) started-At runs_payload

body_is_Plain : Plain 4 memory geometry 1 0 2
unfolding decode
body_is_Plain = (ground arith, refl, (ground arith, refl, tt))

closed : Closes 4 memory geometry 1 2 2 1
unfolding decode
closed = record { is_loop = refl; jumps_by = refl; counts = refl }

ticks-loop_example :
    Finishes 4 memory geometry 1 inputs 0
      (2 * block_cycles 4 memory geometry 1 0 2 + 3 * 1 + 2)
      (loop_sent 4 memory geometry 1 0 0 2 1)
      started
unfolding decode
ticks-loop_example =
    ticks-loop 4 memory geometry 1 inputs 0 0 2 1 started (omega arith) (omega arith) body_is_Plain
      closed (omega arith) refl started-At

-- An executor that has the DFI three cycles after the start.
abbrev starts : Env
starts = record {
  start = true;
  with_refresh = false;
  refresh = false;
  at_refresh = 0;
  refresh_update = false;
}

abbrev cycles : List Env
cycles = replicate 5 starts

command_goes_out :
    command 4 memory geometry 1
      (system_run 4 memory geometry 1 cycles (power_on 4 memory geometry 1)).executor
    ≡ some (command_of 1 (decode geometry (memory 0)))
unfolding command system_run system_step decode tick switch_step
command_goes_out = refl

command_needs_dfi_example :
    (system_run 4 memory geometry 1 cycles (power_on 4 memory geometry 1)).switch.fsm
    ≡ payload_execution
command_needs_dfi_example =
    command_needs_dfi 4 memory geometry 1 cycles (command_of 1 (decode geometry (memory 0)))
      command_goes_out

abbrev wanting : SwitchInput
wanting = record {
  wants_dfi = true;
  with_refresh = true;
  refresh = true;
  at_refresh = 6;
  refresh_update = false;
}

abbrev controlled : Switch
controlled = record { fsm = memory_controller; counter = 5; mc_ongoing_d = true; refresh_count = 0 }

abbrev handed_over : Switch
handed_over = record controlled { fsm = payload_execution }

abbrev idle_phase : Phase
idle_phase = record {
  cke = 1;
  odt = 1;
  reset_n = 1;
  cs_n = 1;
  cas_n = true;
  ras_n = true;
  we_n = true;
  address = 0;
  bank = 0;
  rddata_en = false;
}

abbrev on_phase_one : Command
on_phase_one = record { phase = 1; decoded = decode geometry 14 }

other_phase : (d : Command) → some on_phase_one ≡ some d → d.phase ≢ 0
other_phase d e = ground arith
