-- ===== src/DfiSwitch.antt =====
-- rowhammer_tester/gateware/payload_executor.py: class DFISwitch, which hands the DFI from the
-- memory controller to the executor and back. `refresh` is the refresh counter's signal for the
-- phase 0 of the DFI master, whoever drives it.
pub mod Handover
use rowhammer_tester.Prelude.{
  ℕ, ◌+◌, ◌%◌, ◌^◌, Bool, true, false, not, ◌&&◌, ◌||◌, ◌==◌, if◌then◌else◌,
}
use rowhammer_tester.DfiExecutor.{count_refresh}

pub data SwitchFsm : Type 0 where
  memory_controller payload_execution : SwitchFsm

pub record Switch : Type 0 where
  pub fsm : SwitchFsm
  pub counter : ℕ
  pub mc_ongoing_d : Bool
  pub refresh_count : ℕ

pub record SwitchInput : Type 0 where
  pub wants_dfi : Bool
  pub with_refresh : Bool
  pub refresh : Bool
  pub at_refresh : ℕ
  pub refresh_update : Bool

abbrev pub reset_switch : Switch
reset_switch = record {
  fsm = memory_controller;
  counter = 0;
  mc_ongoing_d = false;
  refresh_count = 0;
}

abbrev pub in_payload : SwitchFsm → Bool
in_payload memory_controller = false
in_payload payload_execution = true

-- `dfi_ready`, and `ext_dfi_sel` with it.
abbrev pub dfi_ready : Switch → Bool
dfi_ready s = in_payload s.fsm

unfoldable pub refresh_matches : ℕ → ℕ → Bool
refresh_matches at counter = at == 0 || at == counter + 1

-- `refresher_reset`
unfoldable pub refresher_reset : SwitchInput → Switch → Bool
refresher_reset i s = in_payload s.fsm && not i.wants_dfi

unfoldable pub next_fsm : SwitchFsm → SwitchInput → ℕ → SwitchFsm
unfolding refresh_matches
next_fsm memory_controller i counter =
    if i.wants_dfi
    then (if i.with_refresh
        then (if i.refresh && refresh_matches i.at_refresh counter
            then payload_execution
            else memory_controller)
        else payload_execution)
    else memory_controller
next_fsm payload_execution i counter =
    if not i.wants_dfi then memory_controller else payload_execution

-- One cycle, with the registers of `add_csrs`.
unfoldable pub switch_step : SwitchInput → Switch → Switch
unfolding next_fsm count_refresh
switch_step i s =
    let mc_to_pe = s.mc_ongoing_d && in_payload s.fsm in
    record {
      fsm = next_fsm s.fsm i s.counter;
      counter = count_refresh 64 i.refresh s.counter;
      mc_ongoing_d = not (in_payload s.fsm);
      refresh_count = if mc_to_pe || i.refresh_update then s.counter else s.refresh_count;
    }
