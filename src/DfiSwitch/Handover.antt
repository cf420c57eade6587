-- ===== src/DfiSwitch/Handover.antt =====
-- The executor and the switch together: who drives the DFI when.
use rowhammer_tester.Prelude.{
  ℕ, ◌+◌, ◌≡◌, ◌⊎◌, ◌↔◌, refl, Bool, true, false, some, arith, List, [], ◌∷◌,
}
use rowhammer_tester.Decoder.{Geometry}
use rowhammer_tester.Executor.{
  ready, wait_dfi, State, Command, tick, command, executing, reset_state,
}
use rowhammer_tester.DfiSwitch.{
  Switch, SwitchInput, memory_controller, payload_execution, switch_step, dfi_ready, reset_switch,
  refresher_reset,
}

-- From the memory controller, the switch goes to the executor exactly when the executor wants the
-- DFI and either the controller's refresh is off, or a refresh is seen in this cycle and it is the
-- awaited one (any, if none is set).
switch_step-takes_dfi :
    (i : SwitchInput) (s : Switch)
    → s.fsm ≡ memory_controller
    → ((switch_step i s).fsm ≡ payload_execution) ↔ (
        (i.wants_dfi ≡ true)
        × ((i.with_refresh ≡ false)
            ⊎ ((i.refresh ≡ true) × ((i.at_refresh ≡ 0) ⊎ (i.at_refresh ≡ s.counter + 1)))))
unfolding switch_step
switch_step-takes_dfi i s h = (ground arith, ground arith)

-- From the executor, the switch goes back exactly when the executor does not want the DFI any
-- more, and it resets the refresher exactly then.
switch_step-returns_dfi :
    (i : SwitchInput) (s : Switch)
    → s.fsm ≡ payload_execution
    → (((switch_step i s).fsm ≡ memory_controller) ↔ (i.wants_dfi ≡ false))
      × ((refresher_reset i s ≡ true) ↔ ((switch_step i s).fsm ≡ memory_controller))
unfolding switch_step refresher_reset
switch_step-returns_dfi i s h = ((ground arith, ground arith), (ground arith, ground arith))

-- What the environment chooses in a cycle.
pub record Env : Type 0 where
  pub start : Bool
  pub with_refresh : Bool
  pub refresh : Bool
  pub at_refresh : ℕ
  pub refresh_update : Bool

pub record System : Type 0 where
  pub executor : State
  pub switch : Switch

module _ (addrbits : ℕ) (mem : ℕ → ℕ) (g : Geometry) (rdphase : ℕ) where
  -- One cycle of both, wired as `PayloadExecutor` wires them.
  unfoldable pub system_step : Env → System → System
  system_step e s = record {
    executor =
        tick addrbits mem g rdphase (record { start = e.start; dfi_ready = dfi_ready s.switch })
          s.executor;
    switch =
        switch_step
          (record {
            wants_dfi = s.executor.wants_dfi;
            with_refresh = e.with_refresh;
            refresh = e.refresh;
            at_refresh = e.at_refresh;
            refresh_update = e.refresh_update;
          })
          s.switch;
  }

  -- The executor is at work only while it wants the DFI and has it.
  pub record Owns (s : System) : Type 0 where
    pub at_work :
        executing s.executor.fsm ≡ true
        → (s.switch.fsm ≡ payload_execution) × (s.executor.wants_dfi ≡ true)
    pub waiting : s.executor.fsm ≡ wait_dfi → s.executor.wants_dfi ≡ true
    pub resting : s.executor.fsm ≡ ready → s.executor.wants_dfi ≡ false

  system_step-Owns : (e : Env) (s : System) → Owns s → Owns (system_step e s)
  unfolding system_step tick switch_step
  system_step-Owns e s h = record {
    at_work = λ w. ground arith;
    waiting = λ w. ground arith;
    resting = λ w. ground arith;
  }

  unfoldable pub system_run : List Env → System → System
  system_run [] s = s
  system_run (e ∷ es) s = system_run es (system_step e s)

  system_run-Owns : (es : List Env) (s : System) → Owns s → Owns (system_run es s)
  unfolding system_run
  system_run-Owns [] s h = h
  system_run-Owns (e ∷ es) s h = system_run-Owns es (system_step e s) (system_step-Owns e s h)

  -- Power-on: nobody wants the DFI, and the memory controller has it.
  abbrev pub power_on : System
  power_on = record { executor = reset_state; switch = reset_switch }

  command-executing :
      (s : State) (c : Command) → command addrbits mem g rdphase s ≡ some c → executing s.fsm ≡ true
  unfolding command
  command-executing s c h = ground arith

  -- Whatever happens from power-on, a command goes out only in a cycle in which the switch routes
  -- the executor to the DFI.
  pub command_needs_dfi :
      (es : List Env) (c : Command)
      → command addrbits mem g rdphase (system_run es power_on).executor ≡ some c
      → (system_run es power_on).switch.fsm ≡ payload_execution
  command_needs_dfi es c h =
      let owns =
        system_run-Owns es power_on
          (record { at_work = λ w. cc; waiting = λ w. cc; resting = λ w. refl }) in
      (owns.at_work (command-executing (system_run es power_on).executor c h)).0
