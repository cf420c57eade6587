-- ===== src/PayloadChecker/Legal.antt =====
-- rowhammer_tester/payload/ddr3lib.py and ddr4lib.py: what a sequence of commands must keep to, told
-- of the commands alone. Events are given the latest first.
use rowhammer_tester.Prelude.{ℕ, ◌+◌, ◌≤◌, Bool, false, List, [], ◌∷◌, All, if◌then◌else◌}
use rowhammer_tester.PayloadChecker.{Opcode, act, MemInstr, CoreTiming}
use rowhammer_tester.PayloadChecker.Bank.Limits.{bank_gap, opens, Allowed}
use rowhammer_tester.PayloadChecker.Faw.{FawKept}
use rowhammer_tester.PayloadChecker.Run.Follows.{Event}

abbrev pub add_act : Opcode → ℕ → List ℕ → List ℕ
add_act act tick l = tick ∷ l
add_act _ tick l = l

-- The ticks of the ACTs.
abbrev pub acts : List Event → List ℕ
acts [] = []
acts (e ∷ h) = add_act e.instr.opcode e.tick (acts h)

-- A command is no fifth ACT within `faw`.
abbrev pub FawOk : ℕ → ℕ → Opcode → List ℕ → Type 0
FawOk faw tick act l = FawKept faw tick l
FawOk faw tick _ l = Unit

-- `same m x` where `m` and `x` are of one bank.
module _ (same : MemInstr → MemInstr → Bool) where
  -- Whether the bank of `x` is open behind the events.
  abbrev pub is_open : List Event → MemInstr → Bool
  is_open [] x = false
  is_open (e ∷ h) x = if same e.instr x then opens e.instr.opcode (is_open h x) else is_open h x

  -- `gap` is what the rank keeps between two commands.
  module _ (t : CoreTiming) (gap : MemInstr → MemInstr → ℕ) where
    abbrev pub Apart : Event → Event → Type 0
    Apart c e =
        (e.tick + gap e.instr c.instr ≤ c.tick)
        × (e.tick + (if same c.instr e.instr then bank_gap t e.instr.opcode c.instr.opcode else 0)
            ≤ c.tick)

    abbrev pub LegalBehind : Event → List Event → Type 0
    LegalBehind c h =
        All (Apart c) h
        × Allowed c.instr.opcode (is_open h c.instr)
        × FawOk t.faw c.tick c.instr.opcode (acts h)

    -- Each command is legal behind those before it.
    abbrev pub Legal : List Event → Type 0
    Legal [] = Unit
    Legal (c ∷ h) = LegalBehind c h × Legal h
