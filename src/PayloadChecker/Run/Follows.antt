-- ===== src/PayloadChecker/Run/Follows.antt =====
-- rowhammer_tester/payload/verify_payload.py: the memory instructions that a run executes, and what
-- follows for them from what one `Execute` keeps.
use mathlib.Core.Path.{subst}
use rowhammer_tester.Prelude.{
  ℕ, zero, suc, ◌+◌, ◌≤◌, ◌≡◌, Option, none, some, List, ◌∷◌, get_elem?, arith, Option-cases, ap,
  ◌∙◌, sym, inl, inr,
}
use rowhammer_tester.PayloadChecker.{MemInstr, Instr, mem, nop_instr, jmp_instr, empty}
use rowhammer_tester.PayloadChecker.Run.{State, Config, ticked, after_mem, step, jump}

-- A memory instruction that was executed, and its tick.
pub record Event : Type 0 where
  pub tick : ℕ
  pub instr : MemInstr

-- With the instruction of this round, if it is one.
abbrev pub noted : Instr → State → List Event → List Event
noted (mem m) s h = record { tick = s.tick; instr = m } ∷ h
noted _ s h = h

module _ {R : Type 0} (execute : ℕ → MemInstr → R → Option R) where
  -- What the run executes behind `h`, the latest first.
  abbrev pub issued_on :
      (Config R → List Event → List Event)
      → List Event
      → List Event
      → Option (Config R)
      → List Event
  issued_on again h h' none = h
  issued_on again h h' (some c) = again c h'

  abbrev pub issued_at :
      (Config R → List Event → List Event) → Config R → List Event → Option Instr → List Event
  issued_at again c h none = h
  issued_at again c h (some i) = issued_on again h (noted i c.state h) (step execute i c)

  unfoldable pub issued : ℕ → List Instr → Config R → List Event → List Event
  unfolding step
  issued zero p c h = h
  issued (suc fuel) p c h = issued_at (issued fuel p) c h (get_elem? p c.state.ip)

  module _ (Inv : ℕ → R → List Event → Type 0)
      (keeps : (tick : ℕ) (m : MemInstr) (r r' : R) (h : List Event)
        → execute tick m r ≡ some r'
        → Inv tick r h
        → Inv tick r' (record { tick = tick; instr = m } ∷ h))
      (later : (a b : ℕ) (r : R) (h : List Event) → a ≤ b → Inv a r h → Inv b r h) where
    abbrev Holds : Config R → List Event → Type 0
    Holds c h = Inv c.state.tick c.rank h

    moved : {c c' : Config R} {h : List Event} → some c ≡ some c' → Holds c h → Holds c' h
    moved {c} {c'} {h} e inv = subst (λ x. Holds x h) {x = c} {y = c'} (cc) inv

    jump_tick : (offset count : ℕ) (s : State) → (jump offset count s).tick ≡ s.tick
    jump_tick offset count s = ground arith

    step-Inv :
        (i : Instr) (c c' : Config R) (h : List Event)
        → step execute i c ≡ some c'
        → Holds c h
        → Holds c' (noted i c.state h)
    unfolding step
    step-Inv (mem m) c c' h e inv = elim (Option-cases (execute c.state.tick m c.rank)) [
      | inl q ↦ absurd (cc (ap (after_mem m c.state) q, e))
      | inr (r, q) ↦ moved (ap (after_mem m c.state) (sym q) ∙ e) (
          later c.state.tick (c.state.tick + m.timeslice) r _ (omega arith)
            (keeps c.state.tick m c.rank r h q inv))
    ]
    step-Inv (nop_instr op t) c c' h e inv =
        moved e (later c.state.tick (c.state.tick + t) c.rank h (omega arith) inv)
    step-Inv (jmp_instr op offset count) c c' h e inv = moved e (
        later c.state.tick (jump offset count (ticked op c.state)).tick c.rank h
          (omega (arith, jump_tick offset count (ticked op c.state))) inv)
    step-Inv empty c c' h e inv = cc

    pub issued-Inv :
        (fuel : ℕ) (p : List Instr) (c : Config R) (h : List Event)
        → Holds c h
        → (now : ℕ) × (r : R) × Inv now r (issued fuel p c h)
    unfolding issued
    issued-Inv zero p c h inv = (c.state.tick, c.rank, inv)
    issued-Inv (suc fuel) p c h inv = elim (Option-cases (get_elem? p c.state.ip)) [
      | inl e ↦ rw e (c.state.tick, c.rank, inv)
      | inr (i, e) ↦ rw e (elim (Option-cases (step execute i c)) [
        | inl q ↦ rw q (c.state.tick, c.rank, inv)
        | inr (c', q) ↦ rw q (issued-Inv fuel p c' (noted i c.state h) (step-Inv i c c' h q inv))
      ])
    ]
