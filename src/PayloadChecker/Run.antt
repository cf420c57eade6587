-- ===== src/PayloadChecker/Run.antt =====
-- rowhammer_tester/payload/verify_payload.py: `State` and `main`, behind the parsing. `main` runs over
-- one of the two libraries, whose rank is any `R` with its `Execute`; the while loop takes fuel.
pub mod Follows
pub mod Rounds
pub mod Ends
pub mod Nested
pub mod Counts
use rowhammer_tester.Prelude.{
  ◌≡◌, refl, arith, ℕ, zero, suc, ◌+◌, ◌-◌, Bool, true, false, ◌&&◌, Option, none, some, List, [],
  ◌∷◌, get_elem?, ltb, ◌==◌, if◌then◌else◌,
}
use rowhammer_tester.PayloadChecker.{
  Opcode, number, MemInstr, Instr, mem, nop_instr, jmp_instr, empty,
}

-- `executed` is by opcode, which the numbers of either protocol tell apart.
pub record State : Type 0 where
  pub ip : ℕ
  pub tick : ℕ
  pub loop : ℕ
  pub executed : Opcode → ℕ

abbrev pub initial : State
initial = record { ip = 0; tick = 0; loop = 0; executed = λ op. 0 }

abbrev pub count_up : Opcode → State → Opcode → ℕ
count_up op s o = if number o == number op then s.executed o + 1 else s.executed o

-- What one round leaves: the state and the rank.
pub record Config (R : Type 0) : Type 0 where
  pub state : State
  pub rank : R

-- The result of `main`: 0 with the state it prints, or -1; `unfinished` where the fuel is used up.
pub data Outcome : Type 0 where
  accepted : State → Outcome
  rejected : Outcome
  unfinished : Outcome

-- The end of a round, by what `Execute` gave.
abbrev pub after_mem : {R : Type 0} → MemInstr → State → Option R → Option (Config R)
after_mem m s none = none
after_mem m s (some r) = some (record {
  state = record s { tick = s.tick + m.timeslice; ip = s.ip + 1; executed = count_up m.opcode s };
  rank = r;
})

abbrev pub jump : ℕ → ℕ → State → State
jump offset count s =
    if ltb s.loop count
    then record s { ip = s.ip - offset; loop = s.loop + 1 }
    else record s { ip = s.ip + 1; loop = 0 }

abbrev pub ticked : Opcode → State → State
ticked op s = record s { tick = s.tick + 1; executed = count_up op s }

module _ {R : Type 0} (execute : ℕ → MemInstr → R → Option R) where
  -- The body of the while loop; `none` is `return -1`.
  unfoldable pub step : Instr → Config R → Option (Config R)
  step (mem m) c = after_mem m c.state (execute c.state.tick m c.rank)
  step (nop_instr op timeslice) c = some (record c {
    state = record c.state {
      tick = c.state.tick + timeslice;
      ip = c.state.ip + 1;
      executed = count_up op c.state;
    };
  })
  step (jmp_instr op offset count) c =
      some (record c { state = jump offset count (ticked op c.state) })
  step empty c = none

  -- The while loop: at the instruction at `ip` if there is one, on from what a round left.
  abbrev pub run_on : (Config R → Outcome) → Option (Config R) → Outcome
  run_on again none = rejected
  run_on again (some c) = again c

  abbrev pub run_at : (Config R → Outcome) → Config R → Option Instr → Outcome
  run_at again c none = accepted c.state
  run_at again c (some i) = run_on again (step i c)

  unfoldable pub run : ℕ → List Instr → Config R → Outcome
  run zero p c = unfinished
  run (suc fuel) p c = run_at (run fuel p) c (get_elem? p c.state.ip)

-- `VerifyInstr` of each instruction at its `ip`.
abbrev pub verify_from : (ℕ → Instr → Bool) → ℕ → List Instr → Bool
verify_from verify ip [] = true
verify_from verify ip (i ∷ p) = verify ip i && verify_from verify (ip + 1) p

-- `t > 0` for each field of the timing message.
abbrev pub all_positive : List ℕ → Bool
all_positive [] = true
all_positive (t ∷ ts) = ltb 0 t && all_positive ts

-- `main` behind the parsing: the fields of the timing message, the library's `VerifyInstr`, and its
-- `Rank(payload.timing)` with `Execute`.
unfoldable pub check :
    {R : Type 0}
    → (ℕ → MemInstr → R → Option R)
    → R
    → (ℕ → Instr → Bool)
    → List ℕ
    → ℕ
    → List Instr
    → Outcome
unfolding run
check execute fresh verify fields fuel p =
    if all_positive fields
    then if verify_from verify 0 p
      then run execute fuel p (record { state = initial; rank = fresh })
      else rejected
    else rejected

pub check-accepted :
    {R : Type 0} (execute : ℕ → MemInstr → R → Option R) (fresh : R) (verify : ℕ → Instr → Bool)
    (fields : List ℕ) (fuel : ℕ) (p : List Instr) (s : State)
    → check execute fresh verify fields fuel p ≡ accepted s
    → (all_positive fields ≡ true)
      × (verify_from verify 0 p ≡ true)
      × (run execute fuel p (record { state = initial; rank = fresh }) ≡ accepted s)
unfolding check
check-accepted execute fresh verify fields fuel p s e = ground arith
