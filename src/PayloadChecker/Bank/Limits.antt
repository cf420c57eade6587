-- ===== src/PayloadChecker/Bank/Limits.antt =====
-- rowhammer_tester/payload/ddr3lib.py and ddr4lib.py: what a Bank's `next_tick` holds of the
-- commands it has executed.
use rowhammer_tester.Prelude.{ℕ, ◌+◌, ◌≤◌, ◌≡◌, Bool, true, false, some, arith}
use rowhammer_tester.PayloadChecker.{Opcode, rd, act, pre, Time, at, never, postpone, CoreTiming}
use rowhammer_tester.PayloadChecker.Bank.{Bank, bank_update, bank_execute}

-- No command is let through before `limit`; and it is, at some time.
abbrev pub AtLeast : ℕ → Time → Type 0
AtLeast limit (at n) = limit ≤ n
AtLeast limit never = Unit

abbrev pub Finite : ℕ → Time → Type 0
Finite limit (at n) = limit ≤ n
Finite limit never = ⊥

module _ (t : CoreTiming) where
  -- The ticks a bank keeps from a command to a later one.
  abbrev pub bank_gap : Opcode → Opcode → ℕ
  bank_gap rd pre = t.rtp
  bank_gap act rd = t.rcd
  bank_gap act pre = t.ras
  bank_gap pre act = t.rp
  bank_gap _ _ = 0

  -- That a bank remembers a command at `t0`.
  abbrev pub BankCovers : ℕ → Opcode → Bank → Type 0
  BankCovers t0 rd b = Finite (t0 + t.rtp) b.next_pre
  BankCovers t0 act b = AtLeast (t0 + t.rcd) b.next_rd × Finite (t0 + t.ras) b.next_pre
  BankCovers t0 pre b = AtLeast (t0 + t.rp) b.next_act
  BankCovers t0 _ b = Unit

  postpone-Finite :
      (limit tick p : ℕ) (x : Time) → Finite limit x → Finite limit (postpone tick (at p) x)
  postpone-Finite limit tick p (at n) h = ground arith
  postpone-Finite limit tick p never h = ground arith

  pub bank_execute-BankCovers :
      (t0 tick : ℕ) (op c : Opcode) (b b' : Bank)
      → bank_execute t tick c b ≡ some b'
      → t0 ≤ tick
      → BankCovers t0 op b
      → BankCovers t0 op b'
  unfolding bank_execute bank_update
  bank_execute-BankCovers t0 tick op c b b' e le h = ground arith

  pub bank_execute-fresh :
      (tick : ℕ) (c : Opcode) (b b' : Bank)
      → bank_execute t tick c b ≡ some b'
      → BankCovers tick c b'
  unfolding bank_execute bank_update
  bank_execute-fresh tick c b b' e = ground arith

  pub bank_execute-gap :
      (t0 tick : ℕ) (op c : Opcode) (b b' : Bank)
      → bank_execute t tick c b ≡ some b'
      → t0 ≤ tick
      → BankCovers t0 op b
      → t0 + bank_gap op c ≤ tick
  unfolding bank_execute bank_update
  bank_execute-gap t0 tick op c b b' e le h = ground arith

-- A bank is open from an ACT to the next PRE.
abbrev pub opens : Opcode → Bool → Bool
opens act o = true
opens pre o = false
opens _ o = o

-- A RD goes to an open bank, an ACT to a closed one.
abbrev pub Allowed : Opcode → Bool → Type 0
Allowed rd o = o ≡ true
Allowed act o = o ≡ false
Allowed _ o = Unit

abbrev pub Mode : Bool → Bank → Type 0
Mode true b = b.next_act ≡ never
Mode false b = b.next_rd ≡ never

module _ (t : CoreTiming) where
  pub bank_execute-Mode :
      (tick : ℕ) (c : Opcode) (o : Bool) (b b' : Bank)
      → bank_execute t tick c b ≡ some b'
      → Mode o b
      → Mode (opens c o) b'
  unfolding bank_execute bank_update
  bank_execute-Mode tick c o b b' e h = ground arith

  pub bank_execute-Allowed :
      (tick : ℕ) (c : Opcode) (o : Bool) (b b' : Bank)
      → bank_execute t tick c b ≡ some b'
      → Mode o b
      → Allowed c o
  unfolding bank_execute bank_update
  bank_execute-Allowed tick c o b b' e h = ground arith
