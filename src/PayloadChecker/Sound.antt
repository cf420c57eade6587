-- ===== src/PayloadChecker/Sound.antt =====
-- rowhammer_tester/payload/ddr3lib.py and ddr4lib.py: what a Rank owes the runs, and what follows.
use mathlib.Core.Path.{subst}
use rowhammer_tester.Prelude.{
  ℕ, ◌+◌, ◌≤◌, ◌≡◌, sym, Bool, true, false, Option, some, List, [], ◌∷◌, All, All-map,
  if◌then◌else◌, arith, Bool-cases, inl, inr,
}
use rowhammer_tester.PayloadChecker.{MemInstr, Instr, CoreTiming, never}
use rowhammer_tester.PayloadChecker.Bank.{Bank, bank_execute}
use rowhammer_tester.PayloadChecker.Bank.Limits.{
  opens, BankCovers, Mode, bank_execute-BankCovers, bank_execute-fresh, bank_execute-gap,
  bank_execute-Mode, bank_execute-Allowed,
}
use rowhammer_tester.PayloadChecker.Faw.{last_four}
use rowhammer_tester.PayloadChecker.Run.{Config}
use rowhammer_tester.PayloadChecker.Run.Follows.{Event, issued, issued-Inv}
use rowhammer_tester.PayloadChecker.Legal.{add_act, acts, FawOk, is_open, Apart, Legal}

-- A rank with its `Execute`: its banks and `prev_acts`, and what it remembers of a command at `t0`.
pub record RankLaws {R : Type 0} (execute : ℕ → MemInstr → R → Option R) (t : CoreTiming)
    : Type 1 where
  pub same : MemInstr → MemInstr → Bool
  pub gap : MemInstr → MemInstr → ℕ
  pub bank_of : R → MemInstr → Bank
  pub acts_of : R → List ℕ
  pub Covers : (now t0 : ℕ) → MemInstr → R → Type 0
  pub same_self : (m : MemInstr) → same m m ≡ true
  pub same_bank : (m x : MemInstr) (r : R) → same m x ≡ true → bank_of r x ≡ bank_of r m
  pub later : (a b t0 : ℕ) (e : MemInstr) (r : R) → a ≤ b → Covers a t0 e r → Covers b t0 e r
  pub keeps :
      (tick t0 : ℕ) (e m : MemInstr) (r r' : R)
      → execute tick m r ≡ some r'
      → t0 ≤ tick
      → Covers tick t0 e r
      → Covers tick t0 e r'
  pub covers :
      (tick : ℕ) (m : MemInstr) (r r' : R) → execute tick m r ≡ some r' → Covers tick tick m r'
  pub spaced :
      (tick t0 : ℕ) (e m : MemInstr) (r r' : R)
      → execute tick m r ≡ some r'
      → t0 ≤ tick
      → Covers tick t0 e r
      → t0 + gap e m ≤ tick
  pub on_bank :
      (tick : ℕ) (m : MemInstr) (r r' : R)
      → execute tick m r ≡ some r'
      → (b : Bank) × (bank_execute t tick m.opcode (bank_of r m) ≡ some b)
        × ((x : MemInstr) → bank_of r' x ≡ (if same m x then b else bank_of r x))
  pub acts_next :
      (tick : ℕ) (m : MemInstr) (r r' : R) (l : List ℕ)
      → execute tick m r ≡ some r'
      → acts_of r ≡ last_four l
      → acts_of r' ≡ last_four (add_act m.opcode tick l)
  pub faw_kept :
      (tick : ℕ) (m : MemInstr) (r r' : R) (l : List ℕ)
      → execute tick m r ≡ some r'
      → acts_of r ≡ last_four l
      → FawOk t.faw tick m.opcode l

module _ {R : Type 0} (execute : ℕ → MemInstr → R → Option R) (t : CoreTiming)
    (laws : RankLaws execute t) where
  -- That a rank remembers an event.
  pub record Known (now : ℕ) (r : R) (e : Event) : Type 0 where
    pub past : e.tick ≤ now
    pub by_rank : laws.Covers now e.tick e.instr r
    pub by_bank : BankCovers t e.tick e.instr.opcode (laws.bank_of r e.instr)

  pub record Inv (now : ℕ) (r : R) (h : List Event) : Type 0 where
    pub legal : Legal laws.same t laws.gap h
    pub known : All (Known now r) h
    pub modes : (x : MemInstr) → Mode (is_open laws.same h x) (laws.bank_of r x)
    pub recent : laws.acts_of r ≡ last_four (acts h)

  Inv-later : (a b : ℕ) (r : R) (h : List Event) → a ≤ b → Inv a r h → Inv b r h
  Inv-later a b r h le inv = record {
    legal = inv.legal;
    known =
        All-map
          (λ e k. record {
            past = omega (arith, k.past);
            by_rank = laws.later a b e.tick e.instr r le k.by_rank;
            by_bank = k.by_bank;
          })
          h inv.known;
    modes = inv.modes;
    recent = inv.recent;
  }

  module _ (tick : ℕ) (m : MemInstr) (r r' : R) (done : execute tick m r ≡ some r') (b : Bank)
      (bank_done : bank_execute t tick m.opcode (laws.bank_of r m) ≡ some b)
      (banks : (x : MemInstr)
        → laws.bank_of r' x ≡ (if laws.same m x then b else laws.bank_of r x)) where
    abbrev now_event : Event
    now_event = record { tick = tick; instr = m }

    -- A bank that is touched is `b`, another one as it was.
    at_bank :
        (P : Bank → Type 0) (x : MemInstr)
        → (laws.same m x ≡ true → P b)
        → (laws.same m x ≡ false → P (laws.bank_of r x))
        → P (laws.bank_of r' x)
    at_bank P x hit miss =
        subst P (sym (banks x))
          (elim (Bool-cases (laws.same m x)) [ inl e ↦ rw e (hit e) | inr e ↦ rw e (miss e) ])

    was :
        (P : Bank → Type 0) (x : MemInstr)
        → laws.same m x ≡ true
        → P (laws.bank_of r x)
        → P (laws.bank_of r m)
    was P x e = subst P (laws.same_bank m x r e)

    Known-next : (e : Event) → Known tick r e → Known tick r' e
    Known-next e k = record {
      past = k.past;
      by_rank = laws.keeps tick e.tick e.instr m r r' done k.past k.by_rank;
      by_bank =
          at_bank (BankCovers t e.tick e.instr.opcode) e.instr
            (λ q.
              bank_execute-BankCovers t e.tick tick e.instr.opcode m.opcode (laws.bank_of r m) b
                bank_done k.past (was (BankCovers t e.tick e.instr.opcode) e.instr q k.by_bank))
            (λ q. k.by_bank);
    }

    Known-new : Known tick r' now_event
    Known-new = record {
      past = omega arith;
      by_rank = laws.covers tick m r r' done;
      by_bank =
          at_bank (BankCovers t tick m.opcode) m
            (λ q. bank_execute-fresh t tick m.opcode (laws.bank_of r m) b bank_done)
            (λ q. absurd (cc (q, laws.same_self m)));
    }

    apart : (e : Event) → Known tick r e → Apart laws.same t laws.gap now_event e
    apart e k = (
      laws.spaced tick e.tick e.instr m r r' done k.past k.by_rank,
      elim (Bool-cases (laws.same m e.instr)) [
        | inl q ↦ rw q (
            bank_execute-gap t e.tick tick e.instr.opcode m.opcode (laws.bank_of r m) b bank_done
              k.past (was (BankCovers t e.tick e.instr.opcode) e.instr q k.by_bank))
        | inr q ↦ rw q (omega (arith, k.past))
      ],
    )

    Mode-next :
        (o : Bool) (x : MemInstr)
        → Mode o (laws.bank_of r x)
        → Mode (if laws.same m x then opens m.opcode o else o) (laws.bank_of r' x)
    Mode-next o x h =
        at_bank (Mode (if laws.same m x then opens m.opcode o else o)) x
          (λ q. rw q (
            bank_execute-Mode t tick m.opcode o (laws.bank_of r m) b bank_done
              (was (Mode o) x q h)))
          (λ q. rw q h)

    keeps_all : (h : List Event) → Inv tick r h → Inv tick r' (now_event ∷ h)
    keeps_all h inv = record {
      legal = (
        (
          All-map apart h inv.known,
          bank_execute-Allowed t tick m.opcode (is_open laws.same h m) (laws.bank_of r m) b
              bank_done (inv.modes m),
          laws.faw_kept tick m r r' (acts h) done inv.recent,
        ),
        inv.legal,
      );
      known = (Known-new, All-map Known-next h inv.known);
      modes = λ x. Mode-next (is_open laws.same h x) x (inv.modes x);
      recent = laws.acts_next tick m r r' (acts h) done inv.recent;
    }

  Inv-keeps :
      (tick : ℕ) (m : MemInstr) (r r' : R) (h : List Event)
      → execute tick m r ≡ some r'
      → Inv tick r h
      → Inv tick r' (record { tick = tick; instr = m } ∷ h)
  Inv-keeps tick m r r' h e inv =
      let (b, done, banks) = laws.on_bank tick m r r' e in
      keeps_all tick m r r' e b done banks h inv

  -- Every command that a run executes is legal behind those before it, from a rank of banks that
  -- are all closed, with no ACT to remember.
  pub issued-Legal :
      (fuel : ℕ) (p : List Instr) (c : Config R)
      → ((x : MemInstr) → (laws.bank_of c.rank x).next_rd ≡ never)
      → laws.acts_of c.rank ≡ []
      → Legal laws.same t laws.gap (issued execute fuel p c [])
  issued-Legal fuel p c closed no_acts =
      let (now, r, inv) =
        issued-Inv execute Inv Inv-keeps Inv-later fuel p c []
          (record { legal = _; known = _; modes = closed; recent = no_acts }) in
      inv.legal
