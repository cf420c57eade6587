-- ===== src/PayloadChecker/Run/Ends.antt =====
-- rowhammer_tester/payload/verify_payload.py: when the loop of `main` ends.
use mathlib.Core.Path.{subst}
use rowhammer_tester.Prelude.{
  ℕ, zero, suc, ◌+◌, ◌-◌, ◌*◌, ◌≤◌, ◌≡◌, ◌≢◌, refl, Bool, true, ◌&&◌, Option, none, some, List, [],
  ◌∷◌, get_elem?, drop, leb, arith, ap, ◌∙◌,
}
use rowhammer_tester.PayloadChecker.{Opcode, MemInstr, Instr, mem, nop_instr, jmp_instr, empty}
use rowhammer_tester.PayloadChecker.Run.{initial, check, Config, unfinished, run}
use rowhammer_tester.PayloadChecker.Run.Rounds.{
  plain, Ends, Straight, Straight-snoc, run_plain, run_jump, cast, Ends-le,
}

-- No loop has a JMP inside it: `since` is the number of instructions since the last one.
abbrev pub flat_from : ℕ → List Instr → Bool
flat_from since [] = true
flat_from since (jmp_instr op offset count ∷ p) = leb offset since && flat_from 0 p
flat_from since (i ∷ p) = flat_from (suc since) p

-- The rounds that are enough.
abbrev pub rounds_of : Instr → ℕ
rounds_of (jmp_instr op offset count) = count * suc offset + 1
rounds_of _ = 1

abbrev pub rounds : List Instr → ℕ
rounds [] = 1
rounds (i ∷ p) = rounds_of i + rounds p

drop-[] : {A : Type 0} (i : ℕ) (p : List A) → drop i p ≡ [] → get_elem? p i ≡ none
drop-[] zero [] e = refl
drop-[] zero (x ∷ p) e = cc
drop-[] (suc i) [] e = refl
drop-[] (suc i) (x ∷ p) e = drop-[] i p e

drop-∷ :
    {A : Type 0} (i : ℕ) (p q : List A) (x : A)
    → drop i p ≡ x ∷ q
    → (get_elem? p i ≡ some x) × (drop (suc i) p ≡ q)
drop-∷ zero [] q x e = cc
drop-∷ zero (y ∷ p) q x e = (cc, cc)
drop-∷ (suc i) [] q x e = cc
drop-∷ (suc i) (y ∷ p) q x e = drop-∷ i p q x e

module _ {R : Type 0} (execute : ℕ → MemInstr → R → Option R) (p : List Instr) where
  Straight-suffix :
      (k m n i j : ℕ) → m ≡ k + n → j ≡ i + k → Straight execute p i m → Straight execute p j n
  Straight-suffix zero m n i j e e' s =
      subst (λ k. Straight execute p k n) {x = i} {y = j} (omega (arith, e'))
        (subst (Straight execute p i) {x = m} {y = n} (omega (arith, e)) s)
  Straight-suffix (suc k) zero n i j e e' s = absurd (omega (arith, e))
  Straight-suffix (suc k) (suc m) n i j e e' (q, s) =
      Straight-suffix k m n (suc i) j (omega (arith, e)) (omega (arith, e')) s

  -- What `ends_from` shows for the rest `q` of the payload.
  abbrev EndsFrom : List Instr → Type 0
  EndsFrom q =
      (since i : ℕ) (c : Config R)
      → c.state.ip ≡ i
      → drop i p ≡ q
      → flat_from since q ≡ true
      → since ≤ i
      → Straight execute p (i - since) since
      → Ends execute p (rounds q) c

  Ends-plain :
      (x : Instr) (q : List Instr)
      → plain x ≡ true
      → EndsFrom q
      → (since i : ℕ) (c : Config R) → c.state.ip ≡ i
      → drop i p ≡ x ∷ q
      → flat_from (suc since) q ≡ true
      → since ≤ i
      → Straight execute p (i - since) since
      → Ends execute p (1 + rounds q) c
  Ends-plain x q h ih since i c at_i rest flat le s =
      let (here, next) = drop-∷ i p q x rest in
      let s' : Straight execute p (suc i - suc since) (suc since) =
        subst (λ k. Straight execute p k (suc since)) {x = i - since} {y = suc i - suc since}
          (omega arith)
          (Straight-snoc execute p (i - since) since i x s (omega (arith, le)) here h) in
      cast execute p (suc (rounds q)) (1 + rounds q) c (omega arith) (
        run_plain execute p (rounds q) x c (rw at_i here) h (λ c' e1 e2.
          ih (suc since) (suc i) c' (e1 ∙ ap suc at_i) next flat (omega (arith, le)) s'))

  Ends-jump :
      (op : Opcode) (offset count : ℕ) (q : List Instr)
      → EndsFrom q
      → (since i : ℕ) (c : Config R) → c.state.ip ≡ i
      → drop i p ≡ jmp_instr op offset count ∷ q
      → flat_from since (jmp_instr op offset count ∷ q) ≡ true
      → since ≤ i
      → Straight execute p (i - since) since
      → Ends execute p (count * suc offset + 1 + rounds q) c
  Ends-jump op offset count q ih since i c at_i rest flat le s =
      let (here, next) = drop-∷ i p q (jmp_instr op offset count) rest in
      let short : offset ≤ since = ground (arith, flat) in
      cast execute p (count * suc offset + suc (rounds q)) (count * suc offset + 1 + rounds q) c
        (omega arith)
        (run_jump execute p count offset count (rounds q) op c i at_i here
          (omega (arith, le, short))
          (Straight-suffix (since - offset) since offset (i - since) (i - offset)
            (omega (arith, short)) (omega (arith, short, le)) s)
          (omega arith) (λ c' e. ih 0 (suc i) c' e next (ground (arith, flat)) (omega arith) _))

  ends_from : (q : List Instr) → EndsFrom q
  unfolding run
  ends_from [] since i c at_i rest flat le s = rw (at_i, drop-[] i p rest) (λ x. cc)
  ends_from (jmp_instr op offset count ∷ q) since i c at_i rest flat le s =
      Ends-jump op offset count q (ends_from q) since i c at_i rest flat le s
  ends_from (mem m ∷ q) since i c at_i rest flat le s =
      Ends-plain (mem m) q refl (ends_from q) since i c at_i rest flat le s
  ends_from (nop_instr op t ∷ q) since i c at_i rest flat le s =
      Ends-plain (nop_instr op t) q refl (ends_from q) since i c at_i rest flat le s
  ends_from (empty ∷ q) since i c at_i rest flat le s =
      Ends-plain empty q refl (ends_from q) since i c at_i rest flat le s

  run-Ends :
      (fuel : ℕ) (c : Config R)
      → c.state.ip ≡ 0
      → flat_from 0 p ≡ true
      → rounds p ≤ fuel
      → run execute fuel p c ≢ unfinished
  run-Ends fuel c start flat enough =
      Ends-le execute p (rounds p) fuel c enough (ends_from p 0 0 c start refl flat (omega arith) _)

  -- A payload in which no loop has a JMP inside it is run through, to its end or to an instruction
  -- that is refused: with at least as many rounds as `rounds` counts, `main` does not run out of
  -- them, whatever the library and the timing message.
  pub check-Ends :
      (fresh : R) (verify : ℕ → Instr → Bool) (fields : List ℕ) (fuel : ℕ)
      → flat_from 0 p ≡ true
      → rounds p ≤ fuel
      → check execute fresh verify fields fuel p ≢ unfinished
  unfolding check
  check-Ends fresh verify fields fuel flat enough =
      ground (arith, run-Ends fuel (record { state = initial; rank = fresh }) refl flat enough)
