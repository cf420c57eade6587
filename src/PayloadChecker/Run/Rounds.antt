-- ===== src/PayloadChecker/Run/Rounds.antt =====
-- rowhammer_tester/payload/verify_payload.py: rounds of the loop of `main`, and when what
-- is behind them ends.
use mathlib.Core.Path.{subst}
use rowhammer_tester.Prelude.{
  ℕ, zero, suc, ◌+◌, ◌-◌, ◌*◌, ◌≤◌, ◌≡◌, ◌≢◌, refl, Bool, true, false, Option, none, some, List,
  get_elem?, ltb, arith, Option-cases, Bool-cases, ap, ◌∙◌, sym, inl, inr,
}
use rowhammer_tester.PayloadChecker.{Opcode, MemInstr, Instr, mem, nop_instr, jmp_instr, empty}
use rowhammer_tester.PayloadChecker.Run.{
  State, Config, accepted, unfinished, ticked, step, jump, run, run_on,
}

abbrev pub plain : Instr → Bool
plain (jmp_instr op offset count) = false
plain _ = true

module _ {R : Type 0} (execute : ℕ → MemInstr → R → Option R) (p : List Instr) where
  abbrev pub Ends : ℕ → Config R → Type 0
  Ends fuel c = run execute fuel p c ≢ unfinished

  -- `n` instructions from `i` on that are no JMP.
  abbrev pub Straight : ℕ → ℕ → Type 0
  Straight i zero = Unit
  Straight i (suc n) =
      ((x : Instr) × (get_elem? p i ≡ some x) × (plain x ≡ true)) × Straight (suc i) n

  pub Straight-snoc :
      (i n j : ℕ) (x : Instr)
      → Straight i n
      → j ≡ i + n
      → get_elem? p j ≡ some x
      → plain x ≡ true
      → Straight i (suc n)
  Straight-snoc i zero j x s at_j e h =
      ((x, subst (λ k. get_elem? p k ≡ some x) {x = j} {y = i} (omega (arith, at_j)) e, h), _)
  Straight-snoc i (suc n) j x (q, s) at_j e h =
      (q, Straight-snoc (suc i) n j x s (omega (arith, at_j)) e h)

  run_round :
      (fuel : ℕ) (x : Instr) (c : Config R)
      → get_elem? p c.state.ip ≡ some x
      → run execute (suc fuel) p c ≡ run_on execute (run execute fuel p) (step execute x c)
  unfolding run
  run_round fuel x c e = rw e refl

  pub run_plain :
      (fuel : ℕ) (x : Instr) (c : Config R)
      → get_elem? p c.state.ip ≡ some x
      → plain x ≡ true
      → ((c' : Config R)
          → c'.state.ip ≡ suc c.state.ip
          → c'.state.loop ≡ c.state.loop
          → Ends fuel c')
      → Ends (suc fuel) c
  unfolding step
  run_plain fuel (mem m) c e h next =
      rw (run_round fuel (mem m) c e) (elim (Option-cases (execute c.state.tick m c.rank)) [
        | inl q ↦ rw q (λ x. cc)
        | inr (r, q) ↦ rw q (next _ (omega arith) refl)
      ])
  run_plain fuel (nop_instr op t) c e h next =
      rw (run_round fuel (nop_instr op t) c e) (next _ (omega arith) refl)
  run_plain fuel (jmp_instr op offset count) c e h next = cc
  run_plain fuel empty c e h next = rw (run_round fuel empty c e) (λ x. cc)

  Ends-suc : (fuel : ℕ) (c : Config R) → Ends fuel c → Ends (suc fuel) c
  unfolding run
  Ends-suc zero c ends = absurd (ends refl)
  Ends-suc (suc fuel) c ends = elim (Option-cases (get_elem? p c.state.ip)) [
    | inl e ↦ rw (run_at_none (suc fuel) c e) (λ x. cc)
    | inr (x, e) ↦
        rw (run_round (suc fuel) x c e)
          (Ends-on fuel (Ends-suc fuel) (step execute x c) (rw (sym (run_round fuel x c e)) ends))
  ]
    where
      run_at_none :
          (f : ℕ) (d : Config R)
          → get_elem? p d.state.ip ≡ none
          → run execute (suc f) p d ≡ accepted d.state
      run_at_none f d e = rw e refl

      Ends-on :
          (f : ℕ) (go : (d : Config R) → Ends f d → Ends (suc f) d) (o : Option (Config R))
          → (run_on execute (run execute f p) o ≢ unfinished)
          → (run_on execute (run execute (suc f) p) o ≢ unfinished)
      Ends-on f go none ends = ends
      Ends-on f go (some c') ends = go c' ends

  pub cast : (a b : ℕ) (c : Config R) → a ≡ b → Ends a c → Ends b c
  cast a b c e = subst (λ k. Ends k c) {x = a} {y = b} e

  Ends-more : (k fuel : ℕ) (c : Config R) → Ends fuel c → Ends (k + fuel) c
  Ends-more zero fuel c ends = cast fuel (0 + fuel) c (omega arith) ends
  Ends-more (suc k) fuel c ends =
      cast (suc (k + fuel)) (suc k + fuel) c (omega arith)
        (Ends-suc (k + fuel) c (Ends-more k fuel c ends))

  pub Ends-le : (a b : ℕ) (c : Config R) → a ≤ b → Ends a c → Ends b c
  Ends-le a b c le ends = cast ((b - a) + a) b c (omega (arith, le)) (Ends-more (b - a) a c ends)

  run-Straight :
      (n fuel i : ℕ) (c : Config R)
      → c.state.ip ≡ i
      → Straight i n
      → ((c' : Config R) → c'.state.ip ≡ i + n → c'.state.loop ≡ c.state.loop → Ends fuel c')
      → Ends (n + fuel) c
  run-Straight zero fuel i c at_i s next =
      cast fuel (0 + fuel) c (omega arith) (next c (omega (arith, at_i)) refl)
  run-Straight (suc n) fuel i c at_i ((x, e, h), s) next =
      cast (suc (n + fuel)) (suc n + fuel) c (omega arith) (
        run_plain (n + fuel) x c (rw at_i e) h (λ c' e1 e2.
          run-Straight n fuel (suc i) c' (e1 ∙ ap suc at_i) s
            (λ c'' f1 f2. next c'' (omega (arith, f1)) (f2 ∙ e2))))

  jump_out :
      (offset count : ℕ) (s : State)
      → ltb s.loop count ≡ false
      → (jump offset count s).ip ≡ suc s.ip
  jump_out offset count s e = ground arith

  jump_back :
      (offset count : ℕ) (s : State)
      → ltb s.loop count ≡ true
      → ((jump offset count s).ip ≡ s.ip - offset) × ((jump offset count s).loop ≡ s.loop + 1)
  jump_back offset count s e = ground arith

  run_out :
      (offset count fuel : ℕ) (op : Opcode) (c : Config R) (j : ℕ)
      → c.state.ip ≡ j
      → get_elem? p j ≡ some (jmp_instr op offset count)
      → ltb c.state.loop count ≡ false
      → ((c' : Config R) → c'.state.ip ≡ suc j → Ends fuel c')
      → Ends (suc fuel) c
  unfolding step
  run_out offset count fuel op c j at_j e out next =
      rw (run_round fuel (jmp_instr op offset count) c (rw at_j e)) (
        next (record c { state = jump offset count (ticked op c.state) })
          (jump_out offset count (ticked op c.state) out ∙ ap suc at_j))

  more_rounds : (a b f : ℕ) → suc (b + (a * suc b + suc f)) ≡ suc a * suc b + suc f
  more_rounds a b f = ground arith

  pub run_jump :
      (rest offset count fuel : ℕ) (op : Opcode) (c : Config R) (j : ℕ)
      → c.state.ip ≡ j
      → get_elem? p j ≡ some (jmp_instr op offset count)
      → offset ≤ j
      → Straight (j - offset) offset
      → count ≤ c.state.loop + rest
      → ((c' : Config R) → c'.state.ip ≡ suc j → Ends fuel c')
      → Ends (rest * suc offset + suc fuel) c
  unfolding step
  run_jump zero offset count fuel op c j at_j e back s enough next =
      cast (suc fuel) (0 * suc offset + suc fuel) c (omega arith)
        (run_out offset count fuel op c j at_j e (ground arith) next)
  run_jump (suc rest) offset count fuel op c j at_j e back s enough next =
      elim (Bool-cases (ltb c.state.loop count)) [
        | inl e' ↦
            let again : Config R = record c { state = jump offset count (ticked op c.state) } in
            let (ip, loop) = jump_back offset count (ticked op c.state) e' in
            cast (suc (offset + (rest * suc offset + suc fuel))) (suc rest * suc offset + suc fuel)
              c (more_rounds rest offset fuel)
              (rw
                (run_round (offset + (rest * suc offset + suc fuel)) (jmp_instr op offset count) c
                  (rw at_j e))
                (run-Straight offset (rest * suc offset + suc fuel) (j - offset) again
                  (ip ∙ ap (λ (k : ℕ). k - offset) at_j) s
                  (λ c' at_c' same_loop.
                    run_jump rest offset count fuel op c' j (omega (arith, at_c', back)) e back s
                      (omega (arith, enough, same_loop, loop)) next)))
        | inr e' ↦
            Ends-le (suc fuel) (suc rest * suc offset + suc fuel) c (omega arith)
              (run_out offset count fuel op c j at_j e e' next)
      ]
