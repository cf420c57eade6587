-- ===== src/Playbook/Refresh.antt =====
-- The refreshes and the jump target of `encode_one_loop`.
use rowhammer_tester.Prelude.{
  ℕ, zero, suc, ◌+◌, ◌*◌, ◌^◌, ◌≤◌, ◌<◌, ◌≡◌, refl, sym, ap, ◌∙◌, ok-injective, Bool, true, false,
  some, none, List, [], ◌∷◌, ◌++◌, length, length-append, ltb, ltb→lt, Bool-cases, inl, inr, arith,
  ok, ◌>>=◌, >>=-eq-ok, assert-eq-ok,
}
use rowhammer_tester.OpCode.{act, pre}
use rowhammer_tester.OpCode.Width
use rowhammer_tester.Encoder.{Instruction, address}
use rowhammer_tester.Playbook.{
  Setup, LoopState, timed, new_jump, refresh_if_due, row_step, rows_loop, unrolled_loop,
  encode_one_loop,
}

module _ (log2_int : ℕ → ℕ) (setup : Setup) where
  abbrev pub row_time : ℕ
  row_time = setup.timings.tras + setup.timings.trp

  -- There is room for a row between two refreshes.
  abbrev pub HasRoom : Type 0
  HasRoom = setup.timings.trfc + row_time ≤ setup.timings.trefi

  -- What `n` rows more do to a loop.
  abbrev pub Grows : ℕ → LoopState → LoopState → Type 0
  Grows n s s' =
      (length s'.payload + s.local_refreshes ≡ length s.payload + 2 * n + s'.local_refreshes)
      × (s.local_refreshes ≤ s'.local_refreshes)

  abbrev is_due : LoopState → Bool
  is_due s = ltb setup.timings.trefi (s.accum + setup.timings.tras + setup.timings.trp)

  refreshed : LoopState → Instruction → LoopState
  refreshed s i = record {
    payload = s.payload ++ i ∷ [];
    accum = setup.timings.trfc;
    local_refreshes = s.local_refreshes + 1;
  }

  refresh_now :
      (s : LoopState)
      → is_due s ≡ true
      → refresh_if_due log2_int setup s
        ≡ timed setup.refresh_op setup.timings.trfc none >>= λ i. ok (refreshed s i)
  unfolding refresh_if_due refreshed
  refresh_now s h = rw h refl

  refresh_later : (s : LoopState) → is_due s ≡ false → refresh_if_due log2_int setup s ≡ ok s
  unfolding refresh_if_due
  refresh_later s h = rw h refl

  refreshed_lem :
      (s s' : LoopState) (i : Instruction)
      → HasRoom
      → refreshed s i ≡ s'
      → (s'.accum + row_time ≤ setup.timings.trefi) × Grows 0 s s'
  unfolding refreshed
  refreshed_lem s s' i room e = ground (arith, length-append s.payload (i ∷ []))

  refresh_cases :
      (s s' : LoopState)
      → HasRoom
      → refresh_if_due log2_int setup s ≡ ok s'
      → (s'.accum + row_time ≤ setup.timings.trefi) × Grows 0 s s'
  refresh_cases s s' room e = elim (Bool-cases (is_due s)) [
    | inl due ↦
        let (i, _, done) =
          >>=-eq-ok (timed setup.refresh_op setup.timings.trfc none) (λ i. ok (refreshed s i))
            (sym (refresh_now s due) ∙ e) in
        refreshed_lem s s' i room (ok-injective done)
    | inr early ↦ kept early (ok-injective (sym (refresh_later s early) ∙ e))
  ]
    where
      kept : is_due s ≡ false → s ≡ s' → (s'.accum + row_time ≤ setup.timings.trefi) × Grows 0 s s'
      kept early same = ground arith

  row_ended : LoopState → Instruction → Instruction → LoopState
  row_ended s a p = record s { payload = s.payload ++ a ∷ p ∷ []; accum = s.accum + row_time }

  row_ended_lem :
      (s t s' : LoopState) (a p : Instruction)
      → (t.accum + row_time ≤ setup.timings.trefi) × Grows 0 s t
      → row_ended t a p ≡ s'
      → (s'.accum ≤ setup.timings.trefi) × Grows 1 s s'
  unfolding row_ended
  row_ended_lem s t s' a p (early, grown) e = ground (arith, length-append t.payload (a ∷ p ∷ []))

  row_step_lem :
      (row : ℕ) (s s' : LoopState)
      → HasRoom
      → row_step log2_int setup row s ≡ ok s'
      → (s'.accum ≤ setup.timings.trefi) × Grows 1 s s'
  unfolding row_step row_ended
  row_step_lem row s s' room e =
      let (t, refreshed_ok, rest) = >>=-eq-ok (refresh_if_due log2_int setup s) _ e in
      let (a, _, rest) =
        >>=-eq-ok (address log2_int setup.encoder setup.rank setup.bank (some row) none) _ rest in
      let (activate, _, rest) = >>=-eq-ok (timed act setup.timings.tras (some a)) _ rest in
      let (p, _, rest) =
        >>=-eq-ok (address log2_int setup.encoder setup.rank 0 none (some (2 ^ 10))) _ rest in
      let (precharge, _, rest) = >>=-eq-ok (timed pre setup.timings.trp (some p)) _ rest in
      row_ended_lem s t s' activate precharge (refresh_cases s t room refreshed_ok)
        (ok-injective rest)

  -- With room for a row between two refreshes, and at most tREFI cycles counted at the start:
  -- after rows have been appended, the cycles that are counted since the last refresh began do not
  -- exceed tREFI. Each row has appended two Instructions, and the others are the refreshes that
  -- were counted.
  pub rows_loop-Grows :
      (rows : List ℕ) (s s' : LoopState)
      → HasRoom
      → s.accum ≤ setup.timings.trefi
      → rows_loop log2_int setup rows s ≡ ok s'
      → (s'.accum ≤ setup.timings.trefi) × Grows (length rows) s s'
  unfolding rows_loop
  rows_loop-Grows [] s s' room early e = let same = ok-injective e in ground arith
  rows_loop-Grows (row ∷ rows) s s' room early e =
      let (t, stepped, rest) = >>=-eq-ok (row_step log2_int setup row s) _ e in
      let (early', grown) = row_step_lem row s t room stepped in
      let (late, grown') = rows_loop-Grows rows t s' room early' rest in
      (late, (omega arith, omega arith))

  unrolled_loop_lem :
      (n : ℕ) (s s' : LoopState)
      → HasRoom
      → s.accum ≤ setup.timings.trefi
      → unrolled_loop log2_int setup n s ≡ ok s'
      → Grows (n * length setup.row_sequence) s s'
  unfolding unrolled_loop
  unrolled_loop_lem zero s s' room early e = let same = ok-injective e in ground arith
  unrolled_loop_lem (suc n) s s' room early e =
      let (t, rows_done, rest) = >>=-eq-ok (rows_loop log2_int setup setup.row_sequence s) _ e in
      let (early', grown) = rows_loop-Grows setup.row_sequence s t room early rows_done in
      let grown' = unrolled_loop_lem n t s' room early' rest in (omega arith, omega arith)

  -- With room for the first refresh and for a row after each: the payload that `encode_one_loop`
  -- returns, if it raises nothing, ends with a LOOP of the given count whose jump is below 2 ^ 17,
  -- and before that LOOP stand as many Instructions as the payload had and the jump together.
  pub encode_one_loop-jump :
      (unrolled rolled : ℕ) (payload payload' : List Instruction) (refreshes : ℕ)
      → HasRoom
      → setup.timings.trfc + 1 ≤ setup.timings.trefi
      → encode_one_loop log2_int setup unrolled rolled payload ≡ ok (payload', refreshes)
      → (before : List Instruction) × (last : Instruction) × (jump : ℕ) × (payload'
          ≡ before ++ last ∷ [])
        × (new_jump rolled jump ≡ ok last)
        × (length before ≡ length payload + jump)
        × (jump < 2 ^ 17)
  unfolding encode_one_loop
  encode_one_loop-jump unrolled rolled payload payload' refreshes room start e =
      let (first, _, rest) = >>=-eq-ok (timed setup.refresh_op setup.timings.trfc none) _ e in
      let (s, loops_done, rest) = >>=-eq-ok (unrolled_loop log2_int setup unrolled _) _ rest in
      let grown = unrolled_loop_lem unrolled _ s room start loops_done in
      let (fits, rest) =
        assert-eq-ok
          (ltb (2 * unrolled * length setup.row_sequence + s.local_refreshes) (2 ^ Width.loop_jump))
          _ rest in
      let (last, jump_ok, rest) = >>=-eq-ok (new_jump rolled _) _ rest in
      (
        s.payload,
        last,
        2 * unrolled * length setup.row_sequence + s.local_refreshes,
        sym (ap (λ r. r.0) (ok-injective rest)),
        jump_ok,
        ground (arith, length-append payload (first ∷ [])),
        ltb→lt _ _ fits,
      )
