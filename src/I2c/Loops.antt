-- ===== src/I2c/Loops.antt =====
-- rowhammer_tester/scripts/utils.py: the loops that `i2c_read` and `i2c_write` share, told of what is
-- pushed.
use mathlib.Core.List.{append_assoc}
use mathlib.Core.Path.{subst}
use rowhammer_tester.Prelude.{
  ℕ, zero, suc, ◌+◌, ◌-◌, ◌%◌, ◌≤◌, ◌≡◌, inl, inr, refl, sym, ap, ◌∙◌, Bool, true, false, List,
  ◌++◌, ◌==◌, ltb, length, arith, Bool-cases,
}
use rowhammer_tester.I2c.{
  Reg, read_fifo_state, i2c_state, i2c_ctrl, i2c_start, Entry, World, write, passed, push_data,
  high, Loop, left, looping, Progress, aborted, wait_idle, abort_branch, transfer_loop,
}
use rowhammer_tester.I2c.Entries.{
  entries, data_entries, data_entries-append, entries-write, entries-push_data,
}

-- What a loop has pushed, if its result is as `P` says.
abbrev pub After :
    {A : Type 0} → (A → List Entry → Type 0) → (List Entry → Type 0) → Loop A → Type 0
After P Q (left a w) = P a (entries w.ops)
After P Q (looping w) = Q (entries w.ops)

module _ (answer : Reg → ℕ → ℕ) (data_of : ℕ → ℕ) (abort : ℕ) where
  pub wait_idle-entries :
      (fuel : ℕ) (w : World)
      → After
          (λ _ l. l ≡ entries w.ops)
          (λ l. l ≡ entries w.ops)
          (wait_idle answer data_of abort fuel w)
  unfolding wait_idle
  wait_idle-entries zero w = refl
  wait_idle-entries (suc fuel) w = elim (Bool-cases (answer i2c_state w.reads % 2 == 1)) [
    | inl e ↦ rw e refl
    | inr e ↦ rw e (wait_idle-entries fuel (passed 1 w))
  ]

  abort_branch-entries :
      (fuel : ℕ) (w : World)
      → After
          (λ _ l. l ≡ entries w.ops)
          (λ l. l ≡ entries w.ops)
          (abort_branch answer data_of abort fuel w)
  unfolding abort_branch
  abort_branch-entries fuel w =
      let cleared : World = write i2c_ctrl 256 w in
      let drained : World = passed (1 + high (answer read_fifo_state cleared.reads)) cleared in
      let restarted : World = write i2c_start 1 (write i2c_ctrl 1 drained) in
      let same : entries restarted.ops ≡ entries w.ops =
        entries-write i2c_start 1 (write i2c_ctrl 1 drained)
        ∙ entries-write i2c_ctrl 1 drained
        ∙ entries-write i2c_ctrl 256 w in
      subst
        (λ l0. After (λ _ l. l ≡ l0) (λ l. l ≡ l0) (wait_idle answer data_of abort fuel restarted))
        same (wait_idle-entries fuel restarted)

  module _ (len : ℕ) (round : Progress → World → Progress × World)
      (Inv : Progress → List Entry → Type 0)
      (keeps : (s : Progress) (w : World)
        → Inv s (entries w.ops)
        → Inv (round s w).0 (entries (round s w).1.ops)) where
    -- Left by its condition, or by an abort.
    abbrev pub Left : Bool × Progress → List Entry → Type 0
    Left (true, s) l = Inv s l × (len ≤ length s.ret)
    Left (false, s) l = Inv s l

    abbrev pub Some : List Entry → Type 0
    Some l = (s : Progress) × Inv s l

    aborted-Left :
        (s : Progress) (l0 : List Entry) (o : Loop (Unit {0}))
        → Inv s l0
        → After (λ _ l. l ≡ l0) (λ l. l ≡ l0) o
        → After Left Some (aborted s o)
    aborted-Left s l0 (left _ w) inv e = subst (Inv s) (sym e) inv
    aborted-Left s l0 (looping w) inv e = (s, subst (Inv s) (sym e) inv)

    pub transfer_loop-Left :
        (fuel : ℕ) (s : Progress) (w : World)
        → Inv s (entries w.ops)
        → After Left Some (transfer_loop answer data_of abort fuel len round s w)
    unfolding transfer_loop
    transfer_loop-Left zero s w inv = (s, inv)
    transfer_loop-Left (suc fuel) s w inv = elim (Bool-cases (ltb (length s.ret) len)) [
      | inr e ↦ rw e (inv, ground (arith, e))
      | inl e ↦ rw e (elim (Bool-cases (high (answer i2c_state w.reads) == abort)) [
        | inl q ↦ rw q (
            aborted-Left s (entries w.ops) (abort_branch answer data_of abort fuel (passed 1 w)) inv
              (abort_branch-entries fuel (passed 1 w)))
        | inr q ↦ rw q (
            transfer_loop-Left fuel (round s (passed 1 w)).0 (round s (passed 1 w)).1
              (keeps s (passed 1 w) inv))
      ])
    ]

-- A part of the data is pushed behind `base`.
abbrev pub Fed : List Entry → ℕ → (ℕ → ℕ) → ℕ → List Entry → Type 0
Fed base len bytes n l = (l ≡ base ++ data_entries len bytes n 0) × (n ≤ len)

-- `n` more entries.
pub Fed-more :
    (base : List Entry) (len : ℕ) (bytes : ℕ → ℕ) (n sent : ℕ) (w : World)
    → n ≤ len - sent
    → Fed base len bytes sent (entries w.ops)
    → Fed base len bytes (sent + n) (entries (push_data len bytes n sent w).ops)
Fed-more base len bytes n sent w le (e, fits) = (
  entries-push_data len bytes n sent w
      ∙ ap (λ l. l ++ data_entries len bytes n sent) e
      ∙ append_assoc base _ _
      ∙ ap (λ l. base ++ l)
          (data_entries-append len bytes sent n 0 sent (sent + n) (omega arith) (omega arith)),
  omega (arith, le, fits),
)
