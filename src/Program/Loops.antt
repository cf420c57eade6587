-- ===== src/Program/Loops.antt =====
-- Straight-line code and loops of the instruction set.
use rowhammer_tester.Prelude.{
  ℕ, zero, suc, ◌+◌, ◌*◌, ◌^◌, ◌<◌, ◌≡◌, ◌≢◌, refl, ap, ◌∙◌, sym, false, Option, some, none, arith,
  List, [], ◌∷◌, ◌++◌,
}
use mathlib.Core.List.{append_assoc}
use rowhammer_tester.OpCode.{value, loop}
use rowhammer_tester.Decoder.{Geometry, decode}
use rowhammer_tester.Executor.{Command}
use rowhammer_tester.Program.{
  next, arch_step, arch_run, after, command_of, slice_cycles, jump_cycles,
}

abbrev pub Run : Type 0
Run = Option (List (ℕ × Command) × ℕ)

-- Commands in front of those of a run.
abbrev pub prefix : List (ℕ × Command) → Run → Run
prefix cs none = none
prefix cs (some (rest, end)) = some (cs ++ rest, end)

prefix-append :
    (xs ys : List (ℕ × Command)) (r : Run) → prefix xs (prefix ys r) ≡ prefix (xs ++ ys) r
prefix-append xs ys none = refl
prefix-append xs ys (some (rest, end)) = ap (λ l. some (l, end)) (sym (append_assoc xs ys rest))

prefix-nil : (r : Run) → prefix [] r ≡ r
prefix-nil none = refl
prefix-nil (some (rest, end)) = refl

after-prefix :
    (t : ℕ) (c : Command) (xs : List (ℕ × Command)) (r : Run)
    → after t (some c) (prefix xs r) ≡ prefix ((t, c) ∷ xs) r
after-prefix t c xs none = refl
after-prefix t c xs (some (rest, end)) = refl

after-none : (t : ℕ) (r : Run) → after t none r ≡ r
after-none t none = refl
after-none t (some (rest, end)) = refl

module _ (addrbits : ℕ) (mem : ℕ → ℕ) (g : Geometry) (rdphase : ℕ) where
  -- `n` words from `i` that are no LOOP and no STOP.
  abbrev pub Plain : ℕ → ℕ → Type 0
  Plain i zero = Unit
  Plain i (suc n) =
      ((decode g (mem i)).op_code ≢ value loop)
      × ((decode g (mem i)).stop ≡ false)
      × Plain (i + 1) n

  -- How long they take, and what they send.
  abbrev pub block_cycles : ℕ → ℕ → ℕ
  block_cycles i zero = 0
  block_cycles i (suc n) = slice_cycles (decode g (mem i)) + block_cycles (i + 1) n

  abbrev pub block_sent : ℕ → ℕ → ℕ → List (ℕ × Command)
  block_sent t i zero = []
  block_sent t i (suc n) =
      (t, command_of rdphase (decode g (mem i)))
      ∷ block_sent (t + slice_cycles (decode g (mem i))) (i + 1) n

  arch_step_plain :
      (i loops : ℕ)
      → i + 1 < 2 ^ addrbits
      → (decode g (mem i)).op_code ≢ value loop
      → (decode g (mem i)).stop ≡ false
      → arch_step addrbits mem g rdphase (record { at = i; loops = loops })
        ≡ next
            (record { at = i + 1; loops = loops })
            (slice_cycles (decode g (mem i)))
            (some (command_of rdphase (decode g (mem i))))
  unfolding arch_step
  arch_step_plain i loops inside other go = ground arith

  -- Straight-line code runs through, one command for each word.
  arch_run_block :
      (n f t i loops : ℕ)
      → i + n < 2 ^ addrbits
      → Plain i n
      → arch_run addrbits mem g rdphase (n + f) t (record { at = i; loops = loops })
        ≡ prefix (block_sent t i n) (
            arch_run addrbits mem g rdphase f
              (t + block_cycles i n)
              (record { at = i + n; loops = loops }))
  unfolding arch_run
  arch_run_block zero f t i loops inside p =
      let e0 : 0 + f ≡ f = omega arith in
      let e1 : t + 0 ≡ t = omega arith in
      let e2 : i + 0 ≡ i = omega arith in
      rw (e0, e1, e2) (sym (prefix-nil (arch_run addrbits mem g rdphase f t _)))
  arch_run_block (suc n) f t i loops inside (other, go, p) =
      let c = slice_cycles (decode g (mem i)) in
      let e0 : suc n + f ≡ suc (n + f) = omega arith in
      let e1 : t + (c + block_cycles (i + 1) n) ≡ t + c + block_cycles (i + 1) n = omega arith in
      let e2 : i + suc n ≡ i + 1 + n = omega arith in
      rw (e0, e1, e2, arch_step_plain i loops (omega arith) other go)
        (ap (after t (some (command_of rdphase (decode g (mem i)))))
            (arch_run_block n f (t + c) (i + 1) loops (omega arith) p)
          ∙ after-prefix t _ _ _)

  -- `r` more jumps of a loop over the `n` words from `j`, and the LOOP that closes it.
  abbrev pub loop_cycles : ℕ → ℕ → ℕ → ℕ
  loop_cycles j n zero = block_cycles j n + 1
  loop_cycles j n (suc r) = block_cycles j n + (jump_cycles + loop_cycles j n r)

  abbrev pub loop_sent : ℕ → ℕ → ℕ → ℕ → List (ℕ × Command)
  loop_sent t j n zero = block_sent t j n
  loop_sent t j n (suc r) = block_sent t j n ++ loop_sent (t + block_cycles j n + jump_cycles) j n r

  -- The word at `i` closes a loop over the `n` words before it.
  pub record Closes (i n count : ℕ) : Type 0 where
    pub is_loop : (decode g (mem i)).op_code ≡ value loop
    pub jumps_by : (decode g (mem i)).loop_jump ≡ n
    pub counts : (decode g (mem i)).loop_count ≡ count

  arch_step_leave :
      (i n count : ℕ)
      → i + 1 < 2 ^ addrbits
      → Closes i n count
      → arch_step addrbits mem g rdphase (record { at = i; loops = count })
        ≡ next (record { at = i + 1; loops = 0 }) 1 none
  unfolding arch_step
  arch_step_leave i n count inside h = ground arith

  arch_step_jump :
      (i j n count loops : ℕ)
      → j + n ≡ i
      → Closes i n count
      → loops ≢ count
      → loops + 1 < 2 ^ 12
      → arch_step addrbits mem g rdphase (record { at = i; loops = loops })
        ≡ next (record { at = j; loops = loops + 1 }) jump_cycles none
  unfolding arch_step
  arch_step_jump i j n count loops e h more fits = ground arith

  -- A loop of plain instructions under a LOOP with some count: its body is executed as often as
  -- there are jumps left, and once more, and the loop counter is 0 behind it.
  pub arch_run_loop :
      (r f t j n loops count : ℕ)
      → j + n + 1 < 2 ^ addrbits
      → Plain j n
      → Closes (j + n) n count
      → count < 2 ^ 12
      → loops + r ≡ count
      → arch_run addrbits mem g rdphase (suc n * suc r + f) t (record { at = j; loops = loops })
        ≡ prefix (loop_sent t j n r) (
            arch_run addrbits mem g rdphase f
              (t + loop_cycles j n r)
              (record { at = j + n + 1; loops = 0 }))
  unfolding arch_run
  arch_run_loop zero f t j n loops count inside p closes fits e =
      let b = block_cycles j n in
      let e0 : suc n * 1 + f ≡ n + suc f = omega arith in
      let e1 : t + (b + 1) ≡ t + b + 1 = omega arith in
      let e2 : loops ≡ count = omega arith in
      rw
        (
          e0,
          e1,
          e2,
          arch_run_block n (suc f) t j count (omega arith) p,
          arch_step_leave (j + n) n count inside closes,
        )
        (ap (prefix (block_sent t j n)) (after-none (t + b) _))
  arch_run_loop (suc r) f t j n loops count inside p closes fits e =
      let b = block_cycles j n in
      let e0 : suc n * suc (suc r) + f ≡ n + suc (suc n * suc r + f) = omega arith in
      let e1 : t + (b + (3 + loop_cycles j n r)) ≡ t + b + 3 + loop_cycles j n r = omega arith in
      rw
        (
          e0,
          e1,
          arch_run_block n (suc (suc n * suc r + f)) t j loops (omega arith) p,
          arch_step_jump (j + n) j n count loops refl closes (omega arith) (omega arith),
        )
        (ap (prefix (block_sent t j n)) (
            after-none (t + b) _
            ∙ arch_run_loop r f (t + b + 3) j n (loops + 1) count inside p closes fits
                (omega arith))
          ∙ prefix-append _ _ _)

  -- The cycles of a loop, written out: the body `r + 1` times, the jumps, and leaving.
  pub loop_cycles_lem :
      (j n r : ℕ) → loop_cycles j n r ≡ suc r * block_cycles j n + jump_cycles * r + 1
  loop_cycles_lem j n zero = omega arith
  loop_cycles_lem j n (suc r) = omega (arith, loop_cycles_lem j n r)
