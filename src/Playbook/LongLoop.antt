-- ===== src/Playbook/LongLoop.antt =====
-- A count of repetitions above the 12-bit LOOP_COUNT, split into several loops.
use rowhammer_tester.Prelude.{ℕ, zero, suc, ◌+◌, ◌*◌, ◌/◌, ◌^◌, ◌<◌, ◌≡◌, refl, arith}
use rowhammer_tester.Playbook.{loop_count, n_loops, count_max}

-- How often the loops from the index `i` run their bodies, for `left` of them: a LOOP with a count
-- runs its body once more than it counts.
abbrev pub runs : ℕ → ℕ → ℕ → ℕ
runs rolled zero i = 0
runs rolled (suc left) i = (loop_count rolled i + 1) + runs rolled left (i + 1)

full_runs : (rolled left i : ℕ) → runs rolled left (suc i) ≡ left * 2 ^ 12
unfolding loop_count
full_runs rolled zero i = omega arith
full_runs rolled (suc left) i =
    let e : suc i + 1 ≡ suc (i + 1) = omega arith in
    rw e (omega (arith, full_runs rolled left (i + 1)))

-- Every loop count fits the LOOP_COUNT field, and all the loops together run their bodies exactly
-- `rolled` times.
pub runs-n_loops :
    (rolled : ℕ)
    → ((i : ℕ) → loop_count rolled i < 2 ^ 12) × (runs rolled (n_loops rolled) 0 ≡ rolled)
unfolding loop_count n_loops
runs-n_loops rolled = (fits, total)
  where
    fits : (i : ℕ) → loop_count rolled i < 2 ^ 12
    fits zero = ground arith
    fits (suc i) = omega arith

    split : (n : ℕ) → (rolled + count_max) / 2 ^ 12 ≡ n → runs rolled n 0 ≡ rolled
    split zero e = omega arith
    split (suc n) e = ground (arith, full_runs rolled n 0)

    total : runs rolled ((rolled + count_max) / 2 ^ 12) 0 ≡ rolled
    total = split ((rolled + count_max) / 2 ^ 12) refl
