-- ===== src/HalfDouble/Dilution.antt =====
-- The two ways in which a step sets the dilution, and what they keep.
use native.Mathlib.Nat.{mul-le-mul_right}
use rowhammer_tester.Prelude.{ℕ, ◌+◌, ◌-◌, ◌*◌, ◌/◌, ◌≤◌, ◌<◌, ◌≡◌, refl, true, false, arith, ok}
use rowhammer_tester.Playbook.{floor_div}
use rowhammer_tester.HalfDouble.{
  Params, Machine, AnalysisState, at_distance_one, update_param, next_row, dilute,
}
use rowhammer_tester.HalfDouble.Invariant.{IsUsable, IsConsistent, StateHolds}

-- The machine after the two helpers, where their division is defined.
abbrev pub fresh_row : Params → Machine → Machine
fresh_row p m = record {
  state = at_distance_one;
  iteration = m.iteration + 1;
  total_read_count = p.max_total_read_count;
  dilution = p.initial_dilution;
  read_count = p.max_total_read_count / p.initial_dilution;
  generator = record m.generator { distance_two = false; nr_rows = p.initial_dilution };
}

abbrev pub diluted : ℕ → AnalysisState → Machine → Machine
diluted amount after m = record m {
  state = after;
  dilution = amount;
  read_count = m.total_read_count / amount;
  generator = record m.generator { nr_rows = amount };
}

pub floor_div_lem : (a b : ℕ) → 0 < b → floor_div a b ≡ ok (a / b)
floor_div_lem a b h = ground arith

pub next_row_lem : (p : Params) (m : Machine) → IsUsable p → next_row p m ≡ ok (fresh_row p m)
unfolding next_row update_param
next_row_lem p m u = rw (floor_div_lem p.max_total_read_count p.initial_dilution u.some_rows) refl

pub fewer_times : (t s k : ℕ) → 0 < s → 0 < t - s → (t - s) * k + k ≤ t * k
fewer_times t s k pos left =
    let h : t - s + 1 ≤ t = omega arith in omega (arith, mul-le-mul_right k h)

pub dilute_lem :
    (p : Params) (amount : ℕ) (after : AnalysisState) (m : Machine)
    → 0 < amount
    → dilute p amount after m ≡ ok (diluted amount after m)
unfolding dilute update_param
dilute_lem p amount after m h = rw (floor_div_lem m.total_read_count amount h) refl

pub fresh_row-IsConsistent :
    (p : Params) (m : Machine)
    → IsUsable p
    → m.generator.max_attack_row_idx ≡ p.max_attack_row_idx
    → m.generator.double_sided ≡ true
    → IsConsistent p (fresh_row p m)
fresh_row-IsConsistent p m u b s = record {
  divided = refl;
  told = refl;
  some_dilution = u.some_rows;
  reads_bounded = omega arith;
  bounds = b;
  sides = s;
  state_holds = (refl, refl, omega arith);
}

pub diluted-IsConsistent :
    (p : Params) (amount : ℕ) (after : AnalysisState) (m : Machine)
    → 0 < amount
    → m.total_read_count ≤ p.max_total_read_count
    → m.generator.max_attack_row_idx ≡ p.max_attack_row_idx
    → m.generator.double_sided ≡ true
    → StateHolds p (diluted amount after m) after
    → IsConsistent p (diluted amount after m)
diluted-IsConsistent p amount after m pos r b s h = record {
  divided = refl;
  told = refl;
  some_dilution = pos;
  reads_bounded = r;
  bounds = b;
  sides = s;
  state_holds = h;
}
