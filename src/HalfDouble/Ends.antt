-- ===== src/HalfDouble/Ends.antt =====
-- The half double analysis ends, whatever is measured.
use native.Mathlib.Nat.{mul-le-mul_right}
use rowhammer_tester.Prelude.{
  ℕ, zero, suc, ◌+◌, ◌-◌, ◌*◌, ◌/◌, ◌%◌, ◌≤◌, ◌<◌, ◌≡◌, refl, ap, false, leb, arith, Option, some,
  List, [], Result, ok, Bool-cases, inl, inr,
}
use rowhammer_tester.RowMapping.{RowMapping}
use rowhammer_tester.RowGenerator.{modulo, attack_row, get_logical_victim, HalfDoubleConfig}
use rowhammer_tester.HalfDouble.{
  Params, Machine, AnalysisState, at_distance_one, at_distance_two, at_hammer_tolerance,
  at_max_dilution, initialize, initial_generator, done,
}
use rowhammer_tester.HalfDouble.Invariant.{
  IsUsable, IsConsistent, above, row_measure, Progress, same_row, later_row,
}
use rowhammer_tester.HalfDouble.Dilution.{floor_div_lem}
use rowhammer_tester.HalfDouble.Steps.{advance-Steps}
use rowhammer_tester.HalfDouble.Process.{
  Errors, Analysis, nothing_counted, see_rows, to_logical, process_errors, analyse, run_analysis,
}

-- More than the measurements that one row can take.
abbrev pub row_bound : Params → ℕ
row_bound p = p.max_total_read_count * (above p + 2) + 2 * above p + 4

-- More than the measurements that are left.
abbrev measurements_left : Params → Machine → ℕ
measurements_left p m =
    (p.max_attack_row_idx - 4 - m.iteration) * row_bound p + row_measure p m m.state

row_measure-below :
    (p : Params) (m : Machine) (s : AnalysisState)
    → m.total_read_count ≤ p.max_total_read_count
    → row_measure p m s < row_bound p
row_measure-below p m at_distance_one h = omega arith
row_measure-below p m at_distance_two h = omega arith
row_measure-below p m at_hammer_tolerance h = omega (arith, mul-le-mul_right (above p + 2) h)
row_measure-below p m at_max_dilution h = omega (arith, mul-le-mul_right (above p + 2) h)

module _ (p : Params) (m m' : Machine) (c : IsConsistent p m') where
  fewer_left :
      m.iteration < p.max_attack_row_idx - 4
      → Progress p m m'
      → measurements_left p m' < measurements_left p m
  fewer_left left (same_row same less) = rw same (omega arith)
  fewer_left left (later_row later) =
      let rows = p.max_attack_row_idx - 4 - m.iteration in
      let below = row_measure-below p m' m'.state c.reads_bounded in
      let e : p.max_attack_row_idx - 4 - m'.iteration + 1 ≡ rows = omega arith in
      omega (arith, ap (λ (t : ℕ). t * row_bound p) e)

  within :
      m.iteration < p.max_attack_row_idx - 4
      → Progress p m m'
      → m'.iteration ≤ p.max_attack_row_idx - 4
  within left (same_row same less) = omega arith
  within left (later_row later) = omega arith

victim_lem :
    (g : HalfDoubleConfig) (i : ℕ)
    → 4 < g.max_attack_row_idx
    → (v : ℕ) × (get_logical_victim g i ≡ ok v)
unfolding get_logical_victim attack_row
victim_lem g i h =
    let pos : 0 < g.max_attack_row_idx - 2 = omega arith in
    let some_rows : modulo (i + 2) (g.max_attack_row_idx - 2)
        ≡ ok ((i + 2) % (g.max_attack_row_idx - 2)) =
      ground arith in
    (g.attack_rows_start + (i + 2) % (g.max_attack_row_idx - 2), rw some_rows refl)

module _ (p : Params) (mapping : RowMapping) (u : IsUsable p) where
  process_errors-steps :
      (row_errors : List Errors) (a : Analysis)
      → IsConsistent p a.machine
      → a.machine.iteration < p.max_attack_row_idx - 4
      → (b : Analysis) × (process_errors p mapping row_errors a ≡ ok b)
        × IsConsistent p b.machine
        × Progress p a.machine b.machine
  unfolding process_errors
  process_errors-steps row_errors a c left =
      let (victim, e) =
        victim_lem a.machine.generator a.machine.iteration (let b = c.bounds in omega arith) in
      let f =
        see_rows a.machine victim (to_logical mapping row_errors [])
          (record { victim_flipped = false; victim_errors = 0; counts = a.counts }) in
      let s = advance-Steps p a.machine u c f.victim_flipped in
      (record { machine = s.after; counts = f.counts }, rw (e, s.returned) refl, s.kept, s.progress)

  -- How the analysis ends.
  abbrev pub Ended : Result (Option Analysis) → Type 0
  Ended r =
      (a : Analysis) × (r ≡ ok (some a))
      × (a.machine.iteration ≡ p.max_attack_row_idx - 4)
      × IsConsistent p a.machine

  analyse_ends :
      (measured : ℕ → List Errors) (fuel number : ℕ) (a : Analysis)
      → IsConsistent p a.machine
      → a.machine.iteration ≤ p.max_attack_row_idx - 4
      → measurements_left p a.machine ≤ fuel
      → Ended (analyse p mapping measured fuel number a)
  unfolding analyse done
  analyse_ends measured zero number a c low enough =
      elim (Bool-cases (leb (p.max_attack_row_idx - 4) a.machine.iteration)) [
        | inl ends ↦ rw ends (a, refl, ground arith, c)
        | inr goes_on ↦
            let left : 1 ≤ p.max_attack_row_idx - 4 - a.machine.iteration = ground arith in
            absurd (omega (arith, mul-le-mul_right (row_bound p) left))
      ]
  analyse_ends measured (suc fuel) number a c low enough =
      elim (Bool-cases (leb (p.max_attack_row_idx - 4) a.machine.iteration)) [
        | inl ends ↦ rw ends (a, refl, ground arith, c)
        | inr goes_on ↦
            let left : a.machine.iteration < p.max_attack_row_idx - 4 = ground arith in
            let (b, e, kept, progress) = process_errors-steps (measured number) a c left in
            let less = fewer_left p a.machine b.machine kept left progress in
            rw (goes_on, e)
              (analyse_ends measured fuel (number + 1) b kept
                (within p a.machine b.machine kept left progress) (omega arith))
      ]

initialize-IsConsistent :
    (p : Params)
    → IsUsable p
    → (m : Machine) × (initialize p ≡ ok m) × IsConsistent p m × (m.iteration ≡ 0)
unfolding initialize initial_generator
initialize-IsConsistent p u = (
  record {
    state = at_distance_one;
    iteration = 0;
    total_read_count = p.max_total_read_count;
    dilution = p.initial_dilution;
    read_count = p.max_total_read_count / p.initial_dilution;
    generator = initial_generator p;
  },
  rw (floor_div_lem p.max_total_read_count p.initial_dilution u.some_rows) refl,
  record {
    divided = refl;
    told = refl;
    some_dilution = u.some_rows;
    reads_bounded = omega arith;
    bounds = refl;
    sides = refl;
    state_holds = (refl, refl, omega arith);
  },
  refl,
)

one_row_more : (k r m fuel : ℕ) → m < r → (k + 1) * r ≤ fuel → (k - 0) * r + m ≤ fuel
one_row_more k r m fuel less enough = let e : k - 0 ≡ k = omega arith in rw e (omega arith)

-- With parameters whose divisions are defined, a multiplier above 1 and steps of at least one read:
-- whatever the errors of each measurement are, `row_bound` measurements for each of the
-- `max_attack_row_idx - 4` rows and for one more are enough. The analysis is then done, it has gone
-- through that number of rows, and its machine satisfies the invariant.
pub run_analysis-done :
    (p : Params) (mapping : RowMapping) (measured : ℕ → List Errors) (fuel : ℕ)
    → IsUsable p
    → (p.max_attack_row_idx - 4 + 1) * row_bound p ≤ fuel
    → (a : Analysis) × (run_analysis p mapping measured fuel ≡ ok (some a))
      × (a.machine.iteration ≡ p.max_attack_row_idx - 4)
      × IsConsistent p a.machine
unfolding run_analysis
run_analysis-done p mapping measured fuel u enough =
    let (m, e, c, start) = initialize-IsConsistent p u in
    let below = row_measure-below p m m.state c.reads_bounded in
    rw e (
      analyse_ends p mapping u measured fuel 0 (record { machine = m; counts = nothing_counted }) c
        (omega arith)
        (rw start (one_row_more (p.max_attack_row_idx - 4) (row_bound p) _ fuel below enough)))
