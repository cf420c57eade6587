-- ===== src/HalfDouble/Invariant.antt =====
-- What the state machine of the half double analysis keeps.
use rowhammer_tester.Prelude.{ℕ, ◌+◌, ◌-◌, ◌*◌, ◌/◌, ◌≤◌, ◌<◌, ◌≡◌, max, true, false, Result, ok}
use rowhammer_tester.HalfDouble.{
  Params, Machine, AnalysisState, at_distance_one, at_distance_two, at_hammer_tolerance,
  at_max_dilution,
}

-- Parameters with which the divisions are defined and each step makes progress.
pub record IsUsable (p : Params) : Type 0 where
  pub some_rows : 0 < p.initial_dilution
  pub grows : 1 < p.dilution_multiplier
  pub has_steps : 0 < p.read_count_steps
  pub steps_count : 0 < p.max_total_read_count / p.read_count_steps

-- The largest dilution that the limit allows.
abbrev pub limit : Params → ℕ
limit p = max p.initial_dilution p.max_dilution

-- Which rows the generator hammers in each state, and how far the counts may have gone.
abbrev pub StateHolds : Params → Machine → AnalysisState → Type 0
StateHolds p m at_distance_one =
    (m.generator.distance_two ≡ false)
    × (m.total_read_count ≡ p.max_total_read_count)
    × (m.dilution ≤ limit p)
StateHolds p m at_distance_two =
    (m.generator.distance_one ≡ false)
    × (m.generator.distance_two ≡ true)
    × (m.total_read_count ≡ p.max_total_read_count)
    × (m.dilution ≤ limit p)
StateHolds p m at_hammer_tolerance =
    (m.generator.distance_one ≡ true) × (m.generator.distance_two ≡ true) × (m.dilution ≤ limit p)
StateHolds p m at_max_dilution =
    (m.generator.distance_one ≡ true)
    × (m.generator.distance_two ≡ true)
    × (m.dilution ≤ limit p * p.dilution_multiplier)

pub record IsConsistent (p : Params) (m : Machine) : Type 0 where
  pub divided : m.read_count ≡ m.total_read_count / m.dilution
  pub told : m.generator.nr_rows ≡ m.dilution
  pub some_dilution : 0 < m.dilution
  pub reads_bounded : m.total_read_count ≤ p.max_total_read_count
  pub bounds : m.generator.max_attack_row_idx ≡ p.max_attack_row_idx
  pub sides : m.generator.double_sided ≡ true
  pub state_holds : StateHolds p m m.state

-- No dilution reaches this.
abbrev pub above : Params → ℕ
above p = limit p * p.dilution_multiplier + 1

-- What the measurements of one row count down, by the state.
abbrev pub row_measure : Params → Machine → AnalysisState → ℕ
row_measure p m at_distance_one =
    p.max_total_read_count * (above p + 2) + 2 * above p + 3 - m.dilution
row_measure p m at_distance_two = p.max_total_read_count * (above p + 2) + above p + 2
row_measure p m at_hammer_tolerance = m.total_read_count * (above p + 2) + above p + 1
row_measure p m at_max_dilution = m.total_read_count * (above p + 2) + above p - m.dilution

-- A step stays at the row and counts down, or goes on to the next row.
pub data Progress (p : Params) (m m' : Machine) : Type 0 where
  same_row :
      m'.iteration ≡ m.iteration
      → row_measure p m' m'.state < row_measure p m m.state
      → Progress p m m'
  later_row : m'.iteration ≡ m.iteration + 1 → Progress p m m'

pub record Steps (p : Params) (m : Machine) (r : Result Machine) : Type 0 where
  pub after : Machine
  pub returned : r ≡ ok after
  pub kept : IsConsistent p after
  pub progress : Progress p m after
