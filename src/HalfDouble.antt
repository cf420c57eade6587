-- ===== src/HalfDouble.antt =====
-- rowhammer_tester/scripts/playbook/payload_generators/half_double_analysis.py, and the loop of
-- scripts/playbook/playbook.py around it. The configuration's numbers are natural. The dictionary of
-- a row generator's configuration is the record of its values. A defaultdict is a function of its
-- key, and `math.inf`, where a dilution is recorded, is `none`. The keys of the configurations are
-- taken to be valid, and printing is left out.
pub mod Invariant
pub mod Dilution
pub mod Steps
pub mod Ends
pub mod Decoys
pub mod Process
pub mod Recorded
use rowhammer_tester.Prelude.{
  ℕ, zero, suc, ◌+◌, ◌-◌, ◌*◌, ◌/◌, ◌≡◌, bit_xor, Bool, true, false, not, ◌&&◌, ◌||◌, Option, some,
  none, List, [], ◌∷◌, ◌++◌, ltb, leb, ◌==◌, if◌then◌else◌, Result, ok, raised, ◌>>=◌,
  zero_division_error,
}
use rowhammer_tester.Playbook.{floor_div}
use rowhammer_tester.RowGenerator.{HalfDoubleConfig, get_logical_victim}

pub data AnalysisState : Type 0 where
  at_distance_one at_distance_two at_hammer_tolerance at_max_dilution : AnalysisState

-- What `initialize` reads of `payload_generator_config`, the row mapping apart.
pub record Params : Type 0 where
  pub max_total_read_count : ℕ
  pub read_count_steps : ℕ
  pub initial_dilution : ℕ
  pub dilution_multiplier : ℕ
  pub max_dilution : ℕ
  pub attack_rows_start : ℕ
  pub max_attack_row_idx : ℕ
  pub decoy_rows_start : ℕ

-- An updatable key of the row generator, with its new value.
pub data Update : Type 0 where
  nr_rows : ℕ → Update
  distance_one double_sided distance_two : Bool → Update

unfoldable pub update_param : Update → HalfDoubleConfig → HalfDoubleConfig
update_param (nr_rows n) g = record g { nr_rows = n }
update_param (distance_one b) g = record g { distance_one = b }
update_param (double_sided b) g = record g { double_sided = b }
update_param (distance_two b) g = record g { distance_two = b }

-- The attributes that the state machine changes.
pub record Machine : Type 0 where
  pub state : AnalysisState
  pub iteration : ℕ
  pub total_read_count : ℕ
  pub dilution : ℕ
  pub read_count : ℕ
  pub generator : HalfDoubleConfig

module _ (p : Params) where
  unfoldable pub initial_generator : HalfDoubleConfig
  initial_generator = record {
    nr_rows = p.initial_dilution;
    distance_one = true;
    double_sided = true;
    distance_two = false;
    attack_rows_start = p.attack_rows_start;
    max_attack_row_idx = p.max_attack_row_idx;
    decoy_rows_start = p.decoy_rows_start;
  }

  unfoldable pub initialize : Result Machine
  unfolding initial_generator
  initialize = do
    count ← floor_div p.max_total_read_count p.initial_dilution
    ok (record {
      state = at_distance_one;
      iteration = 0;
      total_read_count = p.max_total_read_count;
      dilution = p.initial_dilution;
      read_count = count;
      generator = initial_generator;
    })

  unfoldable pub next_row : Machine → Result Machine
  unfolding update_param
  next_row m = do
    count ← floor_div p.max_total_read_count p.initial_dilution
    ok (record {
      state = at_distance_one;
      iteration = m.iteration + 1;
      total_read_count = p.max_total_read_count;
      dilution = p.initial_dilution;
      read_count = count;
      generator =
          update_param (nr_rows p.initial_dilution) (update_param (distance_two false) m.generator);
    })

  -- `self.dilution = dilution`, the number of rows and the read count that follow from it.
  unfoldable pub dilute : ℕ → AnalysisState → Machine → Result Machine
  unfolding update_param
  dilute amount after m = do
    count ← floor_div m.total_read_count amount
    ok (record m {
      state = after;
      dilution = amount;
      read_count = count;
      generator = update_param (nr_rows amount) m.generator;
    })

  unfoldable pub noflip_distance_one : Bool → Machine → Result Machine
  unfolding update_param next_row dilute
  noflip_distance_one victim_flipped m =
      let inflated = m.dilution * p.dilution_multiplier in
      if not victim_flipped
      then ok (record m {
        state = at_distance_two;
        generator =
            update_param (distance_one false) (update_param (distance_two true) m.generator);
      })
      else if ltb p.max_dilution inflated
      then next_row (record m { dilution = inflated })
      else dilute inflated m.state m

  unfoldable pub noflip_distance_two : Bool → Machine → Result Machine
  unfolding update_param next_row
  noflip_distance_two victim_flipped m =
      if not victim_flipped
      then ok (record m {
        state = at_hammer_tolerance;
        generator = update_param (distance_one true) m.generator;
      })
      else next_row m

  unfoldable pub find_hammer_tolerance : Bool → Machine → Result Machine
  unfolding next_row dilute
  find_hammer_tolerance victim_flipped m =
      let go_on = dilute (m.dilution * p.dilution_multiplier) at_max_dilution m in
      if not victim_flipped then next_row m else do
        step ← floor_div p.max_total_read_count p.read_count_steps
        (if leb m.total_read_count step then next_row m else go_on)

  -- A count below 0 is 0 here; either way the row is given up.
  unfoldable pub find_max_dilution : Bool → Machine → Result Machine
  unfolding next_row dilute
  find_max_dilution victim_flipped m =
      let inflated = m.dilution * p.dilution_multiplier in
      if not victim_flipped || ltb p.max_dilution inflated
      then (do
        step ← floor_div p.max_total_read_count p.read_count_steps
        let total = m.total_read_count - step
        let fewer = record m { total_read_count = total; dilution = p.initial_dilution }
        (if ltb 0 total
            then dilute p.initial_dilution at_hammer_tolerance fewer
            else next_row fewer))
      else dilute inflated m.state m

  -- The dispatch at the end of `process_errors`.
  unfoldable pub advance : Bool → Machine → Result Machine
  unfolding noflip_distance_one noflip_distance_two find_hammer_tolerance find_max_dilution
  advance victim_flipped m = elim m.state [
    | at_distance_one ↦ noflip_distance_one victim_flipped m
    | at_distance_two ↦ noflip_distance_two victim_flipped m
    | at_hammer_tolerance ↦ find_hammer_tolerance victim_flipped m
    | at_max_dilution ↦ find_max_dilution victim_flipped m
  ]

  unfoldable pub done : Machine → Bool
  done m = leb (p.max_attack_row_idx - 4) m.iteration
