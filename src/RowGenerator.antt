-- ===== src/RowGenerator.antt =====
-- rowhammer_tester/scripts/playbook/row_generators: EvenRowGenerator and HalfDoubleRowGenerator.
-- A configuration is read once into the record of its values. `%` by a negative number, which a
-- `max_attack_row_idx` below 4 gives, is taken as one by 0.
pub mod Rows
use rowhammer_tester.Prelude.{
  ℕ, zero, suc, ◌+◌, ◌-◌, ◌*◌, ◌%◌, Bool, true, false, not, ◌&&◌, ◌||◌, List, [], ◌∷◌, ◌++◌, map,
  ◌==◌, if◌then◌else◌, Result, ok, raised, ◌>>=◌, attribute_error, zero_division_error,
}
use rowhammer_tester.RowMapping.{RowMapping}

-- Python's `%`
abbrev pub modulo : ℕ → ℕ → Result ℕ
modulo a b = if b == 0 then raised zero_division_error else ok (a % b)

pub record EvenConfig : Type 0 where
  pub nr_rows : ℕ
  pub max_row : ℕ

module _ (c : EvenConfig) (m : RowMapping) where
  unfoldable pub even_rows_from : ℕ → ℕ → ℕ → Result (List ℕ)
  even_rows_from iteration zero i = ok []
  even_rows_from iteration (suc left) i = do
    row ← modulo (iteration + 2 * i) c.max_row
    rest ← even_rows_from iteration left (i + 1)
    ok (m.logical_to_physical row ∷ rest)

  unfoldable pub even_generate_rows : ℕ → Result (List ℕ)
  unfolding even_rows_from
  even_generate_rows iteration = even_rows_from iteration c.nr_rows 0

pub record HalfDoubleConfig : Type 0 where
  pub nr_rows : ℕ
  pub distance_one : Bool
  pub double_sided : Bool
  pub distance_two : Bool
  pub attack_rows_start : ℕ
  pub max_attack_row_idx : ℕ
  pub decoy_rows_start : ℕ

module _ (c : HalfDoubleConfig) where
  -- `attack_rows_start + (iteration + ahead) % (max_attack_row_idx - less)`
  unfoldable pub attack_row : ℕ → ℕ → ℕ → Result ℕ
  attack_row iteration ahead less = do
    offset ← modulo (iteration + ahead) (c.max_attack_row_idx - less)
    ok (c.attack_rows_start + offset)

  unfoldable pub get_logical_victim : ℕ → Result ℕ
  unfolding attack_row
  get_logical_victim iteration = attack_row iteration 2 2

  abbrev pub is_odd : ℕ → Bool
  is_odd i = i % 2 == 1

  -- The row of the round `i`. The attribute `decoy_row_start` is set nowhere.
  unfoldable pub distance_two_row : ℕ → ℕ → Result ℕ
  unfolding attack_row
  distance_two_row iteration i =
      if not c.double_sided && not (is_odd i)
      then raised attribute_error
      else if c.distance_two
      then (if is_odd i && c.double_sided
          then attack_row iteration 4 0
          else attack_row iteration 0 4)
      else if not c.double_sided || not (is_odd i)
      then ok (c.decoy_rows_start + 1)
      else ok (c.decoy_rows_start + 2)

  unfoldable pub distance_two_rows : ℕ → ℕ → ℕ → Result (List ℕ)
  unfolding distance_two_row
  distance_two_rows iteration zero i = ok []
  distance_two_rows iteration (suc left) i = do
    row ← distance_two_row iteration i
    rest ← distance_two_rows iteration left (i + 1)
    ok (row ∷ rest)

  unfoldable pub distance_one_rows : ℕ → Result (List ℕ)
  unfolding attack_row
  distance_one_rows iteration =
      if not c.distance_one
      then ok []
      else if c.double_sided
      then (do
        first ← attack_row iteration 1 3
        second ← attack_row iteration 3 1
        ok (first ∷ second ∷ []))
      else (do first ← attack_row iteration 1 3; ok (first ∷ []))

  unfoldable pub half_double_generate_rows : RowMapping → ℕ → Result (List ℕ)
  unfolding distance_two_rows distance_one_rows
  half_double_generate_rows m iteration = do
    far ← distance_two_rows iteration (c.nr_rows - (if c.double_sided then 2 else 1)) 0
    near ← distance_one_rows iteration
    ok (map m.logical_to_physical (far ++ near))
