-- ===== src/ReadLevel.antt =====
-- rowhammer_tester/scripts/read_level.py: `read_level_find_best`. A dictionary is a list in the order of
-- its keys; the two bounds of a window are a record.
pub mod Windows
pub mod Spans
pub mod Longest
pub mod Leveled
use rowhammer_tester.Prelude.{
  ℕ, zero, suc, ◌+◌, ◌-◌, ◌/◌, ◌%◌, Bool, true, false, not, ◌&&◌, ◌||◌, Option, none, some, List,
  [], ◌∷◌, ◌++◌, map, ltb, ◌==◌, if◌then◌else◌, Result, ok, raised, value_error,
}

-- The errors at a delay.
pub record Score : Type 0 where
  pub dly : ℕ
  pub errors : ℕ

pub record Window : Type 0 where
  pub start : ℕ
  pub stop : ℕ

-- One round of the loop over the delays: `in_window` and `window_start` behind it, and what it
-- appends to the windows.
abbrev pub next_in : Score → Bool → Bool
next_in x in_window = x.errors == 0

abbrev pub next_start : Score → Bool → ℕ → ℕ
next_start x in_window start = if x.errors == 0 && not in_window then x.dly else start

abbrev pub closed : Score → Bool → ℕ → List Window
closed x in_window start =
    if in_window && not (x.errors == 0) then record { start = start; stop = x.dly } ∷ [] else []

-- The windows from a round on, where `last` is the delay of the round before.
unfoldable pub windows_from : Bool → ℕ → ℕ → List Score → List Window
windows_from in_window start last [] =
    if in_window then record { start = start; stop = last } ∷ [] else []
windows_from in_window start last (x ∷ l) =
    closed x in_window start
    ++ windows_from (next_in x in_window) (next_start x in_window start) x.dly l

abbrev pub window_length : Window → ℕ
window_length w = w.stop - w.start

-- `max` by a key: the first of the greatest.
unfoldable pub max_by : {A : Type 0} → (A → ℕ) → A → List A → A
max_by key a [] = a
max_by key a (x ∷ l) = max_by key (if ltb (key a) (key x) then x else a) l

unfoldable pub best_of : List Window → Option Window
best_of [] = none
best_of (w ∷ l) = some (max_by window_length w l)

unfoldable pub best_window : List Score → Option Window
best_window l = best_of (windows_from false 0 0 l)

-- The scores of a bitslip.
pub record Row : Type 0 where
  pub bitslip : ℕ
  pub scores : List Score

pub record Best : Type 0 where
  pub best_bs : ℕ
  pub best_delay : ℕ
  pub best_length : ℕ

-- `cmp_bs_windows`, plus one.
abbrev pub window_key : Option Window → ℕ
window_key none = 0
window_key (some w) = window_length w + 1

unfoldable pub row_key : Row → ℕ
row_key r = window_key (best_window r.scores)

abbrev pub middle : Window → ℕ
middle w = (w.start + w.stop) / 2

abbrev pub best_at : ℕ → Option Window → Option Best
best_at bs none = none
best_at bs (some w) =
    some (record { best_bs = bs; best_delay = middle w; best_length = window_length w })

-- `max` of no bitslips raises.
unfoldable pub find_best : List Row → Result (Option Best)
find_best [] = raised value_error
find_best (r ∷ rows) =
    let best = max_by row_key r rows in ok (best_at best.bitslip (best_window best.scores))

-- What the PHY is set to: the increments since a reset of each.
pub record Phy : Type 0 where
  pub bitslip : ℕ
  pub delay : ℕ

abbrev pub read_bitslip_rst : Phy → Phy
read_bitslip_rst p = record p { bitslip = 0 }

abbrev pub read_bitslip_inc : Phy → Phy
read_bitslip_inc p = record p { bitslip = p.bitslip + 1 }

abbrev pub read_delay_rst : Phy → Phy
read_delay_rst p = record p { delay = 0 }

abbrev pub read_delay_inc : Phy → Phy
read_delay_inc p = record p { delay = p.delay + 1 }

-- `for _ in range(value)` with one of the two increments.
abbrev pub times : ℕ → (Phy → Phy) → Phy → Phy
times zero f p = p
times (suc n) f p = times n f (f p)

abbrev pub read_bitslip_set : ℕ → Phy → Phy
read_bitslip_set value p = times value read_bitslip_inc (read_bitslip_rst p)

abbrev pub read_delay_set : ℕ → Phy → Phy
read_delay_set value p = times value read_delay_inc (read_delay_rst p)

-- A bitslip with no delay that was tested has no key in `scores`.
abbrev pub add_row : ℕ → List Score → List Row → List Row
add_row bs [] rows = rows
add_row bs (x ∷ l) rows = record { bitslip = bs; scores = x ∷ l } ∷ rows

-- `read_level_test` is a parameter: the errors that it counts at a setting of the PHY.
module _ (errors : Phy → ℕ) (delays_step : ℕ) where
  -- The loop over `n` delays, from `dly` on, and the PHY behind it.
  unfoldable pub scan_delays : ℕ → ℕ → Phy → List Score × Phy
  scan_delays zero dly p = ([], p)
  scan_delays (suc n) dly p =
      let rest = scan_delays n (dly + 1) (read_delay_inc p) in
      (
        (if dly % delays_step == 0
            then record { dly = dly; errors = errors p } ∷ rest.0
            else rest.0),
        rest.1,
      )

  unfoldable pub scan_bitslips : ℕ → ℕ → ℕ → Phy → List Row × Phy
  unfolding scan_delays
  scan_bitslips delays zero bs p = ([], p)
  scan_bitslips delays (suc n) bs p =
      let tested = scan_delays delays 0 (read_delay_rst p) in
      let rest = scan_bitslips delays n (bs + 1) (read_bitslip_inc tested.1) in
      (add_row bs tested.0 rest.0, rest.1)

  -- With what `read_level_find_best` gave.
  abbrev pub set_best : Phy → Result (Option Best) → Result Phy
  set_best p (raised e) = raised e
  set_best p (ok none) = ok p
  set_best p (ok (some b)) = ok (read_delay_set b.best_delay (read_bitslip_set b.best_bs p))

  unfoldable pub read_level_module : (bitslips delays : ℕ) → Phy → Result Phy
  unfolding scan_bitslips find_best
  read_level_module bitslips delays p =
      let scanned = scan_bitslips delays bitslips 0 (read_bitslip_rst p) in
      set_best scanned.1 (find_best scanned.0)
