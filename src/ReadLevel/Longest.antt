-- ===== src/ReadLevel/Longest.antt =====
-- rowhammer_tester/scripts/read_level.py: what `read_level_find_best` finds.
use mathlib.Core.Path.{subst}
use rowhammer_tester.Prelude.{
  ℕ, suc, ◌-◌, ◌≤◌, ◌≡◌, ◌≢◌, ◌⊎◌, inl, inr, refl, sym, ap, ◌∙◌, true, false, Option, none, some,
  List, [], ◌∷◌, ltb, if◌then◌else◌, All, All-map, arith, Bool-cases, Option-cases, ok,
  ok-injective,
}
use rowhammer_tester.ReadLevel.{
  Score, Window, window_length, middle, max_by, best_of, best_window, Row, row_key, window_key,
  Best, best_at, find_best,
}
use rowhammer_tester.ReadLevel.Windows.{
  Rising, In, CleanAt, windows_from-CleanAt, windows_from-Ordered, windows_from-stop,
}
use rowhammer_tester.ReadLevel.Spans.{Spans, error_free, windows_from-Spans}

module _ {A : Type 0} (key : A → ℕ) where
  max_by-All : (P : A → Type 0) (a : A) (l : List A) → P a → All P l → P (max_by key a l)
  unfolding max_by
  max_by-All P a [] h hs = h
  max_by-All P a (x ∷ l) h (p, hs) = elim (Bool-cases (ltb (key a) (key x))) [
    | inl e ↦ rw e (max_by-All P x l p hs)
    | inr e ↦ rw e (max_by-All P a l h hs)
  ]

  both_below :
      (n : ℕ) (a x : A) → key (if ltb (key a) (key x) then x else a) ≤ n → (key a ≤ n) × (key x ≤ n)
  both_below n a x h = elim (Bool-cases (ltb (key a) (key x))) [
    | inl e ↦ beats e (rw e at h)
    | inr e ↦ loses e (rw e at h)
  ]
    where
      beats : ltb (key a) (key x) ≡ true → key x ≤ n → (key a ≤ n) × (key x ≤ n)
      beats e h = ground arith

      loses : ltb (key a) (key x) ≡ false → key a ≤ n → (key a ≤ n) × (key x ≤ n)
      loses e h = ground arith

  max_by-le : (n : ℕ) (a : A) (l : List A) → key (max_by key a l) ≤ n → All (λ x. key x ≤ n) (a ∷ l)
  unfolding max_by
  max_by-le n a [] h = (h, _)
  max_by-le n a (x ∷ l) h =
      let (here, rest) = max_by-le n (if ltb (key a) (key x) then x else a) l h in
      let (first, second) = both_below n a x here in (first, (second, rest))

-- A row is one of a list.
abbrev pub InRows : Row → List Row → Type 0
InRows r [] = ⊥
InRows r (s ∷ l) = (r ≡ s) ⊎ InRows r l

abbrev pub RowsRise : List Row → Type 0
RowsRise rows = All (λ r. Rising 0 r.scores) rows

All-InRows : (P : Row → Type 0) (r : Row) (rows : List Row) → All P rows → InRows r rows → P r
All-InRows P r [] h m = absurd m
All-InRows P r (s ∷ rows) (h, hs) (inl e) = subst P (sym e) h
All-InRows P r (s ∷ rows) (h, hs) (inr m) = All-InRows P r rows hs m

InRows-every : (rows : List Row) → All (λ r. InRows r rows) rows
InRows-every [] = _
InRows-every (r ∷ rows) = (inl refl, All-map (λ s m. inr m) rows (InRows-every rows))

All-In : (P : Score → Type 0) (l : List Score) → ((x : Score) → In x l → P x) → All P l
All-In P [] f = _
All-In P (x ∷ l) f = (f x (inl refl), All-In P l (λ y m. f y (inr m)))

best_of-All :
    (P : Window → Type 0) (ws : List Window) (w : Window) → best_of ws ≡ some w → All P ws → P w
unfolding best_of
best_of-All P [] w e h = cc
best_of-All P (v ∷ ws) w e (h, hs) =
    let q : max_by window_length v ws ≡ w = cc in subst P q (max_by-All window_length P v ws h hs)

-- The window of a bitslip has no error at its middle.
middle_clean :
    (l : List Score) (w : Window)
    → Rising 0 l
    → best_window l ≡ some w
    → All (λ x. (x.errors ≡ 0) ⊎ (x.dly ≢ middle w)) l
unfolding best_window
middle_clean l w h e =
    let ordered : w.start ≤ w.stop =
      best_of-All (λ v. v.start ≤ v.stop) _ w e (windows_from-Ordered 0 false 0 0 l h _) in
    All-In (λ x. (x.errors ≡ 0) ⊎ (x.dly ≢ middle w)) l
      (λ x m.
        at_middle x w ordered
          (best_of-All (CleanAt x) _ w e (windows_from-CleanAt 0 x false 0 0 l h _ m)))
  where
    at_middle :
        (x : Score) (w : Window)
        → w.start ≤ w.stop
        → CleanAt x w
        → (x.errors ≡ 0) ⊎ (x.dly ≢ middle w)
    at_middle x w ordered (inl none_here) = inl none_here
    at_middle x w ordered (inr (inl before)) = inr (λ e. omega (arith, e, before, ordered))
    at_middle x w ordered (inr (inr behind)) = inr (λ e. omega (arith, e, behind))

-- The key of a bitslip is above what its scores span.
Spans-below :
    (n a b : ℕ) (ws : List Window) → Spans a b ws → All (λ w. window_length w ≤ n) ws → b - a ≤ n
Spans-below n a b [] s h = absurd s
Spans-below n a b (w ∷ ws) (inl s) (h, hs) = omega (arith, s, h)
Spans-below n a b (w ∷ ws) (inr s) (h, hs) = Spans-below n a b ws s hs

best_of-Spans : (a b : ℕ) (ws : List Window) → Spans a b ws → suc (b - a) ≤ window_key (best_of ws)
unfolding best_of
best_of-Spans a b [] s = absurd s
best_of-Spans a b (w ∷ ws) s =
    let n : ℕ = window_length (max_by window_length w ws) in
    omega (arith, Spans-below n a b (w ∷ ws) s (max_by-le window_length n w ws (omega arith)))

row_key-Spans :
    (r : Row) (x y : Score)
    → Rising 0 r.scores
    → In x r.scores
    → In y r.scores
    → x.dly ≤ y.dly
    → error_free x.dly y.dly r.scores ≡ true
    → suc (y.dly - x.dly) ≤ row_key r
unfolding row_key best_window
row_key-Spans r x y h mx my le clean =
    best_of-Spans x.dly y.dly _ (windows_from-Spans 0 x y false 0 0 r.scores h _ mx my le clean)

-- What is found is at least as long.
abbrev pub Reaches : ℕ → Option Best → Type 0
Reaches n none = ⊥
Reaches n (some b) = n ≤ b.best_length

best_at-Reaches : (n bs : ℕ) (o : Option Window) → suc n ≤ window_key o → Reaches n (best_at bs o)
best_at-Reaches n bs none h = omega (arith, h)
best_at-Reaches n bs (some w) h = omega (arith, h)

row_key-le : (n : ℕ) (r : Row) → n ≤ row_key r → n ≤ window_key (best_window r.scores)
unfolding row_key
row_key-le n r h = h

row_found :
    (r : Row) (b : Best) (rows : List Row)
    → Rising 0 r.scores
    → InRows r rows
    → best_at r.bitslip (best_window r.scores) ≡ some b
    → (q : Row) × InRows q rows
      × (q.bitslip ≡ b.best_bs)
      × All (λ x. (x.errors ≡ 0) ⊎ (x.dly ≢ b.best_delay)) q.scores
row_found r b rows h m e = elim (Option-cases (best_window r.scores)) [
  | inl q ↦ absurd (cc (ap (best_at r.bitslip) q, e))
  | inr (w, q) ↦
      let found = ap (best_at r.bitslip) (sym q) ∙ e in
      let at_middle : middle w ≡ b.best_delay = cc in
      (
        r,
        m,
        cc,
        subst (λ n. All (λ x. (x.errors ≡ 0) ⊎ (x.dly ≢ n)) r.scores) at_middle
            (middle_clean r.scores w h q),
      )
]

window_le :
    (m : ℕ) (l : List Score) (w : Window)
    → Rising 0 l
    → All (λ x. x.dly ≤ m) l
    → best_window l ≡ some w
    → middle w ≤ m
unfolding best_window
window_le m l w rise h e =
    let ordered : w.start ≤ w.stop =
      best_of-All (λ v. v.start ≤ v.stop) _ w e (windows_from-Ordered 0 false 0 0 l rise _) in
    let below : w.stop ≤ m =
      best_of-All (λ v. v.stop ≤ m) _ w e (windows_from-stop m false 0 0 l h (omega arith)) in
    omega (arith, ordered, below)

row_le :
    (m : ℕ) (r : Row) (b : Best)
    → Rising 0 r.scores
    → All (λ x. x.dly ≤ m) r.scores
    → best_at r.bitslip (best_window r.scores) ≡ some b
    → b.best_delay ≤ m
row_le m r b rise h e = elim (Option-cases (best_window r.scores)) [
  | inl q ↦ absurd (cc (ap (best_at r.bitslip) q, e))
  | inr (w, q) ↦
      let found = ap (best_at r.bitslip) (sym q) ∙ e in
      let at_middle : middle w ≡ b.best_delay = cc in
      subst (λ n. n ≤ m) at_middle (window_le m r.scores w rise h q)
]

-- Where the delays of each bitslip rise, take any two delays of one bitslip with no error at any
-- delay that was tested from the one to the other: the result of `read_level_find_best`, where it
-- does not raise, is not None, and its length is at least their difference.
pub find_best-longest :
    (rows : List Row) (r : Row) (x y : Score) (o : Option Best)
    → RowsRise rows
    → InRows r rows
    → In x r.scores
    → In y r.scores
    → x.dly ≤ y.dly
    → error_free x.dly y.dly r.scores ≡ true
    → find_best rows ≡ ok o
    → Reaches (y.dly - x.dly) o
unfolding find_best
find_best-longest [] r x y o rise m mx my le clean e = absurd m
find_best-longest (s ∷ rows) r x y o rise m mx my le clean e =
    let best : Row = max_by row_key s rows in
    let below : row_key r ≤ row_key best =
      All-InRows (λ q. row_key q ≤ row_key best) r (s ∷ rows)
        (max_by-le row_key (row_key best) s rows (omega arith)) m in
    let spans : suc (y.dly - x.dly) ≤ row_key r =
      row_key-Spans r x y (All-InRows (λ q. Rising 0 q.scores) r (s ∷ rows) rise m) mx my le
        clean in
    subst (Reaches (y.dly - x.dly)) (ok-injective e) (
      best_at-Reaches (y.dly - x.dly) best.bitslip (best_window best.scores)
        (row_key-le (suc (y.dly - x.dly)) best (omega (arith, spans, below))))

-- Where the delays of each bitslip rise: what `read_level_find_best` finds is one of the bitslips with
-- a delay at which, if it was tested there, no error was counted.
pub find_best-error_free :
    (rows : List Row) (b : Best)
    → RowsRise rows
    → find_best rows ≡ ok (some b)
    → (r : Row) × InRows r rows
      × (r.bitslip ≡ b.best_bs)
      × All (λ x. (x.errors ≡ 0) ⊎ (x.dly ≢ b.best_delay)) r.scores
unfolding find_best
find_best-error_free [] b rise e = cc
find_best-error_free (s ∷ rows) b rise e =
    let best : Row = max_by row_key s rows in
    let m : InRows best (s ∷ rows) =
      max_by-All row_key (λ q. InRows q (s ∷ rows)) s rows (inl refl)
        (All-map (λ q n. inr n) rows (InRows-every rows)) in
    row_found best b (s ∷ rows) (All-InRows (λ q. Rising 0 q.scores) best (s ∷ rows) rise m) m
      (ok-injective e)

-- What is found is no delay behind those that were tested.
pub find_best-le :
    (m : ℕ) (rows : List Row) (b : Best)
    → RowsRise rows
    → All (λ r. All (λ x. x.dly ≤ m) r.scores) rows
    → find_best rows ≡ ok (some b)
    → b.best_delay ≤ m
unfolding find_best
find_best-le m [] b rise h e = cc
find_best-le m (s ∷ rows) b rise h e =
    let best : Row = max_by row_key s rows in
    let inside : (q : Row)
        → InRows q (s ∷ rows)
        → best_at q.bitslip (best_window q.scores) ≡ some b
        → b.best_delay ≤ m =
      λ q n.
        row_le m q b (All-InRows (λ r. Rising 0 r.scores) q (s ∷ rows) rise n)
          (All-InRows (λ r. All (λ x. x.dly ≤ m) r.scores) q (s ∷ rows) h n) in
    inside best
      (max_by-All row_key (λ q. InRows q (s ∷ rows)) s rows (inl refl)
        (All-map (λ q n. inr n) rows (InRows-every rows)))
      (ok-injective e)
