-- ===== src/ReadLevel/Leveled.antt =====
-- rowhammer_tester/scripts/read_level.py: what `read_level_module` leaves the PHY set to.
use mathlib.Core.Path.{subst}
use rowhammer_tester.Prelude.{
  ℕ, zero, suc, ◌+◌, ◌-◌, ◌%◌, ◌≤◌, ◌<◌, ◌≡◌, ◌≢◌, ◌⊎◌, inl, inr, refl, sym, ap, ap₂, ◌∙◌, true,
  Option, none, some, List, [], ◌∷◌, ◌==◌, All, arith, Bool-cases, ok,
}
use rowhammer_tester.ReadLevel.{
  Score, Row, Best, find_best, Phy, read_bitslip_rst, read_bitslip_inc, read_delay_rst,
  read_delay_inc, times, read_bitslip_set, read_delay_set, scan_delays, scan_bitslips, add_row,
  set_best, read_level_module,
}
use rowhammer_tester.ReadLevel.Windows.{Rising, In}
use rowhammer_tester.ReadLevel.Spans.{error_free}
use rowhammer_tester.ReadLevel.Longest.{
  InRows, RowsRise, Reaches, find_best-longest, find_best-error_free, find_best-le,
}

abbrev at_setting : ℕ → ℕ → Phy
at_setting bs dly = record { bitslip = bs; delay = dly }

times-bitslip : (n : ℕ) (p : Phy) → times n read_bitslip_inc p ≡ at_setting (p.bitslip + n) p.delay
times-bitslip zero p = ap (λ k. at_setting k p.delay) (omega arith)
times-bitslip (suc n) p =
    times-bitslip n (read_bitslip_inc p) ∙ ap (λ k. at_setting k p.delay) (omega arith)

times-delay : (n : ℕ) (p : Phy) → times n read_delay_inc p ≡ at_setting p.bitslip (p.delay + n)
times-delay zero p = ap (λ k. at_setting p.bitslip k) (omega arith)
times-delay (suc n) p =
    times-delay n (read_delay_inc p) ∙ ap (λ k. at_setting p.bitslip k) (omega arith)

set_both : (bs dly : ℕ) (p : Phy) → read_delay_set dly (read_bitslip_set bs p) ≡ at_setting bs dly
set_both bs dly p =
    let b : (read_bitslip_set bs p).bitslip ≡ bs =
      ap (λ (q : Phy). q.bitslip) (times-bitslip bs (read_bitslip_rst p)) ∙ none_before bs in
    times-delay dly (read_delay_rst (read_bitslip_set bs p))
    ∙ ap (λ k. at_setting k (0 + dly)) b
    ∙ ap (at_setting bs) (none_before dly)
  where
    none_before : (n : ℕ) → 0 + n ≡ n
    none_before n = omega arith

some_best :
    (n : ℕ) (rows : List Row) (o : Option Best)
    → find_best rows ≡ ok o
    → Reaches n o
    → (b : Best) × (find_best rows ≡ ok (some b))
some_best n rows none e h = absurd h
some_best n rows (some b) e h = (b, e)

-- A good delay makes `read_level_find_best` find one.
found :
    (rows : List Row) (r : Row) (x : Score)
    → RowsRise rows
    → InRows r rows
    → In x r.scores
    → error_free x.dly x.dly r.scores ≡ true
    → (b : Best) × (find_best rows ≡ ok (some b))
unfolding find_best
found [] r x rise m mx clean = absurd m
found (s ∷ rows) r x rise m mx clean =
    some_best (x.dly - x.dly) (s ∷ rows) _ refl
      (find_best-longest (s ∷ rows) r x x _ rise m mx mx (omega arith) clean refl)

All-In : (P : Score → Type 0) (x : Score) (l : List Score) → All P l → In x l → P x
All-In P x [] h m = absurd m
All-In P x (y ∷ l) (h, hs) (inl e) = subst P (sym e) h
All-In P x (y ∷ l) (h, hs) (inr m) = All-In P x l hs m

module _ (errors : Phy → ℕ) where
  -- The scores of `n` delays from `d` on.
  abbrev tab : ℕ → ℕ → ℕ → List Score
  tab bs zero d = []
  tab bs (suc n) d = record { dly = d; errors = errors (at_setting bs d) } ∷ tab bs n (d + 1)

  mod_one : (n : ℕ) → (n % 1 == 0) ≡ true
  mod_one n = ground arith

  scan_delays-tab : (n d bs : ℕ) → (scan_delays errors 1 n d (at_setting bs d)).0 ≡ tab bs n d
  unfolding scan_delays
  scan_delays-tab zero d bs = refl
  scan_delays-tab (suc n) d bs = rw (mod_one d) (
      ap (λ l. record { dly = d; errors = errors (at_setting bs d) } ∷ l)
        (scan_delays-tab n (d + 1) bs))

  scan_delays-bitslip : (n d : ℕ) (p : Phy) → (scan_delays errors 1 n d p).1.bitslip ≡ p.bitslip
  unfolding scan_delays
  scan_delays-bitslip zero d p = refl
  scan_delays-bitslip (suc n) d p = scan_delays-bitslip n (d + 1) (read_delay_inc p)

  -- The rows of `n` bitslips from `bs` on.
  abbrev rows_of : ℕ → ℕ → ℕ → List Row
  rows_of delays zero bs = []
  rows_of delays (suc n) bs =
      record { bitslip = bs; scores = tab bs delays 0 } ∷ rows_of delays n (bs + 1)

  scan_bitslips-rows :
      (k n bs : ℕ) (p : Phy)
      → p.bitslip ≡ bs
      → (scan_bitslips errors 1 (suc k) n bs p).0 ≡ rows_of (suc k) n bs
  unfolding scan_bitslips scan_delays
  scan_bitslips-rows k zero bs p e = refl
  scan_bitslips-rows k (suc n) bs p e =
      let tested : List Score × Phy = scan_delays errors 1 (suc k) 0 (read_delay_rst p) in
      ap₂ (add_row bs) (scan_delays-tab (suc k) 0 p.bitslip ∙ ap (λ b. tab b (suc k) 0) e) (
        scan_bitslips-rows k n (bs + 1) (read_bitslip_inc tested.1)
          (omega (arith, scan_delays-bitslip (suc k) 0 (read_delay_rst p), e)))

  tab-Rising : (bs n d : ℕ) → Rising d (tab bs n d)
  tab-Rising bs zero d = _
  tab-Rising bs (suc n) d = (
    omega arith,
    subst (λ k. Rising k (tab bs n (d + 1))) {x = d + 1} {y = suc d} (omega arith)
        (tab-Rising bs n (d + 1)),
  )

  tab-le : (bs n d m : ℕ) → d + n ≤ suc m → All (λ x. x.dly ≤ m) (tab bs n d)
  tab-le bs zero d m h = _
  tab-le bs (suc n) d m h = (omega (arith, h), tab-le bs n (d + 1) m (omega (arith, h)))

  In-tab :
      (bs n d k : ℕ)
      → d ≤ k
      → k < d + n
      → In (record { dly = k; errors = errors (at_setting bs k) }) (tab bs n d)
  In-tab bs zero d k le lt = absurd (omega (arith, le, lt))
  In-tab bs (suc n) d k le lt = elim (Bool-cases (k == d)) [
    | inl e ↦
        let at_d : k ≡ d = ground (arith, e) in
        inl (ap (λ j. record { dly = j; errors = errors (at_setting bs j) }) at_d)
    | inr e ↦ inr (In-tab bs n (d + 1) k (ground (arith, e, le)) (omega (arith, lt)))
  ]

  InRows-rows_of :
      (r : Row) (delays n bs : ℕ)
      → InRows r (rows_of delays n bs)
      → (r.bitslip < bs + n) × (r.scores ≡ tab r.bitslip delays 0)
  InRows-rows_of r delays zero bs m = absurd m
  InRows-rows_of r delays (suc n) bs (inl e) =
      let here : r.bitslip ≡ bs = ap (λ (q : Row). q.bitslip) e in
      (omega (arith, here), ap (λ (q : Row). q.scores) e ∙ ap (λ b. tab b delays 0) (sym here))
  InRows-rows_of r delays (suc n) bs (inr m) =
      let (lt, e) = InRows-rows_of r delays n (bs + 1) m in (omega (arith, lt), e)

  rows_of-InRows :
      (delays n bs k : ℕ)
      → bs ≤ k
      → k < bs + n
      → InRows (record { bitslip = k; scores = tab k delays 0 }) (rows_of delays n bs)
  rows_of-InRows delays zero bs k le lt = absurd (omega (arith, le, lt))
  rows_of-InRows delays (suc n) bs k le lt = elim (Bool-cases (k == bs)) [
    | inl e ↦
        let here : k ≡ bs = ground (arith, e) in
        inl (ap (λ j. record { bitslip = j; scores = tab j delays 0 }) here)
    | inr e ↦ inr (rows_of-InRows delays n (bs + 1) k (ground (arith, e, le)) (omega (arith, lt)))
  ]

  rows_of-Rise : (delays n bs : ℕ) → RowsRise (rows_of delays n bs)
  rows_of-Rise delays zero bs = _
  rows_of-Rise delays (suc n) bs = (tab-Rising bs delays 0, rows_of-Rise delays n (bs + 1))

  rows_of-le : (k n bs : ℕ) → All (λ r. All (λ x. x.dly ≤ k) r.scores) (rows_of (suc k) n bs)
  rows_of-le k zero bs = _
  rows_of-le k (suc n) bs = (tab-le bs (suc k) 0 k (omega arith), rows_of-le k n (bs + 1))

  tab-error_free :
      (bs n d k : ℕ) → errors (at_setting bs k) ≡ 0 → error_free k k (tab bs n d) ≡ true
  tab-error_free bs zero d k good = refl
  tab-error_free bs (suc n) d k good =
      let rest = tab-error_free bs n (d + 1) k good in
      elim (Bool-cases (k == d)) [
        | inl e ↦
            let at_d : k ≡ d = ground (arith, e) in
            let here : errors (at_setting bs d) ≡ 0 =
              subst (λ j. errors (at_setting bs j) ≡ 0) at_d good in
            ground (arith, here, rest)
        | inr e ↦ ground (arith, e, rest)
      ]

  sets_best :
      (k bitslips : ℕ) (b : Best) (p : Phy)
      → find_best (rows_of (suc k) bitslips 0) ≡ ok (some b)
      → read_level_module errors 1 bitslips (suc k) p ≡ ok (at_setting b.best_bs b.best_delay)
  unfolding read_level_module
  sets_best k bitslips b p e =
      let scanned : List Row × Phy =
        scan_bitslips errors 1 (suc k) bitslips 0 (read_bitslip_rst p) in
      ap (set_best errors 1 scanned.1)
        (ap find_best (scan_bitslips-rows k bitslips 0 (read_bitslip_rst p) refl) ∙ e)
      ∙ ap ok (set_both b.best_bs b.best_delay scanned.1)

  good_best :
      (k d : ℕ) (r : Row)
      → d ≤ k
      → r.scores ≡ tab r.bitslip (suc k) 0
      → All (λ x. (x.errors ≡ 0) ⊎ (x.dly ≢ d)) r.scores
      → errors (at_setting r.bitslip d) ≡ 0
  good_best k d r le e h =
      elim (All-In (λ x. (x.errors ≡ 0) ⊎ (x.dly ≢ d)) _ (tab r.bitslip (suc k) 0)
        (subst (All (λ x. (x.errors ≡ 0) ⊎ (x.dly ≢ d))) e h)
        (In-tab r.bitslip (suc k) 0 d (omega arith) (omega (arith, le)))) [
          | inl none_here ↦ none_here
          | inr other ↦ absurd (other refl)
        ]

  -- Where the errors that `read_level_test` counts depend on the setting of the PHY alone, and every
  -- delay is tested (a step of 1): if it counts none at some setting in range, `read_level_module`
  -- returns and leaves the PHY at a setting in range at which it counts none.
  pub read_level_module-error_free :
      (bitslips delays bs dly : ℕ) (p : Phy)
      → bs < bitslips
      → dly < delays
      → errors (record { bitslip = bs; delay = dly }) ≡ 0
      → (q : Phy) × (read_level_module errors 1 bitslips delays p ≡ ok q)
        × (errors q ≡ 0)
        × (q.bitslip < bitslips)
        × (q.delay < delays)
  read_level_module-error_free bitslips zero bs dly p lt lt' good = absurd (omega (arith, lt'))
  read_level_module-error_free bitslips (suc k) bs dly p lt lt' good =
      let rows : List Row = rows_of (suc k) bitslips 0 in
      let row : Row = record { bitslip = bs; scores = tab bs (suc k) 0 } in
      let x : Score = record { dly = dly; errors = errors (at_setting bs dly) } in
      let rise : RowsRise rows = rows_of-Rise (suc k) bitslips 0 in
      let (b, e) =
        found rows row x rise
          (rows_of-InRows (suc k) bitslips 0 bs (omega arith) (omega (arith, lt)))
          (In-tab bs (suc k) 0 dly (omega arith) (omega (arith, lt')))
          (tab-error_free bs (suc k) 0 dly good) in
      let (r, m, at_bs, clean) = find_best-error_free rows b rise e in
      let (in_range, scores) = InRows-rows_of r (suc k) bitslips 0 m in
      let le : b.best_delay ≤ k = find_best-le k rows b rise (rows_of-le k bitslips 0) e in
      (
        at_setting b.best_bs b.best_delay,
        sets_best k bitslips b p e,
        subst (λ j. errors (at_setting j b.best_delay) ≡ 0) at_bs
            (good_best k b.best_delay r le scores clean),
        omega (arith, in_range, at_bs),
        omega (arith, le),
      )
