-- ===== src/HammerTolerance/Weights.antt =====
-- rowhammer_tester/scripts/playbook/payload_generators/hammer_tolerance.py: what the histograms of the
-- chips over a read add up to.
use native.Mathlib.Nat.{div-le_self, add_assoc}
use rowhammer_tester.Prelude.{
  ℕ, zero, suc, ◌+◌, ◌*◌, ◌/◌, ◌^◌, ◌≤◌, ◌<◌, ◌≡◌, ◌≢◌, refl, ap, ap₂, ◌∙◌, ◌==◌, if◌then◌else◌,
  arith, Bool-cases, inl, inr, Bool, true, false,
}
use rowhammer_tester.HammerTolerance.{
  Stats, add, add_at, add_under, ones, extract_ones, dq_bits, gather_chips,
}
use rowhammer_tester.HammerTolerance.Digits.{read_flips}

unfoldable pub sum_below : ℕ → (ℕ → ℕ) → ℕ
sum_below zero f = 0
sum_below (suc n) f = sum_below n f + f n

-- The bits that a histogram stands for; a chip has at most 512 bits of a read.
abbrev pub bits_of : (ℕ → ℕ) → ℕ
bits_of d = sum_below 513 (λ count. count * d count)

-- The same of the histograms of `n` chips.
abbrev pub chips_total : ℕ → (ℕ → ℕ → ℕ) → ℕ
chips_total n d = sum_below n (λ chip. bits_of (d chip))

-- Two functions that differ at `i` alone.
module _ (f g : ℕ → ℕ) (i : ℕ) (same : (x : ℕ) → x ≢ i → g x ≡ f x) where
  sum_below-before : (n : ℕ) → n ≤ i → sum_below n g ≡ sum_below n f
  unfolding sum_below
  sum_below-before zero h = refl
  sum_below-before (suc n) h =
      ap₂ (λ (a b : ℕ). a + b) (sum_below-before n (omega arith)) (same n (omega arith))

  sum_below-at : (n : ℕ) → i < n → sum_below n g + f i ≡ sum_below n f + g i
  unfolding sum_below
  sum_below-at zero h = absurd (omega arith)
  sum_below-at (suc n) h = elim (Bool-cases (n == i)) [
    | inl e ↦
        let here : n ≡ i = ground (arith, e) in
        omega (arith, sum_below-before n (omega (arith, here)), ap g here, ap f here)
    | inr e ↦
        let other : n ≢ i = λ q. ground (arith, e, q) in
        omega (arith, sum_below-at n (ground (arith, e, h)), same n other)
  ]

add-here : (i n : ℕ) (d : ℕ → ℕ) → add i n d i ≡ d i + n
add-here i n d = ground arith

bits_of-add : (i : ℕ) (d : ℕ → ℕ) → i ≤ 512 → bits_of (add i 1 d) ≡ bits_of d + i
bits_of-add i d h =
    let other : (x : ℕ) → x ≢ i → x * add i 1 d x ≡ x * d x =
      λ x q. ap (λ (k : ℕ). x * k) (ground (arith, q)) in
    let here : i * add i 1 d i ≡ i * d i + i =
      ap (λ (k : ℕ). i * k) (add-here i 1 d) ∙ ground arith in
    let sums = sum_below-at (λ x. x * d x) (λ x. x * add i 1 d x) i other 513 (omega arith) in
    omega (arith, sums, here)

if-true : {A : Type 0} (x y : A) (b : Bool) → b ≡ true → (if b then x else y) ≡ x
if-true x y b e = rw e refl

if-false : {A : Type 0} (x y : A) (b : Bool) → b ≡ false → (if b then x else y) ≡ y
if-false x y b e = rw e refl

ones-le : (w n : ℕ) → ones w n ≤ w
unfolding ones
ones-le zero n = omega arith
ones-le (suc w) n = omega (arith, ones-le w (n / 2))

extract_ones-le : (g idx stride size n : ℕ) → extract_ones g idx stride size n ≤ g * size
unfolding extract_ones
extract_ones-le zero idx stride size n = omega arith
extract_ones-le (suc g) idx stride size n =
    let first = ones-le size (n / 2 ^ idx) in
    let rest = extract_ones-le g (idx + stride) stride size n in ground (arith, first, rest)

at-here : (chip i : ℕ) (d : ℕ → ℕ → ℕ) → add_at chip i d chip ≡ add i 1 (d chip)
at-here chip i d = if-true _ _ (chip == chip) (ground arith)

at-other : (chip i : ℕ) (d : ℕ → ℕ → ℕ) (x : ℕ) → x ≢ chip → add_at chip i d x ≡ d x
at-other chip i d x q = if-false _ _ (x == chip) (ground (arith, q))

chips_total-add :
    (n chip i : ℕ) (d : ℕ → ℕ → ℕ)
    → i ≤ 512
    → chip < n
    → chips_total n (add_at chip i d) ≡ chips_total n d + i
chips_total-add n chip i d small h =
    let other : (x : ℕ) → x ≢ chip → bits_of (add_at chip i d x) ≡ bits_of (d x) =
      λ x q. ap bits_of (at-other chip i d x q) in
    let here = ap bits_of (at-here chip i d) ∙ bits_of-add i (d chip) small in
    let sums =
      sum_below-at (λ x. bits_of (d x)) (λ x. bits_of (add_at chip i d x)) chip other n h in
    omega (arith, sums, here)

flipped-le : (nr_chips idx flips : ℕ) → extract_ones 8 idx 64 (dq_bits nr_chips) flips ≤ 512
flipped-le nr_chips idx flips =
    omega (arith, extract_ones-le 8 idx 64 (dq_bits nr_chips) flips, div-le_self 64 nr_chips)

-- The statistics behind a chip with `flipped` bits.
abbrev entered : (step chip flipped : ℕ) → Stats → Stats
entered step chip flipped s =
    if flipped == 0
    then s
    else record s { chip_errors_per_read = add_under step chip flipped s.chip_errors_per_read }

entered-total :
    (total step chip flipped : ℕ) (s : Stats)
    → flipped ≤ 512
    → chip < total
    → chips_total total ((entered step chip flipped s).chip_errors_per_read step)
      ≡ chips_total total (s.chip_errors_per_read step) + flipped
entered-total total step chip flipped s small h = elim (Bool-cases (flipped == 0)) [
  | inl e ↦ rw e (ground (arith, e))
  | inr e ↦ rw e (
      ap (chips_total total) (if-true _ _ (step == step) (ground arith))
      ∙ chips_total-add total chip flipped (s.chip_errors_per_read step) small h)
]

module _ (nr_chips step flips : ℕ) where
  -- What the loop over the chips adds to their histograms.
  pub gather_chips-total :
      (total n chip : ℕ) (s : Stats)
      → chip + n ≤ total
      → chips_total total ((gather_chips nr_chips step flips n chip s).chip_errors_per_read step)
        ≡ chips_total total (s.chip_errors_per_read step)
          + read_flips n chip (dq_bits nr_chips) 8 0 flips
  unfolding gather_chips
  gather_chips-total total zero chip s h = omega arith
  gather_chips-total total (suc n) chip s h =
      let flipped : ℕ = extract_ones 8 (chip * dq_bits nr_chips) 64 (dq_bits nr_chips) flips in
      gather_chips-total total n (chip + 1) (entered step chip flipped s) (omega (arith, h))
      ∙ ap (λ (k : ℕ). k + read_flips n (chip + 1) (dq_bits nr_chips) 8 0 flips)
          (entered-total total step chip flipped s
            (flipped-le nr_chips (chip * dq_bits nr_chips) flips) (omega (arith, h)))
      ∙ add_assoc _ flipped _
      ∙ ap
          (λ (b : ℕ).
            chips_total total (s.chip_errors_per_read step)
            + (extract_ones 8 b 64 (dq_bits nr_chips) flips
                + read_flips n (chip + 1) (dq_bits nr_chips) 8 0 flips))
          (omega arith)
