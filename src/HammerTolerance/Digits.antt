-- ===== src/HammerTolerance/Digits.antt =====
-- rowhammer_tester/scripts/playbook/payload_generators/hammer_tolerance.py: counting the digits of
-- slices.
use rowhammer_tester.Prelude.{
  ℕ, zero, suc, ◌+◌, ◌*◌, ◌/◌, ◌%◌, ◌^◌, ◌≡◌, refl, sym, ap, ap₂, ◌∙◌, arith, pow_add,
}
use native.Mathlib.Nat.{div-div-eq-div-mul}
use rowhammer_tester.HammerTolerance.{ones, ones_from, extract_ones}

pub div_further : (n a b : ℕ) → n / 2 ^ a / 2 ^ b ≡ n / 2 ^ (a + b)
div_further n a b = div-div-eq-div-mul n (2 ^ a) (2 ^ b) ∙ ap (λ (k : ℕ). n / k) (sym (pow_add a b))

pub ones-add : (a b n : ℕ) → ones (a + b) n ≡ ones a n + ones b (n / 2 ^ a)
unfolding ones
ones-add zero b n =
    let one : n ≡ n / 2 ^ 0 = omega arith in
    let none_before : 0 + b ≡ b = omega arith in
    ap (λ k. ones k n) none_before ∙ ap (ones b) one ∙ omega arith
ones-add (suc a) b n =
    let further : n / 2 / 2 ^ a ≡ n / 2 ^ suc a =
      div_further n 1 a ∙ ap (λ (k : ℕ). n / 2 ^ k) (omega arith) in
    let longer : suc a + b ≡ suc (a + b) = omega arith in
    ap (λ k. ones k n) longer
    ∙ ap (λ k. n % 2 + k) (ones-add a b (n / 2) ∙ ap (λ k. ones a (n / 2) + ones b k) further)
    ∙ omega arith

-- The flips of `n` chips, `dq` digits each, from the chip at `chip` on.
abbrev pub slices : (n chip dq base flips : ℕ) → ℕ
slices zero chip dq base flips = 0
slices (suc n) chip dq base flips =
    ones_from (base + chip * dq) dq flips + slices n (chip + 1) dq base flips

slices_lem :
    (n chip dq base flips : ℕ)
    → slices n chip dq base flips ≡ ones (n * dq) (flips / 2 ^ (base + chip * dq))
unfolding ones
slices_lem zero chip dq base flips = ap (λ k. ones k (flips / 2 ^ (base + chip * dq))) (nothing dq)
  where
    nothing : (k : ℕ) → 0 ≡ 0 * k
    nothing k = omega arith
slices_lem (suc n) chip dq base flips =
    let p : ℕ = base + chip * dq in
    let whole : suc n * dq ≡ dq + n * dq = ground arith in
    let behind : base + (chip + 1) * dq ≡ p + dq = ground arith in
    ap (λ k. ones dq (flips / 2 ^ p) + k)
      (slices_lem n (chip + 1) dq base flips
        ∙ ap (λ (k : ℕ). ones (n * dq) (flips / 2 ^ k)) behind
        ∙ ap (ones (n * dq)) (sym (div_further flips p dq)))
    ∙ sym (ones-add dq (n * dq) (flips / 2 ^ p))
    ∙ ap (λ k. ones k (flips / 2 ^ p)) (sym whole)

-- The same of `extract_bits`, over `g` groups.
abbrev pub read_flips : (n chip dq g base flips : ℕ) → ℕ
read_flips zero chip dq g base flips = 0
read_flips (suc n) chip dq g base flips =
    extract_ones g (base + chip * dq) 64 dq flips + read_flips n (chip + 1) dq g base flips

read_flips-suc :
    (n chip dq g base flips : ℕ)
    → read_flips n chip dq (suc g) base flips
      ≡ slices n chip dq base flips + read_flips n chip dq g (base + 64) flips
unfolding extract_ones
read_flips-suc zero chip dq g base flips = omega arith
read_flips-suc (suc n) chip dq g base flips =
    let shifted : base + chip * dq + 64 ≡ base + 64 + chip * dq = omega arith in
    omega (
      arith,
      read_flips-suc n (chip + 1) dq g base flips,
      ap (λ k. extract_ones g k 64 dq flips) shifted,
    )

read_flips-none : (n chip dq base flips : ℕ) → read_flips n chip dq 0 base flips ≡ 0
unfolding extract_ones
read_flips-none zero chip dq base flips = refl
read_flips-none (suc n) chip dq base flips =
    omega (arith, read_flips-none n (chip + 1) dq base flips)

pub none-ones : (n : ℕ) → 0 ≡ ones 0 n
unfolding ones
none-ones n = refl

pub read_flips_lem :
    (n dq g base flips : ℕ)
    → n * dq ≡ 64
    → read_flips n 0 dq g base flips ≡ ones (64 * g) (flips / 2 ^ base)
read_flips_lem n dq zero base flips e =
    read_flips-none n 0 dq base flips ∙ none-ones (flips / 2 ^ base)
read_flips_lem n dq (suc g) base flips e =
    let start : base + 0 * dq ≡ base = omega arith in
    let groups : 64 + 64 * g ≡ 64 * suc g = omega arith in
    read_flips-suc n 0 dq g base flips
    ∙ ap₂ (λ (j k : ℕ). j + k)
        (slices_lem n 0 dq base flips ∙ ap₂ (λ (j k : ℕ). ones j (flips / 2 ^ k)) e start)
        (read_flips_lem n dq g (base + 64) flips e
          ∙ ap (ones (64 * g)) (sym (div_further flips base 64)))
    ∙ sym (ones-add 64 (64 * g) (flips / 2 ^ base))
    ∙ ap (λ k. ones k (flips / 2 ^ base)) groups
