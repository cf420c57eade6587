-- ===== src/Playbook/Lcm.antt =====
-- Euclid's loop and the least common multiple.
use mathlib.Core.WellFounded.{Acc}
use mathlib.Core.Logic.{dif_pos, dif_neg}
use native.Mathlib.Decide.{dec_lt}
use native.Mathlib.Bridge.{le_prop}
use native.Mathlib.Nat.{mod-add-div', div-eq_of_eq-mul_left, mod-lt, mul-sub}
use rowhammer_tester.Prelude.{
  ℕ, ◌+◌, ◌-◌, ◌*◌, ◌/◌, ◌%◌, ◌<◌, ◌≡◌, arith, lt_wf, ok, sym, ap, ap₂, ◌∙◌,
}
use rowhammer_tester.Playbook.{gcd_loop, least_common_multiple}

-- `d` divides `n`, with the quotient.
abbrev pub Divides : ℕ → ℕ → Type 0
Divides d n = (q : ℕ) × (q * d ≡ n)

-- A divisor of `b` and of `a % b` divides `a`.
Divides-up : (d a b : ℕ) → Divides d b → Divides d (a % b) → Divides d a
Divides-up d a b (q, e) (r, f) =
    (r + a / b * q, omega (arith, mod-add-div' a b, ap (λ (t : ℕ). a / b * t) e))

gcd-Divides : (a b : ℕ) (w : Acc ◌<◌ b) → Divides (gcd_loop a b w) a × Divides (gcd_loop a b w) b
unfolding gcd_loop
gcd-Divides a b (Acc.intro _ smaller) = elim (dec_lt 0 b) [
  | yes p ↦
      let (low, high) = gcd-Divides b (a % b) (smaller (a % b) (mod-lt a p)) in
      rw (dif_pos (dec_lt 0 b) le_prop p) (Divides-up _ a b low high, low)
  | no p ↦ rw (dif_neg (dec_lt 0 b) p) ((1, omega arith), (0, omega arith))
]

gcd_pos : (a b : ℕ) (w : Acc ◌<◌ b) → 0 < a → 0 < gcd_loop a b w
unfolding gcd_loop
gcd_pos a b (Acc.intro _ smaller) pos = elim (dec_lt 0 b) [
  | yes p ↦ rw (dif_pos (dec_lt 0 b) le_prop p) (gcd_pos b (a % b) (smaller (a % b) (mod-lt a p)) p)
  | no p ↦ rw (dif_neg (dec_lt 0 b) p) pos
]

-- What divides `a` and `b` divides the remainder.
Divides-down : (d a b : ℕ) → Divides d a → Divides d b → Divides d (a % b)
Divides-down d a b (q, e) (r, f) = (
  q - a / b * r,
  omega (arith, mod-add-div' a b, mul-sub d q (a / b * r), ap (λ (t : ℕ). a / b * t) f),
)

gcd_greatest : (d a b : ℕ) (w : Acc ◌<◌ b) → Divides d a → Divides d b → Divides d (gcd_loop a b w)
unfolding gcd_loop
gcd_greatest d a b (Acc.intro _ smaller) p q = elim (dec_lt 0 b) [
  | yes h ↦
      rw (dif_pos (dec_lt 0 b) le_prop h)
        (gcd_greatest d b (a % b) (smaller (a % b) (mod-lt a h)) q (Divides-down d a b p q))
  | no h ↦ rw (dif_neg (dec_lt 0 b) h) p
]

product_over :
    (g x y : ℕ)
    → 0 < g
    → Divides g x
    → Divides g y
    → (x * y / g * g ≡ x * y) × Divides x (x * y / g) × Divides y (x * y / g)
product_over g x y pos (q, e) (r, f) =
    let whole : x * y ≡ q * r * g * g = ap₂ ◌*◌ (sym e) (sym f) ∙ omega arith in
    let half : r * x ≡ q * r * g = ap (λ t. r * t) (sym e) ∙ omega arith in
    let other : q * y ≡ q * r * g = ap (λ t. q * t) (sym f) ∙ omega arith in
    let m : x * y / g ≡ q * r * g = div-eq_of_eq-mul_left pos whole in
    (ap (λ t. t * g) m ∙ sym whole, (r, half ∙ sym m), (q, other ∙ sym m))

-- The greatest common divisor, in the order of divisibility.
pub record IsGcd (g x y : ℕ) : Type 0 where
  pub left : Divides g x
  pub right : Divides g y
  pub greatest : (d : ℕ) → Divides d x → Divides d y → Divides d g

-- For a positive first argument the loop ends and gives a multiple of both arguments, which is
-- their product divided by their greatest common divisor.
pub least_common_multiple_lem :
    (x y : ℕ)
    → 0 < x
    → (m : ℕ) × (g : ℕ) × (least_common_multiple x y ≡ ok m)
      × (m * g ≡ x * y)
      × Divides x m
      × Divides y m
      × IsGcd g x y
unfolding least_common_multiple
least_common_multiple_lem x y pos =
    let w = lt_wf.apply y in
    let g : ℕ = gcd_loop x y w in
    let (gx, gy) = gcd-Divides x y w in
    let (total, mx, my) = product_over g x y (gcd_pos x y w pos) gx gy in
    (
      x * y / g,
      g,
      ground (arith, gcd_pos x y w pos),
      total,
      mx,
      my,
      record { left = gx; right = gy; greatest = λ d p q. gcd_greatest d x y w p q },
    )
