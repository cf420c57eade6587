-- ===== src/Prelude/Bits.antt =====
-- Masks, shifts and disjoint unions of bit fields, as arithmetic at every width.
use Prim.Native.Nat.{
  ℕ, zero, suc, ◌+◌, ◌-◌, ◌*◌, ◌/◌, ◌%◌, ◌^◌, ◌≤◌, ◌<◌, min, max, bit_and, bit_or, bit_xor, differ,
  digits, bit_and-bitwise, bit_or-bitwise, bit_xor-bitwise,
}
use mathlib.Core.Path.{◌≡◌, refl, sym, ap, ap₂, ◌∙◌}
use native.Mathlib.Nat.{
  pow-suc, one-le-pow, add-mul-mod_self_right, mod-eq_of_lt, add-mul-div_right, div-eq_of_lt,
  mod-add-div', add-zero, add-suc, mod-lt, div-div-eq-div-mul,
}
use native.Mathlib.Omega.{arith}

-- The digit recursion that the native operations stand for does not depend on spare fuel.
module _ (z : ℕ → ℕ) (f : ℕ → ℕ → ℕ) where
  spare_fuel : (n m a b : ℕ) → a ≤ n → a ≤ m → digits z f n a b ≡ digits z f m a b
  spare_fuel n m zero b p q = first n m
    where
      first : (n m : ℕ) → digits z f n zero b ≡ digits z f m zero b
      first zero zero = refl
      first zero (suc m) = refl
      first (suc n) zero = refl
      first (suc n) (suc m) = refl
  spare_fuel zero m (suc a) b p q = absurd (omega arith)
  spare_fuel (suc n) zero (suc a) b p q = absurd (omega arith)
  spare_fuel (suc n) (suc m) (suc a) b p q =
      omega (arith, spare_fuel n m (suc a / 2) (b / 2) (omega arith) (omega arith))

-- The lowest digit of each operation.
and_digit : (a b : ℕ) → bit_and a b ≡ bit_and (a / 2) (b / 2) * 2 + min (a % 2) (b % 2)
and_digit zero b = omega (arith, bit_and-bitwise 0 b, bit_and-bitwise 0 (b / 2))
and_digit (suc a) b = omega (
  arith,
  bit_and-bitwise (suc a) b,
  bit_and-bitwise (suc a / 2) (b / 2),
  spare_fuel (λ y. 0) min a (suc a / 2) (suc a / 2) (b / 2) (omega arith) (omega arith),
)

or_digit : (a b : ℕ) → bit_or a b ≡ bit_or (a / 2) (b / 2) * 2 + max (a % 2) (b % 2)
or_digit zero b = omega (arith, bit_or-bitwise 0 b, bit_or-bitwise 0 (b / 2))
or_digit (suc a) b = omega (
  arith,
  bit_or-bitwise (suc a) b,
  bit_or-bitwise (suc a / 2) (b / 2),
  spare_fuel (λ y. y) max a (suc a / 2) (suc a / 2) (b / 2) (omega arith) (omega arith),
)

pub zero-bit_or : (b : ℕ) → bit_or 0 b ≡ b
zero-bit_or b = bit_or-bitwise 0 b

and-zero_below : (n a : ℕ) → a ≤ n → bit_and a 0 ≡ 0
and-zero_below n zero h = bit_and-bitwise 0 0
and-zero_below zero (suc a) h = absurd (omega arith)
and-zero_below (suc n) (suc a) h =
    omega (arith, and_digit (suc a) 0, and-zero_below n (suc a / 2) (omega arith))

double_shift : (q k : ℕ) → q * 2 ^ suc k ≡ 2 * (q * 2 ^ k)
double_shift q k = omega (arith, ap (λ (t : ℕ). q * t) (pow-suc 2 k))

-- `a | (q << k)` is a sum where `a` fits in `k` bits.
pub or_shifted : (k a q : ℕ) → a < 2 ^ k → bit_or a (q * 2 ^ k) ≡ a + q * 2 ^ k
or_shifted zero a q fits =
    let e : a ≡ 0 = omega arith in rw e (omega (arith, zero-bit_or (q * 2 ^ 0)))
or_shifted (suc k) a q fits = ground (
  arith,
  or_digit a (q * 2 ^ suc k),
  double_shift q k,
  pow-suc 2 k,
  or_shifted k (a / 2) q (omega (arith, pow-suc 2 k)),
)

-- A number split at bit `k`, put together again.
pub join-mod : (k a q : ℕ) → a < 2 ^ k → (a + q * 2 ^ k) % 2 ^ k ≡ a
join-mod k a q fits = add-mul-mod_self_right a q (2 ^ k) ∙ mod-eq_of_lt fits

pub join-div : (k a q : ℕ) → a < 2 ^ k → (a + q * 2 ^ k) / 2 ^ k ≡ q
join-div k a q fits =
    let pos : 0 < 2 ^ k = omega (arith, one-le-pow k 2) in
    add-mul-div_right a q pos ∙ rw (div-eq_of_lt fits) (omega arith)

pub split_at : (k a : ℕ) → a % 2 ^ k + a / 2 ^ k * 2 ^ k ≡ a
split_at k a = mod-add-div' a (2 ^ k)

pub pow_add : (a b : ℕ) → 2 ^ (a + b) ≡ 2 ^ a * 2 ^ b
pow_add a zero = rw add-zero (omega arith)
pow_add a (suc b) = omega (
  arith,
  ap (λ (t : ℕ). 2 ^ t) (add-suc a b),
  pow-suc 2 (a + b),
  double_shift (2 ^ a) b,
  pow_add a b,
)

mod_digit : (k a : ℕ) → a % 2 ^ suc k ≡ a / 2 % 2 ^ k * 2 + a % 2
mod_digit k a =
    let r : ℕ = a / 2 % 2 ^ k * 2 + a % 2 in
    let q : ℕ = a / 2 / 2 ^ k in
    let lt : a / 2 % 2 ^ k < 2 ^ k = mod-lt (a / 2) (omega (arith, one-le-pow k 2)) in
    let fits : r < 2 ^ suc k = omega (arith, pow-suc 2 k) in
    let whole : r + q * 2 ^ suc k ≡ a = omega (arith, double_shift q k, split_at k (a / 2)) in
    rw whole at (join-mod (suc k) r q fits)

-- `a & (2 ** k - 1)` keeps the `k` low bits.
pub and_mask : (k a : ℕ) → bit_and a (2 ^ k - 1) ≡ a % 2 ^ k
and_mask zero a = omega (arith, and-zero_below a a (omega arith))
and_mask (suc k) a = ground (
  arith,
  and_digit a (2 ^ suc k - 1),
  pow-suc 2 k,
  one-le-pow k 2,
  mod_digit k a,
  and_mask k (a / 2),
)

pub mod-two_pow-lt : (k a : ℕ) → a % 2 ^ k < 2 ^ k
mod-two_pow-lt k a = mod-lt a (omega (arith, one-le-pow k 2))

or-zero_below : (n a : ℕ) → a ≤ n → bit_or a 0 ≡ a
or-zero_below n zero h = bit_or-bitwise 0 0
or-zero_below zero (suc a) h = absurd (omega arith)
or-zero_below (suc n) (suc a) h =
    omega (arith, or_digit (suc a) 0, or-zero_below n (suc a / 2) (omega arith))

-- `(q << k) | a`, the operands the other way round.
pub shifted_or : (k q a : ℕ) → a < 2 ^ k → bit_or (q * 2 ^ k) a ≡ q * 2 ^ k + a
shifted_or zero q a fits =
    let e : a ≡ 0 = omega arith in
    rw e (omega (arith, or-zero_below (q * 2 ^ 0) (q * 2 ^ 0) (omega arith)))
shifted_or (suc k) q a fits = ground (
  arith,
  or_digit (q * 2 ^ suc k) a,
  double_shift q k,
  pow-suc 2 k,
  shifted_or k q (a / 2) (omega (arith, pow-suc 2 k)),
)

pub join-lt : (k m a q : ℕ) → a < 2 ^ k → q < 2 ^ m → a + q * 2 ^ k < 2 ^ (m + k)
join-lt k m a q low high = rw (pow_add m k) (grind arith)

half_and : (a m k : ℕ) → bit_and a (m * 2 ^ suc k) ≡ 2 * bit_and (a / 2) (m * 2 ^ k)
half_and a m k = ground (arith, and_digit a (m * 2 ^ suc k), double_shift m k)

-- A mask above bit `k` is applied to the number shifted down, and shifted up again.
pub and_shifted : (k a m : ℕ) → bit_and a (m * 2 ^ k) ≡ bit_and (a / 2 ^ k) m * 2 ^ k
and_shifted zero a m =
    let e : a / 2 ^ 0 ≡ a = omega arith in
    let f : m * 2 ^ 0 ≡ m = omega arith in ap₂ bit_and (sym e) f ∙ omega arith
and_shifted (suc k) a m =
    let e : a / 2 / 2 ^ k ≡ a / 2 ^ suc k =
      div-div-eq-div-mul a 2 (2 ^ k) ∙ ap (λ t. a / t) (omega (arith, pow-suc 2 k)) in
    half_and a m k
    ∙ ap (λ t. 2 * t) (and_shifted k (a / 2) m ∙ ap (λ t. bit_and t m * 2 ^ k) e)
    ∙ sym (double_shift (bit_and (a / 2 ^ suc k) m) k)

pub xor_digit : (a b : ℕ) → bit_xor a b ≡ bit_xor (a / 2) (b / 2) * 2 + differ (a % 2) (b % 2)
xor_digit zero b = ground (arith, bit_xor-bitwise 0 b, bit_xor-bitwise 0 (b / 2))
xor_digit (suc a) b = omega (
  arith,
  bit_xor-bitwise (suc a) b,
  bit_xor-bitwise (suc a / 2) (b / 2),
  spare_fuel (λ y. y) differ a (suc a / 2) (suc a / 2) (b / 2) (omega arith) (omega arith),
)

xor-zero_below : (n a : ℕ) → a ≤ n → bit_xor a 0 ≡ a
xor-zero_below n zero h = bit_xor-bitwise 0 0
xor-zero_below zero (suc a) h = absurd (omega arith)
xor-zero_below (suc n) (suc a) h = omega (
  arith,
  xor_digit (suc a) 0,
  xor-zero_below n (suc a / 2) (omega arith),
  differ-zero (suc a % 2),
)
  where
    differ-zero : (r : ℕ) → differ r 0 ≡ r
    differ-zero zero = refl
    differ-zero (suc r) = refl

pub bit_xor-zero : (a : ℕ) → bit_xor a 0 ≡ a
bit_xor-zero a = xor-zero_below a a (omega arith)

xor_one : (a : ℕ) → bit_xor a 1 ≡ a / 2 * 2 + (1 - a % 2)
xor_one a = omega (arith, xor_digit a 1, bit_xor-zero (a / 2), other (a % 2) (omega arith))
  where
    other : (r : ℕ) → r < 2 → differ r 1 ≡ 1 - r
    other zero h = refl
    other (suc zero) h = refl
    other (suc (suc r)) h = absurd (omega arith)

xor_even : (a b : ℕ) → bit_xor a (2 * b) ≡ bit_xor (a / 2) b * 2 + a % 2
xor_even a b =
    let e : 2 * b / 2 ≡ b = omega arith in
    let z : 2 * b % 2 ≡ 0 = omega arith in
    xor_digit a (2 * b) ∙ rw (e, z) (ap (λ t. bit_xor (a / 2) b * 2 + t) (same (a % 2)))
  where
    same : (r : ℕ) → differ r 0 ≡ r
    same zero = refl
    same (suc r) = refl

-- An exclusive or with 2 or 4 flips one bit.
pub xor_two : (a : ℕ) → bit_xor a 2 ≡ a / 4 * 4 + (1 - a / 2 % 2) * 2 + a % 2
xor_two a = omega (arith, xor_even a 1, xor_one (a / 2))

pub xor_four : (a : ℕ) → bit_xor a 4 ≡ a / 8 * 8 + (1 - a / 4 % 2) * 4 + a % 4
xor_four a = omega (arith, xor_even a 2, xor_two (a / 2))
