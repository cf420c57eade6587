-- ===== src/Prelude/Results.antt =====
-- Python's exceptions as values, with the `do` blocks over them.
use mathlib.Core.Path.{◌≡◌, refl}
use mathlib.Core.Bool.{Bool, true, false}

pub data Error : Type 0 where
  assertion_error not_implemented_error unbound_local_error key_error attribute_error value_error
        type_error index_error zero_division_error system_exit :
      Error

pub data Result {ℓ} (A : Type ℓ) : Type ℓ where
  raised : Error → Result A
  ok : A → Result A

-- `assert test`
abbrev pub assert : Bool → Result (Unit {0})
assert false = raised assertion_error
assert true = ok tt

infixl 5 ◌>>=◌
abbrev pub ◌>>=◌ {ℓ κ} : {A : Type ℓ} {B : Type κ} (first : Result A) → (A → Result B) → Result B
raised error >>= next = raised error
ok value >>= next = next value

infixl 5 ◌>>◌
abbrev pub ◌>>◌ {ℓ} : {B : Type ℓ} (checked : Result (Unit {0})) (next : Result B) → Result B
checked >> next = checked >>= λ _. next

pub >>=-eq-ok {ℓ κ} :
    {A : Type ℓ} {B : Type κ} (first : Result A) (next : A → Result B) {b : B}
    → (first >>= next) ≡ ok b
    → (a : A) × (first ≡ ok a) × (next a ≡ ok b)
>>=-eq-ok (raised error) next e = cc
>>=-eq-ok (ok value) next e = (value, refl, e)

pub ok-injective {ℓ} : {A : Type ℓ} {a b : A} → ok a ≡ ok b → a ≡ b
ok-injective h = cc

pub assert-eq-ok {ℓ} :
    {B : Type ℓ} (test : Bool) (k : Result B) {b : B}
    → (assert test >> k) ≡ ok b
    → (test ≡ true) × (k ≡ ok b)
assert-eq-ok true k h = (refl, h)
assert-eq-ok false k h = cc
