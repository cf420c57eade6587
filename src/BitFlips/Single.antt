-- ===== src/BitFlips/Single.antt =====
-- What bitflip_list says of one flipped bit of a word that should be 0.
use native.Mathlib.Nat.{pow-suc, one-le-pow}
use mathlib.Core.List.{append-nil}
use rowhammer_tester.Prelude.{
  ℕ, zero, suc, ◌+◌, ◌-◌, ◌/◌, ◌%◌, ◌^◌, ◌≤◌, ◌<◌, ◌≡◌, refl, ap, ◌∙◌, bit_xor-zero, Bool, true,
  false, List, [], ◌∷◌, ◌++◌, length, replicate, ◌==◌, arith,
}
use rowhammer_tester.BitFlips.{digits_onto, bin, indices_of_ones, bitflip_list}

zeros_onto :
    (k : ℕ) (acc : List Bool) → replicate k false ++ false ∷ acc ≡ false ∷ replicate k false ++ acc
zeros_onto zero acc = refl
zeros_onto (suc k) acc = ap (λ l. false ∷ l) (zeros_onto k acc)

digits_onto-power :
    (fuel k : ℕ) (acc : List Bool)
    → 2 ^ k ≤ fuel
    → digits_onto fuel (2 ^ k) acc ≡ true ∷ replicate k false ++ acc
unfolding digits_onto
digits_onto-power zero k acc h = absurd (omega (arith, one-le-pow k 2))
digits_onto-power (suc fuel) zero acc h = finished fuel
  where
    finished : (fuel : ℕ) → digits_onto fuel 0 (true ∷ acc) ≡ true ∷ acc
    finished zero = refl
    finished (suc fuel) = refl
digits_onto-power (suc fuel) (suc k) acc h =
    let pos : 0 < 2 ^ k = one-le-pow k 2 (omega arith) in
    let some_left : (2 ^ suc k == 0) ≡ false = ground (arith, pow-suc 2 k) in
    let even : (2 ^ suc k % 2 == 1) ≡ false = ground (arith, pow-suc 2 k) in
    let half : 2 ^ suc k / 2 ≡ 2 ^ k = omega (arith, pow-suc 2 k) in
    rw (some_left, even, half, digits_onto)
      (digits_onto-power fuel k (false ∷ acc) (omega (arith, pow-suc 2 k))
        ∙ ap (λ l. true ∷ l) (zeros_onto k acc))

bin-power : (k : ℕ) → bin (2 ^ k) ≡ true ∷ replicate k false
unfolding bin
bin-power k =
    let some_left : (2 ^ k == 0) ≡ false = ground (arith, one-le-pow k 2) in
    rw (some_left, bin) (digits_onto-power (2 ^ k) k [] (omega arith) ∙ append-nil _)

no_ones : (start k : ℕ) → indices_of_ones start (replicate k false) ≡ []
unfolding indices_of_ones
no_ones start zero = refl
no_ones start (suc k) = no_ones (start + 1) k

-- When one bit of a word that should be 0 has flipped, whichever it is, `bitflip_list` says 0.
pub bitflip_list-single : (k : ℕ) → bitflip_list (2 ^ k) 0 ≡ 0 ∷ []
unfolding bitflip_list bin indices_of_ones
bitflip_list-single k =
    let no_padding : 1 - length (true ∷ replicate k false) ≡ 0 = omega arith in
    ap (λ digits. indices_of_ones 0 (replicate (1 - length digits) false ++ digits))
      (ap bin (bit_xor-zero (2 ^ k)) ∙ bin-power k)
    ∙ ap (λ n. indices_of_ones 0 (replicate n false ++ true ∷ replicate k false)) no_padding
    ∙ ap (λ l. 0 ∷ l) (no_ones 1 k)
