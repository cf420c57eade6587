-- ===== src/Memory/Bursts.antt =====
-- Bursts cover exactly the words asked for.
use mathlib.Core.List.{append-nil}
use native.Mathlib.Nat.{
  mod-add-div', mod-lt, mul-div_left, one-le-pow, div-div-eq-div-mul, mod-eq_of_lt,
  add-mul-mod_self_right,
}
use rowhammer_tester.Prelude.{
  ℕ, zero, suc, ◌+◌, ◌-◌, ◌*◌, ◌/◌, ◌%◌, ◌^◌, ◌<◌, ◌≤◌, ◌≡◌, ◌↔◌, refl, sym, ap, ◌∙◌, min, Bool,
  true, some, none, List, [], ◌∷◌, ◌++◌, map, length, take, drop, take-append-drop, length-take,
  length-drop, range_from, arith, leb, inl, inr, Bool-cases, pow_add, bit_and, and_mask,
  and_shifted,
}
use rowhammer_tester.Memory.{Write, slice, memwrite, read_all, memread, word_bytes, validate_keys}

-- What single-word writes a list of bursts amounts to: each word at its address.
abbrev pub words_at : ℕ → List ℕ → List Write
words_at a [] = []
words_at a (x ∷ xs) = (a, x ∷ []) ∷ words_at (a + 4) xs

abbrev pub spread : List Write → List Write
spread [] = []
spread ((a, xs) ∷ rest) = words_at a xs ++ spread rest

words_at-append :
    (a : ℕ) (xs ys : List ℕ)
    → words_at a (xs ++ ys) ≡ words_at a xs ++ words_at (a + 4 * length xs) ys
words_at-append a [] ys = let e : a + 4 * 0 ≡ a = omega arith in rw e refl
words_at-append a (x ∷ xs) ys =
    let e : a + 4 * suc (length xs) ≡ a + 4 + 4 * length xs = omega arith in
    rw e (ap (λ l. (a, x ∷ []) ∷ l) (words_at-append (a + 4) xs ys))

drop-drop : {A : Type 0} (n i : ℕ) (xs : List A) → drop n (drop i xs) ≡ drop (i + n) xs
drop-drop n zero xs = let e : 0 + n ≡ n = omega arith in rw e refl
drop-drop zero (suc i) [] = let e : suc i + 0 ≡ suc i = omega arith in rw e refl
drop-drop (suc n) (suc i) [] = let e : suc i + suc n ≡ suc (i + suc n) = omega arith in rw e refl
drop-drop n (suc i) (x ∷ xs) =
    let e : suc i + n ≡ suc (i + n) = omega arith in rw e (drop-drop n i xs)

drop-all : {A : Type 0} (n : ℕ) (xs : List A) → length xs ≤ n → drop n xs ≡ []
drop-all zero [] h = refl
drop-all zero (x ∷ xs) h = absurd (omega arith)
drop-all (suc n) [] h = refl
drop-all (suc n) (x ∷ xs) h = drop-all n xs (omega arith)

module _ (base burst : ℕ) (xs : List ℕ) where
  burst_at : ℕ → Write
  burst_at i = (base + 4 * i, slice xs i (min (i + burst) (length xs)))

  -- What is left behind one burst is what the next one starts with.
  behind :
      (i : ℕ)
      → let k = min (i + burst) (length xs) - i in
        words_at (base + 4 * i + 4 * length (take k (drop i xs))) (drop k (drop i xs))
        ≡ words_at (base + 4 * (i + burst)) (drop (i + burst) xs)
  behind i = elim (Bool-cases (leb (i + burst) (length xs))) [
    | inl inside ↦
        let k : min (i + burst) (length xs) - i ≡ burst = ground arith in
        let n : length (take burst (drop i xs)) ≡ burst =
          ground (arith, length-take {0} burst (drop i xs), length-drop {0} i xs) in
        let e : base + 4 * i + 4 * burst ≡ base + 4 * (i + burst) = omega arith in
        rw (k, n, e, drop-drop burst i xs) refl
    | inr beyond ↦
        let j = min (i + burst) (length xs) - i in
        let gone : drop (i + burst) xs ≡ [] = drop-all (i + burst) xs (ground arith) in
        let gone_too : drop j (drop i xs) ≡ [] =
          drop-drop j i xs ∙ drop-all (i + j) xs (ground arith) in
        rw (gone, gone_too) refl
  ]

  spread-range_from :
      (n i : ℕ)
      → length xs ≤ i + n * burst
      → spread (map burst_at (range_from n i burst)) ≡ words_at (base + 4 * i) (drop i xs)
  unfolding burst_at slice
  spread-range_from zero i h =
      let gone : drop i xs ≡ [] = drop-all i xs (omega arith) in rw gone refl
  spread-range_from (suc n) i h =
      let k = min (i + burst) (length xs) - i in
      ap (λ l. words_at (base + 4 * i) (take k (drop i xs)) ++ l)
        (spread-range_from n (i + burst) (omega arith) ∙ sym (behind i))
      ∙ sym (words_at-append (base + 4 * i) (take k (drop i xs)) (drop k (drop i xs)))
      ∙ ap (words_at (base + 4 * i)) (take-append-drop k (drop i xs))

-- In bursts of any positive length, each word is written once, in order, to its own address.
pub spread-memwrite :
    (base burst : ℕ) (xs : List ℕ) → 0 < burst → spread (memwrite base burst xs) ≡ words_at base xs
unfolding memwrite burst_at
spread-memwrite base burst xs pos =
    let rounds = (length xs + burst - 1) / burst in
    let enough : length xs ≤ 0 + rounds * burst =
      omega
        (arith, mod-add-div' (length xs + burst - 1) burst, mod-lt (length xs + burst - 1) pos) in
    let e : base + 4 * 0 ≡ base = omega arith in
    rw e at (spread-range_from base burst xs rounds 0 enough)

-- Reading words one after the other is reading them at once, and reading none gives none.
pub record Reads (read : ℕ → ℕ → List ℕ) : Type 0 where
  pub joins : (a m n : ℕ) → read a m ++ read (a + 4 * m) n ≡ read a (m + n)
  pub nothing : (a : ℕ) → read a 0 ≡ []

module _ (read : ℕ → ℕ → List ℕ) (r : Reads read) (base burst total : ℕ) where
  read_all-range_from :
      (n i : ℕ)
      → total ≤ i + n * burst
      → read_all read base burst total (range_from n i burst) ≡ read (base + 4 * i) (total - i)
  unfolding read_all
  read_all-range_from zero i h =
      let e : total - i ≡ 0 = omega arith in rw e (sym (r.nothing (base + 4 * i)))
  read_all-range_from (suc n) i h =
      let rest = read_all-range_from n (i + burst) (omega arith) in
      ap (λ l. read (base + 4 * i) (min burst (total - i)) ++ l) rest
      ∙ elim (Bool-cases (leb (i + burst) total)) [
        | inl inside ↦
            let k : min burst (total - i) ≡ burst = ground arith in
            let a : base + 4 * (i + burst) ≡ base + 4 * i + 4 * burst = omega arith in
            let m : burst + (total - (i + burst)) ≡ total - i = ground arith in
            rw (k, a, r.joins (base + 4 * i) burst (total - (i + burst)), m) refl
        | inr beyond ↦
            let k : min burst (total - i) ≡ total - i = ground arith in
            let z : total - (i + burst) ≡ 0 = ground arith in
            rw (k, z, r.nothing (base + 4 * (i + burst)), append-nil) refl
      ]

-- Where reading two adjacent pieces gives what reading them at once would: reading in bursts of
-- any positive length gives what one long read would give.
memread-read :
    (read : ℕ → ℕ → List ℕ) (base burst n : ℕ)
    → Reads read
    → 0 < burst
    → memread read base burst n ≡ read base n
unfolding memread
memread-read read base burst n r pos =
    let rounds = (n + burst - 1) / burst in
    let enough : n ≤ 0 + rounds * burst =
      omega (arith, mod-add-div' (n + burst - 1) burst, mod-lt (n + burst - 1) pos) in
    let e : base + 4 * 0 ≡ base = omega arith in
    let z : n - 0 ≡ n = omega arith in
    rw (e, z) at (read_all-range_from read r base burst n rounds 0 enough)

-- The bytes of a word, put together again, lowest first.
abbrev pub from_bytes : List ℕ → ℕ
from_bytes [] = 0
from_bytes (b ∷ bs) = b + 256 * from_bytes bs

byte_at : (word k : ℕ) → bit_and word (0xff * 2 ^ k) / 2 ^ k ≡ word / 2 ^ k % 256
byte_at word k = rw (and_shifted k word 255) (
    mul-div_left (bit_and (word / 2 ^ k) 255) (one-le-pow k 2 (omega arith))
    ∙ and_mask 8 (word / 2 ^ k))

eight_up : (word i : ℕ) → word / 2 ^ (8 * (i + 1)) ≡ word / 2 ^ (8 * i) / 256
eight_up word i =
    ap (λ t. word / 2 ^ t) (omega arith)
    ∙ ap (λ t. word / t) (pow_add (8 * i) 8)
    ∙ sym (div-div-eq-div-mul word (2 ^ (8 * i)) 256)

mod_byte : (y m : ℕ) → 0 < m → y % 256 + 256 * (y / 256 % m) ≡ y % (m * 256)
mod_byte y m pos =
    let r : ℕ = y % 256 + 256 * (y / 256 % m) in
    let q : ℕ = y / 256 / m in
    let low : y / 256 % m < m = mod-lt (y / 256) pos in
    let fits : r < m * 256 = omega arith in
    let whole : r + q * (m * 256) ≡ y = omega (arith, mod-add-div' (y / 256) m) in
    sym (mod-eq_of_lt fits)
    ∙ sym (add-mul-mod_self_right r q (m * 256))
    ∙ ap (λ t. t % (m * 256)) whole

from_bytes-word_bytes_at :
    (n i word : ℕ) → from_bytes (word_bytes n i word) ≡ word / 2 ^ (8 * i) % 2 ^ (8 * n)
unfolding word_bytes
from_bytes-word_bytes_at zero i word = omega arith
from_bytes-word_bytes_at (suc n) i word =
    let e : 2 ^ (8 * suc n) ≡ 2 ^ (8 * n) * 256 =
      ap (λ t. 2 ^ t) (omega arith) ∙ pow_add (8 * n) 8 in
    rw (e, byte_at word (8 * i), from_bytes-word_bytes_at n (i + 1) word, eight_up word i)
      (mod_byte (word / 2 ^ (8 * i)) (2 ^ (8 * n)) (one-le-pow (8 * n) 2 (omega arith)))

-- The bytes that a word is cut into, lowest first, make up the word modulo its size.
from_bytes-word_bytes :
    (word_size word : ℕ) → from_bytes (word_bytes word_size 0 word) ≡ word % 2 ^ (8 * word_size)
from_bytes-word_bytes word_size word =
    from_bytes-word_bytes_at word_size 0 word ∙ ap (λ t. t % 2 ^ (8 * word_size)) (omega arith)

-- Only the first key of a dictionary is looked at: the result is True exactly when it is valid,
-- whatever the others are. An empty dictionary gives None.
validate_keys-first :
    {K : Type 0} (valid : K → Bool) (key : K) (keys : List K)
    → (validate_keys valid (key ∷ keys) ≡ some true ↔ valid key ≡ true)
      × (validate_keys valid [] ≡ none)
unfolding validate_keys
validate_keys-first valid key keys = ((ground arith, ground arith), refl)
