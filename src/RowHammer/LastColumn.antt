-- ===== src/RowHammer/LastColumn.antt =====
-- Which words of a row are filled and checked.
use mathlib.Core.Path.{subst}
use native.Mathlib.Nat.{mul-le-mul_right, one-le-pow, mod-add-div', mod-lt}
use rowhammer_tester.Prelude.{
  ℕ, zero, suc, ◌+◌, ◌-◌, ◌*◌, ◌/◌, ◌^◌, ◌≤◌, ◌<◌, ◌≡◌, refl, ap, ap₂, ◌∙◌, sym, max, min, List, [],
  ◌∷◌, map, length, replicate, range_from, All, ltb, leb, leb→le, arith, ok, ◌>>=◌, Bool-cases, inl,
  inr,
}
use rowhammer_tester.AddressConverter.{Converter, Location, encode_bus, shift_by, bus_shift}
use rowhammer_tester.AddressConverter.RoundTrip.{flat, encode_location-flat}
use rowhammer_tester.Memory.{memfill}
use rowhammer_tester.Memory.Bursts.{words_at, spread, spread-memwrite}
use rowhammer_tester.RowHammer.{
  Attacker, Access, main_base, bus_address, column_addresses, addresses_per_row, access_of,
  row_access, max_from, min_from,
}

div_mono : (k x y : ℕ) → 0 < k → x ≤ y → x / k ≤ y / k
div_mono k x y pos h = elim (Bool-cases (leb (x / k) (y / k))) [
  | inl le ↦ leb→le (x / k) (y / k) le
  | inr more ↦
      let above : y / k + 1 ≤ x / k = ground arith in
      absurd
        (omega (arith, mul-le-mul_right k above, mod-add-div' x k, mod-add-div' y k, mod-lt y pos))
]

shift_mono : (up down x y : ℕ) → x ≤ y → shift_by up down x ≤ shift_by up down y
unfolding shift_by
shift_mono up down x y h = elim (Bool-cases (ltb down up)) [
  | inl left ↦ rw left (mul-le-mul_right (2 ^ (up - down)) h)
  | inr right ↦ rw right (div_mono (2 ^ (down - up)) x y (one-le-pow (down - up) 2 (omega arith)) h)
]

-- The greatest and least of increasing numbers.
module _ (f : ℕ → ℕ) (mono : (i j : ℕ) → i ≤ j → f i ≤ f j) where
  max-increasing : (n s : ℕ) → max_from (f s) (map f (range_from n (s + 1) 1)) ≡ f (s + n)
  max-increasing zero s = ap f (omega arith)
  max-increasing (suc n) s =
      let e : max (f s) (f (s + 1)) ≡ f (s + 1) = omega (arith, mono s (s + 1) (omega arith)) in
      ap (λ m. max_from m (map f (range_from n (s + 1 + 1) 1))) e
      ∙ max-increasing n (s + 1)
      ∙ ap f (omega arith)

  min-increasing : (n s i : ℕ) → i ≤ s → min_from (f i) (map f (range_from n s 1)) ≡ f i
  min-increasing zero s i h = refl
  min-increasing (suc n) s i h =
      let e : min (f i) (f s) ≡ f i = omega (arith, mono i s h) in
      ap (λ m. min_from m (map f (range_from n (s + 1) 1))) e
      ∙ min-increasing n (s + 1) i (omega arith)

module _ (log2_int : ℕ → ℕ) (c : Converter) (a : Attacker) (row : ℕ) where
  abbrev location : ℕ → Location
  location col = record { bank = a.bank; row = row; col = col }

  -- The address of a column.
  address_of : ℕ → ℕ
  unfolding shift_by
  address_of col =
      main_base + shift_by (bus_shift log2_int c 32) c.address_align (flat c (location col))

  address_mono : (i j : ℕ) → i ≤ j → address_of i ≤ address_of j
  unfolding address_of
  address_mono i j h =
      let m =
        shift_mono (bus_shift log2_int c 32) c.address_align (flat c (location i))
          (flat c (location j)) (omega arith) in
      omega arith

  module _ (bank_fits : a.bank < 2 ^ c.bankbits) (row_fits : row < 2 ^ c.rowbits) where
    bus_address_lem :
        (col : ℕ) → col < 2 ^ c.colbits → bus_address log2_int c a row col ≡ ok (address_of col)
    unfolding encode_bus address_of
    bus_address_lem col h =
        rw
          (encode_location-flat c (location col)
            (record { bank_fits = bank_fits; row_fits = row_fits; col_fits = h }))
          refl

    column_addresses_lem :
        (n s : ℕ)
        → s + n ≤ 2 ^ c.colbits
        → column_addresses log2_int c a row (range_from n s 1)
          ≡ ok (map address_of (range_from n s 1))
    unfolding column_addresses
    column_addresses_lem zero s h = refl
    column_addresses_lem (suc n) s h =
        rw (bus_address_lem s (omega arith), column_addresses_lem n (s + 1) (omega arith)) refl

    -- What the iterator yields, from the first and the last column.
    row_access_lem :
        a.colbits ≡ c.colbits
        → row_access log2_int c a row
          ≡ ok (record {
            row = row;
            words = (address_of (2 ^ c.colbits - 1) - address_of 0) / 4;
            base_addr = address_of 0;
          })
    unfolding row_access addresses_per_row access_of
    row_access_lem same =
        let n : ℕ = 2 ^ c.colbits - 1 in
        let e : 2 ^ a.colbits ≡ suc n =
          ap (λ k. 2 ^ k) same ∙ omega (arith, one-le-pow c.colbits 2) in
        let greatest : max_from (address_of 0) (map address_of (range_from n (0 + 1) 1))
            ≡ address_of n =
          max-increasing address_of address_mono n 0 ∙ ap address_of (omega arith) in
        let least = min-increasing address_of address_mono n 1 0 (omega arith) in
        ap
          (λ k. column_addresses log2_int c a row (range_from k 0 1) >>= access_of log2_int c a row)
          e
        ∙ ap (λ r. r >>= access_of log2_int c a row)
            (column_addresses_lem (suc n) 0 (omega (arith, one-le-pow c.colbits 2)))
        ∙ ap₂ (λ m l. ok (record { row = row; words = (m - l) / 4; base_addr = address_of 0 }))
            greatest least

words_below :
    (last a : ℕ) (xs : List ℕ)
    → a + 4 * length xs ≤ last
    → All (λ w. w.0 + 4 ≤ last) (words_at a xs)
words_below last a [] h = tt
words_below last a (x ∷ xs) h = (omega arith, words_below last (a + 4) xs (omega arith))

length-replicate : (n word : ℕ) → length (replicate n word) ≡ n
length-replicate zero word = refl
length-replicate (suc n) word = ap suc (length-replicate n word)

-- In a bank and a row that the memory has, with as many columns as the converter has: the words of a
-- row that are filled start at the address of the first column and all end at or before that of the
-- last one, so the last column is not filled; and their number is as large as that allows.
pub row_access-last_column :
    (log2_int : ℕ → ℕ) (c : Converter) (a : Attacker) (row pattern_word : ℕ)
    → a.bank < 2 ^ c.bankbits
    → row < 2 ^ c.rowbits
    → a.colbits ≡ c.colbits
    → (access : Access) × (last : ℕ) × (row_access log2_int c a row ≡ ok access)
      × (bus_address log2_int c a row 0 ≡ ok access.base_addr)
      × (bus_address log2_int c a row (2 ^ c.colbits - 1) ≡ ok last)
      × All (λ w. w.0 + 4 ≤ last) (spread (memfill access.base_addr 255 access.words pattern_word))
      × (last < access.base_addr + 4 * access.words + 4)
unfolding memfill
row_access-last_column log2_int c a row pattern_word bank_fits row_fits same =
    let n : ℕ = 2 ^ c.colbits - 1 in
    let address = address_of log2_int c a row in
    let some_column = one-le-pow c.colbits 2 (omega arith) in
    let words : ℕ = (address n - address 0) / 4 in
    let up = address_mono log2_int c a row 0 n (omega arith) in
    let pattern_words = replicate words pattern_word in
    let below =
      words_below (address n) (address 0) pattern_words
        (omega (arith, length-replicate words pattern_word)) in
    (
      record { row = row; words = words; base_addr = address 0 },
      address n,
      row_access_lem log2_int c a row bank_fits row_fits same,
      bus_address_lem log2_int c a row bank_fits row_fits 0 (omega arith),
      bus_address_lem log2_int c a row bank_fits row_fits n (omega arith),
      subst (All (λ w. w.0 + 4 ≤ address n))
          (sym (spread-memwrite (address 0) 255 pattern_words (omega arith))) below,
      omega arith,
    )
