-- ===== src/Memory.antt =====
-- rowhammer_tester/scripts/utils.py: word access over the bus, in bursts, and helpers on words.
-- `wb.write` and `wb.read` are litex's remote client: writes are the list of its calls, and reading
-- is the parameter `read` from an address and a number of words.
pub mod Bursts
use rowhammer_tester.Prelude.{
  ℕ, ◌+◌, ◌-◌, ◌*◌, ◌/◌, ◌^◌, min, bit_and, Bool, true, false, not, Option, some, none, List, [],
  ◌∷◌, ◌++◌, map, length, take, drop, replicate, range, range_from, zero, suc, ◌==◌, if◌then◌else◌,
}

-- `data[lo:hi]`
unfoldable pub slice {ℓ} : {A : Type ℓ} → List A → ℕ → ℕ → List A
slice xs lo hi = take (hi - lo) (drop lo xs)

abbrev pub Write : Type 0
Write = ℕ × List ℕ

unfoldable pub memwrite : ℕ → ℕ → List ℕ → List Write
unfolding slice
memwrite base burst xs =
    map (λ i. (base + 4 * i, slice xs i (min (i + burst) (length xs)))) (range (length xs) burst)

unfoldable pub memfill : ℕ → ℕ → ℕ → ℕ → List Write
unfolding memwrite
memfill base burst n pattern_word = memwrite base burst (replicate n pattern_word)

module _ (read : ℕ → ℕ → List ℕ) where
  unfoldable pub read_all : ℕ → ℕ → ℕ → List ℕ → List ℕ
  read_all base burst n [] = []
  read_all base burst n (i ∷ is) =
      read (base + 4 * i) (min burst (n - i)) ++ read_all base burst n is

  unfoldable pub memread : ℕ → ℕ → ℕ → List ℕ
  unfolding read_all
  memread base burst n = read_all base burst n (range n burst)

  -- The words, with their numbers, that differ from the pattern.
  unfoldable pub mismatches : ℕ → ℕ → List ℕ → List (ℕ × ℕ)
  mismatches pattern_word i [] = []
  mismatches pattern_word i (x ∷ xs) =
      let rest = mismatches pattern_word (i + 1) xs in
      if not (x == pattern_word) then (i, x) ∷ rest else rest

  unfoldable pub memcheck : ℕ → ℕ → ℕ → ℕ → List (ℕ × ℕ)
  unfolding memread mismatches
  memcheck base burst n pattern_word = mismatches pattern_word 0 (memread base burst n)

unfoldable pub chunks {ℓ} : {A : Type ℓ} → List A → ℕ → List (List A)
unfolding slice
chunks xs n = map (λ i. slice xs i (i + n)) (range (length xs) n)

-- The bytes of a word, lowest first.
unfoldable pub word_bytes : ℕ → ℕ → ℕ → List ℕ
word_bytes zero i word = []
word_bytes (suc left) i word =
    (bit_and word (0xff * 2 ^ (8 * i)) / 2 ^ (8 * i)) ∷ word_bytes left (i + 1) word

unfoldable pub word2byte : ℕ → List ℕ → List ℕ
unfolding word_bytes
word2byte word_size [] = []
word2byte word_size (x ∷ xs) = word_bytes word_size 0 x ++ word2byte word_size xs

-- `validate_keys`: the `return True` stands inside the loop; `none` is Python's None.
unfoldable pub validate_keys {ℓ} : {K : Type ℓ} → (K → Bool) → List K → Option Bool
validate_keys valid [] = none
validate_keys valid (key ∷ keys) = if valid key then some true else some false
