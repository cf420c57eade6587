-- ===== src/BitFlips.antt =====
-- rowhammer_tester/scripts/rowhammer.py: the bits in which a word that was read differs from the one
-- that was expected: bitcount, bitflips, bitflip_list (the first two also in the payload
-- generators), and the loop of dump_bitflips over the bits of a word. A number in binary is the list
-- of its digits without the prefix, highest first, where `true` is a 1.
pub mod Exact
pub mod Single
use rowhammer_tester.Prelude.{
  ℕ, zero, suc, ◌+◌, ◌-◌, ◌*◌, ◌/◌, ◌%◌, ◌^◌, bit_and, bit_xor, Bool, true, false, Option, some,
  none, List, [], ◌∷◌, ◌++◌, length, replicate, ◌==◌, if◌then◌else◌,
}

-- The digits of a number in front of those in hand; a number has no more digits than its value.
unfoldable pub digits_onto : (fuel n : ℕ) → List Bool → List Bool
digits_onto zero n digits = digits
digits_onto (suc fuel) n digits = elim (n == 0) [
  | true ↦ digits
  | false ↦ digits_onto fuel (n / 2) ((n % 2 == 1) ∷ digits)
]

-- `bin(n)`, behind its `0b`
unfoldable pub bin : ℕ → List Bool
unfolding digits_onto
bin n = elim (n == 0) [ true ↦ false ∷ [] | false ↦ digits_onto n n [] ]

-- `.count("1")`
unfoldable pub count_ones : List Bool → ℕ
count_ones [] = 0
count_ones (digit ∷ digits) = if digit then suc (count_ones digits) else count_ones digits

unfoldable pub bitcount : ℕ → ℕ
unfolding bin count_ones
bitcount x = count_ones (bin x)

unfoldable pub bitflips : ℕ → ℕ → ℕ
unfolding bitcount
bitflips val ref = bitcount (bit_xor val ref)

-- `[i for i, c in enumerate(digits, start) if c == "1"]`
unfoldable pub indices_of_ones : ℕ → List Bool → List ℕ
indices_of_ones start [] = []
indices_of_ones start (digit ∷ digits) =
    let rest = indices_of_ones (start + 1) digits in if digit then start ∷ rest else rest

-- The format `#0{len(bin(exp))}b` fills up with zeros in front, to the length of `bin(exp)`.
unfoldable pub bitflip_list : ℕ → ℕ → List ℕ
unfolding bin indices_of_ones
bitflip_list val exp =
    let digits = bin (bit_xor val exp) in
    indices_of_ones 0 (replicate (length (bin exp) - length digits) false ++ digits)

-- A row of the CSV file. The column `direction` spells out the two bits in front of it.
pub record FlipRow : Type 0 where
  pub read_count : Option ℕ
  pub row : ℕ
  pub bank : ℕ
  pub col : ℕ
  pub byte_in_row : ℕ
  pub byte_lane : ℕ
  pub bit_in_byte : ℕ
  pub flip_addr : ℕ
  pub data_bit : ℕ
  pub expected_bit : ℕ
  pub block_addr : ℕ
  pub block_word_index : ℕ

-- What the loop over the bits reads of a word: the columns that are the same for all its bits.
pub record Block : Type 0 where
  pub read_count : Option ℕ
  pub row : ℕ
  pub bank : ℕ
  pub col : ℕ
  pub base_addr : ℕ
  pub index : ℕ
  pub word : ℕ
  pub expected : ℕ

module _ (b : Block) where
  abbrev pub block_address : ℕ
  block_address = b.base_addr + 4 * b.index

  unfoldable pub flip_row : ℕ → FlipRow
  flip_row pos = record {
    read_count = b.read_count;
    row = b.row;
    bank = b.bank;
    col = b.col;
    byte_in_row = block_address - b.base_addr + pos / 8;
    byte_lane = (block_address - b.base_addr + pos / 8) % 8;
    bit_in_byte = pos % 8;
    flip_addr = block_address + pos / 8;
    data_bit = bit_and (b.word / 2 ^ pos) 1;
    expected_bit = bit_and (b.expected / 2 ^ pos) 1;
    block_addr = block_address;
    block_word_index = b.index;
  }

  -- `while xor:`, where `none` is fuel that ran out.
  unfoldable pub flip_rows : (fuel xor pos : ℕ) → Option (List FlipRow)
  unfolding flip_row
  flip_rows zero xor pos = if xor == 0 then some [] else none
  flip_rows (suc fuel) xor pos = elim (xor == 0) [
    | true ↦ some []
    | false ↦ elim (flip_rows fuel (xor / 2) (pos + 1)) [
      | none ↦ none
      | some rows ↦ some (if bit_and xor 1 == 0 then rows else flip_row pos ∷ rows)
    ]
  ]

  unfoldable pub dump_word : Option (List FlipRow)
  unfolding flip_rows
  dump_word = let xor = bit_xor b.word b.expected in flip_rows xor xor 0
