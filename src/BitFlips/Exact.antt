-- ===== src/BitFlips/Exact.antt =====
-- The rows that are logged of a word are those of the bits that differ.
use Prim.Native.Nat.{differ}
use native.Mathlib.Nat.{div-div-eq-div-mul, pow-suc, zero-div}
use rowhammer_tester.Prelude.{
  ℕ, zero, suc, ◌+◌, ◌-◌, ◌*◌, ◌/◌, ◌%◌, ◌^◌, ◌≤◌, ◌<◌, ◌≡◌, ◌≢◌, refl, sym, ap, ◌∙◌, bit_and,
  bit_xor, Bool, true, false, some, List, [], ◌∷◌, length, All, ◌==◌, if◌then◌else◌, arith,
  and_mask, xor_digit, Bool-cases, inl, inr,
}
use rowhammer_tester.BitFlips.{
  FlipRow, Block, flip_row, flip_rows, dump_word, bitflips, bitcount, bin, digits_onto, count_ones,
}

-- The bit of a word that a row of the log is about, from its address and its bit in the byte.
abbrev pub logged_bit : FlipRow → ℕ
logged_bit r = 8 * (r.flip_addr - r.block_addr) + r.bit_in_byte

-- How many rows are about a bit.
abbrev pub logged : ℕ → List FlipRow → ℕ
logged pos [] = 0
logged pos (r ∷ rows) = if logged_bit r == pos then suc (logged pos rows) else logged pos rows

abbrev pub bit : ℕ → ℕ → ℕ
bit word pos = word / 2 ^ pos % 2

-- 1 where the two words differ.
abbrev pub differs : ℕ → ℕ → ℕ → ℕ
differs word expected pos = if bit word pos == bit expected pos then 0 else 1

-- A row tells the two bits at its place, and they differ.
abbrev pub Tells : Block → FlipRow → Type 0
Tells b r =
    (r.data_bit ≡ bit b.word (logged_bit r))
    × (r.expected_bit ≡ bit b.expected (logged_bit r))
    × (r.data_bit + r.expected_bit ≡ 1)
    × (r.byte_in_row ≡ 4 * b.index + (r.flip_addr - r.block_addr))

low_bit : (n : ℕ) → bit_and n 1 ≡ n % 2
low_bit n = and_mask 1 n

zero-bit : (j : ℕ) → bit 0 j ≡ 0
zero-bit j = rw (zero-div (2 ^ j)) refl

suc-bit : (word j : ℕ) → bit word (suc j) ≡ bit (word / 2) j
suc-bit word j =
    ap (λ t. t % 2)
      (ap (λ t. word / t) (pow-suc 2 j ∙ omega arith) ∙ sym (div-div-eq-div-mul word 2 (2 ^ j)))

xor_halves :
    (a b : ℕ)
    → (bit_xor a b / 2 ≡ bit_xor (a / 2) (b / 2))
      × (bit_xor a b % 2 ≡ (if a % 2 == b % 2 then 0 else 1))
xor_halves a b =
    let d = differ_bits (a % 2) (b % 2) (omega arith) (omega arith) in
    (ground (arith, xor_digit a b), ground (arith, xor_digit a b))
  where
    differ_bits : (x y : ℕ) → x < 2 → y < 2 → differ x y ≡ (if x == y then 0 else 1)
    differ_bits zero zero h k = refl
    differ_bits zero (suc zero) h k = refl
    differ_bits (suc zero) zero h k = refl
    differ_bits (suc zero) (suc zero) h k = refl
    differ_bits (suc (suc x)) y h k = absurd (omega arith)
    differ_bits x (suc (suc y)) h k = absurd (omega arith)

bit-xor : (j a b : ℕ) → bit (bit_xor a b) j ≡ differs a b j
bit-xor zero a b =
    let e : (n : ℕ) → n / 2 ^ 0 ≡ n = λ n. omega arith in
    rw (e a, e b, e (bit_xor a b)) ((xor_halves a b).1)
bit-xor (suc j) a b =
    suc-bit (bit_xor a b) j
    ∙ rw ((xor_halves a b).0, suc-bit a j, suc-bit b j) (bit-xor j (a / 2) (b / 2))

module _ (b : Block) where
  logged_bit-flip_row : (pos : ℕ) → logged_bit (flip_row b pos) ≡ pos
  unfolding flip_row
  logged_bit-flip_row pos = omega arith

  flip_row-Tells : (pos : ℕ) → bit (bit_xor b.word b.expected) pos ≡ 1 → Tells b (flip_row b pos)
  unfolding flip_row
  flip_row-Tells pos flipped =
      let at : logged_bit (flip_row b pos) ≡ pos = logged_bit-flip_row pos in
      let other = sym (bit-xor pos b.word b.expected) ∙ flipped in
      rw at (
        low_bit (b.word / 2 ^ pos),
        low_bit (b.expected / 2 ^ pos),
        rw (low_bit (b.word / 2 ^ pos), low_bit (b.expected / 2 ^ pos)) (ground arith),
        omega arith,
      )

  -- What the rows of the loop from bit `k` on say of the exclusive or that is left.
  record Exact (xor k : ℕ) (rows : List FlipRow) : Type 0 where
    each : (j : ℕ) → logged (k + j) rows ≡ bit xor j
    none_before : (pos : ℕ) → pos < k → logged pos rows ≡ 0

  stop-Exact : (xor k : ℕ) → xor ≡ 0 → Exact xor k []
  stop-Exact xor k e = record { each = λ j. rw e (sym (zero-bit j)); none_before = λ pos h. refl }

  skip-Exact :
      (xor k : ℕ) (rows : List FlipRow)
      → xor % 2 ≡ 0
      → Exact (xor / 2) (k + 1) rows
      → Exact xor k rows
  skip-Exact xor k rows even x = record {
    each = each;
    none_before = λ pos h. x.none_before pos (omega arith);
  }
    where
      each : (j : ℕ) → logged (k + j) rows ≡ bit xor j
      each zero = x.none_before (k + 0) (omega arith) ∙ omega arith
      each (suc j) = ap (λ t. logged t rows) (omega arith) ∙ x.each j ∙ sym (suc-bit xor j)

  log-Exact :
      (xor k : ℕ) (rows : List FlipRow)
      → xor % 2 ≡ 1
      → Exact (xor / 2) (k + 1) rows
      → Exact xor k (flip_row b k ∷ rows)
  log-Exact xor k rows odd x = record {
    each = each;
    none_before = λ pos h. rw (other pos (omega arith)) (x.none_before pos (omega arith));
  }
    where
      other : (pos : ℕ) → pos ≢ k → (logged_bit (flip_row b k) == pos) ≡ false
      other pos h = rw (logged_bit-flip_row k) (ground arith)

      each : (j : ℕ) → logged (k + j) (flip_row b k ∷ rows) ≡ bit xor j
      each zero =
          let here : (logged_bit (flip_row b k) == k + 0) ≡ true =
            rw (logged_bit-flip_row k) (ground arith) in
          rw (here, x.none_before (k + 0) (omega arith)) (omega arith)
      each (suc j) =
          rw (other (k + suc j) (omega arith))
            (ap (λ t. logged t rows) (omega arith) ∙ x.each j ∙ sym (suc-bit xor j))

  -- What the loop gives, with as many rows as the binary number in hand has ones.
  record Logs (fuel xor k : ℕ) : Type 0 where
    rows : List FlipRow
    returned : flip_rows b fuel xor k ≡ some rows
    exact : Exact xor k rows
    tells : All (Tells b) rows
    counted :
        (acc : List Bool) → count_ones (digits_onto fuel xor acc) ≡ length rows + count_ones acc

  abbrev Remains : ℕ → ℕ → Type 0
  Remains xor k = (j : ℕ) → bit xor j ≡ bit (bit_xor b.word b.expected) (k + j)

  flip_rows-Logs : (fuel xor k : ℕ) → xor ≤ fuel → Remains xor k → Logs fuel xor k
  unfolding flip_rows digits_onto count_ones
  flip_rows-Logs zero xor k h r =
      let e : xor ≡ 0 = omega arith in
      record {
        rows = [];
        returned = rw e refl;
        exact = stop-Exact xor k e;
        tells = tt;
        counted = λ acc. omega arith;
      }
  flip_rows-Logs (suc fuel) xor k h r = elim (Bool-cases (xor == 0)) [
    | inl ends ↦ record {
      rows = [];
      returned = rw (ends, flip_rows) refl;
      exact = stop-Exact xor k (ground arith);
      tells = tt;
      counted = λ acc. rw (ends, digits_onto) (omega arith);
    }
    | inr goes_on ↦
        let left : xor ≢ 0 = ground arith in
        let rest = flip_rows-Logs fuel (xor / 2) (k + 1) (omega arith) (λ j.
          sym (suc-bit xor j)
          ∙ r (suc j)
          ∙ ap (λ t. bit (bit_xor b.word b.expected) t) (omega arith)) in
        elim (Bool-cases (xor % 2 == 1)) [
          | inl odd ↦
              let one : xor % 2 ≡ 1 = ground arith in
              let kept : (bit_and xor 1 == 0) ≡ false = rw (low_bit xor) (ground arith) in
              let here : bit (bit_xor b.word b.expected) k ≡ 1 =
                ap (λ t. bit (bit_xor b.word b.expected) t) (omega arith)
                ∙ sym (r 0)
                ∙ omega arith in
              record {
                rows = flip_row b k ∷ rest.rows;
                returned = rw (goes_on, rest.returned, kept, flip_rows) refl;
                exact = log-Exact xor k rest.rows one rest.exact;
                tells = (flip_row-Tells k here, rest.tells);
                counted =
                    λ acc. rw (goes_on, odd, digits_onto) (rest.counted (true ∷ acc) ∙ omega arith);
              }
          | inr even ↦
              let none_here : xor % 2 ≡ 0 = ground arith in
              let skipped : (bit_and xor 1 == 0) ≡ true = rw (low_bit xor) (ground arith) in
              record {
                rows = rest.rows;
                returned = rw (goes_on, rest.returned, skipped, flip_rows) refl;
                exact = skip-Exact xor k rest.rows none_here rest.exact;
                tells = rest.tells;
                counted = λ acc. rw (goes_on, even, digits_onto) (rest.counted (false ∷ acc));
              }
        ]
  ]

count_ones-bin : (n : ℕ) → count_ones (bin n) ≡ count_ones (digits_onto n n [])
unfolding bin digits_onto count_ones
count_ones-bin zero = refl
count_ones-bin (suc n) = ground arith

-- The loop over the bits of a word ends, and its log is exact: each bit in which the word differs
-- from the expected one has one row, by the row's address and bit in the byte, and each other bit
-- none; the rows are as many as `bitflips` counts; and each row tells the two bits, which differ, and
-- the offset of its byte in the row.
pub dump_word-exact :
    (b : Block)
    → (rows : List FlipRow) × (dump_word b ≡ some rows)
      × ((pos : ℕ) → logged pos rows ≡ differs b.word b.expected pos)
      × (length rows ≡ bitflips b.word b.expected)
      × All (Tells b) rows
unfolding dump_word bitflips bitcount
dump_word-exact b =
    let x = bit_xor b.word b.expected in
    let l = flip_rows-Logs b x x 0 (omega arith) (λ j. ap (λ t. bit x t) (omega arith)) in
    (
      l.rows,
      l.returned,
      λ pos.
          ap (λ t. logged t l.rows) (omega arith)
          ∙ l.exact.each pos
          ∙ bit-xor pos b.word b.expected,
      sym (count_ones-bin x ∙ l.counted [] ∙ count_nothing),
      l.tells,
    )
  where
    count_nothing : {n : ℕ} → n + 0 ≡ n
    count_nothing = omega arith
