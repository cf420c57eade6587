-- ===== src/AddressConverter/RoundTrip.antt =====
-- Addresses and locations: what the converter encodes it decodes.
use native.Mathlib.Nat.{
  mod-eq_of_lt, mul-div_left, one-le-pow, div-div-eq-div-mul, add-mul-div_right, mod-add-div',
}
use rowhammer_tester.Prelude.{
  ℕ, ◌+◌, ◌-◌, ◌*◌, ◌/◌, ◌%◌, ◌^◌, ◌≤◌, ◌<◌, ◌≡◌, refl, sym, ap, ap₂, ◌∙◌, bit_or, false, ltb,
  arith, ok, and_mask, and_shifted, shifted_or, join-mod, join-div, join-lt, pow_add, lt→ltb,
  ==_iff, Bool-cases, inl, inr,
}
use rowhammer_tester.AddressConverter.{
  Converter, Location, masked, extract, encode_location, decode_location, encode_dma, decode_dma,
  encode_bus, decode_bus, shift_by, bus_shift,
}

-- A location that the memory has.
pub record InRange (c : Converter) (l : Location) : Type 0 where
  pub bank_fits : l.bank < 2 ^ c.bankbits
  pub row_fits : l.row < 2 ^ c.rowbits
  pub col_fits : l.col < 2 ^ c.colbits

extract_lem : (v w k : ℕ) → extract v w k ≡ v / 2 ^ k % 2 ^ w
unfolding extract
extract_lem v w k =
    rw (and_shifted k v (2 ^ w - 1), and_mask w (v / 2 ^ k))
      (mul-div_left (v / 2 ^ k % 2 ^ w) (one-le-pow k 2 (omega arith)))

masked_lem : (v w k : ℕ) → v < 2 ^ w → masked v w k ≡ ok (v * 2 ^ k)
unfolding masked
masked_lem v w k h = rw (and_mask w v, mod-eq_of_lt h, (==_iff v v).1 refl) refl

-- ROW_BANK_COL as a sum.
abbrev pub flat : Converter → Location → ℕ
flat c l = l.col + (l.bank + l.row * 2 ^ c.bankbits) * 2 ^ c.colbits

module _ (c : Converter) (l : Location) (r : InRange c l) where
  shifted_row : l.row * 2 ^ (c.bankbits + c.colbits) ≡ l.row * 2 ^ c.bankbits * 2 ^ c.colbits
  shifted_row = omega (arith, ap (λ (t : ℕ). l.row * t) (pow_add c.bankbits c.colbits))

  below_row : l.bank * 2 ^ c.colbits < 2 ^ (c.bankbits + c.colbits)
  below_row =
      let h =
        join-lt c.colbits c.bankbits 0 l.bank (one-le-pow c.colbits 2 (omega arith)) r.bank_fits in
      omega arith

  pub encode_location-flat : encode_location c l ≡ ok (flat c l)
  unfolding encode_location
  encode_location-flat =
      let high : ℕ = l.bank + l.row * 2 ^ c.bankbits in
      let rows_banks : bit_or (l.row * 2 ^ (c.bankbits + c.colbits)) (l.bank * 2 ^ c.colbits)
          ≡ high * 2 ^ c.colbits =
        shifted_or (c.bankbits + c.colbits) l.row (l.bank * 2 ^ c.colbits) below_row
        ∙ omega (arith, shifted_row) in
      let cols : l.col * 2 ^ 0 ≡ l.col = omega arith in
      rw
        (
          lt→ltb l.bank _ r.bank_fits,
          lt→ltb l.row _ r.row_fits,
          lt→ltb l.col _ r.col_fits,
          masked_lem l.row c.rowbits (c.bankbits + c.colbits) r.row_fits,
          masked_lem l.bank c.bankbits c.colbits r.bank_fits,
          masked_lem l.col c.colbits 0 r.col_fits,
        )
        (ap ok
          (ap₂ bit_or rows_banks cols ∙ shifted_or c.colbits high l.col r.col_fits ∙ omega arith))

  decode_flat : decode_location c (flat c l) ≡ l
  unfolding decode_location
  decode_flat =
      let high : ℕ = l.bank + l.row * 2 ^ c.bankbits in
      let up : flat c l / 2 ^ c.colbits ≡ high = join-div c.colbits l.col high r.col_fits in
      let bank : extract (flat c l) c.bankbits c.colbits ≡ l.bank =
        extract_lem (flat c l) c.bankbits c.colbits
        ∙ ap (λ t. t % 2 ^ c.bankbits) up
        ∙ join-mod c.bankbits l.bank l.row r.bank_fits in
      let top : flat c l / 2 ^ (c.bankbits + c.colbits) ≡ l.row =
        ap (λ t. flat c l / t) (pow_add c.bankbits c.colbits ∙ omega arith)
        ∙ sym (div-div-eq-div-mul (flat c l) (2 ^ c.colbits) (2 ^ c.bankbits))
        ∙ ap (λ t. t / 2 ^ c.bankbits) up
        ∙ join-div c.bankbits l.bank l.row r.bank_fits in
      let row : extract (flat c l) c.rowbits (c.bankbits + c.colbits) ≡ l.row =
        extract_lem (flat c l) c.rowbits (c.bankbits + c.colbits)
        ∙ ap (λ t. t % 2 ^ c.rowbits) top
        ∙ mod-eq_of_lt r.row_fits in
      let col : extract (flat c l) c.colbits 0 ≡ l.col =
        extract_lem (flat c l) c.colbits 0
        ∙ ap (λ t. t % 2 ^ c.colbits) (omega arith)
        ∙ join-mod c.colbits l.col high r.col_fits in
      λ i. record { bank = bank i; row = row i; col = col i }

-- The location whose column has its `d` low bits cleared.
abbrev pub aligned : ℕ → Location → Location
aligned d l = record l { col = l.col / 2 ^ d * 2 ^ d }

module _ (c : Converter) (l : Location) (r : InRange c l) where
  flat-aligned : (d : ℕ) → d ≤ c.colbits → flat c l / 2 ^ d * 2 ^ d ≡ flat c (aligned d l)
  flat-aligned d h =
      let high : ℕ = l.bank + l.row * 2 ^ c.bankbits in
      let k : ℕ = c.colbits - d in
      let width : 2 ^ c.colbits ≡ 2 ^ k * 2 ^ d = ap (λ t. 2 ^ t) (omega arith) ∙ pow_add k d in
      let whole : flat c l ≡ l.col + high * 2 ^ k * 2 ^ d =
        ap (λ t. l.col + t) (ap (λ t. high * t) width ∙ omega arith) in
      let down : flat c l / 2 ^ d ≡ l.col / 2 ^ d + high * 2 ^ k =
        ap (λ t. t / 2 ^ d) whole
        ∙ add-mul-div_right l.col (high * 2 ^ k) (one-le-pow d 2 (omega arith)) in
      ap (λ t. t * 2 ^ d) down ∙ omega (arith, ap (λ (t : ℕ). high * t) width)

  aligned-InRange : (d : ℕ) → InRange c (aligned d l)
  aligned-InRange d = record {
    bank_fits = r.bank_fits;
    row_fits = r.row_fits;
    col_fits = let h = r.col_fits in omega (arith, mod-add-div' l.col (2 ^ d));
  }

  decode-aligned :
      (d : ℕ) → d ≤ c.colbits → decode_location c (flat c l / 2 ^ d * 2 ^ d) ≡ aligned d l
  decode-aligned d h =
      ap (decode_location c) (flat-aligned d h) ∙ decode_flat c (aligned d l) (aligned-InRange d)

-- With an alignment within the column bits, a location in range has a DMA address, from which the
-- decoder gets the location back with the column cut down to a multiple of the burst length.
pub decode_dma-encode_dma :
    (c : Converter) (l : Location)
    → InRange c l
    → c.address_align ≤ c.colbits
    → (a : ℕ) × (encode_dma c l ≡ ok a) × (decode_dma c a ≡ aligned c.address_align l)
unfolding encode_dma decode_dma
decode_dma-encode_dma c l r h = (
  flat c l / 2 ^ c.address_align,
  rw (encode_location-flat c l r) refl,
  decode-aligned c l r c.address_align h,
)

shift_twice :
    (up down x : ℕ) → shift_by down up (shift_by up down x) ≡ x / 2 ^ (down - up) * 2 ^ (down - up)
unfolding shift_by
shift_twice up down x = elim (Bool-cases (ltb down up)) [
  | inl left ↦
      let back : ltb up down ≡ false = ground arith in
      let none_left : down - up ≡ 0 = ground arith in
      rw (left, back, none_left)
        (mul-div_left x (one-le-pow (up - down) 2 (omega arith)) ∙ omega arith)
  | inr right ↦ rw right (elim (Bool-cases (ltb up down)) [
    | inl back ↦ rw back refl
    | inr same ↦
        let d : down - up ≡ 0 = ground arith in
        let u : up - down ≡ 0 = ground arith in rw (same, d, u) (omega arith)
  ])
]

shift_back :
    (c : Converter) (l : Location) (up down : ℕ)
    → InRange c l
    → down - up ≤ c.colbits
    → decode_location c (shift_by down up (shift_by up down (flat c l))) ≡ aligned (down - up) l
shift_back c l up down r h =
    ap (decode_location c) (shift_twice up down (flat c l)) ∙ decode-aligned c l r (down - up) h

-- With what the bus cannot address within the column bits, a location in range has a bus address
-- at or above the base, from which the decoder gets the location back with the column cut down to
-- what the bus can address.
pub decode_bus-encode_bus :
    (log2_int : ℕ → ℕ) (c : Converter) (base bus_width : ℕ) (l : Location)
    → InRange c l
    → c.address_align - bus_shift log2_int c bus_width ≤ c.colbits
    → (a : ℕ) × (encode_bus log2_int c base bus_width l ≡ ok a)
      × (base ≤ a)
      × (decode_bus log2_int c base bus_width a
          ≡ aligned (c.address_align - bus_shift log2_int c bus_width) l)
unfolding encode_bus decode_bus
decode_bus-encode_bus log2_int c base bus_width l r h =
    let up = bus_shift log2_int c bus_width in
    let a : ℕ = shift_by up c.address_align (flat c l) in
    (
      base + a,
      rw (encode_location-flat c l r) refl,
      omega arith,
      ap (λ t. decode_location c (shift_by c.address_align up t)) (omega arith)
          ∙ shift_back c l up c.address_align r h,
    )
