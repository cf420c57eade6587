-- ===== src/Encoder/Address.antt =====
-- The address field: rank below bank below row or column.
use native.Mathlib.Nat.{div-div-eq-div-mul, mod-eq_of_lt}
use rowhammer_tester.Prelude.{
  ℕ, ◌+◌, ◌-◌, ◌*◌, ◌/◌, ◌%◌, ◌^◌, ◌<◌, max, ◌≡◌, ◌∙◌, ap, sym, false, Option, some, ◌&&◌, arith,
  ok, bit_and, bit_or, ltb, Bool-cases, inl, inr, and_mask, or_shifted, shifted_or, join-mod,
  join-div, pow_add,
}
use rowhammer_tester.Decoder.{Geometry}
use rowhammer_tester.Encoder.{Encoder, address, rowcol, is_some}

-- The encoder and the decoder of one system: migen's `log2_int` gives the number of rank bits.
pub record IsConfigured (log2_int : ℕ → ℕ) (g : Geometry) (e : Encoder) : Type 0 where
  pub bank_width : e.bankbits ≡ g.bankbits
  pub rank_width : log2_int e.nranks ≡ g.rankbits
  pub rank_count : 2 ^ g.rankbits ≡ e.nranks

-- The decoder's slices of an address.
abbrev pub Holds : Geometry → ℕ → ℕ → ℕ → ℕ → Type 0
Holds g a rank bank line =
    (a % 2 ^ g.rankbits ≡ rank)
    × (a / 2 ^ g.rankbits % 2 ^ g.bankbits ≡ bank)
    × (a / 2 ^ (g.rankbits + g.bankbits) % 2 ^ max g.rowbits g.colbits ≡ line)

Holds-sum :
    (g : Geometry) (rank bank line : ℕ)
    → rank < 2 ^ g.rankbits
    → bank < 2 ^ g.bankbits
    → line < 2 ^ max g.rowbits g.colbits
    → Holds g (rank + (bank + line * 2 ^ g.bankbits) * 2 ^ g.rankbits) rank bank line
Holds-sum g rank bank line r b l =
    let inner : ℕ = bank + line * 2 ^ g.bankbits in
    let whole : ℕ = rank + inner * 2 ^ g.rankbits in
    let up : whole / 2 ^ g.rankbits ≡ inner = join-div g.rankbits rank inner r in
    (
      join-mod g.rankbits rank inner r,
      ap (λ t. t % 2 ^ g.bankbits) up ∙ join-mod g.bankbits bank line b,
      ap (λ t. whole / t % 2 ^ max g.rowbits g.colbits) (pow_add g.rankbits g.bankbits)
          ∙ ap (λ t. t % 2 ^ max g.rowbits g.colbits)
              (sym (div-div-eq-div-mul whole (2 ^ g.rankbits) (2 ^ g.bankbits))
                ∙ ap (λ t. t / 2 ^ g.bankbits) up
                ∙ join-div g.bankbits bank line b)
          ∙ mod-eq_of_lt l,
    )

-- The address below the rank.
base_address :
    (k bank line : ℕ)
    → bank < 2 ^ k
    → bit_or (bit_and bank (2 ^ k - 1)) (line * 2 ^ k) ≡ bank + line * 2 ^ k
base_address k bank line b = rw (and_mask k bank, mod-eq_of_lt b) (or_shifted k bank line b)

address-sum :
    (log2_int : ℕ → ℕ) (g : Geometry) (e : Encoder) (rank bank : ℕ) (row col : Option ℕ)
    → IsConfigured log2_int g e
    → is_some row && is_some col ≡ false
    → rank < e.nranks
    → bank < 2 ^ g.bankbits
    → address log2_int e (some rank) bank row col
      ≡ ok (rank + (bank + rowcol row col * 2 ^ g.bankbits) * 2 ^ g.rankbits)
unfolding address
address-sum log2_int g e rank bank row col c one r b =
    rw (one, c.bank_width, c.rank_width, base_address g.bankbits bank (rowcol row col) b)
      (elim (Bool-cases (ltb 1 e.nranks)) [
        | inl many ↦ rw many (
            ap ok (
              shifted_or g.rankbits (bank + rowcol row col * 2 ^ g.bankbits) rank
                (rw c.rank_count r)
              ∙ omega arith))
        | inr single ↦
            let unit : 2 ^ g.rankbits ≡ 1 = ground (arith, c.rank_count) in
            rw single (ap ok (rw unit (omega arith)))
      ])

-- The decoder's slices of an address that the encoder builds are its rank, bank and row (or
-- column), when these are in range, a row and a column are not both given, and the encoder and the
-- decoder are of one system.
pub decode-address :
    (log2_int : ℕ → ℕ) (g : Geometry) (e : Encoder) (rank bank : ℕ) (row col : Option ℕ)
    → IsConfigured log2_int g e
    → is_some row && is_some col ≡ false
    → rank < e.nranks
    → bank < 2 ^ g.bankbits
    → rowcol row col < 2 ^ max g.rowbits g.colbits
    → (a : ℕ) × (address log2_int e (some rank) bank row col ≡ ok a)
      × Holds g a rank bank (rowcol row col)
decode-address log2_int g e rank bank row col c one r b l = (
  rank + (bank + rowcol row col * 2 ^ g.bankbits) * 2 ^ g.rankbits,
  address-sum log2_int g e rank bank row col c one r b,
  Holds-sum g rank bank (rowcol row col) (rw c.rank_count r) b l,
)
