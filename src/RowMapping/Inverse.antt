-- ===== src/RowMapping/Inverse.antt =====
-- The two directions of each row mapping.
use rowhammer_tester.Prelude.{
  suc, zero, ℕ, ◌+◌, ◌-◌, ◌*◌, ◌/◌, ◌%◌, ◌≡◌, ◌⊎◌, inl, inr, refl, ◌∙◌, bit_and, bit_xor, arith,
  bit_xor-zero, xor_two, xor_four, and_shifted, and_mask,
}
use rowhammer_tester.RowMapping.{
  RowMapping, trivial_row_mapping, type_a_flip, type_a_row_mapping, type_b_row_mapping,
}

bit_three : (row : ℕ) → bit_and row 8 / 8 ≡ row / 8 % 2
bit_three row = omega (arith, and_shifted 3 row 1, and_mask 1 (row / 8))

-- Bit 3 decides whether the bits 1 and 2 are flipped.
type_a_flip_cases :
    (row : ℕ)
    → ((row / 8 % 2 ≡ 0) × (type_a_flip row ≡ row))
      ⊎ ((row / 8 % 2 ≡ 1) × (type_a_flip row ≡ row / 8 * 8 + (6 - row % 8 / 2 * 2) + row % 2))
unfolding type_a_flip
type_a_flip_cases row = split (row / 8 % 2) refl
  where
    split :
        (b : ℕ)
        → row / 8 % 2 ≡ b
        → ((row / 8 % 2 ≡ 0) × (type_a_flip row ≡ row))
          ⊎ ((row / 8 % 2 ≡ 1) × (type_a_flip row ≡ row / 8 * 8 + (6 - row % 8 / 2 * 2) + row % 2))
    split zero e =
        let b : bit_and row 8 / 8 ≡ 0 = bit_three row ∙ e in
        inl (e, rw b (bit_xor-zero (bit_xor row 0) ∙ bit_xor-zero row))
    split (suc zero) e =
        let b : bit_and row 8 / 8 ≡ 1 = bit_three row ∙ e in
        inr (e, rw b (omega (arith, xor_four (bit_xor row 2), xor_two row)))
    split (suc (suc n)) e = absurd (omega arith)

-- The type A mapping is its own inverse on every row.
type_a_flip_twice : (row : ℕ) → type_a_flip (type_a_flip row) ≡ row
type_a_flip_twice row = omega (arith, type_a_flip_cases row, type_a_flip_cases (type_a_flip row))

-- A mapping whose physical rows lead back to their logical rows.
abbrev pub IsInvertible : RowMapping → Type 0
IsInvertible m = (row : ℕ) → m.physical_to_logical (m.logical_to_physical row) ≡ row

-- Each of the three mappings is inverted by its `physical_to_logical`; for type A and the trivial
-- one this holds in the other direction too, and type B gives even rows only.
row_mappings-IsInvertible :
    IsInvertible trivial_row_mapping
    × IsInvertible type_a_row_mapping
    × IsInvertible type_b_row_mapping
    × ((row : ℕ)
        → type_a_row_mapping.logical_to_physical (type_a_row_mapping.physical_to_logical row) ≡ row)
    × ((row : ℕ) → type_b_row_mapping.logical_to_physical row % 2 ≡ 0)
unfolding trivial_row_mapping type_a_row_mapping type_b_row_mapping
row_mappings-IsInvertible =
    (λ row. refl, type_a_flip_twice, λ row. omega arith, type_a_flip_twice, λ row. omega arith)
