-- ===== src/RowMapping.antt =====
-- rowhammer_tester/scripts/playbook/row_mappings/__init__.py: class RowMapping and its subclasses.
pub mod Inverse
use rowhammer_tester.Prelude.{ℕ, ◌*◌, ◌/◌, bit_and, bit_xor}

-- The abstract class: a pair of methods.
pub record RowMapping : Type 0 where
  pub logical_to_physical : ℕ → ℕ
  pub physical_to_logical : ℕ → ℕ

unfoldable pub trivial_row_mapping : RowMapping
trivial_row_mapping = record {
  logical_to_physical = λ logical. logical;
  physical_to_logical = λ physical. physical;
}

unfoldable pub type_a_flip : ℕ → ℕ
type_a_flip row = let bit3 : ℕ = bit_and row 8 / 8 in bit_xor (bit_xor row (bit3 * 2)) (bit3 * 4)

unfoldable pub type_a_row_mapping : RowMapping
unfolding type_a_flip
type_a_row_mapping = record { logical_to_physical = type_a_flip; physical_to_logical = type_a_flip }

unfoldable pub type_b_row_mapping : RowMapping
type_b_row_mapping = record {
  logical_to_physical = λ logical. logical * 2;
  physical_to_logical = λ physical. physical / 2;
}
