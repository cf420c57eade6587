-- ===== src/RowGenerator/Rows.antt =====
-- The rows that the generators return.
use rowhammer_tester.Prelude.{ℕ, zero, suc, ◌+◌, ◌*◌, ◌%◌, List, [], ◌∷◌}
use rowhammer_tester.RowMapping.{RowMapping}

-- Every second row from `iteration` on, modulo `max_row`.
abbrev even_rows : ℕ → ℕ → ℕ → ℕ → List ℕ
even_rows iteration max_row zero i = []
even_rows iteration max_row (suc n) i =
    (iteration + 2 * i) % max_row ∷ even_rows iteration max_row n (i + 1)
