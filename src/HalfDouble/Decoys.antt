-- ===== src/HalfDouble/Decoys.antt =====
-- The rows that are hammered behind a victim which flips at distance two.
use mathlib.Core.Path.{subst}
use rowhammer_tester.Prelude.{
  ℕ, zero, suc, ◌+◌, ◌-◌, ◌%◌, ◌≡◌, ◌⊎◌, inl, inr, refl, sym, Bool, true, false, ◌==◌, List, [],
  ◌∷◌, map, All, ok, Bool-cases,
}
use mathlib.Core.List.{append-nil}
use rowhammer_tester.RowMapping.{RowMapping}
use rowhammer_tester.RowGenerator.{
  HalfDoubleConfig, distance_two_row, distance_two_rows, distance_one_rows,
  half_double_generate_rows,
}
use rowhammer_tester.HalfDouble.{
  Params, Machine, at_distance_one, at_distance_two, noflip_distance_two, advance,
}
use rowhammer_tester.HalfDouble.Invariant.{IsUsable, IsConsistent, StateHolds}
use rowhammer_tester.HalfDouble.Dilution.{fresh_row, next_row_lem}

abbrev pub IsDecoy : HalfDoubleConfig → RowMapping → ℕ → Type 0
IsDecoy g m row =
    (row ≡ m.logical_to_physical (g.decoy_rows_start + 1))
    ⊎ (row ≡ m.logical_to_physical (g.decoy_rows_start + 2))

abbrev OnlyDecoys : RowMapping → ℕ → HalfDoubleConfig → Type 0
OnlyDecoys m iteration g =
    (rows : List ℕ) × (half_double_generate_rows g m iteration ≡ ok rows) × All (IsDecoy g m) rows

-- The configuration with both sides, and no attack rows.
abbrev idle : HalfDoubleConfig → HalfDoubleConfig
idle g = record g { distance_one = false; double_sided = true; distance_two = false }

module _ (g : HalfDoubleConfig) (m : RowMapping) where
  abbrev decoy : Bool → ℕ
  decoy true = g.decoy_rows_start + 2
  decoy false = g.decoy_rows_start + 1

  decoy_row : (iteration i : ℕ) → distance_two_row (idle g) iteration i ≡ ok (decoy (i % 2 == 1))
  unfolding distance_two_row
  decoy_row iteration i = elim (Bool-cases (i % 2 == 1)) [
    | inl odd ↦ rw odd refl
    | inr even ↦ rw even refl
  ]

  decoy-IsDecoy : (odd : Bool) → IsDecoy g m (m.logical_to_physical (decoy odd))
  decoy-IsDecoy true = inr refl
  decoy-IsDecoy false = inl refl

  far_decoys :
      (iteration n i : ℕ)
      → (rows : List ℕ) × (distance_two_rows (idle g) iteration n i ≡ ok rows)
        × All (IsDecoy g m) (map m.logical_to_physical rows)
  unfolding distance_two_rows
  far_decoys iteration zero i = ([], refl, tt)
  far_decoys iteration (suc n) i =
      let (rest, e, decoys) = far_decoys iteration n (i + 1) in
      (
        decoy (i % 2 == 1) ∷ rest,
        rw (decoy_row iteration i, e) refl,
        (decoy-IsDecoy (i % 2 == 1), decoys),
      )

  only_decoys : (iteration : ℕ) → OnlyDecoys m iteration (idle g)
  unfolding half_double_generate_rows distance_one_rows
  only_decoys iteration =
      let (far, e, decoys) = far_decoys iteration (g.nr_rows - 2) 0 in
      (map m.logical_to_physical far, rw (e, append-nil) refl, decoys)

-- In a machine that satisfies the invariant, when the victim flips while rows at distance two alone
-- are hammered, the analysis goes on to the next row, and there the generator gives nothing but
-- decoy rows, at every iteration: the attack rows at distance one are not hammered again.
pub advance-decoys :
    (p : Params) (m : Machine) (mapping : RowMapping) (iteration : ℕ)
    → IsUsable p
    → IsConsistent p m
    → m.state ≡ at_distance_two
    → (m' : Machine) × (advance p true m ≡ ok m')
      × (m'.state ≡ at_distance_one)
      × (m'.iteration ≡ m.iteration + 1)
      × (rows : List ℕ) × (half_double_generate_rows m'.generator mapping iteration ≡ ok rows)
      × All (IsDecoy m'.generator mapping) rows
unfolding advance noflip_distance_two
advance-decoys p m mapping iteration u c e =
    let holds : StateHolds p m at_distance_two = subst (λ s. StateHolds p m s) e c.state_holds in
    let m' = fresh_row p m in
    let idles : m'.generator ≡ idle m'.generator =
      λ i. record m'.generator { distance_one = holds.0 i; double_sided = c.sides i } in
    let (rows, generated, decoys) =
      subst (OnlyDecoys mapping iteration) (sym idles)
        (only_decoys m'.generator mapping iteration) in
    (m', rw e (next_row_lem p m u), refl, refl, rows, generated, decoys)
