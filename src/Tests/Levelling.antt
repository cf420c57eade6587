-- ===== src/Tests/Levelling.antt =====
-- Read levelling.
use rowhammer_tester.Prelude.{
  ℕ, ◌-◌, ◌<◌, ◌≡◌, refl, inl, inr, ◌&&◌, some, List, [], ◌∷◌, leb, ◌==◌, if◌then◌else◌, ok, arith,
}
use rowhammer_tester.ReadLevel.{
  Score, Row, Best, Phy, row_key, best_window, find_best, windows_from, best_of, max_by,
  read_level_module,
}
use rowhammer_tester.ReadLevel.Longest.{Reaches, find_best-longest}
use rowhammer_tester.ReadLevel.Leveled.{read_level_module-error_free}

abbrev score : ℕ → ℕ → Score
score dly errors = record { dly = dly; errors = errors }

abbrev rows : List Row
rows =
    record { bitslip = 0; scores = score 0 3 ∷ score 1 0 ∷ score 2 1 ∷ score 3 1 ∷ score 4 2 ∷ [] }
    ∷ record {
      bitslip = 1;
      scores = score 0 3 ∷ score 1 0 ∷ score 2 0 ∷ score 3 0 ∷ score 4 2 ∷ [];
    }
    ∷ []

abbrev best : Best
best = record { best_bs = 1; best_delay = 2; best_length = 3 }

finds : find_best rows ≡ ok (some best)
unfolding find_best row_key best_window windows_from best_of max_by
finds = refl

find_best-longest_example : Reaches (3 - 1) (some best)
find_best-longest_example =
    find_best-longest rows
      (record {
        bitslip = 1;
        scores = score 0 3 ∷ score 1 0 ∷ score 2 0 ∷ score 3 0 ∷ score 4 2 ∷ [];
      })
      (score 1 0) (score 3 0) (some best) (omega arith) (inr (inl refl)) (inr (inl refl))
      (inr (inr (inr (inl refl)))) (omega arith) refl finds

abbrev errors : Phy → ℕ
errors p = if p.bitslip == 1 && leb 2 p.delay && leb p.delay 4 then 0 else 1

read_level_module-error_free_example :
    (q : Phy) × (read_level_module errors 1 2 6 (record { bitslip = 7; delay = 9 }) ≡ ok q)
    × (errors q ≡ 0)
    × (q.bitslip < 2)
    × (q.delay < 6)
read_level_module-error_free_example =
    read_level_module-error_free errors 2 6 1 3 (record { bitslip = 7; delay = 9 }) (omega arith)
      (omega arith) refl
