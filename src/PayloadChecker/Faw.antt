-- ===== src/PayloadChecker/Faw.antt =====
-- rowhammer_tester/payload/ddr3lib.py and ddr4lib.py: `prev_acts` and the tFAW check, the same in
-- both.
use rowhammer_tester.Prelude.{ℕ, ◌+◌, ◌≤◌, ◌<◌, ◌≡◌, refl, false, List, [], ◌∷◌, arith}
use rowhammer_tester.PayloadChecker.{push_act, breaks_faw}

-- What a deque of four holds, of values given the latest first.
abbrev pub last_four : List ℕ → List ℕ
last_four [] = []
last_four (a ∷ []) = a ∷ []
last_four (a ∷ b ∷ []) = b ∷ a ∷ []
last_four (a ∷ b ∷ c ∷ []) = c ∷ b ∷ a ∷ []
last_four (a ∷ b ∷ c ∷ d ∷ _) = d ∷ c ∷ b ∷ a ∷ []

-- An ACT at `tick`, behind those at `acts`, is no fifth one within `faw`.
abbrev pub FawKept : ℕ → ℕ → List ℕ → Type 0
FawKept faw tick (a ∷ b ∷ c ∷ d ∷ _) = d + faw ≤ tick
FawKept faw tick _ = Unit

pub push_act-last_four :
    (acts : List ℕ) (t : ℕ) → push_act (last_four acts) t ≡ last_four (t ∷ acts)
push_act-last_four [] t = refl
push_act-last_four (a ∷ []) t = refl
push_act-last_four (a ∷ b ∷ []) t = refl
push_act-last_four (a ∷ b ∷ c ∷ []) t = refl
push_act-last_four (a ∷ b ∷ c ∷ d ∷ _) t = refl

pub breaks_faw-FawKept :
    (faw tick : ℕ) (acts : List ℕ)
    → 0 < faw
    → breaks_faw faw tick (last_four acts) ≡ false
    → FawKept faw tick acts
breaks_faw-FawKept faw tick acts pos h = ground arith
