-- ===== src/ReadLevel/Windows.antt =====
-- rowhammer_tester/scripts/read_level.py: the windows of a bitslip.
use rowhammer_tester.Prelude.{
  ℕ, suc, ◌≤◌, ◌<◌, ◌≡◌, ◌⊎◌, inl, inr, Bool, true, false, not, ◌&&◌, List, [], ◌∷◌, ◌++◌, ◌==◌,
  All, All-map, ap, arith, Bool-cases,
}
use rowhammer_tester.ReadLevel.{Score, Window, next_in, next_start, closed, windows_from, middle}

-- The delays rise, from `b` on.
abbrev pub Rising : ℕ → List Score → Type 0
Rising b [] = Unit
Rising b (x ∷ l) = (b ≤ x.dly) × Rising (suc x.dly) l

-- A score is one of a list.
abbrev pub In : Score → List Score → Type 0
In x [] = ⊥
In x (y ∷ l) = (x ≡ y) ⊎ In x l

pub In-Rising : (b : ℕ) (x : Score) (l : List Score) → Rising b l → In x l → b ≤ x.dly
In-Rising b x [] h m = absurd m
In-Rising b x (y ∷ l) (h, hs) (inl e) = rw e h
In-Rising b x (y ∷ l) (h, hs) (inr m) = omega (arith, h, In-Rising (suc y.dly) x l hs m)

-- The invariants of the loop: an open window starts no later than the last delay, which is below
-- those to come.
abbrev pub Open : ℕ → Bool → ℕ → ℕ → Type 0
Open b true start last = (start ≤ last) × (last < b)
Open b false start last = Unit

abbrev From : ℕ → Bool → ℕ → Type 0
From b true start = b ≤ start
From b false start = Unit

All-append : (P : Window → Type 0) (a b : List Window) → All P a → All P b → All P (a ++ b)
All-append P [] b ha hb = hb
All-append P (x ∷ a) b (h, ha) hb = (h, All-append P a b ha hb)

Rising-le : (a b : ℕ) (l : List Score) → a ≤ b → Rising b l → Rising a l
Rising-le a b [] le h = _
Rising-le a b (x ∷ l) le (h, hs) = (omega (arith, le, h), hs)

closed-From :
    (b : ℕ) (x : Score) (o : Bool) (start : ℕ)
    → From b o start
    → All (λ w. b ≤ w.start) (closed x o start)
closed-From b x o start f = ground arith

next-From :
    (b : ℕ) (x : Score) (o : Bool) (start : ℕ)
    → b ≤ x.dly
    → From b o start
    → From b (next_in x o) (next_start x o start)
next-From b x o start h f = ground arith

-- Every window starts at the one that is open or later.
windows_from-start :
    (b : ℕ) (o : Bool) (start last : ℕ) (l : List Score)
    → Rising b l
    → From b o start
    → All (λ w. b ≤ w.start) (windows_from o start last l)
unfolding windows_from
windows_from-start b true start last [] h f = (f, _)
windows_from-start b false start last [] h f = _
windows_from-start b o start last (x ∷ l) (h, hs) f =
    All-append (λ w. b ≤ w.start) (closed x o start) _ (closed-From b x o start f)
      (windows_from-start b (next_in x o) (next_start x o start) x.dly l
        (Rising-le b (suc x.dly) l (omega (arith, h)) hs) (next-From b x o start h f))

-- A window has no error from its start to its middle, where it comes to a delay that was tested.
abbrev pub CleanAt : Score → Window → Type 0
CleanAt x w = (x.errors ≡ 0) ⊎ ((x.dly < w.start) ⊎ (middle w < x.dly))

pub next-Open :
    (b : ℕ) (x : Score) (o : Bool) (start last : ℕ)
    → b ≤ x.dly
    → Open b o start last
    → Open (suc x.dly) (next_in x o) (next_start x o start) x.dly
next-Open b x o start last h f = ground arith

closed-CleanAt :
    (b : ℕ) (x y : Score) (o : Bool) (start last : ℕ)
    → b ≤ y.dly
    → y.dly ≤ x.dly
    → Open b o start last
    → All (CleanAt x) (closed y o start)
closed-CleanAt b x y o start last h le f = elim (Bool-cases (o && not (y.errors == 0))) [
  | inl e ↦
      let before : start < y.dly = ground (arith, e, f) in
      rw e (inr (inr (omega (arith, before, le))), _)
  | inr e ↦ rw e _
]

All-every : (P : Window → Type 0) (l : List Window) → ((w : Window) → P w) → All P l
All-every P [] p = _
All-every P (w ∷ l) p = (p w, All-every P l p)

-- Of a score that is still to come.
pub windows_from-CleanAt :
    (b : ℕ) (x : Score) (o : Bool) (start last : ℕ) (l : List Score)
    → Rising b l
    → Open b o start last
    → In x l
    → All (CleanAt x) (windows_from o start last l)
unfolding windows_from
windows_from-CleanAt b x o start last [] h f m = absurd m
windows_from-CleanAt b x o start last (y ∷ l) (h, hs) f (inr m) =
    All-append (CleanAt x) (closed y o start) _
      (closed-CleanAt b x y o start last h (omega (arith, In-Rising (suc y.dly) x l hs m)) f)
      (windows_from-CleanAt (suc y.dly) x (next_in y o) (next_start y o start) y.dly l hs
        (next-Open b y o start last h f) m)
windows_from-CleanAt b x o start last (y ∷ l) (h, hs) f (inl e) =
    elim (Bool-cases (y.errors == 0)) [
      | inl q ↦
          All-every (CleanAt x) _ (λ w. inl (ground (arith, q, ap (λ (s : Score). s.errors) e)))
      | inr q ↦
          All-append (CleanAt x) (closed y o start) _
            (closed-CleanAt b x y o start last h (omega (arith, ap (λ (s : Score). s.dly) e)) f)
            (All-map (λ w late. inr (inl (omega (arith, late, ap (λ (s : Score). s.dly) e)))) _
              (windows_from-start (suc y.dly) (next_in y o) (next_start y o start) y.dly l hs
                (ground (arith, q))))
    ]

closed-Ordered :
    (b : ℕ) (x : Score) (o : Bool) (start last : ℕ)
    → b ≤ x.dly
    → Open b o start last
    → All (λ w. w.start ≤ w.stop) (closed x o start)
closed-Ordered b x o start last h f = ground arith

-- A window does not end before its start.
pub windows_from-Ordered :
    (b : ℕ) (o : Bool) (start last : ℕ) (l : List Score)
    → Rising b l
    → Open b o start last
    → All (λ w. w.start ≤ w.stop) (windows_from o start last l)
unfolding windows_from
windows_from-Ordered b true start last [] h f = (f.0, _)
windows_from-Ordered b false start last [] h f = _
windows_from-Ordered b o start last (x ∷ l) (h, hs) f =
    All-append (λ w. w.start ≤ w.stop) (closed x o start) _ (closed-Ordered b x o start last h f)
      (windows_from-Ordered (suc x.dly) (next_in x o) (next_start x o start) x.dly l hs
        (next-Open b x o start last h f))

closed-stop :
    (m : ℕ) (x : Score) (o : Bool) (start : ℕ)
    → x.dly ≤ m
    → All (λ w. w.stop ≤ m) (closed x o start)
closed-stop m x o start h = ground arith

-- A window does not end behind the delays.
pub windows_from-stop :
    (m : ℕ) (o : Bool) (start last : ℕ) (l : List Score)
    → All (λ x. x.dly ≤ m) l
    → last ≤ m
    → All (λ w. w.stop ≤ m) (windows_from o start last l)
unfolding windows_from
windows_from-stop m true start last [] h le = (le, _)
windows_from-stop m false start last [] h le = _
windows_from-stop m o start last (x ∷ l) (h, hs) le =
    All-append (λ w. w.stop ≤ m) (closed x o start) _ (closed-stop m x o start h)
      (windows_from-stop m (next_in x o) (next_start x o start) x.dly l hs h)
