-- ===== src/ReadLevel/Spans.antt =====
-- rowhammer_tester/scripts/read_level.py: that the windows of a bitslip are as long as they can be.
use rowhammer_tester.Prelude.{
  ℕ, suc, ◌≤◌, ◌<◌, ◌≡◌, ◌⊎◌, inl, inr, Bool, true, false, not, ◌&&◌, ◌||◌, List, [], ◌∷◌, ◌++◌,
  leb, ◌==◌, ap, arith, Bool-cases,
}
use rowhammer_tester.ReadLevel.{Score, Window, next_in, next_start, closed, windows_from}
use rowhammer_tester.ReadLevel.Windows.{Rising, In, Open, In-Rising, next-Open}

-- One of the windows is at least as long as what lies between two scores.
abbrev pub Spans : ℕ → ℕ → List Window → Type 0
Spans a b [] = ⊥
Spans a b (w ∷ ws) = ((w.start ≤ a) × (b ≤ w.stop)) ⊎ Spans a b ws

Spans-append : (a b : ℕ) (u v : List Window) → Spans a b v → Spans a b (u ++ v)
Spans-append a b [] v s = s
Spans-append a b (w ∷ u) v s = inr (Spans-append a b u v s)

-- No delay from `a` to `b` has an error.
abbrev pub error_free : ℕ → ℕ → List Score → Bool
error_free a b [] = true
error_free a b (x ∷ l) = (not (leb a x.dly && leb x.dly b) || x.errors == 0) && error_free a b l

clean_rest :
    (a b : ℕ) (x : Score) (l : List Score) → error_free a b (x ∷ l) ≡ true → error_free a b l ≡ true
clean_rest a b x l e = ground arith

no_error :
    (a b : ℕ) (x : Score) (l : List Score)
    → error_free a b (x ∷ l) ≡ true
    → (x.errors == 0) ≡ false
    → a ≤ x.dly
    → x.dly ≤ b
    → ⊥
no_error a b x l e q ha hb = ground arith

-- In the window that is open: `y` is behind, or to come.
open-Spans :
    (b a : ℕ) (y : Score) (start last : ℕ) (l : List Score)
    → Rising b l
    → start ≤ a
    → a ≤ last
    → last < b
    → error_free a y.dly l ≡ true
    → (y.dly ≤ last) ⊎ In y l
    → Spans a y.dly (windows_from true start last l)
unfolding windows_from
open-Spans b a y start last [] h s t u clean (inl le) = inl (s, le)
open-Spans b a y start last [] h s t u clean (inr m) = absurd m
open-Spans b a y start last (z ∷ l) (h, hs) s t u clean m = elim (Bool-cases (z.errors == 0)) [
  | inl q ↦ rw q (
      open-Spans (suc z.dly) a y start z.dly l hs s (omega (arith, t, u, h)) (omega arith)
        (clean_rest a y.dly z l clean) (y_next m))
  | inr q ↦ rw q (inl (s, y_before q m))
]
  where
    y_next : (y.dly ≤ last) ⊎ In y (z ∷ l) → (y.dly ≤ z.dly) ⊎ In y l
    y_next (inl le) = inl (omega (arith, le, u, h))
    y_next (inr (inl e)) = inl (omega (arith, ap (λ (k : Score). k.dly) e))
    y_next (inr (inr m)) = inr m

    y_before : (z.errors == 0) ≡ false → (y.dly ≤ last) ⊎ In y (z ∷ l) → y.dly ≤ z.dly
    y_before q (inl le) = omega (arith, le, u, h)
    y_before q (inr (inl e)) = omega (arith, ap (λ (k : Score). k.dly) e)
    y_before q (inr (inr m)) = absurd (
        no_error a y.dly z l clean q (omega (arith, t, u, h))
          (omega (arith, In-Rising (suc z.dly) y l hs m)))

y_here : (y z : Score) (l : List Score) → In y (z ∷ l) → (y.dly ≤ z.dly) ⊎ In y l
y_here y z l (inl e) = inl (omega (arith, ap (λ (k : Score). k.dly) e))
y_here y z l (inr m) = inr m

x_clean :
    (x y z : Score) (l : List Score)
    → x ≡ z
    → x.dly ≤ y.dly
    → error_free x.dly y.dly (z ∷ l) ≡ true
    → (z.errors == 0) ≡ true
x_clean x y z l e le clean =
    let at_x : x.dly ≡ z.dly = ap (λ (k : Score). k.dly) e in
    elim (Bool-cases (z.errors == 0)) [
      | inl q ↦ q
      | inr q ↦
          absurd (no_error x.dly y.dly z l clean q (omega (arith, at_x)) (omega (arith, at_x, le)))
    ]

-- From where `x` is to come.
pub windows_from-Spans :
    (b : ℕ) (x y : Score) (o : Bool) (start last : ℕ) (l : List Score)
    → Rising b l
    → Open b o start last
    → In x l
    → In y l
    → x.dly ≤ y.dly
    → error_free x.dly y.dly l ≡ true
    → Spans x.dly y.dly (windows_from o start last l)
unfolding windows_from
windows_from-Spans b x y o start last [] h f mx my le clean = absurd mx
windows_from-Spans b x y true start last (z ∷ l) (h, hs) f (inl e) my le clean =
    let at_x : x.dly ≡ z.dly = ap (λ (k : Score). k.dly) e in
    rw (x_clean x y z l e le clean) (
      open-Spans (suc z.dly) x.dly y start z.dly l hs (omega (arith, f, h, at_x))
        (omega (arith, at_x)) (omega arith) (clean_rest x.dly y.dly z l clean) (y_here y z l my))
windows_from-Spans b x y false start last (z ∷ l) (h, hs) f (inl e) my le clean =
    let at_x : x.dly ≡ z.dly = ap (λ (k : Score). k.dly) e in
    rw (x_clean x y z l e le clean) (
      open-Spans (suc z.dly) x.dly y z.dly z.dly l hs (omega (arith, at_x)) (omega (arith, at_x))
        (omega arith) (clean_rest x.dly y.dly z l clean) (y_here y z l my))
windows_from-Spans b x y o start last (z ∷ l) (h, hs) f (inr mx) (inl e) le clean =
    absurd (omega (arith, In-Rising (suc z.dly) x l hs mx, le, ap (λ (k : Score). k.dly) e))
windows_from-Spans b x y o start last (z ∷ l) (h, hs) f (inr mx) (inr my) le clean =
    Spans-append x.dly y.dly (closed z o start) _ (
      windows_from-Spans (suc z.dly) x y (next_in z o) (next_start z o start) z.dly l hs
        (next-Open b z o start last h f) mx my le (clean_rest x.dly y.dly z l clean))
