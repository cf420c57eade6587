-- ===== src/Scratchpad/Spacing.antt =====
-- Where the words go, by the cycles between them.
use rowhammer_tester.Prelude.{
  ℕ, ◌+◌, ◌-◌, ◌^◌, ◌<◌, ◌≤◌, ◌≡◌, refl, ap, ap₂, ◌∙◌, some, none, List, [], ◌∷◌, ◌==◌,
  if◌then◌else◌, All, arith,
}
use native.Mathlib.Nat.{mod-eq_of_lt}
use rowhammer_tester.Scratchpad.{
  ReadPhase, Size, Scratchpad, cat_data, cat_we, scratchpad_step, write, writes, with_write,
}

module _ (size : Size) where
  -- The words at the addresses from `i` on, that come round at the memory's end.
  abbrev pub in_order : ℕ → List (List ReadPhase) → List (ℕ × ℕ)
  in_order i [] = []
  in_order i (w ∷ ws) =
      (i, cat_data size w) ∷ in_order (if i == size.depth - 1 then 0 else i + 1) ws

  -- A cycle without data after each word.
  abbrev pub spaced : List (List ReadPhase) → List (List ReadPhase)
  spaced [] = []
  spaced (w ∷ ws) = w ∷ [] ∷ spaced ws

  abbrev pub HasData : List ReadPhase → Type 0
  HasData w = 0 < cat_we size w

  -- The counter can address the whole memory.
  abbrev pub Addresses : Type 0
  Addresses = (0 < size.depth) × (size.depth ≤ 2 ^ size.counter_bits)

  abbrev pub after : ℕ → ℕ
  after i = if i == size.depth - 1 then 0 else i + 1

  write_idle : (s : Scratchpad) → s.we ≡ 0 → write size s ≡ none
  unfolding write
  write_idle s h = ground arith

  write_full : (s : Scratchpad) → 0 < s.we → write size s ≡ some (s.adr, s.dat_w)
  unfolding write
  write_full s h = ground arith

  data_cycle :
      (w : List ReadPhase) (s : Scratchpad)
      → s.we ≡ 0
      → let t = scratchpad_step size w s in
        (t.counter ≡ s.counter)
        × (t.adr ≡ s.counter)
        × (t.we ≡ cat_we size w)
        × (t.dat_w ≡ cat_data size w)
  unfolding scratchpad_step
  data_cycle w s idle = (rw idle refl, refl, refl, refl)

  idle_cycle :
      (t : Scratchpad)
      → Addresses
      → 0 < t.we
      → t.counter < size.depth
      → let u = scratchpad_step size [] t in
        (u.we ≡ 0) × (u.counter ≡ after t.counter) × (u.counter < size.depth)
  unfolding scratchpad_step
  idle_cycle t fits full below =
      ground (arith, λ (h : t.counter + 1 < 2 ^ size.counter_bits). mod-eq_of_lt h)

  -- The two cycles of a word.
  two_cycles :
      (w : List ReadPhase) (s : Scratchpad)
      → Addresses
      → s.we ≡ 0
      → s.counter < size.depth
      → HasData w
      → let t = scratchpad_step size w s in
        let u = scratchpad_step size [] t in
        (write size t ≡ some (s.counter, cat_data size w))
        × (u.we ≡ 0)
        × (u.counter ≡ after s.counter)
        × (u.counter < size.depth)
  two_cycles w s fits idle below full =
      let (same, there, full_now, held) = data_cycle w s idle in
      let t = scratchpad_step size w s in
      let (idle', next, below') =
        idle_cycle t fits (omega (arith, full, full_now)) (omega (arith, below, same)) in
      (
        write_full t (omega (arith, full, full_now)) ∙ ap₂ (λ a d. some (a, d)) there held,
        idle',
        next ∙ ap after same,
        below',
      )

  writes-idle :
      (p : List ReadPhase) (rest : List (List ReadPhase)) (s : Scratchpad)
      → write size s ≡ none
      → writes size (p ∷ rest) s ≡ writes size rest (scratchpad_step size p s)
  unfolding writes
  writes-idle p rest s h =
      ap (λ o. with_write size o (writes size rest (scratchpad_step size p s))) h

  writes-full :
      (p : List ReadPhase) (rest : List (List ReadPhase)) (s : Scratchpad) (w : ℕ × ℕ)
      → write size s ≡ some w
      → writes size (p ∷ rest) s ≡ w ∷ writes size rest (scratchpad_step size p s)
  unfolding writes
  writes-full p rest s w h =
      ap (λ o. with_write size o (writes size rest (scratchpad_step size p s))) h

  -- Where the counter can address the whole memory and the write port is idle: words with a cycle
  -- without data after each are stored at successive addresses, which come round at the end of the
  -- memory.
  pub writes-spaced :
      (ws : List (List ReadPhase)) (s : Scratchpad)
      → Addresses
      → s.we ≡ 0
      → s.counter < size.depth
      → All HasData ws
      → writes size (spaced ws) s ≡ in_order s.counter ws
  unfolding writes
  writes-spaced [] s fits idle below full = ap (λ o. with_write size o []) (write_idle s idle)
  writes-spaced (w ∷ ws) s fits idle below (data_here, full) =
      let t = scratchpad_step size w s in
      let u = scratchpad_step size [] t in
      let (stored, idle', there, below') = two_cycles w s fits idle below data_here in
      writes-idle w ([] ∷ spaced ws) s (write_idle s idle)
      ∙ writes-full [] (spaced ws) t (s.counter, cat_data size w) stored
      ∙ ap (λ l. (s.counter, cat_data size w) ∷ l)
          (writes-spaced ws u fits idle' below' full ∙ ap (λ i. in_order i ws) there)

  -- Where the write port is idle, two words in adjacent cycles are written to the same address.
  pub writes-adjacent :
      (v w : List ReadPhase) (s : Scratchpad)
      → s.we ≡ 0
      → HasData v
      → HasData w
      → writes size (v ∷ w ∷ []) s
        ≡ (s.counter, cat_data size v) ∷ (s.counter, cat_data size w) ∷ []
  unfolding writes write scratchpad_step
  writes-adjacent v w s idle first second = ground arith
