-- ===== src/RowHammerDma/Alternates.antt =====
-- The order of the reads, and their count.
use rowhammer_tester.Prelude.{
  ℕ, zero, suc, ◌+◌, ◌%◌, ◌^◌, ◌<◌, ◌≡◌, refl, ◌∙◌, true, false, List, [], ◌∷◌, ◌==◌, if◌then◌else◌,
  All, arith, Bool-cases, inl, inr,
}
use rowhammer_tester.RowHammerDma.{DmaInput, accepted, dma_step, dma_address, hammered, dma_run}

-- `n` reads that alternate, the first of them from `here`.
abbrev pub alternating : ℕ → ℕ → ℕ → List ℕ
alternating zero here there = []
alternating (suc n) here there = here ∷ alternating n there here

-- The module stays enabled with the same two addresses.
abbrev pub Attacks : ℕ → ℕ → List DmaInput → Type 0
Attacks a b = All (λ i. (i.enabled ≡ true) × (i.address1 ≡ a) × (i.address2 ≡ b))

abbrev pub next_of : ℕ → ℕ → ℕ → ℕ
next_of a b counter = if counter % 2 == 0 then a else b

parity : (a b counter : ℕ) → next_of a b ((counter + 1) % 2 ^ 32) ≡ next_of b a counter
parity a b counter = ground arith

step_accepted :
    (a b : ℕ) (i : DmaInput) (counter : ℕ)
    → i.enabled ≡ true
    → i.address1 ≡ a
    → i.address2 ≡ b
    → accepted i ≡ true
    → (dma_step i counter ≡ (counter + 1) % 2 ^ 32) × (dma_address i counter ≡ next_of a b counter)
unfolding accepted dma_step dma_address
step_accepted a b i counter on e f h = ground arith

step_refused :
    (i : DmaInput) (counter : ℕ)
    → i.enabled ≡ true
    → accepted i ≡ false
    → dma_step i counter ≡ counter
unfolding accepted dma_step
step_refused i counter on h = ground arith

hammered-taken :
    (i : DmaInput) (is : List DmaInput) (counter : ℕ)
    → accepted i ≡ true
    → hammered (i ∷ is) counter ≡ dma_address i counter ∷ hammered is (dma_step i counter)
unfolding hammered
hammered-taken i is counter h = rw h refl

hammered-refused :
    (i : DmaInput) (is : List DmaInput) (counter : ℕ)
    → accepted i ≡ false
    → hammered (i ∷ is) counter ≡ hammered is (dma_step i counter)
unfolding hammered
hammered-refused i is counter h = rw h refl

dma_run-cons :
    (i : DmaInput) (is : List DmaInput) (counter : ℕ)
    → dma_run (i ∷ is) counter ≡ dma_run is (dma_step i counter)
unfolding dma_run
dma_run-cons i is counter = refl

empty : (counter : ℕ) → (hammered [] counter ≡ []) × (dma_run [] counter ≡ counter)
unfolding hammered dma_run
empty counter = (refl, refl)

-- However the DMA delays them, the reads of an attack alternate between the two addresses, from the
-- one that the count's lowest bit selects, and the count grows by their number.
pub hammered-alternating :
    (a b : ℕ) (is : List DmaInput) (counter : ℕ)
    → Attacks a b is
    → counter < 2 ^ 32
    → (n : ℕ) × (hammered is counter ≡ alternating n (next_of a b counter) (next_of b a counter))
      × (dma_run is counter ≡ (counter + n) % 2 ^ 32)
hammered-alternating a b [] counter _ small =
    let (none_sent, same) = empty counter in (0, none_sent, omega (arith, same))
hammered-alternating a b (i ∷ is) counter ((on, e, f), rest) small =
    elim (Bool-cases (accepted i)) [
      | inl taken ↦
          let (n, list, count) =
            hammered-alternating a b is ((counter + 1) % 2 ^ 32) rest (omega arith) in
          let (s, d) = step_accepted a b i counter on e f taken in
          (
            suc n,
            hammered-taken i is counter taken
                ∙ rw s (rw d (rw list (rw (parity a b counter) (rw (parity b a counter) refl)))),
            dma_run-cons i is counter ∙ rw s (rw count (omega arith)),
          )
      | inr refused ↦
          let (n, list, count) = hammered-alternating a b is counter rest small in
          let s = step_refused i counter on refused in
          (
            n,
            hammered-refused i is counter refused ∙ rw s list,
            dma_run-cons i is counter ∙ rw s count,
          )
    ]
