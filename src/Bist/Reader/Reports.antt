-- ===== src/Bist/Reader/Reports.antt =====
-- rowhammer_tester/gateware/bist.py: the words that the reader compares in a run, and the errors that it
-- reports.
use mathlib.Core.List.{append-nil, append_assoc}
use rowhammer_tester.Prelude.{
  ℕ, ◌+◌, ◌%◌, ◌^◌, ◌<◌, ◌≡◌, ◌⊎◌, inl, inr, refl, sym, ap, ap₂, ◌∙◌, false, List, [], ◌∷◌, ◌++◌,
  ◌==◌, if◌then◌else◌, length, length-append, arith, Bool-cases,
}
use rowhammer_tester.Bist.{Pattern, Config, Widths}
use rowhammer_tester.Bist.Reader.{
  PatternSide, PatternInput, ErrorWord, is_wr_err, pattern_step, word_taken, error_taken,
  pattern_run, words_taken, errors_taken,
}
use rowhammer_tester.Bist.Reader.Compare.{expected, Serves, Prepared, pattern_step-Prepared}

module _ (one_hot : ℕ → ℕ) (p : Pattern) (c : Config) (w : Widths) (served : ℕ → ℕ) where
  -- The errors of the words `xs`, of which the first has the number `k`.
  abbrev pub mismatches : ℕ → List ℕ → List ErrorWord
  mismatches k [] = []
  mismatches k (x ∷ xs) =
      let later = mismatches ((k + 1) % 2 ^ 32) xs in
      if x == expected one_hot p c w served k
      then later
      else record { offset = served k; received = x; expected = expected one_hot p c w served k }
        ∷ later

  -- The error that waits for the FIFO.
  abbrev pub pending : PatternSide → List ErrorWord
  pending s = if is_wr_err s.fsm then s.error_sink ∷ [] else []

  -- No new start, errors are not skipped, and the address FIFO shows the address of the word that is
  -- worked on, in every cycle.
  abbrev pub Shows : List PatternInput → PatternSide → Type 0
  Shows [] s = Unit
  Shows (i ∷ is) s =
      (i.start ≡ false)
      × (i.skip_fifo ≡ false)
      × Serves one_hot p c w served i s
      × Shows is (pattern_step one_hot p c w i s)

  -- What a cycle takes and leaves: nothing; a word that is as expected; one that is not; an error.
  step_cases :
      (i : PatternInput) (s : PatternSide)
      → i.start ≡ false
      → i.skip_fifo ≡ false
      → Serves one_hot p c w served i s
      → Prepared one_hot p c w served s
      → s.error_count < 2 ^ 32
      → let s' = pattern_step one_hot p c w i s in
        ((word_taken one_hot p c w i s ≡ [])
          × (s'.counter_gen ≡ s.counter_gen)
          × (s'.error_count ≡ s.error_count)
          × (pending s ≡ error_taken one_hot p c w i s ++ pending s'))
        ⊎ ((word_taken one_hot p c w i s ≡ i.dma_word ∷ [])
            × (error_taken one_hot p c w i s ≡ [])
            × (s'.counter_gen ≡ (s.counter_gen + 1) % 2 ^ 32)
            × (pending s ≡ [])
            × (pending s' ≡ mismatches s.counter_gen (i.dma_word ∷ []))
            × (s'.error_count ≡ (s.error_count + length (pending s')) % 2 ^ 32))
  unfolding pattern_step word_taken error_taken
  step_cases i s quiet kept a h small = ground arith

  mismatches-cons :
      (k x : ℕ) (xs : List ℕ)
      → mismatches k (x ∷ xs) ≡ mismatches k (x ∷ []) ++ mismatches ((k + 1) % 2 ^ 32) xs
  mismatches-cons k x xs = elim (Bool-cases (x == expected one_hot p c w served k)) [
    | inl e ↦ rw e refl
    | inr e ↦ rw e refl
  ]

  -- From a prepared state whose counters are in their 32 bits, over a run with no new start in which
  -- errors are not skipped and the address FIFO shows the address of the word that is worked on:
  -- however the DMA and the error FIFO delay, the error FIFO has taken exactly the errors of the
  -- words that came back and differ from the pattern's word for their address, each once, in order
  -- and with its address and expected word, but for one that still waits; before them the error that
  -- waited first. As many as these words are added to the count of errors, and as many as came back
  -- to the count of words, and the state is prepared again.
  pub errors_taken-mismatches :
      (is : List PatternInput) (s : PatternSide)
      → Shows is s
      → Prepared one_hot p c w served s
      → s.error_count < 2 ^ 32
      → s.counter_gen < 2 ^ 32
      → let s' = pattern_run one_hot p c w is s in
        let words = words_taken one_hot p c w is s in
        let wrong = mismatches s.counter_gen words in
        (errors_taken one_hot p c w is s ++ pending s' ≡ pending s ++ wrong)
        × (s'.error_count ≡ (s.error_count + length wrong) % 2 ^ 32)
        × (s'.counter_gen ≡ (s.counter_gen + length words) % 2 ^ 32)
        × Prepared one_hot p c w served s'
  unfolding pattern_run words_taken errors_taken
  errors_taken-mismatches [] s a h small low =
      (sym (append-nil (pending s)), omega arith, omega arith, h)
  errors_taken-mismatches (i ∷ is) s (quiet, kept, a, more) h small low =
      let s1 = pattern_step one_hot p c w i s in
      let h1 = pattern_step-Prepared one_hot p c w served i s a h in
      let ws = words_taken one_hot p c w is s1 in
      elim (step_cases i s quiet kept a h small) [
        | inl (none, same, errors, waits) ↦
            let (list, count, done, h') =
              errors_taken-mismatches is s1 more h1 (omega arith) (omega arith) in
            let k : mismatches s1.counter_gen ws ≡ mismatches s.counter_gen ws =
              ap (λ k. mismatches k ws) same in
            rw none (
              append_assoc (error_taken one_hot p c w i s) _ _
                  ∙ ap (λ l. error_taken one_hot p c w i s ++ l)
                      (list ∙ ap (λ l. pending s1 ++ l) k)
                  ∙ sym (append_assoc (error_taken one_hot p c w i s) (pending s1) _)
                  ∙ ap (λ l. l ++ mismatches s.counter_gen ws) (sym waits),
              omega (arith, count, errors, ap length k),
              omega (arith, done, same),
              h',
            )
        | inr (one, no_error, next, nothing, waits, errors) ↦
            let (list, count, done, h') =
              errors_taken-mismatches is s1 more h1 (omega arith) (omega arith) in
            let k : mismatches s1.counter_gen ws ≡ mismatches ((s.counter_gen + 1) % 2 ^ 32) ws =
              ap (λ k. mismatches k ws) next in
            let both = mismatches-cons s.counter_gen i.dma_word ws in
            let lengths =
              ap length both ∙ length-append (mismatches s.counter_gen (i.dma_word ∷ [])) _ in
            rw (one, no_error, nothing)
              (
                list ∙ ap₂ (λ a b. a ++ b) waits k ∙ sym both,
                omega (arith, count, errors, ap length k, lengths, ap length waits),
                omega (arith, done, next),
                h',
              )
      ]
