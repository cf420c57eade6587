-- ===== src/Bist/Writer/Transfers.antt =====
-- The transfers of a whole operation of the writer.
use rowhammer_tester.Prelude.{
  ℕ, zero, suc, ◌+◌, ◌^◌, ◌<◌, ◌≤◌, ◌≡◌, ◌⊎◌, inl, inr, refl, ap, ◌∙◌, true, false, some, none,
  List, [], ◌∷◌, ◌++◌, arith, All, replicate,
}
use rowhammer_tester.Bist.{Pattern, Config, Widths}
use rowhammer_tester.Bist.Writer.{
  Writer, WriterFsm, WriterInput, ready, compute_mem_addr, wait_for_dram_addr, compute_dram_addr,
  invert_compute, send, writer_step, transfer, writer_run, transfers,
}
use rowhammer_tester.Bist.Writer.Settles.{Prepared, target, written, writer_step-Prepared}

module _ (one_hot : ℕ → ℕ) (p : Pattern) (c : Config) (w : Widths) (fits : c.count < 2 ^ 32) where
  -- `n` transfers from the number `k`.
  abbrev pub outputs_from : ℕ → ℕ → List (ℕ × ℕ)
  outputs_from k zero = []
  outputs_from k (suc n) =
      (target one_hot p c w k, written one_hot p c w k) ∷ outputs_from (k + 1) n

  transfer_cases :
      (i : WriterInput) (s : Writer)
      → i.start ≡ false
      → Prepared one_hot p c w s
      → ((transfer one_hot p c w i s ≡ none)
          × ((writer_step one_hot p c w i s).cmd_counter ≡ s.cmd_counter))
        ⊎ ((transfer one_hot p c w i s
              ≡ some (target one_hot p c w s.cmd_counter, written one_hot p c w s.cmd_counter))
            × ((writer_step one_hot p c w i s).cmd_counter ≡ s.cmd_counter + 1))
  unfolding transfer writer_step
  transfer_cases i s quiet h = ground arith

  abbrev pub Quiet : List WriterInput → Type 0
  Quiet = All (λ i. i.start ≡ false)

  -- From a prepared state, with a count below 2 ^ 32 and no new start: however the DMA delays, the
  -- transfers that it takes are the next ones of the pattern in order, none lost, repeated or
  -- wrong, as many as the counter grows by.
  pub transfers-outputs_from :
      (is : List WriterInput) (s : Writer)
      → Quiet is
      → Prepared one_hot p c w s
      → (n : ℕ) × ((writer_run one_hot p c w is s).cmd_counter ≡ s.cmd_counter + n)
        × (transfers one_hot p c w is s ≡ outputs_from s.cmd_counter n)
        × Prepared one_hot p c w (writer_run one_hot p c w is s)
  unfolding writer_run transfers
  transfers-outputs_from [] s q h = (0, omega arith, refl, h)
  transfers-outputs_from (i ∷ is) s (quiet, q) h =
      let h' = writer_step-Prepared one_hot p c w i s fits h in
      let (n, count, list, kept) = transfers-outputs_from is (writer_step one_hot p c w i s) q h' in
      elim (transfer_cases i s quiet h) [
        | inl (silent, same) ↦
            (n, omega arith, rw silent (list ∙ ap (λ k. outputs_from k n) same), kept)
        | inr (taken, one_more) ↦ (
          suc n,
          omega arith,
          rw taken (
              ap
                (λ l. (target one_hot p c w s.cmd_counter, written one_hot p c w s.cmd_counter) ∷ l)
                (list ∙ ap (λ k. outputs_from k n) one_more)),
          kept,
        )
      ]

  -- Where the machine is, and at which transfer.
  abbrev Is : WriterFsm → ℕ → ℕ → Writer → Type 0
  Is f k m s = (s.fsm ≡ f) × (s.cmd_counter ≡ k) × (s.wait_counter ≡ m)

  abbrev go : WriterInput
  go = record { start = false; sink_ready = true }

  abbrev next : Writer → Writer
  next s = writer_step one_hot p c w go s

  checks :
      (k m : ℕ) (s : Writer)
      → k < c.count
      → Is compute_mem_addr k m s
      → Is wait_for_dram_addr k m (next s)
  unfolding writer_step
  checks k m s below h = ground arith

  waits : (k m : ℕ) (s : Writer) → Is wait_for_dram_addr k m s → Is compute_dram_addr k m (next s)
  unfolding writer_step
  waits k m s h = ground arith

  computes : (k m : ℕ) (s : Writer) → Is compute_dram_addr k m s → Is invert_compute k 0 (next s)
  unfolding writer_step
  computes k m s h = ground arith

  inverts :
      (k m : ℕ) (s : Writer)
      → m < 2
      → Is invert_compute k m s
      → Is invert_compute k (m + 1) (next s)
  unfolding writer_step
  inverts k m s small h = ground arith

  inverted_now : (k : ℕ) (s : Writer) → Is invert_compute k 2 s → Is send k 3 (next s)
  unfolding writer_step
  inverted_now k s h = ground arith

  sends_now :
      (k m : ℕ) (s : Writer) → k < c.count → Is send k m s → Is compute_mem_addr (k + 1) m (next s)
  unfolding writer_step
  sends_now k m s below h = ground arith

  stops : (k m : ℕ) (s : Writer) → c.count ≤ k → Is compute_mem_addr k m s → Is ready k m (next s)
  unfolding writer_step
  stops k m s above h = ground arith

  -- One transfer takes seven cycles.
  seven :
      (k m : ℕ) (s : Writer)
      → k < c.count
      → Is compute_mem_addr k m s
      → Is compute_mem_addr (k + 1) 3 (writer_run one_hot p c w (replicate 7 go) s)
  unfolding writer_run
  seven k m s below h = sends_now k 3 _ below (
      inverted_now k _ (
        inverts k 1 _ (omega arith)
          (inverts k 0 _ (omega arith) (computes k m _ (waits k m _ (checks k m s below h))))))

  abbrev pub rounds : ℕ → List WriterInput
  rounds zero = go ∷ []
  rounds (suc n) = replicate 7 go ++ rounds n

  run-append :
      (xs ys : List WriterInput) (s : Writer)
      → writer_run one_hot p c w (xs ++ ys) s
        ≡ writer_run one_hot p c w ys (writer_run one_hot p c w xs s)
  unfolding writer_run
  run-append [] ys s = refl
  run-append (i ∷ xs) ys s = run-append xs ys (writer_step one_hot p c w i s)

  finishes :
      (n k m : ℕ) (s : Writer)
      → k + n ≡ c.count
      → Is compute_mem_addr k m s
      → ((writer_run one_hot p c w (rounds n) s).fsm ≡ ready)
        × ((writer_run one_hot p c w (rounds n) s).cmd_counter ≡ c.count)
  unfolding writer_run
  finishes zero k m s e h =
      let (is_ready, count, _) = stops k m s (omega arith) h in (is_ready, omega arith)
  finishes (suc n) k m s e h = rw (run-append (replicate 7 go) (rounds n) s) (
      finishes n (k + 1) 3 (writer_run one_hot p c w (replicate 7 go) s) (omega arith)
        (seven k m s (omega arith) h))

  rounds-Quiet : (n : ℕ) → Quiet (rounds n)
  rounds-Quiet zero = (refl, tt)
  rounds-Quiet (suc n) = (refl, (refl, (refl, (refl, (refl, (refl, (refl, rounds-Quiet n)))))))

  -- From an operation that has just started with a count below 2 ^ 32, a DMA that takes every word
  -- at once gets exactly the `count` words of the pattern at their addresses, in order, and the
  -- writer is ready again after seven cycles for each and one more.
  pub writer_run-rounds :
      (s : Writer)
      → s.fsm ≡ compute_mem_addr
      → s.cmd_counter ≡ 0
      → Prepared one_hot p c w s
      → ((writer_run one_hot p c w (rounds c.count) s).fsm ≡ ready)
        × (transfers one_hot p c w (rounds c.count) s ≡ outputs_from 0 c.count)
  writer_run-rounds s e z h =
      let (is_ready, all) = finishes c.count 0 s.wait_counter s (omega arith) (e, z, refl) in
      let (n, count, list, _) =
        transfers-outputs_from (rounds c.count) s (rounds-Quiet c.count) h in
      let m : n ≡ c.count = omega arith in
      (is_ready, list ∙ ap (λ k. outputs_from k n) z ∙ ap (outputs_from 0) m)
