-- ===== src/Bist/Reader/Compare.antt =====
-- What the reader compares the words of the memory with, and where its errors go.
use rowhammer_tester.Prelude.{ℕ, ◌≤◌, ◌≡◌, ◌≢◌, ◌↔◌, true, false, if◌then◌else◌, arith}
use rowhammer_tester.Bist.{Pattern, Config, Widths, inverted, masked_slot, row_index, selects}
use rowhammer_tester.Bist.Reader.{
  PatternSide, PatternFsm, PatternInput, ErrorInput, ErrorSide, takes, error_step,
  wait_for_dram_addr, invert_compute, rd_data, wr_err, pattern_step,
}

module _ (one_hot : ℕ → ℕ) (p : Pattern) (c : Config) (w : Widths) (served : ℕ → ℕ) where
  -- The pattern entry of the word with the number `k`: in the mode with a divisor it is always
  -- the first one.
  unfoldable pub read_slot : ℕ → ℕ
  read_slot k = if c.modulo then 0 else masked_slot c w k

  abbrev pub expected : ℕ → ℕ
  expected k = inverted one_hot c w (served k) (p.word (read_slot k))

  -- While a word is worked on, the address FIFO shows its address.
  abbrev pub Serves : PatternInput → PatternSide → Type 0
  Serves i s =
      (s.fsm ≡ invert_compute → i.fifo_address ≡ served s.counter_gen)
      × (s.fsm ≡ rd_data → i.fifo_address ≡ served s.counter_gen)

  pub record Prepared (s : PatternSide) : Type 0 where
    pub at_first : s.fsm ≢ PatternFsm.ready → c.modulo ≡ true → s.data_mem_addr ≡ 0
    pub at_wait : s.fsm ≡ wait_for_dram_addr → s.data_mem_addr ≡ read_slot s.counter_gen
    pub at_invert :
        s.fsm ≡ invert_compute
        → (s.data_mem_addr ≡ read_slot s.counter_gen)
          × (s.wait_counter ≤ 2)
          × (s.fetched ≡ read_slot s.counter_gen)
          × (1 ≤ s.wait_counter → s.inverter.index ≡ row_index one_hot c w (served s.counter_gen))
          × (2 ≤ s.wait_counter
              → s.inverter.is_selected
                ≡ selects one_hot c w (row_index one_hot c w (served s.counter_gen)))
    pub at_rd_data :
        s.fsm ≡ rd_data
        → (s.data_mem_addr ≡ read_slot s.counter_gen)
          × (s.fetched ≡ read_slot s.counter_gen)
          × (s.inverter.index ≡ row_index one_hot c w (served s.counter_gen))
          × (s.inverter.is_selected
              ≡ selects one_hot c w (row_index one_hot c w (served s.counter_gen)))
          × (s.inverter.data_out ≡ expected s.counter_gen)

  -- As long as the address FIFO shows the address of the word that is worked on, every cycle keeps
  -- the comparison prepared: each state has ready what the comparison needs, by the entry of the
  -- pattern that belongs to the word. In the mode with a divisor that is always the first entry.
  pub pattern_step-Prepared :
      (i : PatternInput) (s : PatternSide)
      → Serves i s
      → Prepared s
      → Prepared (pattern_step one_hot p c w i s)
  unfolding pattern_step inverted read_slot
  pattern_step-Prepared i s a h = record {
    at_first = λ e m. ground arith;
    at_wait = λ e. ground arith;
    at_invert = λ e. ground arith;
    at_rd_data = λ e. ground arith;
  }

  -- An error that waits for the FIFO is kept as it is, with the count of errors, and the machine
  -- goes on waiting exactly as long as the FIFO is not ready and errors are not skipped.
  pub wr_err-waits :
      (i : PatternInput) (s : PatternSide)
      → s.fsm ≡ wr_err
      → let s' = pattern_step one_hot p c w i s in
        (s'.error_sink ≡ s.error_sink)
        × (s'.error_count ≡ s.error_count)
        × ((s'.fsm ≡ wr_err) ↔ ((i.error_ready ≡ false) × (i.skip_fifo ≡ false)))
  unfolding pattern_step
  wr_err-waits i s e = (ground arith, ground arith, (ground arith, ground arith))

-- With errors not skipped, a word that is taken from the error FIFO is in the register, valid, in
-- the next cycle.
pub error_step-takes :
    (i : ErrorInput) (s : ErrorSide)
    → i.skip_fifo ≡ false
    → takes i s ≡ true
    → error_step i s ≡ record { valid = true; error_reg = i.source }
unfolding takes error_step
error_step-takes i s e h = ground arith

-- A valid error stays in the register, and no other is taken from the FIFO, until the user
-- continues.
pub error_step-holds :
    (i : ErrorInput) (s : ErrorSide)
    → s.valid ≡ true
    → i.continue ≡ false
    → (takes i s ≡ false) × (error_step i s ≡ s)
unfolding takes error_step
error_step-holds i s e h = (ground arith, ground arith)
