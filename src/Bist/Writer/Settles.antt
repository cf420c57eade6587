-- ===== src/Bist/Writer/Settles.antt =====
-- What the writer writes.
use rowhammer_tester.Prelude.{
  ℕ, zero, suc, ◌+◌, ◌^◌, ◌<◌, ◌≤◌, ◌≡◌, Bool, true, false, if◌then◌else◌, arith,
}
use rowhammer_tester.Bist.{
  Pattern, Config, Widths, inverted, masked_slot, dram_address, next_slot, row_index, selects,
}
use rowhammer_tester.Bist.Writer.{
  Writer, WriterFsm, WriterInput, ready, compute_mem_addr, wait_for_dram_addr, compute_dram_addr,
  invert_compute, send, writer_step,
}

module _ (one_hot : ℕ → ℕ) (p : Pattern) (c : Config) (w : Widths) where
  -- The pattern entry of the transfer with the number `k`.
  unfoldable pub slot : ℕ → ℕ
  slot zero = if c.modulo then 0 else masked_slot c w 0
  slot (suc k) = if c.modulo then next_slot c w (slot k) else masked_slot c w (suc k)

  -- Where the transfer goes, and its word.
  abbrev pub target : ℕ → ℕ
  target k = dram_address c w (p.addr (slot k)) k

  abbrev pub written : ℕ → ℕ
  written k = inverted one_hot c w (target k) (p.word (slot k))

  -- In the states after the check against `count`.
  abbrev busy : WriterFsm → Bool
  busy ready = false
  busy compute_mem_addr = false
  busy _ = true

  -- What each state has ready for the transfer with the number `cmd_counter`.
  pub record Prepared (s : Writer) : Type 0 where
    pub below : busy s.fsm ≡ true → s.cmd_counter < c.count
    pub entry : s.fsm ≡ compute_mem_addr → c.modulo ≡ true → s.mem_addr ≡ slot s.cmd_counter
    pub at_wait : s.fsm ≡ wait_for_dram_addr → s.mem_addr ≡ slot s.cmd_counter
    pub at_compute :
        s.fsm ≡ compute_dram_addr
        → (s.mem_addr ≡ slot s.cmd_counter) × (s.fetched ≡ slot s.cmd_counter)
    pub at_invert :
        s.fsm ≡ invert_compute
        → (s.mem_addr ≡ slot s.cmd_counter)
          × (s.fetched ≡ slot s.cmd_counter)
          × (s.dram_addr ≡ target s.cmd_counter)
          × (s.wait_counter ≤ 2)
          × (1 ≤ s.wait_counter → s.inverter.index ≡ row_index one_hot c w s.dram_addr)
          × (2 ≤ s.wait_counter
              → s.inverter.is_selected ≡ selects one_hot c w (row_index one_hot c w s.dram_addr))
    pub at_send :
        s.fsm ≡ send
        → (s.mem_addr ≡ slot s.cmd_counter)
          × (s.fetched ≡ slot s.cmd_counter)
          × (s.dram_addr ≡ target s.cmd_counter)
          × (s.inverter.index ≡ row_index one_hot c w s.dram_addr)
          × (s.inverter.is_selected ≡ selects one_hot c w (row_index one_hot c w s.dram_addr))
          × (s.inverter.data_out ≡ written s.cmd_counter)

  slot-masked : (k : ℕ) → c.modulo ≡ false → slot k ≡ masked_slot c w k
  unfolding slot
  slot-masked zero h = ground arith
  slot-masked (suc k) h = ground arith

  slot-next : (k : ℕ) → c.modulo ≡ true → slot (k + 1) ≡ next_slot c w (slot k)
  unfolding slot
  slot-next k h = let e : k + 1 ≡ suc k = omega arith in rw e (ground arith)

  pub writer_step-Prepared :
      (i : WriterInput) (s : Writer)
      → c.count < 2 ^ 32
      → Prepared s
      → Prepared (writer_step one_hot p c w i s)
  unfolding writer_step inverted slot
  writer_step-Prepared i s fits h = record {
    below = λ e. ground arith;
    entry = λ e m. ground (arith, slot-next s.cmd_counter);
    at_wait = λ e. ground (arith, slot-masked s.cmd_counter);
    at_compute = λ e. ground arith;
    at_invert = λ e. ground arith;
    at_send = λ e. ground arith;
  }
