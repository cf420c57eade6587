-- ===== src/Sram/Transactions.antt =====
-- Whole transactions on the bus.
use rowhammer_tester.Prelude.{
  ℕ, zero, suc, ◌+◌, ◌*◌, ◌/◌, ◌%◌, ◌<◌, ◌≡◌, ◌≢◌, refl, Bool, true, false, not, ◌&&◌, ◌==◌,
  if◌then◌else◌, arith, Bool-cases, inl, inr, ◌∙◌, ap, ap₂,
}
use rowhammer_tester.Sram.{
  SramFsm, addr, get_data, wait, data_phase, BusRequest, Sram, merge, written_words, port_step,
  accept, sram_dispatch, acks, sram_step, sram_run,
}

-- Merging twice is merging once.
merge-merge :
    (bytes enables new old : ℕ)
    → merge bytes enables new (merge bytes enables new old) ≡ merge bytes enables new old
unfolding merge
merge-merge zero enables new old = refl
merge-merge (suc bytes) enables new old =
    let m : ℕ = merge bytes (enables / 2) (new / 256) (old / 256) in
    let low : ℕ = if enables % 2 == 1 then new % 256 else old % 256 in
    let small : low < 256 = ground arith in
    let below : (low + 256 * m) % 256 ≡ low = omega arith in
    let above : (low + 256 * m) / 256 ≡ m = omega arith in
    rw (above, below, merge-merge bytes (enables / 2) (new / 256) (old / 256)) (ground arith)

module _ (bytes : ℕ) (read_only read_first : Bool) where
  at_port :
      (s : Sram) (a : ℕ)
      → s.port_adr ≡ a
      → written_words bytes read_only read_first s a
        ≡ merge bytes s.port_we s.port_dat_w (s.words a)
  unfolding written_words
  at_port s a h = ground arith

  elsewhere :
      (s : Sram) (a : ℕ) → a ≢ s.port_adr → written_words bytes read_only read_first s a ≡ s.words a
  unfolding written_words
  elsewhere s a h = ground arith

  abbrev next : BusRequest → Sram → Sram
  next i s = sram_step bytes read_only read_first i s

  accept-words :
      (i : BusRequest) (t : Sram) (a : ℕ)
      → (accept bytes read_only read_first i t).words a ≡ t.words a
  unfolding accept
  accept-words i t a = elim (Bool-cases (i.we && not read_only)) [
    | inl e ↦ rw e refl
    | inr e ↦ rw e refl
  ]

  dispatch-words :
      (f : SramFsm) (i : BusRequest) (t : Sram) (a : ℕ)
      → (sram_dispatch bytes read_only read_first f i t).words a ≡ t.words a
  unfolding sram_dispatch
  dispatch-words addr i t a = elim (Bool-cases (i.cyc && i.stb)) [
    | inl e ↦ rw e (accept-words i t a)
    | inr e ↦ rw e refl
  ]
  dispatch-words get_data i t a = refl
  dispatch-words wait i t a = refl
  dispatch-words data_phase i t a = refl

  words_step :
      (i : BusRequest) (s : Sram) (a : ℕ)
      → (next i s).words a ≡ written_words bytes read_only read_first s a
  unfolding sram_step
  words_step i s a = dispatch-words s.fsm i (port_step bytes read_only read_first s) a

  -- The three cycles of a request up to its acknowledgement.
  asked :
      (i : BusRequest) (s : Sram)
      → s.fsm ≡ addr
      → i.cyc ≡ true
      → i.stb ≡ true
      → let t = next i s in
        (t.fsm ≡ get_data)
        × (t.port_adr ≡ i.adr)
        × (t.port_we ≡ (if i.we && not read_only then i.sel else s.port_we))
        × (t.port_dat_w ≡ (if i.we && not read_only then i.dat_w else s.port_dat_w))
  unfolding sram_step
  asked i s e c b = elim (Bool-cases (i.we && not read_only)) [
    | inl h ↦ rw (e, c, b, h) (refl, refl, refl, refl)
    | inr h ↦ rw (e, c, b, h) (refl, refl, refl, refl)
  ]

  waits :
      (i : BusRequest) (t : Sram)
      → t.fsm ≡ get_data
      → let u = next i t in
        (u.fsm ≡ wait)
        × (u.port_adr ≡ t.port_adr)
        × (u.port_we ≡ t.port_we)
        × (u.port_dat_w ≡ t.port_dat_w)
  unfolding sram_step
  waits i t e = rw e (refl, refl, refl, refl)

  acked :
      (i : BusRequest) (u : Sram)
      → u.fsm ≡ wait
      → acks bytes read_only read_first (next i u).fsm ≡ true
  unfolding sram_step acks
  acked i u e = rw e refl

  -- What a request leaves at its address when it is acknowledged, whatever its kind.
  request :
      (i : BusRequest) (s : Sram)
      → s.fsm ≡ addr
      → i.cyc ≡ true
      → i.stb ≡ true
      → i.adr ≢ s.port_adr
      → let s' = sram_run bytes read_only read_first 3 i s in
        let t = next i s in
        (acks bytes read_only read_first s'.fsm ≡ true)
        × (s'.words i.adr ≡ merge bytes t.port_we t.port_dat_w (s.words i.adr))
  unfolding sram_run
  request i s e c b other =
      let t = next i s in
      let u = next i t in
      let (at_t, adr_t, we_t, dat_t) = asked i s e c b in
      let (at_u, adr_u, we_u, dat_u) = waits i t at_t in
      let first : t.words i.adr ≡ s.words i.adr = words_step i s i.adr ∙ elsewhere s i.adr other in
      let merged : u.words i.adr ≡ merge bytes t.port_we t.port_dat_w (s.words i.adr) =
        words_step i t i.adr
        ∙ at_port t i.adr adr_t
        ∙ ap (merge bytes t.port_we t.port_dat_w) first in
      (
        acked i u at_u,
        words_step i u i.adr
            ∙ at_port u i.adr (adr_u ∙ adr_t)
            ∙ ap₂ (λ e d. merge bytes e d (u.words i.adr)) we_u dat_u
            ∙ ap (merge bytes t.port_we t.port_dat_w) merged
            ∙ merge-merge bytes t.port_we t.port_dat_w (s.words i.adr),
      )

  -- A write request on a memory that is not read-only is acknowledged after three cycles; by then the
  -- bytes that it selects have replaced those of the word at its address, if the request before it
  -- was for another address.
  pub sram_run-writes :
      (i : BusRequest) (s : Sram)
      → s.fsm ≡ addr
      → i.cyc ≡ true
      → i.stb ≡ true
      → i.we ≡ true
      → read_only ≡ false
      → i.adr ≢ s.port_adr
      → let s' = sram_run bytes read_only read_first 3 i s in
        (acks bytes read_only read_first s'.fsm ≡ true)
        × (s'.words i.adr ≡ merge bytes i.sel i.dat_w (s.words i.adr))
  sram_run-writes i s e c b writes free other =
      let (_, _, we_t, dat_t) = asked i s e c b in
      let (acknowledged, word) = request i s e c b other in
      let yes : i.we && not read_only ≡ true = rw (writes, free) refl in
      let enables : (next i s).port_we ≡ i.sel = we_t ∙ rw yes refl in
      let bytes_of : (next i s).port_dat_w ≡ i.dat_w = dat_t ∙ rw yes refl in
      (acknowledged, word ∙ ap₂ (λ m d. merge bytes m d (s.words i.adr)) enables bytes_of)

  -- A read request for another address than the last request's is acknowledged after three cycles;
  -- by then the bytes of the last write request, whose enables are still set, have replaced those
  -- of the word that is read.
  pub sram_run-reads :
      (i : BusRequest) (s : Sram)
      → s.fsm ≡ addr
      → i.cyc ≡ true
      → i.stb ≡ true
      → i.we ≡ false
      → i.adr ≢ s.port_adr
      → let s' = sram_run bytes read_only read_first 3 i s in
        (acks bytes read_only read_first s'.fsm ≡ true)
        × (s'.words i.adr ≡ merge bytes s.port_we s.port_dat_w (s.words i.adr))
  sram_run-reads i s e c b reads other =
      let (_, _, we_t, dat_t) = asked i s e c b in
      let (acknowledged, word) = request i s e c b other in
      let no : i.we && not read_only ≡ false = rw reads refl in
      let enables : (next i s).port_we ≡ s.port_we = we_t ∙ rw no refl in
      let bytes_of : (next i s).port_dat_w ≡ s.port_dat_w = dat_t ∙ rw no refl in
      (acknowledged, word ∙ ap₂ (λ m d. merge bytes m d (s.words i.adr)) enables bytes_of)
