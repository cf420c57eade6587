-- ===== src/I2c/Write.antt =====
-- rowhammer_tester/scripts/utils.py: that `i2c_write` comes to its end, and what it has pushed there.
use mathlib.Core.List.{append-nil}
use rowhammer_tester.Prelude.{
  ℕ, zero, suc, ◌+◌, ◌-◌, ◌%◌, min, ◌≤◌, ◌<◌, ◌≡◌, ◌⊎◌, inl, inr, refl, sym, ap, ◌∙◌, Bool, true,
  false, List, [], ◌++◌, ltb, ◌==◌, length, length-append, arith, Bool-cases,
}
use rowhammer_tester.I2c.{
  Reg, write_fifo_state, read_fifo_state, i2c_state, i2c_worker, i2c_start, Entry, World, write,
  passed, push_data, low, high, Outcome, returned, Loop, left, Progress, wait_idle, room, responses,
  write_round, transfer_loop, finish, and_then, transfer, i2c_write,
}
use rowhammer_tester.I2c.Entries.{
  entries, data_entries, entries-write, address_entries, entries-begin,
}
use rowhammer_tester.I2c.Loops.{Fed, Fed-more}

-- A worker that is idle, is not in the state that `abort` is, has room for an entry, and has one
-- response, whenever it is asked.
pub record IsSteady (answer : Reg → ℕ → ℕ) (abort : ℕ) : Type 0 where
  pub idle : (n : ℕ) → (answer i2c_state n % 2 == 1) ≡ true
  pub going : (n : ℕ) → (high (answer i2c_state n) == abort) ≡ false
  pub free : (n : ℕ) → high (answer write_fifo_state n) < low (answer write_fifo_state n)
  pub one_response : (n : ℕ) → high (answer read_fifo_state n) ≡ 1

module _ (answer : Reg → ℕ → ℕ) (data_of : ℕ → ℕ) (abort : ℕ) (steady : IsSteady answer abort)
    (base : List Entry) (len : ℕ) (bytes : ℕ → ℕ) where
  -- More is sent than is answered, until all is sent.
  record Ahead (s : Progress) (w : World) : Type 0 where
    pub fed : Fed base len bytes s.sent (entries w.ops)
    pub at_most : length s.ret ≤ len
    pub ahead : (length s.ret < s.sent) ⊎ (s.sent ≡ len)

  abbrev round : Progress → World → Progress × World
  round = write_round answer data_of abort len bytes

  -- The rounds that are left.
  abbrev left_over : Progress → ℕ
  left_over s = s.discard + (len - length s.ret)

  length-responses : (n reads : ℕ) → length (responses answer data_of abort n reads) ≡ n
  length-responses zero reads = refl
  length-responses (suc n) reads = ap suc (length-responses n (reads + 1))

  round-Ahead :
      (s : Progress) (w : World)
      → Ahead s w
      → length s.ret < len
      → Ahead (round s w).0 (round s w).1 × (suc (left_over (round s w).0) ≡ left_over s)
  round-Ahead s w h more =
      let n : ℕ = room answer data_of abort (len - s.sent) w in
      let pushed_all : World = push_data len bytes n s.sent (passed 1 w) in
      let e : ℕ = high (answer read_fifo_state pushed_all.reads) in
      let one : e ≡ 1 = steady.one_response pushed_all.reads in
      let i : ℕ = min e s.discard in
      let got = responses answer data_of abort (e - i) (pushed_all.reads + 1 + i) in
      let some_room : (1 ≤ n) ⊎ (s.sent ≡ len) = room_or_all s.sent w (h.fed.1) in
      let longer : length (s.ret ++ got) ≡ length s.ret + (e - i) =
        length-append s.ret got
        ∙ ap (λ (k : ℕ). length s.ret + k) (length-responses (e - i) (pushed_all.reads + 1 + i)) in
      let grown : length (s.ret ++ got) ≤ length s.ret + 1 = omega (arith, longer, one) in
      (
        record {
          fed = Fed-more base len bytes n s.sent (passed 1 w) (omega arith) h.fed;
          at_most = omega (arith, grown, more);
          ahead =
              still_ahead (length s.ret) (length (s.ret ++ got)) s.sent n h.ahead some_room grown
                (h.fed.1) (omega arith);
        },
        one_less s.discard (length s.ret) (length (s.ret ++ got)) e one longer more,
      )
    where
      room_or_all :
          (sent : ℕ) (w : World)
          → sent ≤ len
          → (1 ≤ room answer data_of abort (len - sent) w) ⊎ (sent ≡ len)
      room_or_all sent w le = elim (Bool-cases (sent == len)) [
        | inl q ↦ inr (ground (arith, q))
        | inr q ↦
            let apart : sent < len = ground (arith, q, le) in
            inl (omega (arith, apart, steady.free w.reads))
      ]

      still_ahead :
          (ret ret' sent n : ℕ)
          → (ret < sent) ⊎ (sent ≡ len)
          → (1 ≤ n) ⊎ (sent ≡ len)
          → ret' ≤ ret + 1
          → sent ≤ len
          → n ≤ len - sent
          → (ret' < sent + n) ⊎ (sent + n ≡ len)
      still_ahead ret ret' sent n (inl ahead) (inl some) grown le most =
          inl (omega (arith, ahead, some, grown))
      still_ahead ret ret' sent n (inr all) r grown le most = inr (omega (arith, all, most))
      still_ahead ret ret' sent n (inl ahead) (inr all) grown le most =
          inr (omega (arith, all, most))

      one_less :
          (discard ret ret' e : ℕ)
          → e ≡ 1
          → ret' ≡ ret + (e - min e discard)
          → ret < len
          → suc (discard - min e discard + (len - ret')) ≡ discard + (len - ret)
      one_less discard ret ret' e one longer more = omega (arith, one, longer, more)

  -- Behind the loop all is sent and answered.
  abbrev Complete : Loop (Bool × Progress) → Type 0
  Complete o =
      (s : Progress) × (w : World) × (o ≡ left (true, s) w)
      × (length s.ret ≡ len)
      × (entries w.ops ≡ base ++ data_entries len bytes len 0)

  loop-Complete :
      (fuel : ℕ) (s : Progress) (w : World)
      → Ahead s w
      → left_over s < fuel
      → Complete (transfer_loop answer data_of abort fuel len round s w)
  unfolding transfer_loop
  loop-Complete zero s w h enough = absurd (omega (arith, enough))
  loop-Complete (suc fuel) s w h enough = elim (Bool-cases (ltb (length s.ret) len)) [
    | inr e ↦
        let all_back : length s.ret ≡ len = ground (arith, e, h.at_most) in
        let all_sent : s.sent ≡ len = elim h.ahead [
          | inl ahead ↦ omega (arith, ahead, all_back, h.fed)
          | inr all ↦ all
        ] in
        rw e (
          s,
          w,
          refl,
          all_back,
          h.fed.0 ∙ ap (λ (n : ℕ). base ++ data_entries len bytes n 0) all_sent,
        )
    | inl e ↦
        let next : Ahead s (passed 1 w) = record {
          fed = h.fed;
          at_most = h.at_most;
          ahead = h.ahead;
        } in
        let (h', less) = round-Ahead s (passed 1 w) next (ground (arith, e)) in
        rw e (
          rw (steady.going w.reads) (
            loop-Complete fuel (round s (passed 1 w)).0 (round s (passed 1 w)).1 h'
              (omega (arith, less, enough))))
  ]

  abbrev result : Bool × Progress → ℕ
  result r = length r.1.ret

  -- All is written, as many bytes are returned, and no entry is pushed but these.
  abbrev pub Writes : Outcome ℕ → Type 0
  Writes o =
      (w : World) × (o ≡ returned len w) × (entries w.ops ≡ base ++ data_entries len bytes len 0)

  finished :
      (fuel : ℕ) (o : Loop (Bool × Progress))
      → 0 < fuel
      → Complete o
      → Writes (and_then o (λ r w. finish answer data_of abort fuel (result r) w))
  unfolding wait_idle
  finished zero o some_fuel h = absurd (omega (arith, some_fuel))
  finished (suc fuel) o some_fuel (s, w, e, all_back, all_sent) = rw e (
      rw (steady.idle w.reads) (
        write i2c_worker 0 (passed 1 w),
        ap (λ n. returned n (write i2c_worker 0 (passed 1 w))) all_back,
        entries-write i2c_worker 0 (passed 1 w) ∙ all_sent,
      ))

  transfer-Writes :
      (fuel discard : ℕ) (w : World)
      → entries w.ops ≡ base
      → discard + len < fuel
      → Writes (transfer answer data_of abort fuel len bytes discard round result w)
  transfer-Writes fuel discard w e enough =
      let n : ℕ = room answer data_of abort len w in
      let filled : World = push_data len bytes n 0 (passed 1 w) in
      let fed : Fed base len bytes (0 + n) (entries filled.ops) =
        Fed-more base len bytes n 0 (passed 1 w) (omega arith)
          (e ∙ sym (append-nil base), omega arith) in
      let at_start : Ahead (record { sent = n; discard = discard; ret = [] })
          (write i2c_start 1 filled) =
        record {
          fed = (
            entries-write i2c_start 1 filled
                ∙ fed.0
                ∙ ap (λ (k : ℕ). base ++ data_entries len bytes k 0) (omega arith),
            omega (arith, fed.1),
          );
          at_most = omega arith;
          ahead = some_or_none (steady.free w.reads);
        } in
      finished fuel _ (omega (arith, enough))
        (loop-Complete fuel _ (write i2c_start 1 filled) at_start (omega (arith, enough)))
    where
      some_or_none :
          high (answer write_fifo_state w.reads) < low (answer write_fifo_state w.reads)
          → (0 < room answer data_of abort len w) ⊎ (room answer data_of abort len w ≡ len)
      some_or_none free = elim (Bool-cases (len == 0)) [
        | inl q ↦ inr (ground (arith, q))
        | inr q ↦ let some : 0 < len = ground (arith, q) in inl (omega (arith, some, free))
      ]

module _ (answer : Reg → ℕ → ℕ) (data_of : ℕ → ℕ) (abort : ℕ) where
  -- With a worker that is idle and not in ABORT, has room for an entry and has one response whenever
  -- it is asked, and a FIFO deep enough for all entries: `i2c_write` returns the number of bytes,
  -- where each of its loops may go on for more rounds than there are entries. It has then pushed the
  -- entries of the address and those of all the data, each once and in order, with the stop flags at
  -- the last of them alone, and no other entry.
  pub i2c_write-Writes :
      (fuel slave_addr reg_addr len : ℕ) (bytes : ℕ → ℕ) (reg_addr_size : ℕ) (w : World)
      → IsSteady answer abort
      → len + 1 + reg_addr_size ≤ low (answer write_fifo_state w.reads)
      → 1 + reg_addr_size + len < fuel
      → (w' : World) × (i2c_write answer data_of abort fuel slave_addr reg_addr len bytes
            reg_addr_size w
          ≡ returned len w')
        × (entries w'.ops
            ≡ entries w.ops
              ++ address_entries slave_addr reg_addr reg_addr_size
              ++ data_entries len bytes len 0)
  unfolding i2c_write
  i2c_write-Writes fuel slave_addr reg_addr len bytes reg_addr_size w steady fits enough =
      let refused : ltb (low (answer write_fifo_state w.reads)) (len + 1 + reg_addr_size) ≡ false =
        ground (arith, fits) in
      rw refused (
        transfer-Writes answer data_of abort steady
          (entries w.ops ++ address_entries slave_addr reg_addr reg_addr_size) len bytes fuel
          (1 + reg_addr_size) _ (entries-begin slave_addr reg_addr reg_addr_size (passed 1 w))
          enough)
