-- ===== src/I2c/Read.antt =====
-- rowhammer_tester/scripts/utils.py: what `i2c_read` has pushed when it is through, and
-- when it is not.
use mathlib.Core.List.{append_assoc}
use rowhammer_tester.Prelude.{
  ℕ, ◌+◌, ◌*◌, ◌≤◌, ◌≡◌, inl, inr, refl, ap, ◌∙◌, Bool, true, false, Option, none, some, List, [],
  ◌∷◌, ◌++◌, ltb, if◌then◌else◌, length, length-append, arith, Bool-cases,
}
use rowhammer_tester.I2c.{
  Reg, write_fifo_state, Entry, World, push, passed, start_entry, stop_entry, begin, low, Outcome,
  value_error, returned, waiting, dummy, i2c_read,
}
use rowhammer_tester.I2c.Entries.{
  entries, data_entries, entries-push, address_entries, entries-begin, reg_entries,
  length-data_entries, length-reg_entries,
}
use rowhammer_tester.I2c.Loops.{Fed}
use rowhammer_tester.I2c.ReadLoop.{ReadSends, transfer-ReadSends}

abbrev pub outcome_world : {A : Type 0} → Outcome A → World
outcome_world (value_error w) = w
outcome_world (returned a w) = w
outcome_world (waiting w) = w

Fed-length :
    (base : List Entry) (len n : ℕ) (l : List Entry)
    → Fed base len dummy n l
    → length l ≤ length base + len
Fed-length base len n l (e, fits) = omega (
  arith,
  ap length e,
  length-append base (data_entries len dummy n 0),
  length-data_entries len dummy n 0,
  fits,
)

module _ (answer : Reg → ℕ → ℕ) (data_of : ℕ → ℕ) (abort : ℕ) where
  -- The entries before the data: the address with the register's bytes, a stop if one is asked for,
  -- and the address again, to read.
  abbrev pub read_header : ℕ → ℕ → Bool → ℕ → List Entry
  read_header slave_addr reg_addr send_stop reg_addr_size =
      address_entries slave_addr reg_addr reg_addr_size
      ++ ((if send_stop then stop_entry ∷ [] else []) ++ (start_entry (slave_addr * 2 + 1) ∷ []))

  header_pushed :
      (slave_addr reg_addr : ℕ) (send_stop : Bool) (reg_addr_size : ℕ) (w : World)
      → entries
          (push (start_entry (slave_addr * 2 + 1)) (
            if send_stop
            then push stop_entry (begin slave_addr reg_addr reg_addr_size w)
            else begin slave_addr reg_addr reg_addr_size w)).ops
        ≡ entries w.ops ++ read_header slave_addr reg_addr send_stop reg_addr_size
  header_pushed slave_addr reg_addr true reg_addr_size w =
      let b : World = begin slave_addr reg_addr reg_addr_size w in
      let pushed_address = entries-begin slave_addr reg_addr reg_addr_size w in
      entries-push (start_entry (slave_addr * 2 + 1)) (push stop_entry b)
      ∙ ap (λ l. l ++ (start_entry (slave_addr * 2 + 1) ∷ []))
          (entries-push stop_entry b ∙ ap (λ l. l ++ (stop_entry ∷ [])) pushed_address)
      ∙ append_assoc (entries w.ops ++ address_entries slave_addr reg_addr reg_addr_size)
          (stop_entry ∷ []) _
      ∙ append_assoc (entries w.ops) (address_entries slave_addr reg_addr reg_addr_size) _
  header_pushed slave_addr reg_addr false reg_addr_size w =
      entries-push (start_entry (slave_addr * 2 + 1)) (begin slave_addr reg_addr reg_addr_size w)
      ∙ ap (λ l. l ++ (start_entry (slave_addr * 2 + 1) ∷ []))
          (entries-begin slave_addr reg_addr reg_addr_size w)
      ∙ append_assoc (entries w.ops) (address_entries slave_addr reg_addr reg_addr_size) _

  -- Whatever the I2C worker answers, and however long it is waited for: `i2c_read` pushes nothing
  -- at its ValueError. Otherwise it pushes the entries of the addresses and then those of the data
  -- from the first on, each once and in order, with the stop flags at the last one of `len` alone:
  -- some of them where it is aborted or still waits, and all of them where it returns, with at least
  -- `len` bytes.
  pub i2c_read-ReadSends :
      (fuel slave_addr reg_addr len : ℕ) (send_stop : Bool) (reg_addr_size : ℕ) (w : World)
      → ReadSends
          (entries w.ops)
          (entries w.ops ++ read_header slave_addr reg_addr send_stop reg_addr_size)
          len
          (i2c_read answer data_of abort fuel slave_addr reg_addr len send_stop reg_addr_size w)
  unfolding i2c_read
  i2c_read-ReadSends fuel slave_addr reg_addr len send_stop reg_addr_size w =
      elim (Bool-cases (ltb (low (answer write_fifo_state w.reads)) (len + 3 + reg_addr_size))) [
        | inl e ↦ rw e refl
        | inr e ↦ rw e (
            transfer-ReadSends answer data_of abort
              (entries w.ops ++ read_header slave_addr reg_addr send_stop reg_addr_size) len
              (entries w.ops) fuel (2 + reg_addr_size) _
              (header_pushed slave_addr reg_addr send_stop reg_addr_size (passed 1 w)))
      ]

  length-read_header :
      (slave_addr reg_addr : ℕ) (send_stop : Bool) (reg_addr_size : ℕ)
      → length (read_header slave_addr reg_addr send_stop reg_addr_size) ≤ reg_addr_size + 3
  length-read_header slave_addr reg_addr true reg_addr_size = omega (
    arith,
    length-append (reg_entries reg_addr_size 0 reg_addr)
        (stop_entry ∷ start_entry (slave_addr * 2 + 1) ∷ []),
    length-reg_entries reg_addr_size 0 reg_addr,
  )
  length-read_header slave_addr reg_addr false reg_addr_size = omega (
    arith,
    length-append (reg_entries reg_addr_size 0 reg_addr) (start_entry (slave_addr * 2 + 1) ∷ []),
    length-reg_entries reg_addr_size 0 reg_addr,
  )

  sends-length :
      (before base : List Entry) (len : ℕ) (o : Outcome (Option (List ℕ)))
      → length before ≤ length base
      → ReadSends before base len o
      → length (entries (outcome_world o).ops) ≤ length base + len
  sends-length before base len (value_error w) le e = omega (arith, ap length e)
  sends-length before base len (returned (some ret) w) le ((e, fits), enough) =
      Fed-length base len len (entries w.ops) (e, fits)
  sends-length before base len (returned none w) le (n, fed) =
      Fed-length base len n (entries w.ops) fed
  sends-length before base len (waiting w) le (n, fed) = Fed-length base len n (entries w.ops) fed

  i2c_read-refused :
      (fuel slave_addr reg_addr len : ℕ) (send_stop : Bool) (reg_addr_size : ℕ) (w : World)
      → ltb (low (answer write_fifo_state w.reads)) (len + 3 + reg_addr_size) ≡ true
      → i2c_read answer data_of abort fuel slave_addr reg_addr len send_stop reg_addr_size w
        ≡ value_error (passed 1 w)
  unfolding i2c_read
  i2c_read-refused fuel slave_addr reg_addr len send_stop reg_addr_size w e = rw e refl

  -- Whatever the I2C worker answers, and however long it is waited for: `i2c_read` pushes no more
  -- entries in all than the depth of the worker's write FIFO, as it is read first.
  pub i2c_read-fits :
      (fuel slave_addr reg_addr len : ℕ) (send_stop : Bool) (reg_addr_size : ℕ) (w : World)
      → length (
          entries
            (outcome_world (
              i2c_read answer data_of abort fuel slave_addr reg_addr len send_stop reg_addr_size
                w)).ops)
        ≤ length (entries w.ops) + low (answer write_fifo_state w.reads)
  i2c_read-fits fuel slave_addr reg_addr len send_stop reg_addr_size w =
      elim (Bool-cases (ltb (low (answer write_fifo_state w.reads)) (len + 3 + reg_addr_size))) [
        | inl e ↦
            rw (i2c_read-refused fuel slave_addr reg_addr len send_stop reg_addr_size w e)
              (omega arith)
        | inr e ↦
            let header = read_header slave_addr reg_addr send_stop reg_addr_size in
            let whole = length-append (entries w.ops) header in
            let fits : len + 3 + reg_addr_size ≤ low (answer write_fifo_state w.reads) =
              ground (arith, e) in
            omega (
              arith,
              fits,
              whole,
              length-read_header slave_addr reg_addr send_stop reg_addr_size,
              sends-length (entries w.ops) (entries w.ops ++ header) len
                  (i2c_read answer data_of abort fuel slave_addr reg_addr len send_stop
                    reg_addr_size w)
                  (omega (arith, whole))
                  (i2c_read-ReadSends fuel slave_addr reg_addr len send_stop reg_addr_size w),
            )
      ]
