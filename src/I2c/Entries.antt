-- ===== src/I2c/Entries.antt =====
-- rowhammer_tester/scripts/utils.py: the entries that the I2C transfers push to the worker.
use mathlib.Core.List.{append-nil, append_assoc}
use rowhammer_tester.Prelude.{
  ℕ, zero, suc, ◌+◌, ◌*◌, ◌/◌, ◌%◌, ◌^◌, ◌≡◌, refl, sym, ap, ap₂, ◌∙◌, List, [], ◌∷◌, ◌++◌, length,
  arith,
}
use rowhammer_tester.I2c.{
  Reg, i2c_worker, i2c_ctrl, Entry, Op, wrote, pushed, World, push, write, start_entry, reg_entry,
  data_entry, push_reg, push_data, begin,
}

abbrev pub entries : List Op → List Entry
entries [] = []
entries (wrote r n ∷ ops) = entries ops
entries (pushed e ∷ ops) = e ∷ entries ops

-- The entries of a register address.
abbrev pub reg_entries : ℕ → ℕ → ℕ → List Entry
reg_entries zero i reg_addr = []
reg_entries (suc n) i reg_addr =
    reg_entry (reg_addr / 2 ^ (8 * i) % 256) ∷ reg_entries n (i + 1) reg_addr

-- Those of `n` bytes from the one at `i` on, of `len`: `data_entry` sets the stop flags at the last.
abbrev pub data_entries : ℕ → (ℕ → ℕ) → ℕ → ℕ → List Entry
data_entries len bytes zero i = []
data_entries len bytes (suc n) i = data_entry len bytes i ∷ data_entries len bytes n (i + 1)

entries-append : (a b : List Op) → entries (a ++ b) ≡ entries a ++ entries b
entries-append [] b = refl
entries-append (wrote r n ∷ a) b = entries-append a b
entries-append (pushed e ∷ a) b = ap (λ l. e ∷ l) (entries-append a b)

pub entries-push : (e : Entry) (w : World) → entries (push e w).ops ≡ entries w.ops ++ (e ∷ [])
entries-push e w = entries-append w.ops (pushed e ∷ [])

pub entries-write : (r : Reg) (n : ℕ) (w : World) → entries (write r n w).ops ≡ entries w.ops
entries-write r n w = entries-append w.ops (wrote r n ∷ []) ∙ append-nil (entries w.ops)

pub entries-push_data :
    (len : ℕ) (bytes : ℕ → ℕ) (n i : ℕ) (w : World)
    → entries (push_data len bytes n i w).ops ≡ entries w.ops ++ data_entries len bytes n i
entries-push_data len bytes zero i w = sym (append-nil (entries w.ops))
entries-push_data len bytes (suc n) i w =
    entries-push_data len bytes n (i + 1) (push (data_entry len bytes i) w)
    ∙ rw (entries-push (data_entry len bytes i) w) (append_assoc (entries w.ops) _ _)

entries-push_reg :
    (n i reg_addr : ℕ) (w : World)
    → entries (push_reg n i reg_addr w).ops ≡ entries w.ops ++ reg_entries n i reg_addr
entries-push_reg zero i reg_addr w = sym (append-nil (entries w.ops))
entries-push_reg (suc n) i reg_addr w =
    entries-push_reg n (i + 1) reg_addr (push (reg_entry (reg_addr / 2 ^ (8 * i) % 256)) w)
    ∙ rw (entries-push (reg_entry (reg_addr / 2 ^ (8 * i) % 256)) w)
        (append_assoc (entries w.ops) _ _)

pub data_entries-append :
    (len : ℕ) (bytes : ℕ → ℕ) (n m i j k : ℕ)
    → j ≡ i + n
    → k ≡ n + m
    → data_entries len bytes n i ++ data_entries len bytes m j ≡ data_entries len bytes k i
data_entries-append len bytes zero m i j k e e' =
    let p : m ≡ k = omega (arith, e') in
    let q : j ≡ i = omega (arith, e) in ap₂ (data_entries len bytes) p q
data_entries-append len bytes (suc n) m i j zero e e' = absurd (omega (arith, e'))
data_entries-append len bytes (suc n) m i j (suc k) e e' =
    ap (λ l. data_entry len bytes i ∷ l)
      (data_entries-append len bytes n m (i + 1) j k (omega (arith, e)) (omega (arith, e')))

pub length-data_entries :
    (len : ℕ) (bytes : ℕ → ℕ) (n i : ℕ) → length (data_entries len bytes n i) ≡ n
length-data_entries len bytes zero i = refl
length-data_entries len bytes (suc n) i = ap suc (length-data_entries len bytes n (i + 1))

pub length-reg_entries : (n i reg_addr : ℕ) → length (reg_entries n i reg_addr) ≡ n
length-reg_entries zero i reg_addr = refl
length-reg_entries (suc n) i reg_addr = ap suc (length-reg_entries n (i + 1) reg_addr)

-- The entries before the first data.
abbrev pub address_entries : ℕ → ℕ → ℕ → List Entry
address_entries slave_addr reg_addr reg_addr_size =
    start_entry (slave_addr * 2) ∷ reg_entries reg_addr_size 0 reg_addr

pub entries-begin :
    (slave_addr reg_addr reg_addr_size : ℕ) (w : World)
    → entries (begin slave_addr reg_addr reg_addr_size w).ops
      ≡ entries w.ops ++ address_entries slave_addr reg_addr reg_addr_size
entries-begin slave_addr reg_addr reg_addr_size w =
    entries-push_reg reg_addr_size 0 reg_addr (push (start_entry (slave_addr * 2)) opened)
    ∙ ap (λ l. l ++ reg_entries reg_addr_size 0 reg_addr)
        (entries-push (start_entry (slave_addr * 2)) opened
          ∙ ap (λ l. l ++ (start_entry (slave_addr * 2) ∷ []))
              (entries-write i2c_worker 1 (write i2c_ctrl 0 w) ∙ entries-write i2c_ctrl 0 w))
    ∙ append_assoc (entries w.ops) _ _
  where
    opened : World
    opened = write i2c_worker 1 (write i2c_ctrl 0 w)
