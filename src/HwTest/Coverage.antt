-- ===== src/HwTest/Coverage.antt =====
-- What the writer is set up with where `hw_memset` starts it, and where it then writes.
use mathlib.Core.Path.{subst}
use native.Mathlib.Nat.{mod-add-div', mod-eq_of_lt}
use rowhammer_tester.Prelude.{
  ℕ, zero, suc, ◌+◌, ◌-◌, ◌*◌, ◌/◌, ◌%◌, ◌^◌, ◌<◌, ◌≡◌, refl, ap, ◌∙◌, false, and_mask, Option,
  List, [], ◌∷◌, ◌==◌, if◌then◌else◌, replicate, arith, ok, >>=-eq-ok, assert-eq-ok, ok-injective,
}
use rowhammer_tester.Bist.{Pattern, Config, Widths, dram_address, masked_slot}
use rowhammer_tester.Bist.Writer.Settles.{slot, target}
use rowhammer_tester.HwTest.{
  writer, Register, mem_mask, data_mask, count, start, divisor_mask, selection_mask, skip_fifo,
  error_continue, BusWrite, to_register, to_pattern_data, to_pattern_addr, check_size, only_pattern,
  start_side, set_pattern, hw_memset,
}

-- The writer's registers and the first entry of its pattern memories.
pub record WriterSetup : Type 0 where
  pub config : Config
  pub first_addr : ℕ
  pub first_words : List ℕ

-- What they hold now, and what they held at each start, the last start first.
pub record Device : Type 0 where
  pub now : WriterSetup
  pub started : List WriterSetup

abbrev pub configure : Config → Device → Device
configure c d = record d { now = record d.now { config = c } }

abbrev pub set_register : Register → ℕ → Device → Device
set_register mem_mask v d = configure (record d.now.config { mem_mask = v % 2 ^ 32 }) d
set_register data_mask v d = configure (record d.now.config { data_mask = v }) d
set_register count v d = configure (record d.now.config { count = v % 2 ^ 32 }) d
set_register start v d = record d { started = d.now ∷ d.started }
set_register divisor_mask v d = configure (record d.now.config { divisor_mask = v }) d
set_register selection_mask v d = configure (record d.now.config { selection_mask = v }) d
set_register skip_fifo v d = d
set_register error_continue v d = d

abbrev pub receive : BusWrite → Device → Device
receive (to_register writer r v) d = set_register r v d
receive (to_pattern_data writer words) d = record d { now = record d.now { first_words = words } }
receive (to_pattern_addr writer a) d = record d { now = record d.now { first_addr = a } }
receive _ d = d

abbrev pub receive_all : List BusWrite → Device → Device
receive_all [] d = d
receive_all (b ∷ bs) d = receive_all bs (receive b d)

-- The pattern memories: `p` behind their first entry's address.
abbrev pub over : WriterSetup → Pattern → Pattern
over c p = record p { addr = λ i. if i == 0 then c.first_addr else p.addr i }

checked : (size nbytes : ℕ) → check_size size nbytes ≡ ok tt → size / nbytes * nbytes ≡ size
unfolding check_size
checked size nbytes e = ground (arith, mod-add-div' size nbytes)

slot-first :
    (one_hot : ℕ → ℕ) (p : Pattern) (c : Config) (w : Widths) (k : ℕ)
    → c.modulo ≡ false
    → c.data_mask ≡ 0
    → slot one_hot p c w k ≡ 0
unfolding slot masked_slot
slot-first one_hot p c w zero h m = rw (h, m) (and_mask 0 _ ∙ omega arith)
slot-first one_hot p c w (suc k) h m = rw (h, m) (and_mask 0 _ ∙ omega arith)

target-first :
    (one_hot : ℕ → ℕ) (p : Pattern) (c : Config) (w : Widths) (k : ℕ)
    → c.modulo ≡ false
    → c.data_mask ≡ 0
    → c.mem_mask ≡ 2 ^ 32 - 1
    → k < 2 ^ 32
    → target one_hot p c w k ≡ (p.addr 0 + k) % 2 ^ w.dma_bits
unfolding dram_address
target-first one_hot p c w k h m a small =
    rw (slot-first one_hot p c w k h m, a, and_mask 32 k, mod-eq_of_lt small) refl

-- That the writer was started once more, with `c`, which is for the transfer `k` as it is to be.
abbrev pub StartedWith :
    (nbytes offset size pattern k : ℕ)
    → (ℕ → ℕ)
    → Pattern
    → Widths
    → Device
    → Device
    → WriterSetup
    → Type 0
StartedWith nbytes offset size pattern k one_hot p w d d' c =
    (d'.started ≡ c ∷ d.started)
    × (c.config.count * nbytes ≡ size)
    × (c.first_words ≡ replicate (nbytes / 4) pattern)
    × (target one_hot (over c p) c.config w k ≡ (offset / nbytes + k) % 2 ^ w.dma_bits)

after_start :
    (nbytes offset size pattern k : ℕ) (d : Device) (one_hot : ℕ → ℕ) (p : Pattern) (w : Widths)
    → d.now.config.modulo ≡ false
    → size / nbytes < 2 ^ 32
    → size / nbytes * nbytes ≡ size
    → k < size / nbytes
    → (c : WriterSetup) × StartedWith nbytes offset size pattern k one_hot p w d
        (receive_all (start_side writer nbytes offset size pattern) d)
        c
unfolding start_side set_pattern
after_start nbytes offset size pattern k d one_hot p w mode fits whole below =
    let c : WriterSetup = (receive_all (start_side writer nbytes offset size pattern) d).now in
    (
      c,
      (
        refl,
        rw (mod-eq_of_lt fits) whole,
        refl,
        target-first one_hot (over c p) c.config w k mode refl refl (omega arith),
      ),
    )

-- When `hw_memset` gets past its assertions, it starts the writer once. What the writer is set up
-- with at that moment is a count that covers `size` bytes, and the one pattern as its first words;
-- and each transfer `k` of these then goes to the DMA word `offset / nbytes + k`, whatever the
-- further entries of the pattern memories are, if the writer was not in the mode with a divisor and
-- the count is below 2 ^ 32.
pub hw_memset-covers :
    (nbytes offset size ready_value : ℕ) (patterns polled : List ℕ) (sent : List BusWrite)
    (polls : Option ℕ) (d : Device) (one_hot : ℕ → ℕ) (p : Pattern) (w : Widths) (k : ℕ)
    → hw_memset nbytes offset size patterns ready_value polled ≡ ok (sent, polls)
    → d.now.config.modulo ≡ false
    → size / nbytes < 2 ^ 32
    → k < size / nbytes
    → (pattern : ℕ) × (c : WriterSetup) × (only_pattern patterns ≡ ok pattern)
      × StartedWith nbytes offset size pattern k one_hot p w d (receive_all sent d) c
unfolding hw_memset
hw_memset-covers nbytes offset size ready_value patterns polled sent polls d one_hot p w k e mode
      fits below =
    let (_, size_ok, rest) = >>=-eq-ok (check_size size nbytes) _ e in
    let (pattern, one, rest) = >>=-eq-ok (only_pattern patterns) _ rest in
    let (_, rest) = assert-eq-ok (ready_value == 1) _ rest in
    let same : start_side writer nbytes offset size pattern ≡ sent =
      ap (λ r. r.0) (ok-injective rest) in
    let (c, started) =
      after_start nbytes offset size pattern k d one_hot p w mode fits (checked size nbytes size_ok)
        below in
    (
      pattern,
      c,
      one,
      subst (λ l. StartedWith nbytes offset size pattern k one_hot p w d (receive_all l d) c) same
          started,
    )
