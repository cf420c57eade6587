-- ===== src/I2c.antt =====
-- rowhammer_tester/scripts/utils.py: `i2c_read`, `i2c_write` and `i2c_poll`, over LiteX's I2C worker.
-- The worker is any device: `answer r n` is what the n-th read of a run gives, where it is of the
-- register `r`. `data_of` and `ack_of` are LiteX's decoding of a response, and `abort` its state
-- ABORT. Each loop that waits for the device takes fuel; the sleeps are left out.
pub mod Entries
pub mod Loops
pub mod ReadLoop
pub mod Read
pub mod Write
use rowhammer_tester.Prelude.{
  ℕ, zero, suc, ◌+◌, ◌-◌, ◌*◌, ◌/◌, ◌%◌, ◌^◌, min, Bool, true, false, not, Option, none, some, List,
  [], ◌∷◌, ◌++◌, ltb, ◌==◌, if◌then◌else◌, length,
}

pub data Reg : Type 0 where
  write_fifo_state read_fifo_state i2c_state i2c_ctrl i2c_worker i2c_start access_port : Reg

-- LiteX's `I2CQueueEntry`.
pub record Entry : Type 0 where
  pub byte : ℕ
  pub ack : Bool
  pub s_start : Bool
  pub s_data : Bool
  pub s_stop : Bool
  pub s_idle : Bool
  pub abort_on_nack : Bool

-- A write to a register, and one of an entry to the access port.
pub data Op : Type 0 where
  wrote : Reg → ℕ → Op
  pushed : Entry → Op

-- The number of reads so far, and the writes in order.
pub record World : Type 0 where
  pub reads : ℕ
  pub ops : List Op

abbrev pub write : Reg → ℕ → World → World
write r n w = record w { ops = w.ops ++ (wrote r n ∷ []) }

abbrev pub push : Entry → World → World
push e w = record w { ops = w.ops ++ (pushed e ∷ []) }

abbrev pub passed : ℕ → World → World
passed n w = record w { reads = w.reads + n }

abbrev pub start_entry : ℕ → Entry
start_entry byte = record {
  byte = byte;
  ack = true;
  s_start = true;
  s_data = true;
  s_stop = false;
  s_idle = false;
  abort_on_nack = true;
}

abbrev pub reg_entry : ℕ → Entry
reg_entry byte = record (start_entry byte) { s_start = false }

abbrev pub stop_entry : Entry
stop_entry = record {
  byte = 0;
  ack = false;
  s_start = false;
  s_data = false;
  s_stop = true;
  s_idle = false;
  abort_on_nack = true;
}

-- The entry of the byte at `i`, of `len`.
abbrev pub data_entry : ℕ → (ℕ → ℕ) → ℕ → Entry
data_entry len bytes i =
    let flag = i == len - 1 in
    record {
      byte = bytes i;
      ack = flag;
      s_start = false;
      s_data = true;
      s_stop = flag;
      s_idle = flag;
      abort_on_nack = not flag;
    }

-- `w_state & 0xFF`, `w_state >> 8`.
abbrev pub low : ℕ → ℕ
low n = n % 256

abbrev pub high : ℕ → ℕ
high n = n / 256

-- The loop over `reg_addr_size` bytes, from the i-th.
abbrev pub push_reg : ℕ → ℕ → ℕ → World → World
push_reg zero i reg_addr w = w
push_reg (suc n) i reg_addr w =
    push_reg n (i + 1) reg_addr (push (reg_entry (reg_addr / 2 ^ (8 * i) % 256)) w)

-- `n` entries from the byte at `sent` on.
abbrev pub push_data : ℕ → (ℕ → ℕ) → ℕ → ℕ → World → World
push_data len bytes zero sent w = w
push_data len bytes (suc n) sent w =
    push_data len bytes n (sent + 1) (push (data_entry len bytes sent) w)

-- How a transfer ends: the ValueError; with a result; or not within the fuel.
pub data Outcome (A : Type 0) : Type 0 where
  value_error : World → Outcome A
  returned : A → World → Outcome A
  waiting : World → Outcome A

-- What a loop leaves to what comes behind it.
pub data Loop (A : Type 0) : Type 0 where
  left : A → World → Loop A
  looping : World → Loop A

abbrev pub and_then : {A B : Type 0} → Loop A → (A → World → Outcome B) → Outcome B
and_then (left a w) next = next a w
and_then (looping w) next = waiting w

-- 0xFF for a read.
abbrev pub dummy : ℕ → ℕ
dummy i = 255

-- The variables of the loops: `sent`, `discard_reads` and `ret`.
pub record Progress : Type 0 where
  pub sent : ℕ
  pub discard : ℕ
  pub ret : List ℕ

-- The None of a read that was aborted.
abbrev pub read_result : Bool × Progress → Option (List ℕ)
read_result (true, s) = some s.ret
read_result (false, s) = none

-- What stands before the loops: the register address, behind the check of the length.
abbrev pub begin : ℕ → ℕ → ℕ → World → World
begin slave_addr reg_addr reg_addr_size w =
    push_reg reg_addr_size 0 reg_addr
      (push (start_entry (slave_addr * 2)) (write i2c_worker 1 (write i2c_ctrl 0 w)))

abbrev pub aborted : Progress → Loop (Unit {0}) → Loop (Bool × Progress)
aborted s (left _ w) = left (false, s) w
aborted s (looping w) = looping w

module _ (answer : Reg → ℕ → ℕ) (data_of : ℕ → ℕ) (abort : ℕ) where
  -- `while not (i2c_state.read() & 1)`
  unfoldable pub wait_idle : ℕ → World → Loop (Unit {0})
  wait_idle zero w = looping w
  wait_idle (suc fuel) w =
      let rest = wait_idle fuel (passed 1 w) in
      if answer i2c_state w.reads % 2 == 1 then left _ (passed 1 w) else rest

  -- The data of `n` responses that are read from the access port.
  abbrev pub responses : ℕ → ℕ → List ℕ
  responses zero reads = []
  responses (suc n) reads = data_of (answer access_port reads) ∷ responses n (reads + 1)

  -- The branch of a loop that finds the state ABORT, behind that read.
  unfoldable pub abort_branch : ℕ → World → Loop (Unit {0})
  unfolding wait_idle
  abort_branch fuel w =
      let cleared = write i2c_ctrl 256 w in
      let drained = passed (1 + high (answer read_fifo_state cleared.reads)) cleared in
      wait_idle fuel (write i2c_start 1 (write i2c_ctrl 1 drained))

  -- The entries that there is room for: of `most`, by a read of the write FIFO's state.
  abbrev pub room : ℕ → World → ℕ
  room most w =
      let w_state = answer write_fifo_state w.reads in min most (low w_state - high w_state)

  -- A round of `i2c_read` behind the check for ABORT: `n` entries are pushed.
  abbrev pub read_sent : ℕ → ℕ → Progress → World → Progress × World
  read_sent len n s w =
      let pushed_all = push_data len dummy n s.sent (passed 1 w) in
      let entries = high (answer read_fifo_state pushed_all.reads) in
      let taken = passed 1 pushed_all in
      let i = min entries s.discard in
      if s.sent + n == len
      then (
        record {
          sent = s.sent + n;
          discard = s.discard - i;
          ret = s.ret ++ responses (entries - i) (taken.reads + i);
        },
        passed entries taken,
      )
      else (record { sent = s.sent + n; discard = s.discard - i; ret = s.ret }, passed i taken)

  abbrev pub read_round : ℕ → Progress → World → Progress × World
  read_round len s w = read_sent len (room (len - s.sent) w) s w

  -- The same of `i2c_write`.
  abbrev pub write_sent : ℕ → (ℕ → ℕ) → ℕ → Progress → World → Progress × World
  write_sent len bytes n s w =
      let pushed_all = push_data len bytes n s.sent (passed 1 w) in
      let entries = high (answer read_fifo_state pushed_all.reads) in
      let taken = passed 1 pushed_all in
      let i = min entries s.discard in
      (
        record {
          sent = s.sent + n;
          discard = s.discard - i;
          ret = s.ret ++ responses (entries - i) (taken.reads + i);
        },
        passed entries taken,
      )

  abbrev pub write_round : ℕ → (ℕ → ℕ) → Progress → World → Progress × World
  write_round len bytes s w = write_sent len bytes (room (len - s.sent) w) s w

  -- `while len(ret) < length`, of either; a round that finds ABORT has the result false.
  unfoldable pub transfer_loop :
      ℕ → ℕ → (Progress → World → Progress × World) → Progress → World → Loop (Bool × Progress)
  unfolding abort_branch
  transfer_loop zero len round s w = looping w
  transfer_loop (suc fuel) len round s w =
      let next = round s (passed 1 w) in
      let rest = transfer_loop fuel len round next.0 next.1 in
      if not (ltb (length s.ret) len)
      then left (true, s) w
      else if high (answer i2c_state w.reads) == abort
      then aborted s (abort_branch fuel (passed 1 w))
      else rest

  -- The wait behind the loop.
  abbrev pub finish : {A : Type 0} → ℕ → A → World → Outcome A
  finish fuel a w = and_then (wait_idle fuel w) (λ _ w'. returned a (write i2c_worker 0 w'))

  abbrev pub transfer :
      {A : Type 0}
      → ℕ
      → ℕ
      → (ℕ → ℕ)
      → ℕ
      → (Progress → World → Progress × World)
      → (Bool × Progress → A)
      → World
      → Outcome A
  transfer fuel len bytes discard round result w =
      let n = room len w in
      let started = write i2c_start 1 (push_data len bytes n 0 (passed 1 w)) in
      and_then
        (transfer_loop fuel len round (record { sent = n; discard = discard; ret = [] }) started)
        (λ r w'. finish fuel (result r) w')

  unfoldable pub i2c_read : ℕ → ℕ → ℕ → ℕ → Bool → ℕ → World → Outcome (Option (List ℕ))
  unfolding transfer_loop
  i2c_read fuel slave_addr reg_addr len send_stop reg_addr_size w =
      let began = begin slave_addr reg_addr reg_addr_size (passed 1 w) in
      let stopped = if send_stop then push stop_entry began else began in
      if ltb (low (answer write_fifo_state w.reads)) (len + 3 + reg_addr_size)
      then value_error (passed 1 w)
      else transfer fuel len dummy (2 + reg_addr_size) (read_round len) read_result
          (push (start_entry (slave_addr * 2 + 1)) stopped)

  unfoldable pub i2c_write : ℕ → ℕ → ℕ → (len : ℕ) → (ℕ → ℕ) → ℕ → World → Outcome ℕ
  unfolding transfer_loop
  i2c_write fuel slave_addr reg_addr len bytes reg_addr_size w =
      if ltb (low (answer write_fifo_state w.reads)) (len + 1 + reg_addr_size)
      then value_error (passed 1 w)
      else transfer fuel len bytes (1 + reg_addr_size) (write_round len bytes) (λ r. length r.1.ret)
          (begin slave_addr reg_addr reg_addr_size (passed 1 w))

-- `i2c_poll`: the entries of its two attempts, and the rounds of waiting for each.
abbrev pub last_entry : ℕ → Entry
last_entry byte = record {
  byte = byte;
  ack = true;
  s_start = false;
  s_data = true;
  s_stop = true;
  s_idle = true;
  abort_on_nack = false;
}

abbrev pub start_worker : World → World
start_worker w = write i2c_worker 0 (write i2c_start 1 (write i2c_worker 1 w))

module _ (answer : Reg → ℕ → ℕ) (data_of ack_of : ℕ → ℕ) (abort : ℕ) where
  -- The second attempt, a read of one byte; another response is read and dropped.
  abbrev pub poll_read : ℕ → ℕ → World → Outcome Bool
  poll_read fuel slave_addr w =
      let asked =
        push (last_entry 255)
          (push (record (start_entry (slave_addr * 2 + 1)) { abort_on_nack = false }) w) in
      and_then (wait_idle answer data_of abort fuel (start_worker asked))
        (λ _ w'. returned (ack_of (answer access_port w'.reads) == 0) (passed 2 w'))

  abbrev pub poll_answered : ℕ → ℕ → Unit {0} → World → Outcome Bool
  poll_answered fuel slave_addr _ w =
      if ack_of (answer access_port w.reads) == 0
      then returned true (passed 1 w)
      else poll_read fuel slave_addr (passed 1 w)

  unfoldable pub i2c_poll : ℕ → ℕ → World → Outcome Bool
  unfolding wait_idle
  i2c_poll fuel slave_addr w =
      let asked = push (record (last_entry (slave_addr * 2)) { s_start = true }) w in
      and_then (wait_idle answer data_of abort fuel (start_worker asked))
        (poll_answered fuel slave_addr)
