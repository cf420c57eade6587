-- ===== src/Session.antt =====
-- What a script does to the board: the calls of litex's remote client in their order, and how they
-- end. The values that it reads are arguments of the scripts; where a polling loop is given too few
-- of them, it is still waiting. Also rowhammer_tester/scripts/utils.py: execute_payload, whose times
-- are left out.
pub mod Refresh
pub mod Emits
pub mod Disabled
pub mod Keeps
use rowhammer_tester.Prelude.{
  ℕ, zero, suc, ◌+◌, Bool, true, false, not, ◌&&◌, List, [], ◌∷◌, ◌++◌, map, bit_and, ltb, ◌==◌,
  if◌then◌else◌, Error, assertion_error, Result, raised, ok,
}
use rowhammer_tester.Memory.{Write, memwrite}
use rowhammer_tester.HwTest.{BusWrite}

pub data Register : Type 0 where
  rowhammer_enabled rowhammer_address1 rowhammer_address2 refresh payload_executor_start
        dfi_switch_refresh_update reader_skip_fifo reader_mem_mask reader_modulo reader_data_div
        reader_count reader_start :
      Register

pub data Event : Type 0 where
  write_register : Register → ℕ → Event
  write_memory : Write → Event
  -- A read of `rowhammer_count`, which clears it.
  count_read : Event
  -- A write of `hw_memset`, `hw_memtest` or `setup_inverters`.
  bist_write : BusWrite → Event

pub data Ending {ℓ} (A : Type ℓ) : Type ℓ where
  failed : Error → Ending A
  waiting : Ending A
  returned : A → Ending A

pub record Action {ℓ} (A : Type ℓ) : Type ℓ where
  pub events : List Event
  pub ending : Ending A

abbrev pub after {ℓ κ} :
    {A : Type ℓ} {B : Type κ} → List Event → Ending A → (A → Action B) → Action B
after done (failed error) next = record { events = done; ending = failed error }
after done waiting next = record { events = done; ending = waiting }
after done (returned a) next = record { events = done ++ (next a).events; ending = (next a).ending }

infixl 5 ◌>>=◌ ◌>>◌
unfoldable pub ◌>>=◌ {ℓ κ} : {A : Type ℓ} {B : Type κ} → Action A → (A → Action B) → Action B
m >>= next = after m.events m.ending next

abbrev pub ◌>>◌ {ℓ} : {B : Type ℓ} → Action (Unit {0}) → Action B → Action B
m >> next = m >>= λ _. next

abbrev pub pure {ℓ} : {A : Type ℓ} → A → Action A
pure a = record { events = []; ending = returned a }

abbrev pub throw {ℓ} : {A : Type ℓ} → Error → Action A
throw error = record { events = []; ending = failed error }

abbrev pub wait_on {ℓ} : {A : Type ℓ} → Action A
wait_on = record { events = []; ending = waiting }

abbrev pub emit : List Event → Action (Unit {0})
emit events = record { events = events; ending = returned tt }

abbrev pub write : Register → ℕ → Action (Unit {0})
write register value = emit (write_register register value ∷ [])

abbrev pub lift {ℓ} : {A : Type ℓ} → Result A → Action A
lift (raised error) = throw error
lift (ok a) = pure a

abbrev pub require : Bool → Action (Unit {0})
require test = if test then pure tt else throw assertion_error

abbrev pub write_words : List Write → Action (Unit {0})
write_words writes = emit (map write_memory writes)

-- What one round of the loop of `execute_payload` reads: the status, and both readings of
-- `check_refresh_at`, which are made only where the code makes them.
pub record Round : Type 0 where
  pub status : ℕ
  pub at : ℕ
  pub now : ℕ
  pub at_again : ℕ

-- What `execute_payload` reads.
pub record Polled : Type 0 where
  pub refresh_enabled : Bool
  pub first_status : ℕ
  pub rounds : List Round

abbrev pub ready : ℕ → Bool
ready status = not (bit_and status 1 == 0)

-- `check_refresh_at`: the write on the way; its result is `transition_seen`.
abbrev pub check_refresh_at : ℕ → Action (Unit {0})
check_refresh_at at = if at == 0 then pure tt else write dfi_switch_refresh_update 1

abbrev pub transition_seen : (at now : ℕ) → Bool
transition_seen at now = not (at == 0) && ltb at now

-- `while not ready()`
unfoldable pub until_ready : Bool → Bool → List Round → Action (Unit {0})
until_ready refresh_enabled transitioned [] = wait_on
until_ready refresh_enabled transitioned (r ∷ rounds) =
    let seen = transition_seen r.at r.now in
    let later =
      until_ready refresh_enabled (if refresh_enabled then seen else transitioned) rounds in
    let checked =
      check_refresh_at r.at
      >> (if not transitioned && seen then check_refresh_at r.at_again else pure tt) in
    if ready r.status then pure tt else (if refresh_enabled then checked else pure tt) >> later

unfoldable pub execute_payload : (base burst : ℕ) → List ℕ → Polled → Action (Unit {0})
unfolding until_ready memwrite
execute_payload base burst payload polled = do
  write_words (memwrite base burst payload)
  require (ready polled.first_status)
  write payload_executor_start 1
  until_ready polled.refresh_enabled false polled.rounds
