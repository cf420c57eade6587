-- ===== src/RowHammer/Refreshes.antt =====
-- When the refresh is off in a run, and when it is on again.
use mathlib.Core.Path.{subst}
use rowhammer_tester.Prelude.{
  not_implemented_error, ℕ, ◌+◌, Bool, true, false, not, ◌&&◌, ◌≡◌, refl, sym, List, [], ◌∷◌, leb,
  ◌==◌, if◌then◌else◌,
}
use rowhammer_tester.Memory.{memfill}
use rowhammer_tester.Session.{
  refresh, Event, ◌>>◌, pure, throw, write, Polled, Round, ready, check_refresh_at, transition_seen,
  until_ready, execute_payload,
}
use rowhammer_tester.Session.Refresh.{IsQuiet, IsMemory, StartsWith, refresh_after, has_returned}
use rowhammer_tester.Session.Emits.{
  write_words-IsMemory, emits, Emits, Emits-bind, Emits-lift, Emits-nothing, Emits-wait, Emits-one,
  Emits-if,
}
use rowhammer_tester.Session.Disabled.{disabled, disabled_lem}
use rowhammer_tester.RowHammer.{Attacker, Patterns, rows}
use rowhammer_tester.RowHammer.Run.{
  Board, Answers, await_count, dma_addresses, attack, payload_executor_attack, attack_all,
  fill_rows, prepare_memory, report, run, write_addresses,
}

await_count-IsQuiet : (n : ℕ) (counts : List ℕ) → Emits IsQuiet (await_count n counts)
unfolding await_count
await_count-IsQuiet n [] = Emits-wait
await_count-IsQuiet n (count ∷ counts) =
    let rest = await_count-IsQuiet n counts in
    Emits-bind (Emits-one refl) (λ _. Emits-if (leb n count) Emits-nothing rest)

check_refresh_at-IsQuiet : (at : ℕ) → Emits IsQuiet (check_refresh_at at)
check_refresh_at-IsQuiet at = Emits-if (at == 0) Emits-nothing (Emits-one refl)

until_ready-IsQuiet :
    (enabled transitioned : Bool) (rounds : List Round)
    → Emits IsQuiet (until_ready enabled transitioned rounds)
unfolding until_ready
until_ready-IsQuiet enabled transitioned [] = Emits-wait
until_ready-IsQuiet enabled transitioned (r ∷ rounds) =
    let seen = transition_seen r.at r.now in
    let rest = until_ready-IsQuiet enabled (if enabled then seen else transitioned) rounds in
    Emits-if (ready r.status) Emits-nothing (
      Emits-bind
        (Emits-if enabled
          (Emits-bind (check_refresh_at-IsQuiet r.at) (λ _.
            Emits-if (not transitioned && seen) (check_refresh_at-IsQuiet r.at_again)
              Emits-nothing))
          Emits-nothing)
        (λ _. rest))

pub execute_payload-IsQuiet :
    (base burst : ℕ) (payload : List ℕ) (polled : Polled)
    → Emits IsQuiet (execute_payload base burst payload polled)
unfolding execute_payload
execute_payload-IsQuiet base burst payload polled = search (emits, until_ready-IsQuiet) depth 20

module _ (board : Board) (a : Attacker) where
  pub Emits-dma_addresses :
      {P : Event → Type 0} (rows : List ℕ) → Emits P (dma_addresses board a rows)
  unfolding dma_addresses
  Emits-dma_addresses [] = Emits-nothing
  Emits-dma_addresses (row ∷ rows) =
      let rest = Emits-dma_addresses rows in
      Emits-bind (Emits-lift _) (λ address. Emits-bind rest (λ _. Emits-nothing))

  write_addresses-IsQuiet : (addresses : List ℕ) → Emits IsQuiet (write_addresses board a addresses)
  write_addresses-IsQuiet [] = Emits-nothing
  write_addresses-IsQuiet (x ∷ []) = Emits-nothing
  write_addresses-IsQuiet (x ∷ y ∷ rest) = Emits-bind (Emits-one refl) (λ _. Emits-one refl)

  attack-IsQuiet :
      (row_tuple : List ℕ) (n : ℕ) (counts : List ℕ)
      → Emits IsQuiet (attack board a row_tuple n counts)
  unfolding attack
  attack-IsQuiet row_tuple n counts =
      search (emits, Emits-dma_addresses, write_addresses-IsQuiet, await_count-IsQuiet) depth 40
        fits 4000

  pub payload_executor_attack-IsQuiet :
      (n : ℕ) (row_tuple : List ℕ) (polled : Polled)
      → Emits IsQuiet (payload_executor_attack board a n row_tuple polled)
  unfolding payload_executor_attack
  payload_executor_attack-IsQuiet n row_tuple polled =
      search (emits, execute_payload-IsQuiet) depth 20

  pub attack_all-IsQuiet :
      (n : ℕ) (answers : ℕ → Answers) (i : ℕ) (pairs : List (List ℕ))
      → Emits IsQuiet (attack_all board a n answers i pairs)
  unfolding attack_all
  attack_all-IsQuiet n answers i [] = Emits-nothing
  attack_all-IsQuiet n answers i (row_tuple ∷ pairs) =
      let rest = attack_all-IsQuiet n answers (i + 1) pairs in
      Emits-bind
        (Emits-if a.payload_executor
          (payload_executor_attack-IsQuiet n row_tuple (answers i).polled)
          (attack-IsQuiet row_tuple n (answers i).counts))
        (λ _. rest)

  fill_rows-IsMemory :
      (patterns : Patterns) (rows : List ℕ) → Emits IsMemory (fill_rows board a patterns rows)
  unfolding fill_rows
  fill_rows-IsMemory patterns [] = Emits-nothing
  fill_rows-IsMemory patterns (row ∷ rows) =
      let rest = fill_rows-IsMemory patterns rows in
      Emits-bind (Emits-lift _) (λ access. Emits-bind (Emits-lift _) (λ word.
        Emits-bind (write_words-IsMemory (memfill access.base_addr 255 access.words word))
          (λ _. rest)))

  pub prepare_memory-IsMemory :
      (read : ℕ → ℕ → List ℕ) (patterns : Patterns) (n : ℕ) (verify : Bool)
      → Emits IsMemory (prepare_memory board a read patterns n verify)
  unfolding prepare_memory
  prepare_memory-IsMemory read patterns n verify = search (emits, fill_rows-IsMemory) depth 20

  pub report-IsMemory :
      (read_after : ℕ → ℕ → List ℕ) (patterns : Patterns) (n : ℕ)
      → Emits IsMemory (report board a read_after patterns n)
  unfolding report
  report-IsMemory read_after patterns n = search emits depth 20

-- A run that attacks with refreshes disabled, whose preparation returns: every call that starts an
-- attack finds the refresh off; and behind the run the refresh is on if the attacks all returned, and
-- still off if one of them failed or never ended.
pub run-refresh :
    (board : Board) (a : Attacker) (row_pairs : List (List ℕ)) (generator : List ℕ → Patterns)
    (read_count : ℕ) (verify_initial : Bool) (read read_after : ℕ → ℕ → List ℕ)
    (answers : ℕ → Answers) (on : Bool)
    → a.no_refresh ≡ true
    → a.data_inversion ≡ false
    → a.sleeps ≡ false
    → has_returned
        (prepare_memory board a read (generator (rows a)) read_count verify_initial).ending
      ≡ true
    → let r = run board a row_pairs generator read_count verify_initial read read_after answers in
      (refresh_after r.events on
        ≡ has_returned (attack_all board a read_count answers 0 row_pairs).ending)
      × StartsWith false on r.events
unfolding run
run-refresh board a row_pairs generator read_count verify_initial read read_after answers on off
      plain awake prepared =
    let patterns = generator (rows a) in
    let before = prepare_memory board a read patterns read_count verify_initial in
    let attacks = attack_all board a read_count answers 0 row_pairs in
    let last = report board a read_after patterns read_count in
    let shape : run board a row_pairs generator read_count verify_initial read read_after answers
        ≡ disabled attacks last before on =
      λ i. if plain i then throw not_implemented_error else (do
        before
        (if off i then write refresh 0 else pure tt)
        (if awake i then pure tt else attacks)
        (if off i then write refresh 1 else pure tt)
        last) in
    subst
      (λ r.
        (refresh_after r.events on ≡ has_returned attacks.ending) × StartsWith false on r.events)
      (sym shape)
      (disabled_lem attacks last before on
        (prepare_memory-IsMemory board a read patterns read_count verify_initial) prepared
        (attack_all-IsQuiet board a read_count answers 0 row_pairs)
        (report-IsMemory board a read_after patterns read_count))
