-- ===== src/HwRowHammer/Refreshes.antt =====
-- When the refresh is off behind the preparation of a run of HwRowHammer, and when it is on again.
use mathlib.Core.Path.{subst}
use rowhammer_tester.Prelude.{
  ℕ, ◌+◌, Bool, true, false, not, ◌≡◌, refl, ap, ◌∙◌, sym, Option, some, none, List, [], ◌∷◌, ◌++◌,
  map, All, ◌==◌, if◌then◌else◌,
}
use rowhammer_tester.HwTest.{BusWrite, BistError}
use rowhammer_tester.Session.{
  refresh, bist_write, Action, Ending, failed, waiting, returned, after, ◌>>=◌, ◌>>◌, pure, wait_on,
  write,
}
use rowhammer_tester.Session.Refresh.{
  IsQuiet, IsMemory, StartsWith, refresh_after, memory-IsQuiet, memory-IsCalm, refresh_after-quiet,
  refresh_after-append, StartsWith-append, StartsWith-calm, StartsWith-quiet,
}
use rowhammer_tester.Session.Emits.{
  emits, Emits, Emits-bind, Emits-lift, Emits-nothing, Emits-wait, Emits-if, Emits-map,
}
use rowhammer_tester.RowHammer.{Attacker, RowErrors, errors_count}
use rowhammer_tester.RowHammer.Run.{Board, Report}
use rowhammer_tester.RowHammer.Refreshes.{Emits-dma_addresses, payload_executor_attack-IsQuiet}
use rowhammer_tester.HwRowHammer.{
  Bist, Answers, Tested, await_ready, bist_writes, bist_refuses, hw_attack, group_errors,
  memory_test, hw_check_errors, hw_attack_all,
}
use rowhammer_tester.HwRowHammer.Run.{RunAnswers, hw_report, hw_go_on}

await_ready-IsQuiet : (values : List ℕ) → Emits IsQuiet (await_ready values)
unfolding await_ready
await_ready-IsQuiet [] = Emits-wait
await_ready-IsQuiet (value ∷ values) =
    Emits-if (value == 0) (await_ready-IsQuiet values) Emits-nothing

bist_writes-IsMemory : (writes : List BusWrite) → Emits IsMemory (bist_writes writes)
bist_writes-IsMemory writes = record { all_events = each writes }
  where
    each : (writes : List BusWrite) → All IsMemory (map bist_write writes)
    each [] = tt
    each (w ∷ ws) = (tt, each ws)

module _ (board : Board) (b : Bist) (a : Attacker) where
  hw_attack-IsQuiet :
      (row_tuple : List ℕ) (n : ℕ) (answers : Answers)
      → Emits IsQuiet (hw_attack board b a row_tuple n answers)
  unfolding hw_attack
  hw_attack-IsQuiet row_tuple n answers =
      search (emits, Emits-dma_addresses board a, await_ready-IsQuiet) depth 40 fits 4000

  hw_attack_all-IsQuiet :
      (n : ℕ) (answers : ℕ → Answers) (i : ℕ) (pairs : List (List ℕ))
      → Emits IsQuiet (hw_attack_all board b a n answers i pairs)
  unfolding hw_attack_all
  hw_attack_all-IsQuiet n answers i [] = Emits-nothing
  hw_attack_all-IsQuiet n answers i (row_tuple ∷ pairs) =
      let rest = hw_attack_all-IsQuiet n answers (i + 1) pairs in
      Emits-if a.payload_executor
        (Emits-bind (Emits-lift _) (λ count.
          Emits-bind (payload_executor_attack-IsQuiet board a count row_tuple (answers i).polled)
            (λ _. rest)))
        (Emits-if (bist_refuses row_tuple) Emits-nothing
          (Emits-bind (hw_attack-IsQuiet row_tuple n (answers i)) (λ _. rest)))

  memory_test-IsMemory :
      (pattern : ℕ) (tested : Tested) → Emits IsMemory (memory_test board b a pattern tested)
  unfolding memory_test
  memory_test-IsMemory pattern tested =
      Emits-bind (Emits-lift _)
        (λ sent. Emits-bind (bist_writes-IsMemory sent.0) (λ _. by_result sent.1))
    where
      by_result :
          (found : Option (List BistError × List BusWrite))
          → Emits IsMemory (elim found as (λ _. Action (List BistError)) [
            | none ↦ wait_on
            | some r ↦ bist_writes r.1 >> pure r.0
          ])
      by_result none = Emits-wait
      by_result (some (errors, continues)) =
          Emits-bind (bist_writes-IsMemory continues) (λ _. Emits-nothing)

  group_errors-IsMemory :
      (errors : List BistError) (found : List RowErrors)
      → Emits IsMemory (group_errors board b a errors found)
  unfolding group_errors
  group_errors-IsMemory [] found = Emits-nothing
  group_errors-IsMemory (e ∷ errors) found =
      Emits-bind (Emits-lift _) (λ base_addr. group_errors-IsMemory errors _)

  hw_report-IsMemory :
      (pattern n : ℕ) (tested : Tested) → Emits IsMemory (hw_report board b a pattern n tested)
  unfolding hw_report hw_check_errors
  hw_report-IsMemory pattern n tested =
      Emits-bind
        (Emits-bind (memory_test-IsMemory pattern tested)
          (λ errors. group_errors-IsMemory errors []))
        (λ errors.
          Emits-if (errors_count errors == 0) Emits-nothing
            (Emits-bind (Emits-lift _) (λ shown. Emits-nothing)))

-- Whether all pairs were attacked.
abbrev pub all_attacked : Ending Bool → Bool
all_attacked (failed error) = false
all_attacked waiting = false
all_attacked (returned attacked) = attacked

-- What follows a quiet action that gives a Boolean, with the refresh off.
module _ {B : Type 0} (m : Action Bool) (next : Bool → Action B) where
  refresh_after-bind :
      Emits IsQuiet m
      → refresh_after (next false).events false ≡ false
      → refresh_after (next true).events false ≡ true
      → refresh_after (m >>= next).events false ≡ all_attacked m.ending
  unfolding ◌>>=◌
  refresh_after-bind q left back = by_ending m.ending
    where
      off : refresh_after m.events false ≡ false
      off = refresh_after-quiet m.events false q.all_events

      then_next :
          (b : Bool)
          → refresh_after (m.events ++ (next b).events) false ≡ refresh_after (next b).events false
      then_next b =
          refresh_after-append m.events (next b).events false
          ∙ ap (refresh_after (next b).events) off

      by_ending :
          (e : Ending Bool) → refresh_after (after m.events e next).events false ≡ all_attacked e
      by_ending (failed error) = off
      by_ending waiting = off
      by_ending (returned true) = then_next true ∙ back
      by_ending (returned false) = then_next false ∙ left

  StartsWith-bind :
      Emits IsQuiet m
      → ((b : Bool) → StartsWith false false (next b).events)
      → StartsWith false false (m >>= next).events
  unfolding ◌>>=◌
  StartsWith-bind q k = by_ending m.ending
    where
      here : StartsWith false false m.events
      here = StartsWith-quiet false m.events q.all_events

      off : false ≡ refresh_after m.events false
      off = sym (refresh_after-quiet m.events false q.all_events)

      by_ending : (e : Ending Bool) → StartsWith false false (after m.events e next).events
      by_ending (failed error) = here
      by_ending waiting = here
      by_ending (returned b) =
          StartsWith-append false false m.events (next b).events here
            (subst (λ on. StartsWith false on (next b).events) off (k b))

-- What `hw_go_on` does behind the attacks, with refreshes disabled.
abbrev finish_run : Action Report → Bool → Action (Option Report)
finish_run last attacked =
    if not attacked then pure none else write refresh 1 >> (last >>= λ found. pure (some found))

finish_run_lem :
    (last : Action Report)
    → Emits IsMemory last
    → (refresh_after (finish_run last true).events false ≡ true)
      × ((b : Bool) → StartsWith false false (finish_run last b).events)
unfolding ◌>>=◌
finish_run_lem last h =
    let found : Emits IsMemory (last >>= λ found. pure (some found)) =
      Emits-bind h (λ found. Emits-nothing) in
    (
      refresh_after-quiet _ true ((Emits-map memory-IsQuiet found).all_events),
      λ b. by_result b found,
    )
  where
    by_result :
        (b : Bool)
        → Emits IsMemory (last >>= λ found. pure (some found))
        → StartsWith false false (finish_run last b).events
    by_result false found = tt
    by_result true found =
        ((λ s. cc), StartsWith-calm false true _ ((Emits-map memory-IsCalm found).all_events))

-- Behind the preparation of a run that attacks with refreshes disabled: every call that starts an
-- attack finds the refresh off; and in the end the refresh is on if all pairs were attacked, and still
-- off if the loop returned at a row tuple that BIST cannot attack, an attack failed, or one never
-- ended.
pub hw_go_on-refresh :
    (board : Board) (b : Bist) (a : Attacker) (pattern read_count : ℕ) (row_pairs : List (List ℕ))
    (answers : RunAnswers) (on : Bool)
    → a.no_refresh ≡ true
    → a.sleeps ≡ false
    → let r = hw_go_on board b a pattern row_pairs read_count answers true in
      (refresh_after r.events on
        ≡ all_attacked (hw_attack_all board b a read_count answers.attacks 0 row_pairs).ending)
      × StartsWith false on r.events
unfolding hw_go_on ◌>>=◌
hw_go_on-refresh board b a pattern read_count row_pairs answers on off awake =
    let attacks = hw_attack_all board b a read_count answers.attacks 0 row_pairs in
    let last = hw_report board b a pattern read_count answers.last_test in
    let shape : hw_go_on board b a pattern row_pairs read_count answers true
        ≡ (write refresh 0 >> (attacks >>= finish_run last)) =
      λ i.
        (if off i then write refresh 0 else pure tt)
        >> ((if awake i then pure true else attacks) >>= λ attacked.
            if not attacked
            then pure none
            else (if off i then write refresh 1 else pure tt)
              >> (last >>= λ found. pure (some found))) in
    let (back, starts) =
      finish_run_lem last (hw_report-IsMemory board b a pattern read_count answers.last_test) in
    let quiet = hw_attack_all-IsQuiet board b a read_count answers.attacks 0 row_pairs in
    subst
      (λ r.
        (refresh_after r.events on ≡ all_attacked attacks.ending) × StartsWith false on r.events)
      (sym shape)
      (
        refresh_after-bind attacks (finish_run last) quiet refl back,
        ((λ s. cc), StartsWith-bind attacks (finish_run last) quiet starts),
      )
