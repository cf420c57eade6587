-- ===== src/I2c/ReadLoop.antt =====
-- rowhammer_tester/scripts/utils.py: the rounds of `i2c_read` and what is behind them.
use mathlib.Core.List.{append-nil}
use mathlib.Core.Path.{subst}
use rowhammer_tester.Prelude.{
  ℕ, ◌+◌, ◌-◌, ◌≤◌, ◌≡◌, ◌⊎◌, inl, inr, refl, sym, ap, ◌∙◌, Bool, true, false, Option, none, some,
  List, [], ◌++◌, ◌==◌, length, arith, Bool-cases,
}
use rowhammer_tester.I2c.{
  Reg, i2c_worker, i2c_start, Entry, World, write, passed, push_data, Outcome, value_error,
  returned, waiting, Loop, left, looping, and_then, Progress, dummy, read_result, wait_idle, room,
  read_sent, read_round, finish, transfer,
}
use rowhammer_tester.I2c.Entries.{entries, data_entries, entries-write}
use rowhammer_tester.I2c.Loops.{
  After, Left, Some, Fed, Fed-more, wait_idle-entries, transfer_loop-Left,
}

-- What `i2c_read` has pushed with a result, behind `base`: all of the data where it returns bytes,
-- which are as many at least; a part where it is aborted.
abbrev pub ReadPushed : List Entry → ℕ → Option (List ℕ) → List Entry → Type 0
ReadPushed base len (some ret) l = Fed base len dummy len l × (len ≤ length ret)
ReadPushed base len none l = (n : ℕ) × Fed base len dummy n l

-- The same of any outcome: nothing at the error, a part where it waits.
abbrev pub ReadSends : List Entry → List Entry → ℕ → Outcome (Option (List ℕ)) → Type 0
ReadSends before base len (value_error w) = entries w.ops ≡ before
ReadSends before base len (returned r w) = ReadPushed base len r (entries w.ops)
ReadSends before base len (waiting w) = (n : ℕ) × Fed base len dummy n (entries w.ops)

module _ (answer : Reg → ℕ → ℕ) (data_of : ℕ → ℕ) (abort : ℕ) (base : List Entry) (len : ℕ) where
  abbrev FedRead : Progress → List Entry → Type 0
  FedRead s l = Fed base len dummy s.sent l × ((s.ret ≡ []) ⊎ (s.sent ≡ len))

  read_sent-FedRead :
      (n : ℕ) (s : Progress) (w : World)
      → n ≤ len - s.sent
      → FedRead s (entries w.ops)
      → FedRead
          (read_sent answer data_of abort len n s w).0
          (entries (read_sent answer data_of abort len n s w).1.ops)
  read_sent-FedRead n s w le (fed, early) = elim (Bool-cases (s.sent + n == len)) [
    | inl q ↦ rw q (Fed-more base len dummy n s.sent (passed 1 w) le fed, inr (ground (arith, q)))
    | inr q ↦ rw q (
      Fed-more base len dummy n s.sent (passed 1 w) le fed,
      inl (elim early [ inl none_yet ↦ none_yet | inr all ↦ absurd (ground (arith, q, le)) ]),
    )
  ]

  read_round-FedRead :
      (s : Progress) (w : World)
      → FedRead s (entries w.ops)
      → FedRead
          (read_round answer data_of abort len s w).0
          (entries (read_round answer data_of abort len s w).1.ops)
  read_round-FedRead s w h =
      read_sent-FedRead (room answer data_of abort (len - s.sent) w) s w (omega arith) h

  pushed_part :
      (r : Option (List ℕ)) (l : List Entry)
      → ReadPushed base len r l
      → (n : ℕ) × Fed base len dummy n l
  pushed_part (some ret) l (fed, enough) = (len, fed)
  pushed_part none l part = part

  idle_end :
      (before : List Entry) (r : Option (List ℕ)) (l0 : List Entry) (o : Loop (Unit {0}))
      → ReadPushed base len r l0
      → After (λ _ l. l ≡ l0) (λ l. l ≡ l0) o
      → ReadSends before base len (and_then o (λ _ w. returned r (write i2c_worker 0 w)))
  idle_end before r l0 (left _ w) h e =
      subst (ReadPushed base len r) (sym (entries-write i2c_worker 0 w ∙ e)) h
  idle_end before r l0 (looping w) h e =
      subst (λ l. (n : ℕ) × Fed base len dummy n l) (sym e) (pushed_part r l0 h)

  finish-ReadSends :
      (before : List Entry) (fuel : ℕ) (r : Option (List ℕ)) (w : World)
      → ReadPushed base len r (entries w.ops)
      → ReadSends before base len (finish answer data_of abort fuel r w)
  finish-ReadSends before fuel r w h =
      idle_end before r (entries w.ops) (wait_idle answer data_of abort fuel w) h
        (wait_idle-entries answer data_of abort fuel w)

  Left-ReadPushed :
      (fits : Bool × Progress) (l : List Entry)
      → Left answer data_of abort len
          (read_round answer data_of abort len)
          FedRead
          read_round-FedRead
          fits
          l
      → ReadPushed base len (read_result fits) l
  Left-ReadPushed (true, s) l ((fed, early), enough) =
      let all : s.sent ≡ len = elim early [
        | inl none_yet ↦ omega (arith, ap length none_yet, enough, fed)
        | inr sent ↦ sent
      ] in
      (subst (λ n. Fed base len dummy n l) all fed, enough)
  Left-ReadPushed (false, s) l (fed, early) = (s.sent, fed)

  loop_end :
      (before : List Entry) (fuel : ℕ) (o : Loop (Bool × Progress))
      → After
          (Left answer data_of abort len
            (read_round answer data_of abort len)
            FedRead
            read_round-FedRead)
          (Some answer data_of abort len
            (read_round answer data_of abort len)
            FedRead
            read_round-FedRead)
          o
      → ReadSends before base len
          (and_then o (λ r w. finish answer data_of abort fuel (read_result r) w))
  loop_end before fuel (left r w) h =
      finish-ReadSends before fuel (read_result r) w (Left-ReadPushed r (entries w.ops) h)
  loop_end before fuel (looping w) (s, (fed, early)) = (s.sent, fed)

  pub transfer-ReadSends :
      (before : List Entry) (fuel discard : ℕ) (w : World)
      → entries w.ops ≡ base
      → ReadSends before base len (
          transfer answer data_of abort fuel len dummy discard
            (read_round answer data_of abort len)
            read_result
            w)
  transfer-ReadSends before fuel discard w e =
      let n : ℕ = room answer data_of abort len w in
      let filled : World = push_data len dummy n 0 (passed 1 w) in
      let first : Progress = record { sent = n; discard = discard; ret = [] } in
      let fed : Fed base len dummy (0 + n) (entries filled.ops) =
        Fed-more base len dummy n 0 (passed 1 w) (omega arith)
          (e ∙ sym (append-nil base), omega arith) in
      let start : FedRead first (entries (write i2c_start 1 filled).ops) = (
        (
          entries-write i2c_start 1 filled
              ∙ fed.0
              ∙ ap (λ (k : ℕ). base ++ data_entries len dummy k 0) (omega arith),
          omega (arith, fed.1),
        ),
        inl refl,
      ) in
      loop_end before fuel _ (
        transfer_loop-Left answer data_of abort len (read_round answer data_of abort len) FedRead
          read_round-FedRead fuel first (write i2c_start 1 filled) start)
