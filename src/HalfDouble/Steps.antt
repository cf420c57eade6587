-- ===== src/HalfDouble/Steps.antt =====
-- Each step of the state machine keeps the invariant and makes progress.
use native.Mathlib.Nat.{mul-le-mul_right}
use rowhammer_tester.Prelude.{
  ℕ, ◌+◌, ◌-◌, ◌*◌, ◌/◌, ◌≤◌, ◌<◌, ◌≡◌, refl, ap, ◌∙◌, Bool, true, false, not, ltb, leb, arith, ok,
  Bool-cases, inl, inr, ◌||◌, ltb→lt,
}
use rowhammer_tester.Playbook.{floor_div}
use rowhammer_tester.HalfDouble.{
  Params, Machine, AnalysisState, at_distance_one, at_distance_two, at_hammer_tolerance,
  at_max_dilution, update_param, next_row, noflip_distance_one, noflip_distance_two,
  find_hammer_tolerance, find_max_dilution, advance,
}
use rowhammer_tester.HalfDouble.Invariant.{
  IsUsable, IsConsistent, StateHolds, limit, above, Progress, same_row, later_row, Steps,
}
use rowhammer_tester.HalfDouble.Dilution.{
  fresh_row, diluted, floor_div_lem, fewer_times, next_row_lem, dilute_lem, fresh_row-IsConsistent,
  diluted-IsConsistent,
}

module _ (p : Params) (m : Machine) (u : IsUsable p) (c : IsConsistent p m) where
  gives_up :
      (n : Machine)
      → n.iteration ≡ m.iteration
      → n.generator ≡ m.generator
      → Steps p m (next_row p n)
  gives_up n same g = record {
    after = fresh_row p n;
    returned = next_row_lem p n u;
    kept =
        fresh_row-IsConsistent p n u (ap (λ t. t.max_attack_row_idx) g ∙ c.bounds)
          (ap (λ t. t.double_sided) g ∙ c.sides);
    progress = later_row (omega arith);
  }

  grows_by : (d : ℕ) → 0 < d → d < d * p.dilution_multiplier
  grows_by d pos = let g = u.grows in grind arith

  limit-lt-above : limit p < above p
  limit-lt-above =
      let g = u.grows in let s = u.some_rows in omega (arith, grows_by (limit p) (omega arith))

  module _ (flipped : Bool) where
    distance_one-Steps :
        m.state ≡ at_distance_one
        → StateHolds p m at_distance_one
        → Steps p m (noflip_distance_one p flipped m)
    unfolding noflip_distance_one update_param
    distance_one-Steps e (two, total, small) = elim (Bool-cases flipped) [
      | inr held ↦ rw held (record {
        after = record m {
          state = at_distance_two;
          generator = record m.generator { distance_one = false; distance_two = true };
        };
        returned = refl;
        kept = record {
          divided = c.divided;
          told = c.told;
          some_dilution = c.some_dilution;
          reads_bounded = c.reads_bounded;
          bounds = c.bounds;
          sides = c.sides;
          state_holds = (refl, refl, total, small);
        };
        progress = same_row refl (rw e (omega (arith, limit-lt-above)));
      })
      | inl hit ↦
          let inflated = m.dilution * p.dilution_multiplier in
          let more = grows_by m.dilution c.some_dilution in
          elim (Bool-cases (ltb p.max_dilution inflated)) [
            | inl beyond ↦ rw (hit, beyond) (gives_up (record m { dilution = inflated }) refl refl)
            | inr within ↦
                let fits : inflated ≤ limit p = ground arith in
                rw (hit, within)
                  (record {
                    after = diluted inflated m.state m;
                    returned = dilute_lem p inflated m.state m (omega arith);
                    kept =
                        diluted-IsConsistent p inflated m.state m (omega arith) c.reads_bounded
                          c.bounds c.sides (rw e (two, total, fits));
                    progress = same_row refl (rw e (omega (arith, limit-lt-above)));
                  })
          ]
    ]

    distance_two-Steps :
        m.state ≡ at_distance_two
        → StateHolds p m at_distance_two
        → Steps p m (noflip_distance_two p flipped m)
    unfolding noflip_distance_two update_param
    distance_two-Steps e (one, two, total, small) = elim (Bool-cases flipped) [
      | inl hit ↦ rw hit (gives_up m refl refl)
      | inr held ↦ rw held (record {
        after = record m {
          state = at_hammer_tolerance;
          generator = record m.generator { distance_one = true };
        };
        returned = refl;
        kept = record {
          divided = c.divided;
          told = c.told;
          some_dilution = c.some_dilution;
          reads_bounded = c.reads_bounded;
          bounds = c.bounds;
          sides = c.sides;
          state_holds = (refl, two, small);
        };
        progress = same_row refl (rw (e, total) (omega arith));
      })
    ]

    step_lem :
        floor_div p.max_total_read_count p.read_count_steps
        ≡ ok (p.max_total_read_count / p.read_count_steps)
    step_lem = floor_div_lem p.max_total_read_count p.read_count_steps u.has_steps

    hammer_tolerance-Steps :
        m.state ≡ at_hammer_tolerance
        → StateHolds p m at_hammer_tolerance
        → Steps p m (find_hammer_tolerance p flipped m)
    unfolding find_hammer_tolerance
    hammer_tolerance-Steps e (one, two, small) = elim (Bool-cases flipped) [
      | inr held ↦ rw held (gives_up m refl refl)
      | inl hit ↦
          let step = p.max_total_read_count / p.read_count_steps in
          let inflated = m.dilution * p.dilution_multiplier in
          let more = grows_by m.dilution c.some_dilution in
          elim (Bool-cases (leb m.total_read_count step)) [
            | inl last ↦ rw (hit, step_lem, last) (gives_up m refl refl)
            | inr left ↦
                rw (hit, step_lem, left)
                  (record {
                    after = diluted inflated at_max_dilution m;
                    returned = dilute_lem p inflated at_max_dilution m (omega arith);
                    kept =
                        diluted-IsConsistent p inflated at_max_dilution m (omega arith)
                          c.reads_bounded c.bounds c.sides
                          (one, two, mul-le-mul_right p.dilution_multiplier small);
                    progress = same_row refl (rw e (omega arith));
                  })
          ]
    ]

    max_dilution-Steps :
        m.state ≡ at_max_dilution
        → StateHolds p m at_max_dilution
        → Steps p m (find_max_dilution p flipped m)
    unfolding find_max_dilution
    max_dilution-Steps e (one, two, small) =
        let step = p.max_total_read_count / p.read_count_steps in
        let inflated = m.dilution * p.dilution_multiplier in
        let more = grows_by m.dilution c.some_dilution in
        let pos : 0 < step = u.steps_count in
        let total = m.total_read_count - step in
        let fewer : Machine = record m {
          total_read_count = total;
          dilution = p.initial_dilution;
        } in
        elim (Bool-cases (not flipped || ltb p.max_dilution inflated)) [
          | inl ends ↦ elim (Bool-cases (ltb 0 total)) [
            | inl some_left ↦
                let lt : 0 < total = ltb→lt 0 total some_left in
                rw (ends, step_lem, some_left)
                  (record {
                    after = diluted p.initial_dilution at_hammer_tolerance fewer;
                    returned =
                        dilute_lem p p.initial_dilution at_hammer_tolerance fewer u.some_rows;
                    kept =
                        diluted-IsConsistent p p.initial_dilution at_hammer_tolerance fewer
                          u.some_rows (let r = c.reads_bounded in omega arith) c.bounds c.sides
                          (one, two, omega arith);
                    progress = same_row refl (
                        rw e (
                          omega (
                            arith,
                            fewer_times m.total_read_count step (above p + 2) pos lt,
                            limit-lt-above,
                          )));
                  })
            | inr none_left ↦ rw (ends, step_lem, none_left) (gives_up fewer refl refl)
          ]
          | inr goes_on ↦
              let fits : inflated ≤ limit p = ground arith in
              rw goes_on (record {
                after = diluted inflated m.state m;
                returned = dilute_lem p inflated m.state m (omega arith);
                kept =
                    diluted-IsConsistent p inflated m.state m (omega arith) c.reads_bounded c.bounds
                      c.sides
                      (rw e (one, two, let g = grows_by (limit p) (omega arith) in omega arith));
                progress = same_row refl (rw e (omega (arith, limit-lt-above)));
              })
        ]

    pub advance-Steps : Steps p m (advance p flipped m)
    unfolding advance
    advance-Steps = by_state m.state refl c.state_holds
      where
        by_state :
            (s : AnalysisState)
            → m.state ≡ s
            → StateHolds p m s
            → Steps p m (elim s [
              | at_distance_one ↦ noflip_distance_one p flipped m
              | at_distance_two ↦ noflip_distance_two p flipped m
              | at_hammer_tolerance ↦ find_hammer_tolerance p flipped m
              | at_max_dilution ↦ find_max_dilution p flipped m
            ])
        by_state at_distance_one e h = distance_one-Steps e h
        by_state at_distance_two e h = distance_two-Steps e h
        by_state at_hammer_tolerance e h = hammer_tolerance-Steps e h
        by_state at_max_dilution e h = max_dilution-Steps e h

-- With parameters whose divisions are defined, a multiplier above 1 and steps of at least one read,
-- a machine that satisfies the invariant steps, whether the victim flipped or not, to one that does:
-- the read count is the total divided by the dilution, which is positive and is the generator's number
-- of rows; the total is at most its maximum, and is the maximum in the first two states; the generator
-- hammers double sided, in the second state at distance two without one, in the last two at both, and
-- in the first not at distance two; and the dilution is at most the larger of its initial and its
-- maximum value, in the last state times the multiplier. The step counts down what the row can still
-- take, or goes on to the next row.
pub advance-IsConsistent :
    (p : Params) (m : Machine) (flipped : Bool)
    → IsUsable p
    → IsConsistent p m
    → (m' : Machine) × (advance p flipped m ≡ ok m') × IsConsistent p m' × Progress p m m'
advance-IsConsistent p m flipped u c =
    let s = advance-Steps p m u c flipped in (s.after, s.returned, s.kept, s.progress)
