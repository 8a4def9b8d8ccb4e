-- ===== src/Recurrence/NextRun.antt =====
-- The next run that `calculateNextRun` of listener/src/services/recurrence.ts answers.
use notify_chain.Prelude.{
  ℕ, ◌+◌, ◌≤◌, ◌<◌, ◌≡◌, refl, sym, ap, subst, ◌∙◌, ◌⊎◌, inl, inr, true, false, Option, none, some,
  arith, if◌then◌else◌, Bool-cases,
}
use notify_chain.Recurrence.{
  RecurrenceRule, Calendar, NextRunCalculation, number_or, is_passed, is_above, add_periods,
  periods_to_move_past, periods_to_skip, answer_for, calculate_next_run,
}
use notify_chain.Recurrence.Periods.{MonthsGrow, IsFirstPast, periods_to_move_past-IsFirstPast}

is_passed-past : (date : ℕ) (now : Option ℕ) → number_or now 0 < date → is_passed date now ≡ false
is_passed-past date none past = refl
is_passed-past date (some n) past = ground arith

is_passed-le : (date : ℕ) (now : Option ℕ) → is_passed date now ≡ true → date ≤ number_or now 0
is_passed-le date none passed = absurd (ground arith)
is_passed-le date (some n) passed = ground arith

module _ (cal : Calendar) (rule : RecurrenceRule) (last_run : ℕ) (now : Option ℕ) where
  abbrev pub interval_of : ℕ
  interval_of = number_or rule.interval 1

  abbrev pub first_date : ℕ
  first_date = add_periods cal last_run rule.frequency interval_of 1

  -- The date is the first one itself, which has not passed, or follows it by the fewest periods that
  -- lead past `now`.
  abbrev pub IsReached : ℕ → ℕ → Type 0
  IsReached skip date =
      ((skip ≡ 0) × (date ≡ first_date) × (is_passed first_date now ≡ false))
      ⊎ ((date ≡ add_periods cal first_date rule.frequency interval_of skip)
          × IsFirstPast cal first_date rule.frequency interval_of (number_or now 0) skip)

  -- What a next run satisfies: it is reached from the first date after the last run, has not passed,
  -- lies not after the end of the rule, and its number is within the count of the rule.
  pub record IsNextRun (occurrences_so_far : ℕ) (r : NextRunCalculation) (date : ℕ) : Type 0 where
    pub skip : ℕ
    pub counted : r.occurrence_count ≡ occurrences_so_far + skip
    pub reached : IsReached skip date
    pub ahead : is_passed date now ≡ false
    pub in_time : is_above date rule.until ≡ false
    pub in_count : is_above (r.occurrence_count + 1) rule.count ≡ false

  abbrev pub skip_of : ℕ
  skip_of = periods_to_skip cal first_date now rule.frequency interval_of

  abbrev pub candidate_of : ℕ
  candidate_of =
      if is_passed first_date now
      then add_periods cal first_date rule.frequency interval_of skip_of
      else first_date

  module _ (grows : MonthsGrow cal) (some_interval : 1 ≤ interval_of) where
    candidate-IsReached : IsReached skip_of candidate_of × (is_passed candidate_of now ≡ false)
    unfolding periods_to_skip
    candidate-IsReached = elim (Bool-cases (is_passed first_date now)) [
      | inl passed ↦
          let n = number_or now 0 in
          let skip = periods_to_move_past cal first_date n rule.frequency interval_of in
          let moved =
            periods_to_move_past-IsFirstPast cal first_date n rule.frequency interval_of grows
              some_interval (is_passed-le first_date now passed) in
          let same_skip : skip_of ≡ skip = rw passed refl in
          let same : candidate_of ≡ add_periods cal first_date rule.frequency interval_of skip_of =
            rw passed refl in
          let same_at : add_periods cal first_date rule.frequency interval_of skip_of
              ≡ add_periods cal first_date rule.frequency interval_of skip =
            ap (add_periods cal first_date rule.frequency interval_of) same_skip in
          let first_past : IsFirstPast cal first_date rule.frequency interval_of n skip_of =
            subst (IsFirstPast cal first_date rule.frequency interval_of n) (sym same_skip) moved in
          (
            inr (same, first_past),
            is_passed-past candidate_of now (omega (arith, same, first_past.1)),
          )
      | inr ahead ↦
          let same : candidate_of ≡ first_date = rw ahead refl in
          (inl (rw ahead refl, same, ahead), ap (λ d. is_passed d now) same ∙ ahead)
    ]

    -- In a calendar in which months grow, a next run that is answered is the first date after the last
    -- run, or, if that has passed, follows it by the fewest periods that lead past `now`; and it keeps
    -- to the end and the count of the rule.
    pub calculate_next_run-IsNextRun :
        (occurrences_so_far date : ℕ) (r : NextRunCalculation)
        → calculate_next_run cal rule last_run now occurrences_so_far ≡ some r
        → r.next_run ≡ some date
        → IsNextRun occurrences_so_far r date
    unfolding calculate_next_run answer_for
    calculate_next_run-IsNextRun so_far date r returned found =
        let reached = candidate-IsReached in
        let same : candidate_of ≡ date = ground (arith, returned, found) in
        record {
          skip = skip_of;
          counted = ground (arith, returned, found);
          reached = subst (IsReached skip_of) same reached.0;
          ahead = subst (λ d. is_passed d now ≡ false) same reached.1;
          in_time = ground (arith, returned, found);
          in_count = ground (arith, returned, found);
        }
