-- ===== src/Recurrence/Tests.antt =====
-- Runs of listener/src/services/recurrence.ts in a calendar with months of 30 ms, and its theorems.
use native.Mathlib.Nat.{mul-suc}
use notify_chain.Prelude.{◌+◌, ◌*◌, ◌/◌, ◌%◌, ◌≡◌, refl, some, arith}
use notify_chain.Recurrence.{
  RecurrenceRule, hourly, monthly, Calendar, NextRunCalculation, add_periods, periods_to_move_past,
  calculate_next_run,
}
use notify_chain.Recurrence.Periods.{MonthsGrow}
use notify_chain.Recurrence.NextRun.{IsNextRun, calculate_next_run-IsNextRun}

program : Unit {0}
unfolding calculate_next_run periods_to_move_past add_periods
program = tt

abbrev short_months : Calendar
short_months = record {
  month_index = λ d. d / 30;
  date_of = λ d. d % 30;
  days_in_month = λ m. 29;
  set_month = λ d m day. m * 30 + day;
}

short_months-MonthsGrow : MonthsGrow short_months
unfolding program
short_months-MonthsGrow date interval p positive = omega (arith, mul-suc interval p, positive)

-- Every second month from the 5th, asked on the 20th of the fourth month.
every_second : periods_to_move_past short_months 35 140 monthly 2 ≡ 2
unfolding program
every_second = refl

abbrev rule : RecurrenceRule
rule = record { frequency = hourly; interval = some 2; until = some 100000000; count = some 9 }

abbrev answer : NextRunCalculation
answer = record { next_run = some 28800001; occurrence_count = 4 }

rule-answer : calculate_next_run short_months rule 1 (some 22000000) 1 ≡ some answer
unfolding program
rule-answer = refl

calculate_next_run-IsNextRun_example :
    IsNextRun short_months rule 1 (some 22000000) 1 answer 28800001
calculate_next_run-IsNextRun_example =
    calculate_next_run-IsNextRun short_months rule 1 (some 22000000) short_months-MonthsGrow
      (omega arith) 1 28800001 answer rule-answer refl
