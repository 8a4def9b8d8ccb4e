-- ===== src/Recurrence.antt =====
-- The recurrence rules of listener/src/services/recurrence.ts. A date is its time in ms since the
-- epoch, in the range where dates and products of periods are valid; the fields of a date in UTC are
-- those of the JavaScript engine.
pub mod Periods
pub mod NextRun
mod Tests
use notify_chain.Prelude.{
  ℕ, zero, suc, ◌+◌, ◌-◌, ◌*◌, ◌/◌, min, max, Bool, true, false, ◌||◌, ◌&&◌, Option, none, some,
  if◌then◌else◌, ltb, leb, ◌==◌,
}

pub data Frequency : Type 0 where
  minutely hourly daily weekly monthly : Frequency

pub record RecurrenceRule : Type 0 where
  pub frequency : Frequency
  pub interval : Option ℕ
  pub until : Option ℕ
  pub count : Option ℕ

pub record Calendar : Type 0 where
  -- `getUTCFullYear() * 12 + getUTCMonth()` and `getUTCDate()`
  pub month_index : ℕ → ℕ
  pub date_of : ℕ → ℕ
  -- The last day of a month, as `daysInUtcMonth` asks for it.
  pub days_in_month : ℕ → ℕ
  -- `setUTCFullYear` of a date, to a month and a day
  pub set_month : ℕ → ℕ → ℕ → ℕ

-- `unitMs`, of a frequency that is not monthly
unfoldable pub unit_ms : Frequency → ℕ
unit_ms minutely = 60000
unit_ms hourly = 3600000
unit_ms daily = 86400000
unit_ms weekly = 604800000
unit_ms monthly = 0

abbrev pub is_monthly : Frequency → Bool
is_monthly monthly = true
is_monthly _ = false

pub record NextRunCalculation : Type 0 where
  pub next_run : Option ℕ
  pub occurrence_count : ℕ

abbrev pub number_or : Option ℕ → ℕ → ℕ
number_or none d = d
number_or (some n) d = n

-- Is the date not after `now`, if that is given?
abbrev pub is_passed : ℕ → Option ℕ → Bool
is_passed date none = false
is_passed date (some now) = leb date now

-- Does the number exceed the limit, if there is one?
abbrev pub is_above : ℕ → Option ℕ → Bool
is_above n none = false
is_above n (some limit) = ltb limit n

-- A number cut off at the limit, if there is one.
abbrev pub cut : ℕ → Option ℕ → ℕ
cut n none = n
cut n (some limit) = min n limit

module _ (cal : Calendar) where
  -- `addPeriods`
  unfoldable pub add_periods : ℕ → Frequency → ℕ → ℕ → ℕ
  unfolding unit_ms
  add_periods date frequency interval periods =
      let month = cal.month_index date + interval * periods in
      if is_monthly frequency
      then cal.set_month date month (min (cal.date_of date) (cal.days_in_month month))
      else date + interval * periods * unit_ms frequency

  -- The loop that counts up while the date is not after `end`; `fuel` bounds its rounds.
  unfoldable pub count_up : ℕ → ℕ → ℕ → Frequency → ℕ → ℕ → ℕ
  unfolding add_periods
  count_up zero date end frequency interval periods = periods
  count_up (suc fuel) date end frequency interval periods =
      let rest = count_up fuel date end frequency interval (suc periods) in
      if leb (add_periods date frequency interval periods) end then rest else periods

  -- The loop that counts down to `least` while the date before is after `end`.
  unfoldable pub count_down : ℕ → ℕ → Frequency → ℕ → ℕ → ℕ
  unfolding add_periods
  count_down date end frequency interval zero = zero
  count_down date end frequency interval (suc periods) =
      let rest = count_down date end frequency interval periods in
      if ltb 0 periods && ltb end (add_periods date frequency interval periods)
      then rest
      else suc periods

  -- `periodsToMovePast`
  unfoldable pub periods_to_move_past : ℕ → ℕ → Frequency → ℕ → ℕ
  unfolding count_up count_down unit_ms
  periods_to_move_past candidate now frequency interval =
      let months = cal.month_index now - cal.month_index candidate in
      let guess = max 1 (months / interval) in
      if is_monthly frequency
      then count_down candidate now frequency interval
          (count_up (suc now) candidate now frequency interval guess)
      else (now - candidate) / (unit_ms frequency * interval) + 1

  -- The loop of `sequenceAtOrBefore` that counts down while the date is after `end`.
  unfoldable pub count_back : ℕ → ℕ → Frequency → ℕ → ℕ → ℕ
  unfolding add_periods
  count_back date end frequency interval zero = zero
  count_back date end frequency interval (suc periods) =
      let rest = count_back date end frequency interval periods in
      if ltb end (add_periods date frequency interval (suc periods)) then rest else suc periods

  -- The loop of `sequenceAtOrBefore` that counts up while the next date is not after `end`.
  unfoldable pub count_on : ℕ → ℕ → ℕ → Frequency → ℕ → ℕ → ℕ
  unfolding add_periods
  count_on zero date end frequency interval periods = periods
  count_on (suc fuel) date end frequency interval periods =
      let rest = count_on fuel date end frequency interval (suc periods) in
      if leb (add_periods date frequency interval (suc periods)) end then rest else periods

  -- `sequenceAtOrBefore`
  unfoldable pub sequence_at_or_before : ℕ → ℕ → Frequency → ℕ → ℕ → ℕ
  unfolding count_on count_back unit_ms
  sequence_at_or_before first end frequency interval first_sequence =
      let months = cal.month_index end - cal.month_index first in
      let periods =
        if is_monthly frequency
        then count_on (suc end) first end frequency interval
            (count_back first end frequency interval (months / interval))
        else (end - first) / (unit_ms frequency * interval) in
      if ltb end first then first_sequence - 1 else first_sequence + periods

  -- How many further occurrences the first one is moved on by, to be after `now`.
  unfoldable pub periods_to_skip : ℕ → Option ℕ → Frequency → ℕ → ℕ
  unfolding periods_to_move_past
  periods_to_skip candidate now frequency interval =
      if is_passed candidate now
      then periods_to_move_past candidate (number_or now 0) frequency interval
      else 0

  -- `calculateNextRun` with a valid interval: what it answers for a candidate and its count.
  unfoldable pub answer_for : RecurrenceRule → ℕ → ℕ → ℕ → ℕ → ℕ → NextRunCalculation
  unfolding sequence_at_or_before
  answer_for rule interval first occurrences_so_far consumed candidate =
      let end_sequence =
        sequence_at_or_before first (number_or rule.until 0) rule.frequency interval
          (occurrences_so_far + 1) in
      if is_above (consumed + 1) rule.count
      then record { next_run = none; occurrence_count = cut consumed rule.count }
      else if is_above candidate rule.until
      then record {
        next_run = none;
        occurrence_count = max occurrences_so_far (cut end_sequence rule.count);
      }
      else record { next_run = some candidate; occurrence_count = consumed }

  -- `calculateNextRun`; `none` is a `RangeError`.
  unfoldable pub calculate_next_run : RecurrenceRule → ℕ → Option ℕ → ℕ → Option NextRunCalculation
  unfolding add_periods periods_to_skip answer_for
  calculate_next_run rule last_run now occurrences_so_far =
      let interval = number_or rule.interval 1 in
      let first = add_periods last_run rule.frequency interval 1 in
      let skip = periods_to_skip first now rule.frequency interval in
      let candidate =
        if is_passed first now then add_periods first rule.frequency interval skip else first in
      if interval == 0 || occurrences_so_far == 0
      then none
      else some
          (answer_for rule interval first occurrences_so_far (occurrences_so_far + skip) candidate)
