-- ===== src/RetryBackoff.antt =====
-- The backoff configuration of listener/src/utils/retry-backoff-config.ts: its validation with all
-- issues, the defaults, and the delay. Numbers that are finite and not whole are left out; a delay is
-- counted in the units of RetryPolicy, in which the random factor is a whole number. The message of an
-- issue is named by its rule.
pub mod Limits
mod Tests
use notify_chain.Prelude.{
  ℕ, ◌+◌, ◌*◌, ◌^◌, min, Bool, true, false, ◌&&◌, not, Option, none, some, List, [], ◌∷◌, ◌++◌,
  if◌then◌else◌, leb,
}
use notify_chain.RetryPolicy.{delay_unit}

pub data Field : Type 0 where
  initial_delay_ms max_delay_ms max_retries multiplier jitter : Field

pub data Rule : Type 0 where
  has_type at_least_minimum at_most_maximum at_least_initial : Rule

abbrev pub Issue : Type 0
Issue = Field × Rule

-- What a configuration may hold where a number is wanted: a number, one below zero (`negative k` is
-- -(k + 1)), or no finite number.
pub data Value : Type 0 where
  whole negative : ℕ → Value
  no_number : Value

-- The merged configuration; `none` for a jitter that is no Boolean.
pub record Candidate : Type 0 where
  pub initial_delay_ms : Value
  pub max_delay_ms : Value
  pub max_retries : Value
  pub multiplier : Value
  pub jitter : Option Bool

pub record RetryBackoffConfig : Type 0 where
  pub initial_delay_ms : ℕ
  pub max_delay_ms : ℕ
  pub max_retries : ℕ
  pub multiplier : ℕ
  pub jitter : Bool

pub record PartialRetryBackoffConfig : Type 0 where
  pub initial_delay_ms : Option Value
  pub max_delay_ms : Option Value
  pub max_retries : Option Value
  pub multiplier : Option Value
  pub jitter : Option Bool

abbrev pub max_allowed_max_delay_ms : ℕ
max_allowed_max_delay_ms = 86400000

abbrev pub max_allowed_multiplier : ℕ
max_allowed_multiplier = 100

abbrev pub max_allowed_max_retries : ℕ
max_allowed_max_retries = 1000

abbrev pub retry_backoff_defaults : RetryBackoffConfig
retry_backoff_defaults = record {
  initial_delay_ms = 5000;
  max_delay_ms = 3600000;
  max_retries = 5;
  multiplier = 2;
  jitter = true;
}

-- `v.check`
abbrev pub check : Bool → Issue → List Issue → List Issue
check condition issue issues = if condition then issues else issues ++ issue ∷ []

abbrev pub is_number : Value → Bool
is_number no_number = false
is_number _ = true

abbrev pub is_boolean : Option Bool → Bool
is_boolean none = false
is_boolean (some b) = true

-- Comparisons of numbers; nothing compares with what is no number.
abbrev pub is_at_least : ℕ → Value → Bool
is_at_least n (whole v) = leb n v
is_at_least n _ = false

abbrev pub is_at_most : Value → ℕ → Bool
is_at_most (whole v) n = leb v n
is_at_most (negative k) n = true
is_at_most no_number n = false

abbrev pub is_not_below : Value → Value → Bool
is_not_below (whole a) (whole b) = leb b a
is_not_below (whole a) (negative b) = true
is_not_below (negative a) (negative b) = leb a b
is_not_below _ _ = false

-- The presence and the type of each field
unfoldable pub type_issues : Candidate → List Issue
type_issues c =
    check (is_boolean c.jitter) (Field.jitter, has_type)
      (check (is_number c.multiplier) (Field.multiplier, has_type)
        (check (is_number c.max_retries) (Field.max_retries, has_type)
          (check (is_number c.max_delay_ms) (Field.max_delay_ms, has_type)
            (check (is_number c.initial_delay_ms) (Field.initial_delay_ms, has_type) []))))

unfoldable pub lower_issues : Candidate → List Issue
lower_issues c =
    check (is_at_least 1 c.multiplier) (Field.multiplier, at_least_minimum)
      (check (is_at_least 0 c.max_retries) (Field.max_retries, at_least_minimum)
        (check (is_at_least 0 c.max_delay_ms) (Field.max_delay_ms, at_least_minimum)
          (check (is_at_least 0 c.initial_delay_ms) (Field.initial_delay_ms, at_least_minimum) [])))

unfoldable pub range_issues : Candidate → List Issue
unfolding lower_issues
range_issues c =
    check (is_not_below c.max_delay_ms c.initial_delay_ms) (Field.max_delay_ms, at_least_initial)
      (check (is_at_most c.multiplier max_allowed_multiplier) (Field.multiplier, at_most_maximum)
        (check (is_at_most c.max_retries max_allowed_max_retries)
          (Field.max_retries, at_most_maximum)
          (check (is_at_most c.max_delay_ms max_allowed_max_delay_ms)
            (Field.max_delay_ms, at_most_maximum) (lower_issues c))))

abbrev pub is_none : List Issue → Bool
is_none [] = true
is_none (i ∷ is) = false

-- `validateRetryBackoffConfig`: the issues of the `ValidationError`, none if it returns.
unfoldable pub validate_retry_backoff_config : Candidate → List Issue
unfolding type_issues range_issues
validate_retry_backoff_config c = if is_none (type_issues c) then range_issues c else type_issues c

abbrev value_or : Option Value → ℕ → Value
value_or none d = whole d
value_or (some v) d = v

abbrev flag_or : Option Bool → Bool → Bool
flag_or none d = d
flag_or (some b) d = b

unfoldable pub merge : PartialRetryBackoffConfig → Candidate
merge input = record {
  initial_delay_ms = value_or input.initial_delay_ms retry_backoff_defaults.initial_delay_ms;
  max_delay_ms = value_or input.max_delay_ms retry_backoff_defaults.max_delay_ms;
  max_retries = value_or input.max_retries retry_backoff_defaults.max_retries;
  multiplier = value_or input.multiplier retry_backoff_defaults.multiplier;
  jitter = some (flag_or input.jitter retry_backoff_defaults.jitter);
}

pub data Resolved : Type 0 where
  accepted : Candidate → Resolved
  rejected : List Issue → Resolved

-- `resolveRetryBackoffConfig`
unfoldable pub resolve_retry_backoff_config : PartialRetryBackoffConfig → Resolved
unfolding validate_retry_backoff_config merge
resolve_retry_backoff_config input =
    let merged = merge input in
    let issues = validate_retry_backoff_config merged in
    if is_none issues then accepted merged else rejected issues

-- The delay before jitter, in ms. The product is exact: where the source's `Math.pow` rounds or
-- overflows, the product of a positive initial delay is above every maximum that is accepted; an initial
-- delay of 0 gives NaN there, which is left out.
unfoldable pub base_delay : ℕ → RetryBackoffConfig → ℕ
base_delay retry_index c = min (c.initial_delay_ms * c.multiplier ^ retry_index) c.max_delay_ms

-- `calculateBackoffDelay`, where the random number is `draw / 2^53`.
unfoldable pub calculate_backoff_delay : ℕ → RetryBackoffConfig → ℕ → ℕ
unfolding base_delay
calculate_backoff_delay retry_index c draw =
    let base = base_delay retry_index c in
    if c.jitter then base * (3 * 2 ^ 52 + draw) else base * delay_unit

-- `calculateBackoffDelayDeterministic`, whose factor is 0.875.
unfoldable pub calculate_backoff_delay_deterministic : ℕ → RetryBackoffConfig → ℕ
unfolding base_delay
calculate_backoff_delay_deterministic retry_index c =
    let base = base_delay retry_index c in
    if c.jitter then base * (7 * 2 ^ 51) else base * delay_unit
