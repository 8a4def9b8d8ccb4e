-- ===== src/RetryBackoff/Tests.antt =====
-- Configurations of listener/src/utils/retry-backoff-config.ts, and its theorems at one of them.
use notify_chain.Prelude.{min, ◌*◌, ◌≤◌, ◌≡◌, ◌↔◌, refl, true, none, some, [], ◌∷◌, arith}
use notify_chain.RetryPolicy.{delay_unit}
use notify_chain.RetryBackoff.{
  Field, Rule, whole, negative, no_number, Candidate, RetryBackoffConfig, PartialRetryBackoffConfig,
  retry_backoff_defaults, merge, accepted, rejected, resolve_retry_backoff_config, base_delay,
  calculate_backoff_delay,
}
use notify_chain.RetryBackoff.Limits.{
  IsBounded, resolve_retry_backoff_config-accepts, calculate_backoff_delay_limits,
}

program : Unit {0}
unfolding resolve_retry_backoff_config merge calculate_backoff_delay
program = tt

abbrev no_input : PartialRetryBackoffConfig
no_input = record {
  initial_delay_ms = none;
  max_delay_ms = none;
  max_retries = none;
  multiplier = none;
  jitter = none;
}

abbrev merged : Candidate
merged = record {
  initial_delay_ms = whole 5000;
  max_delay_ms = whole 3600000;
  max_retries = whole 5;
  multiplier = whole 2;
  jitter = some true;
}

-- All wrong values are listed, but only those of the first stage that finds some.
two_issues :
    resolve_retry_backoff_config
      (record no_input { max_retries = some (whole 1001); multiplier = some (negative 0) })
    ≡ rejected
        ((Field.multiplier, Rule.at_least_minimum) ∷ (Field.max_retries, Rule.at_most_maximum) ∷ [])
unfolding program
two_issues = refl

type_issue :
    resolve_retry_backoff_config
      (record no_input { max_retries = some no_number; multiplier = some (negative 0) })
    ≡ rejected ((Field.max_retries, Rule.has_type) ∷ [])
unfolding program
type_issue = refl

-- -5 is below -1, and -1 is not below -5.
ordered_negatives :
    (resolve_retry_backoff_config
        (record no_input { initial_delay_ms = some (negative 0); max_delay_ms = some (negative 4) })
      ≡ rejected (
          (Field.initial_delay_ms, Rule.at_least_minimum)
          ∷ (Field.max_delay_ms, Rule.at_least_minimum)
          ∷ (Field.max_delay_ms, Rule.at_least_initial)
          ∷ []))
    × (resolve_retry_backoff_config (record no_input {
      initial_delay_ms = some (negative 4);
      max_delay_ms = some (negative 0);
    })
        ≡ rejected (
            (Field.initial_delay_ms, Rule.at_least_minimum)
            ∷ (Field.max_delay_ms, Rule.at_least_minimum)
            ∷ []))
unfolding program
ordered_negatives = (refl, refl)

resolve_retry_backoff_config-accepts_example :
    (resolve_retry_backoff_config no_input ≡ accepted merged)
    ↔ ((merge no_input ≡ merged) × ((c : RetryBackoffConfig) × IsBounded merged c))
resolve_retry_backoff_config-accepts_example = resolve_retry_backoff_config-accepts merged no_input

defaults-IsBounded : IsBounded merged retry_backoff_defaults
defaults-IsBounded = record {
  initial_delay = refl;
  max_delay = refl;
  retries = refl;
  factor = refl;
  jitters = refl;
  ordered = omega arith;
  day = omega arith;
  few = omega arith;
  growing = omega arith;
  slow = omega arith;
}

calculate_backoff_delay_limits_example :
    (base_delay 0 retry_backoff_defaults ≡ 5000)
    × (base_delay 4 retry_backoff_defaults ≡ min (base_delay 3 retry_backoff_defaults * 2) 3600000)
    × (5000 ≤ base_delay 3 retry_backoff_defaults)
    × (base_delay 3 retry_backoff_defaults ≤ base_delay 4 retry_backoff_defaults)
    × (base_delay 3 retry_backoff_defaults ≤ 3600000)
    × (3 * (base_delay 3 retry_backoff_defaults * delay_unit)
        ≤ 4 * calculate_backoff_delay 3 retry_backoff_defaults 77)
    × (4 * calculate_backoff_delay 3 retry_backoff_defaults 77
        ≤ 5 * (base_delay 3 retry_backoff_defaults * delay_unit))
calculate_backoff_delay_limits_example =
    calculate_backoff_delay_limits merged retry_backoff_defaults 3 77 defaults-IsBounded
      (omega arith) (omega arith)
