-- ===== src/RetryPolicy.antt =====
-- `RetryPolicy` of listener/src/services/retry-policy.ts: the backoff curve, the attempt budget and
-- the decision after a failed attempt. Attempts, delays and factors are whole numbers; a draw of
-- `Math.random()` is its numerator over 2^53, and a jittered delay is counted in units of
-- 2^-54 ms so that nothing is rounded (the program's floats round beyond 53 bits).
mod FailureType
pub mod Budget
pub mod Backoff
mod Tests
unfoldable pub use FailureType.*
use notify_chain.Prelude.{
  ℕ, suc, ◌+◌, ◌-◌, ◌*◌, ◌^◌, min, max, Bool, true, false, not, Option, none, some, List,
  if◌then◌else◌, leb, Key,
}
use notify_chain.Prelude.JsSet
use notify_chain.Prelude.JsSet.{JsSet}

-- `RetryPolicyConfig`. An absent or non-finite ceiling is `none`.
pub record RetryPolicyConfig : Type 0 where
  pub max_attempts : Option ℕ
  pub base_delay_ms : ℕ
  pub multiplier : ℕ
  pub max_delay_ms : ℕ
  pub jitter : Bool
  pub retryable_failure_types : JsSet RetryFailureType

-- `RETRY_POLICY_DEFAULTS`
unfoldable pub retry_policy_defaults : RetryPolicyConfig
unfolding default_retryable_failure_types
retry_policy_defaults = record {
  max_attempts = none;
  base_delay_ms = 5000;
  multiplier = 2;
  max_delay_ms = 60 * 60 * 1000;
  jitter = true;
  retryable_failure_types = default_retryable_failure_types;
}

pub data RetryDecisionReason : Type 0 where
  retryable exhausted permanent : RetryDecisionReason

pub record RetryDecision : Type 0 where
  pub should_retry : Bool
  pub reason : RetryDecisionReason
  pub failure_type : RetryFailureType
  pub attempt : ℕ
  pub max_attempts : ℕ
  pub delay : Option ℕ

-- `Number.MAX_SAFE_INTEGER`
abbrev pub max_safe_integer : ℕ
max_safe_integer = 2 ^ 53 - 1

-- One millisecond in the units in which a delay is counted.
abbrev pub delay_unit : ℕ
delay_unit = 2 ^ 54

-- The delay before jitter, in ms.
unfoldable pub raw_delay : ℕ → ℕ → ℕ → ℕ → ℕ
raw_delay attempt base_delay_ms multiplier max_delay_ms =
    min (base_delay_ms * multiplier ^ attempt) max_delay_ms

-- `computeBackoffDelay`; `raw * (0.75 + draw / 2^53 * 0.5)` with jitter.
unfoldable pub compute_backoff_delay : ℕ → ℕ → ℕ → ℕ → Bool → ℕ → ℕ
unfolding raw_delay
compute_backoff_delay attempt base_delay_ms multiplier max_delay_ms jitter draw =
    let raw = raw_delay attempt base_delay_ms multiplier max_delay_ms in
    if jitter then raw * (3 * 2 ^ 52 + draw) else raw * delay_unit

unfoldable pub is_retryable : RetryPolicyConfig → RetryFailureType → Bool
is_retryable c t = JsSet.has t c.retryable_failure_types

unfoldable pub is_permanent : RetryPolicyConfig → RetryFailureType → Bool
unfolding is_retryable
is_permanent c t = not (is_retryable c t)

-- The ceiling on attempts, whatever the caller asks for.
unfoldable pub ceiling_value : Option ℕ → ℕ
ceiling_value none = max_safe_integer
ceiling_value (some n) = max 1 n

-- The caller's budget, below no ceiling yet.
unfoldable pub budget_value : ℕ → Option ℕ → ℕ
budget_value ceiling none = ceiling
budget_value ceiling (some n) = max 1 n

-- `resolveMaxAttempts`, and `maxAttemptsFor`, which only calls it.
unfoldable pub resolve_max_attempts : RetryPolicyConfig → Option ℕ → ℕ
unfolding ceiling_value budget_value
resolve_max_attempts c preferred =
    let ceiling = ceiling_value c.max_attempts in min (budget_value ceiling preferred) ceiling

unfoldable pub compute_delay : RetryPolicyConfig → ℕ → ℕ → ℕ
unfolding compute_backoff_delay
compute_delay c attempt draw =
    compute_backoff_delay attempt c.base_delay_ms c.multiplier c.max_delay_ms c.jitter draw

-- `evaluate`
unfoldable pub evaluate : RetryPolicyConfig → ℕ → RetryFailureType → ℕ → ℕ → RetryDecision
unfolding resolve_max_attempts is_permanent compute_delay
evaluate c draw failure_type attempt preferred =
    let max_attempts = resolve_max_attempts c (some preferred) in
    let safe_attempt = max 1 attempt in
    if is_permanent c failure_type
    then record {
      should_retry = false;
      reason = permanent;
      failure_type = failure_type;
      attempt = safe_attempt;
      max_attempts = max_attempts;
      delay = none;
    }
    else if leb max_attempts safe_attempt
    then record {
      should_retry = false;
      reason = exhausted;
      failure_type = failure_type;
      attempt = safe_attempt;
      max_attempts = max_attempts;
      delay = none;
    }
    else record {
      should_retry = true;
      reason = retryable;
      failure_type = failure_type;
      attempt = safe_attempt;
      max_attempts = max_attempts;
      delay = some (compute_delay c (safe_attempt - 1) draw);
    }

-- `evaluateFailure`
unfoldable pub evaluate_failure :
    TextCase → RetryPolicyConfig → ℕ → Option ℕ → Option Thrown → ℕ → ℕ → RetryDecision
unfolding evaluate classify_delivery_failure
evaluate_failure t c draw status error attempt preferred =
    evaluate c draw (classify_delivery_failure t status error) attempt preferred

-- `shouldRetry`
unfoldable pub should_retry : RetryPolicyConfig → ℕ → RetryFailureType → ℕ → ℕ → Bool
unfolding evaluate
should_retry c draw failure_type attempt preferred =
    (evaluate c draw failure_type attempt preferred).should_retry
