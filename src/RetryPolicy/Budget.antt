-- ===== src/RetryPolicy/Budget.antt =====
-- When `RetryPolicy.evaluate` (listener/src/services/retry-policy.ts) decides to retry, the attempt
-- budget, and the statuses that the default policy retries.
use notify_chain.Prelude.{ℕ, ◌≤◌, ◌<◌, max, ◌≡◌, ◌↔◌, true, some, arith, leb, ◌==◌, ◌||◌, ltb}
use notify_chain.Prelude.JsSet
use notify_chain.RetryPolicy.{
  RetryFailureType, RetryPolicyConfig, retry_policy_defaults, classify_http_status, is_retryable,
  is_permanent, resolve_max_attempts, ceiling_value, budget_value, evaluate, failure_type_key,
}

-- The budget is at least one attempt, never above the policy's ceiling, and never above what the
-- caller asked for, a request of zero counting as one.
pub resolve_max_attempts_bounds :
    (c : RetryPolicyConfig) (n : ℕ)
    → (1 ≤ resolve_max_attempts c (some n))
      × (resolve_max_attempts c (some n) ≤ ceiling_value c.max_attempts)
      × (resolve_max_attempts c (some n) ≤ max 1 n)
unfolding resolve_max_attempts ceiling_value budget_value
resolve_max_attempts_bounds c n = ground arith

module _ (c : RetryPolicyConfig) (draw : ℕ) (t : RetryFailureType) (attempt preferred : ℕ) where
  -- A failed attempt is retried exactly when its failure type is retryable and fewer attempts than
  -- the budget have been made.
  pub evaluate-should_retry_iff :
      ((evaluate c draw t attempt preferred).should_retry ≡ true)
      ↔ ((is_retryable c t ≡ true) × (max 1 attempt < resolve_max_attempts c (some preferred)))
  unfolding evaluate is_permanent
  evaluate-should_retry_iff = ground arith

-- Under the default policy an HTTP status is retried exactly when it is 408, 429, at least 500, or
-- below 400.
pub default-classify_http_status :
    (status : ℕ)
    → is_retryable retry_policy_defaults (classify_http_status (some status))
      ≡ (status == 408 || status == 429 || leb 500 status || ltb status 400)
unfolding is_retryable retry_policy_defaults classify_http_status JsSet.has failure_type_key
default-classify_http_status status = ground arith
