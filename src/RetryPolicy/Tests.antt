-- ===== src/RetryPolicy/Tests.antt =====
-- Runs of listener/src/services/retry-policy.ts, and its theorems at concrete inputs.
use notify_chain.Prelude.{◌<◌, max, ◌≡◌, refl, ◌↔◌, true, none, some, String}
use notify_chain.RetryPolicy.{
  RetryPolicyConfig, TextCase, ErrorObject, Thrown, timeout, rate_limited, auth_error,
  configuration_error, network_error, retry_policy_defaults, classify_http_status, classify_error,
  is_retryable, resolve_max_attempts, evaluate,
}
use notify_chain.RetryPolicy.Budget.{evaluate-should_retry_iff}

abbrev as_is : TextCase
as_is = record { to_lower_case = λ s. s; to_upper_case = λ s. s }

abbrev plain : String → ErrorObject
plain message = record {
  failure_type = none;
  name = none;
  code = none;
  is_error = true;
  message = message;
}

classify_errors :
    (classify_error as_is (Thrown.object (plain "socket hang up")) ≡ network_error)
    × (classify_error as_is
          (Thrown.object (record (plain "x") { failure_type = some "auth_error" }))
        ≡ auth_error)
    × (classify_error as_is (Thrown.object (record (plain "x") { name = some "AbortError" }))
        ≡ timeout)
    × (classify_error as_is (Thrown.text "webhook not configured") ≡ configuration_error)
    × (classify_http_status (some 429) ≡ rate_limited)
unfolding classify_error classify_http_status
classify_errors = (refl, refl, refl, refl, refl)

abbrev capped : RetryPolicyConfig
capped = record retry_policy_defaults { max_attempts = some 4 }

evaluate-should_retry_iff_example :
    ((evaluate capped 7 timeout 3 10).should_retry ≡ true)
    ↔ ((is_retryable capped timeout ≡ true) × (max 1 3 < resolve_max_attempts capped (some 10)))
evaluate-should_retry_iff_example = evaluate-should_retry_iff capped 7 timeout 3 10
