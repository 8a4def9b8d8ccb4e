-- ===== src/RateLimiter/Tests.antt =====
-- Runs of listener/src/api/rate-limiter.ts, and its theorems at concrete states.
use package.text.Mathlib.Text.{◌==◌ as str_eq}
use notify_chain.Prelude.{
  ap, ℕ, ◌≤◌, ◌≡◌, refl, true, some, none, List, [], ◌∷◌, arith, string_key, All,
}
use notify_chain.Prelude.JsMap
use notify_chain.RateLimiter.{
  RateLimitConfig, TextOps, api_key, ip, timestamps, handle_client, handle_identified, lets_through,
  retry_after, identify_client, get_client_max_requests, get_client_window_ms, cleanup_cache,
}
use notify_chain.RateLimiter.Window.{count_in, window}
use notify_chain.RateLimiter.Limits.{Event, step, run, new, run_limits}
use notify_chain.RateLimiter.RetryAfter.{IsOthers, allowed_after_wait}

program : Unit {0}
unfolding handle_identified handle_client timestamps run step cleanup_cache get_client_max_requests
    get_client_window_ms JsMap.get JsMap.set string_key
program = tt

abbrev config : RateLimitConfig
config = record {
  enabled = true;
  window_ms = 1000;
  max_requests = 2;
  client_overrides = ("vip", record { max_requests = 5; window_ms = none }) ∷ [];
}

abbrev events : List (ℕ × Event)
events =
    (100, Event.requests "a")
    ∷ (200, Event.requests "b")
    ∷ (700, Event.requests "a")
    ∷ (900, Event.requests "a")
    ∷ (1500, Event.cleans)
    ∷ (1600, Event.requests "a")
    ∷ []

-- The request at 900 is blocked, the one at 1600 is not.
run-events : (run config "a" events (new config "a")).allowed_at ≡ 1600 ∷ 700 ∷ 100 ∷ []
unfolding program
run-events = refl

run_limits_example :
    count_in (window config "a") 1600 (run config "a" events (new config "a")).allowed_at
    ≤ get_client_max_requests config "a"
run_limits_example = run_limits config "a" 0 events refl (omega arith) 1600

limit_pos : 1 ≤ get_client_max_requests config "a"
unfolding program
limit_pos = omega arith

abbrev before : List (ℕ × Event)
before = (100, Event.requests "a") ∷ (200, Event.requests "b") ∷ (700, Event.requests "a") ∷ []

abbrev between : List (ℕ × Event)
between = (1000, Event.requests "b") ∷ (1500, Event.cleans) ∷ []

blocked :
    retry_after
      (handle_identified config 900 "a" (run config "a" before (new config "a")).limiter).1
    ≡ some 1
unfolding program
blocked = refl

b_is_other : IsOthers config "a" (1000, Event.requests "b")
b_is_other e = absurd (ground (arith, ap (λ client. str_eq client "b") e))

others : All (IsOthers config "a") between
others = (b_is_other, (tt, tt))

allowed_after_wait_example :
    let s =
      run config "a" between
        (step config "a" 900 (Event.requests "a") (run config "a" before (new config "a"))) in
    lets_through (handle_identified config 1900 "a" s.limiter).1 ≡ true
allowed_after_wait_example =
    allowed_after_wait config "a" before between 900 1 1900 refl limit_pos blocked others
      (omega arith)

-- Operations that suffice for the two headers below.
abbrev ops : TextOps
ops = record {
  trim = λ s. s;
  to_lower_case = λ s. s;
  slice_from_7 = λ s. "token";
  before_comma = λ s. s;
}

identify :
    (identify_client ops (record {
      x_api_key = none;
      authorization = some "bearer token";
      x_forwarded_for = some "10.0.0.1";
      remote_address = none;
    })
      ≡ ("token", api_key))
    × (identify_client ops (record {
      x_api_key = none;
      authorization = none;
      x_forwarded_for = none;
      remote_address = none;
    })
        ≡ ("127.0.0.1", ip))
unfolding identify_client
identify = (refl, refl)
