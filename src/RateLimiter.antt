-- ===== src/RateLimiter.antt =====
-- `RateLimiter` of listener/src/api/rate-limiter.ts: a sliding window of request times for each
-- client. Times are ms since the epoch; `now - t < windowMs` is written `now < t + window_ms`.
-- Writing the response and the event row in the database is left out: what `handle` puts into the
-- headers is part of its result.
mod Client
pub mod Window
pub mod Limits
pub mod RetryAfter
mod Tests
unfoldable pub use Client.*
use notify_chain.Prelude.{
  ℕ, ◌+◌, ◌-◌, ◌/◌, String, Bool, true, false, Option, none, some, List, [], ◌∷◌, ◌++◌,
  if◌then◌else◌, ltb, leb, length, filter, string_key,
}
use notify_chain.Prelude.JsMap
use notify_chain.Prelude.JsMap.{JsMap}

pub record Override : Type 0 where
  pub max_requests : ℕ
  pub window_ms : Option ℕ

pub record RateLimitConfig : Type 0 where
  pub enabled : Bool
  pub window_ms : ℕ
  pub max_requests : ℕ
  pub client_overrides : JsMap String Override

pub record Metrics : Type 0 where
  pub total_requests : ℕ
  pub blocked_requests : ℕ
  pub allowed_requests : ℕ
  pub client_block_counts : JsMap String ℕ

pub record RateLimiter : Type 0 where
  pub cache : JsMap String (List ℕ)
  pub metrics : Metrics

abbrev pub no_metrics : Metrics
no_metrics = record {
  total_requests = 0;
  blocked_requests = 0;
  allowed_requests = 0;
  client_block_counts = [];
}

abbrev pub init : RateLimiter
init = record { cache = []; metrics = no_metrics }

window_or : ℕ → Option Override → ℕ
window_or d none = d
window_or d (some o) = elim o.window_ms [ none ↦ d | some w ↦ w ]

max_or : ℕ → Option Override → ℕ
max_or d none = d
max_or d (some o) = o.max_requests

-- `getClientWindowMs`
unfoldable pub get_client_window_ms : RateLimitConfig → String → ℕ
unfolding window_or
get_client_window_ms c client = window_or c.window_ms (JsMap.get client c.client_overrides)

-- `getClientMaxRequests`
unfoldable pub get_client_max_requests : RateLimitConfig → String → ℕ
unfolding max_or
get_client_max_requests c client = max_or c.max_requests (JsMap.get client c.client_overrides)

-- The timestamps that the window still holds.
unfoldable pub in_window : ℕ → ℕ → List ℕ → List ℕ
in_window window_ms now = filter (λ t. ltb now (t + window_ms))

abbrev pub times_or_none : Option (List ℕ) → List ℕ
times_or_none none = []
times_or_none (some ts) = ts

-- `this.cache.get(clientId) ?? []`
unfoldable pub timestamps : String → RateLimiter → List ℕ
timestamps client r = times_or_none (JsMap.get client r.cache)

abbrev pub first_or : ℕ → List ℕ → ℕ
first_or d [] = d
first_or d (t ∷ ts) = t

-- `Math.ceil(ms / 1000)`
abbrev pub ceil_sec : ℕ → ℕ
ceil_sec ms = (ms + 999) / 1000

-- What `handle` answers: the headers, and the wait in seconds if the request is blocked.
pub record Answer : Type 0 where
  pub allowed : Bool
  pub limit : ℕ
  pub remaining : ℕ
  pub reset_time_sec : ℕ
  pub retry_after_sec : Option ℕ

abbrev count_or_zero : Option ℕ → ℕ
count_or_zero none = 0
count_or_zero (some n) = n

-- The metrics of a blocked and of an allowed request.
unfoldable pub count_blocked : String → Metrics → Metrics
count_blocked client m = record m {
  total_requests = m.total_requests + 1;
  blocked_requests = m.blocked_requests + 1;
  client_block_counts =
      JsMap.set client (count_or_zero (JsMap.get client m.client_block_counts) + 1)
        m.client_block_counts;
}

unfoldable pub count_allowed : Metrics → Metrics
count_allowed m = record m {
  total_requests = m.total_requests + 1;
  allowed_requests = m.allowed_requests + 1;
}

-- The rest of `handle` after its guard, for a client that is identified.
unfoldable pub handle_client : RateLimitConfig → ℕ → String → RateLimiter → RateLimiter × Answer
unfolding in_window timestamps count_blocked count_allowed
handle_client c now client r =
    let window_ms = get_client_window_ms c client in
    let max_requests = get_client_max_requests c client in
    let valid = in_window window_ms now (timestamps client r) in
    let oldest = first_or now valid in
    if leb max_requests (length valid)
    then (
      record r { metrics = count_blocked client r.metrics },
      record {
        allowed = false;
        limit = max_requests;
        remaining = max_requests - length valid;
        reset_time_sec = ceil_sec (oldest + window_ms);
        retry_after_sec = some (ceil_sec (oldest + window_ms - now));
      },
    )
    else (
      record {
        cache = JsMap.set client (valid ++ now ∷ []) r.cache;
        metrics = count_allowed r.metrics;
      },
      record {
        allowed = true;
        limit = max_requests;
        remaining = max_requests - length valid - 1;
        reset_time_sec = ceil_sec (oldest + window_ms);
        retry_after_sec = none;
      },
    )

-- `handle` for a client that is identified: a disabled limiter allows every request, sets no header
-- and counts nothing.
unfoldable pub handle_identified :
    RateLimitConfig → ℕ → String → RateLimiter → RateLimiter × Option Answer
unfolding handle_client
handle_identified c now client r =
    if c.enabled
    then (let (r', answer) = handle_client c now client r in (r', some answer))
    else (r, none)

-- `handle`
unfoldable pub handle :
    TextOps → RateLimitConfig → ℕ → HttpRequest → RateLimiter → RateLimiter × Option Answer
unfolding handle_identified identify_client
handle ops c now req r = handle_identified c now (identify_client ops req).0 r

-- What `handle` returns, and the seconds that its `Retry-After` header asks the client to wait.
abbrev pub lets_through : Option Answer → Bool
lets_through none = true
lets_through (some answer) = answer.allowed

abbrev pub retry_after : Option Answer → Option ℕ
retry_after none = none
retry_after (some answer) = answer.retry_after_sec

-- The loop of `cleanupCache`.
unfoldable pub cleanup_entries : RateLimitConfig → ℕ → JsMap String (List ℕ) → JsMap String (List ℕ)
unfolding in_window
cleanup_entries c now [] = []
cleanup_entries c now ((client, ts) ∷ m) =
    let rest = cleanup_entries c now m in
    elim (in_window (get_client_window_ms c client) now ts) [
      | [] ↦ rest
      | t ∷ valid ↦ (client, t ∷ valid) ∷ rest
    ]

-- `cleanupCache`
unfoldable pub cleanup_cache : RateLimitConfig → ℕ → RateLimiter → RateLimiter
unfolding cleanup_entries
cleanup_cache c now r = record r { cache = cleanup_entries c now r.cache }

-- `getCacheSize`, `clearCache` and `resetMetrics`
unfoldable pub get_cache_size : RateLimiter → ℕ
get_cache_size r = JsMap.size r.cache

unfoldable pub clear_cache : RateLimiter → RateLimiter
clear_cache r = record r { cache = [] }

unfoldable pub reset_metrics : RateLimiter → RateLimiter
reset_metrics r = record r { metrics = no_metrics }
