-- ===== src/RpcRateLimiter.antt =====
-- `RpcRateLimiter` of listener/src/services/rpc-rate-limiter.ts: the token bucket for RPC requests.
-- Tokens are counted in thousandths, in which a refill (ms times requests per second) is a whole
-- number: this is exact arithmetic, and the rounding of the source's floating-point numbers, by which a
-- refill can fall short of a token that the exact one reaches, is left out. So is the log. Times are
-- ms; a request that was throttled waits for its timer, whose end is a step of its own.
pub mod Accounting
pub mod Window
mod Tests
use notify_chain.Prelude.{
  ℕ, zero, suc, ◌+◌, ◌-◌, ◌*◌, min, Bool, true, false, not, Option, none, some, List, [], ◌∷◌,
  if◌then◌else◌, ltb, leb,
}

pub record RpcRateLimitConfig : Type 0 where
  pub enabled : Bool
  pub max_requests_per_second : ℕ
  pub burst_size : ℕ
  pub throttle_delay_ms : ℕ

pub record Metrics : Type 0 where
  pub total_requests : ℕ
  pub throttled_requests : ℕ
  pub allowed_requests : ℕ

pub record RpcRateLimiter : Type 0 where
  pub config : RpcRateLimitConfig
  pub tokens : ℕ
  pub last_refill : ℕ
  pub metrics : Metrics

abbrev pub no_metrics : Metrics
no_metrics = record { total_requests = 0; throttled_requests = 0; allowed_requests = 0 }

-- The constructor.
unfoldable pub create : RpcRateLimitConfig → ℕ → RpcRateLimiter
create config now = record {
  config = config;
  tokens = config.burst_size * 1000;
  last_refill = now;
  metrics = no_metrics;
}

-- The refill for the time since the last one, up to the burst size.
unfoldable pub refill : ℕ → RpcRateLimiter → RpcRateLimiter
refill now l =
    if ltb l.last_refill now
    then record l {
      tokens =
          min (l.config.burst_size * 1000)
            (l.tokens + (now - l.last_refill) * l.config.max_requests_per_second);
      last_refill = now;
    }
    else l

abbrev pub count_allowed : Metrics → Metrics
count_allowed m = record m { allowed_requests = suc m.allowed_requests }

abbrev pub count_throttled : Metrics → Metrics
count_throttled m = record m { throttled_requests = suc m.throttled_requests }

-- A token taken if there is one: the new state, and whether the request may proceed.
unfoldable pub take_token : RpcRateLimiter → RpcRateLimiter × Bool
take_token l =
    if leb 1000 l.tokens
    then (record l { tokens = l.tokens - 1000; metrics = count_allowed l.metrics }, true)
    else (record l { metrics = count_throttled l.metrics }, false)

-- `acquireInternal` up to its answer or its next delay.
unfoldable pub acquire_internal : ℕ → RpcRateLimiter → RpcRateLimiter × Bool
unfolding refill take_token
acquire_internal now l = take_token (refill now l)

abbrev pub count_request : RpcRateLimiter → RpcRateLimiter
count_request l = record l {
  metrics = record l.metrics { total_requests = suc l.metrics.total_requests };
}

-- `acquire` up to its answer or its delay.
unfoldable pub acquire : ℕ → RpcRateLimiter → RpcRateLimiter × Bool
unfolding acquire_internal
acquire now l = if l.config.enabled then acquire_internal now (count_request l) else (l, true)

-- `resetMetrics`
unfoldable pub reset_metrics : RpcRateLimiter → RpcRateLimiter
reset_metrics l = record l { metrics = no_metrics }

-- A limiter, with the number of requests that wait for their timers and the number of those whose
-- `acquire` has returned.
pub record System : Type 0 where
  pub limiter : RpcRateLimiter
  pub waiting : ℕ
  pub passed : ℕ

pub data Event : Type 0 where
  arrives wakes : Event

-- A request that arrives, or the end of a delay.
unfoldable pub step : ℕ → Event → System → System
unfolding acquire acquire_internal
step now arrives s =
    let (l, allowed) = acquire now s.limiter in
    record {
      limiter = l;
      waiting = if allowed then s.waiting else suc s.waiting;
      passed = if allowed then suc s.passed else s.passed;
    }
step now wakes s =
    let (l, allowed) = acquire_internal now s.limiter in
    if ltb 0 s.waiting
    then record {
      limiter = l;
      waiting = if allowed then s.waiting - 1 else s.waiting;
      passed = if allowed then suc s.passed else s.passed;
    }
    else s

unfoldable pub run : List (ℕ × Event) → System → System
unfolding step
run [] s = s
run ((now, e) ∷ es) s = run es (step now e s)

unfoldable pub start : RpcRateLimitConfig → ℕ → System
unfolding create
start config now = record { limiter = create config now; waiting = 0; passed = 0 }
