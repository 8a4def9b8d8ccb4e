-- ===== src/RpcRateLimiter/Tests.antt =====
-- Runs of listener/src/services/rpc-rate-limiter.ts, and its theorems at concrete states.
use notify_chain.Prelude.{ℕ, ◌+◌, ◌-◌, ◌*◌, ◌≤◌, ◌≡◌, refl, true, false, List, [], ◌∷◌, arith}
use notify_chain.RpcRateLimiter.{RpcRateLimitConfig, no_metrics, Event, arrives, wakes, run, start}
use notify_chain.RpcRateLimiter.Window.{run-start_bound}

program : Unit {0}
unfolding run start
program = tt

abbrev one_per_second : RpcRateLimitConfig
one_per_second = record {
  enabled = true;
  max_requests_per_second = 1;
  burst_size = 1;
  throttle_delay_ms = 500;
}

abbrev events : List (ℕ × Event)
events = (0, arrives) ∷ (100, arrives) ∷ (600, wakes) ∷ (1100, wakes) ∷ []

-- A disabled limiter lets all through, and counts nothing.
disabled_passes_all :
    ((run events (start (record one_per_second { enabled = false }) 0)).passed ≡ 2)
    × ((run events (start (record one_per_second { enabled = false }) 0)).limiter.metrics
        ≡ no_metrics)
unfolding program
disabled_passes_all = (refl, refl)

-- One request that waits for two delays counts as two throttlings.
second_throttled_twice :
    (run events (start one_per_second 0)).limiter.metrics.throttled_requests ≡ 2
unfolding program
second_throttled_twice = refl

abbrev later_events : List (ℕ × Event)
later_events = (1200, arrives) ∷ (2100, wakes) ∷ []

run-start_bound_example :
    (run later_events (run events (start one_per_second 0))).passed * 1000
    ≤ (run events (start one_per_second 0)).passed * 1000 + (1 * 1000 + (2100 - 1200) * 1)
run-start_bound_example =
    run-start_bound one_per_second 0 1200 2100 events later_events refl (omega arith)
      (omega arith, (omega arith, (omega arith, (omega arith, tt))))
      ((omega arith, omega arith), ((omega arith, omega arith), tt)) (omega arith)
