-- ===== src/CircuitBreaker/Recovery.antt =====
-- How an open circuit of listener/src/services/circuit-breaker.ts blocks and recovers.
use notify_chain.Prelude.{ℕ, zero, suc, ◌+◌, ◌≤◌, ◌<◌, ◌≡◌, true, false, some, List, [], ◌∷◌, arith}
use notify_chain.CircuitBreaker.{
  CircuitBreaker, CircuitBreakerConfig, closed, open_state, half_open, Outcome, resolved, rejected,
  admit, settle, get_state,
}

-- What happens to a breaker, other than a reset.
pub data Event : Type 0 where
  tries reads : Event
  settles : Outcome → Event

unfoldable pub step : CircuitBreakerConfig → ℕ → Event → CircuitBreaker → CircuitBreaker
unfolding admit settle get_state
step c now tries b = (admit now b).0
step c now reads b = (get_state now b).0
step c now (settles o) b = settle c now o b

unfoldable pub run : CircuitBreakerConfig → List (ℕ × Event) → CircuitBreaker → CircuitBreaker
run c [] b = b
run c ((now, e) ∷ es) b = run c es (step c now e b)

-- Every time is before the deadline.
abbrev pub Before : ℕ → List (ℕ × Event) → Type 0
Before deadline [] = Unit
Before deadline ((now, e) ∷ es) = (now < deadline) × Before deadline es

-- Until the recovery timeout has passed, an open circuit stays open with the same deadline whatever
-- is tried, read or settles meanwhile, and every call is blocked.
pub run_blocks :
    (c : CircuitBreakerConfig) (deadline : ℕ) (now : ℕ) (es : List (ℕ × Event)) (b : CircuitBreaker)
    → b.state ≡ open_state
    → b.next_attempt_time ≡ some deadline
    → Before deadline es
    → now < deadline
    → ((run c es b).state ≡ open_state)
      × ((run c es b).next_attempt_time ≡ some deadline)
      × ((admit now (run c es b)).1 ≡ false)
unfolding run step
run_blocks c deadline now [] b o d w h = ground arith
run_blocks c deadline now ((t, e) ∷ es) b o d w h =
    ground (arith, run_blocks c deadline now es (step c t e b))

-- `n` successes in a row, at the given time.
unfoldable pub successes : CircuitBreakerConfig → ℕ → ℕ → CircuitBreaker → CircuitBreaker
successes c now zero b = b
successes c now (suc n) b = successes c now n (settle c now resolved b)

successes_close :
    (c : CircuitBreakerConfig) (now n : ℕ) (b : CircuitBreaker)
    → b.state ≡ half_open
    → b.success_count + n + 1 ≡ c.success_threshold
    → ((successes c now n b).state ≡ half_open)
      × ((successes c now (suc n) b).state ≡ closed)
      × ((successes c now (suc n) b).failure_count ≡ 0)
unfolding successes settle
successes_close c now zero b h e = ground arith
successes_close c now (suc n) b h e =
    ground (arith, successes_close c now n (settle c now resolved b))

-- Once the deadline has passed, the next call is let through with the circuit half-open; as many
-- successes as the success threshold, and no fewer, close it with a clean failure count; and a
-- failure opens it again for a full recovery timeout.
pub admit_recovers :
    (c : CircuitBreakerConfig) (now n : ℕ) {deadline : ℕ} (b : CircuitBreaker)
    → b.state ≡ open_state
    → b.next_attempt_time ≡ some deadline
    → 0 < deadline
    → deadline ≤ now
    → c.success_threshold ≡ suc n
    → let (b', called) = admit now b in
      (called ≡ true)
      × (b'.state ≡ half_open)
      × ((successes c now n b').state ≡ half_open)
      × ((successes c now (suc n) b').state ≡ closed)
      × ((successes c now (suc n) b').failure_count ≡ 0)
      × ((settle c now rejected b').state ≡ open_state)
      × ((settle c now rejected b').next_attempt_time ≡ some (now + c.recovery_timeout_ms))
unfolding admit settle
admit_recovers c now n b o d p h e = ground (arith, successes_close c now n (admit now b).0)
