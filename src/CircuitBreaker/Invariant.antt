-- ===== src/CircuitBreaker/Invariant.antt =====
-- The invariant of listener/src/services/circuit-breaker.ts, over every interleaving of calls.
use notify_chain.Prelude.{ℕ, suc, ◌+◌, ◌≤◌, ◌<◌, ◌≡◌, refl, ◌≢◌, true, false, Option, none, arith}
use notify_chain.CircuitBreaker.{
  CircuitBreaker, CircuitBreakerConfig, CircuitState, closed, open_state, half_open, Outcome, init,
  admit, settle, get_state, reset, check_recovery_window,
}

-- A closed circuit has seen fewer failures than the threshold, a half-open one fewer successes than
-- its threshold, and a time of the next attempt is set exactly while the circuit is open.
abbrev pub IsValidAt : CircuitBreakerConfig → CircuitState → ℕ → ℕ → Option ℕ → Type 0
IsValidAt c closed failures successes next = (failures < c.failure_threshold) × (next ≡ none)
IsValidAt c open_state failures successes next = next ≢ none
IsValidAt c half_open failures successes next = (successes < c.success_threshold) × (next ≡ none)

abbrev pub IsValid : CircuitBreakerConfig → CircuitBreaker → Type 0
IsValid c b = IsValidAt c b.state b.failure_count b.success_count b.next_attempt_time

-- Both thresholds are at least one.
pub record HasThresholds (c : CircuitBreakerConfig) : Type 0 where
  pub failures : 1 ≤ c.failure_threshold
  pub successes : 1 ≤ c.success_threshold

-- The breaker with the number of calls that are awaited.
pub record Breaker : Type 0 where
  pub breaker : CircuitBreaker
  pub in_flight : ℕ

-- One step of the event loop at a time of the clock; `now` only has to be given, not to grow.
pub data Step (c : CircuitBreakerConfig) (s u : Breaker) : Type 0 where
  starts :
      (now : ℕ)
      → (admit now s.breaker).1 ≡ true
      → u ≡ record { breaker = (admit now s.breaker).0; in_flight = s.in_flight + 1 }
      → Step c s u
  blocked :
      (now : ℕ)
      → (admit now s.breaker).1 ≡ false
      → u ≡ record s { breaker = (admit now s.breaker).0 }
      → Step c s u
  settles :
      (now : ℕ) (o : Outcome)
      → s.in_flight ≡ suc u.in_flight
      → u.breaker ≡ settle c now o s.breaker
      → Step c s u
  reads : (now : ℕ) → u ≡ record s { breaker = (get_state now s.breaker).0 } → Step c s u
  resets : u ≡ record s { breaker = reset s.breaker } → Step c s u

pub data Reach (c : CircuitBreakerConfig) : Breaker → Type 0 where
  start : Reach c (record { breaker = init; in_flight = 0 })
  next : {s u : Breaker} → Reach c s → Step c s u → Reach c u

module _ (c : CircuitBreakerConfig) (t : HasThresholds c) where
  check-IsValid :
      (now : ℕ) (b : CircuitBreaker) → IsValid c b → IsValid c (check_recovery_window now b)
  unfolding check_recovery_window
  check-IsValid now b v = ground arith

  settle-IsValid :
      (now : ℕ) (o : Outcome) (b : CircuitBreaker) → IsValid c b → IsValid c (settle c now o b)
  unfolding settle
  settle-IsValid now o b v = ground arith

  -- Each step of the event loop keeps the invariant, also a call that settles after the circuit has
  -- opened, recovered or been reset under it.
  pub Step-IsValid : {s u : Breaker} → Step c s u → IsValid c s.breaker → IsValid c u.breaker
  unfolding admit get_state reset
  Step-IsValid {s} (starts now a e) v = rw e (check-IsValid now s.breaker v)
  Step-IsValid {s} (blocked now a e) v = rw e (check-IsValid now s.breaker v)
  Step-IsValid {s} (settles now o n e) v = rw e (settle-IsValid now o s.breaker v)
  Step-IsValid {s} (reads now e) v = rw e (check-IsValid now s.breaker v)
  Step-IsValid (resets e) v = rw e (t.failures, refl)

  -- With both thresholds at least one, in every state that calls, late settlements, reads and resets
  -- reach in any order and at any times: a closed circuit is below its failure threshold, a half-open
  -- one below its success threshold, and a next attempt is scheduled exactly while the circuit is open.
  pub Reach-IsValid : {s : Breaker} → Reach c s → IsValid c s.breaker
  Reach-IsValid start = (t.failures, refl)
  Reach-IsValid (next r st) = Step-IsValid st (Reach-IsValid r)
