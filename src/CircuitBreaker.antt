-- ===== src/CircuitBreaker.antt =====
-- `CircuitBreaker` of listener/src/services/circuit-breaker.ts. Times are ms since the epoch, given
-- to each operation as the clock's reading; logging is left out. `execute` is two steps, since
-- other calls run while it awaits: `admit` before the call and `record_success` or
-- `record_failure` when the call has settled.
pub mod Invariant
pub mod Tripping
pub mod Recovery
mod Tests
use notify_chain.Prelude.{
  ℕ, ◌+◌, Bool, true, false, not, ◌&&◌, Option, none, some, if◌then◌else◌, leb, ◌==◌,
}

pub data CircuitState : Type 0 where
  closed open_state half_open : CircuitState

-- The options given to the constructor, each of which may be missing.
pub record CircuitBreakerOptions : Type 0 where
  pub failure_threshold : Option ℕ
  pub recovery_timeout_ms : Option ℕ
  pub success_threshold : Option ℕ

pub record CircuitBreakerConfig : Type 0 where
  pub failure_threshold : ℕ
  pub recovery_timeout_ms : ℕ
  pub success_threshold : ℕ

pub record CircuitBreaker : Type 0 where
  pub state : CircuitState
  pub failure_count : ℕ
  pub success_count : ℕ
  pub last_failure_time : Option ℕ
  pub last_success_time : Option ℕ
  pub next_attempt_time : Option ℕ

-- `??` on a missing option.
abbrev or_default : Option ℕ → ℕ → ℕ
or_default none d = d
or_default (some n) d = n

-- The constructor's defaults.
unfoldable pub resolve_config : CircuitBreakerOptions → CircuitBreakerConfig
resolve_config o = record {
  failure_threshold = or_default o.failure_threshold 5;
  recovery_timeout_ms = or_default o.recovery_timeout_ms 60000;
  success_threshold = or_default o.success_threshold 2;
}

-- The fields' initial values, to which `reset` returns too.
abbrev pub init : CircuitBreaker
init = record {
  state = closed;
  failure_count = 0;
  success_count = 0;
  last_failure_time = none;
  last_success_time = none;
  next_attempt_time = none;
}

is_open : CircuitState → Bool
is_open open_state = true
is_open _ = false

-- `this.nextAttemptTime && Date.now() >= this.nextAttemptTime`: the time 0 is falsy.
is_due : ℕ → Option ℕ → Bool
is_due now none = false
is_due now (some t) = not (t == 0) && leb t now

-- `checkRecoveryWindow`
unfoldable pub check_recovery_window : ℕ → CircuitBreaker → CircuitBreaker
unfolding is_open is_due
check_recovery_window now b =
    if is_open b.state && is_due now b.next_attempt_time
    then record b { state = half_open; success_count = 0; next_attempt_time = none }
    else b

-- `openCircuit`
unfoldable pub open_circuit : CircuitBreakerConfig → ℕ → CircuitBreaker → CircuitBreaker
open_circuit c now b = record b {
  state = open_state;
  next_attempt_time = some (now + c.recovery_timeout_ms);
  success_count = 0;
}

-- `closeCircuit`
unfoldable pub close_circuit : CircuitBreaker → CircuitBreaker
close_circuit b = record b {
  state = closed;
  failure_count = 0;
  success_count = 0;
  next_attempt_time = none;
}

after_success : CircuitBreakerConfig → CircuitState → CircuitBreaker → CircuitBreaker
unfolding close_circuit
after_success c half_open b = if leb c.success_threshold b.success_count then close_circuit b else b
after_success c _ b = record b { failure_count = 0 }

-- `recordSuccess`
unfoldable pub record_success : CircuitBreakerConfig → ℕ → CircuitBreaker → CircuitBreaker
unfolding after_success
record_success c now b =
    after_success c b.state
      (record b { success_count = b.success_count + 1; last_success_time = some now })

after_failure : CircuitBreakerConfig → ℕ → CircuitState → CircuitBreaker → CircuitBreaker
unfolding open_circuit
after_failure c now closed b =
    if leb c.failure_threshold b.failure_count then open_circuit c now b else b
after_failure c now half_open b = open_circuit c now b
after_failure c now open_state b = b

-- `recordFailure`
unfoldable pub record_failure : CircuitBreakerConfig → ℕ → CircuitBreaker → CircuitBreaker
unfolding after_failure
record_failure c now b =
    after_failure c now b.state
      (record b { failure_count = b.failure_count + 1; last_failure_time = some now })

-- The part of `execute` before the call: the new state, and whether the call is made. A call that
-- is not made throws "Circuit breaker is OPEN".
unfoldable pub admit : ℕ → CircuitBreaker → CircuitBreaker × Bool
unfolding check_recovery_window is_open
admit now b = let b' = check_recovery_window now b in (b', not (is_open b'.state))

-- The outcome of the awaited call.
pub data Outcome : Type 0 where
  resolved rejected : Outcome

-- The part of `execute` after the call.
unfoldable pub settle : CircuitBreakerConfig → ℕ → Outcome → CircuitBreaker → CircuitBreaker
unfolding record_success record_failure
settle c now resolved b = record_success c now b
settle c now rejected b = record_failure c now b

-- `getState`, and the part of `getStats` that changes the state.
unfoldable pub get_state : ℕ → CircuitBreaker → CircuitBreaker × CircuitState
unfolding check_recovery_window
get_state now b = let b' = check_recovery_window now b in (b', b'.state)

-- `reset`
unfoldable pub reset : CircuitBreaker → CircuitBreaker
reset b = init
