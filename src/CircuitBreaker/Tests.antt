-- ===== src/CircuitBreaker/Tests.antt =====
-- Runs of listener/src/services/circuit-breaker.ts, and its theorems at concrete states.
use notify_chain.Prelude.{
  ℕ, ◌≡◌, refl, true, false, none, some, List, [], ◌∷◌, arith, if◌then◌else◌,
}
use notify_chain.CircuitBreaker.{
  CircuitBreaker, CircuitBreakerConfig, closed, open_state, half_open, Outcome, resolved, rejected,
  init, admit, settle, resolve_config,
}
use notify_chain.CircuitBreaker.Invariant.{Breaker, Step, Reach, IsValid, Reach-IsValid}
use notify_chain.CircuitBreaker.Tripping.{settle_all, has_failure_run, settle_all-opens_iff_run}
use notify_chain.CircuitBreaker.Recovery.{Event, run, successes, run_blocks, admit_recovers}

abbrev config : CircuitBreakerConfig
config = record { failure_threshold = 2; recovery_timeout_ms = 1000; success_threshold = 2 }

abbrev opened : CircuitBreaker
opened = record init {
  state = open_state;
  failure_count = 2;
  last_failure_time = some 50;
  next_attempt_time = some 1050;
}

abbrev outcomes : List (ℕ × Outcome)
outcomes = (10, rejected) ∷ (20, resolved) ∷ (30, rejected) ∷ (50, rejected) ∷ []

defaults :
    resolve_config
      (record { failure_threshold = none; recovery_timeout_ms = none; success_threshold = some 3 })
    ≡ record { failure_threshold = 5; recovery_timeout_ms = 60000; success_threshold = 3 }
unfolding resolve_config
defaults = refl

opens : settle_all config outcomes init ≡ record opened { last_success_time = some 20 }
unfolding settle_all settle
opens = refl

-- A call is let through, fails, and trips a breaker with a threshold of one.
abbrev brittle : CircuitBreakerConfig
brittle = record config { failure_threshold = 1 }

abbrev tripped : Breaker
tripped = record {
  breaker = record init {
    state = open_state;
    failure_count = 1;
    last_failure_time = some 50;
    next_attempt_time = some 1050;
  };
  in_flight = 0;
}

tripped-Reach : Reach brittle tripped
unfolding admit settle
tripped-Reach =
    Reach.next {s = record { breaker = init; in_flight = 1 }}
      (Reach.next Reach.start (Step.starts 40 refl refl)) (Step.settles 50 rejected refl refl)

Reach-IsValid_example : IsValid brittle tripped.breaker
Reach-IsValid_example =
    Reach-IsValid brittle (record { failures = omega arith; successes = omega arith }) tripped-Reach

settle_all-opens_iff_run_example :
    (settle_all config outcomes init).state
    ≡ (if has_failure_run 2 0 outcomes then open_state else closed)
settle_all-opens_iff_run_example = settle_all-opens_iff_run config outcomes init refl

abbrev meanwhile : List (ℕ × Event)
meanwhile = (60, Event.tries) ∷ (70, Event.settles resolved) ∷ (80, Event.reads) ∷ []

run_blocks_example :
    ((run config meanwhile opened).state ≡ open_state)
    × ((run config meanwhile opened).next_attempt_time ≡ some 1050)
    × ((admit 1049 (run config meanwhile opened)).1 ≡ false)
run_blocks_example =
    run_blocks config 1050 1049 meanwhile opened refl refl (omega arith) (omega arith)

admit_recovers_example :
    let (b, called) = admit 1050 opened in
    (called ≡ true)
    × (b.state ≡ half_open)
    × ((successes config 1050 1 b).state ≡ half_open)
    × ((successes config 1050 2 b).state ≡ closed)
    × ((successes config 1050 2 b).failure_count ≡ 0)
    × ((settle config 1050 rejected b).state ≡ open_state)
    × ((settle config 1050 rejected b).next_attempt_time ≡ some 2050)
admit_recovers_example =
    admit_recovers config 1050 1 opened refl refl (omega arith) (omega arith) refl
