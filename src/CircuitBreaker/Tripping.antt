-- ===== src/CircuitBreaker/Tripping.antt =====
-- When the circuit of listener/src/services/circuit-breaker.ts opens and closes.
use notify_chain.Prelude.{ℕ, ◌+◌, ◌≡◌, Bool, true, false, List, [], ◌∷◌, arith, leb, if◌then◌else◌}
use notify_chain.CircuitBreaker.{
  CircuitBreaker, CircuitBreakerConfig, closed, open_state, Outcome, resolved, rejected, settle,
  record_success, record_failure,
}

-- Calls that settle one after the other, each at its time.
unfoldable pub settle_all :
    CircuitBreakerConfig → List (ℕ × Outcome) → CircuitBreaker → CircuitBreaker
settle_all c [] b = b
settle_all c ((now, o) ∷ os) b = settle_all c os (settle c now o b)

-- Whether `threshold` failures in a row occur, when `run` failures have just been seen.
unfoldable pub has_failure_run : ℕ → ℕ → List (ℕ × Outcome) → Bool
has_failure_run threshold run [] = false
has_failure_run threshold run ((now, resolved) ∷ os) = has_failure_run threshold 0 os
has_failure_run threshold run ((now, rejected) ∷ os) =
    let rest = has_failure_run threshold (run + 1) os in
    if leb threshold (run + 1) then true else rest

settle_all_open :
    (c : CircuitBreakerConfig) (os : List (ℕ × Outcome)) (b : CircuitBreaker)
    → b.state ≡ open_state
    → (settle_all c os b).state ≡ open_state
unfolding settle_all settle
settle_all_open c [] b h = h
settle_all_open c ((now, o) ∷ os) b h = settle_all_open c os (settle c now o b) (ground arith)

-- While calls only settle, a closed circuit opens exactly if some stretch of the outcomes has as
-- many failures in a row as the failure threshold, counting those just before; otherwise it stays
-- closed.
pub settle_all-opens_iff_run :
    (c : CircuitBreakerConfig) (os : List (ℕ × Outcome)) (b : CircuitBreaker)
    → b.state ≡ closed
    → (settle_all c os b).state
      ≡ (if has_failure_run c.failure_threshold b.failure_count os then open_state else closed)
unfolding settle_all has_failure_run settle
settle_all-opens_iff_run c [] b h = h
settle_all-opens_iff_run c ((now, resolved) ∷ os) b h =
    ground (arith, settle_all-opens_iff_run c os (record_success c now b))
settle_all-opens_iff_run c ((now, rejected) ∷ os) b h = ground (
  arith,
  settle_all-opens_iff_run c os (record_failure c now b),
  settle_all_open c os (record_failure c now b),
)
