-- ===== src/RpcManager/Tests.antt =====
-- Runs of listener/src/services/stellar-rpc-manager.ts, and its theorems at concrete pools.
use package.text.Mathlib.Text.{◌==◌ as str_eq}
use package.text.Mathlib.TextEquality.{eq_iff}
use notify_chain.Prelude.{
  ℕ, zero, suc, ◌≢◌, ◌<◌, length, ◌≡◌, refl, String, true, false, Option, none, some, List, [], ◌∷◌,
  inl, inr, arith, Bool-cases, if◌then◌else◌, string_key,
}
use notify_chain.Prelude.JsSet
use notify_chain.RpcFailure.{RpcError, pos, is_rpc_failure_condition}
use notify_chain.RpcManager.{
  Endpoint, Manager, healthy, unhealthy, new_endpoint, unique_urls, new_manager, find_index,
}
use notify_chain.RpcManager.Failover.{
  switch_to_next_endpoint, record_failure, fail_over, execute_with_fallback, Answer, returned,
  threw, result, all_failed,
}
use notify_chain.RpcManager.Pool.{Holds, urls}
use notify_chain.RpcManager.Outcomes.{Explains, execute_with_fallback_outcome}
use notify_chain.RpcManager.Urls.{given_urls, first_occurrences}
use notify_chain.RpcManager.Calls.{Call, Action, run, run-new_manager-Holds}
use notify_chain.RpcManager.Switching.{IsBest, switch_to_next_endpoint-IsBest}
use notify_chain.RpcManager.Leaving.{switch_to_next_endpoint-moves}
use notify_chain.RpcManager.Serving.{alone, IsReady, Serves, execute_with_fallback_serves}

program : Unit {0}
unfolding switch_to_next_endpoint record_failure fail_over execute_with_fallback new_manager
    new_endpoint unique_urls find_index is_rpc_failure_condition JsSet.Distinct JsSet.has JsSet.add
    string_key
program = tt

abbrev same_text : String → String
same_text s = s

abbrev endpoint : String → Endpoint
endpoint url = record {
  url = url;
  is_primary = false;
  status = healthy;
  consecutive_failures = 0;
  total_requests = 0;
  total_successes = 0;
  total_failures = 0;
  last_failure_time = none;
  last_success_time = none;
  last_error = none;
}

abbrev pool : Manager
pool = record {
  endpoints =
      endpoint "a"
      ∷ record (endpoint "b") { status = unhealthy; last_failure_time = some 5 }
      ∷ endpoint "c"
      ∷ [];
  active_index = 0;
  failure_threshold = 3;
  cooldown_ms = 100;
  max_retries = 3;
}

abbrev pool_urls : List String
pool_urls = "a" ∷ "b" ∷ "c" ∷ []

-- The unhealthy endpoint is passed over.
switch_passes_over : (switch_to_next_endpoint 50 pool).active_index ≡ 2
unfolding program
switch_passes_over = refl

-- A manager with one endpoint reports a switch to that endpoint.
single_switch :
    (record_failure 50 "a" none
      (record pool { endpoints = endpoint "a" ∷ []; failure_threshold = 1 })).1
    ≡ record { switched = true; previous_url = some "a"; new_url = some "a" }
unfolding program
single_switch = refl

pool-Holds : Holds pool_urls pool
unfolding program
pool-Holds = record { listed = refl; distinct = (refl, (refl, (refl, tt))); in_range = omega arith }

switch_to_next_endpoint-IsBest_example : IsBest 1 (switch_to_next_endpoint 50 pool)
switch_to_next_endpoint-IsBest_example =
    switch_to_next_endpoint-IsBest 50 pool (omega arith) 1 (omega arith) (λ e. omega (arith, e))

switch_to_next_endpoint-moves_example : (switch_to_next_endpoint 50 pool).active_index ≢ 0
switch_to_next_endpoint-moves_example =
    switch_to_next_endpoint-moves 50 pool (omega arith) (omega arith) refl

abbrev outage : Option RpcError
outage =
    some (record { name = "TimeoutError"; message = ""; code = ""; status = 0; rpc_code = pos 0 })

abbrev only_c : ℕ → String → Answer ℕ
only_c attempt url = if str_eq url "c" then returned attempt else threw outage

outage_is : is_rpc_failure_condition same_text outage ≡ true
unfolding program
outage_is = refl

only_c-Serves : Serves same_text only_c "c"
only_c-Serves attempt url = elim (Bool-cases (str_eq url "c")) [
  | inl good ↦ inl (attempt, rw good refl)
  | inr bad ↦ inr ((λ same. cc ((eq_iff url "c").1 same, bad)), (outage, rw bad refl, outage_is))
]

pool-IsReady : IsReady "c" pool_urls 3 2 pool
unfolding program
pool-IsReady = record {
  holds = pool-Holds;
  active_healthy = refl;
  good_healthy = refl;
  few = omega arith;
}

execute_with_fallback_serves_example :
    (v : ℕ) × ((execute_with_fallback same_text only_c alone (λ n. n) pool).1 ≡ result v)
execute_with_fallback_serves_example =
    execute_with_fallback_serves same_text only_c (λ n. n) pool_urls "c" only_c-Serves pool 2
      pool-IsReady

-- Two executions whose calls at "a" fail: when the second's does, the first has left "a" for "c" and the
-- second leaves "c" for the degraded "a", so it fails although "c" always serves.
abbrev two : Manager
two = record pool { endpoints = endpoint "a" ∷ endpoint "c" ∷ []; max_retries = 2 }

abbrev first_fails : ℕ → Manager → Manager
first_fails (suc zero) m = fail_over 1 "a" outage m
first_fails attempt m = m

concurrent_fails :
    (execute_with_fallback same_text only_c first_fails (λ n. n) two).1
    ≡ all_failed (("a", outage) ∷ ("a", outage) ∷ [])
unfolding program
concurrent_fails = refl

execute_with_fallback_outcome_example :
    Explains same_text only_c 3 (execute_with_fallback same_text only_c alone (λ n. n) pool).1
execute_with_fallback_outcome_example =
    execute_with_fallback_outcome same_text only_c alone (λ n. n) pool_urls (λ attempt m h. h) pool
      pool-Holds

abbrev built : Manager
built = record {
  endpoints = record (endpoint "a") { is_primary = true } ∷ endpoint "b" ∷ [];
  active_index = 0;
  failure_threshold = 1;
  cooldown_ms = 60000;
  max_retries = 2;
}

built_eq : new_manager same_text "a" ("b" ∷ "" ∷ "a" ∷ []) (some 1) none none ≡ some built
unfolding program
built_eq = refl

abbrev actions : List (ℕ × Action)
actions =
    (7, Action.calls (Call.fails "a" outage))
    ∷ (
      9,
      Action.executes (λ attempt url. threw outage) (λ attempt. (10, Call.switches) ∷ []) (λ n. n),
    )
    ∷ (12, Action.calls (Call.activates "b"))
    ∷ []

run-new_manager-Holds_example :
    (str_eq "a" "" ≡ false)
    × (urls (run same_text same_text actions built).endpoints
        ≡ first_occurrences (given_urls same_text "a" ("b" ∷ "" ∷ "a" ∷ [])))
    × JsSet.Distinct (urls (run same_text same_text actions built).endpoints)
    × ((run same_text same_text actions built).active_index
        < length (urls (run same_text same_text actions built).endpoints))
run-new_manager-Holds_example =
    run-new_manager-Holds same_text same_text "a" ("b" ∷ "" ∷ "a" ∷ []) (some 1) none none built
      actions built_eq
