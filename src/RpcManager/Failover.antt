-- ===== src/RpcManager/Failover.antt =====
-- The failover of listener/src/services/stellar-rpc-manager.ts: `switchToNextEndpoint`,
-- `recordFailure` and `executeWithFallback`. An execution awaits each call of its operation; what other
-- executions and calls do to the manager meanwhile is a parameter.
use notify_chain.Prelude.{
  ◌≡◌, ap, ◌∙◌, ℕ, zero, suc, ◌+◌, ◌-◌, ◌%◌, min, max, String, Bool, true, false, ◌&&◌, not, Option,
  none, some, List, [], ◌∷◌, ◌++◌, if◌then◌else◌, ltb, leb, ◌==◌, length,
}
use notify_chain.RpcFailure.{RpcError, is_rpc_failure_condition}
use notify_chain.RpcManager.{
  degraded, Endpoint, Manager, is_healthy, is_degraded, is_unhealthy, endpoint_at, update_at,
  find_index, get_active_endpoint, is_cooled, check_cooldowns, failed_with, record_success,
}

abbrev pub passes : (Endpoint → Bool) → Option Endpoint → Bool
passes test none = false
passes test (some e) = test e

-- The first of the next `count` places after `previous + i`, in ring order, that passes the test.
unfoldable pub ring_search : (Endpoint → Bool) → List Endpoint → ℕ → ℕ → ℕ → Option ℕ
ring_search test es previous i zero = none
ring_search test es previous i (suc count) =
    let candidate = (previous + i) % length es in
    let later = ring_search test es previous (suc i) count in
    if passes test (endpoint_at candidate es) then some candidate else later

abbrev is_before : ℕ → Option ℕ → Bool
is_before time none = true
is_before time (some oldest) = ltb time oldest

abbrev pub time_or_zero : Option ℕ → ℕ
time_or_zero none = 0
time_or_zero (some t) = t

-- The index of the endpoint, not the previous one, whose last failure is the oldest.
unfoldable pub oldest_failure : ℕ → ℕ → Option ℕ → ℕ → List Endpoint → ℕ
oldest_failure previous i oldest_time oldest_index [] = oldest_index
oldest_failure previous i oldest_time oldest_index (e ∷ es) =
    let time = time_or_zero e.last_failure_time in
    let older = not (i == previous) && is_before time oldest_time in
    oldest_failure previous (suc i) (if older then some time else oldest_time)
      (if older then i else oldest_index) es

abbrev pub primary_failure : List Endpoint → Option ℕ
primary_failure [] = none
primary_failure (e ∷ es) = e.last_failure_time

abbrev pub degrade : Endpoint → Endpoint
degrade e = record e { status = degraded }

-- Priorities 3 and 4: a primary that has cooled down, else the oldest failure.
unfoldable pub fall_back : ℕ → Manager → Manager
unfolding oldest_failure
fall_back now m =
    let next = (m.active_index + 1) % length m.endpoints in
    if is_cooled now m.cooldown_ms (primary_failure m.endpoints)
    then record m { endpoints = update_at 0 degrade m.endpoints; active_index = 0 }
    else record m { active_index = oldest_failure m.active_index 0 none next m.endpoints }

-- The endpoint of the first priority that finds one.
unfoldable pub choose : ℕ → Manager → Option ℕ → Option ℕ → Manager
unfolding fall_back
choose now m (some i) second = record m { active_index = i }
choose now m none (some i) = record m { active_index = i }
choose now m none none = fall_back now m

-- The part of `switchToNextEndpoint` after the cooldowns were checked.
unfoldable pub pick_next : ℕ → Manager → Manager
unfolding ring_search choose
pick_next now m =
    let others = length m.endpoints - 1 in
    choose now m (ring_search is_healthy m.endpoints m.active_index 1 others)
      (ring_search is_degraded m.endpoints m.active_index 1 others)

-- `switchToNextEndpoint`; it returns the URLs of the active endpoint before and after.
unfoldable pub switch_to_next_endpoint : ℕ → Manager → Manager
unfolding check_cooldowns pick_next
switch_to_next_endpoint now m =
    if leb (length m.endpoints) 1 then m else pick_next now (check_cooldowns now m)

pub record FailResult : Type 0 where
  pub switched : Bool
  pub previous_url : Option String
  pub new_url : Option String

abbrev index_or : Option ℕ → ℕ → ℕ
index_or none d = d
index_or (some i) d = i

abbrev is_index : Option ℕ → ℕ → Bool
is_index none i = false
is_index (some j) i = j == i

-- The failure counted at the endpoint of the URL, or at the active one for an unknown URL.
unfoldable pub count_failure : ℕ → String → Option RpcError → Manager → Manager
unfolding find_index failed_with
count_failure now target_url error m =
    let target = index_or (find_index target_url m.endpoints) m.active_index in
    record m {
      endpoints = update_at target (failed_with now m.failure_threshold error) m.endpoints;
    }

-- `recordFailure`
unfoldable pub record_failure : ℕ → String → Option RpcError → Manager → Manager × FailResult
unfolding find_index count_failure switch_to_next_endpoint get_active_endpoint
record_failure now target_url error m =
    let counted = count_failure now target_url error m in
    let next = switch_to_next_endpoint now counted in
    if is_index (find_index target_url m.endpoints) m.active_index
      && passes is_unhealthy (endpoint_at m.active_index counted.endpoints)
    then (
      next,
      record {
        switched = true;
        previous_url = get_active_endpoint counted;
        new_url = get_active_endpoint next;
      },
    )
    else (counted, record { switched = false; previous_url = none; new_url = none })

-- A failed call that leads to a retry: the failure counted, and a switch if that made none.
unfoldable pub fail_over : ℕ → String → Option RpcError → Manager → Manager
unfolding record_failure switch_to_next_endpoint
fail_over now url error m =
    let (m', fail_result) = record_failure now url error m in
    if fail_result.switched then m' else switch_to_next_endpoint now m'

-- What a call of the operation ends with.
pub data Answer (T : Type 0) : Type 0 where
  returned : T → Answer T
  threw : Option RpcError → Answer T

pub data Execution (T : Type 0) : Type 0 where
  result : T → Execution T
  rethrown : Option RpcError → Execution T
  all_failed : List (String × Option RpcError) → Execution T
  -- A `TypeError` for an active index out of range.
  broken : Execution T

-- What a call leads to, where `retry` is the rest of the loop.
unfoldable pub finish_call :
    {T : Type 0}
    → (String → String)
    → (List (String × Option RpcError) → Manager → Manager × Execution T)
    → ℕ
    → ℕ
    → List (String × Option RpcError)
    → String
    → Manager
    → Answer T
    → Manager × Execution T
unfolding record_success fail_over record_failure
finish_call to_lower_case retry now left errors url m (returned v) =
    (record_success now (some url) m, result v)
finish_call to_lower_case retry now left errors url m (threw error) =
    let errors' = errors ++ (url, error) ∷ [] in
    let rest = retry errors' (fail_over now url error m) in
    if not (is_rpc_failure_condition to_lower_case error)
    then (m, rethrown error)
    else if ltb 0 left && ltb 1 (length m.endpoints)
    then rest
    else ((record_failure now url error m).0, all_failed errors')

-- `others` is what runs while an attempt awaits its operation: the other executions and calls may change
-- the manager there.
module _ {T : Type 0} (to_lower_case : String → String) (operation : ℕ → String → Answer T)
    (others : ℕ → Manager → Manager) (clock : ℕ → ℕ) where
  -- A call at the active endpoint, if there is one, and what follows it on the manager as the call leaves
  -- it.
  unfoldable pub call_active :
      (List (String × Option RpcError) → Manager → Manager × Execution T)
      → ℕ
      → ℕ
      → List (String × Option RpcError)
      → Manager
      → Option String
      → Manager × Execution T
  unfolding finish_call
  call_active retry attempt left errors m none = (m, broken)
  call_active retry attempt left errors m (some url) =
      finish_call to_lower_case retry (clock attempt) left errors url (others attempt m)
        (operation attempt url)

  -- The loop of `executeWithFallback` with as many attempts left, from attempt number `attempt`.
  unfoldable pub attempts :
      ℕ → ℕ → List (String × Option RpcError) → Manager → Manager × Execution T
  unfolding get_active_endpoint call_active
  attempts zero attempt errors m = (m, all_failed errors)
  attempts (suc left) attempt errors m =
      call_active (attempts left (suc attempt)) attempt left errors m (get_active_endpoint m)

  -- `executeWithFallback`
  unfoldable pub execute_with_fallback : Manager → Manager × Execution T
  unfolding attempts
  execute_with_fallback m = attempts (max 1 (min m.max_retries (length m.endpoints))) 1 [] m

  -- The loop where the call returns, and where it throws.
  module _ (left attempt : ℕ) (errors : List (String × Option RpcError)) (m : Manager)
      (url : String) (active : get_active_endpoint m ≡ some url) where
    pub attempts_returned :
        (v : T)
        → operation attempt url ≡ returned v
        → attempts (suc left) attempt errors m
          ≡ (record_success (clock attempt) (some url) (others attempt m), result v)
    unfolding attempts call_active finish_call
    attempts_returned v at =
        ap (call_active (attempts left (suc attempt)) attempt left errors m) active
        ∙ ap
            (finish_call to_lower_case (attempts left (suc attempt)) (clock attempt) left errors url
              (others attempt m))
            at

    pub attempts_threw :
        (error : Option RpcError)
        → operation attempt url ≡ threw error
        → attempts (suc left) attempt errors m
          ≡ finish_call to_lower_case
              (attempts left (suc attempt))
              (clock attempt)
              left
              errors
              url
              (others attempt m)
              (threw error)
    unfolding attempts call_active
    attempts_threw error at =
        ap (call_active (attempts left (suc attempt)) attempt left errors m) active
        ∙ ap
            (finish_call to_lower_case (attempts left (suc attempt)) (clock attempt) left errors url
              (others attempt m))
            at
