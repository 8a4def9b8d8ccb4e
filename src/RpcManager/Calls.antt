-- ===== src/RpcManager/Calls.antt =====
-- Calls of the manager of listener/src/services/stellar-rpc-manager.ts, in any order.
use package.text.Mathlib.Text.{◌==◌ as str_eq}
use notify_chain.Prelude.{
  ℕ, ◌≡◌, refl, inl, inr, String, false, Option, none, some, List, [], ◌∷◌, arith, Option-cases,
  string_key, ◌∙◌, ◌<◌, length,
}
use notify_chain.Prelude.JsSet
use notify_chain.Prelude.JsSet.{has-add}
use notify_chain.RpcFailure.{RpcError}
use notify_chain.RpcManager.{
  Manager, find_index, new_endpoint, unique_urls, new_manager, record_success, set_active_endpoint,
  renewed, reset,
}
use notify_chain.RpcManager.Failover.{
  switch_to_next_endpoint, record_failure, execute_with_fallback, Answer,
}
use notify_chain.RpcManager.Pool.{
  urls, urls-map, Holds, Holds-with, Holds-range, find_index-range, record_success-Holds,
  record_failure-Holds, switch_to_next_endpoint-Holds,
}
use notify_chain.RpcManager.Urls.{
  first_occurrences, given_urls, unique_urls-has, unique_urls-Distinct, urls-new,
  first_occurrences-given_urls,
}
use notify_chain.RpcManager.Outcomes.{execute_with_fallback-Holds}

pub data Call : Type 0 where
  succeeds : Option String → Call
  fails : String → Option RpcError → Call
  switches resets : Call
  activates : String → Call

-- A call, or an execution of an operation, with the calls that run, each at its time, while an attempt
-- is awaited; what a concurrent execution does to the manager is such calls.
pub data Action : Type 0 where
  calls : Call → Action
  executes : (ℕ → String → Answer (Unit {0})) → (ℕ → List (ℕ × Call)) → (ℕ → ℕ) → Action

abbrev or_same : Manager → Option Manager → Manager
or_same m none = m
or_same m (some m') = m'

module _ (trim to_lower_case : String → String) where
  unfoldable pub call : ℕ → Call → Manager → Manager
  unfolding record_success record_failure switch_to_next_endpoint reset set_active_endpoint
  call now (succeeds url) m = record_success now url m
  call now (fails url error) m = (record_failure now url error m).0
  call now switches m = switch_to_next_endpoint now m
  call now resets m = reset m
  call now (activates url) m = or_same m (set_active_endpoint trim url m)

  unfoldable pub call_all : List (ℕ × Call) → Manager → Manager
  call_all [] m = m
  call_all ((now, c) ∷ cs) m = call_all cs (call now c m)

  unfoldable pub step : ℕ → Action → Manager → Manager
  unfolding execute_with_fallback
  step now (calls c) m = call now c m
  step now (executes operation others clock) m =
      (execute_with_fallback to_lower_case operation (λ attempt. call_all (others attempt)) clock
        m).0

  unfoldable pub run : List (ℕ × Action) → Manager → Manager
  run [] m = m
  run ((now, a) ∷ rest) m = run rest (step now a m)

  module _ (us : List String) where
    set_active_endpoint-Holds :
        (url : String) (m : Manager)
        → Holds us m
        → Holds us (or_same m (set_active_endpoint trim url m))
    unfolding set_active_endpoint
    set_active_endpoint-Holds url m h = elim (Option-cases (find_index (trim url) m.endpoints)) [
      | inl absent ↦ rw absent h
      | inr (i, at) ↦ rw at (
          Holds-with us m (record m { active_index = i }) refl
            (find_index-range (trim url) m.endpoints i at) h)
    ]

    reset-Holds : (m : Manager) → Holds us m → Holds us (reset m)
    unfolding reset renewed
    reset-Holds m h =
        Holds-with us m (reset m) (urls-map renewed (λ e. refl) m.endpoints)
          (omega (arith, Holds-range us m h)) h

    call-Holds : (now : ℕ) (c : Call) (m : Manager) → Holds us m → Holds us (call now c m)
    unfolding call
    call-Holds now (succeeds url) m h = record_success-Holds us now url m h
    call-Holds now (fails url error) m h = record_failure-Holds us now url error m h
    call-Holds now switches m h = switch_to_next_endpoint-Holds us now m h
    call-Holds now resets m h = reset-Holds m h
    call-Holds now (activates url) m h = set_active_endpoint-Holds url m h

    call_all-Holds : (cs : List (ℕ × Call)) (m : Manager) → Holds us m → Holds us (call_all cs m)
    unfolding call_all
    call_all-Holds [] m h = h
    call_all-Holds ((now, c) ∷ cs) m h = call_all-Holds cs (call now c m) (call-Holds now c m h)

    Step-Holds : (now : ℕ) (a : Action) (m : Manager) → Holds us m → Holds us (step now a m)
    unfolding step
    Step-Holds now (calls c) m h = call-Holds now c m h
    Step-Holds now (executes operation others clock) m h =
        execute_with_fallback-Holds to_lower_case operation (λ attempt. call_all (others attempt))
          clock us (λ attempt m' h'. call_all-Holds (others attempt) m' h') m h

    Run-Holds : (actions : List (ℕ × Action)) (m : Manager) → Holds us m → Holds us (run actions m)
    unfolding run
    Run-Holds [] m h = h
    Run-Holds ((now, a) ∷ rest) m h = Run-Holds rest (step now a m) (Step-Holds now a m h)

  -- After any calls and executions, with any calls during their awaits, on a new manager its pool consists of the first occurrences, in order, of the trimmed
  -- primary URL followed by the trimmed fallback URLs that are not empty; the primary URL is not empty,
  -- no URL is in the pool twice, and the active index lies in it.
  pub run-new_manager-Holds :
      (primary_url : String) (fallback_urls : List String)
      (failure_threshold cooldown_ms max_retries : Option ℕ) (m : Manager)
      (actions : List (ℕ × Action))
      → new_manager trim primary_url fallback_urls failure_threshold cooldown_ms max_retries
        ≡ some m
      → (str_eq (trim primary_url) "" ≡ false)
        × (urls (run actions m).endpoints
            ≡ first_occurrences (given_urls trim primary_url fallback_urls))
        × JsSet.Distinct (urls (run actions m).endpoints)
        × ((run actions m).active_index < length (urls (run actions m).endpoints))
  unfolding new_manager new_endpoint JsSet.Distinct JsSet.has
  run-new_manager-Holds primary_url fallback_urls failure_threshold cooldown_ms max_retries m
        actions built =
      let primary = trim primary_url in
      let fallbacks = unique_urls trim (primary ∷ []) fallback_urls in
      let listed : urls m.endpoints ≡ primary ∷ fallbacks =
        ground (arith, built, urls-new false fallbacks) in
      let held = Run-Holds (primary ∷ fallbacks) actions m (record {
        listed = listed;
        distinct = (
          unique_urls-has trim (primary ∷ []) fallback_urls primary (ground arith),
          unique_urls-Distinct trim (primary ∷ []) fallback_urls,
        );
        in_range = ground (arith, built);
      }) in
      (
        ground (arith, built),
        held.listed ∙ first_occurrences-given_urls trim primary_url fallback_urls,
        rw (held.listed) held.distinct,
        rw (held.listed) held.in_range,
      )
