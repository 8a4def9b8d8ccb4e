-- ===== src/RpcManager/Outcomes.antt =====
-- How `executeWithFallback` of listener/src/services/stellar-rpc-manager.ts ends.
use notify_chain.Prelude.{
  ℕ, zero, suc, ◌+◌, ◌≤◌, ◌<◌, ◌≡◌, refl, ◌⊎◌, inl, inr, min, max, String, true, false, Option,
  some, List, [], ◌∷◌, ◌++◌, arith, length, length-append, All, All-append, Bool-cases,
}
use notify_chain.RpcFailure.{RpcError, is_rpc_failure_condition}
use notify_chain.RpcManager.{Endpoint, Manager, endpoint_at, get_active_endpoint}
use notify_chain.RpcManager.Failover.{
  fail_over, finish_call, attempts, attempts_returned, attempts_threw, execute_with_fallback,
  Answer, returned, threw, Execution, result, rethrown, all_failed, broken,
}
use notify_chain.RpcManager.Pool.{
  Holds, record_failure-Holds, record_success-Holds, fail_over-Holds, Holds-range,
}

endpoint_at-some :
    (i : ℕ) (es : List Endpoint) → i < length es → (e : Endpoint) × (endpoint_at i es ≡ some e)
endpoint_at-some i [] h = absurd (omega (arith, h))
endpoint_at-some zero (e ∷ es) h = (e, refl)
endpoint_at-some (suc i) (e ∷ es) h = endpoint_at-some i es (omega (arith, h))

pub active-Holds :
    (us : List String) (m : Manager)
    → Holds us m
    → (url : String) × (get_active_endpoint m ≡ some url)
unfolding get_active_endpoint
active-Holds us m h =
    let (e, at) = endpoint_at-some m.active_index m.endpoints (Holds-range us m h) in
    (e.url, rw at refl)

Answer-cases :
    {T : Type 0} (a : Answer T)
    → ((v : T) × (a ≡ returned v)) ⊎ ((error : Option RpcError) × (a ≡ threw error))
Answer-cases (returned v) = inl (v, refl)
Answer-cases (threw error) = inr (error, refl)

module _ {T : Type 0} (to_lower_case : String → String) (operation : ℕ → String → Answer T) where
  abbrev pub Unavailable : String × Option RpcError → Type 0
  Unavailable (url, error) = is_rpc_failure_condition to_lower_case error ≡ true

  -- What an ending says about the calls: a result and a rethrown error are those of a call among the
  -- first `budget`, and a summary is that of at least one failed call and at most `budget`.
  abbrev pub Explains : ℕ → Execution T → Type 0
  Explains budget (result v) =
      (attempt : ℕ) × (url : String) × (attempt ≤ budget) × (operation attempt url ≡ returned v)
  Explains budget (rethrown error) =
      (attempt : ℕ) × (url : String) × (attempt ≤ budget)
      × (operation attempt url ≡ threw error)
      × (is_rpc_failure_condition to_lower_case error ≡ false)
  Explains budget (all_failed errors) =
      (1 ≤ length errors) × (length errors ≤ budget) × All Unavailable errors
  Explains budget broken = ⊥

module _ {T : Type 0} (to_lower_case : String → String) (operation : ℕ → String → Answer T)
    (others : ℕ → Manager → Manager) (clock : ℕ → ℕ) (us : List String)
    (kept : (attempt : ℕ) (m : Manager) → Holds us m → Holds us (others attempt m)) where
  attempts-Holds :
      (left attempt : ℕ) (errors : List (String × Option RpcError)) (m : Manager)
      → Holds us m
      → Holds us (attempts to_lower_case operation others clock left attempt errors m).0
  unfolding attempts finish_call
  attempts-Holds zero attempt errors m h = h
  attempts-Holds (suc left) attempt errors m h =
      let (url, active) = active-Holds us m h in
      elim (Answer-cases (operation attempt url)) [
        | inl (v, at) ↦
            rw
              (attempts_returned to_lower_case operation others clock left attempt errors m url
                active v at)
              (record_success-Holds us (clock attempt) (some url) (others attempt m)
                (kept attempt m h))
        | inr (error, at) ↦
            let m' = others attempt m in
            let h' = kept attempt m h in
            let rest =
              attempts-Holds left (suc attempt) (errors ++ (url, error) ∷ [])
                (fail_over (clock attempt) url error m')
                (fail_over-Holds us (clock attempt) url error m' h') in
            rw
              (attempts_threw to_lower_case operation others clock left attempt errors m url active
                error at)
              (ground (arith, h', rest, record_failure-Holds us (clock attempt) url error m' h'))
      ]

  pub execute_with_fallback-Holds :
      (m : Manager)
      → Holds us m
      → Holds us (execute_with_fallback to_lower_case operation others clock m).0
  unfolding execute_with_fallback
  execute_with_fallback-Holds m h =
      attempts-Holds (max 1 (min m.max_retries (length m.endpoints))) 1 [] m h

  attempts-Explains :
      (budget left attempt : ℕ) (errors : List (String × Option RpcError)) (m : Manager)
      → Holds us m
      → suc (length errors) ≡ attempt
      → length errors + left ≡ budget
      → All (Unavailable to_lower_case operation) errors
      → 1 ≤ length errors + left
      → Explains to_lower_case operation budget
          (attempts to_lower_case operation others clock left attempt errors m).1
  unfolding attempts finish_call
  attempts-Explains budget zero attempt errors m h next total listed some_call =
      (omega (arith, some_call), omega (arith, total), listed)
  attempts-Explains budget (suc left) attempt errors m h next total listed some_call =
      let (url, active) = active-Holds us m h in
      elim (Answer-cases (operation attempt url)) [
        | inl (v, at) ↦
            rw
              (attempts_returned to_lower_case operation others clock left attempt errors m url
                active v at)
              (attempt, url, omega (arith, next, total), at)
        | inr (error, at) ↦
            let errors' = errors ++ (url, error) ∷ [] in
            let longer = length-append errors ((url, error) ∷ []) in
            elim (Bool-cases (is_rpc_failure_condition to_lower_case error)) [
              | inl unavailable ↦
                  let listed' : All (Unavailable to_lower_case operation) errors' =
                    All-append (Unavailable to_lower_case operation) errors ((url, error) ∷ [])
                      listed (unavailable, tt) in
                  let rest =
                    attempts-Explains budget left (suc attempt) errors'
                      (fail_over (clock attempt) url error (others attempt m))
                      (fail_over-Holds us (clock attempt) url error (others attempt m)
                        (kept attempt m h))
                      (omega (arith, longer, next)) (omega (arith, longer, total)) listed'
                      (omega (arith, longer)) in
                  rw
                    (attempts_threw to_lower_case operation others clock left attempt errors m url
                      active error at)
                    (ground (arith, rest, longer, listed', unavailable))
              | inr client ↦
                  rw
                    (attempts_threw to_lower_case operation others clock left attempt errors m url
                      active error at)
                    (rw client (attempt, url, omega (arith, next, total), at, client))
            ]
      ]

  -- Over a pool that holds together, and that whatever runs while the execution awaits its calls keeps
  -- so, the execution ends with the result of a call, with the error of a
  -- call that tells no outage, or with a list of outages, at least one; the number of that call and the
  -- length of that list are at most the smaller of the endpoints and the allowed retries, or one.
  pub execute_with_fallback_outcome :
      (m : Manager)
      → Holds us m
      → Explains to_lower_case operation
          (max 1 (min m.max_retries (length m.endpoints)))
          (execute_with_fallback to_lower_case operation others clock m).1
  unfolding execute_with_fallback
  execute_with_fallback_outcome m h =
      let budget = max 1 (min m.max_retries (length m.endpoints)) in
      attempts-Explains budget budget 1 [] m h refl (omega arith) tt (omega arith)
