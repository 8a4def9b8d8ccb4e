-- ===== src/RpcManager/Serving.antt =====
-- When `executeWithFallback` of listener/src/services/stellar-rpc-manager.ts finds an endpoint that
-- serves.
use package.text.Mathlib.Text.{◌==◌ as str_eq}
use package.text.Mathlib.TextEquality.{eq_iff}
use notify_chain.Prelude.{
  ℕ, zero, suc, ◌≤◌, ◌<◌, ◌≡◌, ◌≢◌, refl, sym, ◌∙◌, ap, ◌⊎◌, inl, inr, min, max, String, Bool, true,
  false, ◌&&◌, Option, some, List, [], ◌∷◌, ◌++◌, map, arith, length, Option-cases, string_key,
}
use notify_chain.RpcFailure.{RpcError, is_rpc_failure_condition}
use notify_chain.RpcManager.{
  Endpoint, Manager, is_healthy, endpoint_at, update_at, find_index, get_active_endpoint, cool_down,
  check_cooldowns, failed_with,
}
use notify_chain.RpcManager.Failover.{
  passes, choose, pick_next, switch_to_next_endpoint, count_failure, record_failure, fail_over,
  finish_call, attempts, attempts_returned, attempts_threw, execute_with_fallback, Answer, returned,
  threw, result,
}
use notify_chain.RpcManager.Pool.{Holds, Holds-range, fail_over-Holds}
use notify_chain.RpcManager.Ring.{found_other, finds_other}
use notify_chain.RpcManager.Switching.{length-map, Status-cases}
use notify_chain.RpcManager.Health.{
  healthy_count, healthy_count-positive, healthy_count-map, healthy_count-update_at,
  length-update_at, passes-range, passes-map, endpoint_at-update_at, find_index-endpoint_at,
}

abbrev pub is_good : String → Endpoint → Bool
is_good good e = is_healthy e && str_eq e.url good

-- A switch finds the next healthy endpoint if there is another one.
pick_next-healthy :
    (now : ℕ) (m : Manager) (g : ℕ)
    → m.active_index < length m.endpoints
    → g < length m.endpoints
    → g ≢ m.active_index
    → passes is_healthy (endpoint_at g m.endpoints) ≡ true
    → (j : ℕ) × (pick_next now m ≡ record m { active_index = j })
      × (passes is_healthy (endpoint_at j m.endpoints) ≡ true)
unfolding pick_next choose
pick_next-healthy now m g early small other well =
    let (j, found) = finds_other is_healthy m.endpoints m.active_index early g small other well in
    (j, ground (arith, found), (found_other is_healthy m.endpoints m.active_index early j found).0)

-- A failed call of the active endpoint leads to one switch, after the failure was counted.
fail_over-switch :
    (now : ℕ) (url : String) (error : Option RpcError) (m : Manager)
    → fail_over now url error m ≡ switch_to_next_endpoint now (count_failure now url error m)
unfolding fail_over record_failure
fail_over-switch now url error m = ground arith

module _ (good : String) (us : List String) where
  -- The pool is whole, its active endpoint is healthy, and so is the good one, at place `g`; and no
  -- more endpoints are healthy than `left`.
  pub record IsReady (left g : ℕ) (m : Manager) : Type 0 where
    pub holds : Holds us m
    pub active_healthy : passes is_healthy (endpoint_at m.active_index m.endpoints) ≡ true
    pub good_healthy : passes (is_good good) (endpoint_at g m.endpoints) ≡ true
    pub few : healthy_count m.endpoints ≤ left

  passes-healthy :
      (i : ℕ) (es : List Endpoint)
      → passes (is_good good) (endpoint_at i es) ≡ true
      → passes is_healthy (endpoint_at i es) ≡ true
  passes-healthy i es h = elim (Option-cases (endpoint_at i es)) [
    | inl absent ↦ absurd (ground (arith, absent))
    | inr (e, at) ↦ ground (arith, at)
  ]

  cool_down-healthy :
      (now cooldown_ms : ℕ) (e : Endpoint) → is_healthy (cool_down now cooldown_ms e) ≡ is_healthy e
  unfolding cool_down
  cool_down-healthy now cooldown_ms e = ground (arith, Status-cases e.status)

  cool_down-good :
      (now cooldown_ms : ℕ) (e : Endpoint)
      → is_good good (cool_down now cooldown_ms e) ≡ is_good good e
  unfolding cool_down
  cool_down-good now cooldown_ms e = ground (arith, Status-cases e.status)

  failed_with-ill :
      (now threshold : ℕ) (error : Option RpcError) (e : Endpoint)
      → is_healthy (failed_with now threshold error e) ≡ false
  unfolding failed_with
  failed_with-ill now threshold error e = ground arith

  module _ (now left g : ℕ) (m : Manager) (url : String) (error : Option RpcError)
      (found : find_index url m.endpoints ≡ some m.active_index) (other : g ≢ m.active_index)
      (r : IsReady (suc left) g m) where
    abbrev failing : List Endpoint
    failing = update_at m.active_index (failed_with now m.failure_threshold error) m.endpoints

    abbrev counted : Manager
    counted = record m { endpoints = failing }

    counted-eq : count_failure now url error m ≡ counted
    unfolding count_failure
    counted-eq = ground (arith, found)

    abbrev cooled : Manager
    cooled = record m { endpoints = map (cool_down now m.cooldown_ms) failing }

    cooled-length : length cooled.endpoints ≡ length m.endpoints
    cooled-length =
        length-map (cool_down now m.cooldown_ms) failing
        ∙ length-update_at m.active_index (failed_with now m.failure_threshold error) m.endpoints

    cooled-good : passes (is_good good) (endpoint_at g cooled.endpoints) ≡ true
    cooled-good =
        passes-map (is_good good) (cool_down now m.cooldown_ms) g failing
          (cool_down-good now m.cooldown_ms)
        ∙ ap (passes (is_good good)) (
            endpoint_at-update_at m.active_index g (failed_with now m.failure_threshold error)
              m.endpoints other)
        ∙ r.good_healthy

    cooled-count : suc (healthy_count cooled.endpoints) ≡ healthy_count m.endpoints
    cooled-count =
        ap suc (
          healthy_count-map (cool_down now m.cooldown_ms) failing
            (cool_down-healthy now m.cooldown_ms))
        ∙ healthy_count-update_at m.active_index (failed_with now m.failure_threshold error)
            m.endpoints r.active_healthy (failed_with-ill now m.failure_threshold error)

    fail_over-IsReady :
        IsReady left g (fail_over now url error m) × (1 ≤ left) × (2 ≤ length m.endpoints)
    unfolding switch_to_next_endpoint check_cooldowns
    fail_over-IsReady =
        let early = Holds-range us m r.holds in
        let small = passes-range (is_good good) g m.endpoints r.good_healthy in
        let several : 2 ≤ length m.endpoints = omega (arith, early, small, other) in
        let well = passes-healthy g cooled.endpoints cooled-good in
        let positive = healthy_count-positive g cooled.endpoints well in
        let (j, picked, healthy_there) =
          pick_next-healthy now cooled g (omega (arith, cooled-length, early))
            (omega (arith, cooled-length, small)) other well in
        let same_length =
          length-update_at m.active_index (failed_with now m.failure_threshold error) m.endpoints in
        let switched : switch_to_next_endpoint now counted ≡ record cooled { active_index = j } =
          ground (arith, several, picked, same_length) in
        let next : fail_over now url error m ≡ record cooled { active_index = j } =
          fail_over-switch now url error m
          ∙ ap (switch_to_next_endpoint now) counted-eq
          ∙ switched in
        (
          record {
            holds = fail_over-Holds us now url error m r.holds;
            active_healthy = rw next healthy_there;
            good_healthy = rw next cooled-good;
            few = rw next (omega (arith, cooled-count, r.few));
          },
          omega (arith, cooled-count, r.few, positive),
          several,
        )

  good-other :
      (left g : ℕ) (m : Manager) (e : Endpoint)
      → IsReady left g m
      → endpoint_at m.active_index m.endpoints ≡ some e
      → e.url ≢ good
      → g ≢ m.active_index
  good-other left g m e r at bad same =
      let there : passes (is_good good) (some e) ≡ true =
        sym (ap (passes (is_good good)) at)
        ∙ ap (λ i. passes (is_good good) (endpoint_at i m.endpoints)) (sym same)
        ∙ r.good_healthy in
      bad ((eq_iff e.url good).0 (ground (arith, there)))

-- Every call returns or fails with an outage, and at the good URL it returns.
abbrev pub Serves : {T : Type 0} → (String → String) → (ℕ → String → Answer T) → String → Type 0
Serves {T = T} to_lower_case operation good =
    (attempt : ℕ) (url : String)
    → ((v : T) × (operation attempt url ≡ returned v))
      ⊎ ((url ≢ good)
          × ((error : Option RpcError) × (operation attempt url ≡ threw error)
              × (is_rpc_failure_condition to_lower_case error ≡ true)))

-- Nothing else changes the manager while an attempt awaits its call.
abbrev pub alone : ℕ → Manager → Manager
alone attempt m = m

module _ {T : Type 0} (to_lower_case : String → String) (operation : ℕ → String → Answer T)
    (clock : ℕ → ℕ) (us : List String) (good : String)
    (serves : Serves to_lower_case operation good) where
  attempts_serve :
      (left attempt g : ℕ) (errors : List (String × Option RpcError)) (m : Manager)
      → IsReady good us left g m
      → (v : T) × ((attempts to_lower_case operation alone clock left attempt errors m).1
          ≡ result v)
  unfolding get_active_endpoint finish_call
  attempts_serve zero attempt g errors m r =
      absurd
        (omega (arith, r.few, healthy_count-positive m.active_index m.endpoints r.active_healthy))
  attempts_serve (suc left) attempt g errors m r =
      elim (Option-cases (endpoint_at m.active_index m.endpoints)) [
        | inl absent ↦ absurd (ground (arith, absent, r.active_healthy))
        | inr (e, at) ↦
            let active : get_active_endpoint m ≡ some e.url = rw at refl in
            elim (serves attempt e.url) [
              | inl (v, back) ↦ (
                v,
                ap (λ x. x.1)
                    (attempts_returned to_lower_case operation alone clock left attempt errors m
                      e.url active v back),
              )
              | inr (bad, (error, thrown, unavailable)) ↦
                  let found =
                    find_index-endpoint_at m.active_index m.endpoints e
                      (rw r.holds.listed r.holds.distinct) at in
                  let other = good-other good us (suc left) g m e r at bad in
                  let (ready, more, several) =
                    fail_over-IsReady good us (clock attempt) left g m e.url error found other r in
                  let (v, served) =
                    attempts_serve left (suc attempt) g (errors ++ (e.url, error) ∷ [])
                      (fail_over (clock attempt) e.url error m) ready in
                  (
                    v,
                    rw
                        (attempts_threw to_lower_case operation alone clock left attempt errors m
                          e.url active error thrown)
                        (ground (arith, unavailable, more, several, served)),
                  )
            ]
      ]

  -- An execution during whose awaits nothing else changes the manager ends with a result if every call either returns or fails with an outage, calls at
  -- one URL of the pool always return, that endpoint and the active one are healthy at the start, and
  -- the allowed attempts are at least as many as the healthy endpoints.
  pub execute_with_fallback_serves :
      (m : Manager) (g : ℕ)
      → IsReady good us (max 1 (min m.max_retries (length m.endpoints))) g m
      → (v : T) × ((execute_with_fallback to_lower_case operation alone clock m).1 ≡ result v)
  unfolding execute_with_fallback
  execute_with_fallback_serves m g r =
      attempts_serve (max 1 (min m.max_retries (length m.endpoints))) 1 g [] m r
