-- ===== src/RpcManager/Switching.antt =====
-- Which endpoint `switchToNextEndpoint` of listener/src/services/stellar-rpc-manager.ts chooses.
use notify_chain.Prelude.{
  ℕ, zero, suc, ◌-◌, ◌≤◌, ◌<◌, ◌≡◌, ◌≢◌, refl, ap, ◌⊎◌, inl, inr, Bool, true, false, Option, none,
  some, List, [], ◌∷◌, map, arith, length, Bool-cases,
}
use notify_chain.RpcManager.{
  Status, healthy, degraded, unhealthy, Endpoint, Manager, is_healthy, is_degraded, endpoint_at,
  update_at, cool_down, check_cooldowns,
}
use notify_chain.RpcManager.Failover.{
  ring_search, passes, degrade, fall_back, choose, pick_next, switch_to_next_endpoint,
}
use notify_chain.RpcManager.Ring.{found_other, finds_other}

-- How well an endpoint serves.
abbrev pub rank : Option Endpoint → ℕ
rank none = 0
rank (some e) = elim e.status [ healthy ↦ 2 | degraded ↦ 1 | unhealthy ↦ 0 ]

pub Status-cases : (s : Status) → (s ≡ healthy) ⊎ (s ≡ degraded) ⊎ (s ≡ unhealthy)
Status-cases healthy = inl refl
Status-cases degraded = inr (inl refl)
Status-cases unhealthy = inr (inr refl)

rank-healthy : (e : Option Endpoint) → passes is_healthy e ≡ true → rank e ≡ 2
rank-healthy none h = absurd (ground arith)
rank-healthy (some e) h = ground (arith, Status-cases e.status)

rank-degraded : (e : Option Endpoint) → passes is_degraded e ≡ true → rank e ≡ 1
rank-degraded none h = absurd (ground arith)
rank-degraded (some e) h = ground (arith, Status-cases e.status)

rank-other :
    (e : Option Endpoint) → passes is_healthy e ≡ false → passes is_degraded e ≡ false → rank e ≡ 0
rank-other none h d = refl
rank-other (some e) h d = ground (arith, Status-cases e.status)

rank-bound : (e : Option Endpoint) → rank e ≤ 2
rank-bound none = omega arith
rank-bound (some e) = ground (arith, Status-cases e.status)

rank-not_healthy : (e : Option Endpoint) → passes is_healthy e ≡ false → rank e ≤ 1
rank-not_healthy none h = omega arith
rank-not_healthy (some e) h = ground (arith, Status-cases e.status)

endpoint_at-update_first :
    (f : Endpoint → Endpoint) (i : ℕ) (es : List Endpoint)
    → endpoint_at (suc i) (update_at 0 f es) ≡ endpoint_at (suc i) es
endpoint_at-update_first f i [] = refl
endpoint_at-update_first f i (e ∷ es) = refl

-- The endpoint at `g` serves no better than the active one.
abbrev pub IsBest : ℕ → Manager → Type 0
IsBest g m = rank (endpoint_at g m.endpoints) ≤ rank (endpoint_at m.active_index m.endpoints)

module _ (now : ℕ) (m : Manager) (g : ℕ) where
  fall_back-IsBest :
      (i : ℕ) → i ≡ g → rank (endpoint_at i m.endpoints) ≡ 0 → IsBest g (fall_back now m)
  unfolding fall_back
  fall_back-IsBest zero same low = ground (
    arith,
    low,
    ap (λ x. endpoint_at x m.endpoints) same,
    ap (λ x. endpoint_at x (update_at 0 degrade m.endpoints)) same,
  )
  fall_back-IsBest (suc i) same low = ground (
    arith,
    low,
    ap (λ x. endpoint_at x m.endpoints) same,
    ap (λ x. endpoint_at x (update_at 0 degrade m.endpoints)) same,
    endpoint_at-update_first degrade i m.endpoints,
  )

  choose-IsBest :
      (first second : Option ℕ)
      → ((j : ℕ) → first ≡ some j → passes is_healthy (endpoint_at j m.endpoints) ≡ true)
      → ((j : ℕ) → second ≡ some j → passes is_degraded (endpoint_at j m.endpoints) ≡ true)
      → (first ≡ none → passes is_healthy (endpoint_at g m.endpoints) ≡ false)
      → (second ≡ none → passes is_degraded (endpoint_at g m.endpoints) ≡ false)
      → IsBest g (choose now m first second)
  unfolding choose
  choose-IsBest (some j) second hf hs nf ns = omega (
    arith,
    rank-healthy (endpoint_at j m.endpoints) (hf j refl),
    rank-bound (endpoint_at g m.endpoints),
  )
  choose-IsBest none (some j) hf hs nf ns = omega (
    arith,
    rank-degraded (endpoint_at j m.endpoints) (hs j refl),
    rank-not_healthy (endpoint_at g m.endpoints) (nf refl),
  )
  choose-IsBest none none hf hs nf ns =
      fall_back-IsBest g refl (rank-other (endpoint_at g m.endpoints) (nf refl) (ns refl))

  module _ (early : m.active_index < length m.endpoints) (small : g < length m.endpoints)
      (other : g ≢ m.active_index) where
    not_found :
        (test : Endpoint → Bool)
        → ring_search test m.endpoints m.active_index 1 (length m.endpoints - 1) ≡ none
        → passes test (endpoint_at g m.endpoints) ≡ false
    not_found test absent = elim (Bool-cases (passes test (endpoint_at g m.endpoints))) [
      | inl passed ↦
          let (j, found) = finds_other test m.endpoints m.active_index early g small other passed in
          absurd (ground (arith, found, absent))
      | inr failed ↦ failed
    ]

    pub pick_next-IsBest : IsBest g (pick_next now m)
    unfolding pick_next
    pick_next-IsBest =
        let others = length m.endpoints - 1 in
        choose-IsBest (ring_search is_healthy m.endpoints m.active_index 1 others)
          (ring_search is_degraded m.endpoints m.active_index 1 others)
          (λ j at. (found_other is_healthy m.endpoints m.active_index early j at).0)
          (λ j at. (found_other is_degraded m.endpoints m.active_index early j at).0)
          (not_found is_healthy) (not_found is_degraded)

pub length-map : (f : Endpoint → Endpoint) (es : List Endpoint) → length (map f es) ≡ length es
length-map f [] = refl
length-map f (e ∷ es) = ap suc (length-map f es)

module _ (now : ℕ) (m : Manager) (early : m.active_index < length m.endpoints) where
  -- After a switch the active endpoint is at least as healthy as each other one that was not active
  -- before, where healthy is above degraded and degraded above unhealthy.
  pub switch_to_next_endpoint-IsBest :
      (g : ℕ)
      → g < length m.endpoints
      → g ≢ m.active_index
      → IsBest g (switch_to_next_endpoint now m)
  unfolding switch_to_next_endpoint check_cooldowns
  switch_to_next_endpoint-IsBest g small other =
      let m' = check_cooldowns now m in
      let same = length-map (cool_down now m.cooldown_ms) m.endpoints in
      let several : 2 ≤ length m.endpoints = omega (arith, early, small, other) in
      ground (
        arith,
        several,
        pick_next-IsBest now m' g (omega (arith, same, early)) (omega (arith, same, small)) other,
      )
