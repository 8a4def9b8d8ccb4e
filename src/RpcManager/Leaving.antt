-- ===== src/RpcManager/Leaving.antt =====
-- `switchToNextEndpoint` of listener/src/services/stellar-rpc-manager.ts and the endpoint it leaves.
use notify_chain.Prelude.{
  ℕ, zero, suc, ◌+◌, ◌-◌, ◌%◌, ◌≤◌, ◌<◌, ◌≡◌, ◌≢◌, refl, sym, ◌∙◌, ap, ◌⊎◌, inl, inr, false, Option,
  none, some, List, [], ◌∷◌, map, arith, length,
}
use notify_chain.RpcManager.{
  Endpoint, Manager, is_healthy, is_degraded, endpoint_at, is_cooled, cool_down, check_cooldowns,
}
use notify_chain.RpcManager.Failover.{
  ring_search, oldest_failure, primary_failure, fall_back, choose, pick_next,
  switch_to_next_endpoint,
}
use notify_chain.RpcManager.Ring.{found_other, ring_other}
use notify_chain.RpcManager.Switching.{length-map}

oldest_failure-other :
    (previous i : ℕ) (oldest : Option ℕ) (index : ℕ) (es : List Endpoint)
    → index ≢ previous
    → oldest_failure previous i oldest index es ≢ previous
unfolding oldest_failure
oldest_failure-other previous i oldest index [] other = other
oldest_failure-other previous i oldest index (e ∷ es) other =
    oldest_failure-other previous (suc i) _ _ es (ground arith)

-- The last failure of the active endpoint.
abbrev pub failure_of : Option Endpoint → Option ℕ
failure_of none = none
failure_of (some e) = e.last_failure_time

module _ (now : ℕ) (m : Manager) (early : m.active_index < length m.endpoints) where
  primary_failure-cooled :
      (es : List Endpoint)
      → primary_failure (map (cool_down now m.cooldown_ms) es) ≡ failure_of (endpoint_at 0 es)
  unfolding cool_down
  primary_failure-cooled [] = refl
  primary_failure-cooled (e ∷ es) = ground arith

  module _ (several : 2 ≤ length m.endpoints)
      (recent : is_cooled now m.cooldown_ms (primary_failure m.endpoints) ≡ false
        ⊎ m.active_index ≢ 0) where
    fall_back-moves : (fall_back now m).active_index ≢ m.active_index
    unfolding fall_back
    fall_back-moves =
        let next = (m.active_index + 1) % length m.endpoints in
        let moved =
          ring_other (length m.endpoints) m.active_index early 1 (omega arith)
            (omega (arith, several)) in
        let oldest = oldest_failure-other m.active_index 0 none next m.endpoints moved in
        ground (arith, oldest, recent)

    choose-moves :
        (first second : Option ℕ)
        → ((j : ℕ) → first ≡ some j → j ≢ m.active_index)
        → ((j : ℕ) → second ≡ some j → j ≢ m.active_index)
        → (choose now m first second).active_index ≢ m.active_index
    unfolding choose
    choose-moves (some j) second hf hs = hf j refl
    choose-moves none (some j) hf hs = hs j refl
    choose-moves none none hf hs = fall_back-moves

    pick_next-moves : (pick_next now m).active_index ≢ m.active_index
    unfolding pick_next
    pick_next-moves =
        let others = length m.endpoints - 1 in
        choose-moves (ring_search is_healthy m.endpoints m.active_index 1 others)
          (ring_search is_degraded m.endpoints m.active_index 1 others)
          (λ j at. (found_other is_healthy m.endpoints m.active_index early j at).1)
          (λ j at. (found_other is_degraded m.endpoints m.active_index early j at).1)

dec_first : (i : ℕ) → (i ≡ 0) ⊎ (i ≢ 0)
dec_first zero = inl refl
dec_first (suc i) = inr (λ same. omega (arith, same))

module _ (now : ℕ) (m : Manager) (early : m.active_index < length m.endpoints) where
  -- A switch of a manager with several endpoints, whose active index lies in the pool, leaves the active
  -- endpoint, unless this has failed and its last failure is at least as long ago as the cooldown.
  pub switch_to_next_endpoint-moves :
      2 ≤ length m.endpoints
      → is_cooled now m.cooldown_ms (failure_of (endpoint_at m.active_index m.endpoints)) ≡ false
      → (switch_to_next_endpoint now m).active_index ≢ m.active_index
  unfolding switch_to_next_endpoint check_cooldowns
  switch_to_next_endpoint-moves several recent =
      let m' = check_cooldowns now m in
      let same = length-map (cool_down now m.cooldown_ms) m.endpoints in
      let primary = primary_failure-cooled now m early m.endpoints in
      let recent' : (is_cooled now m.cooldown_ms (primary_failure m'.endpoints) ≡ false)
          ⊎ (m.active_index ≢ 0) =
        elim (dec_first m.active_index) [
          | inl zero_index ↦ inl (
              ap (is_cooled now m.cooldown_ms)
                (primary ∙ ap (λ i. failure_of (endpoint_at i m.endpoints)) (sym zero_index))
              ∙ recent)
          | inr later ↦ inr later
        ] in
      let moves =
        pick_next-moves now m' (omega (arith, same, early)) (omega (arith, same, several))
          recent' in
      ground (arith, moves, several)
