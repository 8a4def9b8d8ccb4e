-- ===== src/RpcManager/Pool.antt =====
-- The pool of listener/src/services/stellar-rpc-manager.ts after any calls: its URLs and the active
-- index.
use native.Mathlib.Nat.{mod-lt}
use notify_chain.Prelude.{
  ℕ, zero, suc, ◌+◌, ◌-◌, ◌%◌, ◌≤◌, ◌<◌, ◌≡◌, refl, ◌∙◌, ap, inl, inr, String, Bool, Option, none,
  some, List, [], ◌∷◌, map, arith, length, Option-cases, string_key,
}
use notify_chain.Prelude.JsSet
use notify_chain.Prelude.JsSet.{has-add}
use notify_chain.RpcFailure.{RpcError}
use notify_chain.RpcManager.{
  Endpoint, Manager, is_healthy, is_degraded, update_at, find_index, cool_down, check_cooldowns,
  succeeded, failed_with, target_of_success, record_success,
}
use notify_chain.RpcManager.Failover.{
  ring_search, oldest_failure, degrade, fall_back, choose, pick_next, switch_to_next_endpoint,
  count_failure, record_failure, fail_over,
}

abbrev pub urls : List Endpoint → List String
urls es = map (λ e. e.url) es

pub length-urls : (es : List Endpoint) → length (urls es) ≡ length es
length-urls [] = refl
length-urls (e ∷ es) = omega (arith, length-urls es)

module _ (f : Endpoint → Endpoint) (same : (e : Endpoint) → (f e).url ≡ e.url) where
  pub urls-update_at : (i : ℕ) (es : List Endpoint) → urls (update_at i f es) ≡ urls es
  urls-update_at i [] = refl
  urls-update_at zero (e ∷ es) = ap (λ u. u ∷ urls es) (same e)
  urls-update_at (suc i) (e ∷ es) = ap (λ us. e.url ∷ us) (urls-update_at i es)

  pub urls-map : (es : List Endpoint) → urls (map f es) ≡ urls es
  urls-map [] = refl
  urls-map (e ∷ es) = rw (urls-map es, same e) refl

-- The pool has the URLs of the other, each once, and its active index lies in it.
pub record Holds (us : List String) (m : Manager) : Type 0 where
  pub listed : urls m.endpoints ≡ us
  pub distinct : JsSet.Distinct us
  pub in_range : m.active_index < length us

module _ (us : List String) where
  -- An operation that keeps the URLs keeps the pool if its active index is in range.
  pub Holds-with :
      (m m' : Manager)
      → urls m'.endpoints ≡ urls m.endpoints
      → m'.active_index < length m.endpoints
      → Holds us m
      → Holds us m'
  Holds-with m m' same early h = record {
    listed = same ∙ h.listed;
    distinct = h.distinct;
    in_range = omega (arith, early, ap length h.listed, length-urls m.endpoints);
  }

  pub Holds-range : (m : Manager) → Holds us m → m.active_index < length m.endpoints
  Holds-range m h = omega (arith, h.in_range, ap length h.listed, length-urls m.endpoints)

  pub check_cooldowns-Holds :
      (now : ℕ) (m : Manager) → Holds us m → Holds us (check_cooldowns now m)
  unfolding check_cooldowns cool_down
  check_cooldowns-Holds now m h =
      Holds-with m (check_cooldowns now m)
        (urls-map (cool_down now m.cooldown_ms) (λ e. ground arith) m.endpoints) (Holds-range m h) h

ring_search-range :
    (test : Endpoint → Bool) (es : List Endpoint) (previous i count j : ℕ)
    → 0 < length es
    → ring_search test es previous i count ≡ some j
    → j < length es
unfolding ring_search
ring_search-range test es previous i zero j room h = absurd (ground arith)
ring_search-range test es previous i (suc count) j room h = ground (
  arith,
  mod-lt (previous + i) {m = length es} room,
  ring_search-range test es previous (suc i) count j room,
)

oldest_failure-range :
    (previous i : ℕ) (oldest : Option ℕ) (index bound : ℕ) (es : List Endpoint)
    → index < bound
    → i + length es ≤ bound
    → oldest_failure previous i oldest index es < bound
unfolding oldest_failure
oldest_failure-range previous i oldest index bound [] early room = early
oldest_failure-range previous i oldest index bound (e ∷ es) early room =
    oldest_failure-range previous (suc i) _ _ bound es (ground arith) (omega (arith, room))

pub find_index-range :
    (url : String) (es : List Endpoint) (i : ℕ) → find_index url es ≡ some i → i < length es
unfolding find_index
find_index-range url [] i h = absurd (ground arith)
find_index-range url (e ∷ es) i h = elim (Option-cases (find_index url es)) [
  | inl absent ↦ ground arith
  | inr (j, later) ↦ ground (arith, find_index-range url es j later)
]

module _ (us : List String) (now : ℕ) where
  fall_back-Holds : (m : Manager) → Holds us m → Holds us (fall_back now m)
  unfolding fall_back
  fall_back-Holds m h =
      let room : 0 < length m.endpoints = omega (arith, Holds-range us m h) in
      let range : oldest_failure m.active_index 0 none ((m.active_index + 1) % length m.endpoints)
            m.endpoints
          < length m.endpoints =
        oldest_failure-range m.active_index 0 none ((m.active_index + 1) % length m.endpoints)
          (length m.endpoints) m.endpoints
          (mod-lt (m.active_index + 1) {m = length m.endpoints} room) (omega arith) in
      Holds-with us m (fall_back now m)
        (ground (arith, urls-update_at degrade (λ e. refl) 0 m.endpoints)) (ground (arith, range)) h

  choose-Holds :
      (m : Manager) (first second : Option ℕ)
      → ((i : ℕ) → first ≡ some i → i < length m.endpoints)
      → ((i : ℕ) → second ≡ some i → i < length m.endpoints)
      → Holds us m
      → Holds us (choose now m first second)
  unfolding choose
  choose-Holds m (some i) second hf hs h =
      Holds-with us m (record m { active_index = i }) refl (hf i refl) h
  choose-Holds m none (some i) hf hs h =
      Holds-with us m (record m { active_index = i }) refl (hs i refl) h
  choose-Holds m none none hf hs h = fall_back-Holds m h

  pick_next-Holds : (m : Manager) → Holds us m → Holds us (pick_next now m)
  unfolding pick_next
  pick_next-Holds m h =
      let others = length m.endpoints - 1 in
      let room : 0 < length m.endpoints = omega (arith, Holds-range us m h) in
      choose-Holds m (ring_search is_healthy m.endpoints m.active_index 1 others)
        (ring_search is_degraded m.endpoints m.active_index 1 others)
        (λ i at. ring_search-range is_healthy m.endpoints m.active_index 1 others i room at)
        (λ i at. ring_search-range is_degraded m.endpoints m.active_index 1 others i room at) h

  pub switch_to_next_endpoint-Holds :
      (m : Manager) → Holds us m → Holds us (switch_to_next_endpoint now m)
  unfolding switch_to_next_endpoint
  switch_to_next_endpoint-Holds m h =
      ground (arith, h, pick_next-Holds (check_cooldowns now m) (check_cooldowns-Holds us now m h))

  count_failure-Holds :
      (url : String) (error : Option RpcError) (m : Manager)
      → Holds us m
      → Holds us (count_failure now url error m)
  unfolding count_failure failed_with
  count_failure-Holds url error m h =
      Holds-with us m (count_failure now url error m)
        (urls-update_at (failed_with now m.failure_threshold error) (λ e. refl) _ m.endpoints)
        (Holds-range us m h) h

  pub record_failure-Holds :
      (url : String) (error : Option RpcError) (m : Manager)
      → Holds us m
      → Holds us (record_failure now url error m).0
  unfolding record_failure
  record_failure-Holds url error m h =
      let counted = count_failure now url error m in
      let kept = count_failure-Holds url error m h in
      ground (arith, kept, switch_to_next_endpoint-Holds counted kept)

  pub fail_over-Holds :
      (url : String) (error : Option RpcError) (m : Manager)
      → Holds us m
      → Holds us (fail_over now url error m)
  unfolding fail_over
  fail_over-Holds url error m h =
      let m' = (record_failure now url error m).0 in
      let kept = record_failure-Holds url error m h in
      ground (arith, kept, switch_to_next_endpoint-Holds m' kept)

  pub record_success-Holds :
      (url : Option String) (m : Manager) → Holds us m → Holds us (record_success now url m)
  unfolding record_success succeeded
  record_success-Holds url m h = elim (Option-cases (target_of_success url m)) [
    | inl absent ↦ rw absent h
    | inr (i, at) ↦ rw at (
        Holds-with us m (record m { endpoints = update_at i (succeeded now) m.endpoints })
          (urls-update_at (succeeded now) (λ e. refl) i m.endpoints) (Holds-range us m h) h)
  ]
