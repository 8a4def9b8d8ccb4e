-- ===== src/RpcManager/Health.antt =====
-- Endpoints of the pool of listener/src/services/stellar-rpc-manager.ts, by place, URL and health.
use package.text.Mathlib.TextEquality.{eq_iff}
use notify_chain.Prelude.{
  ℕ, zero, suc, ◌+◌, ◌≤◌, ◌<◌, ◌≡◌, ◌≢◌, refl, ap, Bool, true, false, some, List, [], ◌∷◌, map,
  arith, length, string_key,
}
use notify_chain.Prelude.Count.{indicator}
use notify_chain.Prelude.JsSet
use notify_chain.RpcManager.{Endpoint, is_healthy, endpoint_at, update_at, find_index}
use notify_chain.RpcManager.Failover.{passes}
use notify_chain.RpcManager.Pool.{urls}

-- How many endpoints are healthy.
abbrev pub healthy_count : List Endpoint → ℕ
healthy_count [] = 0
healthy_count (e ∷ es) = indicator (is_healthy e) + healthy_count es

pub healthy_count-positive :
    (i : ℕ) (es : List Endpoint)
    → passes is_healthy (endpoint_at i es) ≡ true
    → 1 ≤ healthy_count es
healthy_count-positive i [] h = absurd (ground arith)
healthy_count-positive zero (e ∷ es) h = ground arith
healthy_count-positive (suc i) (e ∷ es) h = omega (arith, healthy_count-positive i es h)

pub healthy_count-map :
    (f : Endpoint → Endpoint) (es : List Endpoint)
    → ((e : Endpoint) → is_healthy (f e) ≡ is_healthy e)
    → healthy_count (map f es) ≡ healthy_count es
healthy_count-map f [] same = refl
healthy_count-map f (e ∷ es) same =
    omega (arith, ap indicator (same e), healthy_count-map f es same)

pub healthy_count-update_at :
    (i : ℕ) (f : Endpoint → Endpoint) (es : List Endpoint)
    → passes is_healthy (endpoint_at i es) ≡ true
    → ((e : Endpoint) → is_healthy (f e) ≡ false)
    → suc (healthy_count (update_at i f es)) ≡ healthy_count es
healthy_count-update_at i f [] h ill = absurd (ground arith)
healthy_count-update_at zero f (e ∷ es) h ill = omega (arith, ap indicator h, ap indicator (ill e))
healthy_count-update_at (suc i) f (e ∷ es) h ill =
    omega (arith, healthy_count-update_at i f es h ill)

pub length-update_at :
    (i : ℕ) (f : Endpoint → Endpoint) (es : List Endpoint) → length (update_at i f es) ≡ length es
length-update_at i f [] = refl
length-update_at zero f (e ∷ es) = refl
length-update_at (suc i) f (e ∷ es) = ap suc (length-update_at i f es)

module _ (test : Endpoint → Bool) where
  pub passes-range :
      (i : ℕ) (es : List Endpoint) → passes test (endpoint_at i es) ≡ true → i < length es
  passes-range i [] h = absurd (ground arith)
  passes-range zero (e ∷ es) h = omega arith
  passes-range (suc i) (e ∷ es) h = omega (arith, passes-range i es h)

  pub passes-map :
      (f : Endpoint → Endpoint) (i : ℕ) (es : List Endpoint)
      → ((e : Endpoint) → test (f e) ≡ test e)
      → passes test (endpoint_at i (map f es)) ≡ passes test (endpoint_at i es)
  passes-map f i [] same = refl
  passes-map f zero (e ∷ es) same = same e
  passes-map f (suc i) (e ∷ es) same = passes-map f i es same

pub endpoint_at-update_at :
    (i j : ℕ) (f : Endpoint → Endpoint) (es : List Endpoint)
    → j ≢ i
    → endpoint_at j (update_at i f es) ≡ endpoint_at j es
endpoint_at-update_at i j f [] other = refl
endpoint_at-update_at zero zero f (e ∷ es) other = absurd (other refl)
endpoint_at-update_at zero (suc j) f (e ∷ es) other = refl
endpoint_at-update_at (suc i) zero f (e ∷ es) other = refl
endpoint_at-update_at (suc i) (suc j) f (e ∷ es) other =
    endpoint_at-update_at i j f es (λ same. other (ap suc same))

pub has-urls :
    (i : ℕ) (es : List Endpoint) (e : Endpoint)
    → endpoint_at i es ≡ some e
    → JsSet.has e.url (urls es) ≡ true
unfolding JsSet.has
has-urls i [] e at = absurd (ground arith)
has-urls zero (d ∷ es) e at = ground arith
has-urls (suc i) (d ∷ es) e at = ground (arith, has-urls i es e at)

-- In a pool without repetition an endpoint is found by its URL.
pub find_index-endpoint_at :
    (i : ℕ) (es : List Endpoint) (e : Endpoint)
    → JsSet.Distinct (urls es)
    → endpoint_at i es ≡ some e
    → find_index e.url es ≡ some i
unfolding find_index JsSet.Distinct
find_index-endpoint_at i [] e d at = absurd (ground arith)
find_index-endpoint_at zero (x ∷ es) e d at = ground (arith, (eq_iff x.url e.url).1)
find_index-endpoint_at (suc i) (x ∷ es) e d at = ground (
  arith,
  find_index-endpoint_at i es e d.1 at,
  (eq_iff x.url e.url).0,
  ap (λ u. JsSet.has u (urls es)),
  has-urls i es e at,
  d.0,
)
