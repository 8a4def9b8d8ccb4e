-- ===== src/RateLimiter/Window.antt =====
-- Counting the times of a sliding window, and what the cleanup of listener/src/api/rate-limiter.ts
-- leaves of them.
use notify_chain.Prelude.{
  ℕ, ◌+◌, ◌≤◌, ◌<◌, ◌≡◌, refl, String, ◌&&◌, none, List, [], ◌∷◌, ◌++◌, arith, if◌then◌else◌, ltb,
  leb, length, string_key,
}
use notify_chain.Prelude.JsMap
use notify_chain.Prelude.JsMap.{JsMap, get-set, set-Distinct}
use notify_chain.RateLimiter.{
  RateLimitConfig, in_window, times_or_none, cleanup_entries, get_client_window_ms,
}

-- The number of times that lie in the window of length `w` that ends at `end`.
unfoldable pub count_in : ℕ → ℕ → List ℕ → ℕ
count_in w end [] = 0
count_in w end (t ∷ ts) = (if leb t end && ltb end (t + w) then 1 else 0) + count_in w end ts

module _ (w : ℕ) where
  pub in_window-again :
      (now n : ℕ) (ts : List ℕ)
      → now ≤ n
      → length (in_window w n (in_window w now ts)) ≡ length (in_window w n ts)
  unfolding in_window
  in_window-again now n [] h = refl
  in_window-again now n (t ∷ ts) h = ground (arith, in_window-again now n ts h)

  pub length-in_window-append :
      (n : ℕ) (xs ys : List ℕ)
      → length (in_window w n (xs ++ ys)) ≡ length (in_window w n xs) + length (in_window w n ys)
  unfolding in_window
  length-in_window-append n [] ys = omega arith
  length-in_window-append n (x ∷ xs) ys = ground (arith, length-in_window-append n xs ys)

  pub count_in-le :
      (now end : ℕ) (ts : List ℕ) → now ≤ end → count_in w end ts ≤ length (in_window w now ts)
  unfolding count_in in_window
  count_in-le now end [] h = omega arith
  count_in-le now end (t ∷ ts) h = ground (arith, count_in-le now end ts h)

  pub count_in-new-le :
      (limit now end : ℕ) (ts : List ℕ)
      → length (in_window w now ts) < limit
      → count_in w end ts ≤ limit
      → count_in w end (now ∷ ts) ≤ limit
  unfolding count_in
  count_in-new-le limit now end ts room h = ground (arith, count_in-le now end ts)

module _ (c : RateLimitConfig) (client : String) where
  abbrev pub window : ℕ
  window = get_client_window_ms c client

  get-cleanup_entries-none :
      (now : ℕ) (m : JsMap String (List ℕ))
      → JsMap.get client m ≡ none
      → JsMap.get client (cleanup_entries c now m) ≡ none
  unfolding cleanup_entries JsMap.get
  get-cleanup_entries-none now [] h = refl
  get-cleanup_entries-none now (e ∷ m) h = ground (arith, get-cleanup_entries-none now m)

  pub timestamps-cleanup_entries :
      (now : ℕ) (m : JsMap String (List ℕ))
      → JsMap.Distinct m
      → times_or_none (JsMap.get client (cleanup_entries c now m))
        ≡ in_window window now (times_or_none (JsMap.get client m))
  unfolding cleanup_entries JsMap.get JsMap.Distinct
  timestamps-cleanup_entries now [] d = refl
  timestamps-cleanup_entries now (e ∷ m) d =
      ground (arith, timestamps-cleanup_entries now m d.1, get-cleanup_entries-none now m)

pub cleanup_entries-Distinct :
    (c : RateLimitConfig) (now : ℕ) (m : JsMap String (List ℕ))
    → JsMap.Distinct m
    → JsMap.Distinct (cleanup_entries c now m)
unfolding cleanup_entries JsMap.Distinct
cleanup_entries-Distinct c now [] d = tt
cleanup_entries-Distinct c now ((k, ts) ∷ m) d =
    ground (arith, cleanup_entries-Distinct c now m d.1, get-cleanup_entries-none c k now m)
