-- ===== src/RateLimiter/RetryAfter.antt =====
-- The `Retry-After` header of listener/src/api/rate-limiter.ts.
use notify_chain.Prelude.{
  ℕ, ◌+◌, ◌-◌, ◌*◌, ◌≤◌, ◌<◌, ◌≡◌, String, true, some, List, [], ◌∷◌, ◌++◌, arith, ltb, leb, length,
  length-filter-le, length-append, string_key, ◌≢◌, All, ap, ◌∙◌, subst,
}
use notify_chain.Prelude.JsMap
use notify_chain.Prelude.JsMap.{get-set}
use notify_chain.RateLimiter.{
  RateLimiter, RateLimitConfig, in_window, timestamps, handle_client, handle_identified,
  lets_through, retry_after, cleanup_cache, ceil_sec, first_or, get_client_window_ms,
  get_client_max_requests,
}
use notify_chain.RateLimiter.Window.{
  in_window-again, window, timestamps-cleanup_entries, cleanup_entries-Distinct,
}
use notify_chain.RateLimiter.Limits.{
  Event, requests, cleans, Traced, step, run, new, handle_identified-Distinct,
  timestamps-handle_identified_other,
}

length-in_window-le : (w now : ℕ) (ts : List ℕ) → length (in_window w now ts) ≤ length ts
unfolding in_window
length-in_window-le w now ts = length-filter-le (λ t. ltb now (t + w)) ts

-- Once the first of the counted times has left the window, fewer are counted.
length-in_window-later :
    (w later : ℕ) (t : ℕ) (ts : List ℕ)
    → t + w ≤ later
    → length (in_window w later (t ∷ ts)) ≤ length ts
unfolding in_window
length-in_window-later w later t ts h = ground (arith, length-in_window-le w later ts)

waits_enough :
    (w now : ℕ) (valid : List ℕ)
    → 0 < length valid
    → (later : ℕ) → now + 1000 * ceil_sec (first_or now valid + w - now) ≤ later
    → length (in_window w later valid) < length valid
waits_enough w now [] h later waited = absurd (omega arith)
waits_enough w now (t ∷ ts) h later waited =
    omega (arith, length-in_window-later w later t ts (omega arith))

-- Times that a window has dropped are not counted in another.
length-in_window_dropped-le :
    (w n later : ℕ) (ts : List ℕ)
    → length (in_window w later (in_window w n ts)) ≤ length (in_window w later ts)
unfolding in_window
length-in_window_dropped-le w n later [] = omega arith
length-in_window_dropped-le w n later (t ∷ ts) =
    ground (arith, length-in_window_dropped-le w n later ts)

module _ (c : RateLimitConfig) (now : ℕ) (client : String) (r : RateLimiter) where
  -- A request of a client, of whom the cache holds no more times than its limit, keeps it so.
  timestamps-handle_client-le :
      length (timestamps client r) ≤ get_client_max_requests c client
      → length (timestamps client (handle_client c now client r).0)
        ≤ get_client_max_requests c client
  unfolding timestamps handle_client
  timestamps-handle_client-le h =
      let valid = in_window (get_client_window_ms c client) now (timestamps client r) in
      ground
        (arith, get-set client client (valid ++ now ∷ []) r.cache, length-append valid (now ∷ []))

  abbrev valid_now : List ℕ
  valid_now = in_window (get_client_window_ms c client) now (timestamps client r)

  blocked_inv :
      (wait : ℕ)
      → (handle_client c now client r).1.retry_after_sec ≡ some wait
      → (leb (get_client_max_requests c client) (length valid_now) ≡ true)
        × (wait ≡ ceil_sec (first_or now valid_now + get_client_window_ms c client - now))
        × (timestamps client (handle_client c now client r).0 ≡ timestamps client r)
  unfolding handle_client timestamps
  blocked_inv wait e = ground arith

  allowed_of_room :
      (later : ℕ) (r' : RateLimiter)
      → length (in_window (get_client_window_ms c client) later (timestamps client r'))
        < get_client_max_requests c client
      → (handle_client c later client r').1.allowed ≡ true
  unfolding handle_client
  allowed_of_room later r' h = ground arith

module _ (c : RateLimitConfig) (client : String) where
  -- The cache names no client twice, and holds no more times of the client than its limit.
  record IsFilled (r : RateLimiter) : Type 0 where
    distinct : JsMap.Distinct r.cache
    few : length (timestamps client r) ≤ get_client_max_requests c client

  -- The same, and it counts no more times of the client than `ts` in any window.
  record IsWithin (ts : List ℕ) (r : RateLimiter) : Type 0 where
    distinct : JsMap.Distinct r.cache
    fewer :
        (later : ℕ)
        → length (in_window (window c client) later (timestamps client r))
          ≤ length (in_window (window c client) later ts)

  own-few :
      (now : ℕ) (r : RateLimiter)
      → length (timestamps client r) ≤ get_client_max_requests c client
      → length (timestamps client (handle_identified c now client r).0)
        ≤ get_client_max_requests c client
  unfolding handle_identified
  own-few now r h = ground (arith, h, timestamps-handle_client-le c now client r h)

  step-IsFilled :
      (now : ℕ) (e : Event) (s : Traced)
      → IsFilled s.limiter
      → IsFilled (step c client now e s).limiter
  unfolding step cleanup_cache timestamps
  step-IsFilled now (requests other) s f = record {
    distinct = handle_identified-Distinct c client now other s.limiter f.distinct;
    few = elim (string_key.dec client other) [
      | yes same ↦
          subst
            (λ k.
              length (timestamps client (handle_identified c now k s.limiter).0)
              ≤ get_client_max_requests c client)
            same (own-few now s.limiter f.few)
      | no different ↦
          rw (timestamps-handle_identified_other c client now other s.limiter different) f.few
    ];
  }
  step-IsFilled now cleans s f = record {
    distinct = cleanup_entries-Distinct c now s.limiter.cache f.distinct;
    few = rw (timestamps-cleanup_entries c client now s.limiter.cache f.distinct) (
        omega
          (arith, f.few, length-in_window-le (window c client) now (timestamps client s.limiter)));
  }

  run-IsFilled :
      (es : List (ℕ × Event)) (s : Traced)
      → IsFilled s.limiter
      → IsFilled (run c client es s).limiter
  unfolding run
  run-IsFilled [] s f = f
  run-IsFilled ((now, e) ∷ es) s f =
      run-IsFilled es (step c client now e s) (step-IsFilled now e s f)

  -- No request of the client.
  abbrev pub IsOthers : ℕ × Event → Type 0
  IsOthers (now, requests other) = client ≢ other
  IsOthers (now, cleans) = Unit

  step-IsWithin :
      (ts : List ℕ) (now : ℕ) (e : Event) (s : Traced)
      → IsOthers (now, e)
      → IsWithin ts s.limiter
      → IsWithin ts (step c client now e s).limiter
  unfolding step cleanup_cache timestamps
  step-IsWithin ts now (requests other) s different i = record {
    distinct = handle_identified-Distinct c client now other s.limiter i.distinct;
    fewer = λ later.
        rw (timestamps-handle_identified_other c client now other s.limiter different)
          (i.fewer later);
  }
  step-IsWithin ts now cleans s none_own i = record {
    distinct = cleanup_entries-Distinct c now s.limiter.cache i.distinct;
    fewer = λ later. rw (timestamps-cleanup_entries c client now s.limiter.cache i.distinct) (
        omega (
          arith,
          i.fewer later,
          length-in_window_dropped-le (window c client) now later (timestamps client s.limiter),
        ));
  }

  run-IsWithin :
      (ts : List ℕ) (es : List (ℕ × Event)) (s : Traced)
      → All IsOthers es
      → IsWithin ts s.limiter
      → IsWithin ts (run c client es s).limiter
  unfolding run
  run-IsWithin ts [] s others i = i
  run-IsWithin ts ((now, e) ∷ es) s others i =
      run-IsWithin ts es (step c client now e s) others.1 (step-IsWithin ts now e s others.0 i)

  blocked_step :
      (now wait : ℕ) (s : Traced)
      → c.enabled ≡ true
      → retry_after (handle_identified c now client s.limiter).1 ≡ some wait
      → ((handle_client c now client s.limiter).1.retry_after_sec ≡ some wait)
        × ((step c client now (requests client) s).limiter
            ≡ (handle_client c now client s.limiter).0)
  unfolding step handle_identified
  blocked_step now wait s on blocked = ground arith

  allowed_step :
      (later : ℕ) (r : RateLimiter)
      → (handle_client c later client r).1.allowed ≡ true
      → lets_through (handle_identified c later client r).1 ≡ true
  unfolding handle_identified
  allowed_step later r allowed = ground arith

  -- From a new, enabled limiter on, after any requests and cleanups: when a request of a client whose
  -- limit is not zero is answered with `Retry-After: wait`, then any request of the client that comes
  -- `wait` seconds later or more is let through, whatever other clients and the cleanup did in
  -- between, if the client itself has sent no other request since.
  pub allowed_after_wait :
      (es between : List (ℕ × Event)) (now wait later : ℕ)
      → c.enabled ≡ true
      → 0 < get_client_max_requests c client
      → retry_after (handle_identified c now client (run c client es (new c client)).limiter).1
        ≡ some wait
      → All IsOthers between
      → now + 1000 * wait ≤ later
      → let blocked = run c client es (new c client) in
        let s = run c client between (step c client now (requests client) blocked) in
        lets_through (handle_identified c later client s.limiter).1 ≡ true
  unfolding JsMap.Distinct JsMap.get timestamps
  allowed_after_wait es between now wait later on pos asked others waited =
      let w = window c client in
      let s = run c client es (new c client) in
      let r = s.limiter in
      let f = run-IsFilled es (new c client) (record { distinct = tt; few = omega arith }) in
      let (blocked, stepped) = blocked_step now wait s on asked in
      let (full, waits, same) = blocked_inv c now client r wait blocked in
      let valid = valid_now c now client r in
      let enough = waits_enough w now valid (ground arith) later (omega arith) in
      let after = step c client now (requests client) s in
      let kept : timestamps client after.limiter ≡ timestamps client r =
        ap (timestamps client) stepped ∙ same in
      let i = run-IsWithin (timestamps client r) between after others (record {
        distinct = unfold step in handle_identified-Distinct c client now client r f.distinct;
        fewer = λ n. rw kept (omega arith);
      }) in
      let r' = (run c client between after).limiter in
      allowed_step later r' (
        allowed_of_room c now client r later r' (
          omega (
            arith,
            enough,
            i.fewer later,
            in_window-again w now later (timestamps client r) (omega arith),
            length-in_window-le w now (timestamps client r),
            f.few,
          )))
