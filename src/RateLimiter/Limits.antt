-- ===== src/RateLimiter/Limits.antt =====
-- How often listener/src/api/rate-limiter.ts lets a client through, over runs with other clients
-- and the cleanup timer.
use notify_chain.Prelude.{
  ℕ, ◌≤◌, ◌≡◌, refl, ◌≢◌, String, Bool, true, false, List, [], ◌∷◌, ◌++◌, arith, if◌then◌else◌, leb,
  length, Bool-cases, inl, inr, ite, string_key, ◌∙◌, subst,
}
use notify_chain.Prelude.JsMap
use notify_chain.Prelude.JsMap.{JsMap, get-set, set-Distinct}
use notify_chain.RateLimiter.{
  RateLimiter, RateLimitConfig, init, in_window, timestamps, handle_client, handle_identified,
  lets_through, cleanup_cache, get_client_window_ms, get_client_max_requests,
}
use notify_chain.RateLimiter.Window.{
  count_in, in_window-again, length-in_window-append, count_in-new-le, window,
  timestamps-cleanup_entries, cleanup_entries-Distinct,
}

-- What can happen to the limiter.
pub data Event : Type 0 where
  requests : String → Event
  cleans : Event

-- The limiter, with the times at which the requests of one client were allowed, the last first.
pub record Traced : Type 0 where
  pub limiter : RateLimiter
  pub allowed_at : List ℕ

-- A new time on top if the request is the client's and is allowed.
unfoldable pub note : Bool → ℕ → List ℕ → List ℕ
note b now ts = if b then now ∷ ts else ts

module _ (c : RateLimitConfig) (client : String) where
  unfoldable pub step : ℕ → Event → Traced → Traced
  unfolding note handle_identified
  step now (requests other) s =
      let (r, answer) = handle_identified c now other s.limiter in
      record {
        limiter = r;
        allowed_at =
            note (ite (string_key.dec client other) (lets_through answer) false) now s.allowed_at;
      }
  step now cleans s = record s { limiter = cleanup_cache c now s.limiter }

  unfoldable pub run : List (ℕ × Event) → Traced → Traced
  run [] s = s
  run ((now, e) ∷ es) s = run es (step now e s)

  -- The cached times count like the true ones from `last` on, and no window holds too many.
  record Tracks (last : ℕ) (s : Traced) : Type 0 where
    distinct : JsMap.Distinct s.limiter.cache
    agrees :
        (n : ℕ)
        → last ≤ n
        → length (in_window (window c client) n (timestamps client s.limiter))
          ≡ length (in_window (window c client) n s.allowed_at)
    bounded :
        (end : ℕ) → count_in (window c client) end s.allowed_at ≤ get_client_max_requests c client

  cleans-Tracks :
      (last now : ℕ) (s : Traced) → last ≤ now → Tracks last s → Tracks now (step now cleans s)
  unfolding step cleanup_cache timestamps
  cleans-Tracks last now s h t = record {
    distinct = cleanup_entries-Distinct c now s.limiter.cache t.distinct;
    agrees = λ n le. rw (timestamps-cleanup_entries c client now s.limiter.cache t.distinct) (
        in_window-again (window c client) now n (timestamps client s.limiter) le
        ∙ t.agrees n (omega arith));
    bounded = t.bounded;
  }

  pub timestamps-handle_identified_other :
      (now : ℕ) (other : String) (r : RateLimiter)
      → client ≢ other
      → timestamps client (handle_identified c now other r).0 ≡ timestamps client r
  unfolding handle_identified handle_client timestamps
  timestamps-handle_identified_other now other r ne =
      let w = get_client_window_ms c other in
      let valid = in_window w now (timestamps other r) in
      ground (arith, get-set client other (valid ++ now ∷ []) r.cache)

  pub handle_identified-Distinct :
      (now : ℕ) (other : String) (r : RateLimiter)
      → JsMap.Distinct r.cache
      → JsMap.Distinct (handle_identified c now other r).0.cache
  unfolding handle_identified handle_client
  handle_identified-Distinct now other r d =
      let w = get_client_window_ms c other in
      let valid = in_window w now (timestamps other r) in
      ground (arith, set-Distinct other (valid ++ now ∷ []) r.cache d)

  other-Tracks :
      (last now : ℕ) (other : String) (s : Traced)
      → last ≤ now
      → client ≢ other
      → Tracks last s
      → Tracks now (step now (requests other) s)
  unfolding step
  other-Tracks last now other s h ne t =
      let same : (step now (requests other) s).allowed_at ≡ s.allowed_at = ground arith in
      record {
        distinct = handle_identified-Distinct now other s.limiter t.distinct;
        agrees = λ n le.
            rw (timestamps-handle_identified_other now other s.limiter ne, same)
              (t.agrees n (omega arith));
        bounded = λ end. rw same (t.bounded end);
      }

  -- The times that `handle` counts for the client.
  abbrev counted : ℕ → RateLimiter → List ℕ
  counted now r = in_window (window c client) now (timestamps client r)

  own_blocked :
      (now : ℕ) (s : Traced)
      → c.enabled ≡ true
      → leb (get_client_max_requests c client) (length (counted now s.limiter)) ≡ true
      → (timestamps client (step now (requests client) s).limiter ≡ timestamps client s.limiter)
        × ((step now (requests client) s).allowed_at ≡ s.allowed_at)
  unfolding step handle_identified handle_client timestamps
  own_blocked now s on full = ground arith

  own_allowed :
      (now : ℕ) (s : Traced)
      → c.enabled ≡ true
      → leb (get_client_max_requests c client) (length (counted now s.limiter)) ≡ false
      → (timestamps client (step now (requests client) s).limiter
          ≡ counted now s.limiter ++ now ∷ [])
        × ((step now (requests client) s).allowed_at ≡ now ∷ s.allowed_at)
  unfolding step handle_identified handle_client timestamps
  own_allowed now s on free =
      ground (arith, get-set client client (counted now s.limiter ++ now ∷ []) s.limiter.cache)

  own-Tracks :
      (last now : ℕ) (s : Traced)
      → c.enabled ≡ true
      → last ≤ now
      → Tracks last s
      → Tracks now (step now (requests client) s)
  own-Tracks last now s on h t =
      let w = window c client in
      let ts = timestamps client s.limiter in
      elim (Bool-cases (leb (get_client_max_requests c client) (length (counted now s.limiter)))) [
        | inl full ↦
            let (same, kept) = own_blocked now s on full in
            record {
              distinct = unfold step in handle_identified-Distinct now client s.limiter t.distinct;
              agrees = λ n le. rw (same, kept) (t.agrees n (omega arith));
              bounded = λ end. rw kept (t.bounded end);
            }
        | inr free ↦
            let (new, noted) = own_allowed now s on free in
            record {
              distinct = unfold step in handle_identified-Distinct now client s.limiter t.distinct;
              agrees = λ n le.
                  rw (new, noted)
                    (omega (
                      arith,
                      length-in_window-append w n (counted now s.limiter) (now ∷ []),
                      length-in_window-append w n (now ∷ []) s.allowed_at,
                      in_window-again w now n ts le,
                      t.agrees n (omega arith),
                    ));
              bounded = λ end. rw noted (
                  count_in-new-le w (get_client_max_requests c client) now end s.allowed_at
                    (ground (arith, t.agrees now h)) (t.bounded end));
            }
      ]

  -- The times never go down.
  abbrev pub InOrder : ℕ → List (ℕ × Event) → Type 0
  InOrder last [] = Unit
  InOrder last ((now, e) ∷ es) = (last ≤ now) × InOrder now es

  step-Tracks :
      (last now : ℕ) (e : Event) (s : Traced)
      → c.enabled ≡ true
      → last ≤ now
      → Tracks last s
      → Tracks now (step now e s)
  step-Tracks last now cleans s on h t = cleans-Tracks last now s h t
  step-Tracks last now (requests other) s on h t = elim (string_key.dec client other) [
    | yes same ↦
        subst (λ k. Tracks now (step now (requests k) s)) same (own-Tracks last now s on h t)
    | no other_client ↦ other-Tracks last now other s h other_client t
  ]

  run-Tracks :
      (last : ℕ) (es : List (ℕ × Event)) (s : Traced)
      → c.enabled ≡ true
      → InOrder last es
      → Tracks last s
      → (end : ℕ) × Tracks end (run es s)
  unfolding run
  run-Tracks last [] s on o t = (last, t)
  run-Tracks last ((now, e) ∷ es) s on o t =
      run-Tracks now es (step now e s) on o.1 (step-Tracks last now e s on o.0 t)

  abbrev pub new : Traced
  new = record { limiter = init; allowed_at = [] }

  -- From a new limiter on that its configuration enables, over any requests of all clients and calls of
  -- the cleanup with a clock that does not go back: in every window of the client's length, wherever it
  -- ends, at most the client's limit of its requests has been allowed.
  pub run_limits :
      (last : ℕ) (es : List (ℕ × Event))
      → c.enabled ≡ true
      → InOrder last es
      → (end : ℕ)
      → count_in (window c client) end (run es new).allowed_at ≤ get_client_max_requests c client
  unfolding JsMap.Distinct JsMap.get timestamps in_window count_in
  run_limits last es on o end =
      let (_, t) =
        run-Tracks last es new on o
          (record { distinct = tt; agrees = λ n le. refl; bounded = λ e. omega arith }) in
      t.bounded end
