-- ===== src/RpcRateLimiter/Window.antt =====
-- What listener/src/services/rpc-rate-limiter.ts lets through in a stretch of time.
use native.Mathlib.Nat.{add-mul, mul-le-mul_right}
use notify_chain.Prelude.{
  ℕ, ◌+◌, ◌-◌, ◌*◌, ◌≤◌, ◌<◌, ◌≡◌, refl, ap, ◌∙◌, ◌⊎◌, inl, inr, List, [], ◌∷◌, arith, true, ltb,
  All, Bool-cases,
}
use notify_chain.RpcRateLimiter.{
  RpcRateLimitConfig, RpcRateLimiter, refill, take_token, acquire_internal, acquire, count_request,
  System, Event, arrives, wakes, step, run, start,
}
use notify_chain.RpcRateLimiter.Accounting.{IsPast, run-start-IsPaid, Run-IsTold, run-start-IsTold}

-- The step is in the stretch.
abbrev pub IsWithin : ℕ → ℕ → ℕ × Event → Type 0
IsWithin from latest (now, e) = (from ≤ now) × (now ≤ latest)

module _ (config : RpcRateLimitConfig) (from latest before : ℕ) where
  -- Of the stretch from `from` on, in which the limiter had let `before` requests through: either it
  -- has not been refilled since, nor let any through, or those that it let through are paid.
  pub record IsUntouched (l : RpcRateLimiter) : Type 0 where
    pub configured : l.config ≡ config
    pub capped : l.tokens ≤ config.burst_size * 1000
    pub earlier : l.last_refill < from
    pub none_allowed : l.metrics.allowed_requests ≡ before

  pub record IsCovered (l : RpcRateLimiter) : Type 0 where
    pub configured : l.config ≡ config
    pub capped : l.tokens ≤ config.burst_size * 1000
    pub refilled : from ≤ l.last_refill
    pub past : l.last_refill ≤ latest
    pub paid :
        l.metrics.allowed_requests * 1000 + l.tokens
        ≤ before * 1000
          + (config.burst_size * 1000 + (l.last_refill - from) * config.max_requests_per_second)

  refill-IsCovered :
      (now : ℕ) (l : RpcRateLimiter)
      → from ≤ now
      → now ≤ latest
      → IsUntouched l ⊎ IsCovered l
      → IsCovered (refill now l)
  unfolding refill
  refill-IsCovered now l late early (inl u) =
      let cap : l.config.burst_size * 1000 ≡ config.burst_size * 1000 =
        ap (λ c. c.burst_size * 1000) u.configured in
      let later : ltb l.last_refill now ≡ true = ground (arith, u.earlier) in
      rw later (record {
        configured = u.configured;
        capped = omega (arith, cap);
        refilled = late;
        past = early;
        paid = omega (arith, cap, u.none_allowed);
      })
  refill-IsCovered now l late early (inr p) = elim (Bool-cases (ltb l.last_refill now)) [
    | inl later ↦
        let rate = config.max_requests_per_second in
        let same : (now - l.last_refill) * l.config.max_requests_per_second
            ≡ (now - l.last_refill) * rate =
          ap (λ c. (now - l.last_refill) * c.max_requests_per_second) p.configured in
        let cap : l.config.burst_size * 1000 ≡ config.burst_size * 1000 =
          ap (λ c. c.burst_size * 1000) p.configured in
        let total : now - from ≡ (now - l.last_refill) + (l.last_refill - from) =
          ground (arith, later, p.refilled) in
        let split : (now - from) * rate
            ≡ (now - l.last_refill) * rate + (l.last_refill - from) * rate =
          ap (λ d. d * rate) total ∙ add-mul (now - l.last_refill) (l.last_refill - from) rate in
        rw later (record {
          configured = p.configured;
          capped = omega (arith, cap);
          refilled = late;
          past = early;
          paid = omega (arith, p.paid, split, same, cap);
        })
    | inr reached ↦ rw reached p
  ]

  take_token-IsCovered : (l : RpcRateLimiter) → IsCovered l → IsCovered (take_token l).0
  unfolding take_token
  take_token-IsCovered l p = record {
    configured = ground (arith, p.configured);
    capped = ground (arith, p.capped);
    refilled = ground (arith, p.refilled);
    past = ground (arith, p.past);
    paid = ground (arith, p.paid);
  }

  IsKept : RpcRateLimiter → Type 0
  IsKept l = IsUntouched l ⊎ IsCovered l

  count_request-IsKept : (l : RpcRateLimiter) → IsKept l → IsKept (count_request l)
  unfolding IsKept
  count_request-IsKept l (inl u) = inl (record {
    configured = u.configured;
    capped = u.capped;
    earlier = u.earlier;
    none_allowed = u.none_allowed;
  })
  count_request-IsKept l (inr p) = inr (record {
    configured = p.configured;
    capped = p.capped;
    refilled = p.refilled;
    past = p.past;
    paid = p.paid;
  })

  acquire_internal-IsKept :
      (now : ℕ) (l : RpcRateLimiter)
      → from ≤ now
      → now ≤ latest
      → IsKept l
      → IsKept (acquire_internal now l).0
  unfolding acquire_internal IsKept
  acquire_internal-IsKept now l late early k =
      inr (take_token-IsCovered (refill now l) (refill-IsCovered now l late early k))

  Step-IsKept :
      (now : ℕ) (e : Event) (s : System)
      → from ≤ now
      → now ≤ latest
      → IsKept s.limiter
      → IsKept (step now e s).limiter
  unfolding step acquire
  Step-IsKept now arrives s late early k = ground (
    arith,
    k,
    acquire_internal-IsKept now (count_request s.limiter) late early
        (count_request-IsKept s.limiter k),
  )
  Step-IsKept now wakes s late early k =
      ground (arith, k, acquire_internal-IsKept now s.limiter late early k)

  Run-IsKept :
      (es : List (ℕ × Event)) (s : System)
      → All (IsWithin from latest) es
      → IsKept s.limiter
      → IsKept (run es s).limiter
  unfolding run
  Run-IsKept [] s within k = k
  Run-IsKept ((now, e) ∷ es) s within k =
      Run-IsKept es (step now e s) within.1 (Step-IsKept now e s within.0.0 within.0.1 k)

  IsKept-bound :
      (l : RpcRateLimiter)
      → IsKept l
      → l.metrics.allowed_requests * 1000
        ≤ before * 1000
          + (config.burst_size * 1000 + (latest - from) * config.max_requests_per_second)
  unfolding IsKept
  IsKept-bound l (inl u) = omega (arith, u.none_allowed)
  IsKept-bound l (inr p) =
      let wider : (l.last_refill - from) * config.max_requests_per_second
          ≤ (latest - from) * config.max_requests_per_second =
        mul-le-mul_right config.max_requests_per_second (omega (arith, p.past)) in
      omega (arith, p.paid, wider)

counted_bound :
    (config : RpcRateLimitConfig) (created from latest : ℕ) (es later : List (ℕ × Event))
    → created ≤ from
    → All (IsPast config created from) es
    → All (IsWithin from latest) later
    → from ≤ latest
    → (run later (run es (start config created))).limiter.metrics.allowed_requests * 1000
      ≤ (run es (start config created)).limiter.metrics.allowed_requests * 1000
        + (config.burst_size * 1000 + (latest - from) * config.max_requests_per_second)
unfolding IsKept
counted_bound config created from latest es later order past within ahead =
    let s = run es (start config created) in
    let before = s.limiter.metrics.allowed_requests in
    let p = run-start-IsPaid config created from es order past in
    let kept : IsKept config from latest before s.limiter =
      elim (Bool-cases (ltb s.limiter.last_refill from)) [
        | inl earlier ↦ inl (record {
          configured = p.configured;
          capped = p.capped;
          earlier = ground (arith, earlier);
          none_allowed = refl;
        })
        | inr reached ↦ inr (record {
          configured = p.configured;
          capped = p.capped;
          refilled = ground (arith, reached);
          past = omega (arith, p.past, ahead);
          paid = omega (arith, p.capped);
        })
      ] in
    IsKept-bound config from latest before (run later s).limiter
      (Run-IsKept config from latest before later s within kept)

-- In exact arithmetic: in every stretch of time, from the making of an enabled limiter on, the requests
-- whose `acquire` returns are at most the burst and what the rate gives for the length of the
-- stretch, whatever has arrived and waited before.
pub run-start_bound :
    (config : RpcRateLimitConfig) (created from latest : ℕ) (es later : List (ℕ × Event))
    → config.enabled ≡ true
    → created ≤ from
    → All (IsPast config created from) es
    → All (IsWithin from latest) later
    → from ≤ latest
    → (run later (run es (start config created))).passed * 1000
      ≤ (run es (start config created)).passed * 1000
        + (config.burst_size * 1000 + (latest - from) * config.max_requests_per_second)
run-start_bound config created from latest es later on order past within ahead =
    let told = run-start-IsTold config created es on in
    let s = run es (start config created) in
    omega (
      arith,
      told.told,
      (Run-IsTold later s told).told,
      counted_bound config created from latest es later order past within ahead,
    )
