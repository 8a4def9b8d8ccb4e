-- ===== src/RpcRateLimiter/Accounting.antt =====
-- What listener/src/services/rpc-rate-limiter.ts lets through, and what it counts.
use native.Mathlib.Nat.{add-mul}
use notify_chain.Prelude.{
  ℕ, ◌+◌, ◌-◌, ◌*◌, ◌≤◌, ◌≡◌, refl, ap, ◌∙◌, true, inl, inr, List, [], ◌∷◌, arith, ltb, leb, All,
  Bool-cases,
}
use notify_chain.RpcRateLimiter.{
  RpcRateLimitConfig, RpcRateLimiter, create, refill, take_token, acquire_internal, acquire,
  count_request, System, Event, arrives, wakes, step, run, start,
}

module _ (config : RpcRateLimitConfig) (created latest : ℕ) where
  -- The bucket holds no more than the burst, and what was let through came out of the burst and the
  -- refills, the last of them not after `latest`.
  pub record IsPaid (l : RpcRateLimiter) : Type 0 where
    pub configured : l.config ≡ config
    pub capped : l.tokens ≤ config.burst_size * 1000
    pub refilled : created ≤ l.last_refill
    pub past : l.last_refill ≤ latest
    pub paid :
        l.metrics.allowed_requests * 1000 + l.tokens
        ≤ config.burst_size * 1000 + (l.last_refill - created) * config.max_requests_per_second

  refill-IsPaid : (now : ℕ) (l : RpcRateLimiter) → now ≤ latest → IsPaid l → IsPaid (refill now l)
  unfolding refill
  refill-IsPaid now l early p = elim (Bool-cases (ltb l.last_refill now)) [
    | inl later ↦
        let rate = config.max_requests_per_second in
        let same : (now - l.last_refill) * l.config.max_requests_per_second
            ≡ (now - l.last_refill) * rate =
          ap (λ c. (now - l.last_refill) * c.max_requests_per_second) p.configured in
        let cap : l.config.burst_size * 1000 ≡ config.burst_size * 1000 =
          ap (λ c. c.burst_size * 1000) p.configured in
        let total : now - created ≡ (now - l.last_refill) + (l.last_refill - created) =
          ground (arith, later, p.refilled) in
        let split : (now - created) * rate
            ≡ (now - l.last_refill) * rate + (l.last_refill - created) * rate =
          ap (λ d. d * rate) total ∙ add-mul (now - l.last_refill) (l.last_refill - created) rate in
        rw later (record {
          configured = p.configured;
          capped = omega (arith, cap);
          refilled = ground (arith, later, p.refilled);
          past = early;
          paid = omega (arith, p.paid, split, same, cap);
        })
    | inr earlier ↦ rw earlier p
  ]

  take_token-IsPaid : (l : RpcRateLimiter) → IsPaid l → IsPaid (take_token l).0
  unfolding take_token
  take_token-IsPaid l p = elim (Bool-cases (leb 1000 l.tokens)) [
    | inl enough ↦ rw enough (record {
      configured = p.configured;
      capped = omega (arith, p.capped);
      refilled = p.refilled;
      past = p.past;
      paid = ground (arith, p.paid, enough);
    })
    | inr few ↦ rw few (record {
      configured = p.configured;
      capped = p.capped;
      refilled = p.refilled;
      past = p.past;
      paid = p.paid;
    })
  ]

  acquire_internal-IsPaid :
      (now : ℕ) (l : RpcRateLimiter) → now ≤ latest → IsPaid l → IsPaid (acquire_internal now l).0
  unfolding acquire_internal
  acquire_internal-IsPaid now l early p =
      take_token-IsPaid (refill now l) (refill-IsPaid now l early p)

  acquire-IsPaid :
      (now : ℕ) (l : RpcRateLimiter) → now ≤ latest → IsPaid l → IsPaid (acquire now l).0
  unfolding acquire
  acquire-IsPaid now l early p =
      let counted : IsPaid (count_request l) = record {
        configured = p.configured;
        capped = p.capped;
        refilled = p.refilled;
        past = p.past;
        paid = p.paid;
      } in
      ground (arith, p, acquire_internal-IsPaid now (count_request l) early counted)

  Step-IsPaid :
      (now : ℕ) (e : Event) (s : System)
      → now ≤ latest
      → IsPaid s.limiter
      → IsPaid (step now e s).limiter
  unfolding step
  Step-IsPaid now arrives s early p = acquire-IsPaid now s.limiter early p
  Step-IsPaid now wakes s early p = ground (arith, p, acquire_internal-IsPaid now s.limiter early p)

  -- The step is not after `latest`.
  abbrev pub IsPast : ℕ × Event → Type 0
  IsPast (now, e) = now ≤ latest

  Run-IsPaid :
      (es : List (ℕ × Event)) (s : System)
      → All IsPast es
      → IsPaid s.limiter
      → IsPaid (run es s).limiter
  unfolding run
  Run-IsPaid [] s past p = p
  Run-IsPaid ((now, e) ∷ es) s past p =
      Run-IsPaid es (step now e s) past.1 (Step-IsPaid now e s past.0 p)

  pub run-start-IsPaid :
      (es : List (ℕ × Event))
      → created ≤ latest
      → All IsPast es
      → IsPaid (run es (start config created)).limiter
  unfolding start create
  run-start-IsPaid es order past = Run-IsPaid es (start config created) past (record {
    configured = refl;
    capped = omega arith;
    refilled = omega arith;
    past = order;
    paid = omega arith;
  })

-- Every counted request was let through or waits, and each that waits was counted as throttled.
pub record IsCounted (s : System) : Type 0 where
  pub total : s.limiter.metrics.total_requests ≡ s.limiter.metrics.allowed_requests + s.waiting
  pub throttled : s.waiting ≤ s.limiter.metrics.throttled_requests

Step-IsCounted : (now : ℕ) (e : Event) (s : System) → IsCounted s → IsCounted (step now e s)
unfolding step acquire acquire_internal refill take_token
Step-IsCounted now arrives s c = record {
  total = ground (arith, c.total);
  throttled = ground (arith, c.throttled);
}
Step-IsCounted now wakes s c = record {
  total = ground (arith, c.total);
  throttled = ground (arith, c.throttled);
}

Run-IsCounted : (es : List (ℕ × Event)) (s : System) → IsCounted s → IsCounted (run es s)
unfolding run
Run-IsCounted [] s c = c
Run-IsCounted ((now, e) ∷ es) s c = Run-IsCounted es (step now e s) (Step-IsCounted now e s c)

-- After any steps of a new limiter the requests it has counted are those it let through and those that
-- wait, and it has counted at least as many throttlings as requests wait.
run-start-IsCounted :
    (config : RpcRateLimitConfig) (created : ℕ) (es : List (ℕ × Event))
    → IsCounted (run es (start config created))
unfolding start create
run-start-IsCounted config created es =
    Run-IsCounted es (start config created)
      (record { total = omega arith; throttled = omega arith })

-- An enabled limiter, and the requests that passed are those it counted as allowed.
pub record IsTold (s : System) : Type 0 where
  pub enabled : s.limiter.config.enabled ≡ true
  pub told : s.passed ≡ s.limiter.metrics.allowed_requests

Step-IsTold : (now : ℕ) (e : Event) (s : System) → IsTold s → IsTold (step now e s)
unfolding step acquire acquire_internal refill take_token
Step-IsTold now arrives s t = record {
  enabled = ground (arith, t.enabled);
  told = ground (arith, t.enabled, t.told);
}
Step-IsTold now wakes s t = record {
  enabled = ground (arith, t.enabled);
  told = ground (arith, t.enabled, t.told);
}

pub Run-IsTold : (es : List (ℕ × Event)) (s : System) → IsTold s → IsTold (run es s)
unfolding run
Run-IsTold [] s t = t
Run-IsTold ((now, e) ∷ es) s t = Run-IsTold es (step now e s) (Step-IsTold now e s t)

pub run-start-IsTold :
    (config : RpcRateLimitConfig) (created : ℕ) (es : List (ℕ × Event))
    → config.enabled ≡ true
    → IsTold (run es (start config created))
unfolding start create
run-start-IsTold config created es on =
    Run-IsTold es (start config created) (record { enabled = on; told = refl })
