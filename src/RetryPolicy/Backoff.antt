-- ===== src/RetryPolicy/Backoff.antt =====
-- The backoff curve of listener/src/services/retry-policy.ts, with and without jitter.
use notify_chain.Prelude.{ℕ, suc, ◌*◌, ◌^◌, ◌≤◌, ◌<◌, ◌≡◌, refl, true, false, arith}
use notify_chain.RetryPolicy.{compute_backoff_delay, raw_delay, delay_unit}
use native.Mathlib.Nat.{pow-suc}

pow-le-pow-suc : (m n : ℕ) → 1 ≤ m → m ^ n ≤ m ^ suc n
pow-le-pow-suc m n h = rw (pow-suc m n) (grind arith)

-- The delay before jitter never falls as attempts are made, for a factor of at least one.
pub raw_delay_mono :
    (n base m cap : ℕ) → 1 ≤ m → raw_delay n base m cap ≤ raw_delay (suc n) base m cap
unfolding raw_delay
raw_delay_mono n base m cap h = grind (arith, pow-le-pow-suc m n h)

scale-le : (r d k : ℕ) → d < k → r * d ≤ r * k
scale-le r d k h = grind arith

-- Without jitter the delay is the capped power of the factor, in the unit of the model; with jitter
-- it lies between three quarters of that and five quarters of it, for every draw below 2^53.
pub compute_backoff_delay_range :
    (n base m cap draw : ℕ)
    → draw < 2 ^ 53
    → let raw = raw_delay n base m cap in
      (compute_backoff_delay n base m cap false draw ≡ raw * delay_unit)
      × (3 * (raw * delay_unit) ≤ 4 * compute_backoff_delay n base m cap true draw)
      × (4 * compute_backoff_delay n base m cap true draw ≤ 5 * (raw * delay_unit))
unfolding compute_backoff_delay
compute_backoff_delay_range n base m cap draw h =
    let raw = raw_delay n base m cap in
    (refl, omega arith, omega (arith, scale-le raw draw (2 ^ 53) h))
