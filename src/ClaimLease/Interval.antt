-- ===== src/ClaimLease/Interval.antt =====
-- The renewal interval of listener/src/services/notification-claim-lease.ts.
use notify_chain.Prelude.{ℕ, ◌/◌, ◌≤◌, ◌<◌, some, arith, min}
use notify_chain.ClaimLease.{RatioOps, calculate_lease_renew_interval_ms, ratio_or}

-- Whatever the ratio, for a lock window of at least 2 ms the interval is at least 1 ms and strictly
-- shorter than the window, so that a renewal is due before the lock expires; and it is at least 1
-- second or half the window, whichever is less.
pub calculate_lease_renew_interval_ms_bounds :
    {R : Type 0} (ops : RatioOps R) (lock_window : ℕ) (ratio : R)
    → 2 ≤ lock_window
    → let interval = calculate_lease_renew_interval_ms ops (some lock_window) ratio in
      (1 ≤ interval) × (interval < lock_window) × (min 1000 (lock_window / 2) ≤ interval)
unfolding calculate_lease_renew_interval_ms
calculate_lease_renew_interval_ms_bounds ops lock_window ratio h =
    let candidate = ops.floor_product lock_window (ratio_or ops ratio) in ground arith
