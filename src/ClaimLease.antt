-- ===== src/ClaimLease.antt =====
-- `NotificationClaimLease` of listener/src/services/notification-claim-lease.ts: the heartbeat that
-- keeps the lock of a claimed notification while it is delivered. `queued` counts the renewals that
-- are chained on the promise and have not begun, `timer_call` and `manual_calls` the calls of `renew`
-- that the timer and `heartbeatNow` await. A heartbeat may begin at any time, which allows all
-- orders of the promises, and more. The last four fields count calls of `renew` and what came of them.
pub mod Interval
pub mod Renewals
mod Tests
use notify_chain.Prelude.{
  ℕ, suc, ◌+◌, ◌-◌, ◌/◌, max, min, Bool, true, false, Option, none, some, List, [], ◌∷◌, ◌&&◌, ◌||◌,
  not, if◌then◌else◌, leb,
}

abbrev pub min_lease_renew_interval_ms : ℕ
min_lease_renew_interval_ms = 1000

-- Ratios are the engine's doubles: a test that one lies between 0 and 1, and the whole part of its
-- product with a lock window.
pub record RatioOps (R : Type 0) : Type 0 where
  pub default_lease_renew_ratio : R
  pub is_between_0_and_1 : R → Bool
  pub floor_product : ℕ → R → ℕ

abbrev pub finite_or_zero : Option ℕ → ℕ
finite_or_zero none = 0
finite_or_zero (some n) = n

module _ {R : Type 0} (ops : RatioOps R) where
  abbrev pub ratio_or : R → R
  ratio_or ratio = if ops.is_between_0_and_1 ratio then ratio else ops.default_lease_renew_ratio

  -- `calculateLeaseRenewIntervalMs`; a window that is not finite is `none`, and one below 1 is 0.
  unfoldable pub calculate_lease_renew_interval_ms : Option ℕ → R → ℕ
  calculate_lease_renew_interval_ms lock_timeout_ms ratio =
      let lock_window = finite_or_zero lock_timeout_ms in
      let candidate = ops.floor_product lock_window (ratio_or ratio) in
      if leb lock_window (min_lease_renew_interval_ms + min_lease_renew_interval_ms)
      then max 1 (lock_window / 2)
      else min (max candidate min_lease_renew_interval_ms) (lock_window - 1)

pub record Lease : Type 0 where
  pub timer_set : Bool
  pub started : Bool
  pub stopped : Bool
  pub lease_lost : Bool
  pub queued : ℕ
  pub timer_call : Bool
  pub manual_calls : ℕ
  pub renewals : ℕ
  pub lost_reports : ℕ
  pub error_reports : ℕ
  pub calls : ℕ

-- The constructor.
abbrev pub new_lease : Lease
new_lease = record {
  timer_set = false;
  started = false;
  stopped = false;
  lease_lost = false;
  queued = 0;
  timer_call = false;
  manual_calls = 0;
  renewals = 0;
  lost_reports = 0;
  error_reports = 0;
  calls = 0;
}

-- `start`
unfoldable pub start : Lease → Lease
start l = if l.started || l.stopped then l else record l { started = true; timer_set = true }

-- `stop`, up to the await.
unfoldable pub stop : Lease → Lease
stop l = if l.stopped then l else record l { stopped = true; timer_set = false }

-- `scheduleRenewal`, which the timer calls.
unfoldable pub schedule_renewal : Lease → Lease
schedule_renewal l = if l.stopped || l.lease_lost then l else record l { queued = l.queued + 1 }

-- What `renew` comes back with: true, false, or an exception.
pub data Renewed : Type 0 where
  renewed refused failed : Renewed

-- `performRenewal` after the await.
unfoldable pub finish_renewal : Renewed → Lease → Lease
finish_renewal renewed l = record l { renewals = l.renewals + 1 }
finish_renewal refused l = record l { lease_lost = true; lost_reports = l.lost_reports + 1 }
finish_renewal failed l = record l { error_reports = l.error_reports + 1 }

-- `performRenewal` up to the await, for the first renewal in the chain.
unfoldable pub begin_chained : Lease → Lease
begin_chained l =
    let l' = record l { queued = l.queued - 1 } in
    if l.stopped || l.lease_lost then l' else record l' { timer_call = true; calls = l.calls + 1 }

-- `performRenewal` up to the await, for `heartbeatNow`.
unfoldable pub begin_heartbeat : Lease → Lease
begin_heartbeat l =
    if l.stopped || l.lease_lost
    then l
    else record l { manual_calls = l.manual_calls + 1; calls = l.calls + 1 }

pub data Event : Type 0 where
  starts stops ticks chained_begins heartbeat_begins : Event
  chained_ends heartbeat_ends : Renewed → Event

-- One step; an event that cannot occur in the state changes nothing.
unfoldable pub step : Event → Lease → Lease
unfolding start stop schedule_renewal finish_renewal begin_chained begin_heartbeat
step starts l = start l
step stops l = stop l
step ticks l = if l.timer_set then schedule_renewal l else l
step chained_begins l = if l.timer_call || leb l.queued 0 then l else begin_chained l
step (chained_ends r) l =
    if l.timer_call then finish_renewal r (record l { timer_call = false }) else l
step heartbeat_begins l = begin_heartbeat l
step (heartbeat_ends r) l =
    if leb l.manual_calls 0
    then l
    else finish_renewal r (record l { manual_calls = l.manual_calls - 1 })

unfoldable pub run : List Event → Lease → Lease
unfolding step
run [] l = l
run (e ∷ es) l = run es (step e l)

-- `startClaimLease`, which starts none if the repository cannot renew.
unfoldable pub start_claim_lease : Bool → Option Lease
unfolding start
start_claim_lease can_renew = if can_renew then some (start new_lease) else none
