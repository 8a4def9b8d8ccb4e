-- ===== src/ClaimLease/Renewals.antt =====
-- When the lease of listener/src/services/notification-claim-lease.ts calls `renew`, and how often it
-- reports a loss.
use notify_chain.Prelude.{ℕ, ◌+◌, ◌≡◌, refl, Bool, true, false, List, [], ◌∷◌, arith, ◌||◌, ◌∙◌}
use notify_chain.ClaimLease.{
  Lease, Event, starts, stops, ticks, chained_begins, heartbeat_begins, chained_ends,
  heartbeat_ends, renewed, refused, failed, step, run, new_lease, start, stop, schedule_renewal,
  finish_renewal, begin_chained, begin_heartbeat,
}

-- Renewals have ended: the lease was lost, or the heartbeat stopped.
abbrev pub has_ended : Lease → Bool
has_ended l = l.stopped || l.lease_lost

has_ended-step :
    (e : Event) (l : Lease)
    → has_ended l ≡ true
    → (has_ended (step e l) ≡ true) × ((step e l).calls ≡ l.calls)
unfolding step start stop schedule_renewal finish_renewal begin_chained begin_heartbeat
has_ended-step starts l h = ground arith
has_ended-step stops l h = ground arith
has_ended-step ticks l h = ground arith
has_ended-step chained_begins l h = ground arith
has_ended-step heartbeat_begins l h = ground arith
has_ended-step (chained_ends renewed) l h = ground arith
has_ended-step (chained_ends refused) l h = ground arith
has_ended-step (chained_ends failed) l h = ground arith
has_ended-step (heartbeat_ends renewed) l h = ground arith
has_ended-step (heartbeat_ends refused) l h = ground arith
has_ended-step (heartbeat_ends failed) l h = ground arith

-- Once the lease is lost or the heartbeat stopped, `renew` is never called again, whatever the timer,
-- the callers and the answers still under way do.
pub has_ended-run :
    (es : List Event) (l : Lease)
    → has_ended l ≡ true
    → (has_ended (run es l) ≡ true) × ((run es l).calls ≡ l.calls)
unfolding run
has_ended-run [] l h = (h, refl)
has_ended-run (e ∷ es) l h =
    let (ended, same) = has_ended-step e l h in
    let (ended', same') = has_ended-run es (step e l) ended in (ended', same' ∙ same)

abbrev pub one_if : Bool → ℕ
one_if true = 1
one_if false = 0

-- Every call of `renew` is under way or has had one outcome.
abbrev pub Answered : Lease → Type 0
Answered l =
    l.calls ≡ l.renewals + l.lost_reports + l.error_reports + l.manual_calls + one_if l.timer_call

Step-Answered : (e : Event) (l : Lease) → Answered l → Answered (step e l)
unfolding step start stop schedule_renewal finish_renewal begin_chained begin_heartbeat
Step-Answered starts l h = ground arith
Step-Answered stops l h = ground arith
Step-Answered ticks l h = ground arith
Step-Answered chained_begins l h = ground arith
Step-Answered heartbeat_begins l h = ground arith
Step-Answered (chained_ends renewed) l h = ground arith
Step-Answered (chained_ends refused) l h = ground arith
Step-Answered (chained_ends failed) l h = ground arith
Step-Answered (heartbeat_ends renewed) l h = ground arith
Step-Answered (heartbeat_ends refused) l h = ground arith
Step-Answered (heartbeat_ends failed) l h = ground arith

Run-Answered : (es : List Event) (l : Lease) → Answered l → Answered (run es l)
unfolding run
Run-Answered [] l h = h
Run-Answered (e ∷ es) l h = Run-Answered es (step e l) (Step-Answered e l h)

-- After any steps, each call of `renew` of a new lease is under way or has been counted as a renewal,
-- reported as a loss or reported as an error, and only one of these.
pub run-new_lease-Answered : (es : List Event) → Answered (run es new_lease)
run-new_lease-Answered es = Run-Answered es new_lease refl

-- No heartbeat is asked for by hand.
abbrev pub is_timer_event : Event → Bool
is_timer_event heartbeat_begins = false
is_timer_event _ = true

abbrev pub TimerOnly : List Event → Type 0
TimerOnly [] = Unit
TimerOnly (e ∷ es) = (is_timer_event e ≡ true) × TimerOnly es

abbrev Once : Lease → Type 0
Once l =
    (l.manual_calls ≡ 0)
    × (l.lease_lost ≡ false → l.lost_reports ≡ 0)
    × (l.lease_lost ≡ true → (l.timer_call ≡ false) × (l.lost_reports ≡ 1))

Step-Once : (e : Event) (l : Lease) → is_timer_event e ≡ true → Once l → Once (step e l)
unfolding step start stop schedule_renewal finish_renewal begin_chained begin_heartbeat
Step-Once starts l t o = ground arith
Step-Once stops l t o = ground arith
Step-Once ticks l t o = ground arith
Step-Once chained_begins l t o = ground arith
Step-Once heartbeat_begins l t o = absurd (ground arith)
Step-Once (chained_ends renewed) l t o = ground arith
Step-Once (chained_ends refused) l t o = ground arith
Step-Once (chained_ends failed) l t o = ground arith
Step-Once (heartbeat_ends r) l t o = ground arith

Run-Once : (es : List Event) (l : Lease) → TimerOnly es → Once l → Once (run es l)
unfolding run
Run-Once [] l t o = o
Run-Once (e ∷ es) l t o = Run-Once es (step e l) t.1 (Step-Once e l t.0 o)

Once-reports : (l : Lease) → Once l → l.lost_reports ≡ one_if l.lease_lost
Once-reports l o = ground arith

-- If no heartbeat is asked for by hand, a new lease has reported its loss once if it is lost, and
-- not at all otherwise.
pub run-new_lease-reports_once :
    (es : List Event)
    → TimerOnly es
    → (run es new_lease).lost_reports ≡ one_if (run es new_lease).lease_lost
run-new_lease-reports_once es t =
    Once-reports (run es new_lease)
      (Run-Once es new_lease t (refl, (λ _. refl), λ h. absurd (ground arith)))
