-- ===== src/ClaimLease/Tests.antt =====
-- Runs of listener/src/services/notification-claim-lease.ts, and its theorems at concrete states.
use notify_chain.Prelude.{ℕ, ◌*◌, ◌/◌, ◌≡◌, refl, true, false, none, some, List, [], ◌∷◌, ltb, ◌&&◌}
use notify_chain.ClaimLease.{
  RatioOps, calculate_lease_renew_interval_ms, Event, Renewed, new_lease, run, start_claim_lease,
}
use notify_chain.ClaimLease.Renewals.{has_ended, has_ended-run, one_if, run-new_lease-reports_once}

program : Unit {0}
unfolding run calculate_lease_renew_interval_ms start_claim_lease
program = tt

-- A ratio as a fraction.
abbrev fractions : RatioOps (ℕ × ℕ)
fractions = record {
  default_lease_renew_ratio = (1, 3);
  is_between_0_and_1 = λ r. ltb 0 r.0 && ltb r.0 r.1;
  floor_product = λ n r. (n * r.0) / r.1;
}

third_of_a_minute : calculate_lease_renew_interval_ms fractions (some 60000) (4, 3) ≡ 20000
unfolding program
third_of_a_minute = refl

abbrev losing : List Event
losing =
    Event.starts
    ∷ Event.ticks
    ∷ Event.chained_begins
    ∷ Event.ticks
    ∷ Event.chained_ends Renewed.refused
    ∷ Event.chained_begins
    ∷ []

losing_ended : has_ended (run losing new_lease) ≡ true
unfolding program
losing_ended = refl

has_ended-run_example :
    (has_ended (run (Event.ticks ∷ Event.heartbeat_begins ∷ []) (run losing new_lease)) ≡ true)
    × ((run (Event.ticks ∷ Event.heartbeat_begins ∷ []) (run losing new_lease)).calls
        ≡ (run losing new_lease).calls)
has_ended-run_example =
    has_ended-run (Event.ticks ∷ Event.heartbeat_begins ∷ []) (run losing new_lease) losing_ended

run-new_lease-reports_once_example :
    (run losing new_lease).lost_reports ≡ one_if (run losing new_lease).lease_lost
run-new_lease-reports_once_example =
    run-new_lease-reports_once losing (refl, (refl, (refl, (refl, (refl, (refl, tt))))))

-- Two heartbeats that overlap both report the loss.
reported_twice :
    (run
      (Event.starts
        ∷ Event.heartbeat_begins
        ∷ Event.heartbeat_begins
        ∷ Event.heartbeat_ends Renewed.refused
        ∷ Event.heartbeat_ends Renewed.refused
        ∷ [])
      new_lease).lost_reports
    ≡ 2
unfolding program
reported_twice = refl

none_started : start_claim_lease false ≡ none
unfolding program
none_started = refl
