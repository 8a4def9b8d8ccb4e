-- ===== src/Backpressure/Tests.antt =====
-- Runs of listener/src/services/backpressure-controller.ts, and its theorems at concrete states.
use notify_chain.Prelude.{ℕ, ◌≡◌, ◌↔◌, refl, true, false, some, List, [], ◌∷◌, arith}
use notify_chain.Backpressure.{
  BackpressureConfig, Controller, create, is_active, check_and_apply_backpressure,
  record_event_processing, reset,
}
use notify_chain.Backpressure.Hysteresis.{checked, Saturated, is_active-checked_iff}

program : Unit {0}
unfolding create is_active check_and_apply_backpressure record_event_processing reset checked
program = tt

abbrev controller : Controller
controller = record {
  saturation_threshold = 100;
  recovery_threshold = 50;
  measurement_window_ms = 1000;
  is_backpressure_active = false;
  backpressure_start_time = 0;
  total_backpressure_events = 0;
  processing_timestamps = [];
  last_metrics_time = 0;
}

abbrev thresholds : BackpressureConfig
thresholds = record {
  saturation_threshold = some 100;
  recovery_threshold = some 50;
  measurement_window_ms = some 1000;
}

controller_created : create 0 thresholds ≡ controller
unfolding program
controller_created = refl

abbrev sizes : List (ℕ × ℕ)
sizes = (30, 75) ∷ (20, 101) ∷ (10, 60) ∷ []

active_after : is_active (checked sizes controller) ≡ true
unfolding program
active_after = refl

window_kept :
    (record_event_processing 1001 (record_event_processing 0 controller)).processing_timestamps
    ≡ 1001 ∷ []
unfolding program
window_kept = refl

reset_inactive : is_active (reset 40 (checked sizes controller)) ≡ false
unfolding program
reset_inactive = refl

controller_idle : is_active controller ≡ false
unfolding program
controller_idle = refl

is_active-checked_iff_example :
    (is_active (checked sizes controller) ≡ true) ↔ Saturated 100 50 sizes
is_active-checked_iff_example = is_active-checked_iff sizes controller (omega arith) controller_idle
