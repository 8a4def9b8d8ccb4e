-- ===== src/Backpressure.antt =====
-- `BackpressureController` of listener/src/services/backpressure-controller.ts: when the queue is too
-- long the controller is active, until it is short again. The delay and the throughput that are
-- derived from it are floating-point numbers and are left out.
pub mod Hysteresis
mod Tests
use notify_chain.Prelude.{
  ℕ, ◌+◌, ◌-◌, Bool, true, false, Option, none, some, List, [], ◌∷◌, ◌++◌, ◌&&◌, not, filter,
  if◌then◌else◌, leb,
}

pub record BackpressureConfig : Type 0 where
  pub saturation_threshold : Option ℕ
  pub recovery_threshold : Option ℕ
  pub measurement_window_ms : Option ℕ

pub record Controller : Type 0 where
  pub saturation_threshold : ℕ
  pub recovery_threshold : ℕ
  pub measurement_window_ms : ℕ
  pub is_backpressure_active : Bool
  pub backpressure_start_time : ℕ
  pub total_backpressure_events : ℕ
  pub processing_timestamps : List ℕ
  pub last_metrics_time : ℕ

abbrev number_or : Option ℕ → ℕ → ℕ
number_or none d = d
number_or (some n) d = n

-- The constructor.
unfoldable pub create : ℕ → BackpressureConfig → Controller
create now config = record {
  saturation_threshold = number_or config.saturation_threshold 1000;
  recovery_threshold = number_or config.recovery_threshold 500;
  measurement_window_ms = number_or config.measurement_window_ms 10000;
  is_backpressure_active = false;
  backpressure_start_time = 0;
  total_backpressure_events = 0;
  processing_timestamps = [];
  last_metrics_time = now;
}

-- `activateBackpressure`
unfoldable pub activate_backpressure : ℕ → Controller → Controller
activate_backpressure now c = record c {
  is_backpressure_active = true;
  backpressure_start_time = now;
  total_backpressure_events = c.total_backpressure_events + 1;
}

-- `deactivateBackpressure`
unfoldable pub deactivate_backpressure : Controller → Controller
deactivate_backpressure c = record c { is_backpressure_active = false; backpressure_start_time = 0 }

-- `checkAndApplyBackpressure`
unfoldable pub check_and_apply_backpressure : ℕ → ℕ → Controller → Controller × Bool
unfolding activate_backpressure deactivate_backpressure
check_and_apply_backpressure now queue_size c =
    if not c.is_backpressure_active && leb c.saturation_threshold queue_size
    then (activate_backpressure now c, true)
    else if c.is_backpressure_active && leb queue_size c.recovery_threshold
    then (deactivate_backpressure c, true)
    else (c, c.is_backpressure_active)

-- `recordEventProcessing`
unfoldable pub record_event_processing : ℕ → Controller → Controller
record_event_processing now c = record c {
  processing_timestamps =
      filter (λ ts. leb now (ts + c.measurement_window_ms)) (c.processing_timestamps ++ now ∷ []);
}

-- `isActive`
unfoldable pub is_active : Controller → Bool
is_active c = c.is_backpressure_active

-- `reset`
unfoldable pub reset : ℕ → Controller → Controller
reset now c = record c {
  processing_timestamps = [];
  last_metrics_time = now;
  is_backpressure_active = false;
  backpressure_start_time = 0;
}
