-- ===== src/WorkerManager.antt =====
-- `WorkerManager` of listener/src/services/worker-manager.ts: the active jobs, and the graceful shutdown
-- that waits for them. A call of `waitForActiveJobs` that does not return at once is a waiter with a
-- timer and an interval, whose callbacks are steps. Logging is left out.
pub mod Shutdown
mod Tests
use notify_chain.Prelude.{
  ℕ, zero, suc, String, Bool, true, false, Option, none, some, List, [], ◌∷◌, ◌++◌, if◌then◌else◌,
  ◌==◌, length, string_key,
}
use notify_chain.Prelude.JsSet
use notify_chain.Prelude.JsSet.{JsSet}

-- The state of a promise of `waitForActiveJobs`: is its timer set, does its interval run, is it
-- resolved?
pub record Waiter : Type 0 where
  pub timer_armed : Bool
  pub ticking : Bool
  pub resolved : Bool

-- `shutdown_timeout` holds the place of the waiter whose timer it is.
pub record WorkerManager : Type 0 where
  pub active_jobs : JsSet String
  pub is_shutting_down : Bool
  pub shutdown_timeout : Option ℕ
  pub waiters : List Waiter

abbrev pub new_manager : WorkerManager
new_manager = record {
  active_jobs = [];
  is_shutting_down = false;
  shutdown_timeout = none;
  waiters = [];
}

abbrev pub update_waiter : ℕ → (Waiter → Waiter) → List Waiter → List Waiter
update_waiter i f [] = []
update_waiter zero f (w ∷ ws) = f w ∷ ws
update_waiter (suc i) f (w ∷ ws) = w ∷ update_waiter i f ws

-- `startJob`
unfoldable pub start_job : String → WorkerManager → WorkerManager × Bool
start_job job_id m =
    if m.is_shutting_down
    then (m, false)
    else (record m { active_jobs = JsSet.add job_id m.active_jobs }, true)

-- `completeJob`
unfoldable pub complete_job : String → WorkerManager → WorkerManager
complete_job job_id m = record m { active_jobs = JsSet.delete job_id m.active_jobs }

abbrev pub waiting : Waiter
waiting = record { timer_armed = true; ticking = true; resolved = false }

-- `waitForActiveJobs`, which sets a timer and an interval unless no job is active.
unfoldable pub wait_for_active_jobs : WorkerManager → WorkerManager
wait_for_active_jobs m = if length m.active_jobs == 0 then m else record m {
  shutdown_timeout = some (length m.waiters);
  waiters = m.waiters ++ waiting ∷ [];
}

-- `initiateGracefulShutdown` up to its wait
unfoldable pub initiate_graceful_shutdown : WorkerManager → WorkerManager
unfolding wait_for_active_jobs
initiate_graceful_shutdown m =
    if m.is_shutting_down then m else wait_for_active_jobs (record m { is_shutting_down = true })

abbrev pub expire : Waiter → Waiter
expire w = if w.timer_armed then record w { timer_armed = false; resolved = true } else w

-- The callback of a waiter's timer, if it is set
unfoldable pub timer_fires : ℕ → WorkerManager → WorkerManager
timer_fires i m = record m { waiters = update_waiter i expire m.waiters }

abbrev pub disarm : Waiter → Waiter
disarm w = record w { timer_armed = false }

-- `clearTimeout` of the timer that the manager holds
unfoldable pub clear_shutdown_timeout : WorkerManager → WorkerManager
clear_shutdown_timeout m = cleared m.shutdown_timeout
  where
    cleared : Option ℕ → WorkerManager
    cleared none = m
    cleared (some i) = record m {
      shutdown_timeout = none;
      waiters = update_waiter i disarm m.waiters;
    }

abbrev pub finish : Waiter → Waiter
finish w = if w.ticking then record w { ticking = false; resolved = true } else w

abbrev pub is_ticking : ℕ → List Waiter → Bool
is_ticking i [] = false
is_ticking zero (w ∷ ws) = w.ticking
is_ticking (suc i) (w ∷ ws) = is_ticking i ws

-- The callback of a waiter's interval, if it runs
unfoldable pub check_jobs : ℕ → WorkerManager → WorkerManager
unfolding clear_shutdown_timeout
check_jobs i m =
    let m' = clear_shutdown_timeout m in
    if is_ticking i m.waiters
    then (if length m.active_jobs == 0
        then record m' { waiters = update_waiter i finish m'.waiters }
        else m)
    else m

-- `forceShutdown`
unfoldable pub force_shutdown : WorkerManager → WorkerManager
unfolding clear_shutdown_timeout
force_shutdown m = record (clear_shutdown_timeout m) { active_jobs = []; is_shutting_down = false }

pub data Event : Type 0 where
  starts completes : String → Event
  initiates forces : Event
  timeouts checks : ℕ → Event

unfoldable pub step : Event → WorkerManager → WorkerManager
unfolding start_job complete_job initiate_graceful_shutdown timer_fires check_jobs force_shutdown
step (starts job_id) m = (start_job job_id m).0
step (completes job_id) m = complete_job job_id m
step initiates m = initiate_graceful_shutdown m
step forces m = force_shutdown m
step (timeouts i) m = timer_fires i m
step (checks i) m = check_jobs i m

unfoldable pub run : List Event → WorkerManager → WorkerManager
unfolding step
run [] m = m
run (e ∷ es) m = run es (step e m)
