-- ===== src/WorkerManager/Tests.antt =====
-- Runs of listener/src/services/worker-manager.ts, and its theorems at concrete events.
use notify_chain.Prelude.{◌≡◌, refl, true, false, none, List, [], ◌∷◌, All, string_key}
use notify_chain.Prelude.JsSet
use notify_chain.WorkerManager.{
  WorkerManager, new_manager, start_job, timer_fires, Event, starts, initiates, forces, checks, run,
}
use notify_chain.WorkerManager.Shutdown.{
  IsGraceful, IsResolved, run-closed, run-new_manager-resolves,
}

program : Unit {0}
unfolding run timer_fires start_job JsSet.has JsSet.add JsSet.delete string_key
program = tt

abbrev events : List Event
events = starts "a" ∷ initiates ∷ starts "b" ∷ checks 0 ∷ []

events-IsGraceful : IsGraceful events
events-IsGraceful = ((λ e. cc), ((λ e. cc), ((λ e. cc), ((λ e. cc), tt))))

run-new_manager-resolves_example : All IsResolved (timer_fires 0 (run events new_manager)).waiters
run-new_manager-resolves_example = run-new_manager-resolves events events-IsGraceful

abbrev closing : WorkerManager
closing = record {
  active_jobs = "a" ∷ [];
  is_shutting_down = true;
  shutdown_timeout = none;
  waiters = [];
}

run-closed_example :
    ((start_job "c" (run events closing)).1 ≡ false)
    × (JsSet.has "a" (run events closing).active_jobs ≡ true
        → JsSet.has "a" closing.active_jobs ≡ true)
run-closed_example = run-closed events closing "c" "a" events-IsGraceful refl

-- After a forced shutdown a promise that is still waited for has lost its timer, and jobs that are
-- accepted again keep it waiting.
abbrev forced : WorkerManager
forced = run (starts "a" ∷ initiates ∷ forces ∷ starts "b" ∷ checks 0 ∷ []) new_manager

forced_waits :
    forced.waiters ≡ record { timer_armed = false; ticking = true; resolved = false } ∷ []
unfolding program
forced_waits = refl
