-- ===== src/EventBatcher/Tests.antt =====
-- Runs of listener/src/services/event-batcher.ts, and its theorems at concrete states.
use notify_chain.Prelude.{
  ℕ, String, ◌+◌, ◌<◌, ◌≡◌, refl, true, false, length, ◌↔◌, none, some, List, [], ◌∷◌, ◌++◌,
  string_key,
}
use notify_chain.Prelude.JsMap
use notify_chain.EventBatcher.{
  EventBatcher, BatchableEvent, Handler, EventBatchingConfig, PendingGroup, create, flush,
  flush_due, stop, add, pending_count,
}
use notify_chain.EventBatcher.Calls.{Call, Running, run, step}
use notify_chain.EventBatcher.Conservation.{added, delivered, history, history-run}
use notify_chain.EventBatcher.Sizes.{Sized, run-create-Sized}
use notify_chain.EventBatcher.Windows.{handed, due_groups, flush_due-takes_due}

program : Unit {0}
unfolding create run step flush flush_due stop add delivered history added pending_count JsMap.get
    JsMap.set JsMap.delete string_key
program = tt

abbrev event : String → BatchableEvent
event id = record { event_id = id; contract_address = "C"; event_name = "task_created" }

abbrev pairs : EventBatchingConfig
pairs = record { enabled = true; max_batch_size = 2; window_ms = 100 }

abbrev accept_all : Handler
accept_all batch = true

abbrev calls : List (ℕ × Call)
calls =
    (5, Call.adds (event "a") none)
    ∷ (6, Call.adds (event "x") (some "other"))
    ∷ (7, Call.adds (event "b") none)
    ∷ (60, Call.adds (event "c") none)
    ∷ (106, Call.flushes_due accept_all)
    ∷ []

abbrev after : EventBatcher
after = run calls (create pairs)

-- Two batches were handed over, and the last event waits.
after_waits : pending_count after ≡ 1
unfolding program
after_waits = refl

stopped_throws : add 200 (event "d") none (stop after) ≡ none
unfolding program
stopped_throws = refl

after_history : history "C:task_created" after ≡ event "a" ∷ event "b" ∷ event "c" ∷ []
unfolding program
after_history = refl

create_runs : Running (create pairs)
unfolding program
create_runs = record { running = refl; idle = λ _. refl }

history-run_example :
    history "C:task_created" after
    ≡ history "C:task_created" (create pairs) ++ added "C:task_created" calls
history-run_example = history-run "C:task_created" calls (create pairs) create_runs

run-create-Sized_example : Sized after
run-create-Sized_example = run-create-Sized pairs calls

abbrev waiting : PendingGroup
waiting = record { events = event "c" ∷ []; window_start = 60 }

-- At 160 the window of the last event has passed; another group of later events stays.
abbrev later : EventBatcher
later = run ((130, Call.adds (event "y") (some "other")) ∷ []) after

one_due : (flush_due accept_all 160 later).1 ≡ some 1
unfolding program
one_due = refl

later-Distinct : JsMap.Distinct later.groups
unfolding program JsMap.Distinct
later-Distinct = (refl, (refl, tt))

-- A rejection ends the loop with the second of two due groups still waiting; the first is gone.
rejected_leaves_due :
    ((flush_due (λ batch. false) 300 later).1 ≡ none)
    × (pending_count (flush_due (λ batch. false) 300 later).0 ≡ 1)
unfolding program
rejected_leaves_due = (refl, refl)

flush_due-takes_due_example :
    (handed (flush_due accept_all 160 later).0
      ≡ handed later ++ due_groups 160 later.config.window_ms later.groups)
    × (1 ≡ length (due_groups 160 later.config.window_ms later.groups))
    × ((JsMap.get "C:task_created" (flush_due accept_all 160 later).0.groups ≡ some waiting) ↔ (
        (JsMap.get "C:task_created" later.groups ≡ some waiting)
        × (160 < waiting.window_start + later.config.window_ms)))
flush_due-takes_due_example =
    flush_due-takes_due accept_all 160 1 later "C:task_created" waiting later-Distinct one_due
