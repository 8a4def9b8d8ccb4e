-- ===== src/ProcessingQueue/System.antt =====
-- The event loop around listener/src/services/event-processing-queue.ts: what can happen while
-- processors are awaited. Any item in flight may settle next, at any time of the clock, with any
-- outcome; items may be queued and the timer may fire in between.
use notify_chain.Prelude.{ℕ, String, true, List, [], ◌∷◌, ◌++◌, map, ◌≡◌}
use notify_chain.RetryPolicy.{TextCase}
use notify_chain.ProcessingQueue.{
  Queue, QueueConfig, QueuedEvent, Priority, Outcome, init, enqueue, poll, settle, start, stop,
}

-- An item whose processor was called at `started_at` and has not settled.
pub record Running : Type 0 where
  pub item : QueuedEvent
  pub started_at : ℕ

pub record System : Type 0 where
  pub queue : Queue
  pub in_flight : List Running

abbrev pub begin : ℕ → QueuedEvent → Running
begin now item = record { item = item; started_at = now }

-- `processNext`, with what it leaves awaited.
unfoldable pub poll_system : QueueConfig → ℕ → System → System
poll_system c now s = record {
  queue = (poll c now s.queue).0;
  in_flight = s.in_flight ++ map (begin now) (poll c now s.queue).1;
}

pub data Step (c : QueueConfig) (text : TextCase) (s u : System) : Type 0 where
  enqueues :
      (now : ℕ) (event_id contract_address request_id : String) (p : Priority)
      → u ≡ record s { queue = (enqueue c now event_id contract_address request_id p s.queue).0 }
      → Step c text s u
  polls : (now : ℕ) → s.queue.timer ≡ true → u ≡ poll_system c now s → Step c text s u
  settles :
      (now draw : ℕ) (before after : List Running) (r : Running) (o : Outcome)
      → s.in_flight ≡ before ++ r ∷ after
      → u ≡ record {
        queue = settle c text draw now r.started_at r.item o s.queue;
        in_flight = before ++ after;
      }
      → Step c text s u
  starts : u ≡ record s { queue = start s.queue } → Step c text s u
  stops : u ≡ record s { queue = stop s.queue } → Step c text s u

abbrev pub initial : System
initial = record { queue = init; in_flight = [] }

pub data Reach (c : QueueConfig) (text : TextCase) : System → Type 0 where
  here : Reach c text initial
  next : {s u : System} → Reach c text s → Step c text s u → Reach c text u
