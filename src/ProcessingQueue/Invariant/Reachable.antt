-- ===== src/ProcessingQueue/Invariant/Reachable.antt =====
-- The invariant of listener/src/services/event-processing-queue.ts in every reachable state.
use notify_chain.Prelude.{string_key}
use notify_chain.Prelude.{Bool, true, false}
use notify_chain.RetryPolicy.{TextCase}
use notify_chain.ProcessingQueue.{QueueConfig, enqueue, new_item, start, stop}
use notify_chain.ProcessingQueue.System.{
  System, Step, Reach, enqueues, polls, settles, starts, stops, here, next,
}
use notify_chain.ProcessingQueue.Invariant.{Inv, initial-Inv, enqueue_item-Inv}
use notify_chain.ProcessingQueue.Invariant.Polling.{poll_system-Inv}
use notify_chain.ProcessingQueue.Invariant.Settling.{settle-Inv}

timer-Inv :
    {c : QueueConfig} {s : System} (on : Bool)
    → Inv c s
    → Inv c (record s { queue = record (s.queue) { timer = on } })
timer-Inv on v = record {
  known = v.known;
  active = v.active;
  distinct = v.distinct;
  capacity = v.capacity;
  conserved = v.conserved;
  sorted_out = v.sorted_out;
}

-- Each step of the event loop keeps the invariant.
pub Step-Inv :
    {c : QueueConfig} {text : TextCase} {s u : System} → Step c text s u → Inv c s → Inv c u
unfolding enqueue start stop
Step-Inv {c} (enqueues now event_id address request p e) v =
    rw e (enqueue_item-Inv c v (new_item c now event_id address request p))
Step-Inv {c} (polls now on e) v = rw e (poll_system-Inv c v now)
Step-Inv {c} {text} (settles now draw before after r o split e) v =
    rw e (settle-Inv c v before after r split text now draw o)
Step-Inv (starts e) v = rw e (timer-Inv true v)
Step-Inv (stops e) v = rw e (timer-Inv false v)

-- In every reachable state of the event loop: a fingerprint is recorded as queued exactly while one
-- item with it, and no second, waits or runs; it is recorded as active exactly while that item runs;
-- no more items run than the configured concurrency; and the items accepted are those that
-- succeeded, failed, wait or run.
pub Reach-Inv : {c : QueueConfig} {text : TextCase} {s : System} → Reach c text s → Inv c s
Reach-Inv {c} here = initial-Inv c
Reach-Inv (next r st) = Step-Inv st (Reach-Inv r)
