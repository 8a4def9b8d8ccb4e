-- ===== src/ProcessingQueue.antt =====
-- `EventProcessingQueue` of listener/src/services/event-processing-queue.ts. An operation takes the
-- clock's reading and returns the new state. `processNext` and `processItem` are each cut where
-- they await the processor: `poll` runs up to there, and `settle` from there on. The events whose
-- processor has not settled yet are the list `in_flight` of ProcessingQueue/System.antt.
mod Events
mod State
pub mod Order
pub mod Ranking
pub mod Selection
pub mod Items
pub mod System
pub mod Invariant
pub mod Attempts
pub mod Outcomes
mod Tests
unfoldable pub use Events.*
unfoldable pub use State.*
use notify_chain.Prelude.{
  ℕ, ◌+◌, ◌-◌, ◌*◌, ◌^◌, max, String, Bool, true, false, not, ◌&&◌, ◌||◌, Option, none, some, List,
  [], ◌∷◌, ◌++◌, map, if◌then◌else◌, ltb, leb, ◌==◌, length, take, filter, string_key,
}
use notify_chain.Prelude.JsSet
use notify_chain.Prelude.JsSet.{JsSet}
use notify_chain.RetryPolicy.{
  RetryPolicyConfig, RetryDecision, RetryDecisionReason, RetryFailureType, Thrown, TextCase,
  evaluate, classify_error, retry_policy_defaults,
}

-- `calculateDelay`
unfoldable pub calculate_delay : QueueConfig → ℕ → ℕ
calculate_delay c retry_count = c.base_delay_ms * 2 ^ retry_count

-- What `enqueue` pushes. `request_id` is the correlation id that it has settled on.
unfoldable pub new_item : QueueConfig → ℕ → String → String → String → Priority → QueuedEvent
unfolding calculate_delay build_event_fingerprint
new_item c now event_id contract_address request_id priority = record {
  event_id = event_id;
  contract_address = contract_address;
  request_id = request_id;
  retry_count = 0;
  next_retry_at = now + calculate_delay c 0;
  fingerprint = build_event_fingerprint event_id contract_address;
  priority = priority;
  enqueued_at = now;
}

-- `enqueue` of an event that has been made an item.
unfoldable pub enqueue_item : QueuedEvent → Queue → Queue × Bool
enqueue_item item q = if JsSet.has item.fingerprint q.queued_fingerprints then (q, false) else (
  record q {
    queue = q.queue ++ item ∷ [];
    queued_fingerprints = JsSet.add item.fingerprint q.queued_fingerprints;
    metrics = record (q.metrics) { total_enqueued = q.metrics.total_enqueued + 1 };
  },
  true,
)

-- `enqueue`
unfoldable pub enqueue :
    QueueConfig → ℕ → String → String → String → Priority → Queue → Queue × Bool
unfolding enqueue_item new_item
enqueue c now event_id contract_address request_id priority q =
    enqueue_item (new_item c now event_id contract_address request_id priority) q

-- `start` and `stop`: whether the interval timer is set.
unfoldable pub start : Queue → Queue
start q = record q { timer = true }

unfoldable pub stop : Queue → Queue
stop q = record q { timer = false }

-- `size` and `pendingCount`
unfoldable pub size : Queue → ℕ
size q = length q.queue

-- The filter of `processNext`.
unfoldable pub is_due : ℕ → JsSet String → QueuedEvent → Bool
is_due now active item = leb item.next_retry_at now && not (JsSet.has item.fingerprint active)

-- The items that `processNext` takes.
unfoldable pub select_due : QueueConfig → ℕ → Queue → List QueuedEvent
unfolding is_due sort_due
select_due c now q =
    take (c.max_concurrency - length q.active_fingerprints)
      (sort_due c.priority_weights now (filter (is_due now q.active_fingerprints) q.queue))

-- The filter that leaves the other items in the queue.
unfoldable pub is_left : ℕ → JsSet String → JsSet String → QueuedEvent → Bool
is_left now active selected item =
    ltb now item.next_retry_at
    || JsSet.has item.fingerprint active
    || not (JsSet.has item.fingerprint selected)

unfoldable pub bump : PerPriority → Priority → PerPriority
bump n high = record n { high = n.high + 1 }
bump n medium = record n { medium = n.medium + 1 }
bump n low = record n { low = n.low + 1 }

unfoldable pub count_priorities : PerPriority → List QueuedEvent → PerPriority
count_priorities n [] = n
count_priorities n (item ∷ items) = count_priorities (bump n item.priority) items

abbrev pub fingerprints : List QueuedEvent → List String
fingerprints items = map (λ item. item.fingerprint) items

-- `processNext` once the items are selected, with the start of each `processItem`.
unfoldable pub take_selected : ℕ → List QueuedEvent → Queue → Queue
unfolding is_left count_priorities bump
take_selected now [] q = q
take_selected now (item ∷ items) q =
    let due = item ∷ items in
    let selected = JsSet.add_all (fingerprints due) [] in
    record q {
      queue = filter (is_left now q.active_fingerprints selected) q.queue;
      active_fingerprints = JsSet.add_all (fingerprints due) q.active_fingerprints;
      priority_counters = count_priorities q.priority_counters due;
    }

-- `processNext` up to its `await`: the new state, and the items handed to the processor. With no
-- capacity left, `take` of zero items selects none, which is the first early return.
unfoldable pub poll : QueueConfig → ℕ → Queue → Queue × List QueuedEvent
unfolding select_due take_selected
poll c now q = let due = select_due c now q in (take_selected now due q, due)

-- What the processor's promise settles to.
pub data Outcome : Type 0 where
  returned : Bool → Outcome
  threw : Thrown → Outcome

-- The metrics of an item that is not retried.
unfoldable pub count_failure : RetryDecisionReason → ℕ → Metrics → Metrics
count_failure RetryDecisionReason.permanent duration m = record m {
  total_processed = m.total_processed + 1;
  total_failed = m.total_failed + 1;
  total_skipped_permanent = m.total_skipped_permanent + 1;
  processing_times = m.processing_times ++ duration ∷ [];
}
count_failure _ duration m = record m {
  total_processed = m.total_processed + 1;
  total_failed = m.total_failed + 1;
  processing_times = m.processing_times ++ duration ∷ [];
}

-- The two ends of `handleFailure`, by the policy's decision.
unfoldable pub apply_decision :
    QueueConfig → ℕ → QueuedEvent → ℕ → ℕ → RetryDecision → Queue → Queue
unfolding count_failure calculate_delay
apply_decision c now item attempt duration decision q =
    if decision.should_retry
    then record q {
      queue =
          q.queue
          ++ record item { retry_count = attempt; next_retry_at = now + calculate_delay c attempt }
            ∷ [];
    }
    else record q {
      queued_fingerprints = JsSet.delete item.fingerprint q.queued_fingerprints;
      metrics = count_failure decision.reason duration q.metrics;
    }

-- `handleFailure`. The policy draws a random number for a delay that this queue does not use.
unfoldable pub handle_failure :
    QueueConfig → ℕ → ℕ → QueuedEvent → ℕ → RetryFailureType → ℕ → Queue → Queue
unfolding apply_decision
handle_failure c draw now item attempt failure_type duration q =
    apply_decision c now item attempt duration
      (evaluate c.policy draw failure_type attempt c.max_retries) q

release : QueuedEvent → Queue → Queue
release item q = record q {
  active_fingerprints = JsSet.delete item.fingerprint q.active_fingerprints;
}

-- `processItem` from its `await` on; the processor was called at `started`.
unfoldable pub settle : QueueConfig → TextCase → ℕ → ℕ → ℕ → QueuedEvent → Outcome → Queue → Queue
unfolding handle_failure release
settle c text draw now started item (returned true) q = record q {
  queued_fingerprints = JsSet.delete item.fingerprint q.queued_fingerprints;
  active_fingerprints = JsSet.delete item.fingerprint q.active_fingerprints;
  metrics = record (q.metrics) {
    total_processed = q.metrics.total_processed + 1;
    total_succeeded = q.metrics.total_succeeded + 1;
    processing_times = q.metrics.processing_times ++ (now - started) ∷ [];
  };
}
settle c text draw now started item (returned false) q =
    handle_failure c draw now item (item.retry_count + 1) RetryFailureType.unknown (now - started)
      (release item q)
settle c text draw now started item (threw error) q =
    handle_failure c draw now item (item.retry_count + 1) (classify_error text error)
      (now - started) (release item q)
