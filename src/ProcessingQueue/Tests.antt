-- ===== src/ProcessingQueue/Tests.antt =====
-- Runs of listener/src/services/event-processing-queue.ts, and its theorems at concrete states.
use mathlib.Core.List.{List, Perm}
use notify_chain.Prelude.{
  ◌&&◌, not, leb, ℕ, ◌+◌, ◌*◌, ◌≤◌, min, ◌≡◌, refl, ◌↔◌, String, true, false, [], ◌∷◌, arith,
  length, take, drop, filter, All, string_key,
}
use notify_chain.Prelude.JsSet
use notify_chain.Prelude.Count.{count}
use notify_chain.RetryPolicy.{TextCase, retry_policy_defaults, failure_type_key}
use notify_chain.ProcessingQueue.{
  Queue, QueueConfig, QueuedEvent, Priority, returned, init, enqueue, poll, precedes, settle, start,
  new_item, build_event_fingerprint,
}
use notify_chain.ProcessingQueue.Order.{item_fingerprint}
use notify_chain.ProcessingQueue.Ranking.{IsRanked, MayPrecede}
use notify_chain.ProcessingQueue.Items.{occurrences, occurrences-poll}
use notify_chain.ProcessingQueue.System.{System, Running, Step, Reach, initial, begin, poll_system}
use notify_chain.ProcessingQueue.Invariant.{Inv, queued, running}
use notify_chain.ProcessingQueue.Invariant.Reachable.{Reach-Inv}
use notify_chain.ProcessingQueue.Attempts.{budget, attempts_left, total}
use notify_chain.ProcessingQueue.Attempts.Bound.{Run, settlements, Run-settles_boundedly}
use notify_chain.ProcessingQueue.Outcomes.{enqueue-rejects_iff, poll_takes_first}

abbrev config : QueueConfig
config = record {
  max_concurrency = 2;
  max_retries = 3;
  base_delay_ms = 2000;
  priority_weights = record { high = 5; medium = 2; low = 1 };
  policy = retry_policy_defaults;
}

-- Case conversion that leaves texts alone.
abbrev as_is : TextCase
as_is = record { to_lower_case = λ s. s; to_upper_case = λ s. s }

abbrev item : String → ℕ → ℕ → Priority → QueuedEvent
item id retries due p = record {
  event_id = id;
  contract_address = "C";
  request_id = "r";
  retry_count = retries;
  next_retry_at = due;
  fingerprint = build_event_fingerprint id "C";
  priority = p;
  enqueued_at = 0;
}

abbrev three : Queue
three = record init {
  queue =
      item "a" 0 2000 Priority.low
      ∷ item "b" 0 2000 Priority.high
      ∷ item "c" 0 2000 Priority.medium
      ∷ [];
}

program : Unit {0}
unfolding poll enqueue settle start string_key JsSet.has JsSet.delete precedes new_item
program = tt

-- The two with the highest priorities are taken, the third is left.
poll-three :
    (poll config 3000 three).1
    ≡ item "b" 0 2000 Priority.high ∷ item "c" 0 2000 Priority.medium ∷ []
unfolding program
poll-three = refl

-- One event is queued, the timer is started and fires, and the processor returns `true`.
abbrev queued_one : System
queued_one = record initial { queue = (enqueue config 0 "a" "C" "r" Priority.high initial.queue).0 }

abbrev started : System
started = record queued_one { queue = start queued_one.queue }

abbrev polled : System
polled = poll_system config 5000 started

abbrev first : Running
first = begin 5000 (new_item config 0 "a" "C" "r" Priority.high)

abbrev settled : System
settled = record {
  queue = settle config as_is 0 6000 5000 first.item (returned true) polled.queue;
  in_flight = [];
}

polled-Reach : Reach config as_is polled
unfolding start
polled-Reach =
    Reach.next
      (Reach.next (Reach.next Reach.here (Step.enqueues 0 "a" "C" "r" Priority.high refl))
        (Step.starts refl))
      (Step.polls 5000 refl refl)

in_flight-polled : polled.in_flight ≡ first ∷ []
unfolding program poll_system
in_flight-polled = refl

settled-Reach : Reach config as_is settled
settled-Reach =
    Reach.next polled-Reach (Step.settles 6000 0 [] [] first (returned true) in_flight-polled refl)

Reach-Inv_example : Inv config settled
Reach-Inv_example = Reach-Inv settled-Reach

settled-Run : Run config as_is settled 1
unfolding settlements start
settled-Run =
    Run.next
      (Run.next
        (Run.next (Run.next Run.here (Step.enqueues 0 "a" "C" "r" Priority.high refl) refl)
          (Step.starts refl) refl)
        (Step.polls 5000 refl refl) refl)
      (Step.settles 6000 0 [] [] first (returned true) in_flight-polled refl) refl

Run-settles_boundedly_example :
    1 + total (attempts_left config) settled ≤ budget config * settled.queue.metrics.total_enqueued
Run-settles_boundedly_example = Run-settles_boundedly settled-Run

three_once : count item_fingerprint "C:b" three.queue ≤ 1
unfolding count program
three_once = omega arith

occurrences-poll_example :
    occurrences (item "b" 0 2000 Priority.high) (poll config 3000 three).0.queue
      + occurrences (item "b" 0 2000 Priority.high) (poll config 3000 three).1
    ≡ occurrences (item "b" 0 2000 Priority.high) three.queue
unfolding program
occurrences-poll_example =
    occurrences-poll config 3000 three (item "b" 0 2000 Priority.high) three_once

enqueue-rejects_iff_example :
    (((enqueue config 5500 "a" "C" "r2" Priority.low polled.queue).1 ≡ false) ↔ (
      1
      ≤ queued (build_event_fingerprint "a" "C") polled
        + running (build_event_fingerprint "a" "C") polled))
    × ((enqueue config 5500 "a" "C" "r2" Priority.low polled.queue).1 ≡ false
        → (enqueue config 5500 "a" "C" "r2" Priority.low polled.queue).0 ≡ polled.queue)
enqueue-rejects_iff_example =
    enqueue-rejects_iff (Reach-Inv polled-Reach) 5500 "a" "C" "r2" Priority.low

three_past : All (λ x. x.enqueued_at ≤ 3000) three.queue
three_past = (omega arith, (omega arith, (omega arith, tt)))

poll_takes_first_example :
    let due =
      filter
        (λ x. leb x.next_retry_at 3000 && not (JsSet.has x.fingerprint three.active_fingerprints))
        three.queue in
    (length (poll config 3000 three).1 ≡ min 2 (length due))
    × ((sorted : List QueuedEvent) × Perm sorted due
        × IsRanked config.priority_weights 3000 sorted
        × ((poll config 3000 three).1 ≡ take 2 sorted)
        × All
            (λ x. All (MayPrecede config.priority_weights 3000 x) (drop 2 sorted))
            (poll config 3000 three).1)
poll_takes_first_example = poll_takes_first config 3000 three three_past

abbrev busy : Queue
busy = record init { queued_fingerprints = "C:a" ∷ []; active_fingerprints = "C:a" ∷ [] }
