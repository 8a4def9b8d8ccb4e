-- ===== src/ProcessingQueue/Invariant.antt =====
-- The invariant of listener/src/services/event-processing-queue.ts over every interleaving of
-- enqueues, polls and settlements: its statement, and that enqueuing keeps it.
pub mod Polling
pub mod Settling
pub mod Reachable
use notify_chain.Prelude.{
  ℕ, suc, ◌+◌, ◌-◌, ◌≤◌, min, ◌≡◌, refl, ◌↔◌, String, Bool, true, false, not, ◌||◌, List, [], ◌∷◌,
  ◌++◌, map, arith, length, length-append, length-take, take, leb, string_key, ite,
}
use notify_chain.Prelude.JsSet
use notify_chain.Prelude.JsSet.{has-add, has-delete, has-add_all, add_all-Distinct, delete-Distinct}
use notify_chain.Prelude.Count.{
  count, indicator, count-append, length-eq_of_count, length-eq_of_members,
}
use notify_chain.RetryPolicy.{TextCase, RetryDecision}
use notify_chain.ProcessingQueue.{
  Queue, QueueConfig, QueuedEvent, Outcome, returned, threw, Priority, init, enqueue, enqueue_item,
  new_item, poll, take_selected, select_due, settle, handle_failure, apply_decision, start, stop,
  release, calculate_delay, fingerprints,
}
use notify_chain.ProcessingQueue.Order.{item_fingerprint, length-sort_due}
use notify_chain.ProcessingQueue.Selection.{
  count-poll, length-select_due, indicator-has-fingerprints,
}
use notify_chain.ProcessingQueue.System.{
  Running, System, begin, poll_system, Step, Reach, initial, enqueues, polls, settles, starts,
  stops, here, next,
}

abbrev pub running_fingerprint : Running → String
running_fingerprint r = r.item.fingerprint

-- How many items with the fingerprint are queued, and how many are in flight.
abbrev pub queued : String → System → ℕ
queued k s = count item_fingerprint k s.queue.queue

abbrev pub running : String → System → ℕ
running k s = count running_fingerprint k s.in_flight

pub record Inv (c : QueueConfig) (s : System) : Type 0 where
  -- A fingerprint is recorded as queued exactly while one item with it waits or runs.
  pub known :
      (k : String) → indicator (JsSet.has k s.queue.queued_fingerprints) ≡ queued k s + running k s
  -- A fingerprint is recorded as active exactly while an item with it runs.
  pub active : (k : String) → indicator (JsSet.has k s.queue.active_fingerprints) ≡ running k s
  pub distinct : JsSet.Distinct s.queue.active_fingerprints
  pub capacity : length s.in_flight ≤ c.max_concurrency
  -- Every item that was accepted is processed, waits or runs.
  pub conserved :
      s.queue.metrics.total_enqueued
      ≡ s.queue.metrics.total_processed + length s.queue.queue + length s.in_flight
  pub sorted_out :
      s.queue.metrics.total_processed
      ≡ s.queue.metrics.total_succeeded + s.queue.metrics.total_failed

pub indicator-le : (b : Bool) → indicator b ≤ 1
indicator-le true = omega arith
indicator-le false = omega arith

pub initial-Inv : (c : QueueConfig) → Inv c initial
unfolding JsSet.has JsSet.Distinct count
initial-Inv c = record {
  known = λ k. refl;
  active = λ k. refl;
  distinct = tt;
  capacity = omega arith;
  conserved = refl;
  sorted_out = refl;
}

module _ (c : QueueConfig) {s : System} (v : Inv c s) where
  pub enqueue_item-Inv :
      (item : QueuedEvent) → Inv c (record s { queue = (enqueue_item item s.queue).0 })
  unfolding enqueue_item count
  enqueue_item-Inv item = record {
    known = λ k. ground (
      arith,
      v.known k,
      v.known item.fingerprint,
      has-add k item.fingerprint s.queue.queued_fingerprints,
      count-append item_fingerprint k s.queue.queue (item ∷ []),
    );
    active = λ k. ground (arith, v.active k);
    distinct = ground (arith, v.distinct);
    capacity = v.capacity;
    conserved = ground (arith, v.conserved, length-append s.queue.queue (item ∷ []));
    sorted_out = ground (arith, v.sorted_out);
  }
