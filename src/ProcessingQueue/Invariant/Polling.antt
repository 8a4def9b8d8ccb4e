-- ===== src/ProcessingQueue/Invariant/Polling.antt =====
-- `processNext` of listener/src/services/event-processing-queue.ts and the invariant.
use notify_chain.Prelude.{
  ℕ, ◌+◌, ◌≤◌, ◌≡◌, refl, String, ◌||◌, List, [], ◌∷◌, ◌++◌, map, arith, length, length-append, leb,
  string_key,
}
use notify_chain.Prelude.JsSet
use notify_chain.Prelude.JsSet.{has-add, has-delete, has-add_all, add_all-Distinct, delete-Distinct}
use notify_chain.Prelude.Count.{count, count-append, length-eq_of_count, length-eq_of_members}
use notify_chain.ProcessingQueue.{
  QueueConfig, QueuedEvent, poll, take_selected, select_due, fingerprints,
}
use notify_chain.ProcessingQueue.Order.{item_fingerprint}
use notify_chain.ProcessingQueue.Selection.{
  count-poll, length-select_due, indicator-has-fingerprints,
}
use notify_chain.ProcessingQueue.System.{System, begin, poll_system}
use notify_chain.ProcessingQueue.Invariant.{Inv, running_fingerprint, indicator-le}

module _ (c : QueueConfig) {s : System} (v : Inv c s) where
  count-begin :
      (now : ℕ) (k : String) (xs : List QueuedEvent)
      → count running_fingerprint k (map (begin now) xs) ≡ count item_fingerprint k xs
  unfolding count
  count-begin now k [] = refl
  count-begin now k (x ∷ xs) = omega (arith, count-begin now k xs)

  length-begin : (now : ℕ) (xs : List QueuedEvent) → length (map (begin now) xs) ≡ length xs
  length-begin now [] = refl
  length-begin now (x ∷ xs) = omega (arith, length-begin now xs)

  pub queued-le : (k : String) → count item_fingerprint k s.queue.queue ≤ 1
  queued-le k = omega (arith, v.known k, indicator-le (JsSet.has k s.queue.queued_fingerprints))

  poll-active :
      (now : ℕ) (k : String)
      → JsSet.has k (poll c now s.queue).0.active_fingerprints ≡ (
          JsSet.has k s.queue.active_fingerprints
          || leb 1 (count item_fingerprint k (poll c now s.queue).1))
  unfolding poll take_selected count
  poll-active now k =
      let due = select_due c now s.queue in
      ground (
        arith,
        has-add_all k (fingerprints due) s.queue.active_fingerprints,
        indicator-has-fingerprints k due,
      )

  pub poll-keeps :
      (now : ℕ)
      → JsSet.Distinct (poll c now s.queue).0.active_fingerprints
        × ((poll c now s.queue).0.queued_fingerprints ≡ s.queue.queued_fingerprints)
        × ((poll c now s.queue).0.metrics ≡ s.queue.metrics)
  unfolding poll take_selected
  poll-keeps now =
      let due = select_due c now s.queue in
      ground (
        arith,
        v.distinct,
        add_all-Distinct (fingerprints due) s.queue.active_fingerprints v.distinct,
      )

  length-poll :
      (now : ℕ)
      → length (poll c now s.queue).0.queue + length (poll c now s.queue).1 ≡ length s.queue.queue
  length-poll now =
      let (q, due) = poll c now s.queue in
      omega (
        arith,
        length-eq_of_count item_fingerprint (q.queue ++ due) s.queue.queue (λ k. omega (
          arith,
          count-append item_fingerprint k q.queue due,
          count-poll c now s.queue k (queued-le k),
        )),
        length-append q.queue due,
      )

  poll-capacity : (now : ℕ) → length s.in_flight + length (poll c now s.queue).1 ≤ c.max_concurrency
  unfolding poll
  poll-capacity now = omega (
    arith,
    v.capacity,
    length-select_due c now s.queue,
    length-eq_of_members running_fingerprint s.queue.active_fingerprints s.in_flight v.distinct
        v.active,
  )

  pub poll_system-Inv : (now : ℕ) → Inv c (poll_system c now s)
  unfolding poll_system
  poll_system-Inv now =
      let due = (poll c now s.queue).1 in
      record {
        known = λ k. ground (
          arith,
          v.known k,
          (poll-keeps now).1,
          count-poll c now s.queue k (queued-le k),
          count-append running_fingerprint k s.in_flight (map (begin now) due),
          count-begin now k due,
        );
        active = λ k. ground (
          arith,
          v.known k,
          v.active k,
          indicator-le (JsSet.has k s.queue.queued_fingerprints),
          poll-active now k,
          count-poll c now s.queue k (queued-le k),
          count-append running_fingerprint k s.in_flight (map (begin now) due),
          count-begin now k due,
        );
        distinct = (poll-keeps now).0;
        capacity = omega (
          arith,
          poll-capacity now,
          length-append s.in_flight (map (begin now) due),
          length-begin now due,
        );
        conserved = ground (
          arith,
          v.conserved,
          (poll-keeps now).2,
          length-poll now,
          length-append s.in_flight (map (begin now) due),
          length-begin now due,
        );
        sorted_out = ground (arith, v.sorted_out, (poll-keeps now).2);
      }
