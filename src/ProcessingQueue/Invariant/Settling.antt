-- ===== src/ProcessingQueue/Invariant/Settling.antt =====
-- `processItem` of listener/src/services/event-processing-queue.ts and the invariant, when its
-- processor has settled.
use notify_chain.Prelude.{
  ℕ, suc, ◌+◌, ◌-◌, ◌≡◌, String, true, false, List, [], ◌∷◌, ◌++◌, arith, length, length-append,
  string_key,
}
use notify_chain.Prelude.JsSet
use notify_chain.Prelude.JsSet.{has-add, has-delete, has-add_all, add_all-Distinct, delete-Distinct}
use notify_chain.Prelude.Count.{count, count-append}
use notify_chain.RetryPolicy.{TextCase, RetryDecision, unknown, classify_error, evaluate}
use notify_chain.ProcessingQueue.{
  QueueConfig, Outcome, returned, threw, settle, apply_decision, release, calculate_delay,
}
use notify_chain.ProcessingQueue.Order.{item_fingerprint}
use notify_chain.ProcessingQueue.System.{Running, System}
use notify_chain.ProcessingQueue.Invariant.{Inv, running_fingerprint, running, indicator-le}

module _ (c : QueueConfig) {s : System} (v : Inv c s) where
  module _ (before after : List Running) (r : Running) (e : s.in_flight ≡ before ++ r ∷ after) where
    removed :
        (k : String)
        → running k s
          ≡ count running_fingerprint k (before ++ after) + count running_fingerprint k (r ∷ [])
    unfolding count
    removed k = rw e (
        omega (
          arith,
          count-append running_fingerprint k before (r ∷ after),
          count-append running_fingerprint k before after,
        ))

    length-removed : length s.in_flight ≡ suc (length (before ++ after))
    length-removed =
        rw e (omega (arith, length-append before (r ∷ after), length-append before after))

    succeed-Inv :
        (text : TextCase) (now draw : ℕ)
        → Inv c (record {
          queue = settle c text draw now r.started_at r.item (returned true) s.queue;
          in_flight = before ++ after;
        })
    unfolding settle count
    succeed-Inv text now draw = record {
      known = λ k. ground (
        arith,
        v.known k,
        removed k,
        indicator-le (JsSet.has k s.queue.queued_fingerprints),
        has-delete k r.item.fingerprint s.queue.queued_fingerprints,
      );
      active = λ k. ground (
        arith,
        v.active k,
        removed k,
        indicator-le (JsSet.has k s.queue.active_fingerprints),
        has-delete k r.item.fingerprint s.queue.active_fingerprints,
      );
      distinct = delete-Distinct r.item.fingerprint s.queue.active_fingerprints v.distinct;
      capacity = omega (arith, v.capacity, length-removed);
      conserved = omega (arith, v.conserved, length-removed);
      sorted_out = omega (arith, v.sorted_out);
    }

    apply_decision-Inv :
        (now attempt duration : ℕ) (d : RetryDecision)
        → Inv c (record {
          queue = apply_decision c now r.item attempt duration d (release r.item s.queue);
          in_flight = before ++ after;
        })
    unfolding apply_decision release count
    apply_decision-Inv now attempt duration d = record {
      known = λ k. ground (
        arith,
        v.known k,
        removed k,
        indicator-le (JsSet.has k s.queue.queued_fingerprints),
        has-delete k r.item.fingerprint s.queue.queued_fingerprints,
        count-append item_fingerprint k s.queue.queue (
            record (r.item) {
              retry_count = attempt;
              next_retry_at = now + calculate_delay c attempt;
            }
            ∷ []),
      );
      active = λ k. ground (
        arith,
        v.active k,
        removed k,
        indicator-le (JsSet.has k s.queue.active_fingerprints),
        has-delete k r.item.fingerprint s.queue.active_fingerprints,
      );
      distinct =
          ground (arith, delete-Distinct r.item.fingerprint s.queue.active_fingerprints v.distinct);
      capacity = omega (arith, v.capacity, length-removed);
      conserved = ground (
        arith,
        v.conserved,
        length-removed,
        length-append s.queue.queue (
            record (r.item) {
              retry_count = attempt;
              next_retry_at = now + calculate_delay c attempt;
            }
            ∷ []),
      );
      sorted_out = ground (arith, v.sorted_out);
    }

    pub settle-Inv :
        (text : TextCase) (now draw : ℕ) (o : Outcome)
        → Inv c (record {
          queue = settle c text draw now r.started_at r.item o s.queue;
          in_flight = before ++ after;
        })
    unfolding settle
    settle-Inv text now draw (returned true) = succeed-Inv text now draw
    settle-Inv text now draw (returned false) =
        apply_decision-Inv now (r.item.retry_count + 1) (now - r.started_at)
          (evaluate c.policy draw unknown (r.item.retry_count + 1) c.max_retries)
    settle-Inv text now draw (threw error) =
        apply_decision-Inv now (r.item.retry_count + 1) (now - r.started_at) (
          evaluate c.policy draw (classify_error text error) (r.item.retry_count + 1) c.max_retries)
