-- ===== src/ProcessingQueue/Outcomes.antt =====
-- What a caller of listener/src/services/event-processing-queue.ts can rely on: which events are
-- accepted, which due events go first, and which failures are tried again.
use mathlib.Core.List.{Perm}
use notify_chain.Prelude.{
  List, leb, not, ℕ, ◌+◌, ◌-◌, ◌≤◌, min, ◌≡◌, refl, ◌↔◌, String, false, ◌&&◌, [], ◌∷◌, ◌++◌, arith,
  if◌then◌else◌, length, take, drop, filter, All, ltb, string_key,
}
use notify_chain.Prelude.JsSet
use notify_chain.Prelude.JsSet.{has-delete}
use notify_chain.RetryPolicy.{
  TextCase, Thrown, classify_error, is_retryable, is_permanent, evaluate,
}
use notify_chain.ProcessingQueue.{
  Queue, QueueConfig, QueuedEvent, Priority, threw, enqueue, enqueue_item, new_item, poll, is_due,
  select_due, sort_due, settle, handle_failure, apply_decision, release, build_event_fingerprint,
  count_failure,
}
use notify_chain.ProcessingQueue.Order.{sort_due-IsSorted}
use notify_chain.ProcessingQueue.Ranking.{
  IsRanked, MayPrecede, IsSorted-IsRanked, ranked_take_first, sort_due-Perm,
}
use notify_chain.ProcessingQueue.Selection.{length-select_due}
use notify_chain.ProcessingQueue.System.{System}
use notify_chain.ProcessingQueue.Invariant.{Inv, queued, running}
use notify_chain.ProcessingQueue.Attempts.{budget, retried}

-- An event is turned away exactly while one with the same fingerprint waits or runs, and then
-- nothing changes.
pub enqueue-rejects_iff :
    {c : QueueConfig} {s : System}
    → Inv c s
    → (now : ℕ) (event_id address request_id : String) (p : Priority)
    → let k = build_event_fingerprint event_id address in
      let (q, accepted) = enqueue c now event_id address request_id p s.queue in
      ((accepted ≡ false) ↔ (1 ≤ queued k s + running k s)) × (accepted ≡ false → q ≡ s.queue)
unfolding enqueue enqueue_item new_item
enqueue-rejects_iff v now event_id address request_id p =
    ground (arith, v.known (build_event_fingerprint event_id address))

-- With no item enqueued in the future, `processNext` takes as many items as are due, that is, whose
-- retry time has come and whose fingerprint is not active, up to the free concurrency. There is a
-- permutation of the due items in which each may be served before all later ones: by a higher sum of
-- its priority's number, its weight and its whole minutes in the queue, or by the same and having been
-- enqueued no later. The items taken are the first of it, so each of them may be served before all due
-- items that are not taken.
pub poll_takes_first :
    (c : QueueConfig) (now : ℕ) (q : Queue)
    → All (λ x. x.enqueued_at ≤ now) q.queue
    → let due =
        filter
          (λ x. leb x.next_retry_at now && not (JsSet.has x.fingerprint q.active_fingerprints))
          q.queue in
      let free = c.max_concurrency - length q.active_fingerprints in
      let taken = (poll c now q).1 in
      (length taken ≡ min free (length due))
      × ((sorted : List QueuedEvent) × Perm sorted due
          × IsRanked c.priority_weights now sorted
          × (taken ≡ take free sorted)
          × All (λ x. All (MayPrecede c.priority_weights now x) (drop free sorted)) taken)
unfolding poll select_due is_due
poll_takes_first c now q past =
    let due = filter (is_due now q.active_fingerprints) q.queue in
    let free = c.max_concurrency - length q.active_fingerprints in
    let w = c.priority_weights in
    let ranked = IsSorted-IsRanked w now (sort_due w now due) (sort_due-IsSorted w now due) in
    (
      length-select_due c now q,
      (
        sort_due w now due,
        sort_due-Perm w now due,
        ranked,
        refl,
        ranked_take_first w now free (sort_due w now due) ranked,
      ),
    )

-- An item whose processor threw is queued again, with one attempt more and due at the delay for it,
-- exactly if its failure type is retryable and its attempts are below the budget; otherwise it
-- leaves the queue, is forgotten, and counts as failed. Either way it is no longer active.
pub settle_threw :
    (c : QueueConfig) (text : TextCase) (draw now started : ℕ) (item : QueuedEvent) (e : Thrown)
    (q : Queue)
    → let again =
        is_retryable c.policy (classify_error text e) && ltb (item.retry_count + 1) (budget c) in
      let q' = settle c text draw now started item (threw e) q in
      (q'.queue ≡ (if again then q.queue ++ retried c now item ∷ [] else q.queue))
      × (q'.queued_fingerprints ≡ (
          if again
          then q.queued_fingerprints
          else JsSet.delete item.fingerprint q.queued_fingerprints))
      × (q'.metrics.total_failed
          ≡ (if again then q.metrics.total_failed else q.metrics.total_failed + 1))
      × (JsSet.has item.fingerprint q'.active_fingerprints ≡ false)
unfolding settle handle_failure apply_decision release evaluate is_permanent count_failure budget
settle_threw c text draw now started item e q =
    ground (arith, has-delete item.fingerprint item.fingerprint q.active_fingerprints)
