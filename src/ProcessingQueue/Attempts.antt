-- ===== src/ProcessingQueue/Attempts.antt =====
-- The retries of listener/src/services/event-processing-queue.ts: the attempts that are left in a
-- state, and what polling, enqueuing and settling do to them.
pub mod Bound
use notify_chain.Prelude.{
  ℕ, zero, suc, ◌+◌, ◌-◌, ◌*◌, ◌≤◌, ◌<◌, ◌≡◌, refl, ap, ◌⊎◌, inl, inr, Bool, true, false, some,
  List, [], ◌∷◌, ◌++◌, map, arith, if◌then◌else◌, leb, Bool-cases, string_key,
}
use notify_chain.Prelude.JsSet
use notify_chain.Prelude.Count.{sum_of, sum_of-append}
use notify_chain.RetryPolicy.{
  TextCase, RetryFailureType, RetryDecisionReason, permanent, resolve_max_attempts, evaluate,
  unknown, classify_error,
}
use notify_chain.RetryPolicy.Budget.{resolve_max_attempts_bounds, evaluate-should_retry_iff}
use notify_chain.ProcessingQueue.{
  Queue, QueueConfig, QueuedEvent, Metrics, Outcome, returned, threw, enqueue, enqueue_item,
  new_item, poll, settle, start, stop, handle_failure, apply_decision, release, calculate_delay,
  take_selected, count_failure,
}
use notify_chain.ProcessingQueue.Items.{sum_of-poll}
use notify_chain.ProcessingQueue.System.{
  Running, System, begin, poll_system, Step, initial, enqueues, polls, settles, starts, stops,
  Reach,
}
use notify_chain.ProcessingQueue.Invariant.{Inv, initial-Inv}
use notify_chain.ProcessingQueue.Invariant.Polling.{queued-le, poll-keeps}
use notify_chain.ProcessingQueue.Invariant.Reachable.{Step-Inv}

-- The attempts that an item may have in all.
unfoldable pub budget : QueueConfig → ℕ
budget c = resolve_max_attempts c.policy (some c.max_retries)

-- The attempts that an item still has, and whether it has had too many already.
unfoldable pub attempts_left : QueueConfig → QueuedEvent → ℕ
attempts_left c item = budget c - item.retry_count

unfoldable pub overdrawn : QueueConfig → QueuedEvent → ℕ
overdrawn c item = if leb (budget c) item.retry_count then 1 else 0

-- A sum over the items that wait or run.
unfoldable pub total : (QueuedEvent → ℕ) → System → ℕ
total g s = sum_of g s.queue.queue + sum_of (λ r. g r.item) s.in_flight

sum_of-begin :
    (g : QueuedEvent → ℕ) (now : ℕ) (xs : List QueuedEvent)
    → sum_of (λ r. g r.item) (map (begin now) xs) ≡ sum_of g xs
unfolding sum_of
sum_of-begin g now [] = refl
sum_of-begin g now (x ∷ xs) = omega (arith, sum_of-begin g now xs)

pub total-poll_system :
    (g : QueuedEvent → ℕ) (c : QueueConfig) (now : ℕ) {s : System}
    → Inv c s
    → total g (poll_system c now s) ≡ total g s
unfolding total poll_system
total-poll_system g c now {s} v = omega (
  arith,
  sum_of-poll g c now s.queue (queued-le c v),
  sum_of-append (λ (r : Running). g r.item) s.in_flight (map (begin now) (poll c now s.queue).1),
  sum_of-begin g now (poll c now s.queue).1,
)

-- An item that is not accepted changes nothing; one that is adds its own share.
pub total-enqueue_item :
    (g : QueuedEvent → ℕ) (item : QueuedEvent) (s : System)
    → let q = (enqueue_item item s.queue).0 in
      let u = record s { queue = q } in
      ((total g u ≡ total g s) × (q.metrics.total_enqueued ≡ s.queue.metrics.total_enqueued))
      ⊎ ((total g u ≡ total g s + g item)
          × (q.metrics.total_enqueued ≡ s.queue.metrics.total_enqueued + 1))
unfolding total enqueue_item sum_of
total-enqueue_item g item s =
    elim (Bool-cases (JsSet.has item.fingerprint s.queue.queued_fingerprints)) [
      | inl known ↦ inl (rw known refl, rw known refl)
      | inr fresh ↦
          inr (rw fresh (omega (arith, sum_of-append g s.queue.queue (item ∷ []))), rw fresh refl)
    ]

module _ (c : QueueConfig) (g : QueuedEvent → ℕ) (s : System) where
  module _ (before after : List Running) (r : Running) (e : s.in_flight ≡ before ++ r ∷ after) where
    total-removed :
        total g s ≡ sum_of g s.queue.queue + sum_of (λ r. g r.item) (before ++ after) + g r.item
    unfolding total sum_of
    total-removed = rw e (
        omega (
          arith,
          sum_of-append (λ (r : Running). g r.item) before (r ∷ after),
          sum_of-append (λ (r : Running). g r.item) before after,
        ))

-- What a failed item becomes when it is queued again.
abbrev pub retried : QueueConfig → ℕ → QueuedEvent → QueuedEvent
retried c now item = record item {
  retry_count = item.retry_count + 1;
  next_retry_at = now + calculate_delay c (item.retry_count + 1);
}

-- A settlement lets the item go, or queues it again with one attempt more, within the budget.
abbrev pub Settled : QueueConfig → ℕ → QueuedEvent → Queue → Queue → Type 0
Settled c now item q q' =
    (q'.metrics.total_enqueued ≡ q.metrics.total_enqueued)
    × ((q'.queue ≡ q.queue)
        ⊎ ((q'.queue ≡ q.queue ++ retried c now item ∷ []) × (item.retry_count + 1 < budget c)))

count_failure_enqueued :
    (r : RetryDecisionReason) (duration : ℕ) (m : Metrics)
    → (count_failure r duration m).total_enqueued ≡ m.total_enqueued
unfolding count_failure
count_failure_enqueued permanent duration m = refl
count_failure_enqueued _ duration m = refl

handle_failure-Settled :
    (c : QueueConfig) (draw now : ℕ) (item : QueuedEvent) (t : RetryFailureType) (duration : ℕ)
    (q : Queue)
    → Settled c now item q
        (handle_failure c draw now item (item.retry_count + 1) t duration (release item q))
unfolding handle_failure release budget apply_decision count_failure
handle_failure-Settled c draw now item t duration q =
    let d = evaluate c.policy draw t (item.retry_count + 1) c.max_retries in
    elim (Bool-cases d.should_retry) [
      | inl again ↦
          let fits =
            (evaluate-should_retry_iff c.policy draw t (item.retry_count + 1) c.max_retries).0
              again in
          (rw again refl, inr (rw again refl, omega (arith, fits.1)))
      | inr over ↦
          (rw over (count_failure_enqueued d.reason duration q.metrics), inl (rw over refl))
    ]

pub settle-Settled :
    (c : QueueConfig) (text : TextCase) (draw now started : ℕ) (item : QueuedEvent) (o : Outcome)
    (q : Queue)
    → Settled c now item q (settle c text draw now started item o q)
unfolding settle
settle-Settled c text draw now started item (returned true) q = (refl, inl refl)
settle-Settled c text draw now started item (returned false) q =
    handle_failure-Settled c draw now item unknown (now - started) q
settle-Settled c text draw now started item (threw error) q =
    handle_failure-Settled c draw now item (classify_error text error) (now - started) q

module _ (c : QueueConfig) (text : TextCase) (s : System) (now draw : ℕ)
    (before after : List Running) (r : Running) (o : Outcome)
    (e : s.in_flight ≡ before ++ r ∷ after) where
  abbrev pub after_settling : System
  after_settling = record {
    queue = settle c text draw now r.started_at r.item o s.queue;
    in_flight = before ++ after;
  }

  total-after_settling :
      (g : QueuedEvent → ℕ)
      → (total g after_settling + g r.item ≡ total g s)
        ⊎ ((total g after_settling + g r.item ≡ total g s + g (retried c now r.item))
            × (r.item.retry_count + 1 < budget c))
  unfolding total sum_of
  total-after_settling g =
      let q' = settle c text draw now r.started_at r.item o s.queue in
      let parts = total-removed c g s before after r e in
      elim (settle-Settled c text draw now r.started_at r.item o s.queue).1 [
        | inl same ↦ inl (omega (arith, parts, ap (sum_of g) same))
        | inr (again, fits) ↦ inr (
          omega (
            arith,
            parts,
            ap (sum_of g) again,
            sum_of-append g s.queue.queue (retried c now r.item ∷ []),
          ),
          fits,
        )
      ]

  pub settling-falls :
      total (overdrawn c) s ≡ 0
      → suc (total (attempts_left c) after_settling) ≤ total (attempts_left c) s
  unfolding attempts_left overdrawn
  settling-falls inside = ground (
    arith,
    inside,
    total-removed c (overdrawn c) s before after r e,
    total-after_settling (attempts_left c),
  )

  pub settling-within : total (overdrawn c) s ≡ 0 → total (overdrawn c) after_settling ≡ 0
  unfolding overdrawn
  settling-within inside = ground (arith, inside, total-after_settling (overdrawn c))
