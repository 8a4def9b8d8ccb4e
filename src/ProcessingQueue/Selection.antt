-- ===== src/ProcessingQueue/Selection.antt =====
-- What `processNext` of listener/src/services/event-processing-queue.ts hands to the processor
-- and what it leaves.
use notify_chain.Prelude.{
  ℕ, ◌+◌, ◌-◌, ◌≤◌, min, ◌≡◌, refl, inl, inr, String, true, false, not, List, [], ◌∷◌, arith,
  length, length-take, filter, Bool-cases, leb, string_key, ◌∙◌,
}
use notify_chain.Prelude.JsSet
use notify_chain.Prelude.JsSet.{JsSet, has-add_all}
use notify_chain.Prelude.Count.{count, count-take-le, count-filter-split}
use notify_chain.ProcessingQueue.{
  Queue, QueueConfig, QueuedEvent, is_due, is_left, select_due, take_selected, poll, sort_due,
  fingerprints,
}
use notify_chain.ProcessingQueue.Order.{item_fingerprint, count-sort_due, length-sort_due}

pub indicator-has-fingerprints :
    (k : String) (xs : List QueuedEvent)
    → JsSet.has k (fingerprints xs) ≡ leb 1 (count item_fingerprint k xs)
unfolding JsSet.has count
indicator-has-fingerprints k [] = refl
indicator-has-fingerprints k (x ∷ xs) = ground (arith, indicator-has-fingerprints k xs)

module _ (now : ℕ) (active selected : JsSet String) (k : String) where
  count-is_left_unselected :
      (xs : List QueuedEvent)
      → JsSet.has k selected ≡ false
      → count item_fingerprint k (filter (is_left now active selected) xs)
        ≡ count item_fingerprint k xs
  unfolding count is_left
  count-is_left_unselected [] h = refl
  count-is_left_unselected (x ∷ xs) h = ground (arith, count-is_left_unselected xs)

  count-is_left_selected :
      (xs : List QueuedEvent)
      → JsSet.has k selected ≡ true
      → count item_fingerprint k (filter (is_left now active selected) xs)
        ≡ count item_fingerprint k (filter (λ x. not (is_due now active x)) xs)
  unfolding count is_left is_due
  count-is_left_selected [] h = refl
  count-is_left_selected (x ∷ xs) h = ground (arith, count-is_left_selected xs)

module _ (c : QueueConfig) (now : ℕ) (q : Queue) where
  -- As many items are taken as are due, up to the free capacity.
  pub length-select_due :
      length (select_due c now q)
      ≡ min
          (c.max_concurrency - length q.active_fingerprints)
          (length (filter (is_due now q.active_fingerprints) q.queue))
  unfolding select_due
  length-select_due =
      let elig = filter (is_due now q.active_fingerprints) q.queue in
      omega (
        arith,
        length-take (c.max_concurrency - length q.active_fingerprints)
            (sort_due c.priority_weights now elig),
        length-sort_due c.priority_weights now elig,
      )

  count-select_due-le :
      (k : String)
      → count item_fingerprint k (select_due c now q)
        ≤ count item_fingerprint k (filter (is_due now q.active_fingerprints) q.queue)
  unfolding select_due
  count-select_due-le k =
      let elig = filter (is_due now q.active_fingerprints) q.queue in
      omega
        (arith, count-take-le item_fingerprint k _ _, count-sort_due c.priority_weights now k elig)

  count-left :
      (k : String)
      → count item_fingerprint k q.queue ≤ 1
      → count item_fingerprint k (
            filter
              (is_left now q.active_fingerprints
                (JsSet.add_all (fingerprints (select_due c now q)) []))
              q.queue)
          + count item_fingerprint k (select_due c now q)
        ≡ count item_fingerprint k q.queue
  unfolding JsSet.has
  count-left k u =
      let active = q.active_fingerprints in
      let due = select_due c now q in
      let selected = JsSet.add_all (fingerprints due) [] in
      let member : JsSet.has k selected ≡ leb 1 (count item_fingerprint k due) =
        has-add_all k (fingerprints due) [] ∙ indicator-has-fingerprints k due in
      elim (Bool-cases (JsSet.has k selected)) [
        | inl chosen ↦ ground (
          arith,
          count-is_left_selected now active selected k q.queue chosen,
          count-filter-split item_fingerprint k (is_due now active) q.queue,
          count-select_due-le k,
        )
        | inr other ↦ ground (arith, count-is_left_unselected now active selected k q.queue other)
      ]

  -- With no fingerprint queued twice, each fingerprint is as often among the items taken and the
  -- items left as it was in the queue.
  pub count-poll :
      (k : String)
      → count item_fingerprint k q.queue ≤ 1
      → count item_fingerprint k (poll c now q).0.queue + count item_fingerprint k (poll c now q).1
        ≡ count item_fingerprint k q.queue
  unfolding poll take_selected count
  count-poll k u = ground (arith, count-left k u)
