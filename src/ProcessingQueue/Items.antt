-- ===== src/ProcessingQueue/Items.antt =====
-- What `processNext` of listener/src/services/event-processing-queue.ts does to the items with
-- all their fields, and to sums over them.
use notify_chain.Prelude.{
  ℕ, zero, suc, ◌+◌, ◌-◌, ◌≤◌, ◌≡◌, refl, inl, inr, ◌∙◌, String, true, false, not, List, [], ◌∷◌,
  ◌++◌, arith, length, take, drop, filter, Bool-cases, leb, Key, string_key, ℕ_discrete,
}
use notify_chain.Prelude.JsSet
use notify_chain.Prelude.JsSet.{JsSet, has-add_all}
use notify_chain.Prelude.Count.{
  count, count-append, count-filter-split, sum_of, sum_of-eq_of_count, sum_of-append,
}
use notify_chain.ProcessingQueue.{
  Queue, QueueConfig, QueuedEvent, Priority, is_due, is_left, select_due, take_selected, poll,
  sort_due, fingerprints, PerPriority, insert_due,
}
use notify_chain.ProcessingQueue.Order.{item_fingerprint, count-sort_due}
use notify_chain.ProcessingQueue.Selection.{indicator-has-fingerprints}

string_discrete : Discrete String
unfolding string_key
string_discrete = string_key.dec

Priority-discrete : Discrete Priority
Priority-discrete = hlevel

QueuedEvent-discrete : Discrete QueuedEvent
QueuedEvent-discrete = hlevel (string_discrete, ℕ_discrete, Priority-discrete)

instance pub item_key : Key QueuedEvent
item_key = record { dec = QueuedEvent-discrete }

abbrev pub itself : QueuedEvent → QueuedEvent
itself x = x

-- How often an item, with all its fields, is listed.
abbrev pub occurrences : QueuedEvent → List QueuedEvent → ℕ
occurrences = count itself

count-take-drop :
    {K : Type 0} ⦃key : Key K⦄ (f : QueuedEvent → K) (k : K) (n : ℕ) (xs : List QueuedEvent)
    → count f k (take n xs) + count f k (drop n xs) ≡ count f k xs
unfolding count
count-take-drop f k zero xs = omega arith
count-take-drop f k (suc n) [] = omega arith
count-take-drop f k (suc n) (x ∷ xs) = omega (arith, count-take-drop f k n xs)

occurrences-le :
    (x : QueuedEvent) (xs : List QueuedEvent)
    → occurrences x xs ≤ count item_fingerprint x.fingerprint xs
unfolding count
occurrences-le x [] = omega arith
occurrences-le x (y ∷ ys) = ground (arith, occurrences-le x ys)

module _ (w : PerPriority) (now : ℕ) (x : QueuedEvent) where
  occurrences-insert_due :
      (y : QueuedEvent) (ys : List QueuedEvent)
      → occurrences x (insert_due w now y ys) ≡ occurrences x (y ∷ ys)
  unfolding count insert_due
  occurrences-insert_due y [] = refl
  occurrences-insert_due y (z ∷ ys) = ground (arith, occurrences-insert_due y ys)

  occurrences-sort_due :
      (ys : List QueuedEvent) → occurrences x (sort_due w now ys) ≡ occurrences x ys
  unfolding count sort_due
  occurrences-sort_due [] = refl
  occurrences-sort_due (y ∷ ys) =
      ground (arith, occurrences-insert_due y (sort_due w now ys), occurrences-sort_due ys)

module _ (now : ℕ) (active selected : JsSet String) (x : QueuedEvent) where
  occurrences-is_left_unselected :
      (xs : List QueuedEvent)
      → JsSet.has x.fingerprint selected ≡ false
      → occurrences x (filter (is_left now active selected) xs) ≡ occurrences x xs
  unfolding count is_left
  occurrences-is_left_unselected [] h = refl
  occurrences-is_left_unselected (y ∷ ys) h = ground (arith, occurrences-is_left_unselected ys)

  occurrences-is_left_selected :
      (xs : List QueuedEvent)
      → JsSet.has x.fingerprint selected ≡ true
      → occurrences x (filter (is_left now active selected) xs)
        ≡ occurrences x (filter (λ y. not (is_due now active y)) xs)
  unfolding count is_left is_due
  occurrences-is_left_selected [] h = refl
  occurrences-is_left_selected (y ∷ ys) h = ground (arith, occurrences-is_left_selected ys)

module _ (c : QueueConfig) (now : ℕ) (q : Queue) (x : QueuedEvent) where
  abbrev due_items : List QueuedEvent
  due_items = filter (is_due now q.active_fingerprints) q.queue

  occurrences-select_due :
      count item_fingerprint x.fingerprint q.queue ≤ 1
      → 1 ≤ count item_fingerprint x.fingerprint (select_due c now q)
      → occurrences x (select_due c now q) ≡ occurrences x due_items
  unfolding select_due
  occurrences-select_due u h =
      let n = c.max_concurrency - length q.active_fingerprints in
      let sorted = sort_due c.priority_weights now due_items in
      omega (
        arith,
        count-take-drop itself x n sorted,
        count-take-drop item_fingerprint x.fingerprint n sorted,
        occurrences-sort_due c.priority_weights now x due_items,
        count-sort_due c.priority_weights now x.fingerprint due_items,
        occurrences-le x (drop n sorted),
        count-filter-split item_fingerprint x.fingerprint (is_due now q.active_fingerprints)
            q.queue,
      )

  occurrences-left :
      count item_fingerprint x.fingerprint q.queue ≤ 1
      → occurrences x (
            filter
              (is_left now q.active_fingerprints
                (JsSet.add_all (fingerprints (select_due c now q)) []))
              q.queue)
          + occurrences x (select_due c now q)
        ≡ occurrences x q.queue
  unfolding JsSet.has
  occurrences-left u =
      let active = q.active_fingerprints in
      let due = select_due c now q in
      let selected = JsSet.add_all (fingerprints due) [] in
      let member : JsSet.has x.fingerprint selected
          ≡ leb 1 (count item_fingerprint x.fingerprint due) =
        has-add_all x.fingerprint (fingerprints due) []
        ∙ indicator-has-fingerprints x.fingerprint due in
      elim (Bool-cases (JsSet.has x.fingerprint selected)) [
        | inl chosen ↦ ground (
          arith,
          occurrences-select_due u,
          occurrences-is_left_selected now active selected x q.queue chosen,
          count-filter-split itself x (is_due now active) q.queue,
        )
        | inr other ↦ ground (
          arith,
          occurrences-is_left_unselected now active selected x q.queue other,
          occurrences-le x due,
        )
      ]

  -- With no fingerprint queued twice, polling neither loses, repeats nor alters an item: each is as
  -- often among those taken and those left as it was in the queue.
  pub occurrences-poll :
      count item_fingerprint x.fingerprint q.queue ≤ 1
      → occurrences x (poll c now q).0.queue + occurrences x (poll c now q).1
        ≡ occurrences x q.queue
  unfolding poll take_selected count
  occurrences-poll u = ground (arith, occurrences-left u)

-- So is a sum over the items.
pub sum_of-poll :
    (g : QueuedEvent → ℕ) (c : QueueConfig) (now : ℕ) (q : Queue)
    → ((k : String) → count item_fingerprint k q.queue ≤ 1)
    → sum_of g (poll c now q).0.queue + sum_of g (poll c now q).1 ≡ sum_of g q.queue
sum_of-poll g c now q u =
    let (left, due) = poll c now q in
    omega (
      arith,
      sum_of-append g left.queue due,
      sum_of-eq_of_count g (left.queue ++ due) q.queue (λ x. omega (
        arith,
        count-append itself x left.queue due,
        occurrences-poll c now q x (u x.fingerprint),
      )),
    )
