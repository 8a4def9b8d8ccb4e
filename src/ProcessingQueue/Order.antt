-- ===== src/ProcessingQueue/Order.antt =====
-- The order in which listener/src/services/event-processing-queue.ts takes due events, as sorting
-- makes it.
use notify_chain.Prelude.{
  ℕ, suc, ◌≡◌, refl, String, true, false, List, [], ◌∷◌, arith, length, All, string_key,
}
use notify_chain.Prelude.Count.{count}
use notify_chain.ProcessingQueue.{QueuedEvent, PerPriority, precedes, insert_due, sort_due}

abbrev pub item_fingerprint : QueuedEvent → String
item_fingerprint item = item.fingerprint

module _ (w : PerPriority) (now : ℕ) where
  count-insert_due :
      (k : String) (x : QueuedEvent) (ys : List QueuedEvent)
      → count item_fingerprint k (insert_due w now x ys) ≡ count item_fingerprint k (x ∷ ys)
  unfolding count insert_due
  count-insert_due k x [] = refl
  count-insert_due k x (y ∷ ys) = ground (arith, count-insert_due k x ys)

  pub count-sort_due :
      (k : String) (xs : List QueuedEvent)
      → count item_fingerprint k (sort_due w now xs) ≡ count item_fingerprint k xs
  unfolding count sort_due
  count-sort_due k [] = refl
  count-sort_due k (x ∷ xs) =
      ground (arith, count-insert_due k x (sort_due w now xs), count-sort_due k xs)

  length-insert_due :
      (x : QueuedEvent) (ys : List QueuedEvent) → length (insert_due w now x ys) ≡ suc (length ys)
  unfolding insert_due
  length-insert_due x [] = refl
  length-insert_due x (y ∷ ys) = ground (arith, length-insert_due x ys)

  pub length-sort_due : (xs : List QueuedEvent) → length (sort_due w now xs) ≡ length xs
  unfolding sort_due
  length-sort_due [] = refl
  length-sort_due (x ∷ xs) =
      ground (arith, length-insert_due x (sort_due w now xs), length-sort_due xs)

  -- No item of the list goes before `x`.
  abbrev pub NotBefore : QueuedEvent → List QueuedEvent → Type 0
  NotBefore x ys = All (λ y. precedes w now y x ≡ false) ys

  -- No item goes before one that is listed earlier.
  abbrev pub IsSorted : List QueuedEvent → Type 0
  IsSorted [] = Unit
  IsSorted (x ∷ xs) = NotBefore x xs × IsSorted xs

  not_before_trans :
      (x y z : QueuedEvent)
      → precedes w now y x ≡ false
      → precedes w now z y ≡ false
      → precedes w now z x ≡ false
  unfolding precedes
  not_before_trans x y z a b = ground arith

  precedes_asym : (x y : QueuedEvent) → precedes w now y x ≡ true → precedes w now x y ≡ false
  unfolding precedes
  precedes_asym x y h = ground arith

  NotBefore-trans :
      (x y : QueuedEvent) (zs : List QueuedEvent)
      → precedes w now y x ≡ false
      → NotBefore y zs
      → NotBefore x zs
  NotBefore-trans x y [] a b = tt
  NotBefore-trans x y (z ∷ zs) a b = (not_before_trans x y z a b.0, NotBefore-trans x y zs a b.1)

  NotBefore-insert_due :
      (x y : QueuedEvent) (ys : List QueuedEvent)
      → precedes w now x y ≡ false
      → NotBefore y ys
      → NotBefore y (insert_due w now x ys)
  unfolding insert_due
  NotBefore-insert_due x y [] a b = (a, tt)
  NotBefore-insert_due x y (z ∷ ys) a b = ground (arith, NotBefore-insert_due x y ys)

  insert_due-IsSorted :
      (x : QueuedEvent) (ys : List QueuedEvent) → IsSorted ys → IsSorted (insert_due w now x ys)
  unfolding insert_due
  insert_due-IsSorted x [] s = (tt, tt)
  insert_due-IsSorted x (y ∷ ys) s = ground (
    arith,
    insert_due-IsSorted x ys s.1,
    precedes_asym x y,
    NotBefore-insert_due x y ys,
    NotBefore-trans x y ys,
  )

  pub sort_due-IsSorted : (xs : List QueuedEvent) → IsSorted (sort_due w now xs)
  unfolding sort_due
  sort_due-IsSorted [] = tt
  sort_due-IsSorted (x ∷ xs) = insert_due-IsSorted x (sort_due w now xs) (sort_due-IsSorted xs)
