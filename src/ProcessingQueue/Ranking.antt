-- ===== src/ProcessingQueue/Ranking.antt =====
-- The ranking by which listener/src/services/event-processing-queue.ts serves due events, written as
-- its priorities and weights define it, and the lists that its sort makes.
use mathlib.Core.List.{Perm}
use mathlib.Core.List.Perm
use notify_chain.Prelude.{
  ℕ, zero, suc, ◌+◌, ◌-◌, ◌/◌, ◌≤◌, ◌<◌, ◌≡◌, ◌⊎◌, inl, inr, false, List, [], ◌∷◌, arith, take,
  drop, All, Bool-cases,
}
use notify_chain.ProcessingQueue.{
  QueuedEvent, Priority, PerPriority, precedes, insert_due, sort_due, get_weighted_priority,
}
use notify_chain.ProcessingQueue.Order.{IsSorted, NotBefore}

-- The enumeration's numbers, Low 0 to High 2, and the configured weights.
abbrev pub level : Priority → ℕ
level Priority.low = 0
level Priority.medium = 1
level Priority.high = 2

abbrev pub weight : PerPriority → Priority → ℕ
weight w Priority.low = w.low
weight w Priority.medium = w.medium
weight w Priority.high = w.high

-- An event gains one for each whole minute since it was enqueued.
abbrev pub score : PerPriority → ℕ → QueuedEvent → ℕ
score w now x = level x.priority + weight w x.priority + (now - x.enqueued_at) / 60000

-- `x` may be served before `y`: its score is higher, or they are equal and `x` was enqueued no later.
abbrev pub MayPrecede : PerPriority → ℕ → QueuedEvent → QueuedEvent → Type 0
MayPrecede w now x y =
    (score w now y < score w now x)
    ⊎ (score w now y ≡ score w now x) × (x.enqueued_at ≤ y.enqueued_at)

-- Each item may be served before all that are listed after it.
abbrev pub IsRanked : PerPriority → ℕ → List QueuedEvent → Type 0
IsRanked w now [] = Unit
IsRanked w now (x ∷ xs) = All (MayPrecede w now x) xs × IsRanked w now xs

module _ (w : PerPriority) (now : ℕ) where
  get_weighted_priority_lem : (x : QueuedEvent) → get_weighted_priority w now x ≡ score w now x
  unfolding get_weighted_priority
  get_weighted_priority_lem x = ground arith

  precedes-MayPrecede : (x y : QueuedEvent) → precedes w now y x ≡ false → MayPrecede w now x y
  unfolding precedes
  precedes-MayPrecede x y h =
      ground (arith, h, get_weighted_priority_lem x, get_weighted_priority_lem y)

  NotBefore-MayPrecede :
      (x : QueuedEvent) (ys : List QueuedEvent) → NotBefore w now x ys → All (MayPrecede w now x) ys
  NotBefore-MayPrecede x [] h = tt
  NotBefore-MayPrecede x (y ∷ ys) h = (precedes-MayPrecede x y h.0, NotBefore-MayPrecede x ys h.1)

  pub IsSorted-IsRanked : (xs : List QueuedEvent) → IsSorted w now xs → IsRanked w now xs
  IsSorted-IsRanked [] s = tt
  IsSorted-IsRanked (x ∷ xs) s = (NotBefore-MayPrecede x xs s.0, IsSorted-IsRanked xs s.1)

  MayPrecede-drop :
      (n : ℕ) (x : QueuedEvent) (xs : List QueuedEvent)
      → All (MayPrecede w now x) xs
      → All (MayPrecede w now x) (drop n xs)
  MayPrecede-drop zero x xs h = h
  MayPrecede-drop (suc n) x [] h = tt
  MayPrecede-drop (suc n) x (y ∷ xs) h = MayPrecede-drop n x xs h.1

  pub ranked_take_first :
      (n : ℕ) (xs : List QueuedEvent)
      → IsRanked w now xs
      → All (λ x. All (MayPrecede w now x) (drop n xs)) (take n xs)
  ranked_take_first zero xs r = tt
  ranked_take_first (suc n) [] r = tt
  ranked_take_first (suc n) (x ∷ xs) r = (MayPrecede-drop n x xs r.0, ranked_take_first n xs r.1)

  insert_due-Perm :
      (x : QueuedEvent) (ys : List QueuedEvent) → Perm (insert_due w now x ys) (x ∷ ys)
  unfolding insert_due
  insert_due-Perm x [] = Perm.refl _
  insert_due-Perm x (y ∷ ys) = elim (Bool-cases (precedes w now y x)) [
    | inl before ↦ rw before (Perm.trans (Perm.cons y (insert_due-Perm x ys)) (Perm.swap _ _ _))
    | inr after ↦ rw after (Perm.refl _)
  ]

  pub sort_due-Perm : (xs : List QueuedEvent) → Perm (sort_due w now xs) xs
  unfolding sort_due
  sort_due-Perm [] = Perm.refl _
  sort_due-Perm (x ∷ xs) =
      Perm.trans (insert_due-Perm x (sort_due w now xs)) (Perm.cons x (sort_due-Perm xs))
