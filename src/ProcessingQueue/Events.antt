-- ===== src/ProcessingQueue/Events.antt =====
-- The queued events of listener/src/services/event-processing-queue.ts, their fingerprints, and the
-- order in which due events are taken. Of an event and its contract configuration the model keeps
-- the id and the address, all that the queue reads; the rest only goes to the processor. The clock
-- is taken not to fall below the time at which an event was queued, and to be read once for one
-- sort.
use Prim.Native.String.{◌++◌ as str_append}
use notify_chain.Prelude.{
  ℕ, ◌+◌, ◌-◌, ◌/◌, String, Bool, List, [], ◌∷◌, if◌then◌else◌, ltb, ◌==◌, ◌&&◌, ◌||◌,
}

pub data Priority : Type 0 where
  low medium high : Priority

-- The numbers of the enumeration.
unfoldable pub base_priority : Priority → ℕ
base_priority low = 0
base_priority medium = 1
base_priority high = 2

-- One number for each priority: the weights, and the counters.
pub record PerPriority : Type 0 where
  pub high : ℕ
  pub medium : ℕ
  pub low : ℕ

unfoldable pub weight_of : PerPriority → Priority → ℕ
weight_of w high = w.high
weight_of w medium = w.medium
weight_of w low = w.low

pub record QueuedEvent : Type 0 where
  pub event_id : String
  pub contract_address : String
  pub request_id : String
  pub retry_count : ℕ
  pub next_retry_at : ℕ
  pub fingerprint : String
  pub priority : Priority
  pub enqueued_at : ℕ

-- `buildEventFingerprint`
unfoldable pub build_event_fingerprint : String → String → String
build_event_fingerprint event_id contract_address =
    str_append contract_address (str_append ":" event_id)

-- `getWeightedPriority`: a minute in the queue counts one.
unfoldable pub get_weighted_priority : PerPriority → ℕ → QueuedEvent → ℕ
unfolding base_priority weight_of
get_weighted_priority weights now item =
    base_priority item.priority + (now - item.enqueued_at) / 60000 + weight_of weights item.priority

-- The comparison function of `processNext` is negative: `a` goes before `b`.
unfoldable pub precedes : PerPriority → ℕ → QueuedEvent → QueuedEvent → Bool
unfolding get_weighted_priority
precedes weights now a b =
    let pa = get_weighted_priority weights now a in
    let pb = get_weighted_priority weights now b in
    ltb pb pa || (pa == pb && ltb a.enqueued_at b.enqueued_at)

module _ (weights : PerPriority) (now : ℕ) where
  -- Into a sorted list, before those that are equal.
  unfoldable pub insert_due : QueuedEvent → List QueuedEvent → List QueuedEvent
  insert_due x [] = x ∷ []
  insert_due x (y ∷ ys) =
      let rest = insert_due x ys in if precedes weights now y x then y ∷ rest else x ∷ y ∷ ys

  -- The stable `sort` of the engine.
  unfoldable pub sort_due : List QueuedEvent → List QueuedEvent
  unfolding insert_due
  sort_due [] = []
  sort_due (x ∷ xs) = insert_due x (sort_due xs)
