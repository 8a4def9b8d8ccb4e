-- ===== src/EventBatcher.antt =====
-- `EventBatcher` of listener/src/services/event-batcher.ts: events are collected in groups and each
-- group is handed to the flush handler as one batch. `flushed` lists what was handed over, in order.
-- Between two awaits the code runs to its end, so `flush_group` is one step; `flush` and `flush_due`
-- are sequences of it, and so is any interleaving of them. The timer of a group does nothing but
-- call `flush_group`. The handler may reject a batch: the group is gone by then, and a loop ends there;
-- that `add` passes the rejection on is left out. The clock is read once in a step. The optional fields of an event are carried along and left out; an ISO
-- timestamp is its time in ms.
pub mod Calls
pub mod Conservation
pub mod Sizes
pub mod Windows
mod Tests
use Prim.Native.String.{◌++◌ as str_append}
use notify_chain.Prelude.{
  ℕ, suc, ◌+◌, String, Bool, true, false, Option, none, some, List, [], ◌∷◌, ◌++◌, map, not, ◌&&◌,
  ◌||◌, if◌then◌else◌, ltb, leb, length, string_key,
}
use notify_chain.Prelude.JsMap
use notify_chain.Prelude.JsMap.{JsMap}

pub record BatchableEvent : Type 0 where
  pub event_id : String
  pub contract_address : String
  pub event_name : String

pub record EventBatchingConfig : Type 0 where
  pub enabled : Bool
  pub max_batch_size : ℕ
  pub window_ms : ℕ

pub record BatchedEventGroup : Type 0 where
  pub group_key : String
  pub batched : Bool
  pub events : List BatchableEvent
  pub event_count : ℕ
  pub event_ids : List String
  pub window_start : ℕ
  pub window_end : ℕ
  pub batched_at : ℕ

pub record PendingGroup : Type 0 where
  pub events : List BatchableEvent
  pub window_start : ℕ

pub record EventBatcher : Type 0 where
  pub config : EventBatchingConfig
  pub groups : JsMap String PendingGroup
  pub stopped : Bool
  pub flushed : List BatchedEventGroup

-- The constructor.
unfoldable pub create : EventBatchingConfig → EventBatcher
create config = record { config = config; groups = []; stopped = false; flushed = [] }

-- `defaultGroupKey`
unfoldable pub default_group_key : BatchableEvent → String
default_group_key e = str_append e.contract_address (str_append ":" e.event_name)

-- `isImmediateMode`
unfoldable pub is_immediate_mode : EventBatchingConfig → Bool
is_immediate_mode config = not config.enabled || leb config.max_batch_size 1

-- `pendingCount`
unfoldable pub pending_count : EventBatcher → ℕ
pending_count b = total b.groups
  where
    total : JsMap String PendingGroup → ℕ
    total [] = 0
    total ((_, g) ∷ m) = length g.events + total m

-- The events that wait in an optional group.
abbrev pub events_of : Option PendingGroup → List BatchableEvent
events_of none = []
events_of (some g) = g.events

-- `getPendingCount`
unfoldable pub get_pending_count : String → EventBatcher → ℕ
get_pending_count k b = length (events_of (JsMap.get k b.groups))

-- `buildBatch`
unfoldable pub build_batch : String → List BatchableEvent → ℕ → ℕ → BatchedEventGroup
build_batch k events window_start window_end = record {
  group_key = k;
  batched = ltb 1 (length events);
  events = events;
  event_count = length events;
  event_ids = map (λ e. e.event_id) events;
  window_start = window_start;
  window_end = window_end;
  batched_at = window_end;
}

-- `emit`
unfoldable pub emit : BatchedEventGroup → EventBatcher → EventBatcher
emit batch b = record b { flushed = b.flushed ++ batch ∷ [] }

abbrev pub drop_group : String → EventBatcher → EventBatcher
drop_group k b = record b { groups = JsMap.delete k b.groups }

-- `flushGroup` with what was found at the key.
unfoldable pub flush_found : ℕ → String → Option PendingGroup → EventBatcher → EventBatcher × Bool
unfolding build_batch emit
flush_found now k none b = (drop_group k b, false)
flush_found now k (some g) b =
    if leb (length g.events) 0
    then (drop_group k b, false)
    else (emit (build_batch k g.events g.window_start now) (drop_group k b), true)

-- `flushGroup`
unfoldable pub flush_group : ℕ → String → EventBatcher → EventBatcher × Bool
unfolding flush_found
flush_group now k b = flush_found now k (JsMap.get k b.groups) b

-- What the flush handler does with a batch: it returns (true), or it throws or rejects.
abbrev pub Handler : Type 0
Handler = BatchedEventGroup → Bool

-- Whether `flushGroup` ends with the handler's rejection; the group is then gone all the same.
unfoldable pub is_rejected : Handler → ℕ → String → Option PendingGroup → Bool
unfolding build_batch
is_rejected accepts now k none = false
is_rejected accepts now k (some g) =
    ltb 0 (length g.events) && not (accepts (build_batch k g.events g.window_start now))

abbrev pub count_one : Bool → Option ℕ → Option ℕ
count_one true (some n) = some (suc n)
count_one _ n = n

-- The loop of `flush`, with the number of batches, or `none` if a rejection ends it.
unfoldable pub flush_keys : Handler → ℕ → List String → EventBatcher → EventBatcher × Option ℕ
unfolding flush_group is_rejected
flush_keys accepts now [] b = (b, some 0)
flush_keys accepts now (k ∷ ks) b =
    let (b', emitted) = flush_group now k b in
    let (b'', rest) = flush_keys accepts now ks b' in
    if is_rejected accepts now k (JsMap.get k b.groups)
    then (b', none)
    else (b'', count_one emitted rest)

-- `flush`
unfoldable pub flush : Handler → ℕ → Option String → EventBatcher → EventBatcher × Option ℕ
unfolding flush_keys
flush accepts now (some k) b = flush_keys accepts now (k ∷ []) b
flush accepts now none b = flush_keys accepts now (map (λ e. e.0) b.groups) b

-- The loop of `flushDue`, over a copy of the entries; a rejection ends it.
unfoldable pub flush_entries :
    Handler → ℕ → JsMap String PendingGroup → EventBatcher → EventBatcher × Option ℕ
unfolding flush_group is_rejected
flush_entries accepts now [] b = (b, some 0)
flush_entries accepts now ((k, g) ∷ es) b =
    let skipped = flush_entries accepts now es b in
    let (b', emitted) = flush_group now k b in
    let (b'', rest) = flush_entries accepts now es b' in
    if leb (g.window_start + b.config.window_ms) now
    then (if is_rejected accepts now k (JsMap.get k b.groups)
        then (b', none)
        else (b'', count_one emitted rest))
    else skipped

-- `flushDue`
unfoldable pub flush_due : Handler → ℕ → EventBatcher → EventBatcher × Option ℕ
unfolding flush_entries
flush_due accepts now b = flush_entries accepts now b.groups b

abbrev pub key_or : Option String → String → String
key_or none d = d
key_or (some k) d = k

abbrev pub group_or_new : ℕ → Option PendingGroup → PendingGroup
group_or_new now none = record { events = []; window_start = now }
group_or_new now (some g) = g

-- The part of `add` that puts the event in its group.
unfoldable pub push : ℕ → BatchableEvent → String → EventBatcher → EventBatcher
push now e k b =
    let g = group_or_new now (JsMap.get k b.groups) in
    record b { groups = JsMap.set k (record g { events = g.events ++ e ∷ [] }) b.groups }

-- The rest of `add`, once the batcher runs.
unfoldable pub collect : ℕ → BatchableEvent → String → EventBatcher → EventBatcher
unfolding is_immediate_mode build_batch emit push get_pending_count flush_group
collect now e k b =
    let pushed = push now e k b in
    if is_immediate_mode b.config
    then emit (build_batch k (e ∷ []) now now) b
    else if leb b.config.max_batch_size (get_pending_count k pushed)
    then (flush_group now k pushed).0
    else pushed

-- `add`; a stopped batcher throws.
unfoldable pub add : ℕ → BatchableEvent → Option String → EventBatcher → Option EventBatcher
unfolding default_group_key collect
add now e group_key b =
    if b.stopped then none else some (collect now e (key_or group_key (default_group_key e)) b)

-- `stop`
unfoldable pub stop : EventBatcher → EventBatcher
stop b = record b { stopped = true; groups = [] }
