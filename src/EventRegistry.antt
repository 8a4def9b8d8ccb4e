-- ===== src/EventRegistry.antt =====
-- `EventRegistry` of listener/src/store/event-registry.ts: the events that the listener shows, by
-- event id and contract, oldest first. An input carries its topics and value as the texts that
-- listener/src/utils/scval-format.ts makes of them; `notified` lists the events that the listeners
-- were called with. The timer of `startCleanup` does nothing but call `prune_expired`.
pub mod Bounds
pub mod Storing
mod Tests
use Prim.Native.String.{◌++◌ as str_append}
use notify_chain.Prelude.{
  ℕ, suc, ◌+◌, ◌-◌, max, String, Bool, true, false, ◌&&◌, Option, none, some, is_some, List, [],
  ◌∷◌, ◌++◌, filter, if◌then◌else◌, ltb, leb, length, drop, string_key,
}
use notify_chain.Prelude.JsMap
use notify_chain.Prelude.JsMap.{JsMap}

pub record RegistryEventInput : Type 0 where
  pub event_id : String
  pub contract_address : String
  pub event_name : Option String
  pub ledger : ℕ
  pub kind : String
  pub topic : List String
  pub value : String
  pub tx_hash : Option String

pub record DisplayEvent : Type 0 where
  pub event_id : String
  pub contract_address : String
  pub event_name : Option String
  pub ledger : ℕ
  pub kind : String
  pub topic : List String
  pub value : String
  pub tx_hash : Option String
  pub received_at : ℕ

pub record EventRegistry : Type 0 where
  pub events : JsMap String DisplayEvent
  pub max_events : ℕ
  pub ttl_ms : ℕ
  pub last_ingested_ledger : Option ℕ
  pub last_ingested_at : Option ℕ
  pub max_ledger_seen : Option ℕ
  pub notified : List DisplayEvent

abbrev pub empty : ℕ → ℕ → EventRegistry
empty max_events ttl_ms = record {
  events = [];
  max_events = max_events;
  ttl_ms = ttl_ms;
  last_ingested_ledger = none;
  last_ingested_at = none;
  max_ledger_seen = none;
  notified = [];
}

-- The constructor, which throws for a limit or a lifetime below 1.
unfoldable pub create : ℕ → ℕ → Option EventRegistry
create max_events ttl_ms =
    if ltb max_events 1 then none else if ltb ttl_ms 1 then none else some (empty max_events ttl_ms)

-- `setTtlMs`
unfoldable pub set_ttl_ms : ℕ → EventRegistry → Option EventRegistry
set_ttl_ms ttl_ms r = if ltb ttl_ms 1 then none else some (record r { ttl_ms = ttl_ms })

-- `event.receivedAt >= cutoff`, where the cutoff is the time less the lifetime.
unfoldable pub is_kept : ℕ → ℕ → DisplayEvent → Bool
is_kept now ttl_ms e = leb now (e.received_at + ttl_ms)

-- `pruneExpired`, and the number of events removed.
unfoldable pub prune_expired : ℕ → EventRegistry → EventRegistry × ℕ
unfolding is_kept
prune_expired now r =
    let rest = JsMap.keep (is_kept now r.ttl_ms) r.events in
    (record r { events = rest }, JsMap.size r.events - JsMap.size rest)

-- `getEventKey`
unfoldable pub get_event_key : String → String → String
get_event_key event_id contract_address = str_append contract_address (str_append ":" event_id)

abbrev first_topic : List String → Option String
first_topic [] = none
first_topic (t ∷ ts) = some t

abbrev name_or : Option String → Option String → Option String
name_or none d = d
name_or (some n) d = some n

-- The event that `addFromInput` makes of an input.
unfoldable pub display_event : ℕ → RegistryEventInput → DisplayEvent
display_event now i = record {
  event_id = i.event_id;
  contract_address = i.contract_address;
  event_name = name_or i.event_name (first_topic i.topic);
  ledger = i.ledger;
  kind = i.kind;
  topic = i.topic;
  value = i.value;
  tx_hash = i.tx_hash;
  received_at = now;
}

abbrev pub max_seen : Option ℕ → ℕ → ℕ
max_seen none ledger = ledger
max_seen (some seen) ledger = max seen ledger

-- The eviction at the end of `addFromInput`.
unfoldable pub evict : EventRegistry → EventRegistry
evict r =
    let evicted = JsMap.size r.events - r.max_events in
    if ltb r.max_events (JsMap.size r.events)
    then record r { events = drop evicted r.events }
    else r

-- The part of `addFromInput` for an event that is not stored yet.
unfoldable pub store : String → DisplayEvent → EventRegistry → EventRegistry
unfolding evict
store k e r = evict (record r {
  events = JsMap.set k e r.events;
  notified = r.notified ++ e ∷ [];
  last_ingested_ledger = some e.ledger;
  last_ingested_at = some e.received_at;
  max_ledger_seen = some (max_seen r.max_ledger_seen e.ledger);
})

-- `addFromInput` with what is stored under its key.
unfoldable pub add_found :
    ℕ
    → String
    → RegistryEventInput
    → Option DisplayEvent
    → EventRegistry
    → EventRegistry × DisplayEvent
unfolding display_event store
add_found now k i (some existing) r = (r, existing)
add_found now k i none r = (store k (display_event now i) r, display_event now i)

-- `addFromInput`
unfoldable pub add_from_input :
    ℕ → RegistryEventInput → EventRegistry → EventRegistry × DisplayEvent
unfolding get_event_key add_found
add_from_input now i r =
    let k = get_event_key i.event_id i.contract_address in
    add_found now k i (JsMap.get k r.events) r

-- `getEvents`
unfoldable pub get_events : Option ℕ → EventRegistry → List DisplayEvent
get_events none r = JsMap.values r.events
get_events (some limit) r =
    let events = JsMap.values r.events in
    if leb (length events) limit then events else drop (length events - limit) events

-- `getEventsByLedgerRange`
unfoldable pub get_events_by_ledger_range : ℕ → ℕ → EventRegistry → List DisplayEvent
get_events_by_ledger_range start end r =
    filter (λ e. leb start e.ledger && leb e.ledger end) (JsMap.values r.events)

-- `count`
unfoldable pub count_events : EventRegistry → ℕ
count_events r = JsMap.size r.events

-- `has`
unfoldable pub has_event : String → String → EventRegistry → Bool
unfolding get_event_key
has_event event_id contract_address r =
    is_some (JsMap.get (get_event_key event_id contract_address) r.events)

-- `clear`
unfoldable pub clear : EventRegistry → EventRegistry
clear r = record r {
  events = [];
  last_ingested_ledger = none;
  last_ingested_at = none;
  max_ledger_seen = none;
}
