-- ===== src/Deduplicator.antt =====
-- `NotificationDeduplicator` of listener/src/services/notification-deduplicator.ts: fingerprints that
-- were sent within the deduplication window, with a limit on their number. An operation reads the clock once;
-- the reason and the metadata of a recorded event, which only describe it, are left out. The
-- fingerprints, SHA-256 digests, are given to the operations.
pub mod Bounds
pub mod Windows
mod Tests
use notify_chain.Prelude.{
  ℕ, suc, ◌+◌, ◌-◌, max, String, Bool, true, false, Option, none, some, List, [], ◌∷◌, ◌++◌,
  if◌then◌else◌, ltb, leb, length, drop, string_key,
}
use notify_chain.Prelude.JsMap
use notify_chain.Prelude.JsMap.{JsMap}

pub record DeduplicationEvent : Type 0 where
  pub timestamp : ℕ
  pub fingerprint : String
  pub is_duplicate : Bool

pub record Deduplicator : Type 0 where
  pub seen : JsMap String ℕ
  pub max_size : ℕ
  pub window_ms : ℕ
  pub accepted_requests : ℕ
  pub skipped_duplicates : ℕ
  pub evicted_entries : ℕ
  pub expired_entries : ℕ
  pub total_checks : ℕ
  pub events : List DeduplicationEvent

abbrev or_default : Option ℕ → ℕ → ℕ
or_default none d = d
or_default (some n) d = n

-- The constructor.
unfoldable pub create : Option ℕ → Option ℕ → Deduplicator
create max_size window_ms = record {
  seen = [];
  max_size = max 1 (or_default max_size 10000);
  window_ms = max 1 (or_default window_ms 60000);
  accepted_requests = 0;
  skipped_duplicates = 0;
  evicted_entries = 0;
  expired_entries = 0;
  total_checks = 0;
  events = [];
}

abbrev pub max_event_history : ℕ
max_event_history = 1000

-- `recordEvent`
unfoldable pub record_event : DeduplicationEvent → List DeduplicationEvent → List DeduplicationEvent
record_event e events =
    let all = events ++ e ∷ [] in if ltb max_event_history (length all) then drop 1 all else all

-- `expiresAt > now`
unfoldable pub is_live : ℕ → ℕ → Bool
is_live now expires_at = ltb now expires_at

-- `pruneExpired`: each expired entry is deleted and counted.
unfoldable pub prune_expired : ℕ → Deduplicator → Deduplicator
unfolding is_live
prune_expired now d =
    let rest = JsMap.keep (is_live now) d.seen in
    record d {
      seen = rest;
      expired_entries = d.expired_entries + (JsMap.size d.seen - JsMap.size rest);
    }

abbrev pub is_live_entry : ℕ → Option ℕ → Bool
is_live_entry now none = false
is_live_entry now (some expires_at) = ltb now expires_at

-- `isDuplicate`
unfoldable pub is_duplicate : ℕ → String → Deduplicator → Deduplicator × Bool
unfolding prune_expired record_event
is_duplicate now fingerprint d =
    let d' = prune_expired now (record d { total_checks = d.total_checks + 1 }) in
    if is_live_entry now (JsMap.get fingerprint d'.seen)
    then (
      record d' {
        skipped_duplicates = d'.skipped_duplicates + 1;
        events =
            record_event
              (record { timestamp = now; fingerprint = fingerprint; is_duplicate = true })
              d'.events;
      },
      true,
    )
    else (d', false)

-- The eviction in `markSent`: the first entry in insertion order, if the cache is full.
unfoldable pub make_room : Deduplicator → Deduplicator
make_room d =
    if leb d.max_size (JsMap.size d.seen)
    then record d { seen = drop 1 d.seen; evicted_entries = d.evicted_entries + 1 }
    else d

-- `markSent`
unfoldable pub mark_sent : ℕ → String → Deduplicator → Deduplicator
unfolding prune_expired make_room record_event
mark_sent now fingerprint d =
    let d' = make_room (prune_expired now d) in
    record d' {
      seen = JsMap.set fingerprint (now + d'.window_ms) d'.seen;
      accepted_requests = d'.accepted_requests + 1;
      events =
          record_event (record { timestamp = now; fingerprint = fingerprint; is_duplicate = false })
            d'.events;
    }

-- `size`
unfoldable pub size : ℕ → Deduplicator → Deduplicator × ℕ
unfolding prune_expired
size now d = let d' = prune_expired now d in (d', JsMap.size d'.seen)

-- `clearEventHistory`
unfoldable pub clear_event_history : Deduplicator → Deduplicator
clear_event_history d = record d { events = [] }

-- `resetMetrics`
unfoldable pub reset_metrics : Deduplicator → Deduplicator
reset_metrics d = record d {
  accepted_requests = 0;
  skipped_duplicates = 0;
  evicted_entries = 0;
  expired_entries = 0;
  total_checks = 0;
}

-- `clear`
unfoldable pub clear : Deduplicator → Deduplicator
unfolding reset_metrics
clear d = reset_metrics (record d { seen = []; events = [] })
