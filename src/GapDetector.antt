-- ===== src/GapDetector.antt =====
-- `detectIndexingGaps` of listener/src/services/indexing-gap-detector.ts: which events of the chain,
-- and which ledgers, the index lacks. An event of the chain, an indexed event and a gap have the same
-- fields, so they are one record. `sort` is stable, as ECMAScript asks, and written as an insertion.
pub mod Events
pub mod Ledgers
mod Tests
use Prim.Native.String.{◌++◌ as str_append}
use notify_chain.Prelude.{
  ℕ, ◌+◌, String, Bool, true, false, Option, none, some, List, [], ◌∷◌, ◌++◌, map, filter, not,
  ◌&&◌, if◌then◌else◌, ltb, leb, length, string_key, nat_key,
}
use notify_chain.Prelude.JsMap
use notify_chain.Prelude.JsMap.{JsMap}
use notify_chain.Prelude.JsSet

pub record EventRef : Type 0 where
  pub contract_address : String
  pub event_id : String
  pub ledger : ℕ
  pub tx_hash : Option String

pub record GapDetectionResult : Type 0 where
  pub missing_events : List EventRef
  pub missing_ledgers : List ℕ
  pub checked_on_chain : ℕ
  pub checked_indexed : ℕ

-- `fingerprint`
unfoldable pub fingerprint_of : EventRef → String
fingerprint_of e = str_append e.contract_address (str_append ":" e.event_id)

abbrev pub count_or_zero : Option ℕ → ℕ
count_or_zero none = 0
count_or_zero (some n) = n

-- `indexedByLedger`, on from a map.
unfoldable pub count_by_ledger : List EventRef → JsMap ℕ ℕ → JsMap ℕ ℕ
count_by_ledger [] m = m
count_by_ledger (e ∷ es) m =
    count_by_ledger es (JsMap.set e.ledger (count_or_zero (JsMap.get e.ledger m) + 1) m)

abbrev pub events_or_none : Option (List EventRef) → List EventRef
events_or_none none = []
events_or_none (some es) = es

-- `chainByLedger`, on from a map.
unfoldable pub group_by_ledger : List EventRef → JsMap ℕ (List EventRef) → JsMap ℕ (List EventRef)
group_by_ledger [] m = m
group_by_ledger (e ∷ es) m =
    group_by_ledger es (JsMap.set e.ledger (events_or_none (JsMap.get e.ledger m) ++ e ∷ []) m)

-- The loop for the missing events.
unfoldable pub missing_events_of : List String → List EventRef → List EventRef
unfolding fingerprint_of
missing_events_of indexed on_chain =
    filter (λ e. not (JsSet.has (fingerprint_of e) indexed)) on_chain

-- The loop for the missing ledgers.
unfoldable pub missing_ledgers_of : JsMap ℕ ℕ → JsMap ℕ (List EventRef) → List ℕ
missing_ledgers_of indexed [] = []
missing_ledgers_of indexed ((ledger, events) ∷ m) =
    let rest = missing_ledgers_of indexed m in
    if ltb 0 (length events) && leb (count_or_zero (JsMap.get ledger indexed)) 0
    then ledger ∷ rest
    else rest

unfoldable pub insert_by : {A : Type 0} → (A → ℕ) → A → List A → List A
insert_by f x [] = x ∷ []
insert_by f x (y ∷ ys) =
    let rest = insert_by f x ys in if leb (f x) (f y) then x ∷ y ∷ ys else y ∷ rest

-- `xs.sort((a, b) => f(a) - f(b))`
unfoldable pub sort_by : {A : Type 0} → (A → ℕ) → List A → List A
unfolding insert_by
sort_by f [] = []
sort_by f (x ∷ xs) = insert_by f x (sort_by f xs)

-- `detectIndexingGaps`
unfoldable pub detect_indexing_gaps : List EventRef → List EventRef → GapDetectionResult
unfolding count_by_ledger group_by_ledger missing_events_of missing_ledgers_of sort_by
detect_indexing_gaps on_chain indexed =
    let indexed_set = JsSet.add_all (map fingerprint_of indexed) [] in
    let indexed_by_ledger = count_by_ledger indexed [] in
    let chain_by_ledger = group_by_ledger on_chain [] in
    record {
      missing_events = sort_by (λ e. e.ledger) (missing_events_of indexed_set on_chain);
      missing_ledgers = sort_by (λ l. l) (missing_ledgers_of indexed_by_ledger chain_by_ledger);
      checked_on_chain = length on_chain;
      checked_indexed = length indexed;
    }
