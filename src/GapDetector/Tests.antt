-- ===== src/GapDetector/Tests.antt =====
-- Runs of listener/src/services/indexing-gap-detector.ts, and its theorems at concrete events.
use package.text.Mathlib.Text.{◌==◌ as str_eq}
use notify_chain.Prelude.{
  Bool, ℕ, String, ◌≡◌, refl, none, List, [], ◌∷◌, not, ◌&&◌, string_key, nat_key, ℕ_discrete,
}
use notify_chain.Prelude.JsMap
use notify_chain.Prelude.JsSet
use notify_chain.GapDetector.{EventRef, detect_indexing_gaps, fingerprint_of}
use notify_chain.GapDetector.Events.{
  count_if, is_indexed, InLedgerOrder, detect_indexing_gaps-missing_events,
}
use notify_chain.GapDetector.Ledgers.{
  lists_ledger, has_event_at, detect_indexing_gaps-missing_ledgers,
}

program : Unit {0}
unfolding detect_indexing_gaps JsMap.get JsMap.set JsSet.has JsSet.add JsSet.add_all string_key
    nat_key ℕ_discrete
program = tt

abbrev event : String → ℕ → EventRef
event id ledger = record { contract_address = "C"; event_id = id; ledger = ledger; tx_hash = none }

abbrev chain : List EventRef
chain = event "d" 9 ∷ event "a" 5 ∷ event "b" 5 ∷ event "c" 7 ∷ []

abbrev index : List EventRef
index = event "a" 5 ∷ []

missing_sorted : (detect_indexing_gaps chain index).missing_ledgers ≡ 7 ∷ 9 ∷ []
unfolding program
missing_sorted = refl

events_sorted :
    (detect_indexing_gaps chain index).missing_events ≡ event "b" 5 ∷ event "c" 7 ∷ event "d" 9 ∷ []
unfolding program
events_sorted = refl

detect_indexing_gaps-missing_ledgers_example :
    lists_ledger 7 (detect_indexing_gaps chain index).missing_ledgers
    ≡ has_event_at 7 chain && not (has_event_at 7 index)
detect_indexing_gaps-missing_ledgers_example = detect_indexing_gaps-missing_ledgers 7 chain index

abbrev is_b : EventRef → Bool
is_b e = str_eq e.event_id "b"

detect_indexing_gaps-missing_events_example :
    (count_if is_b (detect_indexing_gaps chain index).missing_events
      ≡ count_if (λ e. is_b e && not (is_indexed index (fingerprint_of e))) chain)
    × InLedgerOrder (detect_indexing_gaps chain index).missing_events
detect_indexing_gaps-missing_events_example = detect_indexing_gaps-missing_events is_b chain index
