-- ===== src/EventRegistry/Tests.antt =====
-- Runs of listener/src/store/event-registry.ts, and its theorems at concrete states.
use notify_chain.Prelude.{ℕ, ◌≡◌, refl, String, true, none, some, List, [], ◌∷◌, string_key, length}
use notify_chain.Prelude.JsMap
use notify_chain.EventRegistry.{
  EventRegistry, RegistryEventInput, empty, create, add_from_input, get_events,
  get_events_by_ledger_range, has_event, get_event_key, prune_expired, count_events,
}
use notify_chain.EventRegistry.Bounds.{Call, run, create-IsValid}
use notify_chain.EventRegistry.Storing.{add_from_input_twice}

program : Unit {0}
unfolding create add_from_input get_events get_events_by_ledger_range has_event get_event_key
    prune_expired count_events run JsMap.get JsMap.set JsMap.keep string_key
program = tt

abbrev input : String → ℕ → RegistryEventInput
input id ledger = record {
  event_id = id;
  contract_address = "C";
  event_name = none;
  ledger = ledger;
  kind = "contract";
  topic = "t" ∷ [];
  value = "v";
  tx_hash = some "h";
}

abbrev calls : List (ℕ × Call)
calls =
    (5, Call.adds (input "a" 7)) ∷ (6, Call.adds (input "b" 9)) ∷ (8, Call.adds (input "c" 8)) ∷ []

abbrev two : EventRegistry
two = empty 2 100

two_created : create 2 100 ≡ some two
unfolding program
two_created = refl

two_kept : length (get_events_by_ledger_range 8 9 (run calls two)) ≡ 2
unfolding program
two_kept = refl

last_only : length (get_events (some 1) (run calls two)) ≡ 1
unfolding program
last_only = refl

one_pruned : (prune_expired 107 (run calls two)).1 ≡ 1
unfolding program
one_pruned = refl

c_there : has_event "c" "C" (run calls two) ≡ true
unfolding program
c_there = refl

add_from_input_twice_example :
    add_from_input 50 (input "a" 9) (add_from_input 5 (input "a" 7) two).0
    ≡ add_from_input 5 (input "a" 7) two
add_from_input_twice_example =
    add_from_input_twice 5 50 (input "a" 7) (input "a" 9) two (create-IsValid 2 100 two two_created)
      refl
