-- ===== src/EventRegistry/Storing.antt =====
-- What `addFromInput` of listener/src/store/event-registry.ts does to an event and to the others.
use notify_chain.Prelude.{
  ℕ, zero, suc, ◌-◌, ◌≤◌, ◌≡◌, refl, ap, ◌∙◌, String, Option, none, some, [], ◌∷◌, arith, length,
  drop, string_key,
}
use notify_chain.Prelude.JsMap
use notify_chain.Prelude.JsMap.{JsMap, get-set, size-set_new}
use notify_chain.EventRegistry.{
  EventRegistry, RegistryEventInput, DisplayEvent, evict, store, add_found, add_from_input,
  display_event, get_event_key,
}
use notify_chain.EventRegistry.Bounds.{IsValid}

-- A new entry comes last, so that it survives the removal of one fewer than all entries.
get-drop-set_new :
    (k : String) (e : DisplayEvent) (n : ℕ) (m : JsMap String DisplayEvent)
    → JsMap.get k m ≡ none
    → n ≤ length m
    → JsMap.get k (drop n (JsMap.set k e m)) ≡ some e
unfolding JsMap.get JsMap.set
get-drop-set_new k e zero m h le = ground (arith, get-set k k e m)
get-drop-set_new k e (suc n) [] h le = absurd (omega arith)
get-drop-set_new k e (suc n) (x ∷ m) h le = ground (arith, get-drop-set_new k e n m)

get-store :
    (k : String) (e : DisplayEvent) (r : EventRegistry)
    → IsValid r
    → JsMap.get k r.events ≡ none
    → JsMap.get k (store k e r).events ≡ some e
unfolding store evict
get-store k e r v h =
    let stored = JsMap.set k e r.events in
    ground (
      arith,
      v.bounded,
      v.positive,
      size-set_new k e r.events h,
      get-set k k e r.events,
      get-drop-set_new k e (length stored - r.max_events) r.events h,
    )

get-add_found :
    (now : ℕ) (k : String) (i : RegistryEventInput) (found : Option DisplayEvent)
    (r : EventRegistry)
    → IsValid r
    → JsMap.get k r.events ≡ found
    → JsMap.get k (add_found now k i found r).0.events ≡ some (add_found now k i found r).1
unfolding add_found
get-add_found now k i none r v h = get-store k (display_event now i) r v h
get-add_found now k i (some e) r v h = h

-- In a valid registry an input that was added is stored, unless one with its key was there before:
-- adding another input with that key next, at any time and with any other contents, changes nothing,
-- calls no listener and returns what the first call returned.
pub add_from_input_twice :
    (now later : ℕ) (i j : RegistryEventInput) (r : EventRegistry)
    → IsValid r
    → get_event_key j.event_id j.contract_address ≡ get_event_key i.event_id i.contract_address
    → add_from_input later j (add_from_input now i r).0 ≡ add_from_input now i r
unfolding add_from_input add_found
add_from_input_twice now later i j r v same =
    let k = get_event_key i.event_id i.contract_address in
    let first = add_found now k i (JsMap.get k r.events) r in
    ap (λ k'. add_found later k' j (JsMap.get k' first.0.events) first.0) same
    ∙ ap (λ o. add_found later k j o first.0)
        (get-add_found now k i (JsMap.get k r.events) r v refl)
