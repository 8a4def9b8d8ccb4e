-- ===== src/EventRegistry/Bounds.antt =====
-- Calls of listener/src/store/event-registry.ts, and the size of its state.
use notify_chain.Prelude.{
  ℕ, zero, suc, subst, ◌-◌, ◌≤◌, ◌≡◌, String, Option, none, some, List, [], ◌∷◌, arith, ltb, length,
  drop, string_key, Bool-cases, inl, inr,
}
use notify_chain.Prelude.JsMap
use notify_chain.Prelude.JsMap.{
  JsMap, set-Distinct, keep-Distinct, drop-Distinct, size-set-le, size-keep-le,
}
use notify_chain.EventRegistry.{
  EventRegistry, RegistryEventInput, DisplayEvent, empty, create, set_ttl_ms, prune_expired,
  is_kept, evict, store, add_found, add_from_input, clear, display_event, get_event_key,
}

pub record IsValid (r : EventRegistry) : Type 0 where
  pub distinct : JsMap.Distinct r.events
  pub bounded : JsMap.size r.events ≤ r.max_events
  pub positive : 1 ≤ r.max_events
  pub living : 1 ≤ r.ttl_ms

-- What is asked of the registry; `prunes` is also the step of its timer.
pub data Call : Type 0 where
  adds : RegistryEventInput → Call
  prunes clears : Call
  sets_ttl_ms : ℕ → Call

abbrev pub or_same : EventRegistry → Option EventRegistry → EventRegistry
or_same r none = r
or_same r (some r') = r'

unfoldable pub step : ℕ → Call → EventRegistry → EventRegistry
unfolding add_from_input prune_expired clear set_ttl_ms
step now (adds i) r = (add_from_input now i r).0
step now prunes r = (prune_expired now r).0
step now clears r = clear r
step now (sets_ttl_ms n) r = or_same r (set_ttl_ms n r)

unfoldable pub run : List (ℕ × Call) → EventRegistry → EventRegistry
unfolding step
run [] r = r
run ((now, e) ∷ es) r = run es (step now e r)

length-drop {ℓ} : {A : Type ℓ} (n : ℕ) (xs : List A) → length (drop n xs) ≡ length xs - n
length-drop zero [] = omega arith
length-drop (suc n) [] = omega arith
length-drop zero (x ∷ xs) = omega arith
length-drop (suc n) (x ∷ xs) = omega (arith, length-drop n xs)

store-IsValid :
    (k : String) (e : DisplayEvent) (r : EventRegistry) → IsValid r → IsValid (store k e r)
unfolding store evict
store-IsValid k e r v =
    let stored = JsMap.set k e r.events in
    let stored_distinct = set-Distinct k e r.events v.distinct in
    let over = length stored - r.max_events in
    elim (Bool-cases (ltb r.max_events (length stored))) [
      | inl full ↦ rw full (record {
        distinct = drop-Distinct over stored stored_distinct;
        bounded = omega (arith, length-drop over stored);
        positive = v.positive;
        living = v.living;
      })
      | inr room ↦ rw room (record {
        distinct = stored_distinct;
        bounded = ground arith;
        positive = v.positive;
        living = v.living;
      })
    ]

add_found-IsValid :
    (now : ℕ) (k : String) (i : RegistryEventInput) (found : Option DisplayEvent)
    (r : EventRegistry)
    → IsValid r
    → IsValid (add_found now k i found r).0
unfolding add_found
add_found-IsValid now k i none r v = store-IsValid k (display_event now i) r v
add_found-IsValid now k i (some e) r v = v

set_ttl_ms-IsValid : (n : ℕ) (r : EventRegistry) → IsValid r → IsValid (or_same r (set_ttl_ms n r))
unfolding set_ttl_ms
set_ttl_ms-IsValid n r v = elim (Bool-cases (ltb n 1)) [
  | inl rejected ↦ rw rejected v
  | inr positive ↦ rw positive (record {
    distinct = v.distinct;
    bounded = v.bounded;
    positive = v.positive;
    living = ground arith;
  })
]

Step-IsValid : (now : ℕ) (e : Call) (r : EventRegistry) → IsValid r → IsValid (step now e r)
unfolding step add_from_input prune_expired clear JsMap.Distinct
Step-IsValid now (adds i) r v =
    let k = get_event_key i.event_id i.contract_address in
    add_found-IsValid now k i (JsMap.get k r.events) r v
Step-IsValid now prunes r v = record {
  distinct = keep-Distinct (is_kept now r.ttl_ms) r.events v.distinct;
  bounded = omega (arith, v.bounded, size-keep-le (is_kept now r.ttl_ms) r.events);
  positive = v.positive;
  living = v.living;
}
Step-IsValid now clears r v = record {
  distinct = tt;
  bounded = omega arith;
  positive = v.positive;
  living = v.living;
}
Step-IsValid now (sets_ttl_ms n) r v = set_ttl_ms-IsValid n r v

Run-IsValid : (es : List (ℕ × Call)) (r : EventRegistry) → IsValid r → IsValid (run es r)
unfolding run
Run-IsValid [] r v = v
Run-IsValid ((now, e) ∷ es) r v = Run-IsValid es (step now e r) (Step-IsValid now e r v)

create_inv :
    (max_events ttl_ms : ℕ) (r : EventRegistry)
    → create max_events ttl_ms ≡ some r
    → (1 ≤ max_events) × (1 ≤ ttl_ms) × (empty max_events ttl_ms ≡ r)
unfolding create
create_inv max_events ttl_ms r h = ground arith

pub create-IsValid :
    (max_events ttl_ms : ℕ) (r : EventRegistry) → create max_events ttl_ms ≡ some r → IsValid r
unfolding JsMap.Distinct
create-IsValid max_events ttl_ms r h =
    let (positive, living, same) = create_inv max_events ttl_ms r h in
    subst IsValid same
      (record { distinct = tt; bounded = omega arith; positive = positive; living = living })

-- After any calls on a registry that the constructor made, no event is stored twice, no more events
-- are stored than the limit, which is at least one, and the lifetime is at least 1 ms.
pub run-created-IsValid :
    (max_events ttl_ms : ℕ) (r : EventRegistry) (es : List (ℕ × Call))
    → create max_events ttl_ms ≡ some r
    → IsValid (run es r)
run-created-IsValid max_events ttl_ms r es h =
    Run-IsValid es r (create-IsValid max_events ttl_ms r h)
