-- ===== src/Deduplicator/Bounds.antt =====
-- Calls of listener/src/services/notification-deduplicator.ts, and the sizes and counters of its
-- state.
use notify_chain.Prelude.{
  ℕ, suc, ◌+◌, ◌-◌, ◌≤◌, ◌≡◌, sym, subst, inl, inr, Bool-cases, String, true, false, Option, List,
  [], ◌∷◌, arith, length, drop, length-append, string_key,
}
use notify_chain.Prelude.JsMap
use notify_chain.Prelude.JsMap.{
  JsMap, set-Distinct, keep-Distinct, drop-Distinct, size-set-le, size-keep-le,
}
use notify_chain.Deduplicator.{
  Deduplicator, DeduplicationEvent, create, is_duplicate, mark_sent, prune_expired, make_room, size,
  clear, clear_event_history, reset_metrics, record_event, is_live, is_live_entry,
  max_event_history,
}

pub record IsValid (d : Deduplicator) : Type 0 where
  pub distinct : JsMap.Distinct d.seen
  pub bounded : JsMap.size d.seen ≤ d.max_size
  pub positive : 1 ≤ d.max_size
  pub history : length d.events ≤ max_event_history
  pub ratio : d.skipped_duplicates ≤ d.total_checks

-- What can be asked of the deduplicator.
pub data Call : Type 0 where
  checks marks : String → Call
  sizes clears clears_history resets : Call

unfoldable pub step : ℕ → Call → Deduplicator → Deduplicator
unfolding is_duplicate mark_sent size clear clear_event_history reset_metrics
step now (checks f) d = (is_duplicate now f d).0
step now (marks f) d = mark_sent now f d
step now sizes d = (size now d).0
step now clears d = clear d
step now clears_history d = clear_event_history d
step now resets d = reset_metrics d

unfoldable pub run : List (ℕ × Call) → Deduplicator → Deduplicator
run [] d = d
run ((now, e) ∷ es) d = run es (step now e d)

length-record_event-le :
    (e : DeduplicationEvent) (es : List DeduplicationEvent)
    → length es ≤ max_event_history
    → length (record_event e es) ≤ max_event_history
unfolding record_event
length-record_event-le e [] h = omega arith
length-record_event-le e (x ∷ es) h = ground (arith, length-append es (e ∷ []))

pub prune_expired-IsValid : (now : ℕ) (d : Deduplicator) → IsValid d → IsValid (prune_expired now d)
unfolding prune_expired
prune_expired-IsValid now d v = record {
  distinct = keep-Distinct (is_live now) d.seen v.distinct;
  bounded = omega (arith, v.bounded, size-keep-le (is_live now) d.seen);
  positive = v.positive;
  history = v.history;
  ratio = v.ratio;
}

length-drop_one : (m : JsMap String ℕ) → length (drop 1 m) ≡ length m - 1
length-drop_one [] = omega arith
length-drop_one (e ∷ m) = omega arith

-- After making room there is a place left.
pub make_room-room :
    (d : Deduplicator)
    → IsValid d
    → JsMap.Distinct (make_room d).seen
      × (suc (JsMap.size (make_room d).seen) ≤ d.max_size)
      × ((make_room d).max_size ≡ d.max_size)
      × ((make_room d).events ≡ d.events)
      × ((make_room d).skipped_duplicates ≡ d.skipped_duplicates)
      × ((make_room d).total_checks ≡ d.total_checks)
unfolding make_room
make_room-room d v = ground (
  arith,
  v.distinct,
  v.bounded,
  v.positive,
  drop-Distinct 1 d.seen v.distinct,
  length-drop_one d.seen,
)

pub mark_sent-IsValid :
    (now : ℕ) (f : String) (d : Deduplicator) → IsValid d → IsValid (mark_sent now f d)
unfolding mark_sent
mark_sent-IsValid now f d v =
    let p = prune_expired now d in
    let p_IsValid = prune_expired-IsValid now d v in
    let roomy = make_room p in
    let (roomy_distinct, room, max_eq, events_eq, skipped_eq, checks_eq) =
      make_room-room p p_IsValid in
    record {
      distinct = set-Distinct f (now + roomy.window_ms) roomy.seen roomy_distinct;
      bounded = omega (arith, room, max_eq, size-set-le f (now + roomy.window_ms) roomy.seen);
      positive = omega (arith, max_eq, p_IsValid.positive);
      history =
          length-record_event-le (record { timestamp = now; fingerprint = f; is_duplicate = false })
            roomy.events (subst (λ es. length es ≤ max_event_history) (sym events_eq) v.history);
      ratio = omega (arith, skipped_eq, checks_eq, v.ratio);
    }

pub is_duplicate-IsValid :
    (now : ℕ) (f : String) (d : Deduplicator) → IsValid d → IsValid (is_duplicate now f d).0
unfolding is_duplicate
is_duplicate-IsValid now f d v =
    let counted = record d { total_checks = d.total_checks + 1 } in
    let counted_IsValid : IsValid counted = record {
      distinct = v.distinct;
      bounded = v.bounded;
      positive = v.positive;
      history = v.history;
      ratio = omega (arith, v.ratio);
    } in
    let p = prune_expired now counted in
    let p_IsValid = prune_expired-IsValid now counted counted_IsValid in
    elim (Bool-cases (is_live_entry now (JsMap.get f p.seen))) [
      | inl live ↦ rw live (record {
        distinct = p_IsValid.distinct;
        bounded = p_IsValid.bounded;
        positive = p_IsValid.positive;
        history =
            length-record_event-le
              (record { timestamp = now; fingerprint = f; is_duplicate = true }) d.events v.history;
        ratio = omega (arith, v.ratio);
      })
      | inr dead ↦ rw dead p_IsValid
    ]

pub Step-IsValid : (now : ℕ) (e : Call) (d : Deduplicator) → IsValid d → IsValid (step now e d)
unfolding step size clear clear_event_history reset_metrics JsMap.Distinct
Step-IsValid now (checks f) d v = is_duplicate-IsValid now f d v
Step-IsValid now (marks f) d v = mark_sent-IsValid now f d v
Step-IsValid now sizes d v = prune_expired-IsValid now d v
Step-IsValid now clears d v = record {
  distinct = tt;
  bounded = omega arith;
  positive = v.positive;
  history = omega arith;
  ratio = omega arith;
}
Step-IsValid now clears_history d v = record {
  distinct = v.distinct;
  bounded = v.bounded;
  positive = v.positive;
  history = omega arith;
  ratio = v.ratio;
}
Step-IsValid now resets d v = record {
  distinct = v.distinct;
  bounded = v.bounded;
  positive = v.positive;
  history = v.history;
  ratio = omega arith;
}

pub Run-IsValid : (es : List (ℕ × Call)) (d : Deduplicator) → IsValid d → IsValid (run es d)
unfolding run
Run-IsValid [] d v = v
Run-IsValid ((now, e) ∷ es) d v = Run-IsValid es (step now e d) (Step-IsValid now e d v)

pub create-IsValid : (max_size window_ms : Option ℕ) → IsValid (create max_size window_ms)
unfolding create JsMap.Distinct
create-IsValid max_size window_ms = record {
  distinct = tt;
  bounded = omega arith;
  positive = omega arith;
  history = omega arith;
  ratio = omega arith;
}

-- After any calls on a new deduplicator no fingerprint is tracked twice, no more are tracked than
-- the maximum, which is at least one, at most 1000 events are kept, and no more duplicates are
-- counted than checks.
pub run-new-IsValid :
    (max_size window_ms : Option ℕ) (es : List (ℕ × Call))
    → IsValid (run es (create max_size window_ms))
run-new-IsValid max_size window_ms es =
    Run-IsValid es (create max_size window_ms) (create-IsValid max_size window_ms)
