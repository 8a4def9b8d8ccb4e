-- ===== src/Deduplicator/Windows.antt =====
-- What listener/src/services/notification-deduplicator.ts reports as a duplicate, and when.
use notify_chain.Prelude.{
  ℕ, ◌+◌, ◌<◌, ◌≡◌, refl, ◌⊎◌, inl, inr, String, true, Option, some, List, [], ◌∷◌, arith, ltb,
  drop, string_key, Option-cases, sym, subst, ◌∙◌,
}
use notify_chain.Prelude.JsMap
use notify_chain.Prelude.JsMap.{JsMap, get-set, get-keep, set-Distinct, keep-Distinct, when_kept}
use notify_chain.Deduplicator.{
  Deduplicator, is_duplicate, mark_sent, prune_expired, make_room, size, clear, clear_event_history,
  reset_metrics, is_live, is_live_entry, create,
}
use notify_chain.Deduplicator.Bounds.{
  Call, checks, marks, sizes, clears, clears_history, resets, IsValid, step, run, mark_sent-IsValid,
  create-IsValid, Step-IsValid, Run-IsValid, prune_expired-IsValid,
}

-- A check is answered from the entry of the fingerprint alone.
is_duplicate_lem :
    (now : ℕ) (f : String) (d : Deduplicator)
    → JsMap.Distinct d.seen
    → (is_duplicate now f d).1 ≡ is_live_entry now (JsMap.get f d.seen)
unfolding is_duplicate prune_expired is_live
is_duplicate_lem now f d h = ground (arith, get-keep (is_live now) f d.seen h)

make_room_window : (d : Deduplicator) → (make_room d).window_ms ≡ d.window_ms
unfolding make_room
make_room_window d = ground arith

prune_expired_window : (now : ℕ) (d : Deduplicator) → (prune_expired now d).window_ms ≡ d.window_ms
unfolding prune_expired
prune_expired_window now d = refl

get-mark_sent :
    (now : ℕ) (f : String) (d : Deduplicator)
    → JsMap.get f (mark_sent now f d).seen ≡ some (now + d.window_ms)
unfolding mark_sent prune_expired
get-mark_sent now f d =
    let p = prune_expired now d in
    ground
      (arith, get-set f f (now + (make_room p).window_ms) (make_room p).seen, make_room_window p)

-- In a valid state, a notification that is marked as sent is a duplicate at the next check exactly
-- while the window that began with the mark has not passed.
pub is_duplicate-mark_sent :
    (now later : ℕ) (f : String) (d : Deduplicator)
    → IsValid d
    → (is_duplicate later f (mark_sent now f d)).1 ≡ ltb later (now + d.window_ms)
is_duplicate-mark_sent now later f d v = rw (
  is_duplicate_lem later f (mark_sent now f d) (mark_sent-IsValid now f d v).distinct,
  get-mark_sent now f d,
)

window_kept : (now : ℕ) (e : Call) (d : Deduplicator) → (step now e d).window_ms ≡ d.window_ms
unfolding step is_duplicate mark_sent prune_expired make_room size clear clear_event_history
    reset_metrics
window_kept now (checks f) d = ground arith
window_kept now (marks f) d = ground arith
window_kept now sizes d = refl
window_kept now clears d = refl
window_kept now clears_history d = refl
window_kept now resets d = refl

get-prune_expired-some :
    (now x : ℕ) (f : String) (d : Deduplicator)
    → JsMap.Distinct d.seen
    → JsMap.get f (prune_expired now d).seen ≡ some x
    → JsMap.get f d.seen ≡ some x
unfolding prune_expired
get-prune_expired-some now x f d v h = ground (arith, get-keep (is_live now) f d.seen v)

get-drop_one-some :
    (x : ℕ) (f : String) (m : JsMap String ℕ)
    → JsMap.Distinct m
    → JsMap.get f (drop 1 m) ≡ some x
    → JsMap.get f m ≡ some x
unfolding JsMap.Distinct JsMap.get
get-drop_one-some x f [] v h = h
get-drop_one-some x f (e ∷ m) v h = ground arith

get-make_room-some :
    (x : ℕ) (f : String) (d : Deduplicator)
    → JsMap.Distinct d.seen
    → JsMap.get f (make_room d).seen ≡ some x
    → JsMap.get f d.seen ≡ some x
unfolding make_room
get-make_room-some x f d v h = ground (arith, get-drop_one-some x f d.seen v)

-- The call marks the fingerprint at a time whose window has not passed.
abbrev pub MarksAt : ℕ → ℕ → String → ℕ × Call → Type 0
MarksAt window_ms now f (t, marks g) = (f ≡ g) × (now < t + window_ms)
MarksAt window_ms now f (t, _) = ⊥

-- Some call of the list does.
abbrev pub Marked : ℕ → ℕ → String → List (ℕ × Call) → Type 0
Marked window_ms now f [] = ⊥
Marked window_ms now f (e ∷ es) = MarksAt window_ms now f e ⊎ Marked window_ms now f es

get-mark_sent-some :
    (t x : ℕ) (f g : String) (d : Deduplicator)
    → IsValid d
    → JsMap.get f (mark_sent t g d).seen ≡ some x
    → ((f ≡ g) × (x ≡ t + d.window_ms)) ⊎ (JsMap.get f d.seen ≡ some x)
unfolding mark_sent
get-mark_sent-some t x f g d v h =
    let p = prune_expired t d in
    let roomy = make_room p in
    ground (
      arith,
      get-prune_expired-some t x f d v.distinct,
      get-make_room-some x f p (prune_expired-IsValid t d v).distinct,
      get-set f g (t + roomy.window_ms) roomy.seen,
      make_room_window p,
      prune_expired_window t d,
    )

get-is_duplicate-some :
    (t x : ℕ) (f g : String) (d : Deduplicator)
    → IsValid d
    → JsMap.get f (is_duplicate t g d).0.seen ≡ some x
    → JsMap.get f d.seen ≡ some x
unfolding is_duplicate prune_expired
get-is_duplicate-some t x f g d v h = ground (arith, get-keep (is_live t) f d.seen v.distinct)

-- An entry that is live after a call was live before it or marked by it.
live-step :
    (t now : ℕ) (f : String) (e : Call) (d : Deduplicator)
    → IsValid d
    → is_live_entry now (JsMap.get f (step t e d).seen) ≡ true
    → MarksAt d.window_ms now f (t, e) ⊎ (is_live_entry now (JsMap.get f d.seen) ≡ true)
unfolding step size clear clear_event_history reset_metrics JsMap.get
live-step t now f (checks g) d v h = elim (Option-cases (JsMap.get f (is_duplicate t g d).0.seen)) [
  | inl absent ↦ ground arith
  | inr (x, at) ↦ ground (arith, get-is_duplicate-some t x f g d v at)
]
live-step t now f (marks g) d v h = elim (Option-cases (JsMap.get f (mark_sent t g d).seen)) [
  | inl absent ↦ ground arith
  | inr (x, at) ↦ ground (arith, get-mark_sent-some t x f g d v at)
]
live-step t now f sizes d v h = elim (Option-cases (JsMap.get f (prune_expired t d).seen)) [
  | inl absent ↦ ground arith
  | inr (x, at) ↦ ground (arith, get-prune_expired-some t x f d v.distinct at)
]
live-step t now f clears d v h = ground arith
live-step t now f clears_history d v h = inr h
live-step t now f resets d v h = inr h

live-run :
    (now : ℕ) (f : String) (es : List (ℕ × Call)) (d : Deduplicator)
    → IsValid d
    → is_live_entry now (JsMap.get f (run es d).seen) ≡ true
    → Marked d.window_ms now f es ⊎ (is_live_entry now (JsMap.get f d.seen) ≡ true)
unfolding run
live-run now f [] d v h = inr h
live-run now f ((t, e) ∷ es) d v h =
    elim (live-run now f es (step t e d) (Step-IsValid t e d v) h) [
      | inl later ↦ inl (inr (subst (λ w. Marked w now f es) (window_kept t e d) later))
      | inr live ↦ elim (live-step t now f e d v live) [
        | inl here ↦ inl (inl here)
        | inr old ↦ inr old
      ]
    ]

-- A new deduplicator, whatever was asked of it, reports a duplicate only if the fingerprint was
-- marked as sent among those calls, less than the window before.
pub is_duplicate-run :
    (max_size window_ms : Option ℕ) (now : ℕ) (f : String) (es : List (ℕ × Call))
    → (is_duplicate now f (run es (create max_size window_ms))).1 ≡ true
    → Marked (create max_size window_ms).window_ms now f es
unfolding create JsMap.get
is_duplicate-run max_size window_ms now f es h =
    let d = create max_size window_ms in
    let d_IsValid = create-IsValid max_size window_ms in
    elim (live-run now f es d d_IsValid
      (sym (is_duplicate_lem now f (run es d) (Run-IsValid es d d_IsValid).distinct) ∙ h)) [
        | inl marked ↦ marked
        | inr live ↦ ground arith
      ]
