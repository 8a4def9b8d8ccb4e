-- ===== src/EventBatcher/Conservation.antt =====
-- Where the events go that are given to the batcher of listener/src/services/event-batcher.ts.
use mathlib.Core.List.{append-nil, append_assoc}
use notify_chain.Prelude.{
  ℕ, ◌≡◌, refl, sym, ap, ◌∙◌, String, true, Option, none, some, List, [], ◌∷◌, ◌++◌, arith, leb,
  ite, length, map, string_key, Bool-cases, inl, inr,
}
use notify_chain.Prelude.JsMap
use notify_chain.Prelude.JsMap.{JsMap, get-set, get-delete}
use notify_chain.EventBatcher.{
  EventBatcher, BatchableEvent, BatchedEventGroup, PendingGroup, events_of, build_batch, emit,
  Handler, flush_found, flush_group, flush_keys, flush, flush_entries, flush_due, push, collect,
  group_or_new, is_immediate_mode, default_group_key, key_or,
}
use notify_chain.EventBatcher.Calls.{
  Call, adds, flushes, flushes_due, window_elapses, step, run, Running, Step-Running, step_adds,
}

-- The events that the batches of a group hold, in order.
unfoldable pub delivered : String → List BatchedEventGroup → List BatchableEvent
delivered k [] = []
delivered k (x ∷ xs) =
    ite (string_key.dec k x.group_key) (x.events ++ delivered k xs) (delivered k xs)

-- The events of a group that were handed over, and then those that wait.
unfoldable pub history : String → EventBatcher → List BatchableEvent
history k b = delivered k b.flushed ++ events_of (JsMap.get k b.groups)

delivered-append :
    (k : String) (xs ys : List BatchedEventGroup)
    → delivered k (xs ++ ys) ≡ delivered k xs ++ delivered k ys
unfolding delivered
delivered-append k [] ys = refl
delivered-append k (x ∷ xs) ys =
    ground
      (arith, delivered-append k xs ys, append_assoc x.events (delivered k xs) (delivered k ys))

delivered-one :
    (k : String) (xs : List BatchedEventGroup) (x : BatchedEventGroup)
    → delivered k (xs ++ x ∷ []) ≡ delivered k xs ++ ite (string_key.dec k x.group_key) x.events []
unfolding delivered
delivered-one k xs x = ground (arith, delivered-append k xs (x ∷ []), append-nil x.events)

length_zero : (es : List BatchableEvent) → leb (length es) 0 ≡ true → es ≡ []
length_zero [] h = refl
length_zero (e ∷ es) h = ground arith

history-flush_found :
    (now : ℕ) (j k : String) (found : Option PendingGroup) (b : EventBatcher)
    → JsMap.get j b.groups ≡ found
    → history k (flush_found now j found b).0 ≡ history k b
unfolding history flush_found
history-flush_found now j k none b h = ground (arith, get-delete k j b.groups)
history-flush_found now j k (some g) b h = elim (Bool-cases (leb (length g.events) 0)) [
  | inl empty ↦ ground (arith, get-delete k j b.groups, length_zero g.events empty)
  | inr full ↦ ground (
    arith,
    get-delete k j b.groups,
    delivered-one k b.flushed (build_batch j g.events g.window_start now),
    append-nil (delivered k b.flushed),
    append-nil (delivered k b.flushed ++ g.events),
  )
]

history-flush_group :
    (now : ℕ) (j k : String) (b : EventBatcher) → history k (flush_group now j b).0 ≡ history k b
unfolding flush_group
history-flush_group now j k b = history-flush_found now j k (JsMap.get j b.groups) b refl

history-flush_keys :
    (accepts : Handler) (now : ℕ) (k : String) (ks : List String) (b : EventBatcher)
    → history k (flush_keys accepts now ks b).0 ≡ history k b
unfolding flush_keys
history-flush_keys accepts now k [] b = refl
history-flush_keys accepts now k (j ∷ ks) b = ground (
  arith,
  history-flush_keys accepts now k ks (flush_group now j b).0,
  history-flush_group now j k b,
)

history-flush :
    (accepts : Handler) (now : ℕ) (k : String) (key : Option String) (b : EventBatcher)
    → history k (flush accepts now key b).0 ≡ history k b
unfolding flush
history-flush accepts now k none b = history-flush_keys accepts now k (map (λ e. e.0) b.groups) b
history-flush accepts now k (some j) b = history-flush_keys accepts now k (j ∷ []) b

history-flush_entries :
    (accepts : Handler) (now : ℕ) (k : String) (es : JsMap String PendingGroup) (b : EventBatcher)
    → history k (flush_entries accepts now es b).0 ≡ history k b
unfolding flush_entries
history-flush_entries accepts now k [] b = refl
history-flush_entries accepts now k ((j, g) ∷ es) b = ground (
  arith,
  history-flush_entries accepts now k es b,
  history-flush_entries accepts now k es (flush_group now j b).0,
  history-flush_group now j k b,
)

events-group_or_new :
    (now : ℕ) (found : Option PendingGroup) → (group_or_new now found).events ≡ events_of found
events-group_or_new now none = refl
events-group_or_new now (some g) = refl

history-push :
    (now : ℕ) (e : BatchableEvent) (j k : String) (b : EventBatcher)
    → history k (push now e j b) ≡ history k b ++ ite (string_key.dec k j) (e ∷ []) []
unfolding history push
history-push now e j k b =
    let g = group_or_new now (JsMap.get j b.groups) in
    let waiting = delivered k b.flushed in
    ground (
      arith,
      get-set k j (record g { events = g.events ++ e ∷ [] }) b.groups,
      events-group_or_new now (JsMap.get j b.groups),
      append-nil (waiting ++ events_of (JsMap.get k b.groups)),
      append_assoc waiting (events_of (JsMap.get k b.groups)) (e ∷ []),
    )

history-emit :
    (now : ℕ) (e : BatchableEvent) (j k : String) (b : EventBatcher)
    → b.groups ≡ []
    → history k (emit (build_batch j (e ∷ []) now now) b)
      ≡ history k b ++ ite (string_key.dec k j) (e ∷ []) []
unfolding history emit build_batch JsMap.get
history-emit now e j k b idle =
    let waiting = delivered k b.flushed in
    ground (
      arith,
      delivered-one k b.flushed (build_batch j (e ∷ []) now now),
      append-nil waiting,
      append-nil (waiting ++ ite (string_key.dec k j) (e ∷ []) []),
    )

history-collect :
    (now : ℕ) (e : BatchableEvent) (j k : String) (b : EventBatcher)
    → (is_immediate_mode b.config ≡ true → b.groups ≡ [])
    → history k (collect now e j b) ≡ history k b ++ ite (string_key.dec k j) (e ∷ []) []
unfolding collect
history-collect now e j k b idle = ground (
  arith,
  history-emit now e j k b,
  history-push now e j k b,
  history-flush_group now j k (push now e j b),
)

-- The events that the calls add to a group, in order.
unfoldable pub added : String → List (ℕ × Call) → List BatchableEvent
added k [] = []
added k ((now, adds e group_key) ∷ es) =
    ite (string_key.dec k (key_or group_key (default_group_key e))) (e ∷ []) [] ++ added k es
added k (_ ∷ es) = added k es

history-step :
    (now : ℕ) (e : Call) (k : String) (b : EventBatcher)
    → Running b
    → history k (step now e b) ≡ history k b ++ added k ((now, e) ∷ [])
unfolding step flush_due added
history-step now (adds e group_key) k b r =
    let j = key_or group_key (default_group_key e) in
    ap (history k) (step_adds now e group_key b r.running)
    ∙ history-collect now e j k b r.idle
    ∙ sym (ap (λ es. history k b ++ es) (append-nil (ite (string_key.dec k j) (e ∷ []) [])))
history-step now (flushes accepts key) k b r =
    history-flush accepts now k key b ∙ sym (append-nil (history k b))
history-step now (flushes_due accepts) k b r =
    history-flush_entries accepts now k b.groups b ∙ sym (append-nil (history k b))
history-step now (window_elapses j) k b r =
    history-flush_group now j k b ∙ sym (append-nil (history k b))

added-cons :
    (k : String) (e : ℕ × Call) (es : List (ℕ × Call))
    → added k (e ∷ es) ≡ added k (e ∷ []) ++ added k es
unfolding added
added-cons k (now, adds e group_key) es = ground arith
added-cons k (now, flushes accepts key) es = refl
added-cons k (now, flushes_due accepts) es = refl
added-cons k (now, window_elapses j) es = refl

-- While a batcher runs, with no groups if it delivers each event at once, and is not stopped, the events of a group that it handed over and then
-- those that wait are what it had before and then exactly the events added to the group, in the
-- order they were added: none is lost, doubled, reordered or put in another group.
pub history-run :
    (k : String) (es : List (ℕ × Call)) (b : EventBatcher)
    → Running b
    → history k (run es b) ≡ history k b ++ added k es
unfolding run added
history-run k [] b r = sym (append-nil (history k b))
history-run k ((now, e) ∷ es) b r =
    history-run k es (step now e b) (Step-Running now e b r)
    ∙ ap (λ h. h ++ added k es) (history-step now e k b r)
    ∙ append_assoc (history k b) (added k ((now, e) ∷ [])) (added k es)
    ∙ ap (λ h. history k b ++ h) (sym (added-cons k (now, e) es))
