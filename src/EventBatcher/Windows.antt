-- ===== src/EventBatcher/Windows.antt =====
-- `flushDue` of listener/src/services/event-batcher.ts, and the groups that it leaves.
use mathlib.Core.List.{append-nil, append_assoc, map-append}
use notify_chain.Prelude.{
  ℕ, suc, ◌+◌, ◌≤◌, ◌<◌, ◌≡◌, ◌↔◌, ◌⊎◌, refl, sym, ap, ◌∙◌, inl, inr, String, Bool, true, false,
  Option, none, some, List, [], ◌∷◌, ◌++◌, ◌&&◌, map, filter, length, leb, ltb, if◌then◌else◌,
  arith, string_key, ite, Bool-cases, Option-cases,
}
use notify_chain.Prelude.JsMap
use notify_chain.Prelude.JsMap.{JsMap, get-delete}
use notify_chain.EventBatcher.{
  EventBatcher, BatchableEvent, BatchedEventGroup, PendingGroup, Handler, is_rejected, count_one,
  build_batch, emit, flush_found, flush_group, flush_entries, flush_due,
}
use notify_chain.EventBatcher.Calls.{flush_group-Flushed}

get-flush_found :
    (now : ℕ) (j k : String) (found : Option PendingGroup) (b : EventBatcher)
    → JsMap.get k (flush_found now j found b).0.groups
      ≡ ite (string_key.dec k j) none (JsMap.get k b.groups)
unfolding flush_found emit
get-flush_found now j k none b = get-delete k j b.groups
get-flush_found now j k (some g) b = ground (arith, get-delete k j b.groups)

-- Flushing a group takes it, and no other, from the groups.
get-flush_group :
    (now : ℕ) (j k : String) (b : EventBatcher)
    → JsMap.get k (flush_group now j b).0.groups
      ≡ ite (string_key.dec k j) none (JsMap.get k b.groups)
unfolding flush_group
get-flush_group now j k b = get-flush_found now j k (JsMap.get j b.groups) b

-- A key that is not among the entries is left alone.
get-flush_entries-absent :
    (accepts : Handler) (now : ℕ) (k : String) (es : JsMap String PendingGroup) (b : EventBatcher)
    → JsMap.get k es ≡ none
    → JsMap.get k (flush_entries accepts now es b).0.groups ≡ JsMap.get k b.groups
unfolding flush_entries JsMap.get
get-flush_entries-absent accepts now k [] b h = refl
get-flush_entries-absent accepts now k ((j, g) ∷ es) b h = ground (
  arith,
  get-flush_entries-absent accepts now k es b,
  get-flush_entries-absent accepts now k es (flush_group now j b).0,
  get-flush_group now j k b,
)

get-flush_entries-open :
    (accepts : Handler) (now : ℕ) (k : String) (g : PendingGroup) (es : JsMap String PendingGroup)
    (b : EventBatcher)
    → JsMap.Distinct es
    → now < g.window_start + b.config.window_ms
    → JsMap.get k es ≡ some g
    → JsMap.get k (flush_entries accepts now es b).0.groups ≡ JsMap.get k b.groups
unfolding flush_entries JsMap.get JsMap.Distinct
get-flush_entries-open accepts now k g [] b d early h = absurd (ground (arith, h))
get-flush_entries-open accepts now k g ((j, g') ∷ es) b d early h = ground (
  arith,
  get-flush_entries-open accepts now k g es b d.1,
  get-flush_entries-open accepts now k g es (flush_group now j b).0 d.1,
  get-flush_entries-absent accepts now k es b,
  get-flush_group now j k b,
  flush_group-Flushed now j b,
)

count_one_inv :
    (emitted : Bool) (rest : Option ℕ) (n : ℕ)
    → count_one emitted rest ≡ some n
    → (m : ℕ) × (rest ≡ some m) × (n ≡ (if emitted then suc m else m))
count_one_inv true none n h = absurd (ground (arith, h))
count_one_inv true (some m) n h = (m, refl, ground (arith, h))
count_one_inv false rest n h = (n, h, refl)

-- How a run of the loop that is not ended by a rejection treats its first entry.
flush_entries_first :
    (accepts : Handler) (now n : ℕ) (k : String) (g : PendingGroup) (es : JsMap String PendingGroup)
    (b : EventBatcher)
    → (flush_entries accepts now ((k, g) ∷ es) b).1 ≡ some n
    → (now < g.window_start + b.config.window_ms)
        × (flush_entries accepts now ((k, g) ∷ es) b ≡ flush_entries accepts now es b)
      ⊎ (g.window_start + b.config.window_ms ≤ now)
        × ((flush_entries accepts now ((k, g) ∷ es) b).0
            ≡ (flush_entries accepts now es (flush_group now k b).0).0)
        × ((m : ℕ) × ((flush_entries accepts now es (flush_group now k b).0).1 ≡ some m)
            × (n ≡ (if (flush_group now k b).1 then suc m else m)))
unfolding flush_entries
flush_entries_first accepts now n k g es b all =
    elim (Bool-cases (leb (g.window_start + b.config.window_ms) now)) [
      | inl due ↦ elim (Bool-cases (is_rejected accepts now k (JsMap.get k b.groups))) [
        | inl rejected ↦ absurd (ground (arith, due, rejected, all))
        | inr accepted ↦ inr (
          ground (arith, due),
          ground (arith, due, accepted),
          count_one_inv (flush_group now k b).1
              (flush_entries accepts now es (flush_group now k b).0).1 n
              (ground (arith, due, accepted, all)),
        )
      ]
      | inr early ↦ inl (ground (arith, early), ground (arith, early))
    ]

get-flush_entries-due :
    (accepts : Handler) (now n : ℕ) (k : String) (g : PendingGroup) (es : JsMap String PendingGroup)
    (b : EventBatcher)
    → JsMap.Distinct es
    → g.window_start + b.config.window_ms ≤ now
    → JsMap.get k es ≡ some g
    → (flush_entries accepts now es b).1 ≡ some n
    → JsMap.get k (flush_entries accepts now es b).0.groups ≡ none
unfolding JsMap.get JsMap.Distinct
get-flush_entries-due accepts now n k g [] b d due h all = absurd (ground (arith, h))
get-flush_entries-due accepts now n k g ((j, g') ∷ es) b d due h all =
    elim (flush_entries_first accepts now n j g' es b all) [
      | inl (open_yet, skipped) ↦ ground (
        arith,
        skipped,
        all,
        ap (λ r. r.1) skipped,
        get-flush_entries-due accepts now n k g es b d.1,
      )
      | inr (due_first, flushed, (m, rest, count)) ↦ rw flushed (
          ground (
            arith,
            get-flush_entries-due accepts now m k g es (flush_group now j b).0 d.1,
            get-flush_entries-absent accepts now k es (flush_group now j b).0,
            get-flush_group now j k b,
            flush_group-Flushed now j b,
          ))
    ]

-- The group key and the events of what was handed over, in order.
abbrev pub handed : EventBatcher → List (String × List BatchableEvent)
handed b = map (λ batch. (batch.group_key, batch.events)) b.flushed

-- Of groups, those with events whose window has passed, in order.
abbrev pub due_groups : ℕ → ℕ → JsMap String PendingGroup → List (String × List BatchableEvent)
due_groups now window_ms es =
    map (λ e. (e.0, e.1.events))
      (filter (λ e. leb (e.1.window_start + window_ms) now && ltb 0 (length e.1.events)) es)

handed-flush_group :
    (now : ℕ) (k : String) (g : PendingGroup) (b : EventBatcher)
    → JsMap.get k b.groups ≡ some g
    → (handed (flush_group now k b).0
        ≡ handed b ++ (if ltb 0 (length g.events) then (k, g.events) ∷ [] else []))
      × ((flush_group now k b).1 ≡ ltb 0 (length g.events))
unfolding flush_group flush_found emit build_batch
handed-flush_group now k g b h =
    let pair : BatchedEventGroup → String × List BatchableEvent =
      λ batch. (batch.group_key, batch.events) in
    let batch = build_batch k g.events g.window_start now in
    rw h (ground (arith, append-nil (handed b), map-append pair b.flushed (batch ∷ [])))

get_start : Option PendingGroup → ℕ
get_start none = 0
get_start (some g) = g.window_start

get-first :
    (k : String) (g : PendingGroup) (es : JsMap String PendingGroup)
    → JsMap.get k ((k, g) ∷ es) ≡ some g
unfolding JsMap.get
get-first k g es = ground arith

get-later :
    (k j : String) (g g' : PendingGroup) (es : JsMap String PendingGroup)
    → JsMap.get j es ≡ none
    → JsMap.get k es ≡ some g
    → (JsMap.get k ((j, g') ∷ es) ≡ some g) × (ite (string_key.dec k j) false true ≡ true)
unfolding JsMap.get
get-later k j g g' es absent h = (ground (arith, absent, h), ground (arith, absent, h))

flush_entries-handed :
    (accepts : Handler) (now n : ℕ) (es : JsMap String PendingGroup) (b : EventBatcher)
    → JsMap.Distinct es
    → ((k : String) (g : PendingGroup) → JsMap.get k es ≡ some g → JsMap.get k b.groups ≡ some g)
    → (flush_entries accepts now es b).1 ≡ some n
    → (handed (flush_entries accepts now es b).0 ≡ handed b ++ due_groups now b.config.window_ms es)
      × (n ≡ length (due_groups now b.config.window_ms es))
unfolding JsMap.get JsMap.Distinct
flush_entries-handed accepts now n [] b d same all =
    unfold flush_entries in (ground (arith, append-nil (handed b)), ground (arith, all))
flush_entries-handed accepts now n ((k, g) ∷ es) b d same all =
    let w = b.config.window_ms in
    elim (flush_entries_first accepts now n k g es b all) [
      | inl (open_yet, skipped) ↦
          let (taken, counted) =
            flush_entries-handed accepts now n es b d.1
              (λ k' g' h. same k' g' (get-later k' k g' g es d.0 h).0)
              (ap (λ r. r.1) (sym skipped) ∙ all) in
          let none_first : due_groups now w ((k, g) ∷ es) ≡ due_groups now w es =
            ground (arith, open_yet) in
          rw (skipped, none_first) (taken, counted)
      | inr (due_first, flushed, (m, rest, count)) ↦
          let b' = (flush_group now k b).0 in
          let (first, emitted) = handed-flush_group now k g b (same k g (get-first k g es)) in
          let (taken, counted) =
            flush_entries-handed accepts now m es b' d.1
              (λ k' g' h.
                let (at, other) = get-later k' k g' g es d.0 h in
                ground (arith, get-flush_group now k k' b, same k' g' at, other))
              rest in
          let same_window : due_groups now b'.config.window_ms es ≡ due_groups now w es =
            ap (λ c. due_groups now c.window_ms es) (flush_group-Flushed now k b).0 in
          let one : List (String × List BatchableEvent) =
            if ltb 0 (length g.events) then (k, g.events) ∷ [] else [] in
          let split : due_groups now w ((k, g) ∷ es) ≡ one ++ due_groups now w es =
            ground (arith, due_first) in
          (
            ap handed flushed
                ∙ taken
                ∙ ap (λ gs. handed b' ++ gs) same_window
                ∙ ap (λ xs. xs ++ due_groups now w es) first
                ∙ append_assoc (handed b) one (due_groups now w es)
                ∙ ap (λ gs. handed b ++ gs) (sym split),
            ground (arith, count, counted, emitted, ap length same_window, ap length split),
          )
    ]

-- When nothing else runs during its awaits and no batch is rejected, `flush_due` of a batcher whose map
-- of groups has no key twice: hands over exactly the groups with events whose window has passed, in
-- their order and with all their events; returns their number; and afterwards exactly those groups wait
-- that waited before and whose window has not passed, unchanged.
pub flush_due-takes_due :
    (accepts : Handler) (now n : ℕ) (b : EventBatcher) (k : String) (g : PendingGroup)
    → JsMap.Distinct b.groups
    → (flush_due accepts now b).1 ≡ some n
    → (handed (flush_due accepts now b).0 ≡ handed b ++ due_groups now b.config.window_ms b.groups)
      × (n ≡ length (due_groups now b.config.window_ms b.groups))
      × ((JsMap.get k (flush_due accepts now b).0.groups ≡ some g)
          ↔ ((JsMap.get k b.groups ≡ some g) × (now < g.window_start + b.config.window_ms)))
unfolding flush_due
flush_due-takes_due accepts now n b k g d all =
    let es = b.groups in
    let (taken, counted) = flush_entries-handed accepts now n es b d (λ k' g' h. h) all in
    (
      taken,
      counted,
      (
        (λ left. elim (Option-cases (JsMap.get k es)) [
          | inl absent ↦
              absurd
                (ground (arith, left, absent, get-flush_entries-absent accepts now k es b absent))
          | inr (g', at) ↦ elim (Bool-cases (leb (g'.window_start + b.config.window_ms) now)) [
            | inl due ↦ absurd (
                ground (
                  arith,
                  left,
                  get-flush_entries-due accepts now n k g' es b d (ground (arith, due)) at all,
                ))
            | inr early ↦
                let stays =
                  get-flush_entries-open accepts now k g' es b d (ground (arith, early)) at in
                let same : some g' ≡ some g = sym at ∙ sym stays ∙ left in
                let waits : get_start (some g') ≡ get_start (some g) = ap get_start same in
                (at ∙ same, ground (arith, early, waits))
          ]
        ]),
        (λ (at, early). get-flush_entries-open accepts now k g es b d early at ∙ at),
      ),
    )
