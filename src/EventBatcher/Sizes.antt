-- ===== src/EventBatcher/Sizes.antt =====
-- The batches of listener/src/services/event-batcher.ts: how large they are and what they say of
-- their events.
use notify_chain.Prelude.{
  ℕ, ◌+◌, ◌≤◌, ◌<◌, max, ◌≡◌, ◌≢◌, refl, sym, subst, String, false, Option, none, some, List, [],
  ◌∷◌, ◌++◌, arith, ltb, leb, length, length-append, map, string_key, Option-cases, Bool-cases, inl,
  inr, All, All-append,
}
use notify_chain.Prelude.JsMap
use notify_chain.Prelude.JsMap.{JsMap, get-set, get-delete}
use notify_chain.EventBatcher.{
  EventBatcher, BatchableEvent, BatchedEventGroup, PendingGroup, EventBatchingConfig, create,
  build_batch, emit, Handler, is_rejected, flush_found, flush_group, flush_keys, flush,
  flush_entries, flush_due, push, collect, group_or_new, default_group_key, key_or,
  is_immediate_mode, get_pending_count,
}
use notify_chain.EventBatcher.Calls.{
  Call, adds, flushes, flushes_due, window_elapses, step, run, Running, Step-Running, step_adds,
}

-- A batch of one event up to the limit, which says how many it holds, which, and if it is a batch.
pub record Fits (limit : ℕ) (x : BatchedEventGroup) : Type 0 where
  pub some_event : 1 ≤ x.event_count
  pub limited : x.event_count ≤ limit
  pub counted : x.event_count ≡ length x.events
  pub named : x.event_ids ≡ map (λ e. e.event_id) x.events
  pub flagged : x.batched ≡ ltb 1 x.event_count

abbrev limit_of : EventBatchingConfig → ℕ
limit_of config = max 1 config.max_batch_size

-- The groups that wait are neither empty nor full, and every batch handed over fits.
pub record Sized (b : EventBatcher) : Type 0 where
  pub waiting :
      (k : String) (g : PendingGroup)
      → JsMap.get k b.groups ≡ some g
      → (1 ≤ length g.events) × (length g.events < b.config.max_batch_size)
  pub handed_over : All (Fits (limit_of b.config)) b.flushed

-- As `Sized`, but the group at the key may be full.
record Filled (j : String) (b : EventBatcher) : Type 0 where
  others :
      (k : String) (g : PendingGroup)
      → k ≢ j
      → JsMap.get k b.groups ≡ some g
      → (1 ≤ length g.events) × (length g.events < b.config.max_batch_size)
  full :
      (g : PendingGroup)
      → JsMap.get j b.groups ≡ some g
      → (1 ≤ length g.events) × (length g.events ≤ b.config.max_batch_size)
  batches : All (Fits (limit_of b.config)) b.flushed

leb-false : (n : ℕ) → 1 ≤ n → leb n 0 ≡ false
leb-false n h = ground arith

flush_found-Sized :
    (now : ℕ) (j : String) (found : Option PendingGroup) (b : EventBatcher)
    → JsMap.get j b.groups ≡ found
    → Filled j b
    → Sized (flush_found now j found b).0
unfolding flush_found emit build_batch
flush_found-Sized now j none b h f = record {
  waiting = λ k g at. ground (arith, get-delete k j b.groups, f.others k g);
  handed_over = f.batches;
}
flush_found-Sized now j (some g) b h f =
    let batch = build_batch j g.events g.window_start now in
    let fits : Fits (limit_of b.config) batch = record {
      some_event = (f.full g h).0;
      limited = omega (arith, f.full g h);
      counted = refl;
      named = refl;
      flagged = refl;
    } in
    rw (leb-false (length g.events) (f.full g h).0) (record {
      waiting = λ k g at. ground (arith, get-delete k j b.groups, f.others k g);
      handed_over =
          All-append (Fits (limit_of b.config)) b.flushed (batch ∷ []) f.batches (fits, tt);
    })

Sized-Filled : (j : String) (b : EventBatcher) → Sized b → Filled j b
Sized-Filled j b z = record {
  others = λ k g _ at. z.waiting k g at;
  full = λ g at. omega (arith, z.waiting j g at);
  batches = z.handed_over;
}

flush_group-Sized :
    (now : ℕ) (j : String) (b : EventBatcher) → Filled j b → Sized (flush_group now j b).0
unfolding flush_group
flush_group-Sized now j b f = flush_found-Sized now j (JsMap.get j b.groups) b refl f

flush_keys-Sized :
    (accepts : Handler) (now : ℕ) (ks : List String) (b : EventBatcher)
    → Sized b
    → Sized (flush_keys accepts now ks b).0
unfolding flush_keys
flush_keys-Sized accepts now [] b z = z
flush_keys-Sized accepts now (k ∷ ks) b z =
    let flushed = flush_group-Sized now k b (Sized-Filled k b z) in
    elim (Bool-cases (is_rejected accepts now k (JsMap.get k b.groups))) [
      | inl rejected ↦ rw rejected flushed
      | inr accepted ↦ rw accepted (flush_keys-Sized accepts now ks (flush_group now k b).0 flushed)
    ]

flush_entries-Sized :
    (accepts : Handler) (now : ℕ) (es : JsMap String PendingGroup) (b : EventBatcher)
    → Sized b
    → Sized (flush_entries accepts now es b).0
unfolding flush_entries
flush_entries-Sized accepts now [] b z = z
flush_entries-Sized accepts now ((k, g) ∷ es) b z =
    let flushed = flush_group-Sized now k b (Sized-Filled k b z) in
    elim (Bool-cases (leb (g.window_start + b.config.window_ms) now)) [
      | inl due ↦ elim (Bool-cases (is_rejected accepts now k (JsMap.get k b.groups))) [
        | inl rejected ↦ rw (due, rejected) flushed
        | inr accepted ↦
            rw (due, accepted) (flush_entries-Sized accepts now es (flush_group now k b).0 flushed)
      ]
      | inr early ↦ rw early (flush_entries-Sized accepts now es b z)
    ]

push-Filled :
    (now : ℕ) (e : BatchableEvent) (j : String) (b : EventBatcher)
    → is_immediate_mode b.config ≡ false
    → Sized b
    → Filled j (push now e j b)
unfolding push is_immediate_mode
push-Filled now e j b busy z =
    let g = group_or_new now (JsMap.get j b.groups) in
    let v = record g { events = g.events ++ e ∷ [] } in
    record {
      others = λ k g' other at. ground (arith, get-set k j v b.groups, z.waiting k g');
      full = λ g' at. elim (Option-cases (JsMap.get j b.groups)) [
        | inl absent ↦ ground (arith, get-set j j v b.groups)
        | inr (old, there) ↦ ground (
          arith,
          get-set j j v b.groups,
          z.waiting j old there,
          length-append old.events (e ∷ []),
        )
      ];
      batches = z.handed_over;
    }

emit_one-Sized :
    (now : ℕ) (e : BatchableEvent) (j : String) (b : EventBatcher)
    → Sized b
    → Sized (emit (build_batch j (e ∷ []) now now) b)
unfolding emit build_batch
emit_one-Sized now e j b z =
    let batch = build_batch j (e ∷ []) now now in
    let fits : Fits (limit_of b.config) batch = record {
      some_event = omega arith;
      limited = omega arith;
      counted = refl;
      named = refl;
      flagged = refl;
    } in
    record {
      waiting = z.waiting;
      handed_over =
          All-append (Fits (limit_of b.config)) b.flushed (batch ∷ []) z.handed_over (fits, tt);
    }

unfilled-Sized :
    (j : String) (b : EventBatcher)
    → leb b.config.max_batch_size (get_pending_count j b) ≡ false
    → Filled j b
    → Sized b
unfolding get_pending_count
unfilled-Sized j b room f = record {
  waiting = λ k g at. ground (arith, f.others k g, f.full g);
  handed_over = f.batches;
}

collect-Sized :
    (now : ℕ) (e : BatchableEvent) (j : String) (b : EventBatcher)
    → Sized b
    → Sized (collect now e j b)
unfolding collect
collect-Sized now e j b z = elim (Bool-cases (is_immediate_mode b.config)) [
  | inl immediate ↦ rw immediate (emit_one-Sized now e j b z)
  | inr busy ↦
      let filled = push-Filled now e j b busy z in
      elim (Bool-cases (leb b.config.max_batch_size (get_pending_count j (push now e j b)))) [
        | inl full ↦ rw (busy, full) (flush_group-Sized now j (push now e j b) filled)
        | inr room ↦ rw (busy, room) (unfilled-Sized j (push now e j b) room filled)
      ]
]

Step-Sized : (now : ℕ) (e : Call) (b : EventBatcher) → Running b → Sized b → Sized (step now e b)
unfolding step flush flush_due
Step-Sized now (adds e group_key) b r z =
    subst Sized (sym (step_adds now e group_key b r.running))
      (collect-Sized now e (key_or group_key (default_group_key e)) b z)
Step-Sized now (flushes accepts none) b r z =
    flush_keys-Sized accepts now (map (λ e. e.0) b.groups) b z
Step-Sized now (flushes accepts (some k)) b r z = flush_keys-Sized accepts now (k ∷ []) b z
Step-Sized now (flushes_due accepts) b r z = flush_entries-Sized accepts now b.groups b z
Step-Sized now (window_elapses k) b r z = flush_group-Sized now k b (Sized-Filled k b z)

Run-Sized : (es : List (ℕ × Call)) (b : EventBatcher) → Running b → Sized b → Sized (run es b)
unfolding run
Run-Sized [] b r z = z
Run-Sized ((now, e) ∷ es) b r z =
    Run-Sized es (step now e b) (Step-Running now e b r) (Step-Sized now e b r z)

-- Whatever is asked of a new batcher that is not stopped, each batch that it hands over holds at
-- least one event and no more than the larger of 1 and the configured size, counts and names
-- exactly its events and is flagged as a batch if they are several; and each group that waits holds
-- at least one event and fewer than the configured size.
pub run-create-Sized :
    (config : EventBatchingConfig) (es : List (ℕ × Call)) → Sized (run es (create config))
unfolding create JsMap.get
run-create-Sized config es =
    Run-Sized es (create config) (record { running = refl; idle = λ _. refl })
      (record { waiting = λ k g at. absurd (ground arith); handed_over = tt })
