-- ===== src/EventBatcher/Calls.antt =====
-- What is asked of the batcher of listener/src/services/event-batcher.ts while it runs, and the steps
-- of its timers; none of them stops it.
use notify_chain.Prelude.{
  ℕ, ◌≡◌, refl, sym, ap, subst, ◌∙◌, String, true, false, Option, none, some, List, [], ◌∷◌, arith,
  if◌then◌else◌, map, string_key,
}
use notify_chain.Prelude.JsMap
use notify_chain.Prelude.JsMap.{JsMap, get-set, get-delete}
use notify_chain.EventBatcher.{
  EventBatcher, BatchableEvent, PendingGroup, Handler, emit, flush_found, flush_group, flush_keys,
  flush, flush_entries, flush_due, push, collect, add, default_group_key, key_or, is_immediate_mode,
}

-- What is asked of a running batcher, with what the handler does in a flush, and the steps of its
-- timers.
pub data Call : Type 0 where
  adds : BatchableEvent → Option String → Call
  flushes : Handler → Option String → Call
  flushes_due : Handler → Call
  window_elapses : String → Call

abbrev pub or_same : EventBatcher → Option EventBatcher → EventBatcher
or_same b none = b
or_same b (some b') = b'

unfoldable pub step : ℕ → Call → EventBatcher → EventBatcher
unfolding add flush flush_due
step now (adds e group_key) b = or_same b (add now e group_key b)
step now (flushes accepts group_key) b = (flush accepts now group_key b).0
step now (flushes_due accepts) b = (flush_due accepts now b).0
step now (window_elapses k) b = (flush_group now k b).0

unfoldable pub run : List (ℕ × Call) → EventBatcher → EventBatcher
run [] b = b
run ((now, e) ∷ es) b = run es (step now e b)

-- The batcher runs, with no groups if it delivers each event at once.
pub record Running (b : EventBatcher) : Type 0 where
  pub running : b.stopped ≡ false
  pub idle : is_immediate_mode b.config ≡ true → b.groups ≡ []

-- Flushing changes neither of these, and adds no group where there is none.
abbrev pub Flushed : EventBatcher → EventBatcher → Type 0
Flushed b b' = (b'.config ≡ b.config) × (b'.stopped ≡ b.stopped) × (b.groups ≡ [] → b'.groups ≡ [])

pub flush_found-Flushed :
    (now : ℕ) (k : String) (found : Option PendingGroup) (b : EventBatcher)
    → Flushed b (flush_found now k found b).0
unfolding flush_found emit JsMap.delete
flush_found-Flushed now k none b = ground arith
flush_found-Flushed now k (some g) b = ground arith

pub flush_group-Flushed :
    (now : ℕ) (k : String) (b : EventBatcher) → Flushed b (flush_group now k b).0
unfolding flush_group
flush_group-Flushed now k b = flush_found-Flushed now k (JsMap.get k b.groups) b

pub flush_keys-Flushed :
    (accepts : Handler) (now : ℕ) (ks : List String) (b : EventBatcher)
    → Flushed b (flush_keys accepts now ks b).0
unfolding flush_keys
flush_keys-Flushed accepts now [] b = (refl, refl, λ h. h)
flush_keys-Flushed accepts now (k ∷ ks) b =
    ground (
      arith,
      flush_group-Flushed now k b,
      flush_keys-Flushed accepts now ks (flush_group now k b).0,
    )

pub flush_entries-Flushed :
    (accepts : Handler) (now : ℕ) (es : JsMap String PendingGroup) (b : EventBatcher)
    → Flushed b (flush_entries accepts now es b).0
unfolding flush_entries
flush_entries-Flushed accepts now [] b = (refl, refl, λ h. h)
flush_entries-Flushed accepts now ((k, g) ∷ es) b = ground (
  arith,
  flush_group-Flushed now k b,
  flush_entries-Flushed accepts now es b,
  flush_entries-Flushed accepts now es (flush_group now k b).0,
)

Flushed-Running : (b b' : EventBatcher) → Flushed b b' → Running b → Running b'
Flushed-Running b b' f r = record {
  running = f.1 ∙ r.running;
  idle = λ h. f.2 (r.idle (sym (ap is_immediate_mode f.0) ∙ h));
}

pub collect-Running :
    (now : ℕ) (e : BatchableEvent) (k : String) (b : EventBatcher)
    → Running b
    → Running (collect now e k b)
unfolding collect emit push
collect-Running now e k b r = record {
  running = ground (arith, r.running, flush_group-Flushed now k (push now e k b));
  idle = ground (arith, r.idle, flush_group-Flushed now k (push now e k b));
}

pub step_adds :
    (now : ℕ) (e : BatchableEvent) (group_key : Option String) (b : EventBatcher)
    → b.stopped ≡ false
    → step now (adds e group_key) b ≡ collect now e (key_or group_key (default_group_key e)) b
unfolding step add
step_adds now e group_key b h =
    let added = collect now e (key_or group_key (default_group_key e)) b in
    ap (λ t. or_same b (if t then none else some added)) h

pub Step-Running : (now : ℕ) (e : Call) (b : EventBatcher) → Running b → Running (step now e b)
unfolding step flush flush_due
Step-Running now (adds e group_key) b r =
    let j = key_or group_key (default_group_key e) in
    subst Running (sym (step_adds now e group_key b r.running)) (collect-Running now e j b r)
Step-Running now (flushes accepts none) b r =
    let ks = map (λ e. e.0) b.groups in
    Flushed-Running b (flush_keys accepts now ks b).0 (flush_keys-Flushed accepts now ks b) r
Step-Running now (flushes accepts (some k)) b r =
    let ks = k ∷ [] in
    Flushed-Running b (flush_keys accepts now ks b).0 (flush_keys-Flushed accepts now ks b) r
Step-Running now (flushes_due accepts) b r =
    Flushed-Running b (flush_due accepts now b).0 (flush_entries-Flushed accepts now b.groups b) r
Step-Running now (window_elapses k) b r =
    Flushed-Running b (flush_group now k b).0 (flush_group-Flushed now k b) r
