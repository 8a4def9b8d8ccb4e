-- ===== src/ReplayCache/Bounds.antt =====
-- Calls of listener/src/services/webhook-replay-cache.ts, and the size of the cache.
use notify_chain.Prelude.{
  ℕ, ◌+◌, ◌≤◌, inl, inr, String, Option, List, [], ◌∷◌, arith, ltb, length, Bool-cases, string_key,
}
use notify_chain.Prelude.JsMap
use notify_chain.Prelude.JsMap.{
  JsMap, get-set, get-delete, set-Distinct, delete-Distinct, keep-Distinct, size-set-le,
  size-set_new, size-delete-le, size-keep-le,
}
use notify_chain.ReplayCache.{
  ReplayCache, is_live, sweep, evict_oldest, evict, remember, claim, clear, create,
}

-- What can be asked of the cache.
pub data Call : Type 0 where
  claims : String → ℕ → Call
  sweeps clears : Call

unfoldable pub step : ℕ → Call → ReplayCache → ReplayCache
unfolding claim sweep clear
step now (claims k ttl_ms) c = (claim now k ttl_ms c).0
step now sweeps c = sweep now c
step now clears c = clear c

unfoldable pub run : List (ℕ × Call) → ReplayCache → ReplayCache
run [] c = c
run ((now, e) ∷ es) c = run es (step now e c)

evict_oldest-size : (n : ℕ) (m : JsMap String ℕ) → length (evict_oldest n m) ≤ n
unfolding evict_oldest
evict_oldest-size n [] = omega arith
evict_oldest-size n (e ∷ m) = ground (arith, evict_oldest-size n m)

evict_oldest-Distinct :
    (n : ℕ) (m : JsMap String ℕ) → JsMap.Distinct m → JsMap.Distinct (evict_oldest n m)
unfolding evict_oldest JsMap.Distinct
evict_oldest-Distinct n [] d = tt
evict_oldest-Distinct n (e ∷ m) d = ground (arith, evict_oldest-Distinct n m d.1)

pub record IsValid (c : ReplayCache) : Type 0 where
  pub distinct : JsMap.Distinct c.entries
  pub bounded : JsMap.size c.entries ≤ c.max_entries

remember-IsValid :
    (now : ℕ) (k : String) (ttl_ms : ℕ) (c : ReplayCache)
    → JsMap.Distinct c.entries
    → IsValid (remember now k ttl_ms c)
unfolding remember evict sweep
remember-IsValid now k ttl_ms c d =
    let m = JsMap.set k (now + ttl_ms) (JsMap.delete k c.entries) in
    let m_distinct =
      set-Distinct k (now + ttl_ms) (JsMap.delete k c.entries) (delete-Distinct k c.entries d) in
    let swept = JsMap.keep (is_live now) m in
    elim (Bool-cases (ltb c.max_entries (length m))) [
      | inl over ↦ rw over (record {
        distinct =
            evict_oldest-Distinct c.max_entries swept (keep-Distinct (is_live now) m m_distinct);
        bounded = evict_oldest-size c.max_entries swept;
      })
      | inr fits ↦ rw fits (record { distinct = m_distinct; bounded = ground arith })
    ]

Step-IsValid : (now : ℕ) (e : Call) (c : ReplayCache) → IsValid c → IsValid (step now e c)
unfolding step claim sweep clear JsMap.Distinct
Step-IsValid now (claims k ttl_ms) c v =
    ground (arith, v.distinct, v.bounded, remember-IsValid now k ttl_ms c v.distinct)
Step-IsValid now sweeps c v = record {
  distinct = keep-Distinct (is_live now) c.entries v.distinct;
  bounded = omega (arith, v.bounded, size-keep-le (is_live now) c.entries);
}
Step-IsValid now clears c v = record { distinct = tt; bounded = omega arith }

Run-IsValid : (es : List (ℕ × Call)) (c : ReplayCache) → IsValid c → IsValid (run es c)
unfolding run
Run-IsValid [] c v = v
Run-IsValid ((now, e) ∷ es) c v = Run-IsValid es (step now e c) (Step-IsValid now e c v)

-- After any calls on a new cache no signature is listed twice and no more are kept than the maximum,
-- which is at least one.
pub run-create-IsValid :
    (limit : Option ℕ) (es : List (ℕ × Call))
    → IsValid (run es (create limit)) × (1 ≤ (create limit).max_entries)
unfolding create JsMap.Distinct
run-create-IsValid limit es =
    (Run-IsValid es (create limit) (record { distinct = tt; bounded = omega arith }), omega arith)
