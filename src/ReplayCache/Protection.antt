-- ===== src/ReplayCache/Protection.antt =====
-- What listener/src/services/webhook-replay-cache.ts does with a signature that is claimed again.
use notify_chain.Prelude.{
  ℕ, suc, ◌+◌, ◌≤◌, ◌<◌, ◌≡◌, refl, ◌≢◌, ◌⊎◌, inl, inr, String, true, false, none, some, List, [],
  ◌∷◌, arith, ltb, length, Bool-cases, string_key,
}
use native.Mathlib.Nat.{add-zero, add-suc, suc-add}
use notify_chain.Prelude.JsMap
use notify_chain.Prelude.JsMap.{
  JsMap, get-set, get-delete, set-Distinct, delete-Distinct, keep-Distinct, size-set-le,
  size-set_new, size-delete-le, size-keep-le,
}
use notify_chain.ReplayCache.{ReplayCache, is_live, sweep, evict_oldest, evict, remember, claim}
use notify_chain.ReplayCache.Bounds.{Call, claims, sweeps, clears, step, run}

-- The key is cached until `expiry`, and at most `n` entries are younger than it.
abbrev Guards : String → ℕ → ℕ → JsMap String ℕ → Type 0
Guards k expiry n [] = ⊥
Guards k expiry n ((j, v) ∷ m) =
    ((j ≡ k) × (v ≡ expiry) × (length m ≤ n)) ⊎ ((j ≢ k) × Guards k expiry n m)

remember_max :
    (now : ℕ) (j : String) (ttl_ms : ℕ) (c : ReplayCache)
    → (remember now j ttl_ms c).max_entries ≡ c.max_entries
unfolding remember evict sweep
remember_max now j ttl_ms c = ground arith

module _ (k : String) (expiry : ℕ) where
  get-Guards : (n : ℕ) (m : JsMap String ℕ) → Guards k expiry n m → JsMap.get k m ≡ some expiry
  unfolding JsMap.get
  get-Guards n [] g = absurd g
  get-Guards n (e ∷ m) g = ground (arith, get-Guards n m)

  Guards-mono : (n : ℕ) (m : JsMap String ℕ) → Guards k expiry n m → Guards k expiry (suc n) m
  Guards-mono n [] g = absurd g
  Guards-mono n (e ∷ m) g = ground (arith, Guards-mono n m)

  delete-Guards :
      (j : String) (n : ℕ) (m : JsMap String ℕ)
      → j ≢ k
      → Guards k expiry n m
      → Guards k expiry n (JsMap.delete j m)
  unfolding JsMap.delete
  delete-Guards j n [] h g = absurd g
  delete-Guards j n (e ∷ m) h g = ground (arith, delete-Guards j n m, size-delete-le j m)

  set-Guards :
      (j : String) (v n : ℕ) (m : JsMap String ℕ)
      → j ≢ k
      → Guards k expiry n m
      → Guards k expiry (suc n) (JsMap.set j v m)
  unfolding JsMap.set
  set-Guards j v n [] h g = absurd g
  set-Guards j v n (e ∷ m) h g =
      ground (arith, set-Guards j v n m, size-set-le j v m, Guards-mono n m)

  keep-Guards :
      (now n : ℕ) (m : JsMap String ℕ)
      → now < expiry
      → Guards k expiry n m
      → Guards k expiry n (JsMap.keep (is_live now) m)
  unfolding JsMap.keep is_live
  keep-Guards now n [] h g = absurd g
  keep-Guards now n (e ∷ m) h g = ground (arith, keep-Guards now n m, size-keep-le (is_live now) m)

  evict_oldest-Guards :
      (limit n : ℕ) (m : JsMap String ℕ)
      → n < limit
      → Guards k expiry n m
      → Guards k expiry n (evict_oldest limit m)
  unfolding evict_oldest
  evict_oldest-Guards limit n [] h g = absurd g
  evict_oldest-Guards limit n (e ∷ m) h g = ground (arith, evict_oldest-Guards limit n m)

  set_new-Guards :
      (m : JsMap String ℕ) → JsMap.get k m ≡ none → Guards k expiry 0 (JsMap.set k expiry m)
  unfolding JsMap.get JsMap.set
  set_new-Guards [] h = inl (refl, refl, omega arith)
  set_new-Guards (e ∷ m) h = ground (arith, set_new-Guards m)

  remember-Guards :
      (now n : ℕ) (j : String) (ttl_ms : ℕ) (c : ReplayCache)
      → now < expiry
      → suc n < c.max_entries
      → j ≢ k
      → Guards k expiry n c.entries
      → Guards k expiry (suc n) (remember now j ttl_ms c).entries
  unfolding remember evict sweep
  remember-Guards now n j ttl_ms c early room other g =
      let m = JsMap.set j (now + ttl_ms) (JsMap.delete j c.entries) in
      let kept : Guards k expiry (suc n) m =
        set-Guards j (now + ttl_ms) n (JsMap.delete j c.entries) other
          (delete-Guards j n c.entries other g) in
      elim (Bool-cases (ltb c.max_entries (length m))) [
        | inl over ↦ rw over (
            evict_oldest-Guards c.max_entries (suc n) (JsMap.keep (is_live now) m) room
              (keep-Guards now (suc n) m early kept))
        | inr fits ↦ rw fits kept
      ]

  claim-Guards :
      (now n : ℕ) (j : String) (ttl_ms : ℕ) (c : ReplayCache)
      → now < expiry
      → suc n < c.max_entries
      → Guards k expiry n c.entries
      → Guards k expiry (suc n) (claim now j ttl_ms c).0.entries
        × ((claim now j ttl_ms c).0.max_entries ≡ c.max_entries)
  unfolding claim
  claim-Guards now n j ttl_ms c early room g = elim (string_key.dec j k) [
    | yes same ↦ ground (arith, same, get-Guards n c.entries g, Guards-mono n c.entries g)
    | no other ↦ ground (
      arith,
      remember-Guards now n j ttl_ms c early room other g,
      Guards-mono n c.entries g,
      remember_max now j ttl_ms c,
    )
  ]

  -- The call happens before the key expires, and is no `clear`.
  abbrev pub Quiet : List (ℕ × Call) → Type 0
  Quiet [] = Unit
  Quiet ((now, e) ∷ es) = (now < expiry) × (e ≢ clears) × Quiet es

  step-Guards :
      (now n : ℕ) (e : Call) (c : ReplayCache)
      → now < expiry
      → e ≢ clears
      → suc n < c.max_entries
      → Guards k expiry n c.entries
      → Guards k expiry (suc n) (step now e c).entries
        × ((step now e c).max_entries ≡ c.max_entries)
  unfolding step sweep
  step-Guards now n (claims j ttl_ms) c early quiet room g =
      claim-Guards now n j ttl_ms c early room g
  step-Guards now n sweeps c early quiet room g = (
    Guards-mono n (JsMap.keep (is_live now) c.entries) (keep-Guards now n c.entries early g),
    refl,
  )
  step-Guards now n clears c early quiet room g = absurd (quiet refl)

  run-Guards :
      (n : ℕ) (es : List (ℕ × Call)) (c : ReplayCache)
      → Quiet es
      → n + length es < c.max_entries
      → Guards k expiry n c.entries
      → Guards k expiry (n + length es) (run es c).entries
  unfolding run
  run-Guards n [] c q room g = rw add-zero g
  run-Guards n ((now, e) ∷ es) c q room g =
      let next = step-Guards now n e c q.0 q.1 (omega arith) g in
      rw add-suc
        (rw (← suc-add) (run-Guards (suc n) es (step now e c) q.2 (omega (arith, next.1)) next.0))

module _ (now ttl_ms : ℕ) (k : String) (c : ReplayCache) where
  remember_new-Guards :
      0 < ttl_ms → 0 < c.max_entries → Guards k (now + ttl_ms) 0 (remember now k ttl_ms c).entries
  unfolding remember evict sweep
  remember_new-Guards lives room =
      let expiry = now + ttl_ms in
      let rest = JsMap.delete k c.entries in
      let m = JsMap.set k expiry rest in
      let fresh : Guards k expiry 0 m =
        set_new-Guards k expiry rest (ground (arith, get-delete k k c.entries)) in
      elim (Bool-cases (ltb c.max_entries (length m))) [
        | inl over ↦ rw over (
            evict_oldest-Guards k expiry c.max_entries 0 (JsMap.keep (is_live now) m) room
              (keep-Guards k expiry now 0 m (omega arith) fresh))
        | inr fits ↦ rw fits fresh
      ]

  claim_new-Guards :
      (claim now k ttl_ms c).1 ≡ true
      → 0 < ttl_ms
      → 0 < c.max_entries
      → Guards k (now + ttl_ms) 0 (claim now k ttl_ms c).0.entries
        × ((claim now k ttl_ms c).0.max_entries ≡ c.max_entries)
  unfolding claim
  claim_new-Guards accepted lives room =
      ground (arith, remember_new-Guards lives room, remember_max now k ttl_ms c)

claim_cached :
    (now ttl_ms expiry : ℕ) (k : String) (c : ReplayCache)
    → JsMap.get k c.entries ≡ some expiry
    → now < expiry
    → (claim now k ttl_ms c).1 ≡ false
unfolding claim
claim_cached now ttl_ms expiry k c e h = ground arith

-- A signature that was accepted for a positive lifetime is turned away until it expires, if since
-- then fewer calls were made than the cache has places, all before its expiry and none to `clear`.
pub claim-rejects_replay :
    (now ttl_ms later : ℕ) (k : String) (es : List (ℕ × Call)) (c : ReplayCache)
    → (claim now k ttl_ms c).1 ≡ true
    → 0 < ttl_ms
    → Quiet k (now + ttl_ms) es
    → length es < c.max_entries
    → later < now + ttl_ms
    → (claim later k ttl_ms (run es (claim now k ttl_ms c).0)).1 ≡ false
claim-rejects_replay now ttl_ms later k es c accepted lives q room early =
    let expiry = now + ttl_ms in
    let c' = (claim now k ttl_ms c).0 in
    let fresh = claim_new-Guards now ttl_ms k c accepted lives (omega arith) in
    let kept = run-Guards k expiry 0 es c' q (omega (arith, fresh.1)) fresh.0 in
    claim_cached later ttl_ms expiry k (run es c')
      (get-Guards k expiry (0 + length es) (run es c').entries kept) early
