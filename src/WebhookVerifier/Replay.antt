-- ===== src/WebhookVerifier/Replay.antt =====
-- A signed request that comes to listener/src/services/webhook-verifier.ts a second time, while the
-- cache of listener/src/services/webhook-replay-cache.ts knows its signature and after that.
use notify_chain.Prelude.{
  ℕ, ◌+◌, ◌*◌, ◌/◌, ◌≤◌, ◌<◌, ◌≡◌, refl, inl, inr, String, true, false, Option, none, some, List,
  [], ◌∷◌, arith, ltb, length, Bool-cases, Option-cases, string_key,
}
use notify_chain.Prelude.JsMap
use notify_chain.Prelude.JsMap.{JsMap}
use notify_chain.ReplayCache.{
  ReplayCache, is_live, sweep, evict_oldest, evict, remember, claim, build_replay_cache_key,
}
use notify_chain.ReplayCache.Bounds.{Call, run}
use notify_chain.ReplayCache.Protection.{Quiet, claim-rejects_replay}
use notify_chain.WebhookVerifier.{
  CryptoOps, Context, Outcome, Verification, valid, threw, invalid, is_given, text_of, flag_or,
  parse_timestamp, get_secret_for_key, verify_signature, claim_request, conclude, reject,
  verify_request, verify_webhook_request, extract_signature, extract_key_id, extract_timestamp,
}
use notify_chain.WebhookVerifier.Authentic.{
  is_authenticated, IsAuthentic, max_age_of, verify_webhook_request-IsAuthentic,
}

-- Every entry of the key expires by that time.
abbrev Lapses : String → ℕ → JsMap String ℕ → Type 0
Lapses k later [] = Unit
Lapses k later ((j, v) ∷ m) = (j ≡ k → v ≤ later) × Lapses k later m

module _ (k : String) (later : ℕ) where
  delete-Lapses : (m : JsMap String ℕ) → Lapses k later (JsMap.delete k m)
  unfolding JsMap.delete
  delete-Lapses [] = tt
  delete-Lapses ((j, v) ∷ m) = elim (string_key.dec j k) [
    | yes same ↦ ground (arith, same, delete-Lapses m)
    | no other ↦ ground (arith, other, delete-Lapses m)
  ]

  set-Lapses :
      (v : ℕ) (m : JsMap String ℕ) → v ≤ later → Lapses k later m → Lapses k later (JsMap.set k v m)
  unfolding JsMap.set
  set-Lapses v [] early l = ((λ same. early), tt)
  set-Lapses v ((j, w) ∷ m) early l = elim (string_key.dec j k) [
    | yes same ↦ ground (arith, same, l.1)
    | no other ↦ ground (arith, other, l.0, set-Lapses v m early l.1)
  ]

  keep-Lapses :
      (now : ℕ) (m : JsMap String ℕ)
      → Lapses k later m
      → Lapses k later (JsMap.keep (is_live now) m)
  unfolding JsMap.keep
  keep-Lapses now [] l = tt
  keep-Lapses now ((j, v) ∷ m) l = ground (arith, l.0, keep-Lapses now m l.1)

  evict_oldest-Lapses :
      (n : ℕ) (m : JsMap String ℕ) → Lapses k later m → Lapses k later (evict_oldest n m)
  unfolding evict_oldest
  evict_oldest-Lapses n [] l = tt
  evict_oldest-Lapses n (e ∷ m) l = ground (arith, l, evict_oldest-Lapses n m l.1)

  remember-Lapses :
      (now ttl_ms : ℕ) (c : ReplayCache)
      → now + ttl_ms ≤ later
      → Lapses k later (remember now k ttl_ms c).entries
  unfolding remember evict sweep
  remember-Lapses now ttl_ms c early =
      let rest = JsMap.delete k c.entries in
      let m = JsMap.set k (now + ttl_ms) rest in
      let set : Lapses k later m = set-Lapses (now + ttl_ms) rest early (delete-Lapses c.entries) in
      elim (Bool-cases (ltb c.max_entries (length m))) [
        | inl over ↦
            rw over (
              evict_oldest-Lapses c.max_entries (JsMap.keep (is_live now) m)
                (keep-Lapses now m set))
        | inr fits ↦ rw fits set
      ]

  get-Lapses : (m : JsMap String ℕ) (v : ℕ) → Lapses k later m → JsMap.get k m ≡ some v → v ≤ later
  unfolding JsMap.get
  get-Lapses [] v l h = absurd (ground arith)
  get-Lapses ((j, w) ∷ m) v l h = elim (string_key.dec j k) [
    | yes same ↦ ground (arith, same, l.0 same)
    | no other ↦ ground (arith, other, get-Lapses m v l.1)
  ]

-- A signature that was taken as new is taken as new again once its lifetime is over.
claim_again :
    (now ttl_ms later : ℕ) (k : String) (c : ReplayCache)
    → (claim now k ttl_ms c).1 ≡ true
    → now + ttl_ms ≤ later
    → (claim later k ttl_ms (claim now k ttl_ms c).0).1 ≡ true
unfolding claim
claim_again now ttl_ms later k c taken over =
    let c' = remember now k ttl_ms c in
    let lapses = remember-Lapses k later now ttl_ms c over in
    elim (Option-cases (JsMap.get k c'.entries)) [
      | inl absent ↦ ground (arith, absent)
      | inr (v, at) ↦ ground (arith, at, get-Lapses k later c'.entries v lapses at)
    ]

-- The lifetime of a signature in the cache.
abbrev pub ttl_of : Context → ℕ
ttl_of ctx = max_age_of ctx * 1000

module _ (ops : CryptoOps) where
  -- The cache that a verification leaves.
  abbrev pub cache_of : ReplayCache → Option (Option ReplayCache × Outcome) → ReplayCache
  cache_of c none = c
  cache_of c (some (none, outcome)) = c
  cache_of c (some (some c', outcome)) = c'

  abbrev pub cache_key : Context → String
  cache_key ctx =
      build_replay_cache_key ops.to_lower_case (text_of (extract_key_id ctx.headers))
        (text_of (extract_signature ctx.headers))

  conclude-cache :
      (now : ℕ) (key_id signature : String) (timestamp : Option String) (age : ℕ)
      (verification : Verification) (c : ReplayCache)
      → is_authenticated (conclude ops now key_id signature timestamp age verification (some c))
        ≡ true
      → cache_of c (conclude ops now key_id signature timestamp age verification (some c))
        ≡ (claim now (build_replay_cache_key ops.to_lower_case key_id signature) (age * 1000) c).0
  unfolding conclude claim_request reject
  conclude-cache now key_id signature timestamp age valid c h = refl
  conclude-cache now key_id signature timestamp age threw c h = absurd (ground arith)
  conclude-cache now key_id signature timestamp age (invalid reason) c h = absurd (ground arith)

  verify_request-cache :
      (now : ℕ) (ctx : Context) (signature key_id timestamp : Option String) (c : ReplayCache)
      → is_authenticated (verify_request ops now ctx signature key_id timestamp (some c)) ≡ true
      → cache_of c (verify_request ops now ctx signature key_id timestamp (some c))
        ≡ (claim now
            (build_replay_cache_key ops.to_lower_case (text_of key_id) (text_of signature))
            (ttl_of ctx)
            c).0
  unfolding verify_request reject
  verify_request-cache now ctx signature key_id timestamp c h =
      let age = max_age_of ctx in
      let verification =
        verify_signature ops now ctx.raw_body (text_of signature)
          (text_of (get_secret_for_key ctx.secrets (text_of key_id))) timestamp age
          (flag_or ctx.require_timestamp true) in
      ground (
        arith,
        conclude-cache now (text_of key_id) (text_of signature) timestamp age verification c,
      )

  module _ (now : ℕ) (ctx : Context) (c : ReplayCache) where
    abbrev pub accepted_cache : ReplayCache
    accepted_cache = cache_of c (verify_webhook_request ops now ctx (some c))

    accepted_cache-claim :
        is_authenticated (verify_webhook_request ops now ctx (some c)) ≡ true
        → accepted_cache ≡ (claim now (cache_key ctx) (ttl_of ctx) c).0
    unfolding verify_webhook_request
    accepted_cache-claim h =
        verify_request-cache now ctx (extract_signature ctx.headers) (extract_key_id ctx.headers)
          (extract_timestamp ctx.headers) c h

  module _ (now later t : ℕ) (ctx : Context) (c : ReplayCache)
      (accepted : is_authenticated (verify_webhook_request ops now ctx (some c)) ≡ true)
      (timed : is_given (extract_timestamp ctx.headers) ≡ true)
      (at : parse_timestamp (text_of (extract_timestamp ctx.headers)) ≡ some t) where
    authentic :
        IsAuthentic ops now ctx
          (extract_signature ctx.headers)
          (extract_key_id ctx.headers)
          (extract_timestamp ctx.headers)
          (some c)
    authentic = (verify_webhook_request-IsAuthentic ops now ctx (some c)).0 accepted

    timely : (now / 1000 ≤ t + max_age_of ctx) × (t ≤ now / 1000 + 60)
    timely = ground (arith, authentic.is_timely)

    -- A request that was authenticated after the second of its timestamp is not authenticated again,
    -- neither while the cache keeps its signature nor later, if in between fewer calls reached the
    -- cache than it has places, all before the signature expires and none to `clear`.
    pub verify_webhook_request_replayed :
        (es : List (ℕ × Call))
        → t * 1000 + 1000 ≤ now
        → Quiet (cache_key ctx) (now + ttl_of ctx) es
        → length es < c.max_entries
        → is_authenticated
            (verify_webhook_request ops later ctx (some (run es (accepted_cache now ctx c))))
          ≡ false
    verify_webhook_request_replayed es past q room =
        let c' = run es (accepted_cache now ctx c) in
        let result = verify_webhook_request ops later ctx (some c') in
        elim (Bool-cases (is_authenticated result)) [
          | inl again ↦
              let a = (verify_webhook_request-IsAuthentic ops later ctx (some c')).0 again in
              elim (Bool-cases (ltb later (now + ttl_of ctx))) [
                | inl early ↦
                    let rejected =
                      claim-rejects_replay now (ttl_of ctx) later (cache_key ctx) es c
                        authentic.is_first (omega (arith, timely)) q room (ground arith) in
                    let first = a.is_first in
                    absurd
                      (ground (arith, rejected, first, accepted_cache-claim now ctx c accepted))
                | inr late ↦ absurd (ground (arith, a.is_timely))
              ]
          | inr rejected ↦ rejected
        ]

    -- A request whose timestamp is not yet older than the maximum age when its signature expires in
    -- the cache (a timestamp in the second of the first request or from the future) is authenticated a
    -- second time between these two moments.
    pub verify_webhook_request_again :
        now + ttl_of ctx ≤ later
        → later / 1000 ≤ t + max_age_of ctx
        → is_authenticated (verify_webhook_request ops later ctx (some (accepted_cache now ctx c)))
          ≡ true
    verify_webhook_request_again over young =
        let a = authentic in
        let first = claim_again now (ttl_of ctx) later (cache_key ctx) c a.is_first over in
        (verify_webhook_request-IsAuthentic ops later ctx (some (accepted_cache now ctx c))).1
          (record {
            signature_given = a.signature_given;
            key_given = a.key_given;
            secret = a.secret;
            known = a.known;
            secret_given = a.secret_given;
            is_signed = a.is_signed;
            is_timely = inr (t, timed, at, young, ground (arith, timely));
            is_first = rw (accepted_cache-claim now ctx c accepted) first;
          })
