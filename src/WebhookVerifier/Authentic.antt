-- ===== src/WebhookVerifier/Authentic.antt =====
-- Which requests listener/src/services/webhook-verifier.ts authenticates.
use package.text.Mathlib.TextEquality.{eq_iff}
use notify_chain.Prelude.{
  ℕ, ◌+◌, ◌*◌, ◌/◌, ◌≤◌, ◌≡◌, refl, sym, ap, ◌∙◌, ◌↔◌, ◌⊎◌, inl, inr, String, Bool, true, false,
  Option, none, some, arith, Option-cases, Bool-cases,
}
use notify_chain.ReplayCache.{ReplayCache, claim, build_replay_cache_key}
use notify_chain.WebhookVerifier.{
  CryptoOps, Context, Outcome, Verification, valid, threw, invalid, is_given, text_of, number_or,
  flag_or, build_signing_input, parse_timestamp, is_fresh, is_timestamp_valid, get_secret_for_key,
  compare_digests, verify_signature, claim_request, conclude, accept, reject, verify_request,
  verify_webhook_request, extract_signature, extract_key_id, extract_timestamp,
}

-- Did the verification return, with the request authenticated?
abbrev pub is_authenticated : Option (Option ReplayCache × Outcome) → Bool
is_authenticated none = false
is_authenticated (some (cache, outcome)) = outcome.authenticated

-- A timestamp of the request, if it has one, lies in the window; and it has one if that is required.
abbrev pub IsTimely : ℕ → ℕ → Bool → Option String → Type 0
IsTimely now max_age_seconds require_timestamp timestamp =
    ((is_given timestamp ≡ false) × (require_timestamp ≡ false))
    ⊎ ((t : ℕ) × (is_given timestamp ≡ true)
        × (parse_timestamp (text_of timestamp) ≡ some t)
        × (now / 1000 ≤ t + max_age_seconds)
        × (t ≤ now / 1000 + 60))

is_timestamp_valid_inv :
    (now : ℕ) (header : String) (max_age_seconds : ℕ)
    → is_timestamp_valid now header max_age_seconds ≡ true
    → (t : ℕ) × (parse_timestamp header ≡ some t)
      × (now / 1000 ≤ t + max_age_seconds)
      × (t ≤ now / 1000 + 60)
unfolding is_timestamp_valid is_fresh
is_timestamp_valid_inv now header age h = elim (Option-cases (parse_timestamp header)) [
  | inl absent ↦ absurd (ground arith)
  | inr (t, at) ↦ (t, at, ground arith, ground arith)
]

is_timestamp_valid_at :
    (now : ℕ) (header : String) (max_age_seconds t : ℕ)
    → parse_timestamp header ≡ some t
    → now / 1000 ≤ t + max_age_seconds
    → t ≤ now / 1000 + 60
    → is_timestamp_valid now header max_age_seconds ≡ true
unfolding is_timestamp_valid is_fresh
is_timestamp_valid_at now header age t at old early = ground arith

-- The oldest a timestamp may be, in seconds.
abbrev pub max_age_of : Context → ℕ
max_age_of ctx = number_or ctx.max_age_seconds 300

module _ (ops : CryptoOps) where
  -- The signature is the HMAC of the body bound to the timestamp, in hex after the prefix.
  pub record IsSigned (payload signature secret : String) (timestamp : Option String) : Type 0 where
    pub prefixed : ops.to_lower_case (ops.slice_to_7 signature) ≡ "sha256="
    pub signed :
        ops.hmac_hex secret (build_signing_input payload timestamp)
        ≡ ops.to_lower_case (ops.slice_from_7 signature)

  module _ (now : ℕ) (payload signature secret : String) (timestamp : Option String) (age : ℕ)
      (require_timestamp : Bool) where
    verify_signature_sound :
        verify_signature ops now payload signature secret timestamp age require_timestamp ≡ valid
        → IsSigned payload signature secret timestamp × IsTimely now age require_timestamp timestamp
    unfolding verify_signature compare_digests
    verify_signature_sound h =
        let expected = ops.hmac_hex secret (build_signing_input payload timestamp) in
        let provided = ops.to_lower_case (ops.slice_from_7 signature) in
        let prefix = ops.to_lower_case (ops.slice_to_7 signature) in
        (
          record {
            prefixed = (eq_iff prefix "sha256=").0 (ground arith);
            signed = (eq_iff expected provided).0 (ground arith);
          },
          elim (Bool-cases (is_given timestamp)) [
            | inl given ↦
                let (t, at, old, early) =
                  is_timestamp_valid_inv now (text_of timestamp) age (ground arith) in
                inr (t, given, at, old, early)
            | inr absent ↦ inl (absent, ground arith)
          ],
        )

    verify_signature_complete :
        IsSigned payload signature secret timestamp
        → IsTimely now age require_timestamp timestamp
        → verify_signature ops now payload signature secret timestamp age require_timestamp ≡ valid
    unfolding verify_signature compare_digests
    verify_signature_complete s (inl (absent, lax)) =
        let expected = ops.hmac_hex secret (build_signing_input payload timestamp) in
        let provided = ops.to_lower_case (ops.slice_from_7 signature) in
        let prefix = ops.to_lower_case (ops.slice_to_7 signature) in
        ground (
          arith,
          (eq_iff prefix "sha256=").1 s.prefixed,
          (eq_iff expected provided).1 s.signed,
          ap ops.text_length s.signed,
          ap ops.byte_length s.signed,
        )
    verify_signature_complete s (inr (t, given, at, old, early)) =
        let expected = ops.hmac_hex secret (build_signing_input payload timestamp) in
        let provided = ops.to_lower_case (ops.slice_from_7 signature) in
        let prefix = ops.to_lower_case (ops.slice_to_7 signature) in
        ground (
          arith,
          (eq_iff prefix "sha256=").1 s.prefixed,
          (eq_iff expected provided).1 s.signed,
          ap ops.text_length s.signed,
          ap ops.byte_length s.signed,
          is_timestamp_valid_at now (text_of timestamp) age t at old early,
        )

  -- Does the cache, if there is one, accept the signature of the key?
  abbrev pub is_first_sighting : ℕ → String → String → ℕ → Option ReplayCache → Bool
  is_first_sighting now key_id signature age none = true
  is_first_sighting now key_id signature age (some cache) =
      (claim now (build_replay_cache_key ops.to_lower_case key_id signature) (age * 1000) cache).1

  claim_request-authenticated :
      (now : ℕ) (key_id signature : String) (timestamp : Option String) (age : ℕ)
      (cache : Option ReplayCache)
      → (claim_request ops now key_id signature timestamp age cache).1.authenticated
        ≡ is_first_sighting now key_id signature age cache
  unfolding claim_request accept reject
  claim_request-authenticated now key_id signature timestamp age none = refl
  claim_request-authenticated now key_id signature timestamp age (some cache) = ground arith

  conclude-authenticated :
      (now : ℕ) (key_id signature : String) (timestamp : Option String) (age : ℕ)
      (verification : Verification) (cache : Option ReplayCache)
      → (is_authenticated (conclude ops now key_id signature timestamp age verification cache)
          ≡ true)
        ↔ ((verification ≡ valid) × (is_first_sighting now key_id signature age cache ≡ true))
  unfolding conclude reject
  conclude-authenticated now key_id signature timestamp age valid cache =
      let same = claim_request-authenticated now key_id signature timestamp age cache in
      ((λ h. (refl, sym same ∙ h)), (λ h. same ∙ h.1))
  conclude-authenticated now key_id signature timestamp age threw cache = ground arith
  conclude-authenticated now key_id signature timestamp age (invalid reason) cache = ground arith

  -- The request carries a key id of a known secret and a signature under that secret of its body
  -- and its timestamp, which is timely, and the cache accepts the signature.
  pub record IsAuthentic (now : ℕ) (ctx : Context)
      (signature_header key_header timestamp : Option String) (cache : Option ReplayCache)
      : Type 0 where
    pub signature_given : is_given signature_header ≡ true
    pub key_given : is_given key_header ≡ true
    pub secret : String
    pub known : get_secret_for_key ctx.secrets (text_of key_header) ≡ some secret
    pub secret_given : is_given (some secret) ≡ true
    pub is_signed : IsSigned ctx.raw_body (text_of signature_header) secret timestamp
    pub is_timely : IsTimely now (max_age_of ctx) (flag_or ctx.require_timestamp true) timestamp
    pub is_first :
        is_first_sighting now (text_of key_header) (text_of signature_header) (max_age_of ctx) cache
        ≡ true

  module _ (now : ℕ) (ctx : Context) (signature key_id timestamp : Option String)
      (cache : Option ReplayCache) where
    verify_request_sound :
        is_authenticated (verify_request ops now ctx signature key_id timestamp cache) ≡ true
        → IsAuthentic now ctx signature key_id timestamp cache
    unfolding verify_request reject
    verify_request_sound h =
        let age = max_age_of ctx in
        let lax = flag_or ctx.require_timestamp true in
        elim (Option-cases (get_secret_for_key ctx.secrets (text_of key_id))) [
          | inl unknown ↦ absurd (ground arith)
          | inr (secret, known) ↦
              let verification =
                verify_signature ops now ctx.raw_body (text_of signature) secret timestamp age
                  lax in
              let ends =
                (conclude-authenticated now (text_of key_id) (text_of signature) timestamp age
                    verification cache).0
                  (ground arith) in
              let sound =
                verify_signature_sound now ctx.raw_body (text_of signature) secret timestamp age lax
                  ends.0 in
              record {
                signature_given = ground arith;
                key_given = ground arith;
                secret = secret;
                known = known;
                secret_given = ground arith;
                is_signed = sound.0;
                is_timely = sound.1;
                is_first = ends.1;
              }
        ]

    verify_request_complete :
        IsAuthentic now ctx signature key_id timestamp cache
        → is_authenticated (verify_request ops now ctx signature key_id timestamp cache) ≡ true
    unfolding verify_request
    verify_request_complete a =
        let age = max_age_of ctx in
        let lax = flag_or ctx.require_timestamp true in
        let verification =
          verify_signature ops now ctx.raw_body (text_of signature) a.secret timestamp age lax in
        let accepted =
          verify_signature_complete now ctx.raw_body (text_of signature) a.secret timestamp age lax
            a.is_signed a.is_timely in
        let ends =
          (conclude-authenticated now (text_of key_id) (text_of signature) timestamp age
              verification cache).1
            (accepted, a.is_first) in
        rw a.known (ground (arith, a.signature_given, a.key_given, a.secret_given, ends))

  -- A request is authenticated exactly if its headers name a key id with a known secret and a
  -- signature under that secret of the body bound to the timestamp, the timestamp is in the window (or
  -- absent where none is required), and the replay cache, if there is one, takes the signature as new.
  pub verify_webhook_request-IsAuthentic :
      (now : ℕ) (ctx : Context) (cache : Option ReplayCache)
      → (is_authenticated (verify_webhook_request ops now ctx cache) ≡ true)
        ↔ IsAuthentic now ctx
            (extract_signature ctx.headers)
            (extract_key_id ctx.headers)
            (extract_timestamp ctx.headers)
            cache
  unfolding verify_webhook_request
  verify_webhook_request-IsAuthentic now ctx cache =
      let signature = extract_signature ctx.headers in
      let key_id = extract_key_id ctx.headers in
      let timestamp = extract_timestamp ctx.headers in
      (
        verify_request_sound now ctx signature key_id timestamp cache,
        verify_request_complete now ctx signature key_id timestamp cache,
      )
