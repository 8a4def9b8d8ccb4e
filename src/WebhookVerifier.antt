-- ===== src/WebhookVerifier.antt =====
-- The verification of signed webhook requests, of listener/src/services/webhook-verifier.ts, around
-- the cache of ReplayCache. The HMAC and the operations on texts are those of node:crypto and the
-- JavaScript engine. The audit trail and the log, which never change the decision, are left out, and
-- so are the messages that go with the error codes. One clock reading serves a request.
mod Request
pub mod Authentic
pub mod Replay
mod Tests
unfoldable pub use Request.*
use package.text.Mathlib.Text.{◌==◌ as str_eq}
use notify_chain.Prelude.{
  ℕ, ◌*◌, String, Bool, true, false, ◌&&◌, ◌||◌, not, Option, none, some, if◌then◌else◌, ltb,
}
use notify_chain.ReplayCache.{ReplayCache, claim, build_replay_cache_key}

-- The outcome for a reason, with the key id if it is known.
unfoldable pub reject : Reason → Option String → Bool → Outcome
unfolding auth_error
reject reason key_id timestamp_verified = record {
  authenticated = false;
  status_code = (auth_error reason).0;
  error_code = (auth_error reason).1;
  key_id = key_id;
  timestamp_verified = timestamp_verified;
}

abbrev pub number_or : Option ℕ → ℕ → ℕ
number_or none d = d
number_or (some n) d = n

abbrev pub flag_or : Option Bool → Bool → Bool
flag_or none d = d
flag_or (some b) d = b

unfoldable pub accept : String → Option String → Outcome
accept key_id timestamp = record {
  authenticated = true;
  status_code = 0;
  error_code = "";
  key_id = some key_id;
  timestamp_verified = is_given timestamp;
}

module _ (ops : CryptoOps) where
  -- `timingSafeEqual`, which throws for buffers of different lengths, and what follows it.
  unfoldable pub compare_digests : String → String → Bool → Verification
  compare_digests expected provided timestamp_missing =
      if ltb (ops.byte_length expected) (ops.byte_length provided)
        || ltb (ops.byte_length provided) (ops.byte_length expected)
      then threw
      else if not (str_eq expected provided)
      then invalid hmac_mismatch
      else if timestamp_missing
      then invalid missing_timestamp
      else valid

  -- `verifySignature`, given a signature header that is not empty, with both options.
  unfoldable pub verify_signature :
      ℕ → String → String → String → Option String → ℕ → Bool → Verification
  unfolding is_timestamp_valid build_signing_input compare_digests
  verify_signature now payload signature secret timestamp max_age_seconds require_timestamp =
      let expected = ops.hmac_hex secret (build_signing_input payload timestamp) in
      let provided = ops.to_lower_case (ops.slice_from_7 signature) in
      if not (str_eq (ops.to_lower_case (ops.slice_to_7 signature)) "sha256=")
      then invalid invalid_signature_prefix
      else if is_given timestamp && not (is_timestamp_valid now (text_of timestamp) max_age_seconds)
      then invalid timestamp_expired
      else if ltb (ops.text_length expected) (ops.text_length provided)
          || ltb (ops.text_length provided) (ops.text_length expected)
      then invalid signature_length_mismatch
      else compare_digests expected provided (not (is_given timestamp) && require_timestamp)

  -- The last part of `verifyWebhookRequest`: the claim in the replay cache, if there is one.
  unfoldable pub claim_request :
      ℕ → String → String → Option String → ℕ → Option ReplayCache → Option ReplayCache × Outcome
  unfolding build_replay_cache_key accept reject
  claim_request now key_id signature timestamp max_age_seconds none =
      (none, accept key_id timestamp)
  claim_request now key_id signature timestamp max_age_seconds (some cache) =
      let key = build_replay_cache_key ops.to_lower_case key_id signature in
      let (cache', first_sighting) = claim now key (max_age_seconds * 1000) cache in
      (
        some cache',
        if first_sighting
            then accept key_id timestamp
            else reject replay_detected (some key_id) true,
      )

  -- `verifyWebhookRequest` after the signature was verified; `none` is an exception.
  unfoldable pub conclude :
      ℕ
      → String
      → String
      → Option String
      → ℕ
      → Verification
      → Option ReplayCache
      → Option (Option ReplayCache × Outcome)
  unfolding claim_request reject
  conclude now key_id signature timestamp max_age_seconds valid cache =
      some (claim_request now key_id signature timestamp max_age_seconds cache)
  conclude now key_id signature timestamp max_age_seconds threw cache = none
  conclude now key_id signature timestamp max_age_seconds (invalid reason) cache =
      some (cache, reject reason (some key_id) false)

  -- `verifyWebhookRequest` with the three headers.
  unfoldable pub verify_request :
      ℕ
      → Context
      → Option String
      → Option String
      → Option String
      → Option ReplayCache
      → Option (Option ReplayCache × Outcome)
  unfolding get_secret_for_key verify_signature conclude reject
  verify_request now ctx signature key_id timestamp cache =
      let max_age_seconds = number_or ctx.max_age_seconds 300 in
      let secret = get_secret_for_key ctx.secrets (text_of key_id) in
      let verification =
        verify_signature now ctx.raw_body (text_of signature) (text_of secret) timestamp
          max_age_seconds (flag_or ctx.require_timestamp true) in
      if not (is_given signature)
      then some (cache, reject missing_signature_header none false)
      else if not (is_given key_id)
      then some (cache, reject missing_key_id none false)
      else if not (is_given secret)
      then some (cache, reject unknown_key_id key_id false)
      else conclude now (text_of key_id) (text_of signature) timestamp max_age_seconds verification
          cache

  -- `verifyWebhookRequest`
  unfoldable pub verify_webhook_request :
      ℕ → Context → Option ReplayCache → Option (Option ReplayCache × Outcome)
  unfolding extract_signature extract_key_id extract_timestamp verify_request
  verify_webhook_request now ctx cache =
      verify_request now ctx (extract_signature ctx.headers) (extract_key_id ctx.headers)
        (extract_timestamp ctx.headers) cache
