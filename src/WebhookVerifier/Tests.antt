-- ===== src/WebhookVerifier/Tests.antt =====
-- Requests to listener/src/services/webhook-verifier.ts, with a stand-in for the HMAC, and its
-- theorems at them.
use Prim.Native.Char.{code}
use Prim.Native.String.{◌++◌ as str_append}
use package.text.Mathlib.Text.{◌==◌ as str_eq}
use notify_chain.Prelude.{
  ℕ, zero, suc, ◌+◌, ◌≡◌, ◌↔◌, refl, String, true, false, Option, none, some, List, [], ◌∷◌, arith,
  if◌then◌else◌, ltb, string_key,
}
use notify_chain.Prelude.JsMap
use notify_chain.ReplayCache.{ReplayCache, claim}
use notify_chain.ReplayCache.Bounds.{Call, run}
use notify_chain.WebhookVerifier.{
  CryptoOps, Context, HeaderValue, one, is_given, text_of, parse_timestamp, build_signing_input,
  get_secret_for_key, verify_webhook_request, extract_signature, extract_key_id, extract_timestamp,
}
use notify_chain.WebhookVerifier.Authentic.{
  is_authenticated, IsAuthentic, verify_webhook_request-IsAuthentic,
}
use notify_chain.WebhookVerifier.Replay.{
  accepted_cache, verify_webhook_request_replayed, verify_webhook_request_again,
}

program : Unit {0}
unfolding verify_webhook_request extract_signature extract_key_id extract_timestamp parse_timestamp
    build_signing_input get_secret_for_key claim run JsMap.get JsMap.set JsMap.delete JsMap.keep
    string_key
program = tt

abbrev taken : ℕ → String → String
taken zero s = ""
taken (suc n) String.[] = ""
taken (suc n) (String.◌∷◌ c s) = String.◌∷◌ c (taken n s)

abbrev dropped : ℕ → String → String
dropped zero s = s
dropped (suc n) String.[] = ""
dropped (suc n) (String.◌∷◌ c s) = dropped n s

abbrev units : String → ℕ
units String.[] = 0
units (String.◌∷◌ c s) = suc (units s)

abbrev bytes : String → ℕ
bytes String.[] = 0
bytes (String.◌∷◌ c s) = (if ltb (code c) 128 then 1 else 2) + bytes s

abbrev stand_in : CryptoOps
stand_in = record {
  hmac_hex = λ secret s. str_append secret s;
  to_lower_case = λ s. s;
  slice_to_7 = taken 7;
  slice_from_7 = dropped 7;
  text_length = units;
  byte_length = bytes;
}

abbrev headers_with : String → String → Option HeaderValue
headers_with signature name =
    if str_eq name "x-webhook-signature"
    then some (one signature)
    else if str_eq name "x-webhook-key-id"
    then some (one "k")
    else if str_eq name "x-webhook-timestamp"
    then some (one "100")
    else none

abbrev request : String → Context
request signature = record {
  headers = headers_with signature;
  raw_body = "b";
  secrets = record { id = "k"; secret = "s" } ∷ [];
  max_age_seconds = none;
  require_timestamp = none;
}

abbrev cache : ReplayCache
cache = record { entries = []; max_entries = 5 }

abbrev good : Context
good = request "sha256=s100.b"

good_accepted : is_authenticated (verify_webhook_request stand_in 101000 good (some cache)) ≡ true
unfolding program
good_accepted = refl

verify_webhook_request-IsAuthentic_example :
    (is_authenticated (verify_webhook_request stand_in 101000 good (some cache)) ≡ true)
    ↔ IsAuthentic stand_in 101000 good
        (extract_signature good.headers)
        (extract_key_id good.headers)
        (extract_timestamp good.headers)
        (some cache)
verify_webhook_request-IsAuthentic_example =
    verify_webhook_request-IsAuthentic stand_in 101000 good (some cache)

good_timed : is_given (extract_timestamp good.headers) ≡ true
unfolding program
good_timed = refl

good_at : parse_timestamp (text_of (extract_timestamp good.headers)) ≡ some 100
unfolding program
good_at = refl

abbrev calls : List (ℕ × Call)
calls = (200000, Call.claims "other" 1000) ∷ []

verify_webhook_request_replayed_example :
    is_authenticated (
      verify_webhook_request stand_in 300000 good
        (some (run calls (accepted_cache stand_in 101000 good cache))))
    ≡ false
verify_webhook_request_replayed_example =
    verify_webhook_request_replayed stand_in 101000 300000 100 good cache good_accepted good_timed
      good_at calls (omega arith) (omega arith, (λ e. cc), tt) (omega arith)

early_accepted : is_authenticated (verify_webhook_request stand_in 90000 good (some cache)) ≡ true
unfolding program
early_accepted = refl

verify_webhook_request_again_example :
    is_authenticated (
      verify_webhook_request stand_in 395000 good (some (accepted_cache stand_in 90000 good cache)))
    ≡ true
verify_webhook_request_again_example =
    verify_webhook_request_again stand_in 90000 395000 100 good cache early_accepted good_timed
      good_at (omega arith) (omega arith)

-- As many UTF-16 units as the digest, but one byte more: the comparison of the digests throws.
abbrev odd : Context
odd = request "sha256=é100.b"

odd_throws : verify_webhook_request stand_in 101000 odd (some cache) ≡ none
unfolding program
odd_throws = refl
