-- ===== src/WebhookVerifier/Request.antt =====
-- The requests that listener/src/services/webhook-verifier.ts checks: their headers and timestamps, the
-- operations from outside, and what a verification answers.
use Prim.Native.Char.{code}
use Prim.Native.String.{◌++◌ as str_append}
use package.text.Mathlib.Text.{◌==◌ as str_eq}
use notify_chain.Prelude.{
  ℕ, suc, ◌+◌, ◌-◌, ◌*◌, ◌/◌, String, Bool, false, ◌&&◌, not, Option, none, some, List, [], ◌∷◌,
  if◌then◌else◌, leb,
}

pub record CryptoOps : Type 0 where
  -- The HMAC-SHA256 of an input under a secret, in hex.
  pub hmac_hex : String → String → String
  pub to_lower_case : String → String
  -- `s.slice(0, 7)` and `s.slice(7)`, where 7 is the length of "sha256=".
  pub slice_to_7 : String → String
  pub slice_from_7 : String → String
  -- `s.length`, and the length of the text in UTF-8.
  pub text_length : String → ℕ
  pub byte_length : String → ℕ

-- What a verification ends with; `threw` is the exception of `timingSafeEqual`.
pub data Reason : Type 0 where
  missing_signature_header missing_key_id unknown_key_id invalid_signature_prefix missing_timestamp
        replay_detected timestamp_expired signature_length_mismatch hmac_mismatch :
      Reason

pub data Verification : Type 0 where
  valid threw : Verification
  invalid : Reason → Verification

pub record WebhookSecret : Type 0 where
  pub id : String
  pub secret : String

abbrev pub is_empty : String → Bool
is_empty s = str_eq s ""

-- An optional text that is present and not empty.
abbrev pub is_given : Option String → Bool
is_given none = false
is_given (some s) = not (is_empty s)

abbrev pub text_of : Option String → String
text_of none = ""
text_of (some s) = s

-- `buildSigningInput`
unfoldable pub build_signing_input : String → Option String → String
build_signing_input payload timestamp =
    if is_given timestamp then str_append (text_of timestamp) (str_append "." payload) else payload

abbrev is_digit : ℕ → Bool
is_digit c = leb 48 c && leb c 57

-- A text of digits is read as a decimal number, on from what was read before.
decimal : String → ℕ → Option ℕ
decimal String.[] n = some n
decimal (String.◌∷◌ c s) n =
    let rest = decimal s (n * 10 + (code c - 48)) in if is_digit (code c) then rest else none

abbrev count_chars : String → ℕ
count_chars String.[] = 0
count_chars (String.◌∷◌ c s) = suc (count_chars s)

-- `TIMESTAMP_PATTERN`, and `Number` of a text that it matches, which 15 digits keep a safe integer.
unfoldable pub parse_timestamp : String → Option ℕ
unfolding decimal
parse_timestamp s = if leb 1 (count_chars s) && leb (count_chars s) 15 then decimal s 0 else none

-- The request is at most `max_age_seconds` old, and not above 60 seconds from the future.
unfoldable pub is_fresh : ℕ → ℕ → Option ℕ → Bool
is_fresh now_seconds max_age_seconds none = false
is_fresh now_seconds max_age_seconds (some t) =
    leb now_seconds (t + max_age_seconds) && leb t (now_seconds + 60)

-- `isTimestampValid` at a time in ms.
unfoldable pub is_timestamp_valid : ℕ → String → ℕ → Bool
unfolding parse_timestamp is_fresh
is_timestamp_valid now header max_age_seconds =
    is_fresh (now / 1000) max_age_seconds (parse_timestamp header)

pub data HeaderValue : Type 0 where
  one : String → HeaderValue
  many : List String → HeaderValue

abbrev pub Headers : Type 0
Headers = String → Option HeaderValue

abbrev first_text : HeaderValue → Option String
first_text (one s) = if is_empty s then none else some s
first_text (many []) = none
first_text (many (s ∷ ss)) = some s

-- `headers[a] ?? headers[b]`, and its first value, as `extractSignature`, `extractKeyId` and
-- `extractTimestamp` take it.
unfoldable pub extract : String → String → Headers → Option String
extract lower upper headers = found (headers lower) (headers upper)
  where
    found : Option HeaderValue → Option HeaderValue → Option String
    found (some v) _ = first_text v
    found none (some v) = first_text v
    found none none = none

unfoldable pub extract_signature : Headers → Option String
unfolding extract
extract_signature headers = extract "x-webhook-signature" "X-Webhook-Signature" headers

unfoldable pub extract_key_id : Headers → Option String
unfolding extract
extract_key_id headers = extract "x-webhook-key-id" "X-Webhook-Key-Id" headers

unfoldable pub extract_timestamp : Headers → Option String
unfolding extract
extract_timestamp headers = extract "x-webhook-timestamp" "X-Webhook-Timestamp" headers

-- `getSecretForKey`
unfoldable pub get_secret_for_key : List WebhookSecret → String → Option String
get_secret_for_key [] key_id = none
get_secret_for_key (s ∷ ss) key_id =
    if str_eq s.id key_id then some s.secret else get_secret_for_key ss key_id

pub record Context : Type 0 where
  pub headers : Headers
  pub raw_body : String
  pub secrets : List WebhookSecret
  pub max_age_seconds : Option ℕ
  pub require_timestamp : Option Bool

pub record Outcome : Type 0 where
  pub authenticated : Bool
  pub status_code : ℕ
  pub error_code : String
  pub key_id : Option String
  pub timestamp_verified : Bool

-- `AUTH_ERRORS`
unfoldable pub auth_error : Reason → ℕ × String
auth_error missing_signature_header = (401, "AUTH_MISSING_SIGNATURE")
auth_error missing_key_id = (401, "AUTH_MISSING_KEY_ID")
auth_error unknown_key_id = (401, "AUTH_UNKNOWN_KEY_ID")
auth_error invalid_signature_prefix = (401, "AUTH_INVALID_SIGNATURE_FORMAT")
auth_error missing_timestamp = (401, "AUTH_MISSING_TIMESTAMP")
auth_error replay_detected = (409, "AUTH_REPLAY_DETECTED")
auth_error timestamp_expired = (401, "AUTH_TIMESTAMP_EXPIRED")
auth_error signature_length_mismatch = (401, "AUTH_INVALID_SIGNATURE")
auth_error hmac_mismatch = (401, "AUTH_INVALID_SIGNATURE")
