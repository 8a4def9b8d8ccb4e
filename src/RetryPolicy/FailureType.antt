-- ===== src/RetryPolicy/FailureType.antt =====
-- The failure types of listener/src/services/retry-policy.ts, their names, and the classification
-- of HTTP statuses and of thrown values. An HTTP status is a whole number or absent. Of a thrown
-- object the model keeps the properties that the classification reads, each absent when it is
-- missing or no string.
use notify_chain.Prelude.{
  ℕ, String, Bool, false, ◌||◌, Option, none, some, List, [], ◌∷◌, if◌then◌else◌, leb, ◌==◌, Key,
  is_some,
}
use package.text.Mathlib.Text.{◌==◌ as str_eq, find?}

pub data RetryFailureType : Type 0 where
  network_error timeout rate_limited server_error client_error : RetryFailureType
  not_found auth_error configuration_error unknown : RetryFailureType

pub RetryFailureType-discrete : Discrete RetryFailureType
RetryFailureType-discrete = hlevel

instance unfoldable pub failure_type_key : Key RetryFailureType
failure_type_key = record { dec = RetryFailureType-discrete }

-- The string that the enumeration gives to each failure type.
pub enum_value : RetryFailureType → String
enum_value network_error = "network_error"
enum_value timeout = "timeout"
enum_value rate_limited = "rate_limited"
enum_value server_error = "server_error"
enum_value client_error = "client_error"
enum_value not_found = "not_found"
enum_value auth_error = "auth_error"
enum_value configuration_error = "configuration_error"
enum_value unknown = "unknown"

-- `RETRY_FAILURE_TYPES`
pub retry_failure_types : List RetryFailureType
retry_failure_types =
    network_error ∷ timeout ∷ rate_limited ∷ server_error ∷ client_error ∷ not_found ∷ auth_error
    ∷ configuration_error ∷ unknown ∷ []

-- `DEFAULT_RETRYABLE_FAILURE_TYPES`
unfoldable pub default_retryable_failure_types : List RetryFailureType
default_retryable_failure_types =
    network_error ∷ timeout ∷ rate_limited ∷ server_error ∷ unknown ∷ []

find_value : String → List RetryFailureType → Option RetryFailureType
unfolding enum_value
find_value s [] = none
find_value s (t ∷ ts) = if str_eq s (enum_value t) then some t else find_value s ts

-- `isRetryFailureType`: the failure type that a string names, if any.
pub parse_failure_type : String → Option RetryFailureType
unfolding find_value retry_failure_types
parse_failure_type s = find_value s retry_failure_types

-- `classifyHttpStatus`
unfoldable pub classify_http_status : Option ℕ → RetryFailureType
classify_http_status none = unknown
classify_http_status (some status) =
    if status == 429
    then rate_limited
    else if status == 408
    then timeout
    else if status == 401 || status == 403
    then auth_error
    else if status == 404 || status == 410
    then not_found
    else if leb 500 status
    then server_error
    else if leb 400 status
    then client_error
    else unknown

-- Case conversion is the JavaScript engine's.
pub record TextCase : Type 0 where
  pub to_lower_case : String → String
  pub to_upper_case : String → String

-- A thrown object other than a `DeliveryError`.
pub record ErrorObject : Type 0 where
  pub failure_type : Option String
  pub name : Option String
  pub code : Option String
  pub is_error : Bool
  pub message : String

-- What a `catch` clause receives; `other` is a primitive that is no string, null or undefined.
pub data Thrown : Type 0 where
  delivery_error : RetryFailureType → Thrown
  object : ErrorObject → Thrown
  text : String → Thrown
  other : Thrown

includes : String → String → Bool
includes s t = is_some (find? s t)

any_of : (String → Bool) → List String → Bool
any_of p [] = false
any_of p (s ∷ ss) = p s || any_of p ss

-- `TRANSIENT_ERROR_CODES`
transient_error_codes : List String
transient_error_codes =
    "ECONNRESET" ∷ "ECONNREFUSED" ∷ "ECONNABORTED" ∷ "EPIPE" ∷ "ETIMEDOUT" ∷ "ESOCKETTIMEDOUT"
    ∷ "EAI_AGAIN" ∷ "ENETUNREACH" ∷ "EHOSTUNREACH" ∷ "EHOSTDOWN" ∷ "ENOTFOUND"
    ∷ "UND_ERR_CONNECT_TIMEOUT" ∷ "UND_ERR_SOCKET" ∷ "UND_ERR_HEADERS_TIMEOUT" ∷ []

module _ (c : TextCase) where
  classify_by_message : String → RetryFailureType
  unfolding any_of includes
  classify_by_message message =
      let normalized = c.to_lower_case message in
      if any_of (includes normalized) ("timeout" ∷ "timed out" ∷ "aborted" ∷ "etimedout" ∷ [])
      then timeout
      else if any_of (includes normalized)
          ("econnreset" ∷ "econnrefused" ∷ "socket hang up" ∷ "network error" ∷ [])
      then network_error
      else if includes normalized "missing targetrecipient"
      then configuration_error
      else if any_of (includes normalized) ("not configured" ∷ "unsupported notification type" ∷ [])
      then configuration_error
      else unknown

  -- The part of `classifyError` after the properties of an object have been looked at.
  classify_by_text : ErrorObject → RetryFailureType
  unfolding classify_by_message
  classify_by_text e = if e.is_error then classify_by_message e.message else unknown

  classify_by_code : ErrorObject → Option String → RetryFailureType
  unfolding classify_by_text any_of transient_error_codes
  classify_by_code e none = classify_by_text e
  classify_by_code e (some code) =
      if any_of (str_eq (c.to_upper_case code)) transient_error_codes
      then network_error
      else classify_by_text e

  classify_by_name : ErrorObject → Option String → RetryFailureType
  unfolding classify_by_code
  classify_by_name e none = classify_by_code e e.code
  classify_by_name e (some name) =
      if str_eq name "AbortError" || str_eq name "TimeoutError"
      then timeout
      else classify_by_code e e.code

  classify_by_type : ErrorObject → Option RetryFailureType → RetryFailureType
  unfolding classify_by_name
  classify_by_type e (some t) = t
  classify_by_type e none = classify_by_name e e.name

  parse_optional : Option String → Option RetryFailureType
  unfolding parse_failure_type
  parse_optional none = none
  parse_optional (some s) = parse_failure_type s

  -- `classifyError`
  unfoldable pub classify_error : Thrown → RetryFailureType
  unfolding classify_by_type parse_optional classify_by_message
  classify_error (delivery_error t) = t
  classify_error (object e) = classify_by_type e (parse_optional e.failure_type)
  classify_error (text s) = classify_by_message s
  classify_error other = unknown

  -- `classifyDeliveryFailure`
  unfoldable pub classify_delivery_failure : Option ℕ → Option Thrown → RetryFailureType
  unfolding classify_http_status classify_error
  classify_delivery_failure (some status) error = classify_http_status (some status)
  classify_delivery_failure none (some error) = classify_error error
  classify_delivery_failure none none = unknown
