-- ===== src/RpcFailure.antt =====
-- `isRpcFailureCondition` of listener/src/services/stellar-rpc-manager.ts: which errors tell that an
-- RPC endpoint does not serve. The text that names the reason is left out.
mod Tests
use package.text.Mathlib.Text.{◌==◌ as str_eq, starts_with}
use notify_chain.Prelude.{
  ℕ, String, Bool, true, false, ◌||◌, ◌&&◌, Option, none, some, List, [], ◌∷◌, ltb, leb, ◌==◌,
}

pub data ℤ : Type 0 where
  pos negsuc : ℕ → ℤ

-- What is read of an error: its name, message and code, and the status and the RPC code as numbers,
-- where 0 also stands for none and for what is no number.
pub record RpcError : Type 0 where
  pub name : String
  pub message : String
  pub code : String
  pub status : ℕ
  pub rpc_code : ℤ

-- `s.includes(t)`
unfoldable pub includes : String → String → Bool
includes String.[] t = starts_with "" t
includes (String.◌∷◌ c s) t = starts_with (String.◌∷◌ c s) t || includes s t

unfoldable pub includes_any : String → List String → Bool
unfolding includes
includes_any s [] = false
includes_any s (t ∷ ts) = includes s t || includes_any s ts

unfoldable pub is_one_of : String → List String → Bool
is_one_of s [] = false
is_one_of s (t ∷ ts) = str_eq s t || is_one_of s ts

abbrev pub network_error_codes : List String
network_error_codes =
    "ECONNREFUSED" ∷ "ENOTFOUND" ∷ "ECONNRESET" ∷ "ETIMEDOUT" ∷ "EHOSTUNREACH" ∷ "ENETUNREACH"
    ∷ "EPIPE" ∷ "UND_ERR_CONNECT_TIMEOUT" ∷ "EAI_AGAIN" ∷ []

abbrev pub network_message_patterns : List String
network_message_patterns =
    "econnrefused" ∷ "enotfound" ∷ "econnreset" ∷ "etimedout" ∷ "ehostunreach" ∷ "socket hang up"
    ∷ "fetch failed" ∷ "network error" ∷ "connection refused" ∷ "failed to fetch"
    ∷ "connect etimedout" ∷ []

abbrev pub server_message_patterns : List String
server_message_patterns =
    "500 internal server error" ∷ "502 bad gateway" ∷ "503 service unavailable"
    ∷ "504 gateway timeout" ∷ "bad gateway" ∷ "service unavailable" ∷ []

abbrev pub unsynced_message_patterns : List String
unsynced_message_patterns =
    "node is syncing" ∷ "behind ledger" ∷ "service is temporarily unavailable" ∷ []

-- The internal error -32603, and -32000 to -32099.
unfoldable pub is_server_rpc_code : ℤ → Bool
is_server_rpc_code (pos n) = false
is_server_rpc_code (negsuc n) = n == 32602 || (leb 31999 n && leb n 32098)

unfoldable pub is_timeout : RpcError → String → Bool
unfolding includes
is_timeout e lower_message =
    str_eq e.name "AbortError"
    || str_eq e.name "TimeoutError"
    || includes lower_message "timed out"
    || includes lower_message "timeout"

unfoldable pub is_network_failure : RpcError → String → Bool
unfolding is_one_of includes_any
is_network_failure e lower_message =
    is_one_of e.code network_error_codes || includes_any lower_message network_message_patterns

unfoldable pub is_server_failure : RpcError → String → Bool
unfolding includes_any is_server_rpc_code
is_server_failure e lower_message =
    (leb 500 e.status && ltb e.status 600)
    || e.status == 429
    || includes_any lower_message ("too many requests" ∷ "rate limit" ∷ [])
    || includes_any lower_message server_message_patterns
    || is_server_rpc_code e.rpc_code
    || includes_any lower_message unsynced_message_patterns

-- `isRpcFailureCondition` of a thrown value, `none` for an empty one.
unfoldable pub is_rpc_failure_condition : (String → String) → Option RpcError → Bool
unfolding is_timeout is_network_failure is_server_failure
is_rpc_failure_condition to_lower_case none = false
is_rpc_failure_condition to_lower_case (some e) =
    is_timeout e (to_lower_case e.message)
    || is_network_failure e (to_lower_case e.message)
    || is_server_failure e (to_lower_case e.message)
