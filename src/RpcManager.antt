-- ===== src/RpcManager.antt =====
-- `StellarRpcManager` of listener/src/services/stellar-rpc-manager.ts: the pool of RPC endpoints with
-- their health, and the failover between them. Logging is left out; an endpoint's server is named by
-- its URL; the race with the timeout of a call is part of the call, which is a parameter. Times are ms.
pub mod Failover
pub mod Pool
pub mod Ring
pub mod Switching
pub mod Leaving
pub mod Urls
pub mod Calls
pub mod Outcomes
pub mod Health
pub mod Serving
mod Tests
use package.text.Mathlib.Text.{◌==◌ as str_eq}
use notify_chain.Prelude.{
  ℕ, zero, suc, ◌+◌, ◌-◌, ◌%◌, ◌≡◌, min, max, String, Bool, true, false, ◌&&◌, ◌||◌, not, Option,
  none, some, List, [], ◌∷◌, ◌++◌, map, if◌then◌else◌, ltb, leb, ◌==◌, length, string_key,
}
use notify_chain.Prelude.JsSet
use notify_chain.RpcFailure.{RpcError, is_rpc_failure_condition}

pub data Status : Type 0 where
  healthy degraded unhealthy : Status

-- `InternalEndpointState`; the last error is the thrown value whose reason the source keeps.
pub record Endpoint : Type 0 where
  pub url : String
  pub is_primary : Bool
  pub status : Status
  pub consecutive_failures : ℕ
  pub total_requests : ℕ
  pub total_successes : ℕ
  pub total_failures : ℕ
  pub last_failure_time : Option ℕ
  pub last_success_time : Option ℕ
  pub last_error : Option (Option RpcError)

pub record Manager : Type 0 where
  pub endpoints : List Endpoint
  pub active_index : ℕ
  pub failure_threshold : ℕ
  pub cooldown_ms : ℕ
  pub max_retries : ℕ

abbrev pub is_healthy : Endpoint → Bool
is_healthy e = elim e.status [ healthy ↦ true | _ ↦ false ]

abbrev pub is_degraded : Endpoint → Bool
is_degraded e = elim e.status [ degraded ↦ true | _ ↦ false ]

abbrev pub is_unhealthy : Endpoint → Bool
is_unhealthy e = elim e.status [ unhealthy ↦ true | _ ↦ false ]

-- `endpoints[i]`, which is undefined out of range.
abbrev pub endpoint_at : ℕ → List Endpoint → Option Endpoint
endpoint_at i [] = none
endpoint_at zero (e ∷ es) = some e
endpoint_at (suc i) (e ∷ es) = endpoint_at i es

-- The endpoint at an index changed in place.
abbrev pub update_at : ℕ → (Endpoint → Endpoint) → List Endpoint → List Endpoint
update_at i f [] = []
update_at zero f (e ∷ es) = f e ∷ es
update_at (suc i) f (e ∷ es) = e ∷ update_at i f es

abbrev next_place : Option ℕ → Option ℕ
next_place none = none
next_place (some i) = some (suc i)

-- `findIndex` by URL
unfoldable pub find_index : String → List Endpoint → Option ℕ
find_index url [] = none
find_index url (e ∷ es) =
    let later = next_place (find_index url es) in if str_eq e.url url then some 0 else later

unfoldable pub new_endpoint : Bool → String → Endpoint
new_endpoint is_primary url = record {
  url = url;
  is_primary = is_primary;
  status = healthy;
  consecutive_failures = 0;
  total_requests = 0;
  total_successes = 0;
  total_failures = 0;
  last_failure_time = none;
  last_success_time = none;
  last_error = none;
}

-- The fallback URLs that are not empty and not seen before.
unfoldable pub unique_urls : (String → String) → List String → List String → List String
unfolding JsSet.has JsSet.add
unique_urls trim seen [] = []
unique_urls trim seen (raw_url ∷ raw_urls) =
    let trimmed = trim raw_url in
    let is_new = not (str_eq trimmed "") && not (JsSet.has trimmed seen) in
    let rest = unique_urls trim (if is_new then JsSet.add trimmed seen else seen) raw_urls in
    if is_new then trimmed ∷ rest else rest

abbrev pub number_or : Option ℕ → ℕ → ℕ
number_or none d = d
number_or (some n) d = n

-- The constructor; `none` is the error of an empty primary URL.
unfoldable pub new_manager :
    (String → String) → String → List String → Option ℕ → Option ℕ → Option ℕ → Option Manager
unfolding new_endpoint unique_urls
new_manager trim primary_url fallback_urls failure_threshold cooldown_ms max_retries =
    let primary = trim primary_url in
    let fallbacks = unique_urls trim (primary ∷ []) fallback_urls in
    if str_eq primary ""
    then none
    else some (record {
      endpoints = new_endpoint true primary ∷ map (new_endpoint false) fallbacks;
      active_index = 0;
      failure_threshold = number_or failure_threshold 3;
      cooldown_ms = number_or cooldown_ms 60000;
      max_retries = number_or max_retries (suc (length fallbacks));
    })

abbrev url_of : Option Endpoint → Option String
url_of none = none
url_of (some e) = some e.url

-- `getActiveEndpoint`; `none` is a `TypeError`.
unfoldable pub get_active_endpoint : Manager → Option String
get_active_endpoint m = url_of (endpoint_at m.active_index m.endpoints)

-- Has a failure been followed by the cooldown?
abbrev pub is_cooled : ℕ → ℕ → Option ℕ → Bool
is_cooled now cooldown_ms none = false
is_cooled now cooldown_ms (some failed) = leb (failed + cooldown_ms) now

unfoldable pub cool_down : ℕ → ℕ → Endpoint → Endpoint
cool_down now cooldown_ms e =
    if is_unhealthy e && is_cooled now cooldown_ms e.last_failure_time
    then record e { status = degraded }
    else e

-- `checkCooldowns`
unfoldable pub check_cooldowns : ℕ → Manager → Manager
unfolding cool_down
check_cooldowns now m = record m { endpoints = map (cool_down now m.cooldown_ms) m.endpoints }

unfoldable pub succeeded : ℕ → Endpoint → Endpoint
succeeded now e = record e {
  total_requests = suc e.total_requests;
  total_successes = suc e.total_successes;
  consecutive_failures = 0;
  status = healthy;
  last_success_time = some now;
  last_error = none;
}

unfoldable pub failed_with : ℕ → ℕ → Option RpcError → Endpoint → Endpoint
failed_with now failure_threshold error e = record e {
  total_requests = suc e.total_requests;
  total_failures = suc e.total_failures;
  consecutive_failures = suc e.consecutive_failures;
  last_failure_time = some now;
  last_error = some error;
  status = if leb failure_threshold (suc e.consecutive_failures) then unhealthy else degraded;
}

-- `recordSuccess`, on the active endpoint if no URL is given.
unfoldable pub target_of_success : Option String → Manager → Option ℕ
unfolding find_index
target_of_success none m = some m.active_index
target_of_success (some url) m =
    if str_eq url "" then some m.active_index else find_index url m.endpoints

unfoldable pub record_success : ℕ → Option String → Manager → Manager
unfolding target_of_success succeeded
record_success now target_url m = recorded (target_of_success target_url m)
  where
    recorded : Option ℕ → Manager
    recorded none = m
    recorded (some i) = record m { endpoints = update_at i (succeeded now) m.endpoints }

-- `setActiveEndpoint`; `none` is the error of an unknown URL.
unfoldable pub set_active_endpoint : (String → String) → String → Manager → Option Manager
unfolding find_index
set_active_endpoint trim url m = chosen (find_index (trim url) m.endpoints)
  where
    chosen : Option ℕ → Option Manager
    chosen none = none
    chosen (some i) = some (record m { active_index = i })

unfoldable pub renewed : Endpoint → Endpoint
renewed e = record e {
  status = healthy;
  consecutive_failures = 0;
  last_error = none;
  last_failure_time = none;
}

-- `reset`
unfoldable pub reset : Manager → Manager
unfolding renewed
reset m = record m { endpoints = map renewed m.endpoints; active_index = 0 }
