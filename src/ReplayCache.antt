-- ===== src/ReplayCache.antt =====
-- `WebhookReplayCache` of listener/src/services/webhook-replay-cache.ts: the signatures of accepted
-- webhook requests with their expiry times. Times are ms since the epoch.
pub mod Bounds
pub mod Protection
mod Tests
use Prim.Native.String.{◌++◌ as str_append}
use notify_chain.Prelude.{
  ℕ, suc, ◌+◌, max, String, Bool, true, false, Option, none, some, List, [], ◌∷◌, if◌then◌else◌,
  ltb, length, string_key,
}
use notify_chain.Prelude.JsMap
use notify_chain.Prelude.JsMap.{JsMap}

pub record ReplayCache : Type 0 where
  pub entries : JsMap String ℕ
  pub max_entries : ℕ

abbrev or_default : Option ℕ → ℕ → ℕ
or_default none d = d
or_default (some n) d = n

-- The constructor.
unfoldable pub create : Option ℕ → ReplayCache
create max_entries = record { entries = []; max_entries = max 1 (or_default max_entries 10000) }

-- An expiry that has not passed.
unfoldable pub is_live : ℕ → ℕ → Bool
is_live now expiry = ltb now expiry

-- `sweep`
unfoldable pub sweep : ℕ → ReplayCache → ReplayCache
unfolding is_live
sweep now c = record c { entries = JsMap.keep (is_live now) c.entries }

-- The loop of `evict`: the first entry in insertion order goes while there are too many.
unfoldable pub evict_oldest : ℕ → JsMap String ℕ → JsMap String ℕ
evict_oldest max_entries [] = []
evict_oldest max_entries (e ∷ m) =
    let rest = evict_oldest max_entries m in
    if ltb max_entries (suc (length m)) then rest else e ∷ m

-- `evict`
unfoldable pub evict : ℕ → ReplayCache → ReplayCache
unfolding sweep evict_oldest
evict now c = let c' = sweep now c in record c' { entries = evict_oldest c'.max_entries c'.entries }

is_cached : ℕ → Option ℕ → Bool
is_cached now none = false
is_cached now (some expiry) = ltb now expiry

-- The part of `claim` that records the key.
unfoldable pub remember : ℕ → String → ℕ → ReplayCache → ReplayCache
unfolding evict
remember now k ttl_ms c =
    let c' = record c { entries = JsMap.set k (now + ttl_ms) (JsMap.delete k c.entries) } in
    if ltb c'.max_entries (JsMap.size c'.entries) then evict now c' else c'

-- `claim`: the new state, and whether the request may be accepted.
unfoldable pub claim : ℕ → String → ℕ → ReplayCache → ReplayCache × Bool
unfolding is_cached remember
claim now k ttl_ms c =
    if is_cached now (JsMap.get k c.entries) then (c, false) else (remember now k ttl_ms c, true)

-- `clear`
unfoldable pub clear : ReplayCache → ReplayCache
clear c = record c { entries = [] }

-- `buildReplayCacheKey`; lower case is the JavaScript engine's.
unfoldable pub build_replay_cache_key : (String → String) → String → String → String
build_replay_cache_key to_lower_case key_id signature =
    str_append key_id (str_append ":" (to_lower_case signature))
