-- ===== src/ReplayCache/Tests.antt =====
-- Runs of listener/src/services/webhook-replay-cache.ts, and its theorems at concrete states.
use notify_chain.Prelude.{ℕ, ◌≡◌, refl, true, false, List, [], ◌∷◌, arith, string_key}
use notify_chain.Prelude.JsMap
use notify_chain.ReplayCache.{ReplayCache, create, claim}
use notify_chain.ReplayCache.Bounds.{Call, run}
use notify_chain.ReplayCache.Protection.{claim-rejects_replay}

program : Unit {0}
unfolding create claim run JsMap.get JsMap.set JsMap.delete JsMap.keep string_key
program = tt

abbrev two_places : ReplayCache
two_places = record { entries = ("x", 90) ∷ []; max_entries = 2 }

-- A third signature pushes out the oldest of those that still live.
claim_evicts :
    claim 50 "z" 100 (record { entries = ("x", 90) ∷ ("y", 95) ∷ []; max_entries = 2 })
    ≡ (record { entries = ("y", 95) ∷ ("z", 150) ∷ []; max_entries = 2 }, true)
unfolding program
claim_evicts = refl

abbrev calls : List (ℕ × Call)
calls = (5, Call.claims "a" 10) ∷ (6, Call.claims "b" 10) ∷ (40, Call.sweeps) ∷ []

k_accepted : (claim 10 "k" 100 two_places).1 ≡ true
unfolding program
k_accepted = refl

claim-rejects_replay_example :
    (claim 109 "k" 100 (run ((60, Call.claims "other" 100) ∷ []) (claim 10 "k" 100 two_places).0)).1
    ≡ false
claim-rejects_replay_example =
    claim-rejects_replay 10 100 109 "k" ((60, Call.claims "other" 100) ∷ []) two_places k_accepted
      (omega arith) (omega arith, (λ e. cc), tt) (omega arith) (omega arith)
