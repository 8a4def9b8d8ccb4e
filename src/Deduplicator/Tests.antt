-- ===== src/Deduplicator/Tests.antt =====
-- Runs of listener/src/services/notification-deduplicator.ts, and its theorems at concrete states.
use notify_chain.Prelude.{ltb, ◌+◌, ℕ, ◌≡◌, refl, true, some, List, [], ◌∷◌, string_key}
use notify_chain.Prelude.JsMap
use notify_chain.Deduplicator.{Deduplicator, create, is_duplicate, mark_sent}
use notify_chain.Deduplicator.Bounds.{Call, run, step, run-new-IsValid}
use notify_chain.Deduplicator.Windows.{is_duplicate-mark_sent, Marked, is_duplicate-run}

program : Unit {0}
unfolding create is_duplicate mark_sent run step JsMap.get JsMap.set JsMap.keep string_key
program = tt

abbrev calls : List (ℕ × Call)
calls = (5, Call.checks "a") ∷ (5, Call.marks "a") ∷ (9, Call.marks "b") ∷ (20, Call.sizes) ∷ []

-- Marking a fingerprint that is present in a full cache again evicts the oldest other one.
mark_sent_evicts : (mark_sent 10 "b" (run calls (create (some 2) (some 50)))).seen ≡ ("b", 60) ∷ []
unfolding program
mark_sent_evicts = refl

abbrev empty : Deduplicator
empty = create (some 2) (some 50)

duplicate : (is_duplicate 54 "a" (run calls empty)).1 ≡ true
unfolding program
duplicate = refl

is_duplicate-run_example : Marked empty.window_ms 54 "a" calls
is_duplicate-run_example = is_duplicate-run (some 2) (some 50) 54 "a" calls duplicate

is_duplicate-mark_sent_example :
    (is_duplicate 70 "c" (mark_sent 30 "c" (run calls empty))).1
    ≡ ltb 70 (30 + (run calls empty).window_ms)
is_duplicate-mark_sent_example =
    is_duplicate-mark_sent 30 70 "c" (run calls empty) (run-new-IsValid (some 2) (some 50) calls)
