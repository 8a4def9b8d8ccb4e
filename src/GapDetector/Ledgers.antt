-- ===== src/GapDetector/Ledgers.antt =====
-- The ledgers that listener/src/services/indexing-gap-detector.ts reports as missing.
use notify_chain.Prelude.{
  ℕ, ◌+◌, ◌≡◌, refl, Bool, true, false, List, [], ◌∷◌, ◌++◌, not, ◌&&◌, ◌||◌, arith, ◌∙◌, ltb, leb,
  length, length-append, ite, nat_key,
}
use notify_chain.Prelude.JsMap
use notify_chain.Prelude.JsMap.{JsMap, get-set, set-Distinct}
use notify_chain.GapDetector.{
  EventRef, count_or_zero, count_by_ledger, events_or_none, group_by_ledger, missing_ledgers_of,
  insert_by, sort_by, detect_indexing_gaps,
}

-- Is the ledger listed?
unfoldable pub lists_ledger : ℕ → List ℕ → Bool
lists_ledger l [] = false
lists_ledger l (x ∷ xs) = ite (nat_key.dec l x) true (lists_ledger l xs)

-- Is some event of the ledger?
unfoldable pub has_event_at : ℕ → List EventRef → Bool
has_event_at l [] = false
has_event_at l (e ∷ es) = ite (nat_key.dec l e.ledger) true (has_event_at l es)

get-count_by_ledger :
    (l : ℕ) (es : List EventRef) (m : JsMap ℕ ℕ)
    → leb (count_or_zero (JsMap.get l (count_by_ledger es m))) 0
      ≡ leb (count_or_zero (JsMap.get l m)) 0 && not (has_event_at l es)
unfolding count_by_ledger has_event_at
get-count_by_ledger l [] m = ground arith
get-count_by_ledger l (e ∷ es) m =
    let n = count_or_zero (JsMap.get e.ledger m) + 1 in
    ground (arith, get-count_by_ledger l es (JsMap.set e.ledger n m), get-set l e.ledger n m)

get-group_by_ledger :
    (l : ℕ) (es : List EventRef) (m : JsMap ℕ (List EventRef))
    → ltb 0 (length (events_or_none (JsMap.get l (group_by_ledger es m))))
      ≡ ltb 0 (length (events_or_none (JsMap.get l m))) || has_event_at l es
unfolding group_by_ledger has_event_at
get-group_by_ledger l [] m = ground arith
get-group_by_ledger l (e ∷ es) m =
    let before = events_or_none (JsMap.get e.ledger m) in
    let now = before ++ e ∷ [] in
    ground (
      arith,
      get-group_by_ledger l es (JsMap.set e.ledger now m),
      get-set l e.ledger now m,
      length-append before (e ∷ []),
    )

group_by_ledger-Distinct :
    (es : List EventRef) (m : JsMap ℕ (List EventRef))
    → JsMap.Distinct m
    → JsMap.Distinct (group_by_ledger es m)
unfolding group_by_ledger
group_by_ledger-Distinct [] m d = d
group_by_ledger-Distinct (e ∷ es) m d =
    let now = events_or_none (JsMap.get e.ledger m) ++ e ∷ [] in
    group_by_ledger-Distinct es (JsMap.set e.ledger now m) (set-Distinct e.ledger now m d)

lists_ledger-missing_ledgers_of :
    (l : ℕ) (indexed : JsMap ℕ ℕ) (m : JsMap ℕ (List EventRef))
    → JsMap.Distinct m
    → lists_ledger l (missing_ledgers_of indexed m)
      ≡ ltb 0 (length (events_or_none (JsMap.get l m)))
        && leb (count_or_zero (JsMap.get l indexed)) 0
unfolding missing_ledgers_of lists_ledger JsMap.Distinct JsMap.get
lists_ledger-missing_ledgers_of l indexed [] d = ground arith
lists_ledger-missing_ledgers_of l indexed ((x, events) ∷ m) d =
    ground (arith, lists_ledger-missing_ledgers_of l indexed m d.1)

lists_ledger-insert_by :
    (l x : ℕ) (ls : List ℕ)
    → lists_ledger l (insert_by (λ k. k) x ls) ≡ ite (nat_key.dec l x) true (lists_ledger l ls)
unfolding insert_by lists_ledger
lists_ledger-insert_by l x [] = refl
lists_ledger-insert_by l x (y ∷ ys) = ground (arith, lists_ledger-insert_by l x ys)

lists_ledger-sort_by :
    (l : ℕ) (ls : List ℕ) → lists_ledger l (sort_by (λ k. k) ls) ≡ lists_ledger l ls
unfolding sort_by lists_ledger
lists_ledger-sort_by l [] = refl
lists_ledger-sort_by l (x ∷ xs) =
    ground (arith, lists_ledger-insert_by l x (sort_by (λ k. k) xs), lists_ledger-sort_by l xs)

-- A ledger is reported as missing exactly if some event of the chain is of it and no indexed one.
pub detect_indexing_gaps-missing_ledgers :
    (l : ℕ) (on_chain indexed : List EventRef)
    → lists_ledger l (detect_indexing_gaps on_chain indexed).missing_ledgers
      ≡ has_event_at l on_chain && not (has_event_at l indexed)
unfolding detect_indexing_gaps JsMap.Distinct JsMap.get
detect_indexing_gaps-missing_ledgers l on_chain indexed =
    let by_ledger = group_by_ledger on_chain [] in
    let counts = count_by_ledger indexed [] in
    lists_ledger-sort_by l (missing_ledgers_of counts by_ledger)
    ∙ lists_ledger-missing_ledgers_of l counts by_ledger (group_by_ledger-Distinct on_chain [] tt)
    ∙ rw (get-group_by_ledger l on_chain [], get-count_by_ledger l indexed [])
