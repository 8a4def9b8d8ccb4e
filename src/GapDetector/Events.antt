-- ===== src/GapDetector/Events.antt =====
-- The events that listener/src/services/indexing-gap-detector.ts reports as missing.
use notify_chain.Prelude.{
  ℕ, suc, ◌≤◌, ◌≡◌, refl, ap, ◌∙◌, String, Bool, true, false, List, [], ◌∷◌, map, not, ◌&&◌, arith,
  if◌then◌else◌, ite, All, string_key,
}
use notify_chain.Prelude.JsSet
use notify_chain.Prelude.JsSet.{has-add_all}
use notify_chain.GapDetector.{
  EventRef, fingerprint_of, insert_by, sort_by, missing_events_of, detect_indexing_gaps,
}

-- How many of the events pass the test.
unfoldable pub count_if : (EventRef → Bool) → List EventRef → ℕ
count_if p [] = 0
count_if p (e ∷ es) = let rest = count_if p es in if p e then suc rest else rest

-- Some indexed event has the fingerprint.
unfoldable pub is_indexed : List EventRef → String → Bool
is_indexed [] f = false
is_indexed (i ∷ is) f = ite (string_key.dec f (fingerprint_of i)) true (is_indexed is f)

-- By ledger, lowest first.
abbrev pub InLedgerOrder : List EventRef → Type 0
InLedgerOrder [] = Unit
InLedgerOrder (e ∷ es) = All (λ x. e.ledger ≤ x.ledger) es × InLedgerOrder es

module _ (p : EventRef → Bool) where
  count_if-insert_by :
      (e : EventRef) (es : List EventRef)
      → count_if p (insert_by (λ x. x.ledger) e es) ≡ count_if p (e ∷ es)
  unfolding insert_by count_if
  count_if-insert_by e [] = refl
  count_if-insert_by e (x ∷ xs) = ground (arith, count_if-insert_by e xs)

  count_if-sort_by : (es : List EventRef) → count_if p (sort_by (λ x. x.ledger) es) ≡ count_if p es
  unfolding sort_by count_if
  count_if-sort_by [] = refl
  count_if-sort_by (e ∷ es) =
      ground (arith, count_if-insert_by e (sort_by (λ x. x.ledger) es), count_if-sort_by es)

  count_if-missing_events_of :
      (indexed : List String) (es : List EventRef)
      → count_if p (missing_events_of indexed es)
        ≡ count_if (λ e. p e && not (JsSet.has (fingerprint_of e) indexed)) es
  unfolding missing_events_of count_if
  count_if-missing_events_of indexed [] = refl
  count_if-missing_events_of indexed (e ∷ es) =
      ground (arith, count_if-missing_events_of indexed es)

insert_by-All :
    (n : ℕ) (e : EventRef) (es : List EventRef)
    → n ≤ e.ledger
    → All (λ x. n ≤ x.ledger) es
    → All (λ x. n ≤ x.ledger) (insert_by (λ x. x.ledger) e es)
unfolding insert_by
insert_by-All n e [] h a = (h, tt)
insert_by-All n e (x ∷ xs) h a = ground (arith, insert_by-All n e xs h a.1)

All-later :
    (n m : ℕ) (es : List EventRef) → n ≤ m → All (λ x. m ≤ x.ledger) es → All (λ x. n ≤ x.ledger) es
All-later n m [] h a = tt
All-later n m (x ∷ xs) h a = (omega (arith, h, a.0), All-later n m xs h a.1)

insert_by-InLedgerOrder :
    (e : EventRef) (es : List EventRef)
    → InLedgerOrder es
    → InLedgerOrder (insert_by (λ x. x.ledger) e es)
unfolding insert_by
insert_by-InLedgerOrder e [] o = (tt, tt)
insert_by-InLedgerOrder e (x ∷ xs) o = ground (
  arith,
  insert_by-InLedgerOrder e xs o.1,
  insert_by-All x.ledger e xs,
  All-later e.ledger x.ledger xs,
)

sort_by-InLedgerOrder : (es : List EventRef) → InLedgerOrder (sort_by (λ x. x.ledger) es)
unfolding sort_by
sort_by-InLedgerOrder [] = tt
sort_by-InLedgerOrder (e ∷ es) =
    insert_by-InLedgerOrder e (sort_by (λ x. x.ledger) es) (sort_by-InLedgerOrder es)

has-map_fingerprints :
    (f : String) (es : List EventRef) → JsSet.has f (map fingerprint_of es) ≡ is_indexed es f
unfolding JsSet.has is_indexed
has-map_fingerprints f [] = refl
has-map_fingerprints f (e ∷ es) = ground (arith, has-map_fingerprints f es)

count_if-same :
    (p q : EventRef → Bool) (es : List EventRef)
    → ((e : EventRef) → p e ≡ q e)
    → count_if p es ≡ count_if q es
unfolding count_if
count_if-same p q [] h = refl
count_if-same p q (e ∷ es) h = ground (arith, h e, count_if-same p q es h)

has-indexed_set :
    (indexed : List EventRef) (f : String)
    → JsSet.has f (JsSet.add_all (map fingerprint_of indexed) []) ≡ is_indexed indexed f
unfolding JsSet.has
has-indexed_set indexed f =
    has-add_all f (map fingerprint_of indexed) [] ∙ has-map_fingerprints f indexed

-- The events reported as missing are those of the chain whose fingerprint no indexed event has, each
-- as often as the chain lists it, whatever the test that counts them; and they are in the order of
-- their ledgers.
pub detect_indexing_gaps-missing_events :
    (p : EventRef → Bool) (on_chain indexed : List EventRef)
    → (count_if p (detect_indexing_gaps on_chain indexed).missing_events
        ≡ count_if (λ e. p e && not (is_indexed indexed (fingerprint_of e))) on_chain)
      × InLedgerOrder (detect_indexing_gaps on_chain indexed).missing_events
unfolding detect_indexing_gaps
detect_indexing_gaps-missing_events p on_chain indexed =
    let indexed_set = JsSet.add_all (map fingerprint_of indexed) [] in
    let missing = missing_events_of indexed_set on_chain in
    (
      count_if-sort_by p missing
          ∙ count_if-missing_events_of p indexed_set on_chain
          ∙ count_if-same (λ e. p e && not (JsSet.has (fingerprint_of e) indexed_set))
              (λ e. p e && not (is_indexed indexed (fingerprint_of e))) on_chain
              (λ e. ap (λ b. p e && not b) (has-indexed_set indexed (fingerprint_of e))),
      sort_by-InLedgerOrder missing,
    )
