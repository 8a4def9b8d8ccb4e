-- ===== src/RpcManager/Urls.antt =====
-- The URLs of a new pool of listener/src/services/stellar-rpc-manager.ts: the constructor's Set of seen
-- URLs leaves the first occurrences of the given ones.
use package.text.Mathlib.Text.{◌==◌ as str_eq}
use notify_chain.Prelude.{
  ◌≡◌, refl, ap, inl, inr, String, Bool, true, false, ◌&&◌, not, List, [], ◌∷◌, map, arith,
  Bool-cases, string_key, ite, filter, ◌∙◌,
}
use notify_chain.Prelude.JsSet
use notify_chain.Prelude.JsSet.{has-add}
use notify_chain.RpcManager.{new_endpoint, unique_urls}
use notify_chain.RpcManager.Pool.{urls}

-- The texts of a list in the order of their first occurrences.
abbrev is_other : String → String → Bool
is_other u v = ite (string_key.dec v u) false true

abbrev pub first_occurrences : List String → List String
first_occurrences [] = []
first_occurrences (u ∷ us) = u ∷ filter (is_other u) (first_occurrences us)

filter-filter :
    (p q r : String → Bool) (us : List String)
    → ((u : String) → (p u && q u) ≡ r u)
    → filter p (filter q us) ≡ filter r us
filter-filter p q r [] h = refl
filter-filter p q r (u ∷ us) h = ground (arith, h u, filter-filter p q r us h)

filter_same :
    (p q : String → Bool) (us : List String)
    → ((u : String) → p u ≡ q u)
    → filter p us ≡ filter q us
filter_same p q [] h = refl
filter_same p q (u ∷ us) h = ground (arith, h u, filter_same p q us h)

abbrev is_unseen : List String → String → Bool
is_unseen seen u = not (JsSet.has u seen)

unseen_seen :
    (seen : List String) (x u : String)
    → JsSet.has x seen ≡ true
    → (is_unseen seen u && is_other x u) ≡ is_unseen seen u
unseen_seen seen x u h = elim (string_key.dec u x) [
  | yes same ↦ ground (arith, same, h, ap (λ v. JsSet.has v seen) same)
  | no other ↦ ground (arith, other)
]

unseen_new :
    (seen : List String) (x u : String)
    → (is_unseen seen u && is_other x u) ≡ is_unseen (JsSet.add x seen) u
unseen_new seen x u = ground (arith, has-add u x seen)

pub urls-new : (is_primary : Bool) (us : List String) → urls (map (new_endpoint is_primary) us) ≡ us
unfolding new_endpoint
urls-new is_primary [] = refl
urls-new is_primary (u ∷ us) = ap (λ vs. u ∷ vs) (urls-new is_primary us)

module _ (trim : String → String) where
  pub unique_urls-has :
      (seen raw_urls : List String) (u : String)
      → JsSet.has u seen ≡ true
      → JsSet.has u (unique_urls trim seen raw_urls) ≡ false
  unfolding unique_urls JsSet.has
  unique_urls-has seen [] u h = refl
  unique_urls-has seen (r ∷ rs) u h =
      elim (Bool-cases (not (str_eq (trim r) "") && not (JsSet.has (trim r) seen))) [
        | inl new ↦ elim (string_key.dec u (trim r)) [
          | yes same ↦ absurd (ground (arith, same, ap (λ x. JsSet.has x seen) same))
          | no other ↦ ground (
            arith,
            other,
            has-add u (trim r) seen,
            unique_urls-has (JsSet.add (trim r) seen) rs u,
          )
        ]
        | inr old ↦ ground (arith, unique_urls-has seen rs u h)
      ]

  pub unique_urls-Distinct :
      (seen raw_urls : List String) → JsSet.Distinct (unique_urls trim seen raw_urls)
  unfolding unique_urls JsSet.Distinct
  unique_urls-Distinct seen [] = tt
  unique_urls-Distinct seen (r ∷ rs) = ground (
    arith,
    has-add (trim r) (trim r) seen,
    unique_urls-has (JsSet.add (trim r) seen) rs (trim r),
    unique_urls-Distinct (JsSet.add (trim r) seen) rs,
    unique_urls-Distinct seen rs,
  )

  -- The URLs that the constructor is given, trimmed, without the empty fallback URLs.
  abbrev pub given_urls : String → List String → List String
  given_urls primary_url fallback_urls =
      trim primary_url ∷ filter (λ u. not (str_eq u "")) (map trim fallback_urls)

  unique_urls_lem :
      (seen raw_urls : List String)
      → unique_urls trim seen raw_urls
        ≡ filter
            (is_unseen seen)
            (first_occurrences (filter (λ u. not (str_eq u "")) (map trim raw_urls)))
  unfolding unique_urls
  unique_urls_lem seen [] = refl
  unique_urls_lem seen (r ∷ rs) =
      let x = trim r in
      let others = first_occurrences (filter (λ u. not (str_eq u "")) (map trim rs)) in
      let dropped : JsSet.has x seen ≡ true
          → filter (is_unseen seen) (filter (is_other x) others) ≡ filter (is_unseen seen) others =
        λ h.
          filter-filter (is_unseen seen) (is_other x) (is_unseen seen) others
            (λ u. unseen_seen seen x u h) in
      ground (
        arith,
        unique_urls_lem seen rs,
        unique_urls_lem (JsSet.add x seen) rs,
        filter-filter (is_unseen seen) (is_other x) (is_unseen (JsSet.add x seen)) others
            (unseen_new seen x),
        dropped,
      )

  pub first_occurrences-given_urls :
      (primary_url : String) (fallback_urls : List String)
      → trim primary_url ∷ unique_urls trim (trim primary_url ∷ []) fallback_urls
        ≡ first_occurrences (given_urls primary_url fallback_urls)
  unfolding JsSet.has
  first_occurrences-given_urls primary_url fallback_urls =
      let primary = trim primary_url in
      let given = filter (λ u. not (str_eq u "")) (map trim fallback_urls) in
      let same : (u : String) → is_unseen (primary ∷ []) u ≡ is_other primary u =
        λ u. ground arith in
      ap (λ us. primary ∷ us)
        (unique_urls_lem (primary ∷ []) fallback_urls
          ∙ filter_same (is_unseen (primary ∷ [])) (is_other primary) (first_occurrences given)
              same)
