-- ===== src/RpcManager/Ring.antt =====
-- The search in ring order of listener/src/services/stellar-rpc-manager.ts.
use native.Mathlib.Nat.{mod-eq_of_lt, add-mod_left}
use notify_chain.Prelude.{
  ℕ, zero, suc, ◌+◌, ◌-◌, ◌%◌, ◌≤◌, ◌<◌, ◌≡◌, ◌≢◌, sym, ◌∙◌, ap, subst, ◌⊎◌, inl, inr, Bool, true,
  some, List, arith, ltb, length, Bool-cases,
}
use notify_chain.RpcManager.{Endpoint, endpoint_at}
use notify_chain.RpcManager.Failover.{ring_search, passes}

-- Going on from one place of the ring leads to each of the others, and not back to it.
module _ (n previous : ℕ) (early : previous < n) where
  ring-mod :
      (k : ℕ)
      → k < n
      → ((previous + k) % n ≡ previous + k) ⊎ ((previous + k) % n + n ≡ previous + k)
  ring-mod k small = elim (Bool-cases (ltb (previous + k) n)) [
    | inl inside ↦ inl (mod-eq_of_lt (ground arith))
    | inr outside ↦
        let r = previous + k - n in
        let total : n + r ≡ previous + k = ground arith in
        inr (
          ap (λ x. x % n + n) (sym total)
          ∙ ap (λ x. x + n) (add-mod_left n r ∙ mod-eq_of_lt (ground arith))
          ∙ omega (arith, total))
  ]

  pub ring_other : (k : ℕ) → 1 ≤ k → k < n → (previous + k) % n ≢ previous
  ring_other k positive small back = elim (ring-mod k small) [
    | inl inside ↦ omega (arith, inside, back, positive)
    | inr outside ↦ omega (arith, outside, back, small)
  ]

  pub ring_reaches :
      (g : ℕ) → g < n → g ≢ previous → (k : ℕ) × (1 ≤ k) × (k < n) × ((previous + k) % n ≡ g)
  ring_reaches g small other = elim (Bool-cases (ltb previous g)) [
    | inl above ↦
        let k = g - previous in
        let total : previous + k ≡ g = ground arith in
        (k, ground arith, ground arith, rw total (mod-eq_of_lt small))
    | inr below ↦
        let k = g + n - previous in
        let total : previous + k ≡ n + g = ground arith in
        (k, ground arith, ground arith, rw total (add-mod_left n g ∙ mod-eq_of_lt small))
  ]

module _ (test : Endpoint → Bool) (es : List Endpoint) (previous : ℕ) where
  pub ring_search_sound :
      (i count j : ℕ)
      → ring_search test es previous i count ≡ some j
      → (passes test (endpoint_at j es) ≡ true)
        × ((k : ℕ) × (i ≤ k) × (k < i + count) × (j ≡ (previous + k) % length es))
  unfolding ring_search
  ring_search_sound i zero j h = absurd (ground arith)
  ring_search_sound i (suc count) j h =
      let candidate = (previous + i) % length es in
      elim (Bool-cases (passes test (endpoint_at candidate es))) [
        | inl found ↦
            let same : candidate ≡ j = ground (arith, found) in
            (
              subst (λ x. passes test (endpoint_at x es) ≡ true) same found,
              (i, omega arith, omega arith, sym same),
            )
        | inr skipped ↦
            let (passed, (k, lower, upper, at)) =
              ring_search_sound (suc i) count j (ground (arith, skipped)) in
            (passed, (k, omega (arith, lower), omega (arith, upper), at))
      ]

  pub ring_search_complete :
      (i count k : ℕ)
      → i ≤ k
      → k < i + count
      → passes test (endpoint_at ((previous + k) % length es) es) ≡ true
      → (j : ℕ) × (ring_search test es previous i count ≡ some j)
  unfolding ring_search
  ring_search_complete i zero k lower upper passed = absurd (omega (arith, lower, upper))
  ring_search_complete i (suc count) k lower upper passed =
      let candidate = (previous + i) % length es in
      elim (Bool-cases (passes test (endpoint_at candidate es))) [
        | inl found ↦ (candidate, ground (arith, found))
        | inr skipped ↦
            let differs : k ≢ i = λ same. cc (
              sym skipped,
              ap (λ x. passes test (endpoint_at ((previous + x) % length es) es)) same,
              passed,
            ) in
            let (j, at) =
              ring_search_complete (suc i) count k (omega (arith, lower, differs))
                (omega (arith, upper)) passed in
            (j, ground (arith, skipped, at))
      ]

  module _ (early : previous < length es) where
    pub found_other :
        (j : ℕ)
        → ring_search test es previous 1 (length es - 1) ≡ some j
        → (passes test (endpoint_at j es) ≡ true) × (j ≢ previous)
    found_other j h =
        let (passed, (k, lower, upper, at)) = ring_search_sound 1 (length es - 1) j h in
        (
          passed,
          (λ same.
              ring_other (length es) previous early k lower (omega (arith, upper, early))
                (sym at ∙ same)),
        )

    pub finds_other :
        (g : ℕ)
        → g < length es
        → g ≢ previous
        → passes test (endpoint_at g es) ≡ true
        → (j : ℕ) × (ring_search test es previous 1 (length es - 1) ≡ some j)
    finds_other g small other passed =
        let (k, lower, upper, at) = ring_reaches (length es) previous early g small other in
        ring_search_complete 1 (length es - 1) k lower (omega (arith, upper)) (rw at passed)
