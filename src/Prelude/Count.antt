-- ===== src/Prelude/Count.antt =====
-- How often a key is listed, and what equal counts say of two lists. Invariants over sets of keys
-- are equations of counts, which are linear arithmetic.
use Prim.Native.Nat.{ℕ, zero, suc, ◌+◌, ◌≤◌}
use mathlib.Core.Path.{◌≡◌, refl}
use mathlib.Core.Logic.{ite}
use mathlib.Core.Bool.{Bool, true, false, not}
use mathlib.Core.List.{List, [], ◌∷◌, ◌++◌}
use native.Mathlib.Omega.{arith}
use notify_chain.Prelude.Tests.{Key}
use notify_chain.Prelude.Lists.{length, take, filter}
use notify_chain.Prelude.JsSet
use notify_chain.Prelude.JsSet.{JsSet}

-- 1 for `true`, 0 for `false`.
abbrev pub indicator : Bool → ℕ
indicator true = 1
indicator false = 0

-- The elements whose key is `k`.
module _ {A K : Type 0} ⦃key : Key K⦄ (f : A → K) where
  unfoldable pub count : K → List A → ℕ
  count k [] = 0
  count k (x ∷ xs) = ite (key.dec k (f x)) 1 0 + count k xs

  pub count-append : (k : K) (xs ys : List A) → count k (xs ++ ys) ≡ count k xs + count k ys
  unfolding count
  count-append k [] ys = omega arith
  count-append k (x ∷ xs) ys = omega (arith, count-append k xs ys)

  pub count-take-le : (k : K) (n : ℕ) (xs : List A) → count k (take n xs) ≤ count k xs
  unfolding count
  count-take-le k zero xs = omega arith
  count-take-le k (suc n) [] = omega arith
  count-take-le k (suc n) (x ∷ xs) = omega (arith, count-take-le k n xs)

  pub count-filter-split :
      (k : K) (p : A → Bool) (xs : List A)
      → count k (filter p xs) + count k (filter (λ x. not (p x)) xs) ≡ count k xs
  unfolding count
  count-filter-split k p [] = omega arith
  count-filter-split k p (x ∷ xs) = ground (arith, count-filter-split k p xs)

  -- The first element with the key, removed.
  erase_first : K → List A → List A
  erase_first k [] = []
  erase_first k (x ∷ xs) = ite (key.dec k (f x)) xs (x ∷ erase_first k xs)

  length-erase_first :
      (k : K) (xs : List A) → 1 ≤ count k xs → length (erase_first k xs) + 1 ≡ length xs
  unfolding count erase_first
  length-erase_first k [] h = absurd (omega arith)
  length-erase_first k (x ∷ xs) h = ground (arith, length-erase_first k xs)

  count-erase_first :
      (j k : K) (xs : List A)
      → 1 ≤ count k xs
      → count j (erase_first k xs) + ite (key.dec j k) 1 0 ≡ count j xs
  unfolding count erase_first
  count-erase_first j k [] h = absurd (omega arith)
  count-erase_first j k (x ∷ xs) h = ground (arith, count-erase_first j k xs)

  -- Lists in which every key is listed equally often are equally long.
  pub length-eq_of_count :
      (xs ys : List A) → ((k : K) → count k xs ≡ count k ys) → length xs ≡ length ys
  unfolding count
  length-eq_of_count [] [] h = refl
  length-eq_of_count [] (y ∷ ys) h = ground (arith, h (f y))
  length-eq_of_count (x ∷ xs) ys h =
      let found : 1 ≤ count (f x) ys = ground (arith, h (f x)) in
      let rest : length xs ≡ length (erase_first (f x) ys) =
        length-eq_of_count xs (erase_first (f x) ys)
          (λ k. omega (arith, h k, count-erase_first k (f x) ys found)) in
      omega (arith, rest, length-erase_first (f x) ys found)

  -- A set that holds exactly the keys of a list has as many elements as the list.
  pub length-eq_of_members :
      (s : JsSet K) (xs : List A)
      → JsSet.Distinct s
      → ((k : K) → indicator (JsSet.has k s) ≡ count k xs)
      → length s ≡ length xs
  unfolding count JsSet.Distinct JsSet.has
  length-eq_of_members [] [] d h = refl
  length-eq_of_members [] (x ∷ xs) d h = ground (arith, h (f x))
  length-eq_of_members (k ∷ s) xs d h =
      let found : 1 ≤ count k xs = ground (arith, h k) in
      let rest : length s ≡ length (erase_first k xs) =
        length-eq_of_members s (erase_first k xs) d.1
          (λ j. ground (arith, h j, d.0, count-erase_first j k xs found)) in
      omega (arith, rest, length-erase_first k xs found)

-- A sum over the elements of a list.
module _ {A : Type 0} (g : A → ℕ) where
  unfoldable pub sum_of : List A → ℕ
  sum_of [] = 0
  sum_of (x ∷ xs) = g x + sum_of xs

  pub sum_of-append : (xs ys : List A) → sum_of (xs ++ ys) ≡ sum_of xs + sum_of ys
  unfolding sum_of
  sum_of-append [] ys = omega arith
  sum_of-append (x ∷ xs) ys = omega (arith, sum_of-append xs ys)

module _ {A : Type 0} ⦃key : Key A⦄ (g : A → ℕ) where
  sum_of-erase_first :
      (x : A) (xs : List A)
      → 1 ≤ count (λ y. y) x xs
      → sum_of g (erase_first (λ y. y) x xs) + g x ≡ sum_of g xs
  unfolding count erase_first sum_of
  sum_of-erase_first x [] h = absurd (omega arith)
  sum_of-erase_first x (y ∷ ys) h = ground (arith, sum_of-erase_first x ys)

  -- Lists with the same elements, as often, have the same sum.
  pub sum_of-eq_of_count :
      (xs ys : List A)
      → ((x : A) → count (λ y. y) x xs ≡ count (λ y. y) x ys)
      → sum_of g xs ≡ sum_of g ys
  unfolding count sum_of
  sum_of-eq_of_count [] [] h = refl
  sum_of-eq_of_count [] (y ∷ ys) h = ground (arith, h y)
  sum_of-eq_of_count (x ∷ xs) ys h =
      let found : 1 ≤ count (λ y. y) x ys = ground (arith, h x) in
      let rest : sum_of g xs ≡ sum_of g (erase_first (λ y. y) x ys) =
        sum_of-eq_of_count xs (erase_first (λ y. y) x ys)
          (λ k. omega (arith, h k, count-erase_first (λ y. y) k x ys found)) in
      omega (arith, rest, sum_of-erase_first x ys found)
