-- ===== src/Prelude/JsSet.antt =====
-- The ECMAScript Set, as a list in insertion order without repetition.
use Prim.Native.Nat.{◌+◌}
use mathlib.Core.Path.{◌≡◌, refl}
use mathlib.Core.Logic.{ite}
use mathlib.Core.Bool.{Bool, true, false, ◌||◌}
use mathlib.Core.List.{List, [], ◌∷◌}
use native.Mathlib.Omega.{arith}
use notify_chain.Prelude.Tests.{Key}
use notify_chain.Prelude.Lists.{length}

abbrev pub JsSet : Type 0 → Type 0
JsSet K = List K

module _ {K : Type 0} ⦃key : Key K⦄ where
  -- `s.has(k)`
  unfoldable pub has : K → JsSet K → Bool
  has k [] = false
  has k (j ∷ s) = ite (key.dec k j) true (has k s)

  -- `s.add(k)`
  unfoldable pub add : K → JsSet K → JsSet K
  add k [] = k ∷ []
  add k (j ∷ s) = ite (key.dec k j) (j ∷ s) (j ∷ add k s)

  -- `s.delete(k)`
  unfoldable pub delete : K → JsSet K → JsSet K
  delete k [] = []
  delete k (j ∷ s) = let rest = delete k s in ite (key.dec k j) rest (j ∷ rest)

  -- No element is listed twice.
  unfoldable pub Distinct : JsSet K → Type 0
  Distinct [] = Unit
  Distinct (k ∷ s) = (has k s ≡ false) × Distinct s

  pub has-add : (j k : K) (s : JsSet K) → has j (add k s) ≡ ite (key.dec j k) true (has j s)
  unfolding has add
  has-add j k [] = refl
  has-add j k (e ∷ s) = ground (arith, has-add j k s)

  pub has-delete : (j k : K) (s : JsSet K) → has j (delete k s) ≡ ite (key.dec j k) false (has j s)
  unfolding has delete
  has-delete j k [] = ground arith
  has-delete j k (e ∷ s) = ground (arith, has-delete j k s)

  pub add-Distinct : (k : K) (s : JsSet K) → Distinct s → Distinct (add k s)
  unfolding has add Distinct
  add-Distinct k [] d = (refl, tt)
  add-Distinct k (e ∷ s) d = ground (arith, add-Distinct k s d.1, has-add e k s)

  pub delete-Distinct : (k : K) (s : JsSet K) → Distinct s → Distinct (delete k s)
  unfolding delete Distinct
  delete-Distinct k [] d = tt
  delete-Distinct k (e ∷ s) d = ground (arith, delete-Distinct k s d.1, has-delete e k s)

  pub length-add_new : (k : K) (s : JsSet K) → has k s ≡ false → length (add k s) ≡ length s + 1
  unfolding has add
  length-add_new k [] h = omega arith
  length-add_new k (e ∷ s) h = ground (arith, length-add_new k s)

  pub add_present : (k : K) (s : JsSet K) → has k s ≡ true → add k s ≡ s
  unfolding has add
  add_present k [] h = cc
  add_present k (e ∷ s) h = ground (arith, add_present k s)

  pub delete_absent : (k : K) (s : JsSet K) → has k s ≡ false → delete k s ≡ s
  unfolding has delete
  delete_absent k [] h = refl
  delete_absent k (e ∷ s) h = ground (arith, delete_absent k s)

  pub length-delete :
      (k : K) (s : JsSet K) → Distinct s → has k s ≡ true → length (delete k s) + 1 ≡ length s
  unfolding has delete Distinct
  length-delete k [] d h = cc
  length-delete k (e ∷ s) d h = ground (arith, length-delete k s d.1, delete_absent k s)

  -- `for (const k of ks) s.add(k)`
  unfoldable pub add_all : List K → JsSet K → JsSet K
  add_all [] s = s
  add_all (k ∷ ks) s = add_all ks (add k s)

  pub add_all-Distinct : (ks : List K) (s : JsSet K) → Distinct s → Distinct (add_all ks s)
  unfolding add_all
  add_all-Distinct [] s d = d
  add_all-Distinct (k ∷ ks) s d = add_all-Distinct ks (add k s) (add-Distinct k s d)

  pub has-add_all :
      (j : K) (ks : List K) (s : JsSet K) → has j (add_all ks s) ≡ (has j s || has j ks)
  unfolding has add_all
  has-add_all j [] s = ground arith
  has-add_all j (k ∷ ks) s = ground (arith, has-add_all j ks (add k s), has-add j k s)
