-- ===== src/Prelude/JsMap.antt =====
-- The ECMAScript Map, which the caches and registries of listener/src keep: an association list
-- in insertion order. `set` on a present key keeps its place, as the Map does; `delete` of an
-- absent key does nothing.
use Prim.Native.Nat.{ℕ, zero, suc, ◌+◌, ◌≤◌}
use mathlib.Core.Path.{◌≡◌, refl}
use mathlib.Core.Logic.{ite}
use mathlib.Core.Bool.{Bool}
use mathlib.Core.Option.{Option, none, some}
use mathlib.Core.List.{List, [], ◌∷◌, map}
use native.Mathlib.Omega.{arith}
use notify_chain.Prelude.Tests.{Key, if◌then◌else◌}
use notify_chain.Prelude.Lists.{length, filter, drop}

abbrev pub JsMap {ℓ} : Type ℓ → Type ℓ → Type ℓ
JsMap K V = List (K × V)

-- An optional value that is kept only if it passes the test.
abbrev pub when_kept {ℓ} : {V : Type ℓ} → (V → Bool) → Option V → Option V
when_kept p none = none
when_kept p (some v) = if p v then some v else none

module _ {ℓ} {K V : Type ℓ} where
  -- `m.size`
  abbrev pub size : JsMap K V → ℕ
  size m = length m

  -- `Array.from(m.values())`
  abbrev pub values : JsMap K V → List V
  values m = map (λ e. e.1) m

module _ {ℓ} {K V : Type ℓ} ⦃key : Key K⦄ where
  -- `m.get(k)`
  unfoldable pub get : K → JsMap K V → Option V
  get k [] = none
  get k ((j, v) ∷ m) = ite (key.dec k j) (some v) (get k m)

  -- `m.set(k, v)`
  unfoldable pub set : K → V → JsMap K V → JsMap K V
  set k v [] = (k, v) ∷ []
  set k v ((j, w) ∷ m) = ite (key.dec k j) ((j, v) ∷ m) ((j, w) ∷ set k v m)

  -- `m.delete(k)`
  unfoldable pub delete : K → JsMap K V → JsMap K V
  delete k [] = []
  delete k ((j, w) ∷ m) = let rest = delete k m in ite (key.dec k j) rest ((j, w) ∷ rest)

  -- No key is bound twice.
  unfoldable pub Distinct : JsMap K V → Type ℓ
  Distinct [] = Unit
  Distinct ((k, v) ∷ m) = (get k m ≡ none) × Distinct m

  pub get-set :
      (j k : K) (v : V) (m : JsMap K V) → get j (set k v m) ≡ ite (key.dec j k) (some v) (get j m)
  unfolding get set
  get-set j k v [] = refl
  get-set j k v (e ∷ m) = ground (arith, get-set j k v m)

  pub get-delete : (j k : K) (m : JsMap K V) → get j (delete k m) ≡ ite (key.dec j k) none (get j m)
  unfolding get delete
  get-delete j k [] = ground arith
  get-delete j k (e ∷ m) = ground (arith, get-delete j k m)

  pub size-set-le : (k : K) (v : V) (m : JsMap K V) → size (set k v m) ≤ size m + 1
  unfolding set
  size-set-le k v [] = omega arith
  size-set-le k v (e ∷ m) = ground (arith, size-set-le k v m)

  pub size-set_new :
      (k : K) (v : V) (m : JsMap K V) → get k m ≡ none → size (set k v m) ≡ size m + 1
  unfolding get set
  size-set_new k v [] h = omega arith
  size-set_new k v (e ∷ m) h = ground (arith, size-set_new k v m)

  pub size-set_old :
      (k : K) (v w : V) (m : JsMap K V) → get k m ≡ some w → size (set k v m) ≡ size m
  unfolding get set
  size-set_old k v w [] h = cc
  size-set_old k v w (e ∷ m) h = ground (arith, size-set_old k v w m)

  pub size-delete-le : (k : K) (m : JsMap K V) → size (delete k m) ≤ size m
  unfolding delete
  size-delete-le k [] = omega arith
  size-delete-le k (e ∷ m) = ground (arith, size-delete-le k m)

  pub delete_absent : (k : K) (m : JsMap K V) → get k m ≡ none → delete k m ≡ m
  unfolding get delete
  delete_absent k [] h = refl
  delete_absent k (e ∷ m) h = ground (arith, delete_absent k m)

  pub size-delete :
      (k : K) (v : V) (m : JsMap K V)
      → Distinct m
      → get k m ≡ some v
      → size (delete k m) + 1 ≡ size m
  unfolding get delete Distinct
  size-delete k v [] d h = cc
  size-delete k v (e ∷ m) d h = ground (arith, size-delete k v m d.1, delete_absent k m)

  pub set-Distinct : (k : K) (v : V) (m : JsMap K V) → Distinct m → Distinct (set k v m)
  unfolding get set Distinct
  set-Distinct k v [] d = (refl, tt)
  set-Distinct k v (e ∷ m) d = ground (arith, set-Distinct k v m d.1, get-set e.0 k v m)

  pub delete-Distinct : (k : K) (m : JsMap K V) → Distinct m → Distinct (delete k m)
  unfolding delete Distinct
  delete-Distinct k [] d = tt
  delete-Distinct k (e ∷ m) d = ground (arith, delete-Distinct k m d.1, get-delete e.0 k m)

  -- The entries whose value fails the test are deleted, as a loop over the map's entries does.
  unfoldable pub keep : (V → Bool) → JsMap K V → JsMap K V
  keep p m = filter (λ e. p e.1) m

  get-keep-none : (p : V → Bool) (k : K) (m : JsMap K V) → get k m ≡ none → get k (keep p m) ≡ none
  unfolding get keep
  get-keep-none p k [] h = refl
  get-keep-none p k (e ∷ m) h = ground (arith, get-keep-none p k m)

  -- Reading after the loop: the binding survives exactly if its value passes.
  pub get-keep :
      (p : V → Bool) (k : K) (m : JsMap K V) → Distinct m → get k (keep p m) ≡ when_kept p (get k m)
  unfolding get keep Distinct
  get-keep p k [] d = refl
  get-keep p k (e ∷ m) d = ground (arith, get-keep p k m d.1, get-keep-none p k m)

  pub keep-Distinct : (p : V → Bool) (m : JsMap K V) → Distinct m → Distinct (keep p m)
  unfolding keep Distinct
  keep-Distinct p [] d = tt
  keep-Distinct p (e ∷ m) d = ground (arith, keep-Distinct p m d.1, get-keep-none p e.0 m)

  pub size-keep-le : (p : V → Bool) (m : JsMap K V) → size (keep p m) ≤ size m
  unfolding keep
  size-keep-le p [] = omega arith
  size-keep-le p (e ∷ m) = ground (arith, size-keep-le p m)

  get-drop-none : (n : ℕ) (k : K) (m : JsMap K V) → get k m ≡ none → get k (drop n m) ≡ none
  unfolding get
  get-drop-none zero k m h = h
  get-drop-none (suc n) k [] h = refl
  get-drop-none (suc n) k (e ∷ m) h = get-drop-none n k m (ground arith)

  pub drop-Distinct : (n : ℕ) (m : JsMap K V) → Distinct m → Distinct (drop n m)
  unfolding Distinct
  drop-Distinct zero m d = d
  drop-Distinct (suc n) [] d = tt
  drop-Distinct (suc n) (e ∷ m) d = drop-Distinct n m d.1
