-- ===== src/Common/Assoc.antt =====
-- Go's `map[K]V` as an association list: a write replaces the entry of its key where it stands,
-- or comes last. Go leaves the order of iteration open; here it is the order of the list.
use mathlib.Core.Path.{◌≡◌, refl}
use mathlib.Core.Bool.{Bool, true, false}
use mathlib.Core.Option.{Option, none, some}
use mathlib.Core.List.{List, [], ◌∷◌}
use native.Mathlib.Omega.{arith}
use aks_flex.Common.Tests.{if◌then◌else◌}
use aks_flex.Common.Equality.{Eq, ◌==◌, elem}

abbrev pub Map {ℓ} : Type ℓ → Type ℓ → Type ℓ
Map K V = List (K × V)

-- `_, ok := m[k]`
abbrev pub is_some {ℓ} : {A : Type ℓ} → Option A → Bool
is_some none = false
is_some (some a) = true

-- The value that an iteration leaves, if the test drops it.
abbrev pub unless {ℓ} : {V : Type ℓ} → (V → Bool) → Option V → Option V
unless drop none = none
unless drop (some v) = if drop v then none else some v

module _ {ℓ} {K V : Type ℓ} ⦃e : Eq K⦄ where
  unfoldable pub lookup : K → Map K V → Option V
  lookup k [] = none
  lookup k (entry ∷ rest) = if entry.0 == k then some entry.1 else lookup k rest

  unfoldable pub insert : K → V → Map K V → Map K V
  insert key value [] = (key, value) ∷ []
  insert key value (entry ∷ rest) =
      if entry.0 == key then (key, value) ∷ rest else entry ∷ insert key value rest

  unfoldable pub delete : K → Map K V → Map K V
  delete k [] = []
  delete k ((j, w) ∷ m) = let rest = delete k m in if j == k then rest else (j, w) ∷ rest

  -- The loop `for k, v := range m { if drop(k, v) { delete(m, k) } }`.
  unfoldable pub discard : (K → V → Bool) → Map K V → Map K V
  unfolding delete
  discard drop [] = []
  discard drop ((j, w) ∷ m) =
      let rest = discard drop m in if drop j w then delete j rest else (j, w) ∷ rest

  unfoldable pub keys : Map K V → List K
  keys [] = []
  keys ((j, w) ∷ m) = j ∷ keys m

  pub lookup-insert :
      (key other : K) (value : V) (m : Map K V)
      → lookup other (insert key value m) ≡ (if key == other then some value else lookup other m)
  unfolding lookup insert
  lookup-insert key other value [] = refl
  lookup-insert key other value (entry ∷ rest) = ground (
    arith,
    e.same_iff key other,
    e.same_iff entry.0 key,
    e.same_iff entry.0 other,
    lookup-insert key other value rest,
  )

  pub lookup-delete :
      (k j : K) (m : Map K V) → lookup j (delete k m) ≡ (if k == j then none else lookup j m)
  unfolding lookup delete
  lookup-delete k j [] = ground arith
  lookup-delete k j ((i, w) ∷ m) =
      ground (arith, e.same_iff k j, e.same_iff i k, e.same_iff i j, lookup-delete k j m)

  module _ (drop : K → V → Bool) where
    lookup-discard_entry :
        (k j : K) (w : V) (m : Map K V)
        → lookup k (discard drop m) ≡ unless (drop k) (lookup k m)
        → lookup k (discard drop ((j, w) ∷ m)) ≡ unless (drop k) (lookup k ((j, w) ∷ m))
    unfolding lookup discard
    lookup-discard_entry k j w m h =
        ground (arith, e.same_iff j k, lookup-delete j k (discard drop m))

    -- Such a loop drops what the test tells it to, and nothing else.
    pub lookup-discard :
        (k : K) (m : Map K V) → lookup k (discard drop m) ≡ unless (drop k) (lookup k m)
    unfolding lookup discard
    lookup-discard k [] = refl
    lookup-discard k ((j, w) ∷ m) = lookup-discard_entry k j w m (lookup-discard k m)

  -- A key has an entry exactly when it is among the keys.
  pub elem-keys : (k : K) (m : Map K V) → elem k (keys m) ≡ is_some (lookup k m)
  unfolding lookup keys elem
  elem-keys k [] = refl
  elem-keys k ((i, w) ∷ m) = ground (arith, elem-keys k m)
