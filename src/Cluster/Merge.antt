-- ===== src/Cluster/Merge.antt =====
-- What the entries of a merged kubeconfig are.
use aks_flex.Common.{◌≡◌, refl, Option, none, some, [], ◌∷◌, String, arith, string_eq}
use text.Mathlib.TextEquality.{eq_iff}
use aks_flex.Common.Assoc.{Map, lookup, insert, lookup-insert}
use aks_flex.Cluster.{copy_entries}

-- The value of a first look-up, or else that of a second.
abbrev pub or_else : {V : Type 0} → Option V → Option V → Option V
or_else none other = other
or_else (some v) other = some v

module _ {V : Type 0} where
  -- No key of a Go map stands twice.
  abbrev pub Distinct : Map String V → Type 0
  Distinct [] = Unit {0}
  Distinct ((k, v) ∷ rest) = (lookup k rest ≡ none) × Distinct rest

  -- The copied entries stand before those that were there.
  pub lookup-copy_entries :
      (k : String) (target source : Map String V)
      → Distinct source
      → lookup k (copy_entries target source) ≡ or_else (lookup k source) (lookup k target)
  unfolding copy_entries lookup
  lookup-copy_entries k target [] d = refl
  lookup-copy_entries k target ((j, v) ∷ source) (fresh, d) = ground (
    arith,
    eq_iff j k,
    lookup-copy_entries k (insert j v target) source d,
    lookup-insert j k v target,
  )
