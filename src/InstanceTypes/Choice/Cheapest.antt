-- ===== src/InstanceTypes/Choice/Cheapest.antt =====
-- The loops of ResolvePlatformPresetFromNodeClaim against the flat list of what they consider.
use mathlib.Core.List.{Memᴰ}
use aks_flex.Common.{
  ◌&&◌, ◌≡◌, refl, ◌⊎◌, inl, inr, Bool, true, false, ◌||◌, some, List, [], ◌∷◌, ◌++◌, String, elem,
  string_eq, if◌then◌else◌, Bool-cases,
}
use aks_flex.Common.Assoc.{Map, lookup}
use aks_flex.Karpenter.{Requirement}
use aks_flex.InstanceTypes.{Packages, IsFloatOrder}
use aks_flex.InstanceTypes.Platform.{PlatformPreset}
use aks_flex.InstanceTypes.Offerings.{Offering}
use aks_flex.InstanceTypes.Types.{InstanceType}
use aks_flex.InstanceTypes.Choice.{Best, is_candidate, best_offering, best_of}

module _ {Price : Type 0} (pkg : Packages Price) (wanted : List Requirement) where
  -- An offering is wanted when it is available and compatible with the requirements.
  abbrev pub is_wanted : Offering Price → Bool
  is_wanted o = o.available && pkg.is_compatible wanted o.requirements

  -- The candidates among the offerings of one instance type, each with the name of the type.
  unfoldable pub candidates_in : String → List (Offering Price) → List (String × Offering Price)
  candidates_in name [] = []
  candidates_in name (o ∷ os) =
      let rest = candidates_in name os in if is_wanted o then (name, o) ∷ rest else rest

  -- The candidates: available and compatible offerings of the requested instance types.
  unfoldable pub candidates : List (InstanceType Price) → List (String × Offering Price)
  unfolding candidates_in
  candidates [] = []
  candidates (it ∷ its) =
      let rest = candidates its in
      if elem it.name (pkg.values wanted pkg.instance_type_key)
      then candidates_in it.name it.offerings ++ rest
      else rest

  -- Is one of them cheaper than a price?
  unfoldable pub undercut : Price → List (String × Offering Price) → Bool
  undercut price [] = false
  undercut price ((name, o) ∷ cs) = pkg.less o.price price || undercut price cs

  unfoldable pub better :
      Map String PlatformPreset → Best Price → String → Offering Price → Best Price
  better index best name o =
      if pkg.less o.price best.price
      then record { preset = lookup name index; offering = some o; price = o.price }
      else best

  unfoldable pub fold_best :
      Map String PlatformPreset → Best Price → List (String × Offering Price) → Best Price
  unfolding better
  fold_best index best [] = best
  fold_best index best ((name, o) ∷ cs) = fold_best index (better index best name o) cs

  fold_best-append :
      (index : Map String PlatformPreset) (best : Best Price)
      (xs ys : List (String × Offering Price))
      → fold_best index best (xs ++ ys) ≡ fold_best index (fold_best index best xs) ys
  unfolding fold_best
  fold_best-append index best [] ys = refl
  fold_best-append index best ((name, o) ∷ xs) ys =
      fold_best-append index (better index best name o) xs ys

  best_offering-eq :
      (index : Map String PlatformPreset) (name : String) (best : Best Price)
      (os : List (Offering Price))
      → best_offering pkg wanted (lookup name index) best os
        ≡ fold_best index best (candidates_in name os)
  unfolding is_candidate best_offering fold_best candidates_in better
  best_offering-eq index name best [] = refl
  best_offering-eq index name best (o ∷ os) = elim (Bool-cases (is_wanted o)) [
    | inl q ↦ rw (q) (best_offering-eq index name (better index best name o) os)
    | inr q ↦ rw (q) (best_offering-eq index name best os)
  ]

  pub best_of-eq :
      (index : Map String PlatformPreset) (best : Best Price) (its : List (InstanceType Price))
      → best_of pkg wanted index best its ≡ fold_best index best (candidates its)
  unfolding best_of fold_best candidates
  best_of-eq index best [] = refl
  best_of-eq index best (it ∷ its) =
      elim (Bool-cases (elem it.name (pkg.values wanted pkg.instance_type_key))) [
        | inl q ↦
            rw
              (
                q,
                best_offering-eq index it.name best it.offerings,
                fold_best-append index best (candidates_in it.name it.offerings) (candidates its),
              )
              (best_of-eq index (fold_best index best (candidates_in it.name it.offerings)) its)
        | inr q ↦ rw (q) (best_of-eq index best its)
      ]

  -- What the loops end with: what they began with, or a candidate, in either case one that no
  -- candidate undercuts.
  abbrev pub Minimal :
      Map String PlatformPreset → Best Price → List (String × Offering Price) → Best Price → Type 0
  Minimal index best cs b =
      ((b ≡ best) × (undercut best.price cs ≡ false))
      ⊎ ((name : String) × (o : Offering Price) × Memᴰ (name, o) cs
          × (b ≡ record { preset = lookup name index; offering = some o; price = o.price })
          × (undercut o.price cs ≡ false)
          × (pkg.less o.price best.price ≡ true))

  module _ (order : IsFloatOrder pkg) where
    not_above : (a b c : Price) → pkg.less a b ≡ true → pkg.less c b ≡ false → pkg.less c a ≡ false
    not_above a b c h k = elim (Bool-cases (pkg.less c a)) [
      | inl q ↦ absurd (clash (order.less_trans c a b q h))
      | inr q ↦ q
    ]
      where
        clash : pkg.less c b ≡ true → ⊥
        clash p = cc

    not_back : (a b : Price) → pkg.less a b ≡ true → pkg.less b a ≡ false
    not_back a b h = elim (Bool-cases (pkg.less b a)) [
      | inl q ↦ absurd (clash (order.less_trans a b a h q))
      | inr q ↦ q
    ]
      where
        clash : pkg.less a a ≡ true → ⊥
        clash p = let r = order.less_irrefl a in cc

    pub fold_best-Minimal :
        (index : Map String PlatformPreset) (best : Best Price)
        (cs : List (String × Offering Price))
        → Minimal index best cs (fold_best index best cs)
    unfolding fold_best undercut better
    fold_best-Minimal index best [] = inl (refl, refl)
    fold_best-Minimal index best ((name, o) ∷ cs) =
        elim (Bool-cases (pkg.less o.price best.price)) [
          | inl q ↦
              let best' : Best Price = record {
                preset = lookup name index;
                offering = some o;
                price = o.price;
              } in
              rw (q) (elim (fold_best-Minimal index best' cs) [
                | inl (e, u) ↦ inr (name, o, Memᴰ.head refl, e, rw (order.less_irrefl o.price) u, q)
                | inr (name', o', m, e, u, l) ↦ inr (
                  name',
                  o',
                  Memᴰ.tail m,
                  e,
                  rw (not_back o'.price o.price l) u,
                  order.less_trans o'.price o.price best.price l q,
                )
              ])
          | inr q ↦ rw (q) (elim (fold_best-Minimal index best cs) [
            | inl (e, u) ↦ inl (e, u)
            | inr (name', o', m, e, u, l) ↦
                inr (name', o', Memᴰ.tail m, e, rw (not_above o'.price best.price o.price l q) u, l)
          ])
        ]
