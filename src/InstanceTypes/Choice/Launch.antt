-- ===== src/InstanceTypes/Choice/Launch.antt =====
-- What ResolvePlatformPresetFromNodeClaim returns for an entry of the cache.
use mathlib.Core.List.{Memᴰ}
use mathlib.Core.List.Memᴰ
use aks_flex.Common.{
  ◌≡◌, refl, ap, ◌∙◌, ◌⊎◌, inl, inr, true, false, ◌||◌, Option, none, some, List, [], ◌∷◌, String,
  map, ◌==◌, Result, ok, err, elem, string_eq, arith, Bool-cases, ==_refl,
}
use aks_flex.Common.Assoc.{Map, lookup, insert, lookup-insert}
use aks_flex.Karpenter.{Requirement}
use aks_flex.InstanceTypes.{Packages, IsFloatOrder}
use aks_flex.InstanceTypes.Platform.{PlatformPreset, LaunchSettings, instance_type_name}
use aks_flex.InstanceTypes.Offerings.{Offering}
use aks_flex.InstanceTypes.Types.{NodeClassKey, InstanceType}
use aks_flex.InstanceTypes.Resolve.{CachedEntry, ProviderError, no_matching_preset}
use aks_flex.InstanceTypes.Choice.{
  Best, preset_by_name, best_of, settings_of, choose_settings, first_or,
}
use aks_flex.InstanceTypes.Choice.Cheapest.{
  is_wanted, candidates, candidates_in, undercut, Minimal, best_of-eq, fold_best-Minimal,
}

-- The instance types of an entry are those of its presets.
abbrev pub IsNamed : {Price : Type 0} → CachedEntry Price → Type 0
IsNamed entry = map (λ it. it.name) entry.instance_types ≡ map instance_type_name entry.presets

abbrev Indexed :
    String → List PlatformPreset → Map String PlatformPreset → Option PlatformPreset → Type 0
Indexed name ps index r =
    ((p : PlatformPreset) × Memᴰ p ps × (instance_type_name p ≡ name) × (r ≡ some p))
    ⊎ ((elem name (map instance_type_name ps) ≡ false) × (r ≡ lookup name index))

preset_by_name-Indexed :
    (name : String) (index : Map String PlatformPreset) (ps : List PlatformPreset)
    → Indexed name ps index (lookup name (preset_by_name index ps))
unfolding preset_by_name elem
preset_by_name-Indexed name index [] = inr (refl, refl)
preset_by_name-Indexed name index (p ∷ ps) =
    elim (preset_by_name-Indexed name (insert (instance_type_name p) p index) ps) [
      | inl (p', m, e, l) ↦ inl (p', Memᴰ.tail m, e, l)
      | inr (n, l) ↦ elim (Bool-cases (instance_type_name p == name)) [
        | inl q ↦ inl (
          p,
          Memᴰ.head refl,
          (string_eq.same_iff (instance_type_name p) name).0 q,
          l ∙ rw (lookup-insert (instance_type_name p) name p index, q) refl,
        )
        | inr q ↦ inr (rw (q) n, l ∙ rw (lookup-insert (instance_type_name p) name p index, q) refl)
      ]
    ]

module _ {Price : Type 0} (pkg : Packages Price) (wanted : List Requirement) where
  names_in :
      (name n : String) (o : Offering Price) (os : List (Offering Price))
      → Memᴰ (n, o) (candidates_in pkg wanted name os)
      → n ≡ name
  unfolding candidates_in
  names_in name n o [] m = absurd (Memᴰ.not-nil m)
  names_in name n o (o' ∷ os) m = elim (Bool-cases (is_wanted pkg wanted o')) [
    | inl q ↦ elim (Memᴰ.cases_cons (rw (q) at m)) [
      | inl e ↦ ap (λ x. x.0) e
      | inr k ↦ names_in name n o os k
    ]
    | inr q ↦ names_in name n o os (rw (q) at m)
  ]

  candidates-named :
      (n : String) (o : Offering Price) (its : List (InstanceType Price))
      → Memᴰ (n, o) (candidates pkg wanted its)
      → elem n (map (λ it. it.name) its) ≡ true
  unfolding candidates elem
  candidates-named n o [] m = absurd (Memᴰ.not-nil m)
  candidates-named n o (it ∷ its) m =
      elim (Bool-cases (elem it.name (pkg.values wanted pkg.instance_type_key))) [
        | inl q ↦
            elim (Memᴰ.append_cases (candidates_in pkg wanted it.name it.offerings) (rw (q) at m)) [
              | inl k ↦ named (names_in it.name n o it.offerings k)
              | inr k ↦ later (candidates-named n o its k)
            ]
        | inr q ↦ later (candidates-named n o its (rw (q) at m))
      ]
    where
      named : n ≡ it.name → (it.name == n || elem n (map (λ i. i.name) its)) ≡ true
      named e = rw (e, ==_refl it.name) refl

      later :
          elem n (map (λ i. i.name) its) ≡ true
          → (it.name == n || elem n (map (λ i. i.name) its)) ≡ true
      later e = ground arith

  abbrev start : Best Price
  start = record { preset = none; offering = none; price = pkg.max_float64 }

  module _ {Error : Type 0} (key : NodeClassKey) (entry : CachedEntry Price) where
    -- The settings of a candidate that no other undercuts, or the error when no candidate is below
    -- the largest float.
    abbrev pub Chosen : Result (ProviderError Error) LaunchSettings → Type 0
    Chosen r =
        ((p : PlatformPreset) × (o : Offering Price) × Memᴰ p entry.presets
          × Memᴰ (instance_type_name p, o) (candidates pkg wanted entry.instance_types)
          × (undercut pkg wanted o.price (candidates pkg wanted entry.instance_types) ≡ false)
          × (r
              ≡ ok (record {
                platform_preset = p;
                capacity_type =
                    first_or pkg.on_demand (pkg.values o.requirements pkg.capacity_type_key);
                zone = first_or key.region (pkg.values o.requirements pkg.zone_key);
              })))
        ⊎ ((undercut pkg wanted pkg.max_float64 (candidates pkg wanted entry.instance_types)
              ≡ false)
            × (r ≡ err no_matching_preset))

  module _ {Error : Type 0} (order : IsFloatOrder pkg) (key : NodeClassKey)
      (entry : CachedEntry Price) (named : IsNamed entry) where
    settle :
        (b : Best Price)
        → Minimal pkg wanted
            (preset_by_name [] entry.presets)
            start
            (candidates pkg wanted entry.instance_types)
            b
        → Chosen {Error = Error} key entry (settings_of pkg wanted key b)
    unfolding settings_of lookup
    settle b (inl (e, u)) = inr (u, rw (e) refl)
    settle b (inr (name, o, m, e, u, l)) = elim (preset_by_name-Indexed name [] entry.presets) [
      | inl (p, k, n, i) ↦ inl (p, o, k, rw (n) m, u, rw (e, i) refl)
      | inr (n, i) ↦ absurd (clash (candidates-named name o entry.instance_types m) n)
    ]
      where
        clash :
            elem name (map (λ it. it.name) entry.instance_types) ≡ true
            → elem name (map instance_type_name entry.presets) ≡ false
            → ⊥
        clash x y = let z = ap (elem name) named in cc

    pub choose_settings-cheapest :
        Chosen {Error = Error} key entry (choose_settings pkg wanted key entry)
    unfolding choose_settings
    choose_settings-cheapest =
        settle (best_of pkg wanted (preset_by_name [] entry.presets) start entry.instance_types) (
          rw (best_of-eq pkg wanted (preset_by_name [] entry.presets) start entry.instance_types) (
            fold_best-Minimal pkg wanted order (preset_by_name [] entry.presets) start
              (candidates pkg wanted entry.instance_types)))
