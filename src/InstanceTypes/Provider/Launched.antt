-- ===== src/InstanceTypes/Provider/Launched.antt =====
-- ResolvePlatformPresetFromNodeClaim on any provider that calls have led to.
use aks_flex.Common.{
  none, some, ◌≡◌, refl, ap, ◌⊎◌, inl, inr, List, [], ◌∷◌, String, Result, ok, err, ◌>>=◌, map_err,
  map, Option-cases, Result-cases,
}
use aks_flex.Karpenter.{NodeClaim}
use aks_flex.InstanceTypes.{Packages, IsFloatOrder}
use aks_flex.InstanceTypes.Platform.{PlatformPreset, LaunchSettings, instance_type_name}
use aks_flex.InstanceTypes.Types.{NodeClassKey, node_class_key_eq, InstanceType, new_instance_type}
use aks_flex.InstanceTypes.Resolve.{
  CachedEntry, NebiusApi, ProviderError, resolve, no_instance_type_requirements,
  resolving_instance_types,
}
use aks_flex.InstanceTypes.Resolve.Assembled.{
  priced, ArePriced, priced_none, priced_one, resolve-IsResolved,
}
use aks_flex.InstanceTypes.Choice.{choose_settings}
use aks_flex.InstanceTypes.Choice.Launch.{IsNamed, Chosen, choose_settings-cheapest}
use aks_flex.InstanceTypes.Provider.{
  Lru, LruLaws, Provider, store_resolved, get_or_resolve_cached_entry,
  resolve_platform_preset_from_node_claim,
}
use aks_flex.InstanceTypes.Provider.Reached.{Reached}
use aks_flex.InstanceTypes.Provider.Cached.{Reached-IsSound}

module _ {Error Price : Type 0} (pkg : Packages Price) (api : NebiusApi Error)
    (key : NodeClassKey) where
  ArePriced-named :
      (all ps : List PlatformPreset) (its : List (InstanceType Price))
      → ArePriced pkg api key all ps its
      → map (λ it. it.name) its ≡ map instance_type_name ps
  unfolding new_instance_type
  ArePriced-named all ps its priced_none = refl
  ArePriced-named all ps its (priced_one p ps' it its' (priced q m k prices quoted n o e) rest) =
      let name : it.name ≡ instance_type_name p = ap (λ x. x.name) e in
      let names = ArePriced-named all ps' its' rest in rw (name, names) refl

  pub resolve-IsNamed : (entry : CachedEntry Price) → resolve pkg api key ≡ ok entry → IsNamed entry
  resolve-IsNamed entry h =
      let (l, a) = resolve-IsResolved pkg api key entry h in
      ArePriced-named entry.presets entry.presets entry.instance_types a

module _ {Error Price C : Type 0} (pkg : Packages Price) (order : IsFloatOrder pkg)
    (lru : Lru C (CachedEntry Price)) (laws : LruLaws lru) (op : Provider C)
    (log : List (NebiusApi Error)) (reached : Reached Error pkg lru log op) (api : NebiusApi Error)
    (key : NodeClassKey) where
  -- The entry that the provider works on: the cached one, or what the API gives for a key that the
  -- cache does not have.
  abbrev pub IsUsed : CachedEntry Price → Type 0
  IsUsed entry =
      ((lru.get op.cache key).0 ≡ some entry)
      ⊎ (((lru.get op.cache key).0 ≡ none) × (resolve pkg api key ≡ ok entry))

  -- getOrResolveCachedEntry returns the entry, or the error that the API gives for a key that the
  -- cache does not have.
  abbrev pub Given : Result (ProviderError Error) (CachedEntry Price) → Type 0
  Given r =
      ((entry : CachedEntry Price) × IsUsed entry
        × ((api' : NebiusApi Error) × (resolve pkg api' key ≡ ok entry))
        × (r ≡ ok entry))
      ⊎ ((e : ProviderError Error) × ((lru.get op.cache key).0 ≡ none)
          × (resolve pkg api key ≡ err e)
          × (r ≡ err e))

  get_or_resolve-Given : Given (get_or_resolve_cached_entry pkg lru api op key).0
  unfolding get_or_resolve_cached_entry store_resolved
  get_or_resolve-Given = elim (Option-cases (lru.get op.cache key).0) [
    | inl q ↦ elim (Result-cases (resolve pkg api key)) [
      | inl (entry, e) ↦
          inl (entry, inr (q, e), (api, e), rw (q, get_or_resolve_cached_entry, e) refl)
      | inr (why, e) ↦ inr (why, q, e, rw (q, get_or_resolve_cached_entry, e) refl)
    ]
    | inr (entry, q) ↦
        let (known, (api', seen, e)) =
          Reached-IsSound Error pkg lru laws log op reached key entry q in
        inl (entry, inl q, (api', e), rw (q, get_or_resolve_cached_entry) refl)
  ]

  module _ (claim : NodeClaim) where
    abbrev pub Launched : Result (ProviderError Error) LaunchSettings → Type 0
    Launched r =
        ((pkg.values claim.requirements pkg.instance_type_key ≡ [])
          × (r ≡ err no_instance_type_requirements))
        ⊎ ((e : ProviderError Error) × ((lru.get op.cache key).0 ≡ none)
            × (resolve pkg api key ≡ err e)
            × (r ≡ err (resolving_instance_types e)))
        ⊎ ((entry : CachedEntry Price) × IsUsed entry × Chosen pkg claim.requirements key entry r)

    after_get :
        (r : Result (ProviderError Error) (CachedEntry Price))
        → Given r
        → Launched
            (map_err resolving_instance_types r >>= choose_settings pkg claim.requirements key)
    after_get r (inl (entry, used, (api', e), q)) = rw (q) (
        inr (
          inr (
            entry,
            used,
            choose_settings-cheapest pkg claim.requirements order key entry
                (resolve-IsNamed pkg api' key entry e),
          )))
    after_get r (inr (why, n, e, q)) = rw (q) (inr (inl (why, n, e, refl)))

    launched-eq :
        (n : String) (ns : List String)
        → pkg.values claim.requirements pkg.instance_type_key ≡ n ∷ ns
        → (resolve_platform_preset_from_node_claim pkg lru api op key claim).0 ≡ (
            map_err resolving_instance_types (get_or_resolve_cached_entry pkg lru api op key).0
            >>= choose_settings pkg claim.requirements key)
    unfolding resolve_platform_preset_from_node_claim
    launched-eq n ns q = rw (q, resolve_platform_preset_from_node_claim) refl

    unnamed-eq :
        pkg.values claim.requirements pkg.instance_type_key ≡ []
        → (resolve_platform_preset_from_node_claim pkg lru api op key claim).0
          ≡ err no_instance_type_requirements
    unfolding resolve_platform_preset_from_node_claim
    unnamed-eq q = rw (q, resolve_platform_preset_from_node_claim) refl

    by_names :
        (names : List String)
        → pkg.values claim.requirements pkg.instance_type_key ≡ names
        → Launched (resolve_platform_preset_from_node_claim pkg lru api op key claim).0
    by_names [] q = inl (q, unnamed-eq q)
    by_names (n ∷ ns) q =
        rw (launched-eq n ns q)
          (after_get (get_or_resolve_cached_entry pkg lru api op key).0 get_or_resolve-Given)

    -- For a provider that any sequence of its calls has led to, under the laws of the LRU cache
    -- and of the float order, ResolvePlatformPresetFromNodeClaim fails for a NodeClaim that
    -- requires no instance type, or fails because the cache has no entry for the key and the API
    -- does not give one, or works on the entry that the cache has for the key, or else on the one
    -- that the API gives for it: it then returns a preset of that entry with an available and
    -- compatible offering of a requested instance type that no other such offering undercuts,
    -- with the capacity type and the zone of that offering, or it fails and no such offering has
    -- a price below the largest float.
    pub resolve_platform_preset-Launched :
        Launched (resolve_platform_preset_from_node_claim pkg lru api op key claim).0
    resolve_platform_preset-Launched =
        by_names (pkg.values claim.requirements pkg.instance_type_key) refl
