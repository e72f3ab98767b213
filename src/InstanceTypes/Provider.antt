-- ===== src/InstanceTypes/Provider.antt =====
-- provider.go: the cache of instance types, its refresh, and the calls that read it.
-- Each call is given the Nebius API that it sees. The LRU cache is the package k8s.io/utils/lru, a
-- parameter. A call is one step on the provider here; `Reached` also has the steps of calls that
-- overlap. Adding to the cache and tracking the key, which no mutex joins, are always one step.
pub mod Reached
pub mod Cached
pub mod Launched
use aks_flex.Common.{
  ℕ, suc, ◌&&◌, ◌≡◌, ◌⊎◌, Bool, true, false, Option, none, some, List, [], ◌∷◌, ◌++◌, String,
  Result, ok, err, ◌>>=◌, or_err, map_err, map, Eq, ◌==◌, string_eq, elem, if◌then◌else◌,
}
use aks_flex.Common.Assoc.{Map, lookup, insert, keys}
use aks_flex.Karpenter.{Requirement, NodeClaim}
use aks_flex.InstanceTypes.{Packages}
use aks_flex.InstanceTypes.Platform.{
  Platform, Preset, PlatformPreset, LaunchSettings, join_names, instance_type_name,
}
use aks_flex.InstanceTypes.Offerings.{
  Prices, Offering, Calculator, PriceKey, price_key_eq, price_key, create_offerings, get_prices,
}
use aks_flex.InstanceTypes.Types.{NodeClassKey, node_class_key_eq, InstanceType, new_instance_type}
use aks_flex.InstanceTypes.Resolve.{
  CachedEntry, NebiusApi, ProviderError, listing, preset_not_found, no_instance_type_requirements,
  resolving_instance_types, list_platform_presets, find_preset, assemble, resolve,
}
use aks_flex.InstanceTypes.Choice.{choose_settings}

-- lru.Cache
pub record Lru (C V : Type 0) : Type 0 where
  pub new : C
  pub get : C → NodeClassKey → Option V × C
  pub add : C → NodeClassKey → V → C

-- A read may change the order of eviction, but no entry, and a write may evict other entries.
pub record LruLaws {C V : Type 0} (lru : Lru C V) : Type 1 where
  pub get-new : (k : NodeClassKey) → (lru.get lru.new k).0 ≡ none
  pub get-get : (c : C) (k j : NodeClassKey) → (lru.get (lru.get c k).1 j).0 ≡ (lru.get c j).0
  pub get-add : (c : C) (k : NodeClassKey) (v : V) → (lru.get (lru.add c k v) k).0 ≡ some v
  pub get-add_other :
      (c : C) (k j : NodeClassKey) (v : V)
      → (k == j) ≡ false
      → ((lru.get (lru.add c k v) j).0 ≡ none) ⊎ ((lru.get (lru.add c k v) j).0 ≡ (lru.get c j).0)

-- The fields of Provider that change.
pub record Provider (C : Type 0) : Type 0 where
  pub cache : C
  pub active_keys : List NodeClassKey

unfoldable pub track_key : List NodeClassKey → NodeClassKey → List NodeClassKey
track_key active key = if elem key active then active else active ++ key ∷ []

module _ {Price : Type 0} where
  unfoldable pub new_provider : {C : Type 0} → Lru C (CachedEntry Price) → Provider C
  new_provider lru = record { cache = lru.new; active_keys = [] }

  unfoldable pub find_instance_type :
      String → List (InstanceType Price) → Option (InstanceType Price)
  find_instance_type name [] = none
  find_instance_type name (it ∷ its) =
      if it.name == name then some it else find_instance_type name its

  abbrev pub cached_types : Option (CachedEntry Price) → List (InstanceType Price)
  cached_types none = []
  cached_types (some entry) = entry.instance_types

module _ {Price Error C : Type 0} (pkg : Packages Price) (lru : Lru C (CachedEntry Price)) where
  -- The slow path of getOrResolveCachedEntry.
  unfoldable pub store_resolved :
      NodeClassKey
      → Provider C
      → Result (ProviderError Error) (CachedEntry Price)
      → Result (ProviderError Error) (CachedEntry Price) × Provider C
  unfolding track_key
  store_resolved key op (err e) = (err e, op)
  store_resolved key op (ok entry) = (
    ok entry,
    record { cache = lru.add op.cache key entry; active_keys = track_key op.active_keys key },
  )

  unfoldable pub get_or_resolve_cached_entry :
      NebiusApi Error
      → Provider C
      → NodeClassKey
      → Result (ProviderError Error) (CachedEntry Price) × Provider C
  unfolding store_resolved resolve
  get_or_resolve_cached_entry api op key =
      let (cached, cache) = lru.get op.cache key in
      let op' : Provider C = record { cache = cache; active_keys = op.active_keys } in
      elim cached [
        | some entry ↦ (ok entry, op')
        | none ↦ store_resolved key op' (resolve pkg api key)
      ]

  unfoldable pub get_instance_types :
      NebiusApi Error
      → Provider C
      → NodeClassKey
      → Result (ProviderError Error) (List (InstanceType Price)) × Provider C
  unfolding get_or_resolve_cached_entry
  get_instance_types api op key =
      let (r, op') = get_or_resolve_cached_entry api op key in
      (r >>= (λ entry. ok entry.instance_types), op')

  -- The slow path of GetInstanceTypeByPlatformPreset.
  unfoldable pub price_preset : NebiusApi Error → NodeClassKey → PlatformPreset → InstanceType Price
  unfolding assemble get_prices
  price_preset api key p =
      assemble pkg key
        (get_prices pkg api.estimate_batch key.project_id key.os_disk_size_gib (p ∷ [])) p

  unfoldable pub get_instance_type_by_platform_preset :
      NebiusApi Error → Provider C → NodeClassKey → PlatformPreset → InstanceType Price × Provider C
  unfolding find_instance_type price_preset instance_type_name
  get_instance_type_by_platform_preset api op key p =
      let (cached, cache) = lru.get op.cache key in
      let op' : Provider C = record { cache = cache; active_keys = op.active_keys } in
      elim (find_instance_type (instance_type_name p) (cached_types cached)) [
        | some it ↦ (it, op')
        | none ↦ (price_preset api key p, op')
      ]

  unfoldable pub get_cached_or_list_presets :
      NebiusApi Error
      → Provider C
      → NodeClassKey
      → Result (ProviderError Error) (List PlatformPreset) × Provider C
  unfolding list_platform_presets
  get_cached_or_list_presets api op key =
      let (cached, cache) = lru.get op.cache key in
      let op' : Provider C = record { cache = cache; active_keys = op.active_keys } in
      elim cached [
        | some entry ↦ (ok entry.presets, op')
        | none ↦ (map_err listing (list_platform_presets api key.project_id), op')
      ]

  unfoldable pub get_platform_preset :
      NebiusApi Error
      → Provider C
      → NodeClassKey
      → String
      → String
      → Result (ProviderError Error) PlatformPreset × Provider C
  unfolding get_cached_or_list_presets find_preset join_names
  get_platform_preset api op key platform preset =
      let name = join_names platform preset in
      let (presets, op') = get_cached_or_list_presets api op key in
      (presets >>= (λ ps. or_err (find_preset name ps) (preset_not_found name key.project_id)), op')

  unfoldable pub resolve_platform_preset_from_node_claim :
      NebiusApi Error
      → Provider C
      → NodeClassKey
      → NodeClaim
      → Result (ProviderError Error) LaunchSettings × Provider C
  unfolding get_or_resolve_cached_entry choose_settings
  resolve_platform_preset_from_node_claim api op key claim =
      elim (pkg.values claim.requirements pkg.instance_type_key) [
        | [] ↦ (err no_instance_type_requirements, op)
        | _ ∷ _ ↦
            let (r, op') = get_or_resolve_cached_entry api op key in
            (map_err resolving_instance_types r >>= choose_settings pkg claim.requirements key, op')
      ]

  -- The loop of refreshAll; each key is resolved with the API that its turn sees.
  unfoldable pub refresh_keys : (ℕ → NebiusApi Error) → C → ℕ → List NodeClassKey → C
  unfolding resolve
  refresh_keys apis cache i [] = cache
  refresh_keys apis cache i (key ∷ rest) =
      refresh_keys apis
        (elim (resolve pkg (apis i) key) [ err e ↦ cache | ok entry ↦ lru.add cache key entry ])
        (suc i) rest

  unfoldable pub refresh_all : (ℕ → NebiusApi Error) → Provider C → Provider C
  unfolding refresh_keys
  refresh_all apis op = record {
    cache = refresh_keys apis op.cache 0 op.active_keys;
    active_keys = op.active_keys;
  }
