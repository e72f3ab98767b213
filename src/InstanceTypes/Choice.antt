-- ===== src/InstanceTypes/Choice.antt =====
-- ResolvePlatformPresetFromNodeClaim of provider.go, given the entry of the cache.
pub mod Cheapest
pub mod Launch
use aks_flex.Common.{
  ℕ, suc, ◌&&◌, ◌≡◌, ◌⊎◌, Bool, true, false, Option, none, some, List, [], ◌∷◌, ◌++◌, String,
  Result, ok, err, ◌>>=◌, or_err, map_err, map, Eq, ◌==◌, string_eq, elem, if◌then◌else◌,
}
use aks_flex.Common.Assoc.{Map, lookup, insert, keys}
use aks_flex.Karpenter.{Requirement, NodeClaim}
use aks_flex.InstanceTypes.{Packages}
use aks_flex.InstanceTypes.Platform.{
  Platform, Preset, PlatformPreset, LaunchSettings, join_names, instance_type_name,
}
use aks_flex.InstanceTypes.Offerings.{
  Prices, Offering, Calculator, PriceKey, price_key_eq, price_key, create_offerings, get_prices,
}
use aks_flex.InstanceTypes.Types.{NodeClassKey, node_class_key_eq, InstanceType, new_instance_type}
use aks_flex.InstanceTypes.Resolve.{CachedEntry, ProviderError, no_matching_preset}

-- The loops of ResolvePlatformPresetFromNodeClaim: the best so far.
pub record Best (Price : Type 0) : Type 0 where
  pub preset : Option PlatformPreset
  pub offering : Option (Offering Price)
  pub price : Price

-- `presetByName`: the last preset of a name.
unfoldable pub preset_by_name :
    Map String PlatformPreset → List PlatformPreset → Map String PlatformPreset
unfolding instance_type_name
preset_by_name index [] = index
preset_by_name index (p ∷ ps) = preset_by_name (insert (instance_type_name p) p index) ps

abbrev first_or : String → List String → String
first_or fallback [] = fallback
first_or fallback (v ∷ vs) = v

module _ {Price : Type 0} (pkg : Packages Price) (wanted : List Requirement) where
  -- An offering that the loop does not skip.
  unfoldable pub is_candidate : Offering Price → Bool
  is_candidate o = o.available && pkg.is_compatible wanted o.requirements

  unfoldable pub best_offering :
      Option PlatformPreset → Best Price → List (Offering Price) → Best Price
  unfolding is_candidate
  best_offering preset best [] = best
  best_offering preset best (o ∷ os) =
      best_offering preset
        (if is_candidate o && pkg.less o.price best.price
          then record { preset = preset; offering = some o; price = o.price }
          else best)
        os

  unfoldable pub best_of :
      Map String PlatformPreset → Best Price → List (InstanceType Price) → Best Price
  unfolding best_offering
  best_of index best [] = best
  best_of index best (it ∷ its) =
      best_of index
        (if elem it.name (pkg.values wanted pkg.instance_type_key)
          then best_offering (lookup it.name index) best it.offerings
          else best)
        its

  -- What follows the loops.
  unfoldable pub settings_of :
      {Error : Type 0} → NodeClassKey → Best Price → Result (ProviderError Error) LaunchSettings
  settings_of key best = elim best.preset [
    | none ↦ err no_matching_preset
    | some p ↦ elim best.offering [
      | none ↦ err no_matching_preset
      | some o ↦ ok (record {
        platform_preset = p;
        capacity_type = first_or pkg.on_demand (pkg.values o.requirements pkg.capacity_type_key);
        zone = first_or key.region (pkg.values o.requirements pkg.zone_key);
      })
    ]
  ]

  unfoldable pub choose_settings :
      {Error : Type 0}
      → NodeClassKey
      → CachedEntry Price
      → Result (ProviderError Error) LaunchSettings
  unfolding settings_of best_of preset_by_name
  choose_settings key entry = settings_of key (
      best_of (preset_by_name [] entry.presets)
        (record { preset = none; offering = none; price = pkg.max_float64 }) entry.instance_types)
