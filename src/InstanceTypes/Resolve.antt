-- ===== src/InstanceTypes/Resolve.antt =====
-- The listing of presets and the assembly of instance types of provider.go. A call is given the
-- Nebius API that it sees.
pub mod Assembled
pub mod Quoted
use aks_flex.Common.{
  ℕ, suc, ◌&&◌, ◌≡◌, ◌⊎◌, Bool, true, false, Option, none, some, List, [], ◌∷◌, ◌++◌, String,
  Result, ok, err, ◌>>=◌, or_err, map_err, map, Eq, ◌==◌, string_eq, elem, if◌then◌else◌,
}
use aks_flex.Common.Assoc.{Map, lookup, insert, keys}
use aks_flex.Karpenter.{Requirement, NodeClaim}
use aks_flex.InstanceTypes.{Packages}
use aks_flex.InstanceTypes.Platform.{
  Platform, Preset, PlatformPreset, LaunchSettings, join_names, instance_type_name,
}
use aks_flex.InstanceTypes.Offerings.{
  Prices, Offering, Calculator, PriceKey, price_key_eq, price_key, create_offerings, get_prices,
}
use aks_flex.InstanceTypes.Types.{NodeClassKey, node_class_key_eq, InstanceType, new_instance_type}

pub record CachedEntry (Price : Type 0) : Type 0 where
  pub instance_types : List (InstanceType Price)
  pub presets : List PlatformPreset

-- `platformService.Filter` as the platforms and the errors that its iterator yields, and the billing
-- calculator.
pub record NebiusApi (Error : Type 0) : Type 0 where
  pub filter : String → List (Result Error Platform)
  pub estimate_batch : Calculator Error

pub data ProviderError (Error : Type 0) : Type 0 where
  listing_platform_presets : String → Error → ProviderError Error
  listing : Error → ProviderError Error
  preset_not_found : String → String → ProviderError Error
  no_instance_type_requirements : ProviderError Error
  resolving_instance_types : ProviderError Error → ProviderError Error
  no_matching_preset : ProviderError Error

presets_of : Platform → List Preset → List PlatformPreset
presets_of platform [] = []
presets_of platform (preset ∷ rest) =
    record { platform = platform; preset = preset } ∷ presets_of platform rest

unfoldable pub list_from :
    {Error : Type 0}
    → List PlatformPreset
    → List (Result Error Platform)
    → Result Error (List PlatformPreset)
unfolding presets_of
list_from presets [] = ok presets
list_from presets (err e ∷ rest) = err e
list_from presets (ok platform ∷ rest) =
    list_from (presets ++ presets_of platform platform.presets) rest

unfoldable pub list_platform_presets :
    {Error : Type 0} → NebiusApi Error → String → Result Error (List PlatformPreset)
unfolding list_from
list_platform_presets api project_id = list_from [] (api.filter project_id)

unfoldable pub find_preset : String → List PlatformPreset → Option PlatformPreset
unfolding instance_type_name
find_preset name [] = none
find_preset name (p ∷ ps) = if instance_type_name p == name then some p else find_preset name ps

module _ {Price Error : Type 0} (pkg : Packages Price) where
  -- The prices of a preset in the answer of GetPrices.
  unfoldable pub preset_prices :
      Map PriceKey (Prices Price Error) → PlatformPreset → ℕ → Prices Price Error
  preset_prices prices p disk = elim (lookup (price_key pkg p disk) prices) [
    | none ↦ record { on_demand = pkg.default_price; preemptible = pkg.default_price; error = none }
    | some entry ↦ entry
  ]

  unfoldable pub assemble :
      NodeClassKey → Map PriceKey (Prices Price Error) → PlatformPreset → InstanceType Price
  unfolding preset_prices
  assemble key prices p =
      new_instance_type pkg key p
        (create_offerings pkg p key.region (preset_prices prices p key.os_disk_size_gib))

  unfoldable pub assemble_all :
      NodeClassKey
      → Map PriceKey (Prices Price Error)
      → List PlatformPreset
      → List (InstanceType Price)
  unfolding assemble
  assemble_all key prices [] = []
  assemble_all key prices (p ∷ ps) = assemble key prices p ∷ assemble_all key prices ps

  unfoldable pub resolve_presets :
      NebiusApi Error → NodeClassKey → List PlatformPreset → CachedEntry Price
  unfolding assemble_all
  resolve_presets api key [] = record { instance_types = []; presets = [] }
  resolve_presets api key (p ∷ ps) =
      let prices = get_prices pkg api.estimate_batch key.project_id key.os_disk_size_gib (p ∷ ps) in
      record { instance_types = assemble_all key prices (p ∷ ps); presets = p ∷ ps }

  unfoldable pub resolve :
      NebiusApi Error → NodeClassKey → Result (ProviderError Error) (CachedEntry Price)
  unfolding resolve_presets list_platform_presets
  resolve api key = elim (list_platform_presets api key.project_id) [
    | err e ↦ err (listing_platform_presets key.project_id e)
    | ok presets ↦ ok (resolve_presets api key presets)
  ]
