-- ===== src/InstanceTypes/Resolve/Assembled.antt =====
-- The entry that `resolve` makes for a key.
use Prim.Native.String.{◌++◌ as concat}
use mathlib.Core.List.{Memᴰ}
use aks_flex.Common.{
  ℕ, ◌≡◌, refl, ap, ◌∙◌, some, List, [], ◌∷◌, Result, ok, err, string_eq, Result-cases, inl, inr,
}
use aks_flex.Common.Assoc.{Map, lookup}
use aks_flex.InstanceTypes.{Packages}
use aks_flex.InstanceTypes.Platform.{instance_type_name, join_names, PlatformPreset}
use aks_flex.InstanceTypes.Offerings.{
  Prices, PriceKey, price_key_eq, price_key, get_prices, create_offerings,
}
use aks_flex.InstanceTypes.Offerings.Table.{lookup-get_prices}
use aks_flex.InstanceTypes.Types.{NodeClassKey, InstanceType, new_instance_type}
use aks_flex.InstanceTypes.Resolve.{
  CachedEntry, NebiusApi, ProviderError, listing_platform_presets, list_platform_presets,
  preset_prices, assemble, assemble_all, resolve_presets, resolve,
}
use aks_flex.InstanceTypes.Resolve.Quoted.{
  entry_of, AreQuoted, entry_of-AreQuoted, all_offered, all_offered-eq,
}

preset_prices-found :
    {Price Error : Type 0} (pkg : Packages Price) (prices : Map PriceKey (Prices Price Error))
    (p : PlatformPreset) (disk : ℕ) (e : Prices Price Error)
    → lookup (price_key pkg p disk) prices ≡ some e
    → preset_prices pkg prices p disk ≡ e
unfolding preset_prices
preset_prices-found pkg prices p disk e l = rw (preset_prices, l) refl

module _ {Price Error : Type 0} (pkg : Packages Price) (api : NebiusApi Error)
    (key : NodeClassKey) where
  -- The instance type of a preset, with the offerings for the prices that the calculator gave for a
  -- preset of the listing with the same names.
  pub data IsPriced (all : List PlatformPreset) (p : PlatformPreset) (it : InstanceType Price)
      : Type 0 where
    priced :
        (q : PlatformPreset)
        → Memᴰ q all
        → price_key pkg q key.os_disk_size_gib ≡ price_key pkg p key.os_disk_size_gib
        → (prices : Prices Price Error) → AreQuoted pkg api key q prices
        → it.name ≡ concat (concat p.platform.name "-") p.preset.name
        → it.offerings ≡ all_offered pkg api key p prices
        → it ≡ new_instance_type pkg key p (all_offered pkg api key p prices)
        → IsPriced all p it

  pub data ArePriced (all : List PlatformPreset)
      : List PlatformPreset → List (InstanceType Price) → Type 0 where
    priced_none : ArePriced all [] []
    priced_one :
        (p : PlatformPreset) (ps : List PlatformPreset) (it : InstanceType Price)
        (its : List (InstanceType Price))
        → IsPriced all p it
        → ArePriced all ps its
        → ArePriced all (p ∷ ps) (it ∷ its)

  assemble-IsPriced :
      (all : List PlatformPreset) (p : PlatformPreset)
      → Memᴰ p all
      → IsPriced all p (
          assemble pkg key
            (get_prices pkg api.estimate_batch key.project_id key.os_disk_size_gib all)
            p)
  unfolding assemble new_instance_type instance_type_name join_names
  assemble-IsPriced all p m =
      let (q, k, e, l) =
        lookup-get_prices pkg api.estimate_batch key.project_id key.os_disk_size_gib all p m in
      let same =
        (ap (λ x. create_offerings pkg p key.region x)
            (preset_prices-found pkg
              (get_prices pkg api.estimate_batch key.project_id key.os_disk_size_gib all) p
              key.os_disk_size_gib (entry_of pkg api key q) l)
          ∙ all_offered-eq pkg api key p (entry_of pkg api key q)) in
      priced q k e (entry_of pkg api key q) (entry_of-AreQuoted pkg api key q) refl same
        (ap (new_instance_type pkg key p) same)

  assemble_all-ArePriced :
      (all ps : List PlatformPreset)
      → ((p : PlatformPreset) → Memᴰ p ps → Memᴰ p all)
      → ArePriced all ps (
          assemble_all pkg key
            (get_prices pkg api.estimate_batch key.project_id key.os_disk_size_gib all)
            ps)
  unfolding assemble_all
  assemble_all-ArePriced all [] h = priced_none
  assemble_all-ArePriced all (p ∷ ps) h =
      let prices = get_prices pkg api.estimate_batch key.project_id key.os_disk_size_gib all in
      priced_one p ps (assemble pkg key prices p) (assemble_all pkg key prices ps)
        (assemble-IsPriced all p (h p (Memᴰ.head refl)))
        (assemble_all-ArePriced all ps (λ p' m. h p' (Memᴰ.tail m)))

  -- The presets of the listing, in its order, each with its instance type.
  abbrev pub IsResolved : CachedEntry Price → Type 0
  IsResolved entry =
      (list_platform_presets api key.project_id ≡ ok entry.presets)
      × ArePriced entry.presets entry.presets entry.instance_types

  resolve_presets-ArePriced :
      (ps : List PlatformPreset)
      → ((resolve_presets pkg api key ps).presets ≡ ps)
        × ArePriced ps ps (resolve_presets pkg api key ps).instance_types
  unfolding resolve_presets
  resolve_presets-ArePriced [] = (refl, priced_none)
  resolve_presets-ArePriced (p ∷ ps) = (refl, assemble_all-ArePriced (p ∷ ps) (p ∷ ps) (λ q m. m))

  -- `resolve` fails with the listing's error, or resolves all that it has listed.
  pub data Resolution : Result (ProviderError Error) (CachedEntry Price) → Type 0 where
    listing_failed :
        (e : Error)
        → list_platform_presets api key.project_id ≡ err e
        → Resolution (err (listing_platform_presets key.project_id e))
    resolved : (entry : CachedEntry Price) → IsResolved entry → Resolution (ok entry)

  pub resolve-Resolution : Resolution (resolve pkg api key)
  unfolding resolve
  resolve-Resolution = elim (Result-cases (list_platform_presets api key.project_id)) [
    | inl (ps, e) ↦
        let (same, all) = resolve_presets-ArePriced ps in
        rw (e, resolve) (resolved (resolve_presets pkg api key ps) (rw (same) (e, all)))
    | inr (why, e) ↦ rw (e, resolve) (listing_failed why e)
  ]

  pub resolve-IsResolved :
      (entry : CachedEntry Price) → resolve pkg api key ≡ ok entry → IsResolved entry
  resolve-IsResolved entry h = from (resolve pkg api key) resolve-Resolution h
    where
      from :
          (r : Result (ProviderError Error) (CachedEntry Price))
          → Resolution r
          → r ≡ ok entry
          → IsResolved entry
      from (err e) s q = absurd (clash q)
        where
          clash : err e ≡ ok entry → ⊥
          clash x = cc
      from (ok other) (resolved _ s) q = let e : other ≡ entry = cc in rw (e) at s
