-- ===== src/InstanceTypes/Offerings.antt =====
-- offerings.go: the offerings of a preset and the prices from the billing calculator. The goroutines
-- of `GetPrices` each write the entry of one preset; here they write in the order of the presets.
pub mod Table
use aks_flex.Common.{
  ℕ, ◌≡◌, Bool, true, false, ◌&&◌, Option, none, some, List, [], ◌∷◌, ◌++◌, String, Result, ok, err,
  Eq, ◌==◌, string_eq, nat_eq, if◌then◌else◌, arith, ◌↔◌,
}
use aks_flex.Common.Assoc.{Map, insert}
use aks_flex.Karpenter.{Requirement}
use aks_flex.InstanceTypes.{Packages}
use aks_flex.InstanceTypes.Platform.{PlatformPreset, allowed_for_preemptibles}

pub record Prices (Price Error : Type 0) : Type 0 where
  pub on_demand : Price
  pub preemptible : Price
  pub error : Option Error

pub record Offering (Price : Type 0) : Type 0 where
  pub price : Price
  pub available : Bool
  pub requirements : List Requirement

-- The two specs of an EstimateBatch request.
pub record InstanceSpec : Type 0 where
  pub parent_id : String
  pub platform : String
  pub preset : String
  pub preemptible : Bool

pub record DiskSpec : Type 0 where
  pub parent_id : String
  pub size_gibibytes : ℕ

-- The billing calculator: the field `cost_rounded` of the answer, or an error.
abbrev pub Calculator : Type 0 → Type 0
Calculator Error = InstanceSpec → DiskSpec → Result Error String

pub record PriceKey : Type 0 where
  pub platform_name : String
  pub preset_name : String
  pub os_disk_size_gib : ℕ

abbrev pub same_price_key : PriceKey → PriceKey → Bool
same_price_key a b =
    a.platform_name == b.platform_name
    && (a.preset_name == b.preset_name && a.os_disk_size_gib == b.os_disk_size_gib)

pub same_price_key_iff : (a b : PriceKey) → (same_price_key a b ≡ true) ↔ (a ≡ b)
same_price_key_iff a b = (
  (λ h. ground (
    arith,
    string_eq.same_iff a.platform_name b.platform_name,
    string_eq.same_iff a.preset_name b.preset_name,
    nat_eq.same_iff a.os_disk_size_gib b.os_disk_size_gib,
  )),
  (λ h. ground (
    arith,
    string_eq.same_iff a.platform_name b.platform_name,
    string_eq.same_iff a.preset_name b.preset_name,
    nat_eq.same_iff a.os_disk_size_gib b.os_disk_size_gib,
  )),
)

instance abbrev pub price_key_eq : Eq PriceKey
price_key_eq = record { same = same_price_key; same_iff = same_price_key_iff }

module _ {Price : Type 0} (pkg : Packages Price) where
  unfoldable pub new_offering : String → String → Price → Bool → Offering Price
  new_offering capacity_type zone price available = record {
    price = price;
    available = available;
    requirements =
        record { key = pkg.capacity_type_key; operator = pkg.op_in; values = capacity_type ∷ [] }
        ∷ record { key = pkg.zone_key; operator = pkg.op_in; values = zone ∷ [] }
        ∷ [];
  }

  abbrev is_ok : {Error : Type 0} → Option Error → Bool
  is_ok none = true
  is_ok (some e) = false

  unfoldable pub create_offerings :
      {Error : Type 0} → PlatformPreset → String → Prices Price Error → List (Offering Price)
  unfolding new_offering allowed_for_preemptibles
  create_offerings p region prices =
      let available = is_ok prices.error in
      new_offering pkg.on_demand region prices.on_demand available
      ∷ (if allowed_for_preemptibles p
          then new_offering pkg.spot region prices.preemptible available ∷ []
          else [])

  unfoldable pub extract_hourly_price : String → Price
  extract_hourly_price cost_str =
      if cost_str == ""
      then pkg.default_price
      else elim (pkg.parse_float cost_str) [ none ↦ pkg.default_price | some price ↦ price ]

  abbrev pub price_key : PlatformPreset → ℕ → PriceKey
  price_key p disk = record {
    platform_name = p.platform.name;
    preset_name = p.preset.name;
    os_disk_size_gib = disk;
  }

  unfoldable pub instance_spec : String → PlatformPreset → Bool → InstanceSpec
  instance_spec parent_id p preemptible = record {
    parent_id = parent_id;
    platform = p.platform.name;
    preset = p.preset.name;
    preemptible = preemptible;
  }

  unfoldable pub disk_spec : String → ℕ → DiskSpec
  disk_spec parent_id size = record { parent_id = parent_id; size_gibibytes = size }

  module _ {Error : Type 0} (calculator : Calculator Error) (parent_id : String) (disk : ℕ) where
    -- The part of a goroutine after the price on demand.
    unfoldable pub with_preemptible : PlatformPreset → Price → Prices Price Error
    unfolding allowed_for_preemptibles instance_spec disk_spec extract_hourly_price
    with_preemptible p price =
        if allowed_for_preemptibles p
        then elim (calculator (instance_spec parent_id p true) (disk_spec parent_id disk)) [
          | ok cost ↦ record {
            on_demand = price;
            preemptible = extract_hourly_price cost;
            error = none;
          }
          | err e ↦ record { on_demand = price; preemptible = pkg.default_price; error = some e }
        ]
        else record { on_demand = price; preemptible = pkg.default_price; error = none }

    -- What the goroutine of a preset computes.
    unfoldable pub price_entry : PlatformPreset → Prices Price Error
    unfolding with_preemptible instance_spec disk_spec extract_hourly_price
    price_entry p = elim (calculator (instance_spec parent_id p false) (disk_spec parent_id disk)) [
      | ok cost ↦ with_preemptible p (extract_hourly_price cost)
      | err e ↦ record {
        on_demand = pkg.default_price;
        preemptible = pkg.default_price;
        error = some e;
      }
    ]

    unfoldable pub get_prices_from :
        Map PriceKey (Prices Price Error) → List PlatformPreset → Map PriceKey (Prices Price Error)
    unfolding price_entry
    get_prices_from prices [] = prices
    get_prices_from prices (p ∷ ps) =
        get_prices_from (insert (price_key p disk) (price_entry p) prices) ps

    unfoldable pub get_prices : List PlatformPreset → Map PriceKey (Prices Price Error)
    unfolding get_prices_from
    get_prices ps = get_prices_from [] ps
