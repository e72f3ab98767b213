-- ===== src/InstanceTypes/Resolve/Quoted.antt =====
-- The prices that the calculator gives for a preset, and the offerings for them.
use mathlib.Core.Path.{subst}
use aks_flex.Common.{
  ◌≡◌, refl, sym, Option, none, some, Bool, true, false, String, List, [], ◌∷◌, Result, ok, err,
  ◌==◌, string_eq, if◌then◌else◌, Result-cases, Bool-cases, Option-cases, inl, inr,
}
use aks_flex.InstanceTypes.{Packages}
use aks_flex.InstanceTypes.Platform.{PlatformPreset, allowed_for_preemptibles}
use aks_flex.InstanceTypes.Offerings.{
  Prices, Offering, price_key_eq, price_entry, with_preemptible, instance_spec, disk_spec,
  extract_hourly_price, new_offering, create_offerings,
}
use aks_flex.InstanceTypes.Types.{NodeClassKey}
use aks_flex.InstanceTypes.Resolve.{NebiusApi}

module _ {Price Error : Type 0} (pkg : Packages Price) (api : NebiusApi Error)
    (key : NodeClassKey) where
  abbrev pub entry_of : PlatformPreset → Prices Price Error
  entry_of p = price_entry pkg api.estimate_batch key.project_id key.os_disk_size_gib p

  -- The answer of the calculator for a preset, and the price of an answer.
  abbrev pub estimate : PlatformPreset → Bool → Result Error String
  estimate q preemptible =
      api.estimate_batch
        (record {
          parent_id = key.project_id;
          platform = q.platform.name;
          preset = q.preset.name;
          preemptible = preemptible;
        })
        (record { parent_id = key.project_id; size_gibibytes = key.os_disk_size_gib })

  abbrev pub parsed : Option Price → Price
  parsed none = pkg.default_price
  parsed (some price) = price

  abbrev pub hourly : String → Price
  hourly cost = if cost == "" then pkg.default_price else parsed (pkg.parse_float cost)

  -- The prices that the calculator gives for a preset: the default one where it fails or is not
  -- asked.
  pub data AreQuoted (q : PlatformPreset) : Prices Price Error → Type 0 where
    not_estimated :
        (why : Error)
        → estimate q false ≡ err why
        → AreQuoted q (record {
          on_demand = pkg.default_price;
          preemptible = pkg.default_price;
          error = some why;
        })
    on_demand_only :
        (cost : String)
        → estimate q false ≡ ok cost
        → allowed_for_preemptibles q ≡ false
        → AreQuoted q
            (record { on_demand = hourly cost; preemptible = pkg.default_price; error = none })
    preemptible_failed :
        (cost : String) (why : Error)
        → estimate q false ≡ ok cost
        → allowed_for_preemptibles q ≡ true
        → estimate q true ≡ err why
        → AreQuoted q
            (record { on_demand = hourly cost; preemptible = pkg.default_price; error = some why })
    both :
        (cost spot_cost : String)
        → estimate q false ≡ ok cost
        → allowed_for_preemptibles q ≡ true
        → estimate q true ≡ ok spot_cost
        → AreQuoted q
            (record { on_demand = hourly cost; preemptible = hourly spot_cost; error = none })

  extract_hourly_price-hourly : (cost : String) → extract_hourly_price pkg cost ≡ hourly cost
  unfolding extract_hourly_price
  extract_hourly_price-hourly cost = elim (Bool-cases (cost == "")) [
    | inl q ↦ rw (extract_hourly_price, q) refl
    | inr q ↦ elim (Option-cases (pkg.parse_float cost)) [
      | inl k ↦ rw (extract_hourly_price, q, k) refl
      | inr (price, k) ↦ rw (extract_hourly_price, q, k) refl
    ]
  ]

  with_preemptible-AreQuoted :
      (q : PlatformPreset) (cost : String)
      → estimate q false ≡ ok cost
      → AreQuoted q (
          with_preemptible pkg api.estimate_batch key.project_id key.os_disk_size_gib q
            (hourly cost))
  unfolding with_preemptible instance_spec disk_spec
  with_preemptible-AreQuoted q cost h = elim (Bool-cases (allowed_for_preemptibles q)) [
    | inr k ↦ subst (AreQuoted q) (sym (rw (with_preemptible, k) refl)) (on_demand_only cost h k)
    | inl k ↦ elim (Result-cases (estimate q true)) [
      | inr (why, l) ↦
          subst (AreQuoted q) (sym (rw (with_preemptible, k, l) refl))
            (preemptible_failed cost why h k l)
      | inl (spot_cost, l) ↦
          subst (AreQuoted q)
            (sym (rw (with_preemptible, k, l, extract_hourly_price-hourly spot_cost) refl))
            (both cost spot_cost h k l)
    ]
  ]

  pub entry_of-AreQuoted : (q : PlatformPreset) → AreQuoted q (entry_of q)
  unfolding price_entry instance_spec disk_spec
  entry_of-AreQuoted q = elim (Result-cases (estimate q false)) [
    | inr (why, h) ↦ rw (price_entry, h) (not_estimated why h)
    | inl (cost, h) ↦
        rw (price_entry, h, extract_hourly_price-hourly cost) (with_preemptible-AreQuoted q cost h)
  ]

  -- The offerings of a preset: on demand, and spot where it is allowed, in the region; they are
  -- available where the calculator gave no error.
  abbrev pub no_error : Option Error → Bool
  no_error none = true
  no_error (some e) = false

  abbrev pub offered : String → Price → Option Error → Offering Price
  offered capacity_type price why = record {
    price = price;
    available = no_error why;
    requirements =
        record { key = pkg.capacity_type_key; operator = pkg.op_in; values = capacity_type ∷ [] }
        ∷ record { key = pkg.zone_key; operator = pkg.op_in; values = key.region ∷ [] }
        ∷ [];
  }

  abbrev pub all_offered : PlatformPreset → Prices Price Error → List (Offering Price)
  all_offered p prices =
      offered pkg.on_demand prices.on_demand prices.error
      ∷ (if allowed_for_preemptibles p
          then offered pkg.spot prices.preemptible prices.error ∷ []
          else [])

  pub all_offered-eq :
      (p : PlatformPreset) (prices : Prices Price Error)
      → create_offerings pkg p key.region prices ≡ all_offered p prices
  unfolding create_offerings new_offering
  all_offered-eq p prices = elim (Option-cases prices.error) [
    | inl q ↦ rw (create_offerings, q) refl
    | inr (e, q) ↦ rw (create_offerings, q) refl
  ]
