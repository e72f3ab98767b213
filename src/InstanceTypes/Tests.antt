-- ===== src/InstanceTypes/Tests.antt =====
-- A listing of one platform with two presets, on concrete calls. Prices are natural numbers here,
-- and the cache holds any number of entries.
use mathlib.Core.List.{Memᴰ}
use aks_flex.Common.{
  ℕ, map, ◌≡◌, refl, ◌∙◌, inr, true, false, Option, none, some, List, [], ◌∷◌, String, ok, err,
  ◌==◌, string_eq, elem, if◌then◌else◌, ltb, arith, ==_refl,
}
use aks_flex.Common.Assoc.{Map, lookup, insert, lookup-insert}
use aks_flex.Karpenter.{Requirement, NodeClaim}
use aks_flex.InstanceTypes.{Packages, IsFloatOrder}
use aks_flex.InstanceTypes.Platform.{
  Platform, Preset, PlatformPreset, instance_type_name, join_names, allowed_for_preemptibles,
  memory_gib, architecture,
}
use aks_flex.InstanceTypes.Offerings.{
  price_key_eq, price_key, extract_hourly_price, instance_spec, disk_spec, with_preemptible,
  price_entry, get_prices_from, get_prices, new_offering, create_offerings,
}
use aks_flex.InstanceTypes.Offerings.Table.{lookup-get_prices}
use aks_flex.InstanceTypes.Types.{
  NodeClassKey, node_class_key_eq, available_values, compute_requirements, compute_capacity,
  compute_overhead, new_instance_type,
}
use aks_flex.InstanceTypes.Resolve.{
  CachedEntry, NebiusApi, list_from, list_platform_presets, preset_prices, assemble, assemble_all,
  resolve_presets, resolve,
}
use aks_flex.InstanceTypes.Choice.{
  is_candidate, best_offering, best_of, preset_by_name, settings_of, choose_settings,
}
use aks_flex.InstanceTypes.Provider.{
  Lru, LruLaws, Provider, new_provider, track_key, store_resolved, get_or_resolve_cached_entry,
  get_instance_types, resolve_platform_preset_from_node_claim,
}
use aks_flex.InstanceTypes.Provider.Reached.{Reached, started, got_instance_types, IsGenuine}
use aks_flex.InstanceTypes.Provider.Cached.{Reached-IsSound}
use aks_flex.InstanceTypes.Provider.Launched.{Launched, resolve_platform_preset-Launched}

values_of : List Requirement → String → List String
values_of [] key = []
values_of (r ∷ rs) key = if r.key == key then r.values else values_of rs key

abbrev parse : String → Option ℕ
parse s = if s == "3" then some 3 else (if s == "5" then some 5 else none)

abbrev pkg : Packages ℕ
pkg = record {
  less = ltb;
  default_price = 1000;
  max_float64 = 1000000;
  parse_float = parse;
  sprint = λ n. "n";
  on_demand = "on-demand";
  spot = "spot";
  linux = "linux";
  op_in = "In";
  instance_type_key = "type";
  zone_key = "zone";
  region_key = "region";
  os_key = "os";
  arch_key = "arch";
  capacity_type_key = "capacity";
  sku_cpu_key = "sku-cpu";
  sku_memory_key = "sku-memory";
  aks_cpu_key = "cpu";
  aks_memory_key = "memory";
  sku_gpu_count_key = "gpu";
  is_compatible = λ a b. true;
  values = values_of;
  kube_reserved = λ c m. [];
  system_reserved = [];
  eviction_threshold = [];
}

order : IsFloatOrder pkg
order = record { less_irrefl = λ a. ground arith; less_trans = λ a b c h k. ground arith }

abbrev map_lru : Lru (Map NodeClassKey (CachedEntry ℕ)) (CachedEntry ℕ)
map_lru = record { new = []; get = λ c k. (lookup k c, c); add = λ c k v. insert k v c }

map_lru-laws : LruLaws map_lru
unfolding lookup
map_lru-laws = record {
  get-new = λ k. refl;
  get-get = λ c k j. refl;
  get-add = λ c k v. lookup-insert k k v c ∙ rw (==_refl k) refl;
  get-add_other = λ c k j v q. inr (lookup-insert k j v c ∙ rw (q) refl);
}

abbrev small : Preset
small = record { name = "4vcpu-16gb"; vcpu_count = 4; memory_gibibytes = 16; gpu_count = 0 }

abbrev large : Preset
large = record { name = "8vcpu-32gb"; vcpu_count = 8; memory_gibibytes = 32; gpu_count = 0 }

abbrev cpu : Platform
cpu = record {
  name = "cpu-d3";
  presets = large ∷ small ∷ [];
  gpu_memory_gigabytes = 0;
  allowed_for_preemptibles = false;
}

abbrev pair_of : Preset → PlatformPreset
pair_of p = record { platform = cpu; preset = p }

abbrev api : NebiusApi String
api = record {
  filter = λ project. ok cpu ∷ [];
  estimate_batch = λ i d. if i.preset == "4vcpu-16gb" then ok "3" else ok "5";
}

abbrev key : NodeClassKey
key = record { project_id = "p"; region = "eu"; os_disk_size_gib = 100; per_node_pods_count = 110 }

abbrev claim : NodeClaim
claim = record {
  name = "claim";
  labels = [];
  node_class_ref = none;
  requirements =
      record {
        key = "type";
        operator = "In";
        values = "cpu-d3-8vcpu-32gb" ∷ "cpu-d3-4vcpu-16gb" ∷ [];
      }
      ∷ [];
  requests = [];
  provider_id = "";
  capacity = [];
  allocatable = [];
}

abbrev warm : Provider (Map NodeClassKey (CachedEntry ℕ))
warm = (get_instance_types pkg map_lru api (new_provider map_lru) key).1

abbrev warm-Reached : Reached String pkg map_lru (api ∷ []) warm
warm-Reached = got_instance_types [] (new_provider map_lru) api key started

-- What a run opens.
Run : Unit {0}
unfolding values_of lookup insert elem instance_type_name join_names allowed_for_preemptibles
    memory_gib architecture extract_hourly_price instance_spec disk_spec with_preemptible
    price_entry get_prices_from get_prices new_offering create_offerings available_values
    compute_requirements compute_capacity compute_overhead new_instance_type list_from
    list_platform_presets preset_prices assemble assemble_all resolve_presets resolve is_candidate
    best_offering best_of preset_by_name settings_of choose_settings new_provider track_key
    store_resolved get_or_resolve_cached_entry get_instance_types
    resolve_platform_preset_from_node_claim
Run = tt

resolves_both :
    (elim (resolve pkg api key) [
      | err e ↦ []
      | ok entry ↦ map (λ it. it.name) entry.instance_types
    ])
    ≡ "cpu-d3-8vcpu-32gb" ∷ "cpu-d3-4vcpu-16gb" ∷ []
unfolding Run
resolves_both = refl

launches_the_cheaper :
    (resolve_platform_preset_from_node_claim pkg map_lru api warm key claim).0
    ≡ ok (record { platform_preset = pair_of small; capacity_type = "on-demand"; zone = "eu" })
unfolding Run
launches_the_cheaper = refl

abbrev found_entry : Option (CachedEntry ℕ) → CachedEntry ℕ
found_entry none = record { instance_types = []; presets = [] }
found_entry (some e) = e

warm_hit : (map_lru.get warm.cache key).0 ≡ some (found_entry (map_lru.get warm.cache key).0)
unfolding Run
warm_hit = refl

Reached-IsSound_example :
    IsGenuine String pkg map_lru
      (api ∷ [])
      warm.active_keys
      key
      (found_entry (map_lru.get warm.cache key).0)
Reached-IsSound_example =
    Reached-IsSound String pkg map_lru map_lru-laws (api ∷ []) warm warm-Reached key
      (found_entry (map_lru.get warm.cache key).0) warm_hit

lookup-get_prices_example :
    (q : PlatformPreset) × Memᴰ q (pair_of small ∷ [])
    × (price_key pkg q 100 ≡ price_key pkg (pair_of small) 100)
    × (lookup
          (price_key pkg (pair_of small) 100)
          (get_prices pkg api.estimate_batch "p" 100 (pair_of small ∷ []))
        ≡ some (price_entry pkg api.estimate_batch "p" 100 q))
lookup-get_prices_example =
    lookup-get_prices pkg api.estimate_batch "p" 100 (pair_of small ∷ []) (pair_of small)
      (Memᴰ.head refl)

resolve_platform_preset-Launched_example :
    Launched pkg order map_lru map_lru-laws warm
      (api ∷ [])
      warm-Reached
      api
      key
      claim
      (resolve_platform_preset_from_node_claim pkg map_lru api warm key claim).0
resolve_platform_preset-Launched_example =
    resolve_platform_preset-Launched pkg order map_lru map_lru-laws warm (api ∷ []) warm-Reached api
      key claim
