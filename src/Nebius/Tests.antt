-- ===== src/Nebius/Tests.antt =====
-- Create, Delete and Get on a cloud that counts its calls and refuses every creation for its quota.
use Prim.Native.String.{◌++◌ as concat}
use aks_flex.Common.{
  ℕ, ◌+◌, ◌≡◌, refl, false, none, some, [], ◌∷◌, String, ok, err, string_eq, elem,
}
use aks_flex.Common.Assoc.{Map, lookup, insert}
use aks_flex.Karpenter.{NodeClaim}
use aks_flex.Wireguard.Allocator.{not_found}
use aks_flex.InstanceTypes.Platform.{
  Preset, Platform, instance_type_name, join_names, allowed_for_preemptibles, memory_gib,
  architecture,
}
use aks_flex.InstanceTypes.Offerings.{
  extract_hourly_price, instance_spec, disk_spec, with_preemptible, price_entry, get_prices_from,
  get_prices, new_offering, create_offerings,
}
use aks_flex.InstanceTypes.Types.{
  NodeClassKey, node_class_key_eq, InstanceType, available_values, compute_requirements,
  compute_capacity, compute_overhead, new_instance_type,
}
use aks_flex.InstanceTypes.Resolve.{
  CachedEntry, list_from, list_platform_presets, preset_prices, assemble, assemble_all,
  resolve_presets, resolve,
}
use aks_flex.InstanceTypes.Choice.{
  is_candidate, best_offering, best_of, preset_by_name, settings_of, choose_settings,
}
use aks_flex.InstanceTypes.Provider.{
  Lru, track_key, store_resolved, get_or_resolve_cached_entry,
  resolve_platform_preset_from_node_claim,
}
use aks_flex.Nebius.Fixture.{pkg, outside, net, cluster}
use aks_flex.Nebius.{NebiusNodeClass, AgentPool, on_demand}
use aks_flex.Nebius.NodeClaims.{
  stretch_agent_pool_to_node_claim, node_claim_to_stretch_agent_pool, kubeadm_config,
  capacity_type_of, copy_labels,
}
use aks_flex.Nebius.Calls.{
  get_node_class, create_key, is_quota_error, Pools, Seen, State, insufficient_capacity,
}
use aks_flex.Nebius.CloudProvider.{
  launched, launch, allocate_and_launch, delete_cloud, clean_up, create,
}
use aks_flex.Nebius.Reads.{get}
use aks_flex.Nebius.CloudProvider.Clean.{clean_up-create}
use aks_flex.Nebius.CloudProvider.Found.{Deleted, Got, provider_id_names_pool}

abbrev map_lru : Lru (Map NodeClassKey (CachedEntry ℕ)) (CachedEntry ℕ)
map_lru = record { new = []; get = λ c k. (lookup k c, c); add = λ c k v. insert k v c }

-- The cloud is the number of its calls.
abbrev pools : Pools String ℕ
pools = record {
  create_or_update = λ pool w. (err "Quota failure", w + 1);
  get = λ name w. (err "not found", w + 1);
  list = λ w. (ok [], w + 1);
  delete = λ name w. (ok tt, w + 1);
}

abbrev small : Preset
small = record { name = "small"; vcpu_count = 4; memory_gibibytes = 16; gpu_count = 0 }

abbrev cpu : Platform
cpu = record {
  name = "cpu";
  presets = small ∷ [];
  gpu_memory_gigabytes = 0;
  allowed_for_preemptibles = false;
}

abbrev node_class : NebiusNodeClass
node_class = record {
  name = "default";
  terminating = false;
  project_id = "p";
  region = "eu";
  subnet_id = "s";
  os_disk_size_gb = none;
  os_disk_image_family = none;
  wireguard_peer_cidr = none;
  max_pods_per_node = none;
}

abbrev seen : Seen String
seen = record {
  node_class = λ name. some node_class;
  cache = record { list = λ c. some []; get = λ n. not_found };
  rand = λ n. 0;
  api = record { filter = λ project. ok cpu ∷ []; estimate_batch = λ i d. ok "3" };
}

abbrev claim : NodeClaim
claim = record {
  name = "claim";
  labels = [];
  node_class_ref =
      some (record { group = "flex.aks.azure.com"; kind = "NebiusNodeClass"; name = "default" });
  requirements = [];
  requests = [];
  provider_id = "";
  capacity = [];
  allocatable = [];
}

abbrev start : State (Map NodeClassKey (CachedEntry ℕ)) ℕ
start = record {
  allocator = record { pre_allocated = [] };
  instance_types = record { cache = []; active_keys = [] };
  cloud = 0;
  clean_ups = [];
}

abbrev it : InstanceType ℕ
it = record {
  name = "cpu-small";
  requirements = [];
  offerings = [];
  capacity = [];
  overhead = record { kube_reserved = []; system_reserved = []; eviction_threshold = [] };
}

abbrev pool : AgentPool
pool = record {
  id = "pool";
  project_id = "p";
  region = "eu";
  subnet_id = "s";
  platform = "cpu";
  preset = "small";
  image_family = "ubuntu24.04-driverless";
  os_disk_size_gibibytes = 100;
  zone = "";
  kubeadm = record {
    server = "";
    certificate_authority_data = "";
    token = "";
    node_labels = [];
    register_with_taints = [];
    node_ip = "";
  };
  wireguard = none;
  has_gpu_config = false;
  capacity = 1;
  capacity_type = on_demand;
  kubernetes_version = "1.33.0";
}

clean_up-create_example :
    (clean_up String pkg outside pools
      (create pkg outside map_lru net cluster pools seen claim start).1).cloud
    ≡ (create pkg outside map_lru net cluster pools seen claim start).1.cloud
clean_up-create_example =
    clean_up-create pkg outside map_lru net cluster pools seen claim start refl refl

parses : outside.parse_url (concat "aks-nebius://" pool.id) ≡ some ("aks-nebius", pool.id)
parses = refl

provider_id_names_pool_example :
    ((stretch_agent_pool_to_node_claim pkg outside pool it).provider_id
      ≡ concat "aks-nebius://" pool.id)
    × Deleted pkg outside map_lru pools seen pool it parses start.cloud (
        delete_cloud String pkg outside pools
          (stretch_agent_pool_to_node_claim pkg outside pool it)
          start.cloud)
    × Got pkg outside map_lru pools seen pool it parses start (
        get pkg outside map_lru pools seen
          (stretch_agent_pool_to_node_claim pkg outside pool it).provider_id
          start)
provider_id_names_pool_example =
    provider_id_names_pool pkg outside map_lru pools seen pool it parses start

-- What a run opens.
Run : Unit {0}
unfolding lookup insert elem instance_type_name join_names allowed_for_preemptibles memory_gib
    architecture extract_hourly_price instance_spec disk_spec with_preemptible price_entry
    get_prices_from get_prices new_offering create_offerings available_values compute_requirements
    compute_capacity compute_overhead new_instance_type list_from list_platform_presets
    preset_prices assemble assemble_all resolve_presets resolve is_candidate best_offering best_of
    preset_by_name settings_of choose_settings track_key store_resolved get_or_resolve_cached_entry
    resolve_platform_preset_from_node_claim get_node_class create_key
    node_claim_to_stretch_agent_pool kubeadm_config capacity_type_of copy_labels is_quota_error
    launched launch allocate_and_launch create delete_cloud clean_up
Run = tt

quota_is_reported :
    (create pkg outside map_lru net cluster pools seen claim start).0
    ≡ err (insufficient_capacity "Quota failure")
unfolding Run
quota_is_reported = refl

clean_up_is_pending :
    (create pkg outside map_lru net cluster pools seen claim start).1.clean_ups ≡ claim ∷ []
unfolding Run
clean_up_is_pending = refl
