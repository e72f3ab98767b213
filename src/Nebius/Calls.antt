-- ===== src/Nebius/Calls.antt =====
-- What the calls of cloudprovider.go work on: the provider's state, the client of the agent pools,
-- what a call reads, and how it fails; `IsQuotaError` is in api.go. Each call is given what it reads
-- from the API server, the informer cache, the random source and the Nebius API.
use aks_flex.Common.{
  ℕ, Bool, ◌||◌, Option, none, some, List, String, Result, ok, err, ◌==◌, string_eq, if◌then◌else◌,
}
use aks_flex.Karpenter.{NodeClassRef, NodeClaim}
use aks_flex.Wireguard.Allocator.{IpAllocator, Cache, AllocateError}
use aks_flex.InstanceTypes.Types.{NodeClassKey}
use aks_flex.InstanceTypes.Resolve.{NebiusApi, ProviderError}
use aks_flex.InstanceTypes.Provider as Provider
use aks_flex.InstanceTypes.Provider.{
  Lru, get_instance_type_by_platform_preset, get_platform_preset,
  resolve_platform_preset_from_node_claim,
}
use aks_flex.Nebius.{NebiusNodeClass, AgentPool, Outside}
use aks_flex.Nebius.NodeClaims.{ProviderIdError, from_ptr_or}

-- The client of the plugin's agent pools.
pub record Pools (PoolError W : Type 0) : Type 0 where
  pub create_or_update : AgentPool → W → Result PoolError AgentPool × W
  pub get : String → W → Result PoolError AgentPool × W
  pub list : W → Result PoolError (List AgentPool) × W
  pub delete : String → W → Result PoolError (Unit {0}) × W

-- What one call reads: a NebiusNodeClass by name, `none` for an error of the client, and the rest.
pub record Seen (Error : Type 0) : Type 0 where
  pub node_class : String → Option NebiusNodeClass
  pub cache : Cache
  pub rand : ℕ → ℕ
  pub api : NebiusApi Error

pub data Refusal (Error PoolError : Type 0) : Type 0 where
  no_node_class_ref : Refusal Error PoolError
  unexpected_group : String → Refusal Error PoolError
  getting_node_class : String → Refusal Error PoolError
  node_class_terminating : String → Refusal Error PoolError
  resolving : ProviderError Error → Refusal Error PoolError
  allocating : AllocateError → Refusal Error PoolError
  insufficient_capacity : PoolError → Refusal Error PoolError
  creating : PoolError → Refusal Error PoolError
  bad_provider_id : ProviderIdError → Refusal Error PoolError
  node_claim_not_found : PoolError → Refusal Error PoolError
  pool_error : PoolError → Refusal Error PoolError
  deleting : PoolError → Refusal Error PoolError
  -- the panic of a nil OSDiskSizeGB
  nil_disk_size : Refusal Error PoolError

-- The provider's state, the cloud behind the plugin, and the clean-ups that have been started.
pub record State (C W : Type 0) : Type 0 where
  pub allocator : IpAllocator
  pub instance_types : Provider.Provider C
  pub cloud : W
  pub clean_ups : List NodeClaim

unfoldable pub get_node_class :
    {Error PoolError : Type 0}
    → Seen Error
    → Option NodeClassRef
    → Result (Refusal Error PoolError) NebiusNodeClass
get_node_class seen none = err no_node_class_ref
get_node_class seen (some r) =
    if r.group == "flex.aks.azure.com"
    then elim (seen.node_class r.name) [
      | none ↦ err (getting_node_class r.name)
      | some rv ↦ if rv.terminating then err (node_class_terminating rv.name) else ok rv
    ]
    else err (unexpected_group r.group)

unfoldable pub create_key : NebiusNodeClass → NodeClassKey
create_key node_class = record {
  project_id = node_class.project_id;
  region = node_class.region;
  os_disk_size_gib = from_ptr_or node_class.os_disk_size_gb 100;
  per_node_pods_count = from_ptr_or node_class.max_pods_per_node 110;
}

unfoldable pub pool_key : AgentPool → NodeClassKey
pool_key pool = record {
  project_id = pool.project_id;
  region = pool.region;
  os_disk_size_gib = pool.os_disk_size_gibibytes;
  per_node_pods_count = 110;
}

unfoldable pub is_quota_error :
    {Price PoolError : Type 0} → Outside Price PoolError → PoolError → Bool
is_quota_error outside e =
    outside.contains (outside.error_text e) "Quota failure"
    || (outside.contains (outside.error_text e) "Not enough resources"
        || outside.contains (outside.error_text e) "insufficient capacity")

-- The state after a call that has changed the cloud, and after one that has used instance types.
abbrev pub with_cloud : {C W : Type 0} → State C W → W → State C W
with_cloud s w = record {
  allocator = s.allocator;
  instance_types = s.instance_types;
  cloud = w;
  clean_ups = s.clean_ups;
}

abbrev pub with_types : {C W : Type 0} → State C W → Provider.Provider C → State C W
with_types s op = record {
  allocator = s.allocator;
  instance_types = op;
  cloud = s.cloud;
  clean_ups = s.clean_ups;
}
