-- ===== src/Nebius/CloudProvider.antt =====
-- Create and Delete of cloudprovider.go. The clean-up that Create starts in a goroutine is a pending
-- step.
pub mod Clean
pub mod Found
use aks_flex.Common.{
  ℕ, ◌≡◌, Bool, true, false, not, ◌||◌, Option, none, some, List, [], ◌∷◌, ◌++◌, String, Result, ok,
  err, ◌>>=◌, or_err, map_err, Eq, ◌==◌, string_eq, if◌then◌else◌,
}
use aks_flex.Common.Assoc.{Map}
use aks_flex.Karpenter.{GroupKind, NodeClassRef, NodeClaim, NodePool}
use aks_flex.Wireguard.Net.{Net}
use aks_flex.Wireguard.Allocator.{IpAllocator, Cache, AllocateError, allocate_ip}
use aks_flex.InstanceTypes.{Packages}
use aks_flex.InstanceTypes.Platform.{PlatformPreset, LaunchSettings}
use aks_flex.InstanceTypes.Types.{NodeClassKey, InstanceType}
use aks_flex.InstanceTypes.Resolve.{CachedEntry, NebiusApi, ProviderError}
use aks_flex.InstanceTypes.Provider as Provider
use aks_flex.InstanceTypes.Provider.{
  Lru, get_instance_type_by_platform_preset, get_platform_preset,
  resolve_platform_preset_from_node_claim,
}
use aks_flex.Nebius.{NebiusNodeClass, AgentPool, Cluster, Outside}
use aks_flex.Nebius.NodeClaims.{
  ProviderIdError, copy_labels, from_ptr_or, provider_id_to_agent_pool_name,
  stretch_agent_pool_to_node_claim, node_claim_to_stretch_agent_pool,
}
use aks_flex.Nebius.Calls.{
  Pools, Seen, Refusal, State, get_node_class, create_key, pool_key, is_quota_error, with_cloud,
  with_types, no_node_class_ref, unexpected_group, getting_node_class, node_class_terminating,
  resolving, allocating, insufficient_capacity, creating, bad_provider_id, node_claim_not_found,
  pool_error, deleting, nil_disk_size,
}

module _ (Error : Type 0) {Price PoolError W : Type 0} (pkg : Packages Price)
    (outside : Outside Price PoolError) (pools : Pools PoolError W) where
  -- Delete after the provider ID has been read.
  unfoldable pub delete_pool : String → W → Result (Refusal Error PoolError) (Unit {0}) × W
  delete_pool name w =
      let (found, w') = pools.get name w in
      let (deleted, w'') = pools.delete name w' in
      elim found [
        | ok pool ↦ (map_err deleting deleted, w'')
        | err e ↦
            if outside.is_not_found_code e
            then (err (node_claim_not_found e), w')
            else (map_err deleting deleted, w'')
      ]

  unfoldable pub delete_cloud : NodeClaim → W → Result (Refusal Error PoolError) (Unit {0}) × W
  unfolding delete_pool provider_id_to_agent_pool_name
  delete_cloud claim w =
      if claim.provider_id == ""
      then (ok tt, w)
      else elim (provider_id_to_agent_pool_name pkg outside claim.provider_id) [
        | err e ↦ (ok tt, w)
        | ok name ↦ delete_pool name w
      ]

  unfoldable pub delete :
      {C : Type 0} → NodeClaim → State C W → Result (Refusal Error PoolError) (Unit {0}) × State C W
  unfolding delete_cloud
  delete claim s = let (r, w) = delete_cloud claim s.cloud in (r, with_cloud s w)

  -- The goroutine of the oldest pending clean-up.
  unfoldable pub clean_up : {C : Type 0} → State C W → State C W
  unfolding delete_cloud
  clean_up s = elim s.clean_ups [
    | [] ↦ s
    | claim ∷ rest ↦ record {
      allocator = s.allocator;
      instance_types = s.instance_types;
      cloud = (delete_cloud claim s.cloud).1;
      clean_ups = rest;
    }
  ]

module _ {Price Error PoolError C W : Type 0} (pkg : Packages Price)
    (outside : Outside Price PoolError) (lru : Lru C (CachedEntry Price)) (net : Net)
    (cluster : Cluster) (pools : Pools PoolError W) where
  -- Create after the agent pool has been asked for.
  unfoldable pub launched :
      Seen Error
      → NodeClassKey
      → LaunchSettings
      → NodeClaim
      → State C W
      → Result PoolError AgentPool
      → Result (Refusal Error PoolError) NodeClaim × State C W
  unfolding is_quota_error get_instance_type_by_platform_preset stretch_agent_pool_to_node_claim
      copy_labels
  launched seen key settings claim s (err e) =
      if is_quota_error outside e
      then (
        err (insufficient_capacity e),
        record {
          allocator = s.allocator;
          instance_types = s.instance_types;
          cloud = s.cloud;
          clean_ups = s.clean_ups ++ claim ∷ [];
        },
      )
      else (err (creating e), s)
  launched seen key settings claim s (ok pool) =
      let (it, op) =
        get_instance_type_by_platform_preset pkg lru seen.api s.instance_types key
          settings.platform_preset in
      let made = stretch_agent_pool_to_node_claim pkg outside pool it in
      (
        ok (record {
          name = made.name;
          labels =
              copy_labels made.labels (outside.well_known_single_valued_labels claim.requirements);
          node_class_ref = made.node_class_ref;
          requirements = made.requirements;
          requests = made.requests;
          provider_id = made.provider_id;
          capacity = made.capacity;
          allocatable = made.allocatable;
        }),
        with_types s op,
      )

  -- Create once the settings and the peer IP are known.
  unfoldable pub launch :
      Seen Error
      → NebiusNodeClass
      → LaunchSettings
      → NodeClaim
      → Option String
      → State C W
      → Result (Refusal Error PoolError) NodeClaim × State C W
  unfolding launched node_claim_to_stretch_agent_pool create_key
  launch seen node_class settings claim wireguard s =
      let pool =
        node_claim_to_stretch_agent_pool pkg outside cluster node_class claim settings wireguard in
      let (created, w) = pools.create_or_update pool s.cloud in
      launched seen (create_key node_class) settings claim (with_cloud s w) created

  -- Create once the settings are known.
  unfoldable pub allocate_and_launch :
      Seen Error
      → NebiusNodeClass
      → NodeClaim
      → LaunchSettings
      → State C W
      → Result (Refusal Error PoolError) NodeClaim × State C W
  unfolding launch allocate_ip
  allocate_and_launch seen node_class claim settings s = elim node_class.wireguard_peer_cidr [
    | none ↦ launch seen node_class settings claim none s
    | some cidr ↦
        let (r, a) =
          allocate_ip net seen.rand seen.cache s.allocator cidr node_class.name claim.name in
        let s' : State C W = record {
          allocator = a;
          instance_types = s.instance_types;
          cloud = s.cloud;
          clean_ups = s.clean_ups;
        } in
        elim r [
          | err e ↦ (err (allocating e), s')
          | ok ip ↦ launch seen node_class settings claim (some ip) s'
        ]
  ]

  unfoldable pub create :
      Seen Error → NodeClaim → State C W → Result (Refusal Error PoolError) NodeClaim × State C W
  unfolding get_node_class create_key allocate_and_launch resolve_platform_preset_from_node_claim
  create seen claim s = elim (get_node_class {PoolError = PoolError} seen claim.node_class_ref) [
    | err e ↦ (err e, s)
    | ok node_class ↦
        let (r, op) =
          resolve_platform_preset_from_node_claim pkg lru seen.api s.instance_types
            (create_key node_class) claim in
        let s' : State C W = with_types s op in
        elim r [
          | err e ↦ (err (resolving e), s')
          | ok settings ↦ allocate_and_launch seen node_class claim settings s'
        ]
  ]
