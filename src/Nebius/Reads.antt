-- ===== src/Nebius/Reads.antt =====
-- Get, List and GetInstanceTypes of cloudprovider.go.
use aks_flex.Common.{
  none, some, List, [], ◌∷◌, ◌++◌, String, Result, ok, err, map_err, string_eq, if◌then◌else◌,
}
use aks_flex.Karpenter.{NodeClaim, NodePool}
use aks_flex.InstanceTypes.{Packages}
use aks_flex.InstanceTypes.Types.{InstanceType}
use aks_flex.InstanceTypes.Resolve.{CachedEntry}
use aks_flex.InstanceTypes.Provider as Provider
use aks_flex.InstanceTypes.Provider.{
  Lru, get_instance_type_by_platform_preset, get_platform_preset,
  resolve_platform_preset_from_node_claim,
}
use aks_flex.Nebius.{AgentPool, Outside}
use aks_flex.Nebius.NodeClaims.{provider_id_to_agent_pool_name, stretch_agent_pool_to_node_claim}
use aks_flex.Nebius.Calls.{
  Pools, Seen, Refusal, State, get_node_class, create_key, pool_key, with_cloud, with_types,
  resolving, bad_provider_id, node_claim_not_found, pool_error, nil_disk_size,
}

module _ {Price Error PoolError C W : Type 0} (pkg : Packages Price)
    (outside : Outside Price PoolError) (lru : Lru C (CachedEntry Price))
    (pools : Pools PoolError W) where
  -- The NodeClaim of an agent pool, for Get and List.
  unfoldable pub claim_of :
      Seen Error → AgentPool → State C W → Result (Refusal Error PoolError) NodeClaim × State C W
  unfolding pool_key get_platform_preset get_instance_type_by_platform_preset
      stretch_agent_pool_to_node_claim
  claim_of seen pool s =
      let (r, op) =
        get_platform_preset pkg lru seen.api s.instance_types (pool_key pool) pool.platform
          pool.preset in
      elim r [
        | err e ↦ (err (resolving e), with_types s op)
        | ok preset ↦
            let (it, op') =
              get_instance_type_by_platform_preset pkg lru seen.api op (pool_key pool) preset in
            (ok (stretch_agent_pool_to_node_claim pkg outside pool it), with_types s op')
      ]

  -- Get after the call for the agent pool.
  unfoldable pub found_pool :
      Seen Error
      → State C W
      → Result PoolError AgentPool
      → Result (Refusal Error PoolError) NodeClaim × State C W
  unfolding claim_of
  found_pool seen s (ok pool) = claim_of seen pool s
  found_pool seen s (err e) =
      (err (if outside.is_not_found_code e then node_claim_not_found e else pool_error e), s)

  unfoldable pub get :
      Seen Error → String → State C W → Result (Refusal Error PoolError) NodeClaim × State C W
  unfolding found_pool provider_id_to_agent_pool_name
  get seen id s = elim (provider_id_to_agent_pool_name pkg outside id) [
    | err e ↦ (err (bad_provider_id e), s)
    | ok name ↦ let (r, w) = pools.get name s.cloud in found_pool seen (with_cloud s w) r
  ]

  unfoldable pub claims_of :
      Seen Error
      → List NodeClaim
      → List AgentPool
      → State C W
      → Result (Refusal Error PoolError) (List NodeClaim) × State C W
  unfolding claim_of
  claims_of seen claims [] s = (ok claims, s)
  claims_of seen claims (pool ∷ rest) s =
      let (r, s') = claim_of seen pool s in
      elim r [ err e ↦ (err e, s') | ok claim ↦ claims_of seen (claims ++ claim ∷ []) rest s' ]

  unfoldable pub list :
      Seen Error → State C W → Result (Refusal Error PoolError) (List NodeClaim) × State C W
  unfolding claims_of
  list seen s =
      let (r, w) = pools.list s.cloud in
      elim r [
        | err e ↦ (err (pool_error e), with_cloud s w)
        | ok all ↦ claims_of seen [] all (with_cloud s w)
      ]

  unfoldable pub get_instance_types :
      Seen Error
      → NodePool
      → State C W
      → Result (Refusal Error PoolError) (List (InstanceType Price)) × State C W
  unfolding get_node_class create_key Provider.get_instance_types
  get_instance_types seen pool s =
      elim (get_node_class {PoolError = PoolError} seen pool.node_class_ref) [
        | err e ↦ (err e, s)
        | ok node_class ↦ elim node_class.os_disk_size_gb [
          | none ↦ (err nil_disk_size, s)
          | some size ↦
              let (r, op) =
                Provider.get_instance_types pkg lru seen.api s.instance_types
                  (create_key node_class) in
              (map_err resolving r, with_types s op)
        ]
      ]
