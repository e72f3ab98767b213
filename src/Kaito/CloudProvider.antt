-- ===== src/Kaito/CloudProvider.antt =====
-- cloudprovider.go of the Kaito provider. IsQuotaError and IsNotFound are those of the Nebius
-- provider. The clean-up that Create starts in a goroutine is a pending step; GetInstanceTypes
-- always panics, and is left out.
use aks_flex.Common.{
  ℕ, List, [], ◌∷◌, ◌++◌, map, String, Result, ok, err, ◌>>=◌, map_err, ◌==◌, string_eq,
  if◌then◌else◌,
}
use aks_flex.Karpenter.{NodeClaim}
use aks_flex.Wireguard.Net.{Net}
use aks_flex.Wireguard.Allocator.{IpAllocator, Cache}
use aks_flex.InstanceTypes.{Packages}
use aks_flex.Nebius.{AgentPool, Cluster, Outside}
use aks_flex.Nebius.NodeClaims.{copy_labels}
use aks_flex.Nebius.Calls.{Pools, is_quota_error}
use aks_flex.Kaito.{
  KaitoOptions, KaitoError, insufficient_capacity, creating, deleting, node_claim_not_found,
  pool_error, NodeClaimRequirements, Settings, validate, provider_id_to_agent_pool_name,
  resolve_node_claim_requirements, resolve_nebius_agent_pool_settings,
  node_claim_to_nebius_agent_pool, stretch_agent_pool_to_node_claim,
}

-- The provider's allocator, the cloud behind the plugin, and the clean-ups that have been started.
pub record State (W : Type 0) : Type 0 where
  pub allocator : IpAllocator
  pub cloud : W
  pub clean_ups : List NodeClaim

module _ {Price E W : Type 0} (pkg : Packages Price) (outside : Outside Price E) (storage : String)
    (pools : Pools E W) where
  -- Delete after the provider ID has been read.
  unfoldable pub delete_pool : String → W → Result (KaitoError E) (Unit {0}) × W
  delete_pool name w =
      let (found, seen) = pools.get name w in
      let (deleted, done) = pools.delete name seen in
      let answer : Result (KaitoError E) (Unit {0}) × W = (map_err deleting deleted, done) in
      elim found [
        | ok pool ↦ answer
        | err e ↦
            if outside.is_not_found_code e then (err (node_claim_not_found e), seen) else answer
      ]

  unfoldable pub delete_cloud : NodeClaim → W → Result (KaitoError E) (Unit {0}) × W
  unfolding delete_pool provider_id_to_agent_pool_name
  delete_cloud claim w =
      if claim.provider_id == ""
      then (ok tt, w)
      else elim (provider_id_to_agent_pool_name pkg outside storage claim.provider_id) [
        | err e ↦ (ok tt, w)
        | ok name ↦ delete_pool name w
      ]

  unfoldable pub delete : NodeClaim → State W → Result (KaitoError E) (Unit {0}) × State W
  unfolding delete_cloud
  delete claim s = let (r, w) = delete_cloud claim s.cloud in (r, record s { cloud = w })

  -- The goroutine of the oldest pending clean-up.
  unfoldable pub clean_up : State W → State W
  unfolding delete_cloud
  clean_up s = elim s.clean_ups [
    | [] ↦ s
    | claim ∷ rest ↦ record s { cloud = (delete_cloud claim s.cloud).1; clean_ups = rest }
  ]

  unfoldable pub get_found : Result E AgentPool → Result (KaitoError E) NodeClaim
  unfolding stretch_agent_pool_to_node_claim
  get_found (ok pool) = ok (stretch_agent_pool_to_node_claim pool)
  get_found (err e) =
      err (if outside.is_not_found_code e then node_claim_not_found e else pool_error e)

  unfoldable pub get : String → State W → Result (KaitoError E) NodeClaim × State W
  unfolding get_found provider_id_to_agent_pool_name
  get id s = elim (provider_id_to_agent_pool_name pkg outside storage id) [
    | err e ↦ (err e, s)
    | ok name ↦ let (r, w) = pools.get name s.cloud in (get_found r, record s { cloud = w })
  ]

  unfoldable pub list : State W → Result (KaitoError E) (List NodeClaim) × State W
  unfolding stretch_agent_pool_to_node_claim
  list s =
      let (r, w) = pools.list s.cloud in
      (
        map_err pool_error r >>= (λ all. ok (map stretch_agent_pool_to_node_claim all)),
        record s { cloud = w },
      )

  -- Create after the agent pool has been asked for.
  unfoldable pub launched :
      NodeClaim → State W → Result E AgentPool → Result (KaitoError E) NodeClaim × State W
  unfolding is_quota_error stretch_agent_pool_to_node_claim copy_labels
  launched claim s (err e) =
      if is_quota_error outside e
      then (err (insufficient_capacity e), record s { clean_ups = s.clean_ups ++ claim ∷ [] })
      else (err (creating e), s)
  launched claim s (ok pool) =
      let made = stretch_agent_pool_to_node_claim pool in
      (
        ok (record made {
          labels =
              copy_labels made.labels (outside.well_known_single_valued_labels claim.requirements);
        }),
        s,
      )

  module _ (net : Net) (rand : ℕ → ℕ) (cache : Cache) (cluster : Cluster)
      (opts : KaitoOptions) where
    -- Create once the settings are known.
    unfoldable pub launch :
        NodeClaim
        → NodeClaimRequirements
        → Settings
        → State W
        → Result (KaitoError E) NodeClaim × State W
    unfolding launched node_claim_to_nebius_agent_pool
    launch claim reqs settings s =
        let pool =
          node_claim_to_nebius_agent_pool pkg outside storage cluster opts claim reqs settings in
        let (r, w) = pools.create_or_update pool s.cloud in
        launched claim (record s { cloud = w }) r

    -- Create once the requirements are known and the options are valid.
    unfoldable pub allocate_and_launch :
        NodeClaim → NodeClaimRequirements → State W → Result (KaitoError E) NodeClaim × State W
    unfolding launch resolve_nebius_agent_pool_settings
    allocate_and_launch claim reqs s =
        let (r, alloc) =
          resolve_nebius_agent_pool_settings pkg outside storage net rand cache opts claim reqs
            s.allocator in
        let s' : State W = record s { allocator = alloc } in
        elim r [ err e ↦ (err e, s') | ok settings ↦ launch claim reqs settings s' ]

    unfoldable pub create : NodeClaim → State W → Result (KaitoError E) NodeClaim × State W
    unfolding allocate_and_launch resolve_node_claim_requirements validate
    create claim s = elim (resolve_node_claim_requirements pkg outside storage claim) [
      | err e ↦ (err e, s)
      | ok reqs ↦ elim (validate {E = E} opts) [
        | err e ↦ (err e, s)
        | ok u ↦ allocate_and_launch claim reqs s
      ]
    ]
