-- ===== src/Nebius/CloudProvider/Clean.antt =====
-- The clean-up that Create starts after a quota error.
use aks_flex.Common.{
  ◌≡◌, refl, ◌⊎◌, inl, inr, Option, none, some, List, [], ◌∷◌, String, Result, ok, err, string_eq,
  Result-cases, Option-cases, Bool-cases,
}
use aks_flex.Karpenter.{NodeClaim}
use aks_flex.Wireguard.Net.{Net}
use aks_flex.Wireguard.Allocator.{allocate_ip}
use aks_flex.InstanceTypes.{Packages}
use aks_flex.InstanceTypes.Platform.{LaunchSettings}
use aks_flex.InstanceTypes.Types.{NodeClassKey}
use aks_flex.InstanceTypes.Resolve.{CachedEntry}
use aks_flex.InstanceTypes.Provider.{Lru, resolve_platform_preset_from_node_claim}
use aks_flex.Nebius.{NebiusNodeClass, AgentPool, Cluster, Outside}
use aks_flex.Nebius.NodeClaims.{node_claim_to_stretch_agent_pool}
use aks_flex.Nebius.Calls.{
  Pools, Seen, State, get_node_class, create_key, is_quota_error, with_types, with_cloud,
}
use aks_flex.Nebius.CloudProvider.{
  delete_cloud, clean_up, launched, launch, allocate_and_launch, create,
}

module _ {Price Error PoolError C W : Type 0} (pkg : Packages Price)
    (outside : Outside Price PoolError) (lru : Lru C (CachedEntry Price)) (net : Net)
    (cluster : Cluster) (pools : Pools PoolError W) (seen : Seen Error) (claim : NodeClaim) where
  -- No clean-up has been started, or that of the claim.
  abbrev Pending : List NodeClaim → Type 0
  Pending clean_ups = (clean_ups ≡ []) ⊎ (clean_ups ≡ claim ∷ [])

  launched-Pending :
      (key : NodeClassKey) (settings : LaunchSettings) (s : State C W)
      (r : Result PoolError AgentPool)
      → s.clean_ups ≡ []
      → Pending (launched pkg outside lru net cluster pools seen key settings claim s r).1.clean_ups
  unfolding launched
  launched-Pending key settings s (ok pool) h = inl h
  launched-Pending key settings s (err e) h = elim (Bool-cases (is_quota_error outside e)) [
    | inl q ↦ inr (rw (q, launched, h) refl)
    | inr q ↦ inl (rw (q, launched) h)
  ]

  launch-Pending :
      (node_class : NebiusNodeClass) (settings : LaunchSettings) (wireguard : Option String)
      (s : State C W)
      → s.clean_ups ≡ []
      → Pending
          (launch pkg outside lru net cluster pools seen node_class settings claim wireguard
            s).1.clean_ups
  unfolding launch
  launch-Pending node_class settings wireguard s h =
      let pool =
        node_claim_to_stretch_agent_pool pkg outside cluster node_class claim settings wireguard in
      launched-Pending (create_key node_class) settings
        (with_cloud s (pools.create_or_update pool s.cloud).1)
        (pools.create_or_update pool s.cloud).0 h

  allocate_and_launch-Pending :
      (node_class : NebiusNodeClass) (settings : LaunchSettings) (s : State C W)
      → s.clean_ups ≡ []
      → Pending
          (allocate_and_launch pkg outside lru net cluster pools seen node_class claim settings
            s).1.clean_ups
  unfolding allocate_and_launch
  allocate_and_launch-Pending node_class settings s h =
      elim (Option-cases node_class.wireguard_peer_cidr) [
        | inl q ↦ rw (q, allocate_and_launch) (launch-Pending node_class settings none s h)
        | inr (cidr, q) ↦
            let allocated =
              allocate_ip net seen.rand seen.cache s.allocator cidr node_class.name claim.name in
            elim (Result-cases allocated.0) [
              | inl (ip, e) ↦
                  rw (q, allocate_and_launch, e)
                    (launch-Pending node_class settings (some ip)
                      (record {
                        allocator = allocated.1;
                        instance_types = s.instance_types;
                        cloud = s.cloud;
                        clean_ups = s.clean_ups;
                      })
                      h)
              | inr (why, e) ↦ inl (rw (q, allocate_and_launch, e) h)
            ]
      ]

  create-Pending :
      (s : State C W)
      → s.clean_ups ≡ []
      → Pending (create pkg outside lru net cluster pools seen claim s).1.clean_ups
  unfolding create
  create-Pending s h =
      elim (Result-cases (get_node_class {PoolError = PoolError} seen claim.node_class_ref)) [
        | inr (why, q) ↦ inl (rw (q, create) h)
        | inl (node_class, q) ↦
            let resolved =
              resolve_platform_preset_from_node_claim pkg lru seen.api s.instance_types
                (create_key node_class) claim in
            elim (Result-cases resolved.0) [
              | inl (settings, e) ↦
                  rw (q, create, e)
                    (allocate_and_launch-Pending node_class settings (with_types s resolved.1) h)
              | inr (why, e) ↦ inl (rw (q, create, e) h)
            ]
      ]

  delete_cloud-unnamed :
      (w : W) → claim.provider_id ≡ "" → delete_cloud Error pkg outside pools claim w ≡ (ok tt, w)
  unfolding delete_cloud
  delete_cloud-unnamed w h = rw (delete_cloud, h) refl

  clean_up-unnamed :
      (s : State C W)
      → claim.provider_id ≡ ""
      → Pending s.clean_ups
      → (clean_up Error pkg outside pools s).cloud ≡ s.cloud
  unfolding clean_up
  clean_up-unnamed s h (inl q) = rw (q, clean_up) refl
  clean_up-unnamed s h (inr q) = rw (q, clean_up, delete_cloud-unnamed s.cloud h) refl

  -- The clean-up that Create starts for a NodeClaim without a provider ID, in a state with no
  -- other clean-up pending, changes nothing in the cloud, whatever Create returned.
  pub clean_up-create :
      (s : State C W)
      → s.clean_ups ≡ []
      → claim.provider_id ≡ ""
      → let s' = (create pkg outside lru net cluster pools seen claim s).1 in
        (clean_up Error pkg outside pools s').cloud ≡ s'.cloud
  clean_up-create s h unnamed =
      clean_up-unnamed (create pkg outside lru net cluster pools seen claim s).1 unnamed
        (create-Pending s h)
