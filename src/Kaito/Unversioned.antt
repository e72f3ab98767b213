-- ===== src/Kaito/Unversioned.antt =====
-- The agent pools of the Kaito provider at the back-end for Nebius, which wants a Kubernetes version.
use aks_flex.Common.{
  ℕ, ◌≡◌, refl, ◌∙◌, inl, inr, none, String, Result, ok, err, map_err, ◌>>=◌, string_eq,
  Result-cases, Bool-cases, ==_refl,
}
use aks_flex.Karpenter.{NodeClaim}
use aks_flex.Wireguard.Net.{Net}
use aks_flex.Wireguard.Allocator.{Cache}
use aks_flex.InstanceTypes.{Packages}
use aks_flex.Nebius.{AgentPool, Cluster, Outside}
use aks_flex.Nebius.Calls.{Pools, is_quota_error}
use aks_flex.Kaito.{
  KaitoOptions, KaitoError, NodeClaimRequirements, Settings, node_claim_to_nebius_agent_pool,
  resolve_node_claim_requirements, resolve_nebius_agent_pool_settings, validate,
}
use aks_flex.Kaito.CloudProvider.{State, launched, launch, allocate_and_launch, create}
use aks_flex.Plugin.Resource.{Service}
use aks_flex.Plugin.AgentPools.{Pool, DiskSpec, InstanceSpec, Host}
use aks_flex.Plugin.AgentPools.Launch as Launch
use aks_flex.Plugin.AgentPools.Launch.{AgentPoolsError, version_required}
use aks_flex.Plugin.AgentPools.Reapply.{version_lem}

module _ {Price E W P X N DiskOp InstanceOp : Type 0} (pkg : Packages Price)
    (outside : Outside Price E) (storage : String) (pools : Pools E W) (net : Net) (rand : ℕ → ℕ)
    (cache : Cache) (cluster : Cluster) (opts : KaitoOptions) (host : Host X)
    (disks : Service DiskSpec DiskOp N W) (instances : Service InstanceSpec InstanceOp N W)
    (status : AgentPoolsError X P N → E) where
  -- The client's CreateOrUpdate reaches the back-end, whose error it has as a status.
  abbrev pub Reaches : Type 0
  Reaches =
      (pool : AgentPool) (w : W)
      → let sent : Pool = record { spec = pool; status = none } in
        let (r, w') = Launch.launch P host disks instances sent w in
        pools.create_or_update pool w ≡ (map_err status r >>= (λ made. ok made.spec), w')

  -- A call of Create that fails and leaves the cloud as it was.
  abbrev pub Refused : State W → Result (KaitoError E) NodeClaim × State W → Type 0
  Refused s r = ((why : KaitoError E) × (r.0 ≡ err why)) × (r.1.cloud ≡ s.cloud)

  asked :
      (reaches : Reaches) (claim : NodeClaim) (reqs : NodeClaimRequirements) (settings : Settings)
      (w : W)
      → pools.create_or_update
          (node_claim_to_nebius_agent_pool pkg outside storage cluster opts claim reqs settings)
          w
        ≡ (err (status version_required), w)
  unfolding node_claim_to_nebius_agent_pool
  asked reaches claim reqs settings w =
      let pool =
        node_claim_to_nebius_agent_pool pkg outside storage cluster opts claim reqs settings in
      let sent : Pool = record { spec = pool; status = none } in
      reaches pool w ∙ rw (version_lem P host disks instances sent w (==_refl {A = String} "")) refl

  launched-Refused :
      (claim : NodeClaim) (s : State W) (e : E)
      → Refused s (launched pkg outside storage pools claim s (err e))
  unfolding launched
  launched-Refused claim s e = elim (Bool-cases (is_quota_error outside e)) [
    | inl q ↦ rw (launched, q) ((_, refl), refl)
    | inr q ↦ rw (launched, q) ((_, refl), refl)
  ]

  launch-Refused :
      (reaches : Reaches) (claim : NodeClaim) (reqs : NodeClaimRequirements) (settings : Settings)
      (s : State W)
      → Refused s
          (launch pkg outside storage pools net rand cache cluster opts claim reqs settings s)
  unfolding launch
  launch-Refused reaches claim reqs settings s =
      rw (launch, asked reaches claim reqs settings s.cloud)
        (launched-Refused claim s (status version_required))

  allocate_and_launch-Refused :
      (reaches : Reaches) (claim : NodeClaim) (reqs : NodeClaimRequirements) (s : State W)
      → Refused s
          (allocate_and_launch pkg outside storage pools net rand cache cluster opts claim reqs s)
  unfolding allocate_and_launch
  allocate_and_launch-Refused reaches claim reqs s =
      let resolved =
        resolve_nebius_agent_pool_settings pkg outside storage net rand cache opts claim reqs
          s.allocator in
      elim (Result-cases resolved.0) [
        | inr (why, q) ↦ rw (allocate_and_launch, q) ((why, refl), refl)
        | inl (settings, q) ↦
            rw (allocate_and_launch, q)
              (launch-Refused reaches claim reqs settings (record s { allocator = resolved.1 }))
      ]

  -- Create of the Kaito provider fails for every NodeClaim and leaves the cloud as it was, when
  -- the plugin's client reaches the back-end for agent pools of Nebius: the agent pool of the
  -- NodeClaim has no Kubernetes version, which the back-end requires.
  pub create-Refused :
      (reaches : Reaches) (claim : NodeClaim) (s : State W)
      → Refused s (create pkg outside storage pools net rand cache cluster opts claim s)
  unfolding create
  create-Refused reaches claim s =
      elim (Result-cases (resolve_node_claim_requirements pkg outside storage claim)) [
        | inr (why, q) ↦ rw (create, q) ((why, refl), refl)
        | inl (reqs, q) ↦ elim (Result-cases (validate {E = E} opts)) [
          | inr (why, k) ↦ rw (create, q, k) ((why, refl), refl)
          | inl (u, k) ↦ rw (create, q, k) (allocate_and_launch-Refused reaches claim reqs s)
        ]
      ]
