-- ===== src/Nebius/CloudProvider/Found.antt =====
-- The NodeClaim that Create, Get and List make of an agent pool, in the calls that take it back.
use Prim.Native.String.{count, ◌++◌ as concat}
use text.Mathlib.TextLemmas.{length-append}
use aks_flex.Common.{
  Result, ok, err, true, map_err, ◌⊎◌, inl, inr, Result-cases, Bool-cases, ap, ◌+◌, ==_ne, arith,
  ◌≡◌, refl, false, some, ◌==◌, string_eq,
}
use aks_flex.InstanceTypes.{Packages}
use aks_flex.InstanceTypes.Types.{InstanceType}
use aks_flex.InstanceTypes.Resolve.{CachedEntry}
use aks_flex.InstanceTypes.Provider.{Lru}
use aks_flex.Karpenter.{NodeClaim}
use aks_flex.Nebius.{AgentPool, Outside}
use aks_flex.Nebius.NodeClaims.{
  agent_pool_name_to_provider_id, stretch_agent_pool_to_node_claim,
  provider_id_to_agent_pool_name-agent_pool_name_to_provider_id,
}
use aks_flex.Nebius.Calls.{
  Pools, Seen, State, Refusal, with_cloud, node_claim_not_found, deleting, pool_error,
}
use aks_flex.Nebius.CloudProvider.{delete_pool, delete_cloud}
use aks_flex.Nebius.Reads.{claim_of, found_pool, get}

module _ {Price Error PoolError C W : Type 0} (pkg : Packages Price)
    (outside : Outside Price PoolError) (lru : Lru C (CachedEntry Price))
    (pools : Pools PoolError W) (seen : Seen Error) (pool : AgentPool) (it : InstanceType Price)
    (parses : outside.parse_url (concat "aks-nebius://" pool.id)
      ≡ some ("aks-nebius", pool.id)) where
  has_scheme : agent_pool_name_to_provider_id pool.id ≡ "" → ⊥
  unfolding agent_pool_name_to_provider_id
  has_scheme e =
      let size : count (agent_pool_name_to_provider_id pool.id) ≡ 0 = ap count e in
      let split : count (agent_pool_name_to_provider_id pool.id) ≡ 13 + count pool.id =
        length-append "aks-nebius://" pool.id in
      omega (arith, size, split)

  named : (agent_pool_name_to_provider_id pool.id == "") ≡ false
  named = ==_ne (agent_pool_name_to_provider_id pool.id) "" has_scheme

  -- What Delete of the claim does with the cloud: the pool under the ID is looked up, and is deleted
  -- unless it is not found.
  abbrev pub Deleted : W → Result (Refusal Error PoolError) (Unit {0}) × W → Type 0
  Deleted w r =
      let found = pools.get pool.id w in
      let deleted = pools.delete pool.id found.1 in
      ((e : PoolError) × (found.0 ≡ err e)
        × (outside.is_not_found_code e ≡ true)
        × (r ≡ (err (node_claim_not_found e), found.1)))
      ⊎ ((((p : AgentPool) × (found.0 ≡ ok p))
            ⊎ ((e : PoolError) × (found.0 ≡ err e) × (outside.is_not_found_code e ≡ false)))
          × (r ≡ (map_err deleting deleted.0, deleted.1)))

  -- What Get of the provider ID does: the pool under the ID is looked up, and its claim is made.
  abbrev pub Got : State C W → Result (Refusal Error PoolError) NodeClaim × State C W → Type 0
  Got s r =
      let found = pools.get pool.id s.cloud in
      ((e : PoolError) × (found.0 ≡ err e)
        × (outside.is_not_found_code e ≡ true)
        × (r ≡ (err (node_claim_not_found e), with_cloud s found.1)))
      ⊎ ((e : PoolError) × (found.0 ≡ err e)
          × (outside.is_not_found_code e ≡ false)
          × (r ≡ (err (pool_error e), with_cloud s found.1)))
      ⊎ ((p : AgentPool) × (found.0 ≡ ok p)
          × (r ≡ claim_of pkg outside lru pools seen p (with_cloud s found.1)))

  delete_pool-Deleted : (w : W) → Deleted w (delete_pool Error pkg outside pools pool.id w)
  unfolding delete_pool
  delete_pool-Deleted w = elim (Result-cases (pools.get pool.id w).0) [
    | inl (p, q) ↦ inr (inl (p, q), rw (delete_pool, q) refl)
    | inr (e, q) ↦ elim (Bool-cases (outside.is_not_found_code e)) [
      | inl k ↦ inl (e, q, k, rw (delete_pool, q, k) refl)
      | inr k ↦ inr (inr (e, q, k), rw (delete_pool, q, k) refl)
    ]
  ]

  found_pool-Got :
      (s : State C W)
      → Got s (
          found_pool pkg outside lru pools seen
            (with_cloud s (pools.get pool.id s.cloud).1)
            (pools.get pool.id s.cloud).0)
  unfolding found_pool
  found_pool-Got s = elim (Result-cases (pools.get pool.id s.cloud).0) [
    | inl (p, q) ↦ inr (inr (p, q, rw (found_pool, q) refl))
    | inr (e, q) ↦ elim (Bool-cases (outside.is_not_found_code e)) [
      | inl k ↦ inl (e, q, k, rw (found_pool, q, k) refl)
      | inr k ↦ inr (inl (e, q, k, rw (found_pool, q, k) refl))
    ]
  ]

  -- The NodeClaim that the provider makes of an agent pool has the provider ID aks-nebius:// with
  -- the pool's ID. Delete of the claim looks up the pool under its ID, and deletes it under its
  -- ID unless it is not found; Get of the provider ID looks up the pool under its ID, and makes
  -- the claim of what it has found or returns the error. url.Parse reads the scheme aks-nebius
  -- and the pool's ID from that text.
  pub provider_id_names_pool :
      (s : State C W)
      → let claim = stretch_agent_pool_to_node_claim pkg outside pool it in
        (claim.provider_id ≡ concat "aks-nebius://" pool.id)
        × Deleted s.cloud (delete_cloud Error pkg outside pools claim s.cloud)
        × Got s (get pkg outside lru pools seen claim.provider_id s)
  unfolding delete_cloud get stretch_agent_pool_to_node_claim agent_pool_name_to_provider_id
  provider_id_names_pool s =
      let named_pool =
        provider_id_to_agent_pool_name-agent_pool_name_to_provider_id pkg outside pool.id parses in
      (
        refl,
        rw (delete_cloud, named, named_pool) (delete_pool-Deleted s.cloud),
        rw (get, named_pool) (found_pool-Got s),
      )
