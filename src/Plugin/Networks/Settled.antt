-- ===== src/Plugin/Networks/Settled.antt =====
-- Networks of Nebius that are applied again, and networks that are deleted.
use aks_flex.Common.{
  ◌≡◌, refl, sym, ap, ◌∙◌, ◌⊎◌, inl, inr, none, Result, ok, err, string_eq, Result-cases, err≢ok,
  pair,
}
use aks_flex.Plugin.Resource.{Resource, Service, ServiceLaws, drift_todo, resolve}
use aks_flex.Plugin.Resource as Resource
use aks_flex.Plugin.Resource.Settled.{found_lem, create_or_update-resolve, create_or_update-again}
use aks_flex.Plugin.Resource.Apart.{Apart, Settled-Apart}
use aks_flex.Plugin.Resource.Removed.{Deletes, Refuses, delete-Deletes, delete-Refuses}
use aks_flex.Plugin.Networks.{
  Network, PoolSpec, NetworkSpec, SubnetSpec, desired_pool, desired_network, desired_subnet,
  with_status, create_subnet, create_network, create_or_update, delete_pool, delete_network, delete,
}

module _ {PoolOp NetworkOp SubnetOp N W : Type 0} (pools : Service PoolSpec PoolOp N W)
    (networks : Service NetworkSpec NetworkOp N W) (subnets : Service SubnetSpec SubnetOp N W)
    (n : Network) where
  abbrev pooled : W → Result N (Resource PoolSpec) × W
  pooled w = Resource.create_or_update pools drift_todo (desired_pool n) w

  abbrev networked : Resource PoolSpec → W → Result N (Resource NetworkSpec) × W
  networked p w = Resource.create_or_update networks drift_todo (desired_network n p) w

  abbrev subnetted : Resource NetworkSpec → W → Result N (Resource SubnetSpec) × W
  subnetted v w = Resource.create_or_update subnets drift_todo (desired_subnet n v) w

  abbrev Made : Network → W → Type 0
  Made made w =
      (p : Resource PoolSpec) × (v : Resource NetworkSpec) × (s : Resource SubnetSpec) × ((pooled
          w).0
        ≡ ok p)
      × ((networked p (pooled w).1).0 ≡ ok v)
      × ((subnetted v (networked p (pooled w).1).1).0 ≡ ok s)
      × (create_or_update pools networks subnets n w
          ≡ (ok made, (subnetted v (networked p (pooled w).1).1).1))

  made_lem :
      (p : Resource PoolSpec) (v : Resource NetworkSpec) (s : Resource SubnetSpec) (w : W)
      → (pooled w).0 ≡ ok p
      → (networked p (pooled w).1).0 ≡ ok v
      → (subnetted v (networked p (pooled w).1).1).0 ≡ ok s
      → create_or_update pools networks subnets n w
        ≡ with_status pools networks subnets n p v
            (ok s, (subnetted v (networked p (pooled w).1).1).1)
  unfolding create_or_update create_network create_subnet
  made_lem p v s w q k l = rw (create_or_update, q, create_network, k, create_subnet, l) refl

  create_or_update-Made :
      (made : Network) (w : W)
      → (create_or_update pools networks subnets n w).0 ≡ ok made
      → Made made w
  unfolding create_or_update create_network create_subnet with_status
  create_or_update-Made made w h = elim (Result-cases (pooled w).0) [
    | inr (e, q) ↦ absurd (err≢ok (rw (create_or_update, q, create_network) at h))
    | inl (p, q) ↦ elim (Result-cases (networked p (pooled w).1).0) [
      | inr (e, k) ↦
          absurd (err≢ok (rw (create_or_update, q, create_network, k, create_subnet) at h))
      | inl (v, k) ↦ elim (Result-cases (subnetted v (networked p (pooled w).1).1).0) [
        | inr (e, l) ↦ absurd (
            err≢ok
              (rw (create_or_update, q, create_network, k, create_subnet, l, with_status) at h))
        | inl (s, l) ↦
            let same = made_lem p v s w q k l in (p, v, s, q, k, l, pair h (ap (λ r. r.1) same))
      ]
    ]
  ]

  pool-Unnumbered : n.status ≡ none → (desired_pool n).metadata.id ≡ ""
  unfolding desired_pool
  pool-Unnumbered h = rw (h) refl

  network-Unnumbered :
      (p : Resource PoolSpec) → n.status ≡ none → (desired_network n p).metadata.id ≡ ""
  unfolding desired_network
  network-Unnumbered p h = rw (h) refl

  subnet-Unnumbered :
      (v : Resource NetworkSpec) → n.status ≡ none → (desired_subnet n v).metadata.id ≡ ""
  unfolding desired_subnet
  subnet-Unnumbered v h = rw (h) refl

  -- A network without a status, once applied, is applied again with the same answer, and the
  -- cloud stays as it is. The services keep the laws of the Nebius API, and a creation changes no
  -- look-up by name of a resource that was created before it.
  pub create_or_update-settled :
      (pool_laws : ServiceLaws pools) (network_laws : ServiceLaws networks)
      (subnet_laws : ServiceLaws subnets) (network_pool : Apart networks pools)
      (subnet_pool : Apart subnets pools) (subnet_network : Apart subnets networks) (made : Network)
      (w : W)
      → n.status ≡ none
      → (create_or_update pools networks subnets n w).0 ≡ ok made
      → let w' = (create_or_update pools networks subnets n w).1 in
        create_or_update pools networks subnets n w' ≡ (ok made, w')
  create_or_update-settled pool_laws network_laws subnet_laws network_pool subnet_pool
        subnet_network made w fresh done =
      let (p, v, s, q, k, l, same) = create_or_update-Made made w done in
      let w1 = (pooled w).1 in
      let w2 = (networked p w1).1 in
      let w3 = (subnetted v w2).1 in
      let pool_unnumbered = pool-Unnumbered fresh in
      let network_unnumbered = network-Unnumbered p fresh in
      let subnet_unnumbered = subnet-Unnumbered v fresh in
      let pool_found =
        Settled-Apart subnets subnet_laws pools pool_laws subnet_pool (desired_subnet n v)
          (desired_pool n) p w2 pool_unnumbered
          (Settled-Apart networks network_laws pools pool_laws network_pool (desired_network n p)
            (desired_pool n) p w1 pool_unnumbered
            (create_or_update-resolve pools pool_laws (desired_pool n) w p pool_unnumbered q)) in
      let network_found =
        Settled-Apart subnets subnet_laws networks network_laws subnet_network (desired_subnet n v)
          (desired_network n p) v w2 network_unnumbered
          (create_or_update-resolve networks network_laws (desired_network n p) w1 v
            network_unnumbered k) in
      let a : pooled w3 ≡ (ok p, w3) = found_lem pools pool_laws (desired_pool n) w3 p pool_found in
      let b : networked p w3 ≡ (ok v, w3) =
        found_lem networks network_laws (desired_network n p) w3 v network_found in
      let c : subnetted v w3 ≡ (ok s, w3) =
        create_or_update-again subnets subnet_laws (desired_subnet n v) w2 s subnet_unnumbered l in
      let last = sym (made_lem p v s w q k l) ∙ same in
      rw (same) (
        made_lem p v s w3 (ap (λ r. r.0) a) (rw (a) (ap (λ r. r.0) b)) (rw (a, b) (ap (λ r. r.0) c))
        ∙ rw (a, b, c) last)

  -- The subnet, the network and the pool that Delete asks for.
  abbrev pub unpooled : W → Result N (Unit {0}) × W
  unpooled w = Resource.delete pools (desired_pool n) w

  abbrev pub unnetworked : W → Result N (Unit {0}) × W
  unnetworked w = Resource.delete networks (desired_network n (desired_pool n)) w

  abbrev pub unsubnetted : W → Result N (Unit {0}) × W
  unsubnetted w = Resource.delete subnets (desired_subnet n (desired_network n (desired_pool n))) w

  module _ (pool_laws : ServiceLaws pools) (network_laws : ServiceLaws networks)
      (subnet_laws : ServiceLaws subnets) where
    -- What Delete leaves: the first that cannot be deleted keeps those that it depends on.
    abbrev pub InOrder : W → Result N (Unit {0}) × W → Type 0
    InOrder w r =
        let p = desired_pool n in
        let v = desired_network n p in
        let s = desired_subnet n v in
        ((e : N) × Refuses subnets subnet_laws s e w × (r ≡ (err e, (unsubnetted w).1)))
        ⊎ ((w1 : W) × Deletes subnets subnet_laws s w w1
            × (((e : N) × Refuses networks network_laws v e w1 × (r ≡ (err e, (unnetworked w1).1)))
                ⊎ ((w2 : W) × Deletes networks network_laws v w1 w2
                    × (((e : N) × Refuses pools pool_laws p e w2 × (r.0 ≡ err e))
                        ⊎ ((r.0 ≡ ok tt) × Deletes pools pool_laws p w2 r.1)))))

    -- Delete deletes the subnet, the network and the pool in this order and stops at the first
    -- error, so that what has not been deleted has what it depends on: its error is a refusal of
    -- the service, and each step before it has deleted the resource in its service, under its ID
    -- or under the ID that its name has, or has found none. The services keep the laws of the
    -- Nebius API.
    pub delete-InOrder : (w : W) → InOrder w (delete pools networks subnets n w)
    unfolding delete delete_network delete_pool
    delete-InOrder w =
        let p = desired_pool n in
        let v = desired_network n p in
        let s = desired_subnet n v in
        let w1 = (unsubnetted w).1 in
        let w2 = (unnetworked w1).1 in
        elim (Result-cases (unsubnetted w).0) [
          | inr (e, q) ↦ inl (
            e,
            delete-Refuses subnets subnet_laws s e w q,
            rw (delete, q, delete_network, delete_pool) refl,
          )
          | inl (u, q) ↦
              let first = delete-Deletes subnets subnet_laws s w q in
              elim (Result-cases (unnetworked w1).0) [
                | inr (e, k) ↦ inr (
                  w1,
                  first,
                  inl (
                    e,
                    delete-Refuses networks network_laws v e w1 k,
                    rw (delete, q, delete_network, k, delete_pool) refl,
                  ),
                )
                | inl (u', k) ↦
                    let second = delete-Deletes networks network_laws v w1 k in
                    let done : delete pools networks subnets n w ≡ unpooled w2 =
                      rw (delete, q, delete_network, k, delete_pool) refl in
                    elim (Result-cases (unpooled w2).0) [
                      | inr (e, l) ↦ inr (
                        w1,
                        first,
                        inr (
                          w2,
                          second,
                          inl (e, delete-Refuses pools pool_laws p e w2 l, ap (λ r. r.0) done ∙ l),
                        ),
                      )
                      | inl (u'', l) ↦ inr (
                        w1,
                        first,
                        inr (
                          w2,
                          second,
                          inr (rw (done) (l, delete-Deletes pools pool_laws p w2 l)),
                        ),
                      )
                    ]
              ]
        ]
