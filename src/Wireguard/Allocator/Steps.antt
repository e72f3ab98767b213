-- ===== src/Wireguard/Allocator/Steps.antt =====
-- What each method does to the reservations.
use aks_flex.Common.{
  ℕ, ◌≡◌, refl, ◌⊎◌, inl, inr, none, some, List, String, Result, ok, err, string_eq, Result-cases,
  Option-cases,
}
use aks_flex.Wireguard.Allocator.Reserved.{reconciled}
use aks_flex.Wireguard.Allocator.Grants.{IsGranted, allocate_from-IsGranted, allocate_from_failed}
use aks_flex.Wireguard.Net.{Net, NetLaws}
use aks_flex.Wireguard.RandomIp.Hosts.{IsBlock}
use aks_flex.Wireguard.RandomIp.Laws.{IsIntN}
use aks_flex.Wireguard.Allocator.{
  Cache, Node, IpAllocator, AllocateError, listing_nodes, allocate_from, allocate_ip, reserved,
  confirmed_ips,
}

module _ (net : Net) (laws : NetLaws net) (rand : ℕ → ℕ) (in_range : IsIntN rand) (cidr : String)
    (cache : Cache) (a : IpAllocator) (c claim : String) where
  -- What an allocation returns when it has seen the confirmed addresses, beside the allocator that
  -- it leaves.
  abbrev pub Listed : List String → Result AllocateError String × IpAllocator → Type 0
  Listed confirmed r =
      ((ip : String) × (r.0 ≡ ok ip)
        × (base : ℕ) × (ones : ℕ) × IsBlock net cidr base ones
        × IsGranted net base ones c claim confirmed a r.1 ip)
      ⊎ ((why : AllocateError) × (r.0 ≡ err why)
          × ((d x : String) → reserved r.1 d x ≡ reconciled confirmed c a d x))

  abbrev pub Outcome : Result AllocateError String × IpAllocator → Type 0
  Outcome r =
      ((cache.list c ≡ none) × (r ≡ (err (listing_nodes c), a)))
      ⊎ ((nodes : List Node) × (cache.list c ≡ some nodes) × Listed (confirmed_ips nodes) r)

  outcome_from : (seen : List String) → Listed seen (allocate_from net rand a cidr c claim seen)
  outcome_from seen = elim (Result-cases (allocate_from net rand a cidr c claim seen).0) [
    | inl (ip, e) ↦
        let (base, ones, b, granted) =
          allocate_from-IsGranted net laws rand in_range cidr a c claim seen ip e in
        inl (ip, e, base, ones, b, granted)
    | inr (why, e) ↦ inr (why, e, allocate_from_failed net rand a cidr c claim seen why e)
  ]

  -- AllocateIP leaves the allocator as it was when the nodes cannot be listed. Otherwise it
  -- returns an address that it has granted, recorded for the NodeClaim beside the reservations
  -- that the listed nodes do not confirm, or it returns an error and only the confirmed
  -- reservations are gone. The random index is in range.
  pub allocate_ip-Outcome : Outcome (allocate_ip net rand cache a cidr c claim)
  unfolding allocate_ip
  allocate_ip-Outcome = elim (Option-cases (cache.list c)) [
    | inl e ↦ inl (e, rw (e, allocate_ip) refl)
    | inr (nodes, e) ↦ inr (nodes, e, rw (e, allocate_ip) (outcome_from (confirmed_ips nodes)))
  ]
