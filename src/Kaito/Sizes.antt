-- ===== src/Kaito/Sizes.antt =====
-- The settings of nodeclaim.go and the boot disk.
use aks_flex.Common.{
  ℕ, ◌+◌, ◌*◌, ◌^◌, ◌≤◌, ◌<◌, arith, ◌≡◌, refl, sym, ap, ◌∙◌, inl, inr, some, String, ok, ◌==◌,
  string_eq, nat_eq, Result-cases, Bool-cases, Option-cases, err≢ok, ok_unique,
}
use aks_flex.Common.Assoc.{lookup}
use aks_flex.Karpenter.{NodeClaim}
use aks_flex.Wireguard.Net.{Net}
use aks_flex.Wireguard.Allocator.{IpAllocator, Cache, allocate_ip}
use aks_flex.InstanceTypes.{Packages}
use aks_flex.Nebius.{Outside}
use aks_flex.Kaito.{
  KaitoOptions, NodeClaimRequirements, Settings, platform_presets, gibibytes, os_disk_size,
  requested_type, settings_of, resolve_node_claim_requirements, resolve_nebius_agent_pool_settings,
}

os_disk_size_least : (n : ℕ) → (100 ≤ os_disk_size n) × (n + 30 ≤ os_disk_size n)
unfolding os_disk_size
os_disk_size_least n = ground arith

gibibytes_bound : (bytes : ℕ) → bytes < (gibibytes (some bytes) + 1) * 2 ^ 30
gibibytes_bound bytes = omega arith

module _ {Price E : Type 0} (pkg : Packages Price) (outside : Outside Price E)
    (storage : String) where
  requirements-size :
      (claim : NodeClaim) (reqs : NodeClaimRequirements)
      → resolve_node_claim_requirements pkg outside storage claim ≡ ok reqs
      → reqs.disk_size_gibibytes_requested ≡ gibibytes (lookup storage claim.requests)
  unfolding resolve_node_claim_requirements
  requirements-size claim reqs h =
      elim (Bool-cases (requested_type pkg.instance_type_key "" claim.requirements == "")) [
        | inl q ↦ absurd (err≢ok (rw (resolve_node_claim_requirements, q) at h))
        | inr q ↦ elim (Bool-cases (gibibytes (lookup storage claim.requests) == 0)) [
          | inl k ↦ absurd (err≢ok (rw (resolve_node_claim_requirements, q, k) at h))
          | inr k ↦
              ap (λ r. r.disk_size_gibibytes_requested)
                (sym (ok_unique refl (rw (resolve_node_claim_requirements, q, k) at h)))
        ]
      ]

  module _ (net : Net) (rand : ℕ → ℕ) (cache : Cache) (opts : KaitoOptions) (claim : NodeClaim)
      (reqs : NodeClaimRequirements) (alloc : IpAllocator) where
    settings-size :
        (settings : Settings)
        → (resolve_nebius_agent_pool_settings pkg outside storage net rand cache opts claim reqs
            alloc).0
          ≡ ok settings
        → settings.os_disk_size_gibibytes ≡ os_disk_size reqs.disk_size_gibibytes_requested
    unfolding resolve_nebius_agent_pool_settings settings_of
    settings-size settings h =
        elim (Option-cases (lookup reqs.instance_type_requested platform_presets)) [
          | inl q ↦ absurd (err≢ok (rw (resolve_nebius_agent_pool_settings, q) at h))
          | inr (pp, q) ↦ elim (Bool-cases (opts.nebius_wireguard_peer_cidr == "")) [
            | inl k ↦
                ap (λ s. s.os_disk_size_gibibytes)
                  (sym (ok_unique refl (rw (resolve_nebius_agent_pool_settings, q, k) at h)))
            | inr k ↦
                elim (Result-cases
                  (allocate_ip net rand cache alloc opts.nebius_wireguard_peer_cidr "default"
                    claim.name).0) [
                      | inl (ip, e) ↦
                          ap (λ s. s.os_disk_size_gibibytes)
                            (sym (
                              ok_unique refl
                                (rw (resolve_nebius_agent_pool_settings, q, k, e) at h)))
                      | inr (why, e) ↦
                          absurd (err≢ok (rw (resolve_nebius_agent_pool_settings, q, k, e) at h))
                    ]
          ]
        ]

    -- The boot disk of the settings that Create resolves for a NodeClaim has at least 100 GiB,
    -- and exceeds the storage that the NodeClaim requests by more than 29 GiB: its size in GiB is
    -- rounded down before 30 GiB are added.
    pub settings-bounds :
        (settings : Settings) (bytes : ℕ)
        → lookup storage claim.requests ≡ some bytes
        → resolve_node_claim_requirements pkg outside storage claim ≡ ok reqs
        → (resolve_nebius_agent_pool_settings pkg outside storage net rand cache opts claim reqs
            alloc).0
          ≡ ok settings
        → (100 ≤ settings.os_disk_size_gibibytes)
          × (bytes + 29 * 2 ^ 30 < settings.os_disk_size_gibibytes * 2 ^ 30)
    settings-bounds settings bytes asked required resolved =
        let size = settings-size settings resolved in
        let from = requirements-size claim reqs required ∙ ap gibibytes asked in
        let (least, more) = os_disk_size_least reqs.disk_size_gibibytes_requested in
        let bound = gibibytes_bound bytes in (omega arith, omega arith)
