-- ===== src/Plugin/AgentPools/Reapply.antt =====
-- Agent pools that are applied again.
use aks_flex.Common.{
  ◌≡◌, refl, sym, ◌∙◌, ap, inl, inr, true, false, none, String, Result, ok, err, ◌==◌, string_eq,
  Result-cases, Bool-cases, err≢ok, ok_unique,
}
use aks_flex.Plugin.Resource.{
  Metadata, Resource, Service, ServiceLaws, drift_todo, resolve, create, wait_and_get,
}
use aks_flex.Plugin.Resource as Resource
use aks_flex.Plugin.Resource.Settled.{found_lem, create_or_update-resolve, create_or_update-again}
use aks_flex.Plugin.Resource.Apart.{Apart, Settled-Apart}
use aks_flex.Plugin.AgentPools.{
  Pool, DiskSpec, InstanceSpec, Host, desired_boot_disk, desired_instance, with_kubeadm,
  node_config,
}
use aks_flex.Plugin.AgentPools.Launch.{
  AgentPoolsError, version_required, disk_failed, with_status, clean_disk, finish, boot, content_of,
  launch,
}

module _ {E N DiskOp InstanceOp W : Type 0} (P : Type 0) (host : Host E)
    (disks : Service DiskSpec DiskOp N W) (instances : Service InstanceSpec InstanceOp N W)
    (pool : Pool) where
  -- The agent pool that the handler launches.
  abbrev pub Configured : Pool
  Configured = record {
    spec = with_kubeadm pool.spec (node_config host pool.spec);
    status = pool.status;
  }

  -- The calls that a launch from a world has made, and that it ends in.
  abbrev pub booted : W → Result N (Resource DiskSpec) × W
  booted w = Resource.create_or_update disks drift_todo (desired_boot_disk Configured) w

  abbrev pub started : Resource DiskSpec → String → W → Result N (Resource InstanceSpec) × W
  started d content w =
      Resource.create_or_update instances drift_todo (desired_instance Configured d content) w

  abbrev pub Launched : Pool → W → Type 0
  Launched made w =
      (content : String) × (d : Resource DiskSpec) × (i : Resource InstanceSpec)
      × ((pool.spec.kubernetes_version == "") ≡ false)
      × (content_of P host disks instances pool.spec ≡ ok content)
      × ((booted w).0 ≡ ok d)
      × ((started d content (booted w).1).0 ≡ ok i)
      × (made ≡ with_status P host disks instances Configured d i)

  clean_disk-fails :
      (e : N) (made : Pool) (r : Result N (Unit {0}) × W)
      → (clean_disk P host disks instances e r).0 ≡ ok made
      → ⊥
  unfolding clean_disk
  clean_disk-fails e made (ok u, w) h = err≢ok h
  clean_disk-fails e made (err why, w) h = err≢ok h

  pub launch-Launched :
      (made : Pool) (w : W) → (launch P host disks instances pool w).0 ≡ ok made → Launched made w
  unfolding launch boot finish clean_disk
  launch-Launched made w h = elim (Bool-cases (pool.spec.kubernetes_version == "")) [
    | inl q ↦ absurd (err≢ok (rw (launch, q) at h))
    | inr q ↦ elim (Result-cases (content_of P host disks instances pool.spec)) [
      | inr (why, k) ↦ absurd (err≢ok (rw (launch, q, k) at h))
      | inl (content, k) ↦ elim (Result-cases (booted w).0) [
        | inr (why, l) ↦ absurd (err≢ok (rw (launch, q, k, boot, l) at h))
        | inl (d, l) ↦ elim (Result-cases (started d content (booted w).1).0) [
          | inl (i, m) ↦ (
            content,
            d,
            i,
            q,
            k,
            l,
            m,
            sym (ok_unique refl (rw (launch, q, k, boot, l, finish, m) at h)),
          )
          | inr (why, m) ↦ absurd (
              clean_disk-fails why made (Resource.delete disks d (started d content (booted w).1).1)
                (rw (launch, q, k, boot, l, finish, m) at h))
        ]
      ]
    ]
  ]

  pub launch_lem :
      (content : String) (d : Resource DiskSpec) (i : Resource InstanceSpec) (w : W)
      → (pool.spec.kubernetes_version == "") ≡ false
      → content_of P host disks instances pool.spec ≡ ok content
      → (booted w).0 ≡ ok d
      → (started d content (booted w).1).0 ≡ ok i
      → launch P host disks instances pool w ≡ (
        ok (with_status P host disks instances Configured d i),
        (started d content (booted w).1).1,
      )
  unfolding launch boot finish
  launch_lem content d i w q k l m = rw (launch, q, k, boot, l, finish, m) refl

  pub version_lem :
      (w : W)
      → (pool.spec.kubernetes_version == "") ≡ true
      → launch P host disks instances pool w ≡ (err version_required, w)
  unfolding launch
  version_lem w q = rw (launch, q) refl

  pub content_lem :
      (why : AgentPoolsError E P N) (w : W)
      → (pool.spec.kubernetes_version == "") ≡ false
      → content_of P host disks instances pool.spec ≡ err why
      → launch P host disks instances pool w ≡ (err why, w)
  unfolding launch
  content_lem why w q k = rw (launch, q, k) refl

  pub disk_lem :
      (content : String) (e : N) (w : W)
      → (pool.spec.kubernetes_version == "") ≡ false
      → content_of P host disks instances pool.spec ≡ ok content
      → (booted w).0 ≡ err e
      → launch P host disks instances pool w ≡ (err (disk_failed e), (booted w).1)
  unfolding launch boot
  disk_lem content e w q k l = rw (launch, q, k, boot, l) refl

  pub instance_lem :
      (content : String) (d : Resource DiskSpec) (e : N) (w : W)
      → (pool.spec.kubernetes_version == "") ≡ false
      → content_of P host disks instances pool.spec ≡ ok content
      → (booted w).0 ≡ ok d
      → (started d content (booted w).1).0 ≡ err e
      → launch P host disks instances pool w
        ≡ clean_disk P host disks instances e
            (Resource.delete disks d (started d content (booted w).1).1)
  unfolding launch boot finish
  instance_lem content d e w q k l m = rw (launch, q, k, boot, l, finish, m) refl

  disk-Unnumbered : pool.status ≡ none → (desired_boot_disk Configured).metadata.id ≡ ""
  unfolding desired_boot_disk
  disk-Unnumbered h = rw (h) refl

  instance-Unnumbered :
      (d : Resource DiskSpec) (content : String)
      → pool.status ≡ none
      → (desired_instance Configured d content).metadata.id ≡ ""
  unfolding desired_instance
  instance-Unnumbered d content h = rw (h) refl

  -- An agent pool without a status, once launched, is launched again with the same answer, and
  -- the cloud stays as it is. The services keep the laws of the Nebius API, and creating an
  -- instance changes no look-up of a disk by name.
  pub launch-again :
      (disk_laws : ServiceLaws disks) (instance_laws : ServiceLaws instances)
      (apart : Apart instances disks) (made : Pool) (w : W)
      → pool.status ≡ none
      → (launch P host disks instances pool w).0 ≡ ok made
      → let w' = (launch P host disks instances pool w).1 in
        launch P host disks instances pool w' ≡ (ok made, w')
  launch-again disk_laws instance_laws apart made w fresh done =
      let (content, d, i, q, k, l, m, same) = launch-Launched made w done in
      let disk = desired_boot_disk Configured in
      let vm = desired_instance Configured d content in
      let w' = (started d content (booted w).1).1 in
      let unnumbered = disk-Unnumbered fresh in
      let found =
        Settled-Apart instances instance_laws disks disk_laws apart vm disk d (booted w).1
          unnumbered (create_or_update-resolve disks disk_laws disk w d unnumbered l) in
      let b : booted w' ≡ (ok d, w') = found_lem disks disk_laws disk w' d found in
      let s : started d content w' ≡ (ok i, w') =
        create_or_update-again instances instance_laws vm (booted w).1 i
          (instance-Unnumbered d content fresh) m in
      rw (launch_lem content d i w q k l m, same)
        (launch_lem content d i w' q k (ap (λ p. p.0) b) (rw (b) (ap (λ p. p.0) s))
          ∙ rw (b, s) refl)
