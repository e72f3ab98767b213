-- ===== src/Plugin/AgentPools/Refusals.antt =====
-- Agent pools that fail, and agent pools that are deleted.
use mathlib.Core.Path.{subst}
use aks_flex.Common.{
  true, false, some, ◌≡◌, refl, sym, ap, ◌∙◌, ◌⊎◌, inl, inr, String, Result, ok, err, ◌==◌,
  string_eq, Result-cases,
}
use aks_flex.Plugin.CloudInit.{UserData, marshal}
use aks_flex.Plugin.Flex.{FlexError}
use aks_flex.Plugin.Resource.{Resource, Service, ServiceLaws}
use aks_flex.Plugin.Resource as Resource
use aks_flex.Plugin.Resource.Removed.{
  IsGone, IsRefused, Deletes, Refuses, delete-Deletes, delete-Refuses, Deletes-IsGone,
  Refuses-IsRefused,
}
use aks_flex.Plugin.AgentPools.{
  AgentPoolStatus, Pool, DiskSpec, InstanceSpec, Host, desired_boot_disk, desired_instance,
  instance_user_data,
}
use aks_flex.Plugin.AgentPools.Launch.{
  AgentPoolsError, version_required, generating, printing, disk_failed, instance_failed,
  instance_and_disk_failed, with_status, content_of, launch, remove_disk, remove,
}
use aks_flex.Plugin.AgentPools.Reapply.{booted, started, Launched, launch-Launched}

unwrap : {A : Type 0} {a b : A} → some a ≡ some b → a ≡ b
unwrap h = cc

instance_id-eq :
    (pool : Pool) (st : AgentPoolStatus)
    → pool.status ≡ some st
    → (desired_instance pool (desired_boot_disk pool) "").metadata.id ≡ st.instance_id
unfolding desired_instance
instance_id-eq pool st h = rw (h) refl

os_disk_id-eq :
    (pool : Pool) (st : AgentPoolStatus)
    → pool.status ≡ some st
    → (desired_boot_disk pool).metadata.id ≡ st.os_disk_id
unfolding desired_boot_disk
os_disk_id-eq pool st h = rw (h) refl

module _ {E N DiskOp InstanceOp W : Type 0} (P : Type 0) (host : Host E)
    (disks : Service DiskSpec DiskOp N W) (instances : Service InstanceSpec InstanceOp N W) where
  module _ (laws : ServiceLaws disks) (pool : Pool) (w : W) where
    -- A launch that asks nothing of the cloud, and why.
    abbrev pub Unasked : Result (AgentPoolsError E P N) Pool → Type 0
    Unasked r =
        (((pool.spec.kubernetes_version == "") ≡ true) × (r ≡ err version_required))
        ⊎ (((pool.spec.kubernetes_version == "") ≡ false)
            × (((e : FlexError E) × (instance_user_data host pool.spec ≡ err e)
                  × (r ≡ err (generating e)))
                ⊎ ((ud : UserData) × (instance_user_data host pool.spec ≡ ok ud)
                    × (e : E) × (marshal host.yaml_marshal ud ≡ err e)
                    × (r ≡ err (printing e)))))

    -- A launch whose instance has failed: its disk is deleted, or the deletion has failed too.
    abbrev pub Unstarted :
        Resource DiskSpec → N → W → Result (AgentPoolsError E P N) Pool × W → Type 0
    Unstarted d e v r =
        ((r.0 ≡ err (instance_failed e)) × Deletes disks laws d v r.1)
        ⊎ ((e' : N) × (r.0 ≡ err (instance_and_disk_failed e e')) × Refuses disks laws d e' v)

    -- What a launch from the world `w` leaves, on each branch.
    abbrev pub Outcome : Result (AgentPoolsError E P N) Pool × W → Type 0
    Outcome r =
        ((r.1 ≡ w) × Unasked r.0)
        -- there is no disk, and no instance is asked for
        ⊎ ((e : N) × ((booted P host disks instances pool w).0 ≡ err e)
            × (r ≡ (err (disk_failed e), (booted P host disks instances pool w).1)))
        -- there is no instance
        ⊎ ((content : String) × (d : Resource DiskSpec) × (e : N) × (content_of P host disks
                instances pool.spec
              ≡ ok content)
            × ((booted P host disks instances pool w).0 ≡ ok d)
            × ((started P host disks instances pool d content
                  (booted P host disks instances pool w).1).0
                ≡ err e)
            × Unstarted d e
                (started P host disks instances pool d content
                  (booted P host disks instances pool w).1).1
                r)
        -- the instance runs
        ⊎ ((made : Pool) × (r.0 ≡ ok made) × Launched P host disks instances pool made w)

  -- The instance that Delete asks to delete.
  abbrev pub released : Pool → W → Result N (Unit {0}) × W
  released pool w = Resource.delete instances (desired_instance pool (desired_boot_disk pool) "") w

  module _ (laws : ServiceLaws disks) (instance_laws : ServiceLaws instances) where
    -- What Delete leaves: an instance that cannot be deleted keeps its disk; otherwise it is deleted,
    -- and then so is the disk when Delete succeeds.
    abbrev pub Removal : Pool → W → Result (AgentPoolsError E P N) (Unit {0}) × W → Type 0
    Removal pool w r =
        let disk = desired_boot_disk pool in
        let vm = desired_instance pool disk "" in
        ((e : N) × Refuses instances instance_laws vm e w
          × (r ≡ (err (instance_failed e), (released pool w).1)))
        ⊎ ((v : W) × Deletes instances instance_laws vm w v
            × (((e : N) × Refuses disks laws disk e v × (r.0 ≡ err (disk_failed e)))
                ⊎ ((r.0 ≡ ok tt) × Deletes disks laws disk v r.1)))

    -- Delete deletes the instance before its disk: where the service refuses to delete the
    -- instance, nothing is asked for the disk; otherwise the service of instances has deleted it
    -- or has none, and then the service of disks has deleted the disk or has none, or has refused
    -- to and its error is returned. Each is deleted under its ID, or under the ID that its name
    -- has where it has none. The services keep the laws of the Nebius API.
    pub remove-Removal :
        (pool : Pool) (w : W) → Removal pool w (remove P host disks instances pool w)
    unfolding remove remove_disk
    remove-Removal pool w =
        let disk = desired_boot_disk pool in
        let vm = desired_instance pool disk "" in
        let v = (released pool w).1 in
        elim (Result-cases (released pool w).0) [
          | inr (e, q) ↦
              inl (
                e,
                delete-Refuses instances instance_laws vm e w q,
                rw (remove, q, remove_disk) refl,
              )
          | inl (u, q) ↦
              let gone = delete-Deletes instances instance_laws vm w q in
              elim (Result-cases (Resource.delete disks disk v).0) [
                | inr (e, k) ↦
                    rw (remove, q, remove_disk, k)
                      (inr (v, gone, inl (e, delete-Refuses disks laws disk e v k, refl)))
                | inl (u', k) ↦
                    rw (remove, q, remove_disk, k)
                      (inr (v, gone, inr (refl, delete-Deletes disks laws disk v k)))
              ]
        ]

    -- What Delete leaves of an instance and a disk with these ids.
    abbrev pub RemovalOf :
        String → String → W → Result (AgentPoolsError E P N) (Unit {0}) × W → Type 0
    RemovalOf instance_id disk_id w r =
        ((e : N) × IsRefused instances instance_laws instance_id e w
          × (r.0 ≡ err (instance_failed e)))
        ⊎ ((v : W) × IsGone instances instance_laws instance_id w v
            × (((e : N) × IsRefused disks laws disk_id e v × (r.0 ≡ err (disk_failed e)))
                ⊎ ((r.0 ≡ ok tt) × IsGone disks laws disk_id v r.1)))

    Removal-RemovalOf :
        (pool : Pool) (st : AgentPoolStatus) (w : W)
        (r : Result (AgentPoolsError E P N) (Unit {0}) × W)
        → pool.status ≡ some st
        → ((st.instance_id == "") ≡ false)
        → ((st.os_disk_id == "") ≡ false)
        → Removal pool w r
        → RemovalOf st.instance_id st.os_disk_id w r
    unfolding desired_boot_disk desired_instance
    Removal-RemovalOf pool st w r has vm_set disk_set (inl (e, refused, same)) =
        let disk = desired_boot_disk pool in
        let vm = desired_instance pool disk "" in
        inl (
          e,
          Refuses-IsRefused instances instance_laws vm st.instance_id e w vm_set
              (instance_id-eq pool st has) refused,
          ap (λ x. x.0) same,
        )
    Removal-RemovalOf pool st w r has vm_set disk_set (inr (v, gone, rest)) =
        let disk = desired_boot_disk pool in
        let vm = desired_instance pool disk "" in
        inr (
          v,
          Deletes-IsGone instances instance_laws vm st.instance_id w v vm_set
              (instance_id-eq pool st has) gone,
          elim rest [
            | inl (e, refused, same) ↦ inl (
              e,
              Refuses-IsRefused disks laws disk st.os_disk_id e v disk_set
                  (os_disk_id-eq pool st has) refused,
              same,
            )
            | inr (same, gone') ↦ inr (
              same,
              Deletes-IsGone disks laws disk st.os_disk_id v r.1 disk_set
                  (os_disk_id-eq pool st has) gone',
            )
          ],
        )

    -- An agent pool from a launch in the world `w`, and its Delete in the world `v`.
    abbrev pub Named : Pool → Pool → W → W → Type 0
    Named pool made w v =
        (content : String) × (d : Resource DiskSpec) × (i : Resource InstanceSpec) × (content_of P
            host disks instances pool.spec
          ≡ ok content)
        × ((booted P host disks instances pool w).0 ≡ ok d)
        × ((started P host disks instances pool d content
              (booted P host disks instances pool w).1).0
            ≡ ok i)
        × RemovalOf i.metadata.id d.metadata.id v (remove P host disks instances made v)

    -- For an agent pool that CreateOrUpdate has returned with IDs that are not empty, Delete in
    -- any world deletes the instance under the ID of the instance that CreateOrUpdate ended with,
    -- and then the disk under the ID of its disk: it returns the first refusal of a service, or
    -- both services have deleted what has the ID or have none. The services keep the laws of the
    -- Nebius API.
    pub launch-Named :
        (pool : Pool) (made : Pool) (st : AgentPoolStatus) (w v : W)
        → (launch P host disks instances pool w).0 ≡ ok made
        → made.status ≡ some st
        → ((st.instance_id == "") ≡ false)
        → ((st.os_disk_id == "") ≡ false)
        → Named pool made w v
    unfolding with_status
    launch-Named pool made st w v h has vm_set disk_set =
        let (content, d, i, q, k, l, m, same) =
          launch-Launched P host disks instances pool made w h in
        let status = unwrap (sym (ap (λ p. p.status) same) ∙ has) in
        let removed =
          Removal-RemovalOf made st v (remove P host disks instances made v) has vm_set disk_set
            (remove-Removal made v) in
        (
          content,
          d,
          i,
          k,
          l,
          m,
          subst (λ x. RemovalOf x.instance_id x.os_disk_id v (remove P host disks instances made v))
              (sym status) removed,
        )
