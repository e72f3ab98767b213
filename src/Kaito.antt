-- ===== src/Kaito.antt =====
-- The Kaito cloud provider: karpenter/pkg/cloudproviders/kaito, with KaitoOptions of
-- karpenter/pkg/options/kaito.go. This file has nodeclaim.go; cloudprovider.go is `CloudProvider`.
-- The creation time is not modelled, and a requested quantity is not negative.
pub mod Requested
pub mod Sizes
pub mod CloudProvider
pub mod Unversioned
mod Tests
use Prim.Native.String.{◌++◌ as concat}
use aks_flex.Common.{
  ℕ, ◌+◌, ◌/◌, ◌^◌, ◌≡◌, refl, Bool, true, false, ◌&&◌, not, Option, none, some, List, [], ◌∷◌,
  String, Result, ok, err, ◌==◌, string_eq, nat_eq, if◌then◌else◌, ltb,
}
use aks_flex.Common.Assoc.{Map, lookup}
use aks_flex.Karpenter.{Requirement, NodeClaim}
use aks_flex.Wireguard.Net.{Net}
use aks_flex.Wireguard.Allocator.{IpAllocator, Cache, AllocateError, allocate_ip}
use aks_flex.InstanceTypes.{Packages}
use aks_flex.Nebius.{AgentPool, KubeadmConfig, unspecified, Cluster, Outside}
use aks_flex.Nebius.NodeClaims.{copy_labels}

abbrev pub provider_id_scheme : String
provider_id_scheme = "aks-kaito"

pub record KaitoOptions : Type 0 where
  pub nebius_project_id : String
  pub nebius_region : String
  pub nebius_subnet_id : String
  pub nebius_wireguard_peer_cidr : String

-- What a call fails with; `E` is an error of the plugin's client.
pub data KaitoError (E : Type 0) : Type 0 where
  parsing_provider_id : String → KaitoError E
  unexpected_scheme : String → KaitoError E
  no_instance_type : String → KaitoError E
  invalid_disk_size : String → KaitoError E
  project_id_required region_required subnet_id_required : KaitoError E
  no_mapping : String → KaitoError E
  allocating : AllocateError → KaitoError E
  insufficient_capacity : E → KaitoError E
  creating : E → KaitoError E
  deleting : E → KaitoError E
  node_claim_not_found : E → KaitoError E
  pool_error : E → KaitoError E

-- nodeClaimRequirements
pub record NodeClaimRequirements : Type 0 where
  pub instance_type_requested : String
  pub disk_size_gibibytes_requested : ℕ

-- resolvedNebiusAgentPoolSettings, with the peer IP of a wireguard.Config
pub record Settings : Type 0 where
  pub platform : String
  pub preset : String
  pub image_family : String
  pub os_disk_size_gibibytes : ℕ
  pub wireguard : Option String

unfoldable pub validate : {E : Type 0} → KaitoOptions → Result (KaitoError E) (Unit {0})
validate k =
    if k.nebius_project_id == ""
    then err project_id_required
    else (if k.nebius_region == ""
        then err region_required
        else (if k.nebius_subnet_id == "" then err subnet_id_required else ok tt))

-- azureGPUInstanceTypeToNebiusPlatformPreset: the platform, the preset and the image family
unfoldable pub platform_presets : Map String (String × String × String)
platform_presets =
    ("Standard_NC6s_v3", ("gpu-h100-sxm", "1gpu-16vcpu-200gb", "ubuntu24.04-cuda12")) ∷ []

unfoldable pub agent_pool_name_to_provider_id : String → String
agent_pool_name_to_provider_id name = concat (concat provider_id_scheme "://") name

unfoldable pub stretch_agent_pool_to_node_claim : AgentPool → NodeClaim
unfolding agent_pool_name_to_provider_id
stretch_agent_pool_to_node_claim pool = record {
  name = pool.id;
  labels = [];
  node_class_ref = none;
  requirements = [];
  requests = [];
  provider_id = agent_pool_name_to_provider_id pool.id;
  capacity = [];
  allocatable = [];
}

-- The size of the boot disk for a size that is asked for.
unfoldable pub os_disk_size : ℕ → ℕ
os_disk_size requested = if ltb 100 (requested + 30) then requested + 30 else 100

-- One round of the loop over the requirements, for the instance type that is found so far.
unfoldable pub require : String → String → Requirement → String
require instance_type_key found req = elim req.values [
  | [] ↦ found
  | v ∷ rest ↦
      if req.key == instance_type_key
      then v
      else (if req.key == "karpenter.azure.com/sku-name" && found == "" then v else found)
]

unfoldable pub requested_type : String → String → List Requirement → String
unfolding require
requested_type instance_type_key found [] = found
requested_type instance_type_key found (req ∷ reqs) =
    requested_type instance_type_key (require instance_type_key found req) reqs

-- The size in the request for storage, `none` where there is no request.
abbrev pub gibibytes : Option ℕ → ℕ
gibibytes none = 0
gibibytes (some bytes) = bytes / 2 ^ 30

-- `storage` is corev1.ResourceStorage.
module _ {Price E : Type 0} (pkg : Packages Price) (outside : Outside Price E)
    (storage : String) where
  unfoldable pub provider_id_to_agent_pool_name : String → Result (KaitoError E) String
  provider_id_to_agent_pool_name provider_id = elim (outside.parse_url provider_id) [
    | none ↦ err (parsing_provider_id provider_id)
    | some u ↦ if u.0 == provider_id_scheme then ok u.1 else err (unexpected_scheme u.0)
  ]

  unfoldable pub resolve_node_claim_requirements :
      NodeClaim → Result (KaitoError E) NodeClaimRequirements
  unfolding requested_type
  resolve_node_claim_requirements claim =
      let requested = requested_type pkg.instance_type_key "" claim.requirements in
      let size = gibibytes (lookup storage claim.requests) in
      if requested == ""
      then err (no_instance_type claim.name)
      else (if size == 0
          then err (invalid_disk_size claim.name)
          else ok (record {
            instance_type_requested = requested;
            disk_size_gibibytes_requested = size;
          }))

  unfoldable pub settings_of : String × String × String → ℕ → Option String → Settings
  unfolding os_disk_size
  settings_of pp requested wireguard = record {
    platform = pp.0;
    preset = pp.1;
    image_family = pp.2;
    os_disk_size_gibibytes = os_disk_size requested;
    wireguard = wireguard;
  }

  -- The allocator is given its random source and the cache that it reads.
  unfoldable pub resolve_nebius_agent_pool_settings :
      Net
      → (ℕ → ℕ)
      → Cache
      → KaitoOptions
      → NodeClaim
      → NodeClaimRequirements
      → IpAllocator
      → Result (KaitoError E) Settings × IpAllocator
  unfolding allocate_ip settings_of platform_presets
  resolve_nebius_agent_pool_settings net rand cache opts claim reqs alloc =
      elim (lookup reqs.instance_type_requested platform_presets) [
        | none ↦ (err (no_mapping reqs.instance_type_requested), alloc)
        | some pp ↦
            if opts.nebius_wireguard_peer_cidr == ""
            then (ok (settings_of pp reqs.disk_size_gibibytes_requested none), alloc)
            else (let (r, alloc') =
                  allocate_ip net rand cache alloc opts.nebius_wireguard_peer_cidr "default"
                    claim.name in
                elim r [
                  | err e ↦ (err (allocating e), alloc')
                  | ok ip ↦
                      (ok (settings_of pp reqs.disk_size_gibibytes_requested (some ip)), alloc')
                ])
      ]

  unfoldable pub kubeadm_config : Cluster → NodeClaim → NodeClaimRequirements → KubeadmConfig
  unfolding copy_labels
  kubeadm_config cluster claim reqs = record {
    server = cluster.cluster_endpoint;
    certificate_authority_data = cluster.ca;
    token = cluster.kubelet_client_tls_bootstrap_token;
    node_labels =
        copy_labels
          (copy_labels
            (("karpenter.azure.com/node-claim", claim.name)
              ∷ ("kubernetes.azure.com/managed", "false")
              ∷ ("kubernetes.azure.com/cluster", cluster.node_resource_group)
              ∷ ("aks.azure.com/stretch-managed", "true")
              ∷ [])
            ((pkg.instance_type_key, reqs.instance_type_requested)
              ∷ (pkg.zone_key, "1")
              ∷ (pkg.capacity_type_key, "on-demand")
              ∷ []))
          (("kubernetes.azure.com/mode", "user") ∷ []);
    register_with_taints = outside.unregistered_no_execute_taint ∷ [];
    node_ip = "";
  }

  -- The fields that the builder does not set are those of an empty message.
  unfoldable pub node_claim_to_nebius_agent_pool :
      Cluster → KaitoOptions → NodeClaim → NodeClaimRequirements → Settings → AgentPool
  unfolding kubeadm_config
  node_claim_to_nebius_agent_pool cluster opts claim reqs settings = record {
    id = claim.name;
    project_id = opts.nebius_project_id;
    region = opts.nebius_region;
    subnet_id = opts.nebius_subnet_id;
    platform = settings.platform;
    preset = settings.preset;
    image_family = settings.image_family;
    os_disk_size_gibibytes = settings.os_disk_size_gibibytes;
    zone = "";
    kubeadm = kubeadm_config cluster claim reqs;
    wireguard = settings.wireguard;
    has_gpu_config = false;
    capacity = 0;
    capacity_type = unspecified;
    kubernetes_version = "";
  }
