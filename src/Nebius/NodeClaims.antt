-- ===== src/Nebius/NodeClaims.antt =====
-- nodeclaim.go: agent pools from NodeClaims and back, and provider IDs. The creation time is not
-- modelled.
use Prim.Native.String.{◌++◌ as concat}
use aks_flex.Common.{
  ℕ, ◌≡◌, refl, Option, none, some, [], ◌∷◌, String, Result, ok, err, ◌==◌, string_eq, nat_eq,
  if◌then◌else◌, ltb,
}
use aks_flex.Common.Assoc.{Map, insert}
use aks_flex.Karpenter.{NodeClaim}
use aks_flex.InstanceTypes.{Packages}
use aks_flex.InstanceTypes.Platform.{LaunchSettings, instance_type_name}
use aks_flex.InstanceTypes.Types.{InstanceType}
use aks_flex.Nebius.{
  NebiusNodeClass, CapacityType, unspecified, on_demand, spot, reserved, KubeadmConfig, AgentPool,
  Cluster, Outside,
}

abbrev pub provider_id_scheme : String
provider_id_scheme = "aks-nebius"

pub data ProviderIdError : Type 0 where
  parsing_provider_id : String → ProviderIdError
  unexpected_scheme : String → ProviderIdError

unfoldable pub agent_pool_name_to_provider_id : String → String
agent_pool_name_to_provider_id name = concat (concat provider_id_scheme "://") name

-- lo.PickBy with filterNoneZeroResource
unfoldable pub none_zero : Map String ℕ → Map String ℕ
none_zero [] = []
none_zero ((k, v) ∷ m) = let rest = none_zero m in if v == 0 then rest else (k, v) ∷ rest

-- maps.Copy and lo.Assign: the entries of the second map over those of the first.
unfoldable pub copy_labels : Map String String → Map String String → Map String String
copy_labels labels [] = labels
copy_labels labels ((k, v) ∷ m) = copy_labels (insert k v labels) m

-- lo.FromPtrOr
abbrev pub from_ptr_or : {A : Type 0} → Option A → A → A
from_ptr_or none d = d
from_ptr_or (some a) d = a

module _ {Price PoolError : Type 0} (pkg : Packages Price) (outside : Outside Price PoolError) where
  unfoldable pub provider_id_to_agent_pool_name : String → Result ProviderIdError String
  provider_id_to_agent_pool_name provider_id = elim (outside.parse_url provider_id) [
    | none ↦ err (parsing_provider_id provider_id)
    | some u ↦ if u.0 == provider_id_scheme then ok u.1 else err (unexpected_scheme u.0)
  ]

  unfoldable pub capacity_type_label : CapacityType → String
  capacity_type_label on_demand = pkg.on_demand
  capacity_type_label spot = pkg.spot
  capacity_type_label reserved = outside.capacity_type_reserved
  capacity_type_label unspecified = pkg.on_demand

  unfoldable pub restore_zone : AgentPool → Map String String → Map String String
  restore_zone pool labels =
      if pool.zone == "" then labels else insert pkg.zone_key pool.zone labels

  unfoldable pub stretch_agent_pool_to_node_claim : AgentPool → InstanceType Price → NodeClaim
  unfolding agent_pool_name_to_provider_id none_zero restore_zone capacity_type_label
  stretch_agent_pool_to_node_claim pool it = record {
    name = pool.id;
    labels =
        insert pkg.capacity_type_key (capacity_type_label pool.capacity_type)
          (restore_zone pool (outside.all_single_valued_labels it.requirements));
    node_class_ref = none;
    requirements = [];
    requests = [];
    provider_id = agent_pool_name_to_provider_id pool.id;
    capacity = none_zero it.capacity;
    allocatable = none_zero (outside.allocatable it);
  }

  unfoldable pub capacity_type_of : String → CapacityType
  capacity_type_of t =
      if t == pkg.spot
      then spot
      else (if t == pkg.on_demand
          then on_demand
          else (if t == outside.capacity_type_reserved then reserved else on_demand))

  unfoldable pub kubeadm_config :
      Cluster → NebiusNodeClass → NodeClaim → LaunchSettings → KubeadmConfig
  unfolding copy_labels instance_type_name
  kubeadm_config cluster node_class claim settings = record {
    server = cluster.cluster_endpoint;
    certificate_authority_data = cluster.ca;
    token = cluster.kubelet_client_tls_bootstrap_token;
    node_labels =
        copy_labels
          (copy_labels
            (("karpenter.azure.com/node-claim", claim.name)
              ∷ ("kubernetes.azure.com/managed", "false")
              ∷ ("kubernetes.azure.com/cluster", cluster.node_resource_group)
              ∷ ("aks.azure.com/stretch-managed", "true")
              ∷ [])
            ((pkg.instance_type_key, instance_type_name settings.platform_preset)
              ∷ (pkg.zone_key, settings.zone)
              ∷ (pkg.region_key, node_class.region)
              ∷ (pkg.capacity_type_key, settings.capacity_type)
              ∷ []))
          (("kubernetes.azure.com/mode", "user") ∷ []);
    register_with_taints = outside.unregistered_no_execute_taint ∷ [];
    node_ip = "";
  }

  unfoldable pub node_claim_to_stretch_agent_pool :
      Cluster → NebiusNodeClass → NodeClaim → LaunchSettings → Option String → AgentPool
  unfolding kubeadm_config capacity_type_of
  node_claim_to_stretch_agent_pool cluster node_class claim settings wireguard =
      let platform = settings.platform_preset.platform in
      let has_gpu = ltb 0 platform.gpu_memory_gigabytes in
      record {
        id = claim.name;
        project_id = node_class.project_id;
        region = node_class.region;
        subnet_id = node_class.subnet_id;
        platform = platform.name;
        preset = settings.platform_preset.preset.name;
        image_family =
            if has_gpu
            then "ubuntu24.04-cuda12"
            else from_ptr_or node_class.os_disk_image_family "ubuntu24.04-driverless";
        os_disk_size_gibibytes = from_ptr_or node_class.os_disk_size_gb 100;
        zone = "";
        kubeadm = kubeadm_config cluster node_class claim settings;
        wireguard = wireguard;
        has_gpu_config = has_gpu;
        capacity = 1;
        capacity_type = capacity_type_of settings.capacity_type;
        kubernetes_version = cluster.version_no_v_prefix;
      }

  -- The agent pool of a provider ID that this provider has made.
  pub provider_id_to_agent_pool_name-agent_pool_name_to_provider_id :
      (name : String)
      → outside.parse_url (agent_pool_name_to_provider_id name) ≡ some (provider_id_scheme, name)
      → provider_id_to_agent_pool_name (agent_pool_name_to_provider_id name) ≡ ok name
  unfolding provider_id_to_agent_pool_name
  provider_id_to_agent_pool_name-agent_pool_name_to_provider_id name h =
      rw (provider_id_to_agent_pool_name, h) refl
