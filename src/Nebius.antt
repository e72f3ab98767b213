-- ===== src/Nebius.antt =====
-- The Nebius cloud provider: karpenter/pkg/cloudproviders/nebius. `NodeClaims` is nodeclaim.go, and
-- cloudprovider.go with api.go is in `Calls`, `CloudProvider` and `Reads`. This file has their types
-- and what they take from elsewhere.
pub mod NodeClaims
pub mod Calls
pub mod CloudProvider
pub mod Reads
pub mod Fixture
mod Tests
use aks_flex.Common.{ℕ, Bool, Option, List, String, Result}
use aks_flex.Common.Assoc.{Map}
use aks_flex.Karpenter.{Requirement}
use aks_flex.InstanceTypes.Types.{InstanceType}

-- v1alpha1.NebiusNodeClass, with whether its deletion timestamp is set
pub record NebiusNodeClass : Type 0 where
  pub name : String
  pub terminating : Bool
  pub project_id : String
  pub region : String
  pub subnet_id : String
  pub os_disk_size_gb : Option ℕ
  pub os_disk_image_family : Option String
  pub wireguard_peer_cidr : Option String
  pub max_pods_per_node : Option ℕ

-- capacity.CapacityType
pub data CapacityType : Type 0 where
  unspecified on_demand spot reserved : CapacityType

-- kubeadm.Config; a taint is its key
pub record KubeadmConfig : Type 0 where
  pub server : String
  pub certificate_authority_data : String
  pub token : String
  pub node_labels : Map String String
  pub register_with_taints : List String
  pub node_ip : String

-- nebiusinstance.AgentPool
pub record AgentPool : Type 0 where
  pub id : String
  pub project_id : String
  pub region : String
  pub subnet_id : String
  pub platform : String
  pub preset : String
  pub image_family : String
  pub os_disk_size_gibibytes : ℕ
  pub zone : String
  pub kubeadm : KubeadmConfig
  -- the peer IP of a wireguard.Config
  pub wireguard : Option String
  pub has_gpu_config : Bool
  pub capacity : ℕ
  pub capacity_type : CapacityType
  pub kubernetes_version : String

-- The fields of the operator's options that are read, and the cluster's version and certificate.
pub record Cluster : Type 0 where
  pub cluster_endpoint : String
  pub kubelet_client_tls_bootstrap_token : String
  pub node_resource_group : String
  pub version_no_v_prefix : String
  pub ca : String

-- Packages outside the repository.
pub record Outside (Price PoolError : Type 0) : Type 0 where
  -- the scheme and the host that url.Parse reads
  pub parse_url : String → Option (String × String)
  pub contains : String → String → Bool
  -- the text of an error, and whether its status code is NotFound
  pub error_text : PoolError → String
  pub is_not_found_code : PoolError → Bool
  pub all_single_valued_labels : List Requirement → Map String String
  pub well_known_single_valued_labels : List Requirement → Map String String
  pub allocatable : InstanceType Price → Map String ℕ
  pub capacity_type_reserved : String
  pub unregistered_no_execute_taint : String
