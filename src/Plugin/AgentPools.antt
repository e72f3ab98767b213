-- ===== src/Plugin/AgentPools.antt =====
-- plugin/pkg/services/agentpools/nebius/instance: agentpools.go, the back-end for agent pools of
-- Nebius. `disks` and `instances` are the services of the SDK, over one cloud. An agent pool has a
-- kubeadm configuration and the disk size of a machine; Get and List are not implemented there.
pub mod Launch
pub mod Refusals
pub mod Reapply
pub mod Joined
pub mod Fixture
mod Tests
use Prim.Native.String.{◌++◌ as concat}
use aks_flex.Common.{
  ℕ, ◌≡◌, Bool, true, false, Option, none, some, List, [], ◌∷◌, ◌++◌, String, Result, ok, err,
  ◌>>=◌, or_err, map_err, ◌==◌, string_eq, if◌then◌else◌,
}
use aks_flex.Nebius.{AgentPool, KubeadmConfig, CapacityType, unspecified, on_demand, spot, reserved}
use aks_flex.Nebius.NodeClaims.{copy_labels, from_ptr_or}
use aks_flex.Plugin.Resource.{Metadata, Resource}
use aks_flex.Plugin.CloudInit.{WriteFile, Command, script, UserData}
use aks_flex.Plugin.Flex.{Printers, FlexError, Options, default_arch, user_data}

-- AgentPoolStatus, and an agent pool with it
pub record AgentPoolStatus : Type 0 where
  pub instance_id : String
  pub os_disk_id : String
  pub created_at : Option String

pub record Pool : Type 0 where
  pub spec : AgentPool
  pub status : Option AgentPoolStatus

pub data DiskType : Type 0 where
  network_ssd : DiskType

pub record DiskSpec : Type 0 where
  pub size_gibibytes : ℕ
  pub type : DiskType
  pub image_family : String

-- NetworkInterfaceSpec, whose private address Nebius chooses
pub record NetworkInterface : Type 0 where
  pub subnet_id : String
  pub name : String

-- PreemptibleSpec with OnPreemption STOP, given by its priority; and InstanceRecoveryPolicy_FAIL
pub record InstanceSpec : Type 0 where
  pub platform : String
  pub preset : String
  pub boot_disk_id : String
  pub network_interfaces : List NetworkInterface
  pub cloud_init_user_data : String
  pub preemptible : Option ℕ
  pub fails_instead_of_restart : Bool

abbrev pub instance_id : Pool → String
instance_id ap = from_ptr_or (elim ap.status [ none ↦ none | some s ↦ some s.instance_id ]) ""

abbrev pub os_disk_id : Pool → String
os_disk_id ap = from_ptr_or (elim ap.status [ none ↦ none | some s ↦ some s.os_disk_id ]) ""

unfoldable pub desired_boot_disk : Pool → Resource DiskSpec
desired_boot_disk ap = record {
  metadata = record {
    id = os_disk_id ap;
    parent_id = ap.spec.project_id;
    name = concat ap.spec.id "-boot";
    created_at = none;
  };
  spec = record {
    size_gibibytes = ap.spec.os_disk_size_gibibytes;
    type = network_ssd;
    image_family = ap.spec.image_family;
  };
}

abbrev pub is_spot : CapacityType → Bool
is_spot spot = true
is_spot unspecified = false
is_spot on_demand = false
is_spot reserved = false

unfoldable pub desired_instance : Pool → Resource DiskSpec → String → Resource InstanceSpec
desired_instance ap os_disk content = record {
  metadata = record {
    id = instance_id ap;
    parent_id = ap.spec.project_id;
    name = ap.spec.id;
    created_at = none;
  };
  spec = record {
    platform = ap.spec.platform;
    preset = ap.spec.preset;
    boot_disk_id = os_disk.metadata.id;
    network_interfaces = record { subnet_id = ap.spec.subnet_id; name = "eth0" } ∷ [];
    cloud_init_user_data = content;
    preemptible = if is_spot ap.spec.capacity_type then some 5 else none;
    fails_instead_of_restart = is_spot ap.spec.capacity_type;
  };
}

-- Config.SetNodeIp and Config.AddNodeLabels
abbrev pub with_node_ip : KubeadmConfig → String → KubeadmConfig
with_node_ip config ip = record config { node_ip = ip }

unfoldable pub add_node_labels : KubeadmConfig → List (String × String) → KubeadmConfig
unfolding copy_labels
add_node_labels config extra = record config { node_labels = copy_labels config.node_labels extra }

abbrev pub with_kubeadm : AgentPool → KubeadmConfig → AgentPool
with_kubeadm pool config = record pool { kubeadm = config }

-- What is not the package's own: strings.ToLower, the embedded wg-spoke.sh, yaml.Marshal, and the
-- printers of the flex node's user data.
pub record Host (E : Type 0) : Type 0 where
  pub to_lower : String → String
  pub wg_spoke_script : String
  pub yaml_marshal : UserData → Result E String
  pub printers : Printers E

module _ {E : Type 0} (host : Host E) where
  -- The labels of the node, with the zone's where one is given.
  unfoldable pub label_node : AgentPool → KubeadmConfig
  unfolding add_node_labels
  label_node spec =
      let labelled = add_node_labels spec.kubeadm (
        ("aks.azure.com/cloud", "nebius")
        ∷ ("aks.azure.com/region", host.to_lower spec.region)
        ∷ ("aks.azure.com/instance-type", concat (concat spec.platform "-") spec.preset)
        ∷ []) in
      if spec.zone == ""
      then labelled
      else add_node_labels labelled (("aks.azure.com/zone", host.to_lower spec.zone) ∷ [])

  -- The kubeadm configuration that the handler leaves in the agent pool.
  unfoldable pub node_config : AgentPool → KubeadmConfig
  unfolding label_node
  node_config spec =
      let ip = from_ptr_or spec.wireguard "" in
      if ip == "" then label_node spec else with_node_ip (label_node spec) ip

  unfoldable pub wg_command : String → String → String
  wg_command ip subnet_id =
      concat "export ANNOTATION_PREFIX='stretch.azure.com/wireguard-'\nexport WG_ADDRESS='" (
        concat ip (
          concat "/32'\nexport WG_SITE='"
            (concat subnet_id "'\nexport WG_DAEMONIZE='true'\n/root/wg-spoke.sh")))

  unfoldable pub with_wireguard : String → String → UserData → UserData
  unfolding wg_command
  with_wireguard ip subnet_id ud = record ud {
    packages = ud.packages ++ "wireguard" ∷ "wireguard-tools" ∷ [];
    write_files =
        ud.write_files
        ++ record {
          path = "/root/wg-spoke.sh";
          content = host.wg_spoke_script;
          permissions = "0755";
        }
          ∷ [];
    run_cmd = ud.run_cmd ++ script (wg_command ip subnet_id) ∷ [];
  }

  -- The user data of an instance, before it is printed.
  unfoldable pub instance_user_data : AgentPool → Result (FlexError E) UserData
  unfolding user_data node_config with_wireguard
  instance_user_data spec =
      let ip = from_ptr_or spec.wireguard "" in
      user_data host.printers (record {
        enable_nvidia_gpu_runtime = spec.has_gpu_config;
        kube_version = spec.kubernetes_version;
        arch = default_arch;
        kubeadm_config = node_config spec;
      })
      >>= (λ ud. ok (if ip == "" then ud else with_wireguard ip spec.subnet_id ud))
