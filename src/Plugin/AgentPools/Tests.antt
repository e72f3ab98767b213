-- ===== src/Plugin/AgentPools/Tests.antt =====
-- A cloud of one disk and one instance, beside each other.
use aks_flex.Common.{
  ◌≡◌, refl, inl, inr, true, none, some, [], String, Result, ok, string_eq, Option-cases,
}
use aks_flex.Nebius.{on_demand}
use aks_flex.Plugin.Resource.{Resource, Service, ServiceLaws}
use aks_flex.Plugin.Resource as Resource
use aks_flex.Plugin.Resource.Slot.{SlotError, slot}
use aks_flex.Plugin.CloudInit.{marshal}
use aks_flex.Plugin.Flex.Printed.{Configured, user_data-Configured}
use aks_flex.Plugin.Flex.{
  Options, user_data, validate, resolve_flex_component_configs, steps, marshal_steps,
  render_bootstrap_script, flex_user_data,
}
use aks_flex.Plugin.AgentPools.{
  Pool, desired_boot_disk, desired_instance, with_kubeadm, node_config, instance_user_data,
  with_wireguard, wg_command,
}
use aks_flex.Plugin.AgentPools.Fixture.{Cloud, disks, instances, disk_laws, instance_laws, host}
use aks_flex.Plugin.AgentPools.Launch.{
  AgentPoolsError, launch, remove, boot, finish, with_status, content_of,
}
use aks_flex.Plugin.AgentPools.Reapply.{launch-again}
use aks_flex.Plugin.Resource.Apart.{Apart}
use aks_flex.Plugin.AgentPools.Joined.{Joins, node_config-Joins}
use aks_flex.Plugin.AgentPools.Refusals.{Removal, remove-Removal, Named, launch-Named}

abbrev pool : Pool
pool = record {
  spec = record {
    id = "claim";
    project_id = "project";
    region = "eu";
    subnet_id = "subnet";
    platform = "gpu-h100-sxm";
    preset = "1gpu-16vcpu-200gb";
    image_family = "ubuntu24.04-cuda12";
    os_disk_size_gibibytes = 128;
    zone = "";
    kubeadm = record {
      server = "https://api";
      certificate_authority_data = "ca";
      token = "token";
      node_labels = [];
      register_with_taints = [];
      node_ip = "";
    };
    wireguard = some "100.96.0.7";
    has_gpu_config = true;
    capacity = 1;
    capacity_type = on_demand;
    kubernetes_version = "1.34.2";
  };
  status = none;
}

abbrev first : Result (AgentPoolsError String SlotError SlotError) Pool × Cloud
first = launch SlotError host disks instances pool (none, none)

abbrev running : Pool
running = record {
  spec = with_kubeadm pool.spec (node_config host pool.spec);
  status = some (record { instance_id = "vm-1"; os_disk_id = "disk-1"; created_at = some "now" });
}

first-running : first.0 ≡ ok running
unfolding launch boot finish with_status content_of instance_user_data user_data validate
    resolve_flex_component_configs steps marshal_steps render_bootstrap_script flex_user_data
    with_wireguard wg_command marshal Resource.create_or_update Resource.resolve Resource.create
    Resource.wait_and_get desired_boot_disk desired_instance slot
first-running = refl

apart : Apart instances disks
unfolding slot
apart = record {
  create_apart = λ md spec name parent w. elim (Option-cases w.1) [
    | inl q ↦ rw (slot, q) refl
    | inr (r, q) ↦ rw (slot, q) refl
  ];
  wait_apart = λ op name parent w. refl;
}

launch-again_example : launch SlotError host disks instances pool first.1 ≡ (ok running, first.1)
launch-again_example =
    launch-again SlotError host disks instances pool disk_laws instance_laws apart running
      (none, none) refl first-running

remove-Removal_example :
    Removal SlotError host disks instances disk_laws instance_laws running first.1
      (remove SlotError host disks instances running first.1)
remove-Removal_example =
    remove-Removal SlotError host disks instances disk_laws instance_laws running first.1

launch-Named_example :
    Named SlotError host disks instances disk_laws instance_laws pool running (none, none) first.1
launch-Named_example =
    launch-Named SlotError host disks instances disk_laws instance_laws pool running
      (record { instance_id = "vm-1"; os_disk_id = "disk-1"; created_at = some "now" }) (none, none)
      first.1 first-running refl refl refl

node_config-Joins_example : Joins host pool.spec (node_config host pool.spec)
node_config-Joins_example = node_config-Joins host pool.spec

abbrev options : Options
options = record {
  enable_nvidia_gpu_runtime = true;
  kube_version = "1.34.2";
  arch = "amd64";
  kubeadm_config = pool.spec.kubeadm;
}

options_accepted :
    user_data host.printers options ≡ ok (flex_user_data host.printers "[]" "bootstrap")
unfolding user_data validate resolve_flex_component_configs steps marshal_steps
    render_bootstrap_script
options_accepted = refl

user_data-Configured_example :
    Configured host.printers options (flex_user_data host.printers "[]" "bootstrap")
user_data-Configured_example =
    user_data-Configured host.printers options (flex_user_data host.printers "[]" "bootstrap")
      options_accepted
