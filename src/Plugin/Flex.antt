-- ===== src/Plugin/Flex.antt =====
-- plugin/pkg/services/agentpools/userdata/flex: flex.go, which gives user data of util/cloudinit. The
-- messages of AKSFlexNode's steps are `Step`; how they and the script are printed is outside. A
-- kubeadm configuration is given, and a taint is its key.
pub mod Printed
use aks_flex.Common.{
  Bool, true, false, ◌||◌, Option, none, some, List, [], ◌∷◌, ◌++◌, String, Result, ok, err, ◌>>=◌,
  map_err, ◌==◌, string_eq, if◌then◌else◌,
}
use aks_flex.Common.Assoc.{Map}
use aks_flex.Nebius.{KubeadmConfig}
use aks_flex.Plugin.CloudInit.{WriteFile, Command, words, script, UserData}

-- kubeadm.KubeadmNodeJoin with its Kubelet
pub record NodeJoin : Type 0 where
  pub server : String
  pub certificate_authority_data : String
  pub token : String
  pub node_labels : Map String String
  pub node_ip : Option String
  pub taints : List String

pub data Step : Type 0 where
  configure_base_os disable_docker : Step
  -- the versions of containerd and runc
  download_cri_binaries : String → String → Step
  download_kube_binaries : String → Step
  -- whether the Nvidia runtime is configured
  start_cri : Bool → Step
  configure_iptables : Step
  kubeadm_node_join : NodeJoin → Step

-- What is not the repository's: strings.TrimPrefix, protojson, encoding/json, and the template of
-- the script, given the architecture and the version of the flex node.
pub record Printers (E : Type 0) : Type 0 where
  pub trim_prefix : String → String → String
  pub marshal_step : Step → Result E String
  pub marshal_all : List String → Result E String
  pub execute_template : String → String → Result E String

pub data FlexError (E : Type 0) : Type 0 where
  unsupported_arch : String → FlexError E
  empty_kube_version : FlexError E
  marshalling : E → FlexError E
  rendering : E → FlexError E

-- The type Options.
pub record Options : Type 0 where
  pub enable_nvidia_gpu_runtime : Bool
  pub kube_version : String
  pub arch : String
  pub kubeadm_config : KubeadmConfig

abbrev pub default_arch : String
default_arch = "amd64"

module _ {E : Type 0} (printers : Printers E) where
  -- validate, which gives the version that it leaves in the options.
  unfoldable pub validate : Options → Result (FlexError E) String
  validate o =
      if o.arch == "amd64" || o.arch == "arm64"
      then (let version = printers.trim_prefix o.kube_version "v" in
          if version == "" then err empty_kube_version else ok version)
      else err (unsupported_arch o.arch)

  unfoldable pub node_join : KubeadmConfig → NodeJoin
  node_join config = record {
    server = config.server;
    certificate_authority_data = config.certificate_authority_data;
    token = config.token;
    node_labels = config.node_labels;
    node_ip = if config.node_ip == "" then none else some config.node_ip;
    taints = config.register_with_taints;
  }

  unfoldable pub steps : Bool → String → KubeadmConfig → List Step
  unfolding node_join
  steps gpu version config =
      configure_base_os
      ∷ disable_docker
      ∷ download_cri_binaries "2.0.4" "1.2.5"
      ∷ download_kube_binaries version
      ∷ start_cri gpu
      ∷ configure_iptables
      ∷ kubeadm_node_join (node_join config)
      ∷ []

  -- The loop over the steps.
  unfoldable pub marshal_steps : List String → List Step → Result E (List String)
  marshal_steps xs [] = ok xs
  marshal_steps xs (step ∷ rest) = elim (printers.marshal_step step) [
    | err e ↦ err e
    | ok b ↦ marshal_steps (xs ++ b ∷ []) rest
  ]

  unfoldable pub resolve_flex_component_configs : Bool → String → KubeadmConfig → Result E String
  unfolding steps marshal_steps
  resolve_flex_component_configs gpu version config =
      marshal_steps [] (steps gpu version config) >>= printers.marshal_all

  unfoldable pub render_bootstrap_script : String → Result E String
  render_bootstrap_script arch = printers.execute_template arch "v0.0.17"

  unfoldable pub flex_user_data : String → String → UserData
  flex_user_data configs script_text = record {
    apt = none;
    package_update = true;
    package_upgrade = false;
    packages = "curl" ∷ [];
    write_files =
        record { path = "/tmp/flex-config.json"; content = configs; permissions = "0644" } ∷ [];
    run_cmd = words ("set" ∷ "-e" ∷ []) ∷ script script_text ∷ [];
  }

  -- UserData, on the options that its arguments set.
  unfoldable pub user_data : Options → Result (FlexError E) UserData
  unfolding validate resolve_flex_component_configs render_bootstrap_script flex_user_data
  user_data o = validate o >>= (λ version.
      map_err marshalling
        (resolve_flex_component_configs o.enable_nvidia_gpu_runtime version o.kubeadm_config)
      >>= (λ configs.
          map_err rendering (render_bootstrap_script o.arch)
          >>= (λ script_text. ok (flex_user_data configs script_text))))
