-- ===== src/Plugin/Ubuntu.antt =====
-- plugin/pkg/services/agentpools/userdata/ubuntu: ubuntu.go, and the files of plugin/pkg/util/kubeadm
-- (kubeadm.go) that it writes to a machine. How Kubernetes encodes the two objects is outside.
use Prim.Native.String.{◌++◌ as concat}
use aks_flex.Common.{
  true, some, List, [], ◌∷◌, ◌++◌, String, Result, ok, ◌>>=◌, ◌==◌, string_eq, if◌then◌else◌,
}
use aks_flex.Common.Assoc.{Map}
use aks_flex.Nebius.{KubeadmConfig}
use aks_flex.Plugin.CloudInit.{words, script, UserData}

-- The one cluster, context and user of the api.Config that Kubeconfig builds.
pub record Kubeconfig : Type 0 where
  pub cluster : String × String × String
  pub context : String × String × String
  pub current_context : String
  pub user : String × String

-- upstreamv1beta4.Arg, and the fields of a JoinConfiguration that JoinConfig sets
pub record Arg : Type 0 where
  pub name : String
  pub value : String

pub record JoinConfiguration : Type 0 where
  pub kube_config_path : String
  pub taints : List String
  pub kubelet_extra_args : List Arg

-- runtime.Encode with the codecs of the two objects.
pub record Encoders (E : Type 0) : Type 0 where
  pub encode_kubeconfig : Kubeconfig → Result E String
  pub encode_join : JoinConfiguration → Result E String

-- strings.Join
unfoldable pub join_texts : String → List String → String
join_texts sep [] = ""
join_texts sep (x ∷ []) = x
join_texts sep (x ∷ y ∷ rest) = concat x (concat sep (join_texts sep (y ∷ rest)))

unfoldable pub key_values : Map String String → List String
key_values [] = []
key_values ((k, v) ∷ rest) = concat k (concat "=" v) ∷ key_values rest

-- nodeLabels, in the order of the map's iteration
unfoldable pub node_labels : Map String String → String
unfolding join_texts key_values
node_labels labels = join_texts "," (key_values labels)

-- The cluster is its name, certificate authority and server; the context its name, cluster and user.
unfoldable pub kubeconfig_of : KubeadmConfig → Kubeconfig
kubeconfig_of cfg = record {
  cluster = ("cluster", cfg.certificate_authority_data, cfg.server);
  context = ("context", "cluster", "user");
  current_context = "context";
  user = ("user", cfg.token);
}

unfoldable pub label_args : Map String String → List Arg
unfolding node_labels
label_args [] = []
label_args (l ∷ ls) = record { name = "node-labels"; value = node_labels (l ∷ ls) } ∷ []

-- HasNodeIp is that the address is not empty.
unfoldable pub node_ip_args : String → List Arg
node_ip_args ip = if ip == "" then [] else record { name = "node-ip"; value = ip } ∷ []

unfoldable pub join_configuration : KubeadmConfig → String → JoinConfiguration
unfolding label_args node_ip_args
join_configuration cfg path = record {
  kube_config_path = path;
  taints = cfg.register_with_taints;
  kubelet_extra_args = label_args cfg.node_labels ++ node_ip_args cfg.node_ip;
}

abbrev pub kube_config_path : String
kube_config_path = "/root/.kube/config"

abbrev pub join_config_path : String
join_config_path = "/root/joinconfig"

unfoldable pub ubuntu_user_data : String → String → UserData
ubuntu_user_data kubeconfig joinconfig = record {
  apt = some (
      (
        "kubernetes",
        record {
          source = "deb https://pkgs.k8s.io/core:/stable:/v1.34/deb/ /";
          key_id = "DE15B14486CD377B9E876E1A234654DA9A296436";
        },
      )
      ∷ []);
  package_update = true;
  package_upgrade = true;
  packages = "containerd" ∷ "kubeadm" ∷ "kubelet" ∷ [];
  write_files =
      record { path = kube_config_path; content = kubeconfig; permissions = "0600" }
      ∷ record { path = join_config_path; content = joinconfig; permissions = "" }
      ∷ [];
  run_cmd =
      words ("set" ∷ "-e" ∷ [])
      ∷ script (
          join_texts "\n" (
            "mkdir -p /etc/containerd"
            ∷ "containerd config default | sed -e '/SystemdCgroup/ s/false/true/' >/etc/containerd/config.toml"
            ∷ "systemctl restart containerd.service" ∷ []))
      ∷ words ("kubeadm" ∷ "join" ∷ "--config" ∷ join_config_path ∷ [])
      ∷ words ("rm" ∷ "-rf" ∷ join_config_path ∷ kube_config_path ∷ [])
      ∷ [];
}

-- UserData
unfoldable pub user_data : {E : Type 0} → Encoders E → KubeadmConfig → Result E UserData
unfolding kubeconfig_of join_configuration ubuntu_user_data
user_data encoders cfg = encoders.encode_kubeconfig (kubeconfig_of cfg) >>= (λ kubeconfig.
    encoders.encode_join (join_configuration cfg kube_config_path)
    >>= (λ joinconfig. ok (ubuntu_user_data kubeconfig joinconfig)))
