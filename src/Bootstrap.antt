-- ===== src/Bootstrap.antt =====
-- The bootstrap token of a cluster: cli/internal/config/k8sbootstrap/k8sbootstrap.go, and what deploys
-- it (cli/internal/aks/deploy/k8s.go with plugin/pkg/util/k8s/apply.go and ManagedCluster of
-- plugin/pkg/util/az/aks.go). Bytes are lists of numbers.
pub mod Tokens
pub mod Node
pub mod Joined
pub mod Reused
pub mod Printed
mod Tests
use Prim.Native.Char.{code}
use Prim.Native.String.{◌++◌ as concat}
use aks_flex.Common.{
  ℕ, zero, suc, ◌+◌, Bool, true, false, Option, none, some, List, [], ◌∷◌, ◌++◌, String, Result, ok,
  err, ◌>>=◌, or_err, map_err, length, ltb, ◌==◌, string_eq, nat_eq, if◌then◌else◌,
}
use aks_flex.Common.Assoc.{Map, lookup}
use aks_flex.Plugin.Chunks.{take}
use aks_flex.Cluster.{
  ClusterConfig, KubeCluster, KubeContext, Kubeconfig, Kube, KubeError, entry, kubeconfig,
}

abbrev pub Bytes : Type 0
Bytes = List ℕ

-- The bytes of an ASCII text.
abbrev pub codes : String → Bytes
codes String.[] = []
codes (String.◌∷◌ c s) = code c ∷ codes s

-- corev1.Secret, in the namespace kube-system
pub record Secret : Type 0 where
  pub name : Bytes
  pub labels : Map String String
  pub secret_data : Map String Bytes

-- What the template renders: the secret, and other objects by their kind and name.
pub data Manifest : Type 0 where
  secret : Secret → Manifest
  other : String → String → Manifest

pub record Params : Type 0 where
  pub certificate_authority_data : String
  pub server : String
  pub kubernetes_version : String
  pub service_subnet : String
  pub token_id : Bytes
  pub token_secret : Bytes

-- The pointers of a managed cluster that are read.
pub record ManagedCluster : Type 0 where
  pub service_cidr : Option String
  pub node_resource_group : Option String

-- What is not the repository's: the clients of the API server and of managed clusters, base64, the
-- hexadecimal SHA-256 of a text, crypto/rand below a bound, and text/template with the decoder of
-- YAML, whose stream is the objects of the rendered template.
pub record Api (E Text W : Type 0) : Type 0 where
  -- ClientConfig, client.New and NewDiscoveryClientForConfig, by the kubeconfig that they come from
  pub client_config : Kubeconfig → Result E (Unit {0})
  pub new_client : Kubeconfig → Result E (Unit {0})
  pub new_discovery_client : Kubeconfig → Result E (Unit {0})
  pub server_version : W → Result E String × W
  -- A client of managed clusters is known by its subscription.
  pub new_managed_clusters_client : String → Result E (Unit {0})
  pub get_managed_cluster : String → String → String → W → Result E ManagedCluster × W
  pub get_secret : Bytes → W → Result E Secret × W
  pub is_not_found : E → Bool
  pub list_secrets : String → W → Result E (List Secret) × W
  pub patch : Manifest → String → W → Result E (Unit {0}) × W
  pub encode_base64 : String → String
  pub sha256_hex : String → Bytes
  pub random_below : ℕ → W → Result E ℕ × W
  pub render : Params → Result E Text
  pub decode : Text → List (Result E Manifest)

pub data BootstrapError (E : Type 0) : Type 0 where
  api : E → BootstrapError E
  cluster_failed : KubeError E → BootstrapError E
  nil_dereference : BootstrapError E
  not_one_secret : BootstrapError E
  no_node_resource_group : BootstrapError E

-- `letters[r]` of the digits and the small letters
unfoldable pub letter : ℕ → ℕ
letter r = if ltb r 10 then r + 48 else r + 87

abbrev pub bytes_or_empty : Option Bytes → Bytes
bytes_or_empty none = []
bytes_or_empty (some b) = b

abbrev pub label : String
label = "flex.aks.azure.com/bootstrap-token"

-- The Data of the secret, and the secret.
unfoldable pub token_data : Bytes → Bytes → Map String Bytes
token_data id value =
    ("auth-extra-groups", codes "system:bootstrappers:kubeadm:default-node-token")
    ∷ ("token-id", id)
    ∷ ("token-secret", value)
    ∷ ("usage-bootstrap-authentication", codes "true")
    ∷ ("usage-bootstrap-signing", codes "true")
    ∷ []

unfoldable pub secret_name : Bytes → Bytes
secret_name id = codes "bootstrap-token-" ++ id

unfoldable pub token_secret : Bytes → Bytes → Secret
unfolding token_data secret_name
token_secret id value = record {
  name = secret_name id;
  labels = (label, "true") ∷ [];
  secret_data = token_data id value;
}

module _ {E Text W : Type 0} (a : Api E Text W) where
  -- The client of FromAKS, and the clients of deployK8S.
  unfoldable pub client_of : Kubeconfig → Result E (Unit {0})
  client_of k = a.client_config k >>= (λ _. a.new_client k)

  unfoldable pub clients_of : Kubeconfig → Result E (Unit {0})
  unfolding client_of
  clients_of k = client_of k >>= (λ _. a.new_discovery_client k)

  -- TokenID
  unfoldable pub token_id : ClusterConfig → Bytes
  unfolding take
  token_id cfg = take 6 (
      a.sha256_hex (
        concat "/subscriptions/"
          (concat cfg.subscription_id (concat "/resourceGroups/" cfg.resource_group_name))))

  -- The loop of RandomString, with what it has drawn, and RandomString.
  unfoldable pub random_letters : ℕ → Bytes → W → Result E Bytes × W
  unfolding letter
  random_letters zero b w = (ok b, w)
  random_letters (suc n) b w =
      let (r, w') = a.random_below 36 w in
      elim r [ err e ↦ (err e, w') | ok i ↦ random_letters n (b ++ letter i ∷ []) w' ]

  unfoldable pub random_string : ℕ → W → Result E Bytes × W
  unfolding random_letters
  random_string n w = random_letters n [] w

  -- The value of an existing secret, which is empty where there is none.
  unfoldable pub existing_value : Result E Secret → Result E Bytes
  unfolding lookup
  existing_value (ok s) = ok (bytes_or_empty (lookup "token-secret" s.secret_data))
  existing_value (err e) = if a.is_not_found e then ok [] else err e

  -- BootstrapTokenSecret after the look-up of the secret.
  unfoldable pub secret_for : Bytes → Result E Bytes × W → Result E Secret × W
  unfolding random_string token_secret
  secret_for id (err e, w) = (err e, w)
  secret_for id (ok value, w) =
      if length value == 16
      then (ok (token_secret id value), w)
      else (let (r, w') = random_string 16 w in (r >>= (λ v. ok (token_secret id v)), w'))

  -- BootstrapTokenSecret with a client
  unfoldable pub bootstrap_token_secret : ClusterConfig → W → Result E Secret × W
  unfolding token_id secret_name existing_value secret_for
  bootstrap_token_secret cfg w =
      let id = token_id cfg in
      let (r, w') = a.get_secret (secret_name id) w in secret_for id (existing_value r, w')

  -- ApplyYAMLSpec: the loop over the decoded stream.
  unfoldable pub apply_objects : List (Result E Manifest) → String → W → Result E (Unit {0}) × W
  apply_objects [] owner w = (ok tt, w)
  apply_objects (err e ∷ rest) owner w = (err e, w)
  apply_objects (ok m ∷ rest) owner w =
      let (r, w') = a.patch m owner w in
      elim r [ err e ↦ (err e, w') | ok _ ↦ apply_objects rest owner w' ]

  -- The parameters of the template, for a cluster, a version and a secret.
  unfoldable pub params : KubeCluster → String → String → Secret → Params
  unfolding lookup
  params cluster version subnet s = record {
    certificate_authority_data = a.encode_base64 cluster.certificate_authority_data;
    server = cluster.server;
    kubernetes_version = version;
    service_subnet = subnet;
    token_id = bytes_or_empty (lookup "token-id" s.secret_data);
    token_secret = bytes_or_empty (lookup "token-secret" s.secret_data);
  }

  unfoldable pub apply_rendered : Result E Text → W → Result (BootstrapError E) (Unit {0}) × W
  unfolding apply_objects
  apply_rendered (err e) w = (err (api e), w)
  apply_rendered (ok text) w =
      let (r, w') = apply_objects (a.decode text) "aks-flex-cli" w in (map_err api r, w')

  -- deployK8S once the secret is resolved.
  unfoldable pub apply_token :
      Option KubeCluster
      → String
      → Option String
      → Result E Secret × W
      → Result (BootstrapError E) (Unit {0}) × W
  unfolding params apply_rendered
  apply_token cluster version subnet (err e, w) = (err (api e), w)
  apply_token none version subnet (ok s, w) = (err nil_dereference, w)
  apply_token (some cluster) version none (ok s, w) = (err nil_dereference, w)
  apply_token (some cluster) version (some subnet) (ok s, w) =
      apply_rendered (a.render (params cluster version subnet s)) w

  -- deployK8S once the context of the kubeconfig is looked up.
  unfoldable pub deploy_in :
      ClusterConfig
      → Kubeconfig
      → Option String
      → Option KubeContext
      → Result E String × W
      → Result (BootstrapError E) (Unit {0}) × W
  unfolding bootstrap_token_secret apply_token
  deploy_in cfg k subnet ctx (err e, w) = (err (api e), w)
  deploy_in cfg k subnet none (ok version, w) = (err nil_dereference, w)
  deploy_in cfg k subnet (some ctx) (ok version, w) =
      apply_token (entry (lookup ctx.cluster k.clusters)) version subnet
        (bootstrap_token_secret cfg w)

  -- deployK8S once the kubeconfig is loaded.
  unfoldable pub deploy_loaded :
      ClusterConfig
      → ManagedCluster
      → Result (KubeError E) Kubeconfig × W
      → Result (BootstrapError E) (Unit {0}) × W
  unfolding clients_of deploy_in lookup
  deploy_loaded cfg mc (err e, w) = (err (cluster_failed e), w)
  deploy_loaded cfg mc (ok k, w) = elim (clients_of k) [
    | err e ↦ (err (api e), w)
    | ok _ ↦
        deploy_in cfg k mc.service_cidr (entry (lookup k.current_context k.contexts))
          (a.server_version w)
  ]

  -- ManagedCluster of plugin/pkg/util/az/aks.go
  unfoldable pub managed_cluster : ClusterConfig → W → Result E ManagedCluster × W
  managed_cluster cfg w = elim (a.new_managed_clusters_client cfg.subscription_id) [
    | err e ↦ (err e, w)
    | ok _ ↦ a.get_managed_cluster cfg.subscription_id cfg.resource_group_name cfg.cluster_name w
  ]

module _ {E Text Client Content W : Type 0} (a : Api E Text W)
    (kube : Kube E Client Content W) where
  unfoldable pub deploy_managed :
      ClusterConfig → Result E ManagedCluster × W → Result (BootstrapError E) (Unit {0}) × W
  unfolding deploy_loaded kubeconfig
  deploy_managed cfg (err e, w) = (err (api e), w)
  deploy_managed cfg (ok mc, w) = deploy_loaded a cfg mc (kubeconfig kube cfg w)

  -- deployK8S
  unfoldable pub deploy_k8s : ClusterConfig → W → Result (BootstrapError E) (Unit {0}) × W
  unfolding deploy_managed managed_cluster
  deploy_k8s cfg w = deploy_managed cfg (managed_cluster a cfg w)
