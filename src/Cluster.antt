-- ===== src/Cluster.antt =====
-- plugin/pkg/util/k8s: k8s.go, the kubeconfig of the cluster and the file that it is merged into.
pub mod Merge
pub mod Server
mod Tests
use aks_flex.Common.{
  Bool, true, false, Option, none, some, List, [], ◌∷◌, String, Result, ok, err, ◌>>=◌, or_err,
  map_err, ◌==◌, string_eq, if◌then◌else◌,
}
use aks_flex.Common.Assoc.{Map, lookup, insert}

-- The fields of config.Config that name the cluster.
pub record ClusterConfig : Type 0 where
  pub subscription_id : String
  pub resource_group_name : String
  pub cluster_name : String

-- api.Cluster, api.AuthInfo and api.Context of clientcmd, by the fields that the program reads, and
-- api.Config. A nil entry of a map is `none`.
pub record KubeCluster : Type 0 where
  pub server : String
  pub certificate_authority_data : String

pub record KubeContext : Type 0 where
  pub cluster : String
  pub auth_info : String

pub record Kubeconfig : Type 0 where
  pub clusters : Map String (Option KubeCluster)
  pub auth_infos : Map String String
  pub contexts : Map String (Option KubeContext)
  pub current_context : String

-- api.NewConfig
abbrev pub new_config : Kubeconfig
new_config = record { clusters = []; auth_infos = []; contexts = []; current_context = "" }

-- What is not the repository's: the client of managed clusters, clientcmd, os and url. A URL is its
-- scheme, host name and port.
pub record Kube (E Client Bytes W : Type 0) : Type 0 where
  pub new_managed_clusters_client : String → Result E Client
  pub list_cluster_admin_credentials : Client → String → String → W → Result E (List Bytes) × W
  pub load : Bytes → Result E Kubeconfig
  pub write : Kubeconfig → Result E Bytes
  pub read_file : String → W → Result E Bytes × W
  pub is_not_exist : E → Bool
  pub mkdir_all_for : String → W → Result E (Unit {0}) × W
  pub write_file : String → Bytes → W → Result E (Unit {0}) × W
  pub parse_url : String → Result E (String × String × String)

pub data KubeError (E : Type 0) : Type 0 where
  api : E → KubeError E
  -- a panic: the cluster has no credentials
  index_out_of_range : KubeError E
  loading : E → KubeError E
  missing_current_context : KubeError E
  missing_context : String → KubeError E
  missing_cluster : String → KubeError E
  parsing_url : String → E → KubeError E
  missing_hostname : String → KubeError E
  unsupported_scheme : String → KubeError E

-- `for k, v := range source { target[k] = v }`
unfoldable pub copy_entries : {V : Type 0} → Map String V → Map String V → Map String V
copy_entries target [] = target
copy_entries target ((k, v) ∷ source) = copy_entries (insert k v target) source

-- The new entries over the existing ones.
unfoldable pub merge : Kubeconfig → Kubeconfig → Kubeconfig
unfolding copy_entries
merge new existing = record {
  clusters = copy_entries existing.clusters new.clusters;
  auth_infos = copy_entries existing.auth_infos new.auth_infos;
  contexts = copy_entries existing.contexts new.contexts;
  current_context =
      if new.current_context == "" then existing.current_context else new.current_context;
}

-- `v, ok := m[k]` with `!ok || v == nil`
abbrev pub entry : {V : Type 0} → Option (Option V) → Option V
entry none = none
entry (some v) = v

module _ {E Client Bytes W : Type 0} (kube : Kube E Client Bytes W) where
  abbrev pub first_credentials : List Bytes → Result (KubeError E) Bytes
  first_credentials [] = err index_out_of_range
  first_credentials (c ∷ cs) = ok c

  -- getKubeconfig
  unfoldable pub get_kubeconfig : ClusterConfig → W → Result (KubeError E) Bytes × W
  get_kubeconfig cfg w = elim (kube.new_managed_clusters_client cfg.subscription_id) [
    | err e ↦ (err (api e), w)
    | ok client ↦
        let (r, w') =
          kube.list_cluster_admin_credentials client cfg.resource_group_name cfg.cluster_name w in
        (map_err api r >>= first_credentials, w')
  ]

  -- Kubeconfig
  unfoldable pub kubeconfig : ClusterConfig → W → Result (KubeError E) Kubeconfig × W
  unfolding get_kubeconfig
  kubeconfig cfg w =
      let (creds, w') = get_kubeconfig cfg w in (creds >>= (λ c. map_err api (kube.load c)), w')

  -- clientcmd.LoadFromFile
  unfoldable pub load_from_file : String → W → Result E Kubeconfig × W
  load_from_file path w = let (b, w') = kube.read_file path w in (b >>= kube.load, w')

  -- What MergeKubeconfigInto takes for the existing file.
  unfoldable pub existing_or_new : Result E Kubeconfig → Result (KubeError E) Kubeconfig
  existing_or_new (ok existing) = ok existing
  existing_or_new (err e) = if kube.is_not_exist e then ok new_config else err (api e)

  -- The directory and then the file, for the printed configuration.
  unfoldable pub write_printed :
      String → Result E Bytes → Result E (Unit {0}) × W → Result (KubeError E) (Unit {0}) × W
  write_printed path content (err e, w) = (err (api e), w)
  write_printed path (err e) (ok _, w) = (err (api e), w)
  write_printed path (ok content) (ok _, w) =
      let (r, w') = kube.write_file path content w in (map_err api r, w')

  unfoldable pub write_merged :
      String
      → Kubeconfig
      → Result (KubeError E) Kubeconfig × W
      → Result (KubeError E) (Unit {0}) × W
  unfolding merge write_printed
  write_merged path new (err e, w) = (err e, w)
  write_merged path new (ok existing, w) =
      write_printed path (kube.write (merge new existing)) (kube.mkdir_all_for path w)

  unfoldable pub merge_new :
      String → Result (KubeError E) Kubeconfig × W → Result (KubeError E) (Unit {0}) × W
  unfolding load_from_file existing_or_new write_merged
  merge_new path (err e, w) = (err e, w)
  merge_new path (ok new, w) =
      let (r, w') = load_from_file path w in write_merged path new (existing_or_new r, w')

  -- MergeKubeconfigInto
  unfoldable pub merge_kubeconfig_into :
      ClusterConfig → String → W → Result (KubeError E) (Unit {0}) × W
  unfolding kubeconfig merge_new
  merge_kubeconfig_into cfg path w = merge_new path (kubeconfig cfg w)

  -- SaveKubeconfigTo
  unfoldable pub save_kubeconfig_to :
      ClusterConfig → String → W → Result (KubeError E) (Unit {0}) × W
  unfolding kubeconfig write_printed
  save_kubeconfig_to cfg path w =
      let (new, w') = kubeconfig cfg w in
      elim new [ err e ↦ (err e, w') | ok c ↦ write_printed path (kube.write c) (ok tt, w') ]

  -- The port of a URL that gives none.
  unfoldable pub default_port : String → Result (KubeError E) String
  default_port scheme =
      if scheme == "https"
      then ok "443"
      else if scheme == "http"
      then ok "80"
      else err (unsupported_scheme scheme)

  unfoldable pub address_of :
      String → String × String × String → Result (KubeError E) (String × String)
  unfolding default_port
  address_of server (scheme, hostname, port) =
      if hostname == ""
      then err (missing_hostname server)
      else if port == ""
      then default_port scheme >>= (λ p. ok (hostname, p))
      else ok (hostname, port)

  -- The host name and port of a server's URL.
  unfoldable pub server_address : String → Result (KubeError E) (String × String)
  unfolding address_of
  server_address server = map_err (parsing_url server) (kube.parse_url server) >>= address_of server

  -- The server of a context.
  unfoldable pub named_server : Kubeconfig → String → Result (KubeError E) (String × String)
  unfolding server_address lookup
  named_server kcfg name =
      if name == ""
      then err missing_current_context
      else (or_err (entry (lookup name kcfg.contexts)) (missing_context name) >>= (λ ctx.
          or_err (entry (lookup ctx.cluster kcfg.clusters)) (missing_cluster ctx.cluster)
          >>= (λ cluster. server_address cluster.server)))

  -- APIServerFromKubeconfigFile after the file is loaded.
  unfoldable pub api_server : Kubeconfig → String → Result (KubeError E) (String × String)
  unfolding named_server
  api_server kcfg context_name =
      named_server kcfg (if context_name == "" then kcfg.current_context else context_name)

  unfoldable pub api_server_from_kubeconfig_file :
      String → String → W → Result (KubeError E) (String × String) × W
  unfolding load_from_file api_server
  api_server_from_kubeconfig_file path context_name w =
      let (r, w') = load_from_file path w in
      (map_err loading r >>= (λ kcfg. api_server kcfg context_name), w')
