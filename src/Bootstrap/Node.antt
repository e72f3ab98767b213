-- ===== src/Bootstrap/Node.antt =====
-- FromAKS of plugin/pkg/util/kubeadm/azure.go: the configuration with which a node joins.
use aks_flex.Common.{
  List, [], ◌∷◌, ◌++◌, String, Result, ok, err, ◌>>=◌, or_err, map_err, string_eq,
}
use aks_flex.Common.Assoc.{Map, lookup}
use aks_flex.Cluster.{ClusterConfig, Kubeconfig, Kube, KubeError, entry, kubeconfig}
use aks_flex.Bootstrap.{
  Bytes, Secret, ManagedCluster, Api, BootstrapError, api, cluster_failed, nil_dereference,
  not_one_secret, no_node_resource_group, codes, label, bytes_or_empty, client_of, managed_cluster,
}

-- kubeadm.Config as FromAKS builds it
pub record AksConfig : Type 0 where
  pub certificate_authority_data : String
  pub server : String
  pub token : Bytes
  pub node_labels : Map String String

module _ {E Text W : Type 0} (a : Api E Text W) where
  -- The configuration of FromAKS once the managed cluster is known. A missing entry is nil.
  unfoldable pub aks_config :
      Kubeconfig → Secret → ManagedCluster → Result (BootstrapError E) AksConfig
  unfolding lookup
  aks_config k s mc = or_err mc.node_resource_group no_node_resource_group >>= (λ group.
      or_err (entry (lookup k.current_context k.contexts)) nil_dereference >>= (λ ctx.
        or_err (entry (lookup ctx.cluster k.clusters)) nil_dereference >>= (λ cluster. ok (record {
          certificate_authority_data = cluster.certificate_authority_data;
          server = cluster.server;
          token =
              bytes_or_empty (lookup "token-id" s.secret_data)
              ++ codes "."
              ++ bytes_or_empty (lookup "token-secret" s.secret_data);
          node_labels =
              ("kubernetes.azure.com/managed", "false")
              ∷ ("kubernetes.azure.com/cluster", group)
              ∷ ("aks.azure.com/stretch-managed", "true")
              ∷ [];
        }))))

  -- FromAKS once the secrets are listed.
  unfoldable pub from_secrets :
      ClusterConfig
      → Kubeconfig
      → Result E (List Secret) × W
      → Result (BootstrapError E) AksConfig × W
  unfolding aks_config managed_cluster
  from_secrets cfg k (err e, w) = (err (api e), w)
  from_secrets cfg k (ok [], w) = (err not_one_secret, w)
  from_secrets cfg k (ok (s ∷ t ∷ rest), w) = (err not_one_secret, w)
  from_secrets cfg k (ok (s ∷ []), w) =
      let (mc, w') = managed_cluster a cfg w in (map_err api mc >>= aks_config k s, w')

  unfoldable pub from_loaded :
      ClusterConfig → Result (KubeError E) Kubeconfig × W → Result (BootstrapError E) AksConfig × W
  unfolding client_of from_secrets
  from_loaded cfg (err e, w) = (err (cluster_failed e), w)
  from_loaded cfg (ok k, w) = elim (client_of a k) [
    | err e ↦ (err (api e), w)
    | ok _ ↦ from_secrets cfg k (a.list_secrets label w)
  ]

module _ {E Text Client Content W : Type 0} (a : Api E Text W)
    (kube : Kube E Client Content W) where
  -- FromAKS with the cluster's configuration
  unfoldable pub from_aks : ClusterConfig → W → Result (BootstrapError E) AksConfig × W
  unfolding from_loaded kubeconfig
  from_aks cfg w = from_loaded a cfg (kubeconfig kube cfg w)
