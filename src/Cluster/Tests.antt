-- ===== src/Cluster/Tests.antt =====
-- A cluster "new" that is merged into a file with the cluster "old". Bytes are the kubeconfigs
-- themselves, and the world is the one file.
use aks_flex.Common.{refl, sym, some, [], ◌∷◌, String, ok, true, string_eq}
use aks_flex.Common.Assoc.{lookup}
use aks_flex.Cluster.{
  ClusterConfig, KubeCluster, Kubeconfig, Kube, kubeconfig, get_kubeconfig, load_from_file,
  existing_or_new, write_printed, write_merged, merge_new, merge_kubeconfig_into,
}
use aks_flex.Cluster.Server.{KubeLaws, IsComplete, MergedInto, merge_kubeconfig_into-MergedInto}

abbrev kubeconfig_for : String → String → Kubeconfig
kubeconfig_for name server = record {
  clusters = (name, some (record { server = server; certificate_authority_data = "ca" })) ∷ [];
  auth_infos = (name, "token") ∷ [];
  contexts = (name, some (record { cluster = name; auth_info = name })) ∷ [];
  current_context = name;
}

abbrev old : Kubeconfig
old = kubeconfig_for "old" "https://old:8443"

abbrev new : Kubeconfig
new = kubeconfig_for "new" "https://new"

abbrev kube : Kube String String Kubeconfig Kubeconfig
kube = record {
  new_managed_clusters_client = λ sub. ok sub;
  list_cluster_admin_credentials = λ client rg name w. (ok (new ∷ []), w);
  load = λ b. ok b;
  write = λ c. ok c;
  read_file = λ path w. (ok w, w);
  is_not_exist = λ e. true;
  mkdir_all_for = λ path w. (ok tt, w);
  write_file = λ path b w. (ok tt, b);
  parse_url = λ url. ok ("https", "new", "");
}

kube-laws : KubeLaws kube
kube-laws = record { load-write = λ c b h. sym h; read-write = λ path b w h. refl }

abbrev cfg : ClusterConfig
cfg = record { subscription_id = "sub"; resource_group_name = "group"; cluster_name = "flex" }

abbrev server : KubeCluster
server = record { server = "https://new"; certificate_authority_data = "ca" }

new-IsComplete : IsComplete new server
unfolding lookup
new-IsComplete = record {
  distinct_clusters = (refl, tt);
  distinct_auth_infos = (refl, tt);
  distinct_contexts = (refl, tt);
  named = λ e. cc;
  context = record { cluster = "new"; auth_info = "new" };
  has_context = refl;
  has_cluster = refl;
}

merge_kubeconfig_into-MergedInto_example :
    MergedInto kube-laws "config" new server
      (load_from_file kube "config" (kubeconfig kube cfg old).1).0
      (merge_kubeconfig_into kube cfg "config" old).1
unfolding merge_kubeconfig_into merge_new kubeconfig get_kubeconfig load_from_file existing_or_new
    write_merged write_printed
merge_kubeconfig_into-MergedInto_example =
    merge_kubeconfig_into-MergedInto kube-laws cfg "config" old new server refl new-IsComplete refl
