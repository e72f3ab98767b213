-- ===== src/Cluster/Server.antt =====
-- What a file holds after the cluster's kubeconfig is merged into it, and the server it names.
use aks_flex.Common.{
  true, ◌≡◌, ◌≢◌, refl, sym, ap, ◌∙◌, inl, inr, false, some, String, Result, ok, err, ◌>>=◌,
  map_err, ◌==◌, string_eq, ==_ne, Result-cases, Bool-cases, ok_unique, err≢ok, pair, map_err-eq-ok,
  if◌then◌else◌,
}
use mathlib.Core.Path.{subst}
use aks_flex.Common.Assoc.{lookup}
use aks_flex.Cluster.Merge.{or_else, Distinct, lookup-copy_entries}
use aks_flex.Cluster.{
  new_config, ClusterConfig, KubeCluster, KubeContext, Kubeconfig, Kube, KubeError, merge,
  kubeconfig, load_from_file, existing_or_new, write_printed, write_merged, merge_new,
  merge_kubeconfig_into, named_server, api_server, server_address, api_server_from_kubeconfig_file,
}

-- clientcmd loads what it has written, and a file that was written is read back.
pub record KubeLaws {E Client Bytes W : Type 0} (kube : Kube E Client Bytes W) : Type 0 where
  pub load-write : (c : Kubeconfig) (b : Bytes) → kube.write c ≡ ok b → kube.load b ≡ ok c
  pub read-write :
      (path : String) (b : Bytes) (w : W)
      → (kube.write_file path b w).0 ≡ ok tt
      → (kube.read_file path (kube.write_file path b w).1).0 ≡ ok b

-- Every entry is the new one where there is one, and the existing one elsewhere.
pub record Merged (new existing file : Kubeconfig) : Type 0 where
  pub clusters :
      (k : String)
      → lookup k file.clusters ≡ or_else (lookup k new.clusters) (lookup k existing.clusters)
  pub auth_infos :
      (k : String)
      → lookup k file.auth_infos ≡ or_else (lookup k new.auth_infos) (lookup k existing.auth_infos)
  pub contexts :
      (k : String)
      → lookup k file.contexts ≡ or_else (lookup k new.contexts) (lookup k existing.contexts)

-- A kubeconfig as the cluster gives it: its maps are maps, and its current context and the cluster
-- of that are in it.
pub record IsComplete (new : Kubeconfig) (cluster : KubeCluster) : Type 0 where
  pub distinct_clusters : Distinct new.clusters
  pub distinct_auth_infos : Distinct new.auth_infos
  pub distinct_contexts : Distinct new.contexts
  pub named : new.current_context ≢ ""
  pub context : KubeContext
  pub has_context : lookup new.current_context new.contexts ≡ some (some context)
  pub has_cluster : lookup context.cluster new.clusters ≡ some (some cluster)

merge-Merged :
    (new existing : Kubeconfig) {cluster : KubeCluster}
    → IsComplete new cluster
    → Merged new existing (merge new existing)
unfolding merge
merge-Merged new existing c = record {
  clusters = λ k. lookup-copy_entries k existing.clusters new.clusters c.distinct_clusters;
  auth_infos = λ k. lookup-copy_entries k existing.auth_infos new.auth_infos c.distinct_auth_infos;
  contexts = λ k. lookup-copy_entries k existing.contexts new.contexts c.distinct_contexts;
}

module _ {E Client Bytes W : Type 0} {kube : Kube E Client Bytes W} (laws : KubeLaws kube) where
  named_server-found :
      (kcfg : Kubeconfig) (name : String) (ctx : KubeContext) (cluster : KubeCluster)
      → (name == "") ≡ false
      → lookup name kcfg.contexts ≡ some (some ctx)
      → lookup ctx.cluster kcfg.clusters ≡ some (some cluster)
      → named_server kube kcfg name ≡ server_address kube cluster.server
  unfolding named_server
  named_server-found kcfg name ctx cluster h p q = rw (named_server, h) (rw (p) (rw (q) refl))

  api_server-merge :
      (new existing : Kubeconfig) (cluster : KubeCluster)
      → IsComplete new cluster
      → api_server kube (merge new existing) "" ≡ server_address kube cluster.server
  unfolding api_server merge
  api_server-merge new existing cluster c =
      let named = ==_ne new.current_context "" c.named in
      let current = ap (λ b. if b then existing.current_context else new.current_context) named in
      ap (named_server kube (merge new existing)) current
      ∙ named_server-found (merge new existing) new.current_context c.context cluster named
          (lookup-copy_entries new.current_context existing.contexts new.contexts
              c.distinct_contexts
            ∙ ap (λ o. or_else o (lookup new.current_context existing.contexts)) c.has_context)
          (lookup-copy_entries c.context.cluster existing.clusters new.clusters c.distinct_clusters
            ∙ ap (λ o. or_else o (lookup c.context.cluster existing.clusters)) c.has_cluster)

  write_printed-read :
      (path : String) (c : Kubeconfig) (r : Result E (Unit {0})) (w : W)
      → (write_printed kube path (kube.write c) (r, w)).0 ≡ ok tt
      → (load_from_file kube path (write_printed kube path (kube.write c) (r, w)).1).0 ≡ ok c
  unfolding write_printed load_from_file
  write_printed-read path c (err e) w done = absurd (err≢ok done)
  write_printed-read path c (ok _) w done = elim (Result-cases (kube.write c)) [
    | inr (e, q) ↦ absurd (err≢ok (rw (q, write_printed) at done))
    | inl (b, q) ↦
        rw (q, write_printed)
          (ap (λ r. r >>= kube.load)
              (laws.read-write path b w (
                map_err-eq-ok KubeError.api (kube.write_file path b w).0 tt
                  (rw (q, write_printed) at done)))
            ∙ laws.load-write c b q)
  ]

  -- The kubeconfig before: that of the file, or an empty one where there is no file.
  abbrev pub IsBefore : Result E Kubeconfig → Kubeconfig → Type 0
  IsBefore (ok loaded) existing = existing ≡ loaded
  IsBefore (err e) existing = (kube.is_not_exist e ≡ true) × (existing ≡ new_config)

  existing_or_new-IsBefore :
      (before : Result E Kubeconfig) (existing : Kubeconfig)
      → existing_or_new kube before ≡ ok existing
      → IsBefore before existing
  unfolding existing_or_new
  existing_or_new-IsBefore (ok loaded) existing h = sym (ok_unique refl h)
  existing_or_new-IsBefore (err e) existing h = elim (Bool-cases (kube.is_not_exist e)) [
    | inl q ↦ (q, sym (ok_unique refl (rw (existing_or_new, q) at h)))
    | inr q ↦ absurd (err≢ok (rw (existing_or_new, q) at h))
  ]

  -- What the merge leaves: the merged kubeconfig in the file, and its server.
  abbrev pub MergedInto : String → Kubeconfig → KubeCluster → Result E Kubeconfig → W → Type 0
  MergedInto path new cluster before w =
      (existing : Kubeconfig) × (file : Kubeconfig) × IsBefore before existing
      × ((load_from_file kube path w).0 ≡ ok file)
      × Merged new existing file
      × ((api_server_from_kubeconfig_file kube path "" w).0 ≡ server_address kube cluster.server)

  write_merged-MergedInto :
      (path : String) (new : Kubeconfig) (cluster : KubeCluster) (before : Result E Kubeconfig)
      (r : Result (KubeError E) Kubeconfig) (w : W)
      → IsComplete new cluster
      → existing_or_new kube before ≡ r
      → (write_merged kube path new (r, w)).0 ≡ ok tt
      → MergedInto path new cluster before (write_merged kube path new (r, w)).1
  unfolding write_merged api_server_from_kubeconfig_file
  write_merged-MergedInto path new cluster before (err e) w c had done = absurd (err≢ok done)
  write_merged-MergedInto path new cluster before (ok existing) w c had done =
      let made = kube.mkdir_all_for path w in
      let read = write_printed-read path (merge new existing) made.0 made.1 done in
      (
        existing,
        merge new existing,
        existing_or_new-IsBefore before existing had,
        read,
        merge-Merged new existing c,
        ap (λ r. map_err KubeError.loading r >>= (λ kcfg. api_server kube kcfg "")) read
            ∙ api_server-merge new existing cluster c,
      )

  -- When MergeKubeconfigInto has succeeded, loading the file gives, for every name, the cluster,
  -- user or context of the fetched kubeconfig where it has one and that of the file before
  -- elsewhere, where a missing file has none; and APIServerFromKubeconfigFile without a context
  -- returns the address of the fetched cluster's server, or the error for its URL. The fetched
  -- kubeconfig names a context and a cluster that it has, its maps have no name twice, and files
  -- and clientcmd keep their round trips.
  pub merge_kubeconfig_into-MergedInto :
      (cfg : ClusterConfig) (path : String) (w : W) (new : Kubeconfig) (cluster : KubeCluster)
      → (kubeconfig kube cfg w).0 ≡ ok new
      → IsComplete new cluster
      → (merge_kubeconfig_into kube cfg path w).0 ≡ ok tt
      → MergedInto path new cluster
          (load_from_file kube path (kubeconfig kube cfg w).1).0
          (merge_kubeconfig_into kube cfg path w).1
  unfolding merge_kubeconfig_into merge_new
  merge_kubeconfig_into-MergedInto cfg path w new cluster given c done =
      let fetched = kubeconfig kube cfg w in
      let same : fetched ≡ (ok new, fetched.1) = pair given refl in
      let loaded = load_from_file kube path fetched.1 in
      subst (λ x. MergedInto path new cluster loaded.0 (merge_new kube path x).1) (sym same)
        (write_merged-MergedInto path new cluster loaded.0 (existing_or_new kube loaded.0) loaded.1
          c refl (sym (ap (λ x. (merge_new kube path x).0) same) ∙ done))
