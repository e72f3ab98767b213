-- ===== src/Bootstrap/Printed.antt =====
-- paramsFromContext of cli/internal/config/k8sbootstrap/k8sbootstrap.go, with placeholder of
-- cli/internal/config/configcmd/defaults.go: the parameters of the template that the command prints.
use aks_flex.Common.{
  ◌≡◌, refl, sym, ap, ◌∙◌, ◌⊎◌, inl, inr, Option, none, some, [], String, Result, ok, err, ◌>>=◌,
  map_err, length, string_eq, err≢ok, ok_unique, >>=-eq-ok, map_err-eq-ok, Option-cases,
}
use aks_flex.Common.Assoc.{lookup}
use aks_flex.Cluster.{ClusterConfig, KubeCluster, Kubeconfig, Kube, KubeError, entry, kubeconfig}
use aks_flex.Bootstrap.{
  Params, ManagedCluster, Api, BootstrapError, api, cluster_failed, nil_dereference, codes,
  managed_cluster, token_id, random_string,
}
use aks_flex.Bootstrap.Tokens.{length-random_letters}

abbrev placeholder : String
placeholder = "<replace-with-actual-value>"

-- placeholderParams
unfoldable pub placeholder_params : Params
placeholder_params = record {
  certificate_authority_data = placeholder;
  server = placeholder;
  kubernetes_version = placeholder;
  service_subnet = placeholder;
  token_id = codes placeholder;
  token_secret = codes placeholder;
}

-- The service subnet, whose pointers may be nil.
abbrev subnet_or_placeholder : Option String → String
subnet_or_placeholder none = placeholder
subnet_or_placeholder (some cidr) = cidr

module _ {E Text W : Type 0} (a : Api E Text W) where
  -- The rest client of paramsFromCluster.
  unfoldable discovery_of : Kubeconfig → Result E (Unit {0})
  discovery_of k = a.client_config k >>= (λ _. a.new_discovery_client k)

  -- The parameters of a live cluster, without a token.
  unfoldable live_params :
      Option KubeCluster → String → Result E ManagedCluster → Result (BootstrapError E) Params
  live_params cluster version (err e) = err (api e)
  live_params none version (ok mc) = err nil_dereference
  live_params (some cluster) version (ok mc) = ok (record {
    certificate_authority_data = a.encode_base64 cluster.certificate_authority_data;
    server = cluster.server;
    kubernetes_version = version;
    service_subnet = subnet_or_placeholder mc.service_cidr;
    token_id = [];
    token_secret = [];
  })

  unfoldable with_version :
      ClusterConfig
      → Option KubeCluster
      → Result E String × W
      → Result (BootstrapError E) Params × W
  unfolding live_params managed_cluster
  with_version cfg cluster (err e, w) = (err (api e), w)
  with_version cfg cluster (ok version, w) =
      let (mc, w') = managed_cluster a cfg w in (live_params cluster version mc, w')

  -- paramsFromCluster after it has loaded the kubeconfig.
  unfoldable params_loaded :
      ClusterConfig
      → Option KubeCluster
      → Result (KubeError E) Kubeconfig × W
      → Result (BootstrapError E) Params × W
  unfolding discovery_of with_version
  params_loaded cfg cluster (err e, w) = (err (cluster_failed e), w)
  params_loaded cfg cluster (ok k, w) = elim (discovery_of k) [
    | err e ↦ (err (api e), w)
    | ok _ ↦ with_version cfg cluster (a.server_version w)
  ]

  -- The token of the parameters.
  unfoldable with_token :
      ClusterConfig → Result (BootstrapError E) Params × W → Result (BootstrapError E) Params × W
  unfolding token_id random_string
  with_token cfg (err e, w) = (err e, w)
  with_token cfg (ok p, w) =
      let (r, w') = random_string a 16 w in
      (
        map_err api r >>= (λ v. ok (record {
          certificate_authority_data = p.certificate_authority_data;
          server = p.server;
          kubernetes_version = p.kubernetes_version;
          service_subnet = p.service_subnet;
          token_id = token_id a cfg;
          token_secret = v;
        })),
        w',
      )

-- Any error but a panic leaves the placeholders.
unfoldable or_placeholders :
    {E : Type 0} → Result (BootstrapError E) Params → Result (BootstrapError E) Params
unfolding placeholder_params
or_placeholders (ok p) = ok p
or_placeholders (err nil_dereference) = err nil_dereference
or_placeholders (err (cluster_failed KubeError.index_out_of_range)) =
    err (cluster_failed KubeError.index_out_of_range)
or_placeholders (err e) = ok placeholder_params

module _ {E Text Client Content W : Type 0} (a : Api E Text W)
    (kube : Kube E Client Content W) where
  -- paramsFromContext once the context of the first kubeconfig is looked up.
  unfoldable params_in :
      ClusterConfig → Result (KubeError E) Kubeconfig × W → Result (BootstrapError E) Params × W
  unfolding params_loaded with_token lookup kubeconfig
  params_in cfg (err e, w) = (err (cluster_failed e), w)
  params_in cfg (ok k, w) = elim (entry (lookup k.current_context k.contexts)) [
    | none ↦ (err nil_dereference, w)
    | some ctx ↦
        with_token a cfg
          (params_loaded a cfg (entry (lookup ctx.cluster k.clusters)) (kubeconfig kube cfg w))
  ]

  -- paramsFromContext, for the configuration of the environment and the result of the credentials
  unfoldable pub params_from_context :
      Option ClusterConfig → Result E (Unit {0}) → W → Result (BootstrapError E) Params × W
  unfolding params_in or_placeholders placeholder_params kubeconfig
  params_from_context none credentials w = (ok placeholder_params, w)
  params_from_context (some cfg) (err e) w = (ok placeholder_params, w)
  params_from_context (some cfg) (ok _) w =
      let (r, w') = params_in cfg (kubeconfig kube cfg w) in (or_placeholders r, w')

  -- The parameters have the token of a configuration: its ID, and 16 bytes.
  abbrev HasToken : ClusterConfig → Params → Type 0
  HasToken cfg p = (p.token_id ≡ token_id a cfg) × (length p.token_secret ≡ 16)

  or_placeholders-cases :
      (r : Result (BootstrapError E) Params) (p : Params)
      → or_placeholders r ≡ ok p
      → (p ≡ placeholder_params) ⊎ (r ≡ ok p)
  unfolding or_placeholders
  or_placeholders-cases (ok q) p h = inr h
  or_placeholders-cases (err nil_dereference) p h = absurd (err≢ok h)
  or_placeholders-cases (err (cluster_failed KubeError.index_out_of_range)) p h = absurd (err≢ok h)
  or_placeholders-cases (err e) p h = inl (sym (ok_unique refl h))

  with_token-HasToken :
      (cfg : ClusterConfig) (r : Result (BootstrapError E) Params) (w : W) (p : Params)
      → (with_token a cfg (r, w)).0 ≡ ok p
      → HasToken cfg p
  unfolding with_token random_string
  with_token-HasToken cfg (err e) w p h = absurd (err≢ok h)
  with_token-HasToken cfg (ok q) w p h =
      let (v, drawn, last) = >>=-eq-ok (map_err BootstrapError.api (random_string a 16 w).0) _ h in
      let same = sym (ok_unique refl last) in
      (
        ap (λ x. x.token_id) same,
        ap (λ x. length x.token_secret) same
            ∙ length-random_letters a 16 [] w v (map_err-eq-ok BootstrapError.api _ v drawn),
      )

  params_in-HasToken :
      (cfg : ClusterConfig) (r : Result (KubeError E) Kubeconfig) (w : W) (p : Params)
      → (params_in cfg (r, w)).0 ≡ ok p
      → HasToken cfg p
  unfolding params_in
  params_in-HasToken cfg (err e) w p h = absurd (err≢ok h)
  params_in-HasToken cfg (ok k) w p h =
      elim (Option-cases (entry (lookup k.current_context k.contexts))) [
        | inl q ↦ absurd (err≢ok (rw (q, params_in) at h))
        | inr (ctx, q) ↦
            let loaded =
              params_loaded a cfg (entry (lookup ctx.cluster k.clusters)) (kubeconfig kube cfg w) in
            with_token-HasToken cfg loaded.0 loaded.1 p (rw (q, params_in) at h)
      ]

  -- Whatever the calls return, the printed parameters are all placeholders, or they have the token
  -- ID of the configuration and a token of 16 bytes.
  params_from_context-Printed :
      (config : Option ClusterConfig) (credentials : Result E (Unit {0})) (w : W) (p : Params)
      → (params_from_context config credentials w).0 ≡ ok p
      → (p ≡ placeholder_params) ⊎ ((cfg : ClusterConfig) × (config ≡ some cfg) × HasToken cfg p)
  unfolding params_from_context
  params_from_context-Printed none credentials w p h = inl (sym (ok_unique refl h))
  params_from_context-Printed (some cfg) (err e) w p h = inl (sym (ok_unique refl h))
  params_from_context-Printed (some cfg) (ok _) w p h =
      let fetched = kubeconfig kube cfg w in
      elim (or_placeholders-cases (params_in cfg fetched).0 p h) [
        | inl q ↦ inl q
        | inr q ↦ inr (cfg, refl, params_in-HasToken cfg fetched.0 fetched.1 p q)
      ]
