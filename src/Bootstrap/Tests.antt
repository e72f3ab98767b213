-- ===== src/Bootstrap/Tests.antt =====
-- A cluster that has no bootstrap secret yet, on an API server with one place for a secret.
use aks_flex.Common.{
  ℕ, ◌≡◌, refl, sym, ap, ◌∙◌, Option, none, some, List, [], ◌∷◌, String, Result, ok, err, true,
  get_elem?, string_eq, nat_eq, err≢ok,
}
use aks_flex.Common.Assoc.{lookup}
use aks_flex.Plugin.Chunks.{take}
use aks_flex.Cluster.{ClusterConfig, Kubeconfig, Kube, kubeconfig, get_kubeconfig}
use aks_flex.Bootstrap.{
  params, token_data, client_of, clients_of, Secret, Manifest, secret, other, Params, Api,
  deploy_k8s, deploy_managed, managed_cluster, deploy_loaded, deploy_in, bootstrap_token_secret,
  secret_for, existing_value, random_string, random_letters, token_id, apply_token, apply_rendered,
  apply_objects, letter, token_secret, codes,
}
use aks_flex.Bootstrap.Tokens.{ApiLaws}
use aks_flex.Bootstrap.Reused.{LeavesSecrets, Reused, bootstrap_token_secret-Reused}
use aks_flex.Bootstrap.Printed.{placeholder_params, params_from_context}

abbrev World : Type 0
World = Option Secret

abbrev patched : Manifest → World → World
patched (secret s) w = some s
patched (other kind name) w = w

abbrev got : World → Result String Secret
got none = err "not found"
got (some s) = ok s

abbrev listed : World → List Secret
listed none = []
listed (some s) = s ∷ []

abbrev server : Api String Params World
server = record {
  client_config = λ k. ok tt;
  new_client = λ k. ok tt;
  new_discovery_client = λ k. ok tt;
  server_version = λ w. (ok "v1.34.2", w);
  new_managed_clusters_client = λ sub. ok tt;
  get_managed_cluster = λ sub group name w.
      (ok (record { service_cidr = some "10.0.0.0/16"; node_resource_group = some "nodes" }), w);
  get_secret = λ name w. (got w, w);
  is_not_found = λ e. true;
  list_secrets = λ l w. (ok (listed w), w);
  patch = λ m owner w. (ok tt, patched m w);
  encode_base64 = λ text. text;
  sha256_hex = λ text. codes "0a1b2c3d";
  random_below = λ n w. (ok 7, w);
  render = λ ps. ok ps;
  decode = λ ps. ok (secret (token_secret ps.token_id ps.token_secret)) ∷ [];
}

abbrev answered : {A : Type 0} → A → Result String A
answered a = ok a

got-some : (w : World) (s : Secret) → got w ≡ ok s → w ≡ some s
got-some none s h = absurd (err≢ok h)
got-some (some t) s h = cc

got-none : (w : World) (e : String) → got w ≡ err e → w ≡ none
got-none none e h = refl
got-none (some t) e h = absurd (err≢ok (sym h))

listed-some :
    (w : World) (found : List Secret) (s : Secret)
    → answered (listed w) ≡ ok found
    → w ≡ some s
    → (i : ℕ) × (get_elem? found i ≡ some s)
listed-some none found s h k = cc
listed-some (some t) found s h k =
    let same : t ∷ [] ≡ found = cc in (0, ap (λ l. get_elem? l 0) (sym same) ∙ k)

abbrev server_laws : ApiLaws server
server_laws = record {
  find = λ name w. w;
  get_found = λ name w s h. got-some w s h;
  get_missing = λ name w e h k. got-none w e h;
  list_all = λ w found name s h k l. listed-some w found s h k;
}

abbrev config : Kubeconfig
config = record {
  clusters =
      ("flex", some (record { server = "https://flex"; certificate_authority_data = "ca" })) ∷ [];
  auth_infos = [];
  contexts = ("flex", some (record { cluster = "flex"; auth_info = "admin" })) ∷ [];
  current_context = "flex";
}

abbrev kube : Kube String String Kubeconfig World
kube = record {
  new_managed_clusters_client = λ sub. ok sub;
  list_cluster_admin_credentials = λ client rg name w. (ok (config ∷ []), w);
  load = λ b. ok b;
  write = λ c. ok c;
  read_file = λ path w. (err "unused", w);
  is_not_exist = λ e. true;
  mkdir_all_for = λ path w. (ok tt, w);
  write_file = λ path b w. (ok tt, w);
  parse_url = λ url. ok ("https", "flex", "");
}

abbrev cfg : ClusterConfig
cfg = record { subscription_id = "sub"; resource_group_name = "group"; cluster_name = "flex" }

leaves : LeavesSecrets server_laws kube
unfolding kubeconfig get_kubeconfig
leaves c name w = refl

abbrev made : Secret
made = token_secret (codes "0a1b2c") (codes "7777777777777777")

first-made : (bootstrap_token_secret server cfg none).0 ≡ ok made
unfolding bootstrap_token_secret secret_for existing_value random_string random_letters token_id
    take letter
first-made = refl

bootstrap_token_secret-Reused_example : Reused kube server_laws leaves cfg made (some made)
bootstrap_token_secret-Reused_example =
    bootstrap_token_secret-Reused kube server_laws leaves cfg none (some made) made made first-made
      refl (record { labels = λ k v q. q; contents = λ k v q. q })

deployed : (deploy_k8s server kube cfg none).1 ≡ some made
unfolding client_of clients_of deploy_k8s deploy_managed managed_cluster deploy_loaded deploy_in
    bootstrap_token_secret secret_for existing_value random_string random_letters token_id
    apply_token apply_rendered apply_objects params kubeconfig get_kubeconfig lookup take letter
    token_secret token_data
deployed = refl

unconfigured : (params_from_context server kube none (ok tt) none).0 ≡ ok placeholder_params
unfolding params_from_context
unconfigured = refl

without_credentials :
    (params_from_context server kube (some cfg) (err "no login") none).0 ≡ ok placeholder_params
unfolding params_from_context
without_credentials = refl
