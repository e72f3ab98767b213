-- ===== src/Bootstrap/Joined.antt =====
-- The token with which a node joins, given the secret that is in the world.
use aks_flex.Common.{
  ℕ, zero, suc, ◌≡◌, refl, sym, ap, ◌∙◌, inl, inr, some, List, [], ◌∷◌, ◌++◌, Result, ok, err,
  or_err, map_err, get_elem?, string_eq, Result-cases, err≢ok, ok_unique, >>=-eq-ok,
}
use aks_flex.Common.Assoc.{lookup}
use aks_flex.Cluster.{ClusterConfig, Kubeconfig, KubeError, entry}
use aks_flex.Bootstrap.{
  client_of, Bytes, Secret, ManagedCluster, Api, BootstrapError, label, codes, token_secret,
  secret_name, token_id, bytes_or_empty, managed_cluster,
}
use aks_flex.Bootstrap.Node.{AksConfig, aks_config, from_secrets, from_loaded}
use aks_flex.Bootstrap.Tokens.{Has, ApiLaws}

only : {s t : Secret} (i : ℕ) → get_elem? (s ∷ []) i ≡ some t → s ≡ t
only zero h = cc
only (suc i) h = cc

module _ {E Text W : Type 0} {a : Api E Text W} (laws : ApiLaws a) where
  open laws use {find}

  -- The token of kubeadm in a node's configuration.
  abbrev pub join_token : ClusterConfig → Bytes → Bytes
  join_token cfg value = token_id a cfg ++ codes "." ++ value

  aks_config-token :
      (k : Kubeconfig) (s : Secret) (mc : ManagedCluster) (c : AksConfig)
      → aks_config a k s mc ≡ ok c
      → c.token
        ≡ bytes_or_empty (lookup "token-id" s.secret_data)
          ++ codes "."
          ++ bytes_or_empty (lookup "token-secret" s.secret_data)
  unfolding aks_config
  aks_config-token k s mc c done =
      let (group, q, rest) = >>=-eq-ok (or_err mc.node_resource_group _) _ done in
      let (ctx, q', rest') =
        >>=-eq-ok (or_err (entry (lookup k.current_context k.contexts)) _) _ rest in
      let (cluster, q'', last) =
        >>=-eq-ok (or_err (entry (lookup ctx.cluster k.clusters)) _) _ rest' in
      ap (λ x. x.token) (sym (ok_unique refl last))

  from_secrets-token :
      (cfg : ClusterConfig) (k : Kubeconfig) (found : Result E (List Secret)) (w : W)
      (c : AksConfig)
      → (from_secrets a cfg k (found, w)).0 ≡ ok c
      → (s : Secret) × (found ≡ ok (s ∷ []))
        × (c.token
            ≡ bytes_or_empty (lookup "token-id" s.secret_data)
              ++ codes "."
              ++ bytes_or_empty (lookup "token-secret" s.secret_data))
  unfolding from_secrets
  from_secrets-token cfg k (err e) w c done = absurd (err≢ok done)
  from_secrets-token cfg k (ok []) w c done = absurd (err≢ok done)
  from_secrets-token cfg k (ok (s ∷ t ∷ rest)) w c done = absurd (err≢ok done)
  from_secrets-token cfg k (ok (s ∷ [])) w c done =
      let (mc, q, last) =
        >>=-eq-ok (map_err BootstrapError.api (managed_cluster a cfg w).0) (aks_config a k s)
          done in
      (s, refl, aks_config-token k s mc c last)

  pub from_loaded-token :
      (cfg : ClusterConfig) (value : Bytes) (r : Result (KubeError E) Kubeconfig) (w : W)
      (c : AksConfig)
      → Has laws (token_id a cfg) value w
      → (from_loaded a cfg (r, w)).0 ≡ ok c
      → c.token ≡ join_token cfg value
  unfolding from_loaded token_secret
  from_loaded-token cfg value (err e) w c has done = absurd (err≢ok done)
  from_loaded-token cfg value (ok k) w c (kept, there, keeps) done =
      elim (Result-cases (client_of a k)) [
        | inr (e, q) ↦ absurd (err≢ok (rw (q, from_loaded) at done))
        | inl (u, q) ↦
            let listed = a.list_secrets label w in
            let (s, one, token) =
              from_secrets-token cfg k listed.0 listed.1 c (rw (q, from_loaded) at done) in
            let (i, at_i) =
              laws.list_all w (s ∷ []) (secret_name (token_id a cfg)) kept one there
                (keeps.labels label "true" refl) in
            let same : s ≡ kept = only i at_i in
            token
            ∙ ap
                (λ x.
                  bytes_or_empty (lookup "token-id" x.secret_data)
                  ++ codes "."
                  ++ bytes_or_empty (lookup "token-secret" x.secret_data))
                same
            ∙ ap
                (λ o.
                  bytes_or_empty o
                  ++ codes "."
                  ++ bytes_or_empty (lookup "token-secret" kept.secret_data))
                (keeps.contents "token-id" (token_id a cfg) refl)
            ∙ ap (λ o. token_id a cfg ++ codes "." ++ bytes_or_empty o)
                (keeps.contents "token-secret" value refl)
      ]

-- Reading the cluster's kubeconfig changes no secret.
