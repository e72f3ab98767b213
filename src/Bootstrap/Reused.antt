-- ===== src/Bootstrap/Reused.antt =====
-- What a later call and a joining node get of the token of a secret, once the cluster has it.
use mathlib.Core.Path.{subst}
use aks_flex.Common.{
  ◌++◌, ◌≡◌, ◌⊎◌, refl, sym, ap, ◌∙◌, inl, inr, Option, none, some, Result, ok, err, length,
  string_eq, Bool-cases, err≢ok, ok_unique,
}
use aks_flex.Common.Assoc.{lookup}
use aks_flex.Cluster.{ClusterConfig, Kube, kubeconfig}
use aks_flex.Bootstrap.{
  codes, Bytes, Secret, Api, token_secret, secret_name, token_id, existing_value, secret_for,
  bootstrap_token_secret, bytes_or_empty,
}
use aks_flex.Bootstrap.Tokens.{Keeps, Has, ApiLaws, secret_for-Token, secret_for-kept}
use aks_flex.Bootstrap.Joined.{from_loaded-token}
use aks_flex.Bootstrap.Node.{from_aks}

-- What a result has, where it is no error.
abbrev pub Gives : {E A : Type 0} → Result E A → (A → Type 0) → Type 0
Gives (ok x) P = P x
Gives (err e) P = Unit {0}

gives : {E A : Type 0} {P : A → Type 0} (r : Result E A) → ((x : A) → r ≡ ok x → P x) → Gives r P
gives (ok x) h = h x refl
gives (err e) h = tt

module _ {E Text W : Type 0} {a : Api E Text W} (laws : ApiLaws a) where
  open laws use {find}

  existing-value :
      (id value : Bytes) (r : Result E Secret) (v : W)
      → (a.get_secret (secret_name id) v).0 ≡ r
      → Has laws id value v
      → (existing_value a r ≡ ok value) ⊎ ((e : E) × (existing_value a r ≡ err e))
  unfolding existing_value token_secret
  existing-value id value (ok s) v got (kept, there, keeps) =
      let same : s ≡ kept = cc (laws.get_found (secret_name id) v s got, there) in
      inl (
        ap (λ t. ok (bytes_or_empty (lookup "token-secret" t.secret_data))) same
        ∙ ap (λ o. ok (bytes_or_empty o)) (keeps.contents "token-secret" value refl))
  existing-value id value (err e) v got (kept, there, keeps) =
      elim (Bool-cases (a.is_not_found e)) [
        | inl q ↦
            let gone = laws.get_missing (secret_name id) v e got q in absurd (clash gone there)
        | inr q ↦ inr (e, rw q refl)
      ]
    where
      clash : {s : Secret} {o : Option Secret} → o ≡ none → o ≡ some s → ⊥
      clash h k = cc

  -- A later call of BootstrapTokenSecret returns the same secret.
  bootstrap_token_secret-reused :
      (cfg : ClusterConfig) (value : Bytes) (v : W) (s : Secret)
      → length value ≡ 16
      → Has laws (token_id a cfg) value v
      → (bootstrap_token_secret a cfg v).0 ≡ ok s
      → s ≡ token_secret (token_id a cfg) value
  unfolding bootstrap_token_secret
  bootstrap_token_secret-reused cfg value v s long has done =
      let id = token_id a cfg in
      let got = a.get_secret (secret_name id) v in
      elim (existing-value id value got.0 v refl has) [
        | inl q ↦
            ok_unique done
              (ap (λ x. (secret_for a id (x, got.1)).0) q ∙ secret_for-kept a id value got.1 long)
        | inr (e, q) ↦ absurd (err≢ok (sym (ap (λ x. (secret_for a id (x, got.1)).0) q) ∙ done))
      ]

abbrev pub LeavesSecrets :
    {E Text Client Content W : Type 0} {a : Api E Text W}
    → ApiLaws a
    → Kube E Client Content W
    → Type 0
LeavesSecrets {W = W} laws kube =
    (cfg : ClusterConfig) (name : Bytes) (w : W)
    → laws.find name (kubeconfig kube cfg w).1 ≡ laws.find name w

module _ {E Text Client Content W : Type 0} {a : Api E Text W} (kube : Kube E Client Content W)
    (laws : ApiLaws a) (leaves : LeavesSecrets laws kube) where
  open laws use {find}

  -- What the token of a secret is for later calls.
  abbrev pub Reused : ClusterConfig → Secret → W → Type 0
  Reused cfg s v =
      (value : Bytes) × (length value ≡ 16)
      × (lookup "token-id" s.secret_data ≡ some (token_id a cfg))
      × (lookup "token-secret" s.secret_data ≡ some value)
      × Gives (bootstrap_token_secret a cfg v).0 (λ s'. s' ≡ s)
      × Gives (from_aks a kube cfg v).0 (λ c. c.token ≡ token_id a cfg ++ codes "." ++ value)

  -- A secret that BootstrapTokenSecret returns has the token ID of the configuration and a token
  -- of 16 bytes. In any world that has the secret with at least its labels and data,
  -- BootstrapTokenSecret returns the same secret or an error, and FromAKS an error or a
  -- configuration that joins with the token ID, a dot and that token. The API server finds a
  -- secret by its name, a list has every secret with its label, and reading the kubeconfig
  -- changes no secret.
  pub bootstrap_token_secret-Reused :
      (cfg : ClusterConfig) (w v : W) (s kept : Secret)
      → (bootstrap_token_secret a cfg w).0 ≡ ok s
      → find s.name v ≡ some kept
      → Keeps s kept
      → Reused cfg s v
  unfolding bootstrap_token_secret from_aks token_secret lookup
  bootstrap_token_secret-Reused cfg w v s kept made there keeps =
      let id = token_id a cfg in
      let got = a.get_secret (secret_name id) w in
      let (value, long, same) = secret_for-Token a id (existing_value a got.0) got.1 s made in
      let named : find (secret_name id) v ≡ some kept =
        ap (λ x. find x.name v) (sym same) ∙ there in
      let has : Has laws id value v = (kept, named, subst (λ x. Keeps x kept) same keeps) in
      let fetched = kubeconfig kube cfg v in
      (
        value,
        long,
        ap (λ x. lookup "token-id" x.secret_data) same,
        ap (λ x. lookup "token-secret" x.secret_data) same,
        gives _ (λ s' d. bootstrap_token_secret-reused laws cfg value v s' long has d ∙ sym same),
        gives _ (λ c d.
            from_loaded-token laws cfg value fetched.0 fetched.1 c
              (kept, leaves cfg (secret_name id) v ∙ named, subst (λ x. Keeps x kept) same keeps)
              d),
      )
