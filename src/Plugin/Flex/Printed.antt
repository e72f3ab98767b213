-- ===== src/Plugin/Flex/Printed.antt =====
-- What the user data of a flex node holds.
use mathlib.Core.List.{append_assoc, append-nil}
use aks_flex.Common.{
  none, some, if◌then◌else◌, ◌≡◌, refl, sym, ap, ◌∙◌, inl, inr, true, false, ◌||◌, List, [], ◌∷◌,
  ◌++◌, String, ok, map_err, ◌==◌, string_eq, >>=-eq-ok, map_err-eq-ok, Result-cases, Bool-cases,
  err≢ok, ok_unique,
}
use aks_flex.Plugin.CloudInit.{UserData}
use aks_flex.Plugin.Flex.{
  Step, configure_base_os, disable_docker, download_cri_binaries, download_kube_binaries, start_cri,
  configure_iptables, kubeadm_node_join, node_join, Printers, Options, marshalling, rendering,
  validate, steps, marshal_steps, resolve_flex_component_configs, render_bootstrap_script,
  flex_user_data, user_data,
}

module _ {E : Type 0} (printers : Printers E) where
  -- The texts of the steps, in their order.
  abbrev pub Prints : List Step → List String → Type 0
  Prints [] [] = Unit {0}
  Prints [] (t ∷ texts) = ⊥
  Prints (s ∷ ss) [] = ⊥
  Prints (s ∷ ss) (t ∷ texts) = (printers.marshal_step s ≡ ok t) × Prints ss texts

  marshal_steps-Prints :
      (xs : List String) (ss : List Step) (ys : List String)
      → marshal_steps printers xs ss ≡ ok ys
      → (texts : List String) × (ys ≡ xs ++ texts) × Prints ss texts
  unfolding marshal_steps
  marshal_steps-Prints xs [] ys h = let e : xs ≡ ys = cc in ([], sym e ∙ sym (append-nil xs), tt)
  marshal_steps-Prints xs (s ∷ ss) ys h = elim (Result-cases (printers.marshal_step s)) [
    | inr (e, q) ↦ absurd (err≢ok (rw (q, marshal_steps) at h))
    | inl (t, q) ↦
        let (texts, joined, printed) =
          marshal_steps-Prints (xs ++ t ∷ []) ss ys (rw (q, marshal_steps) at h) in
        (t ∷ texts, joined ∙ append_assoc xs (t ∷ []) texts, (q, printed))
  ]

  validate-ok :
      (o : Options) (version : String)
      → validate printers o ≡ ok version
      → ((o.arch == "amd64" || o.arch == "arm64") ≡ true)
        × (version ≡ printers.trim_prefix o.kube_version "v")
        × ((version == "") ≡ false)
  unfolding validate
  validate-ok o version h = elim (Bool-cases (o.arch == "amd64" || o.arch == "arm64")) [
    | inr q ↦ absurd (err≢ok (rw (validate, q) at h))
    | inl q ↦ elim (Bool-cases (printers.trim_prefix o.kube_version "v" == "")) [
      | inl k ↦ absurd (err≢ok (rw (validate, q, k) at h))
      | inr k ↦
          let same : version ≡ printers.trim_prefix o.kube_version "v" =
            sym (ok_unique refl (rw (validate, q, k) at h)) in
          (q, same, ap (λ v. v == "") same ∙ k)
    ]
  ]

  -- All steps, in their order.
  abbrev pub all_steps : Options → String → List Step
  all_steps o version =
      configure_base_os
      ∷ disable_docker
      ∷ download_cri_binaries "2.0.4" "1.2.5"
      ∷ download_kube_binaries version
      ∷ start_cri o.enable_nvidia_gpu_runtime
      ∷ configure_iptables
      ∷ kubeadm_node_join (record {
        server = o.kubeadm_config.server;
        certificate_authority_data = o.kubeadm_config.certificate_authority_data;
        token = o.kubeadm_config.token;
        node_labels = o.kubeadm_config.node_labels;
        node_ip = if o.kubeadm_config.node_ip == "" then none else some o.kubeadm_config.node_ip;
        taints = o.kubeadm_config.register_with_taints;
      })
      ∷ []

  -- User data whose one file has the printed steps for the options' version without its "v".
  abbrev pub Configured : Options → UserData → Type 0
  Configured o ud =
      (version : String) × (texts : List String) × (configs : String) × (version
        ≡ printers.trim_prefix o.kube_version "v")
      × ((version == "") ≡ false)
      × ((o.arch == "amd64" || o.arch == "arm64") ≡ true)
      × Prints (all_steps o version) texts
      × (printers.marshal_all texts ≡ ok configs)
      × (ud.write_files
          ≡ record { path = "/tmp/flex-config.json"; content = configs; permissions = "0644" } ∷ [])

  -- When UserData succeeds, its one file is the printed list of the seven steps in their order,
  -- the base system, Docker disabled, containerd 2.0.4 with runc 1.2.5, the Kubernetes binaries,
  -- the container runtime with the GPU option, iptables and the join with the given
  -- configuration, for a supported architecture and the Kubernetes version without its leading
  -- "v", which is not empty.
  pub user_data-Configured :
      (o : Options) (ud : UserData) → user_data printers o ≡ ok ud → Configured o ud
  unfolding user_data resolve_flex_component_configs flex_user_data steps node_join
  user_data-Configured o ud h =
      let (version, valid, rest) = >>=-eq-ok (validate printers o) _ h in
      let (arch, trimmed, full) = validate-ok o version valid in
      let (configs, resolved, rest') = >>=-eq-ok _ _ rest in
      let (script_text, rendered, last) =
        >>=-eq-ok (map_err rendering (render_bootstrap_script printers o.arch))
          (λ t. ok (flex_user_data printers configs t)) rest' in
      let (ys, marshalled, all) =
        >>=-eq-ok
          (marshal_steps printers []
            (steps printers o.enable_nvidia_gpu_runtime version o.kubeadm_config))
          printers.marshal_all
          (map_err-eq-ok marshalling
            (resolve_flex_component_configs printers o.enable_nvidia_gpu_runtime version
              o.kubeadm_config)
            configs resolved) in
      let (texts, joined, printed) =
        marshal_steps-Prints []
          (steps printers o.enable_nvidia_gpu_runtime version o.kubeadm_config) ys marshalled in
      (
        version,
        texts,
        configs,
        trimmed,
        full,
        arch,
        printed,
        ap printers.marshal_all (sym joined) ∙ all,
        sym (
            ap (λ u. u.write_files)
              (ok_unique {r = ok (flex_user_data printers configs script_text)} refl last)),
      )
