-- ===== src/Plugin/AgentPools/Joined.antt =====
-- How the node of an agent pool joins the cluster: its labels and its address.
use aks_flex.Common.{
  ◌≡◌, refl, sym, ap, ◌∙◌, inl, inr, true, false, Option, some, List, [], ◌∷◌, String, ◌==◌,
  string_eq, if◌then◌else◌, Bool-cases,
}
use aks_flex.Common.Assoc.{lookup, insert, lookup-insert}
use aks_flex.Nebius.{AgentPool, KubeadmConfig}
use aks_flex.Nebius.NodeClaims.{copy_labels, from_ptr_or}
use aks_flex.InstanceTypes.Platform.{join_names}
use aks_flex.Plugin.AgentPools.{Host, add_node_labels, label_node, node_config, with_node_ip}

module _ {E : Type 0} (host : Host E) (spec : AgentPool) where
  -- The labels that each node is given, over those of the kubeadm configuration.
  abbrev pub node_label : String → Option String
  node_label key =
      if "aks.azure.com/instance-type" == key
      then some (join_names spec.platform spec.preset)
      else (if "aks.azure.com/region" == key
          then some (host.to_lower spec.region)
          else (if "aks.azure.com/cloud" == key
              then some "nebius"
              else lookup key spec.kubeadm.node_labels))

  abbrev pub zoned_label : String → Option String
  zoned_label key =
      if "aks.azure.com/zone" == key then some (host.to_lower spec.zone) else node_label key

  abbrev own : List (String × String)
  own =
      ("aks.azure.com/cloud", "nebius")
      ∷ ("aks.azure.com/region", host.to_lower spec.region)
      ∷ ("aks.azure.com/instance-type", join_names spec.platform spec.preset)
      ∷ []

  lookup-own :
      (key : String) → lookup key (add_node_labels spec.kubeadm own).node_labels ≡ node_label key
  unfolding add_node_labels copy_labels
  lookup-own key =
      let labels = spec.kubeadm.node_labels in
      let one = insert "aks.azure.com/cloud" "nebius" labels in
      let two = insert "aks.azure.com/region" (host.to_lower spec.region) one in
      let name = join_names spec.platform spec.preset in
      rw
        (
          lookup-insert "aks.azure.com/instance-type" key name two,
          lookup-insert "aks.azure.com/region" key (host.to_lower spec.region) one,
          lookup-insert "aks.azure.com/cloud" key "nebius" labels,
        )
        refl

  zone_free : (spec.zone == "") ≡ true → label_node host spec ≡ add_node_labels spec.kubeadm own
  unfolding label_node join_names
  zone_free q = rw (label_node, q) refl

  zone_given :
      (spec.zone == "") ≡ false
      → label_node host spec
        ≡ add_node_labels
            (add_node_labels spec.kubeadm own)
            (("aks.azure.com/zone", host.to_lower spec.zone) ∷ [])
  unfolding label_node join_names
  zone_given q = rw (label_node, q) refl

  lookup-zone :
      (config : KubeadmConfig) (key : String)
      → lookup key
          (add_node_labels config
            (("aks.azure.com/zone", host.to_lower spec.zone) ∷ [])).node_labels
        ≡ (if "aks.azure.com/zone" == key
            then some (host.to_lower spec.zone)
            else lookup key config.node_labels)
  unfolding add_node_labels copy_labels
  lookup-zone config key =
      lookup-insert "aks.azure.com/zone" key (host.to_lower spec.zone) config.node_labels

  lookup-label_node :
      (key : String)
      → lookup key (label_node host spec).node_labels
        ≡ (if spec.zone == "" then node_label key else zoned_label key)
  lookup-label_node key = elim (Bool-cases (spec.zone == "")) [
    | inl q ↦
        ap (λ c. lookup key c.node_labels) (zone_free q)
        ∙ lookup-own key
        ∙ sym (ap (λ b. if b then node_label key else zoned_label key) q)
    | inr q ↦
        ap (λ c. lookup key c.node_labels) (zone_given q)
        ∙ lookup-zone (add_node_labels spec.kubeadm own) key
        ∙ ap (λ o. if "aks.azure.com/zone" == key then some (host.to_lower spec.zone) else o)
            (lookup-own key)
        ∙ sym (ap (λ b. if b then node_label key else zoned_label key) q)
  ]

  -- The configuration with which the node joins has the labels above for every key, and the
  -- address of the WireGuard peer where the agent pool has one.
  abbrev pub Joins : KubeadmConfig → Type 0
  Joins config =
      ((key : String)
        → lookup key config.node_labels
          ≡ (if spec.zone == "" then node_label key else zoned_label key))
      × ((ip : String) → spec.wireguard ≡ some ip → (ip == "") ≡ false → config.node_ip ≡ ip)

  wireguard_config :
      (ip : String)
      → spec.wireguard ≡ some ip
      → (ip == "") ≡ false
      → node_config host spec ≡ with_node_ip (label_node host spec) ip
  unfolding node_config
  wireguard_config ip h q = rw (node_config, h, q) refl

  -- The node of an agent pool joins with the labels for its cloud, its region, its instance type
  -- and its zone, where one is given, in place of any that the kubeadm configuration has for
  -- these keys, and with the configuration's labels for every other key. It joins under the
  -- address of its WireGuard peer, where it has one.
  pub node_config-Joins : Joins (node_config host spec)
  unfolding node_config
  node_config-Joins = (
    (λ key. elim (Bool-cases (from_ptr_or spec.wireguard "" == "")) [
      | inl q ↦ rw (node_config, q) (lookup-label_node key)
      | inr q ↦ rw (node_config, q) (lookup-label_node key)
    ]),
    (λ ip h q. ap (λ c. c.node_ip) (wireguard_config ip h q)),
  )
