-- ===== src/Controllers/ProviderId.antt =====
-- Reconcile of set_provider_id.go.
use aks_flex.Common.{
  arith, ◌≡◌, refl, ap, ◌∙◌, ◌≢◌, ◌⊎◌, inl, inr, true, false, none, some, String, Result, ok, err,
  ◌==◌, string_eq, if◌then◌else◌, Result-cases, Bool-cases, Option-cases,
}
use aks_flex.Common.Assoc.{lookup}
use aks_flex.Karpenter.{NodeClaim}
use aks_flex.Controllers.{Node, Requeue, no_requeue, requeue_after, Client}

ne_empty : {text : String} → (text == "") ≡ false → text ≢ ""
ne_empty {text = text} h e = ground (arith, string_eq.same_iff text "")

module _ {Conditions E W : Type 0} (client : Client Conditions E W) where
  unfoldable pub patched : Result E Node × W → Result E Requeue × W
  patched (ok node, w) = (ok no_requeue, w)
  patched (err e, w) = (err e, w)

  -- Reconcile after the NodeClaim has been asked for.
  unfoldable pub set_from_claim : Node → Result E NodeClaim × W → Result E Requeue × W
  unfolding patched
  set_from_claim node (err e, w) = (if client.is_not_found e then ok no_requeue else err e, w)
  set_from_claim node (ok claim, w) =
      if claim.provider_id == ""
      then (ok (requeue_after 30), w)
      else patched (client.patch_node (record node { provider_id = claim.provider_id }) node w)

  unfoldable pub reconcile : Node → W → Result E Requeue × W
  unfolding set_from_claim
  reconcile node w =
      if node.provider_id == ""
      then elim (lookup "karpenter.azure.com/node-claim" node.labels) [
        | none ↦ (ok no_requeue, w)
        | some name ↦ set_from_claim node (client.get_node_claim name w)
      ]
      else (ok no_requeue, w)

  -- What the API server promises, for the provider ID that it has for a node: a read changes
  -- nothing, a patch concerns the node of its object, and one that succeeds has written a provider
  -- ID which differs from that of the base.
  pub record NodeLaws : Type 0 where
    pub provider_id_at : String → W → String
    pub get_reads : (name : String) (w : W) → (client.get_node_claim name w).1 ≡ w
    pub patch_node_only :
        (obj base : Node) (w : W) (name : String)
        → let w' = (client.patch_node obj base w).1 in
          (provider_id_at name w' ≡ provider_id_at name w) ⊎ (name ≡ obj.name)
    pub patch_node_writes :
        (obj base : Node) (w : W) (answer : Node)
        → (obj.provider_id == base.provider_id) ≡ false
        → (client.patch_node obj base w).0 ≡ ok answer
        → provider_id_at obj.name (client.patch_node obj base w).1 ≡ obj.provider_id

  module _ (laws : NodeLaws) (node : Node) (w : W) where
    -- The claim that the node's label names.
    abbrev pub Claimed : NodeClaim → Type 0
    Claimed claim =
        (name : String) × (lookup "karpenter.azure.com/node-claim" node.labels ≡ some name)
        × ((client.get_node_claim name w).0 ≡ ok claim)

    -- What a call of Reconcile comes to.
    abbrev pub Progress : Result E Requeue × W → Type 0
    Progress r =
        -- there is nothing to do
        ((r ≡ (ok no_requeue, w))
          × ((node.provider_id ≢ "")
              ⊎ (lookup "karpenter.azure.com/node-claim" node.labels ≡ none)
              ⊎ ((name : String) × (e : E) × (lookup "karpenter.azure.com/node-claim" node.labels
                    ≡ some name)
                  × ((client.get_node_claim name w).0 ≡ err e)
                  × (client.is_not_found e ≡ true))))
        -- it is tried again, since the claim has no provider ID, or since there is an error
        ⊎ ((r ≡ (ok (requeue_after 30), w))
            × ((claim : NodeClaim) × Claimed claim × (claim.provider_id ≡ "")))
        ⊎ ((e : E) × (r.0 ≡ err e))
        -- the node has the provider ID of the claim
        ⊎ ((r.0 ≡ ok no_requeue)
            × ((claim : NodeClaim) × Claimed claim
                × (claim.provider_id ≢ "")
                × (laws.provider_id_at node.name r.1 ≡ claim.provider_id)))

    set_from_claim-Progress :
        (name : String) (claim : NodeClaim)
        → (node.provider_id == "") ≡ true
        → lookup "karpenter.azure.com/node-claim" node.labels ≡ some name
        → (client.get_node_claim name w).0 ≡ ok claim
        → Progress (set_from_claim node (ok claim, w))
    unfolding set_from_claim patched
    set_from_claim-Progress name claim h l q = elim (Bool-cases (claim.provider_id == "")) [
      | inl k ↦
          rw (set_from_claim, k)
            (inr (inl (refl, (claim, (name, l, q), (string_eq.same_iff claim.provider_id "").0 k))))
      | inr k ↦
          let future = record node { provider_id = claim.provider_id } in
          elim (Result-cases (client.patch_node future node w).0) [
            | inr (e, m) ↦ rw (set_from_claim, k, patched, m) (inr (inr (inl (e, refl))))
            | inl (answer, m) ↦
                let fresh = (string_eq.same_iff node.provider_id "").0 h in
                let written = laws.patch_node_writes future node w answer (rw (fresh) k) m in
                rw (set_from_claim, k, patched, m)
                  (inr (inr (inr (refl, (claim, (name, l, q), ne_empty k, written)))))
          ]
    ]

    missing-Progress :
        (name : String) (e : E)
        → lookup "karpenter.azure.com/node-claim" node.labels ≡ some name
        → (client.get_node_claim name w).0 ≡ err e
        → Progress (set_from_claim node (err e, w))
    unfolding set_from_claim
    missing-Progress name e l q = elim (Bool-cases (client.is_not_found e)) [
      | inl k ↦ rw (set_from_claim, k) (inl (refl, inr (inr (name, e, l, q, k))))
      | inr k ↦ rw (set_from_claim, k) (inr (inr (inl (e, refl))))
    ]

    labelled_lem :
        (name : String)
        → (node.provider_id == "") ≡ true
        → lookup "karpenter.azure.com/node-claim" node.labels ≡ some name
        → reconcile node w ≡ set_from_claim node ((client.get_node_claim name w).0, w)
    unfolding reconcile
    labelled_lem name q l = rw (reconcile, q, l, laws.get_reads name w) refl

    unlabelled_lem :
        (node.provider_id == "") ≡ true
        → lookup "karpenter.azure.com/node-claim" node.labels ≡ none
        → reconcile node w ≡ (ok no_requeue, w)
    unfolding reconcile
    unlabelled_lem q l = rw (reconcile, q, l) refl

    settled_lem : (node.provider_id == "") ≡ false → reconcile node w ≡ (ok no_requeue, w)
    unfolding reconcile
    settled_lem q = rw (reconcile, q) refl

    -- Reconcile does nothing only for a node that has a provider ID, has no label, or names a
    -- NodeClaim that is not found; it is tried again, after 30 seconds or for an error, while the
    -- claim has no provider ID or a call fails; otherwise the API server has the claim's provider
    -- ID for the node. The client keeps the laws of the API server.
    pub reconcile-Progress : Progress (reconcile node w)
    reconcile-Progress = elim (Bool-cases (node.provider_id == "")) [
      | inr q ↦ inl (settled_lem q, inl (ne_empty q))
      | inl q ↦ elim (Option-cases (lookup "karpenter.azure.com/node-claim" node.labels)) [
        | inl l ↦ inl (unlabelled_lem q l, inr (inl l))
        | inr (name, l) ↦ elim (Result-cases (client.get_node_claim name w).0) [
          | inl (claim, k) ↦
              rw (labelled_lem name q l ∙ ap (λ r. set_from_claim node (r, w)) k)
                (set_from_claim-Progress name claim q l k)
          | inr (e, k) ↦
              rw (labelled_lem name q l ∙ ap (λ r. set_from_claim node (r, w)) k)
                (missing-Progress name e l k)
        ]
      ]
    ]

    -- The API server's provider ID of a node is the one that it had, or the node had none.
    abbrev pub Kept : String → W → Type 0
    Kept name w' =
        (laws.provider_id_at name w' ≡ laws.provider_id_at name w)
        ⊎ ((name ≡ node.name) × (laws.provider_id_at name w ≡ ""))

    patched-world : (r : Result E Node × W) → (patched r).1 ≡ r.1
    unfolding patched
    patched-world (ok answer, w') = refl
    patched-world (err e, w') = refl

    set_from_claim-Kept :
        (name : String) (r : Result E NodeClaim)
        → (node.provider_id == "") ≡ true
        → laws.provider_id_at node.name w ≡ node.provider_id
        → Kept name (set_from_claim node (r, w)).1
    unfolding set_from_claim patched
    set_from_claim-Kept name (err e) q current = inl refl
    set_from_claim-Kept name (ok claim) q current = elim (Bool-cases (claim.provider_id == "")) [
      | inl k ↦ rw (set_from_claim, k) (inl refl)
      | inr k ↦
          let future = record node { provider_id = claim.provider_id } in
          rw (set_from_claim, k, patched-world (client.patch_node future node w))
            (elim (laws.patch_node_only future node w name) [
              | inl same ↦ inl same
              | inr this ↦ inr (
                this,
                ap (λ n. laws.provider_id_at n w) this
                    ∙ current
                    ∙ (string_eq.same_iff node.provider_id "").0 q,
              )
            ])
    ]

    -- Reconcile never changes a provider ID that the API server has for a node, whatever the
    -- calls return. The view of the reconciled node is current, and the client keeps the laws of
    -- the API server.
    pub reconcile-Kept :
        (name : String)
        → laws.provider_id_at node.name w ≡ node.provider_id
        → Kept name (reconcile node w).1
    reconcile-Kept name current = elim (Bool-cases (node.provider_id == "")) [
      | inr q ↦ rw (settled_lem q) (inl refl)
      | inl q ↦ elim (Option-cases (lookup "karpenter.azure.com/node-claim" node.labels)) [
        | inl l ↦ rw (unlabelled_lem q l) (inl refl)
        | inr (claim, l) ↦
            rw (labelled_lem claim q l)
              (set_from_claim-Kept name (client.get_node_claim claim w).0 q current)
      ]
    ]
