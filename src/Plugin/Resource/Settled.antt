-- ===== src/Plugin/Resource/Settled.antt =====
-- What CreateOrUpdate of resource.go leaves in the cloud.
use aks_flex.Common.{
  ◌≡◌, refl, ◌∙◌, ap, ◌⊎◌, inl, inr, true, false, ok, err, ◌==◌, string_eq, Result-cases,
  Bool-cases, err≢ok, ok_unique,
}
use aks_flex.Plugin.Resource.{
  Resource, Service, ServiceLaws, drift_todo, by_name, by_id, wait_and_get, create, resolve, settle,
  update_drifted, create_or_update,
}

module _ {S Op E W : Type 0} (svc : Service S Op E W) (laws : ServiceLaws svc)
    (desired : Resource S) where
  -- No id is set yet.
  abbrev pub Unnumbered : Type 0
  Unnumbered = desired.metadata.id ≡ ""

  resolve_reads : (w : W) → (resolve svc desired w).1 ≡ w
  unfolding resolve by_name by_id
  resolve_reads w = elim (Bool-cases (desired.metadata.id == "")) [
    | inl q ↦
        rw (resolve, q) (laws.get_by_name_reads desired.metadata.name desired.metadata.parent_id w)
    | inr q ↦ rw (resolve, q) (laws.get_reads desired.metadata.id w)
  ]

  pub resolve-Unnumbered :
      (w : W)
      → Unnumbered
      → resolve svc desired w ≡ svc.get_by_name desired.metadata.name desired.metadata.parent_id w
  unfolding resolve by_name
  resolve-Unnumbered w h = rw (resolve, h) refl

  -- A resource that is found is the answer, and nothing is written.
  pub found_lem :
      (w : W) (r : Resource S)
      → (resolve svc desired w).0 ≡ ok r
      → create_or_update svc drift_todo desired w ≡ (ok r, w)
  unfolding create_or_update settle update_drifted drift_todo
  found_lem w r q = rw (create_or_update, q, settle, resolve_reads w) refl

  pub missing_lem :
      (w : W) (e : E)
      → (resolve svc desired w).0 ≡ err e
      → svc.is_not_found e ≡ true
      → create_or_update svc drift_todo desired w ≡ create svc desired w
  unfolding create_or_update settle
  missing_lem w e q k = rw (create_or_update, q, settle, k, resolve_reads w) refl

  pub refused_lem :
      (w : W) (e : E)
      → (resolve svc desired w).0 ≡ err e
      → svc.is_not_found e ≡ false
      → create_or_update svc drift_todo desired w ≡ (err e, w)
  unfolding create_or_update settle
  refused_lem w e q k = rw (create_or_update, q, settle, k, resolve_reads w) refl

  -- What a creation ends in is found by its name.
  create-by_name :
      (w : W) (r : Resource S)
      → (create svc desired w).0 ≡ ok r
      → (svc.get_by_name desired.metadata.name desired.metadata.parent_id
          (create svc desired w).1).0
        ≡ ok r
  unfolding create wait_and_get
  create-by_name w r made =
      let asked = svc.create desired.metadata desired.spec w in
      elim (Result-cases asked.0) [
        | inr (why, q) ↦ absurd (err≢ok (rw (create, q) at made))
        | inl (op, q) ↦ elim (Result-cases (svc.wait op asked.1).0) [
          | inr (why, k) ↦ absurd (err≢ok (rw (create, q, wait_and_get, k) at made))
          | inl (id, k) ↦
              rw (create, q, wait_and_get, k, laws.get_reads id (svc.wait op asked.1).1)
                (laws.create_named desired.metadata desired.spec op id w q k
                  ∙ rw (create, q, wait_and_get, k) at made)
        ]
      ]

  -- What CreateOrUpdate answers for a resource that has no id yet is found by its look-up.
  pub create_or_update-resolve :
      (w : W) (r : Resource S)
      → Unnumbered
      → (create_or_update svc drift_todo desired w).0 ≡ ok r
      → (resolve svc desired (create_or_update svc drift_todo desired w).1).0 ≡ ok r
  create_or_update-resolve w r h done = elim (Result-cases (resolve svc desired w).0) [
    | inl (found, q) ↦
        let same = found_lem w found q in
        rw (same) (q ∙ ap ok (ok_unique (ap (λ p. p.0) same) done))
    | inr (e, q) ↦ elim (Bool-cases (svc.is_not_found e)) [
      | inr k ↦ absurd (err≢ok (rw (refused_lem w e q k) at done))
      | inl k ↦
          let same = missing_lem w e q k in
          let w' = (create svc desired w).1 in
          rw (same)
            (ap (λ p. p.0) (resolve-Unnumbered w' h) ∙ create-by_name w r (rw (same) at done))
    ]
  ]

  -- Where there is no drift, an answer of CreateOrUpdate for a resource that has no id yet is
  -- settled.
  pub create_or_update-again :
      (w : W) (r : Resource S)
      → Unnumbered
      → (create_or_update svc drift_todo desired w).0 ≡ ok r
      → let w' = (create_or_update svc drift_todo desired w).1 in
        create_or_update svc drift_todo desired w' ≡ (ok r, w')
  create_or_update-again w r h done =
      found_lem (create_or_update svc drift_todo desired w).1 r
        (create_or_update-resolve w r h done)

  -- CreateOrUpdate, where there is no drift, writes only when the look-up of the resource by its
  -- id, or by its name, says that there is none. The service keeps the laws of the Nebius API.
  pub create_or_update-Untouched :
      (w : W)
      → ((create_or_update svc drift_todo desired w).1 ≡ w)
        ⊎ ((e : E) × ((resolve svc desired w).0 ≡ err e) × (svc.is_not_found e ≡ true))
  create_or_update-Untouched w = elim (Result-cases (resolve svc desired w).0) [
    | inl (r, q) ↦ inl (ap (λ p. p.1) (found_lem w r q))
    | inr (e, q) ↦ elim (Bool-cases (svc.is_not_found e)) [
      | inl k ↦ inr (e, q, k)
      | inr k ↦ inl (ap (λ p. p.1) (refused_lem w e q k))
    ]
  ]
