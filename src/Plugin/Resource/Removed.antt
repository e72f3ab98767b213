-- ===== src/Plugin/Resource/Removed.antt =====
-- What Delete of resource.go leaves in the cloud.
use mathlib.Core.Path.{subst}
use aks_flex.Common.{
  ◌≡◌, refl, sym, ◌∙◌, ap, ◌⊎◌, inl, inr, true, false, String, ok, err, err_unique, ◌==◌, string_eq,
  Result-cases, Bool-cases, err≢ok, pair,
}
use aks_flex.Plugin.Resource.{
  Resource, Service, ServiceLaws, by_name, ignore_not_found, wait_deleted, delete_by_id,
  delete_resolved, delete,
}

true≢false : true ≡ false → ⊥
true≢false h = cc

module _ {S Op E W : Type 0} (svc : Service S Op E W) (laws : ServiceLaws svc) where
  ignored : {e : E} → ignore_not_found svc e ≡ ok tt → svc.is_not_found e ≡ true
  unfolding ignore_not_found
  ignored {e = e} h = elim (Bool-cases (svc.is_not_found e)) [
    | inl q ↦ q
    | inr q ↦ absurd (err≢ok (rw (ignore_not_found, q) at h))
  ]

  ignore_lem : {e : E} → svc.is_not_found e ≡ true → ignore_not_found svc e ≡ ok tt
  unfolding ignore_not_found
  ignore_lem h = rw (ignore_not_found, h) refl

  -- What a deletion that has succeeded has done: nothing, where there was no such resource, or its
  -- operation has ended.
  abbrev pub IsGone : String → W → W → Type 0
  IsGone id w w' =
      ((e : E) × ((svc.delete id w).0 ≡ err e) × (svc.is_not_found e ≡ true) × (w' ≡ w))
      ⊎ ((op : Op) × ((svc.delete id w).0 ≡ ok op)
          × (last : String) × ((svc.wait op (svc.delete id w).1).0 ≡ ok last)
          × (w' ≡ (svc.wait op (svc.delete id w).1).1))

  delete_by_id-IsGone :
      (t : Resource S) (w : W)
      → (delete_by_id svc t w).0 ≡ ok tt
      → IsGone t.metadata.id w (delete_by_id svc t w).1
  unfolding delete_by_id wait_deleted
  delete_by_id-IsGone t w done =
      let asked = svc.delete t.metadata.id w in
      elim (Result-cases asked.0) [
        | inr (e, q) ↦
            let k = ignored (rw (delete_by_id, q, wait_deleted) at done) in
            inl (
              e,
              q,
              k,
              rw (delete_by_id, q, wait_deleted) (laws.delete_missing t.metadata.id e w q k),
            )
        | inl (op, q) ↦ elim (Result-cases (svc.wait op asked.1).0) [
          | inr (why, k) ↦ absurd (err≢ok (rw (delete_by_id, q, wait_deleted, k) at done))
          | inl (last, k) ↦ inr (op, q, last, k, rw (delete_by_id, q, wait_deleted, k) refl)
        ]
      ]

  -- The deletion of what is not there.
  missing_lem :
      (t : Resource S) (w : W) (e : E)
      → svc.delete t.metadata.id w ≡ (err e, w)
      → svc.is_not_found e ≡ true
      → delete_by_id svc t w ≡ (ok tt, w)
  unfolding delete_by_id wait_deleted
  missing_lem t w e q k = rw (delete_by_id, q, wait_deleted, ignore_lem k) refl

  delete_by_id-again :
      (t : Resource S) (w : W)
      → (delete_by_id svc t w).0 ≡ ok tt
      → let w' = (delete_by_id svc t w).1 in delete_by_id svc t w' ≡ (ok tt, w')
  delete_by_id-again t w done = elim (delete_by_id-IsGone t w done) [
    | inl (e, q, k, same) ↦
        rw (same) (missing_lem t w e (pair q (laws.delete_missing t.metadata.id e w q k)) k)
    | inr (op, q, last, k, same) ↦
        let (e, unfound, gone) = laws.delete_gone t.metadata.id op last w q k in
        rw (same) (missing_lem t (svc.wait op (svc.delete t.metadata.id w).1).1 e gone unfound)
  ]

  by_name_lem : (t : Resource S) (w : W) → (by_name svc t w).1 ≡ w
  unfolding by_name
  by_name_lem t w = laws.get_by_name_reads t.metadata.name t.metadata.parent_id w

  delete_found_lem :
      (t : Resource S) (w : W) (r : Resource S)
      → (by_name svc t w).0 ≡ ok r
      → delete_resolved svc (by_name svc t w) ≡ delete_by_id svc r w
  unfolding delete_resolved
  delete_found_lem t w r q = rw (q, delete_resolved, by_name_lem t w) refl

  delete_unfound_lem :
      (t : Resource S) (w : W) (e : E)
      → (by_name svc t w).0 ≡ err e
      → svc.is_not_found e ≡ true
      → delete_resolved svc (by_name svc t w) ≡ (ok tt, w)
  unfolding delete_resolved
  delete_unfound_lem t w e q k = rw (q, delete_resolved, ignore_lem k, by_name_lem t w) refl

  delete_resolved-again :
      (t : Resource S) (w : W)
      → (delete_resolved svc (by_name svc t w)).0 ≡ ok tt
      → let w' = (delete_resolved svc (by_name svc t w)).1 in
        delete_resolved svc (by_name svc t w') ≡ (ok tt, w')
  unfolding by_name delete_resolved
  delete_resolved-again t w done = elim (Result-cases (by_name svc t w).0) [
    | inr (e, q) ↦
        let k = ignored (rw (q, delete_resolved) at done) in
        let same = delete_unfound_lem t w e q k in rw (same) same
    | inl (r, q) ↦
        let same = delete_found_lem t w r q in
        elim (delete_by_id-IsGone r w (ap (λ p. p.0) (sym same) ∙ done)) [
          | inl (e, k, unfound, back) ↦
              rw (same, back) (same ∙ pair (ap (λ p. p.0) (sym same) ∙ done) back)
          | inr (op, k, last, l, ended) ↦
              let (e, unfound, gone) =
                laws.delete_gone_named t.metadata.name t.metadata.parent_id r op last w q k l in
              rw (same, ended)
                (delete_unfound_lem t (svc.wait op (svc.delete r.metadata.id w).1).1 e
                  (ap (λ p. p.0) gone) unfound)
        ]
  ]

  -- A resource that Delete has removed can be deleted again: that succeeds too, and changes
  -- nothing. The service keeps the laws of the Nebius API.
  delete-again :
      (t : Resource S) (w : W)
      → (delete svc t w).0 ≡ ok tt
      → let w' = (delete svc t w).1 in delete svc t w' ≡ (ok tt, w')
  unfolding delete
  delete-again t w done = elim (Bool-cases (t.metadata.id == "")) [
    | inl q ↦ rw (delete, q) (delete_resolved-again t w (rw (delete, q) at done))
    | inr q ↦ rw (delete, q) (delete_by_id-again t w (rw (delete, q) at done))
  ]

  -- What a deletion that has failed has met: an error other than not found, or a failed operation.
  abbrev pub IsRefused : String → E → W → Type 0
  IsRefused id e w =
      (((svc.delete id w).0 ≡ err e) × (svc.is_not_found e ≡ false))
      ⊎ ((op : Op) × ((svc.delete id w).0 ≡ ok op) × ((svc.wait op (svc.delete id w).1).0 ≡ err e))

  -- A resource is deleted under its ID, or, where that is empty, under the ID that its name has.
  abbrev pub Deletes : Resource S → W → W → Type 0
  Deletes t w w' =
      (((t.metadata.id == "") ≡ false) × IsGone t.metadata.id w w')
      ⊎ (((t.metadata.id == "") ≡ true)
          × (((r : Resource S) × ((svc.get_by_name t.metadata.name t.metadata.parent_id w).0 ≡ ok r)
                × IsGone r.metadata.id w w')
              ⊎ ((e : E) × ((svc.get_by_name t.metadata.name t.metadata.parent_id w).0 ≡ err e)
                  × (svc.is_not_found e ≡ true)
                  × (w' ≡ w))))

  abbrev pub Refuses : Resource S → E → W → Type 0
  Refuses t e w =
      (((t.metadata.id == "") ≡ false) × IsRefused t.metadata.id e w)
      ⊎ (((t.metadata.id == "") ≡ true)
          × (((r : Resource S) × ((svc.get_by_name t.metadata.name t.metadata.parent_id w).0 ≡ ok r)
                × IsRefused r.metadata.id e w)
              ⊎ (((svc.get_by_name t.metadata.name t.metadata.parent_id w).0 ≡ err e)
                  × (svc.is_not_found e ≡ false))))

  delete_resolved-Deletes :
      (t : Resource S) (w : W)
      → ((t.metadata.id == "") ≡ true)
      → (delete_resolved svc (by_name svc t w)).0 ≡ ok tt
      → Deletes t w (delete_resolved svc (by_name svc t w)).1
  unfolding by_name delete_resolved
  delete_resolved-Deletes t w unset done = elim (Result-cases (by_name svc t w).0) [
    | inr (e, q) ↦
        let k = ignored (rw (q, delete_resolved) at done) in
        inr (unset, inr (e, q, k, ap (λ p. p.1) (delete_unfound_lem t w e q k)))
    | inl (r, q) ↦
        let same = delete_found_lem t w r q in
        inr
          (unset, inl (r, q, rw (same) (delete_by_id-IsGone r w (ap (λ p. p.0) (sym same) ∙ done))))
  ]

  pub delete-Deletes :
      (t : Resource S) (w : W) → (delete svc t w).0 ≡ ok tt → Deletes t w (delete svc t w).1
  unfolding delete
  delete-Deletes t w done = elim (Bool-cases (t.metadata.id == "")) [
    | inl q ↦
        let same : delete svc t w ≡ delete_resolved svc (by_name svc t w) = rw (delete, q) refl in
        subst (λ r. Deletes t w r.1) (sym same)
          (delete_resolved-Deletes t w q (ap (λ r. r.0) (sym same) ∙ done))
    | inr q ↦
        let same : delete svc t w ≡ delete_by_id svc t w = rw (delete, q) refl in
        subst (λ r. Deletes t w r.1) (sym same)
          (inl (q, delete_by_id-IsGone t w (ap (λ r. r.0) (sym same) ∙ done)))
  ]

  kept_error :
      {e e' : E} → ignore_not_found svc e' ≡ err e → (e' ≡ e) × (svc.is_not_found e' ≡ false)
  unfolding ignore_not_found
  kept_error {e' = e'} h = elim (Bool-cases (svc.is_not_found e')) [
    | inl q ↦ absurd (err≢ok (sym (rw (ignore_not_found, q) at h)))
    | inr q ↦ (err_unique refl (rw (ignore_not_found, q) at h), q)
  ]

  delete_by_id-IsRefused :
      (t : Resource S) (e : E) (w : W)
      → (delete_by_id svc t w).0 ≡ err e
      → IsRefused t.metadata.id e w
  unfolding delete_by_id wait_deleted
  delete_by_id-IsRefused t e w h =
      let asked = svc.delete t.metadata.id w in
      elim (Result-cases asked.0) [
        | inr (e', q) ↦
            let (same, k) =
              kept_error {e = e} {e' = e'} (rw (delete_by_id, q, wait_deleted) at h) in
            inl (q ∙ ap err same, ap svc.is_not_found (sym same) ∙ k)
        | inl (op, q) ↦ elim (Result-cases (svc.wait op asked.1).0) [
          | inr (why, k) ↦
              inr (op, q, k ∙ ap err (err_unique refl (rw (delete_by_id, q, wait_deleted, k) at h)))
          | inl (last, k) ↦ absurd (err≢ok (sym (rw (delete_by_id, q, wait_deleted, k) at h)))
        ]
      ]

  delete_resolved-Refuses :
      (t : Resource S) (e : E) (w : W)
      → ((t.metadata.id == "") ≡ true)
      → (delete_resolved svc (by_name svc t w)).0 ≡ err e
      → Refuses t e w
  unfolding by_name delete_resolved
  delete_resolved-Refuses t e w unset h = elim (Result-cases (by_name svc t w).0) [
    | inr (e', q) ↦
        let (same, k) = kept_error {e = e} {e' = e'} (rw (q, delete_resolved) at h) in
        inr (unset, inr (q ∙ ap err same, ap svc.is_not_found (sym same) ∙ k))
    | inl (r, q) ↦
        let same = delete_found_lem t w r q in
        inr (unset, inl (r, q, delete_by_id-IsRefused r e w (ap (λ p. p.0) (sym same) ∙ h)))
  ]

  pub delete-Refuses : (t : Resource S) (e : E) (w : W) → (delete svc t w).0 ≡ err e → Refuses t e w
  unfolding delete
  delete-Refuses t e w h = elim (Bool-cases (t.metadata.id == "")) [
    | inl q ↦ delete_resolved-Refuses t e w q (rw (delete, q) at h)
    | inr q ↦ inl (q, delete_by_id-IsRefused t e w (rw (delete, q) at h))
  ]

  -- A resource with an ID is deleted under it.
  pub Deletes-IsGone :
      (t : Resource S) (id : String) (w w' : W)
      → ((id == "") ≡ false)
      → t.metadata.id ≡ id
      → Deletes t w w'
      → IsGone id w w'
  Deletes-IsGone t id w w' set same (inl (q, gone)) = subst (λ x. IsGone x w w') same gone
  Deletes-IsGone t id w w' set same (inr (q, rest)) =
      absurd (true≢false (sym q ∙ ap (λ x. x == "") same ∙ set))

  pub Refuses-IsRefused :
      (t : Resource S) (id : String) (e : E) (w : W)
      → ((id == "") ≡ false)
      → t.metadata.id ≡ id
      → Refuses t e w
      → IsRefused id e w
  Refuses-IsRefused t id e w set same (inl (q, r)) = subst (λ x. IsRefused x e w) same r
  Refuses-IsRefused t id e w set same (inr (q, rest)) =
      absurd (true≢false (sym q ∙ ap (λ x. x == "") same ∙ set))
