-- ===== src/Plugin/Resource/Apart.antt =====
-- Resources of two services that do not disturb each other.
use aks_flex.Common.{◌≡◌, refl, sym, ap, ◌∙◌, inl, inr, String, ok, Result-cases, Bool-cases}
use aks_flex.Plugin.Resource.{
  Metadata, Resource, Service, ServiceLaws, drift_todo, resolve, create, wait_and_get,
}
use aks_flex.Plugin.Resource as Resource
use aks_flex.Plugin.Resource.Settled.{
  Unnumbered, resolve-Unnumbered, found_lem, missing_lem, refused_lem,
}

-- A creation of a resource of one service, and the wait for its operation, change no look-up by
-- name of the other.
pub record Apart {S S' Op Op' N W : Type 0} (one : Service S Op N W) (other : Service S' Op' N W)
    : Type 0 where
  pub create_apart :
      (md : Metadata) (spec : S) (name : String) (parent : String) (w : W)
      → (other.get_by_name name parent (one.create md spec w).1).0
        ≡ (other.get_by_name name parent w).0
  pub wait_apart :
      (op : Op) (name : String) (parent : String) (w : W)
      → (other.get_by_name name parent (one.wait op w).1).0 ≡ (other.get_by_name name parent w).0

module _ {S S' Op Op' N W : Type 0} (one : Service S Op N W) (laws : ServiceLaws one)
    (other : Service S' Op' N W) (apart : Apart one other) (desired : Resource S) (name : String)
    (parent : String) where
  create-Apart :
      (w : W)
      → (other.get_by_name name parent (create one desired w).1).0
        ≡ (other.get_by_name name parent w).0
  unfolding create wait_and_get
  create-Apart w =
      let asked = one.create desired.metadata desired.spec w in
      let first = apart.create_apart desired.metadata desired.spec name parent w in
      elim (Result-cases asked.0) [
        | inr (why, q) ↦ rw (create, q, wait_and_get) first
        | inl (op, q) ↦
            let second = apart.wait_apart op name parent asked.1 ∙ first in
            elim (Result-cases (one.wait op asked.1).0) [
              | inr (why, k) ↦ rw (create, q, wait_and_get, k) second
              | inl (id, k) ↦
                  rw (create, q, wait_and_get, k, laws.get_reads id (one.wait op asked.1).1) second
            ]
      ]

  create_or_update-Apart :
      (w : W)
      → (other.get_by_name name parent (Resource.create_or_update one drift_todo desired w).1).0
        ≡ (other.get_by_name name parent w).0
  create_or_update-Apart w = elim (Result-cases (resolve one desired w).0) [
    | inl (r, q) ↦ rw (found_lem one laws desired w r q) refl
    | inr (e, q) ↦ elim (Bool-cases (one.is_not_found e)) [
      | inl k ↦ rw (missing_lem one laws desired w e q k) (create-Apart w)
      | inr k ↦ rw (refused_lem one laws desired w e q k) refl
    ]
  ]

module _ {S S' Op Op' N W : Type 0} (one : Service S Op N W) (laws : ServiceLaws one)
    (other : Service S' Op' N W) (other_laws : ServiceLaws other) (apart : Apart one other) where
  -- A resource without an id that the look-up of the other service finds is found after a
  -- CreateOrUpdate of the first.
  pub Settled-Apart :
      (desired : Resource S) (kept : Resource S') (r : Resource S') (w : W)
      → Unnumbered other other_laws kept
      → (resolve other kept w).0 ≡ ok r
      → (resolve other kept (Resource.create_or_update one drift_todo desired w).1).0 ≡ ok r
  Settled-Apart desired kept r w unnumbered found =
      let w' = (Resource.create_or_update one drift_todo desired w).1 in
      ap (λ p. p.0) (resolve-Unnumbered other other_laws kept w' unnumbered)
      ∙ create_or_update-Apart one laws other apart desired kept.metadata.name
          kept.metadata.parent_id w
      ∙ sym (ap (λ p. p.0) (resolve-Unnumbered other other_laws kept w unnumbered))
      ∙ found
