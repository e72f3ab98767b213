-- ===== src/Kaito/Requested.antt =====
-- The instance type that a NodeClaim requests: the loop of resolveNodeClaimRequirements.
use aks_flex.Common.{
  ◌≡◌, refl, inl, inr, false, Option, none, some, List, [], ◌∷◌, String, ◌==◌, string_eq,
  if◌then◌else◌, Bool-cases,
}
use aks_flex.Karpenter.{Requirement}
use aks_flex.Nebius.NodeClaims.{from_ptr_or}
use aks_flex.Kaito.{require, requested_type}

module _ (instance_type_key : String) where
  -- The first value of the last requirement on the instance type.
  unfoldable pub last_type : List Requirement → Option String
  last_type [] = none
  last_type (req ∷ reqs) =
      let rest = last_type reqs in
      elim req.values [
        | [] ↦ rest
        | v ∷ vs ↦ if req.key == instance_type_key then some (from_ptr_or rest v) else rest
      ]

  -- The first value of the first requirement on the SKU name.
  unfoldable pub first_sku : List Requirement → Option String
  first_sku [] = none
  first_sku (req ∷ reqs) =
      let rest = first_sku reqs in
      elim req.values [
        | [] ↦ rest
        | v ∷ vs ↦
            if req.key == instance_type_key
            then rest
            else (if req.key == "karpenter.azure.com/sku-name" then some v else rest)
      ]

  -- No requirement's first value is empty.
  abbrev pub Named : List Requirement → Type 0
  Named [] = Unit {0}
  Named (req ∷ reqs) =
      ((v : String) (vs : List String) → req.values ≡ v ∷ vs → (v == "") ≡ false) × Named reqs

  abbrev pub preferred : List Requirement → String
  preferred reqs = from_ptr_or (last_type reqs) (from_ptr_or (first_sku reqs) "")

  abbrev Sought : String → List Requirement → Type 0
  Sought found reqs =
      requested_type instance_type_key found reqs
      ≡ from_ptr_or (last_type reqs)
          (if found == "" then from_ptr_or (first_sku reqs) "" else found)

  require-Sought :
      (found : String) (req : Requirement) (reqs : List Requirement) (vs : List String)
      → req.values ≡ vs
      → ((v : String) (rest : List String) → vs ≡ v ∷ rest → (v == "") ≡ false)
      → ((next : String) → Sought next reqs)
      → Sought found (req ∷ reqs)
  unfolding requested_type require last_type first_sku
  require-Sought found req reqs [] e h ih =
      rw (requested_type, last_type, first_sku, require, e) (ih found)
  require-Sought found req reqs (v ∷ vs) e h ih =
      let full = h v vs refl in
      elim (Bool-cases (req.key == instance_type_key)) [
        | inl q ↦ rw (requested_type, last_type, first_sku, require, e, q) (rw (full) at (ih v))
        | inr q ↦ elim (Bool-cases (req.key == "karpenter.azure.com/sku-name")) [
          | inr k ↦ rw (requested_type, last_type, first_sku, require, e, q, k) (ih found)
          | inl k ↦ elim (Bool-cases (found == "")) [
            | inl l ↦
                rw (requested_type, last_type, first_sku, require, e, q, k, l) (rw (full) at (ih v))
            | inr l ↦
                rw (requested_type, last_type, first_sku, require, e, q, k, l)
                  (rw (l) at (ih found))
          ]
        ]
      ]

  requested_type-Sought :
      (reqs : List Requirement) → Named reqs → (found : String) → Sought found reqs
  unfolding requested_type last_type first_sku
  requested_type-Sought [] h found = elim (Bool-cases (found == "")) [
    | inl q ↦ rw (requested_type, last_type, first_sku, q) ((string_eq.same_iff found "").0 q)
    | inr q ↦ rw (requested_type, last_type, first_sku, q) refl
  ]
  requested_type-Sought (req ∷ reqs) (h, hs) found =
      require-Sought found req reqs req.values refl h (requested_type-Sought reqs hs)

  -- The loop over the requirements finds the first value of the last requirement on the instance
  -- type, and where there is none the first value of the first requirement on the SKU name,
  -- whatever the order of the requirements. No first value is empty.
  pub requested_type-preferred :
      (reqs : List Requirement)
      → Named reqs
      → requested_type instance_type_key "" reqs ≡ preferred reqs
  requested_type-preferred reqs h = requested_type-Sought reqs h ""
