-- ===== src/Plugin/Resource.antt =====
-- plugin/pkg/util/nebius: resource.go, with IsNotFound of nebius.go. `Service` is a client of the
-- SDK; the reflection that finds its methods is not modelled.
pub mod Settled
pub mod Removed
pub mod Apart
pub mod Slot
mod Tests
use aks_flex.Common.{
  ◌≡◌, refl, Bool, true, false, Option, none, some, String, Result, ok, err, ◌==◌, string_eq,
  if◌then◌else◌,
}

-- nebiuscommon.ResourceMetadata
pub record Metadata : Type 0 where
  pub id : String
  pub parent_id : String
  pub name : String
  pub created_at : Option String

-- What the interface Resource[S] reads of a resource.
pub record Resource (S : Type 0) : Type 0 where
  pub metadata : Metadata
  pub spec : S

-- The methods of a service, the wait for the operation `Op` that one returns, which gives the id of
-- the resource, and whether the code of an error is NotFound.
pub record Service (S Op E W : Type 0) : Type 0 where
  -- the name, then the parent's id
  pub get_by_name : String → String → W → Result E (Resource S) × W
  pub get : String → W → Result E (Resource S) × W
  pub create : Metadata → S → W → Result E Op × W
  pub update : Metadata → S → W → Result E Op × W
  pub delete : String → W → Result E Op × W
  pub wait : Op → W → Result E String × W
  pub is_not_found : E → Bool

-- ResourceDrift: the desired resource, when there is drift.
abbrev pub DriftDetect : (S E W : Type 0) → Type 0
DriftDetect S E W = Resource S → Resource S → W → Result E (Option (Resource S)) × W

unfoldable pub drift_todo : {S E W : Type 0} → DriftDetect S E W
drift_todo existing desired w = (ok none, w)

module _ {S Op E W : Type 0} (svc : Service S Op E W) where
  -- getByName and getById
  unfoldable pub by_name : Resource S → W → Result E (Resource S) × W
  by_name desired w = svc.get_by_name desired.metadata.name desired.metadata.parent_id w

  unfoldable pub by_id : Resource S → W → Result E (Resource S) × W
  by_id desired w = svc.get desired.metadata.id w

  unfoldable pub wait_and_get : Result E Op × W → Result E (Resource S) × W
  wait_and_get (err e, w) = (err e, w)
  wait_and_get (ok op, w) =
      let (waited, w') = svc.wait op w in
      elim waited [ err e ↦ (err e, w') | ok id ↦ svc.get id w' ]

  unfoldable pub create : Resource S → W → Result E (Resource S) × W
  unfolding wait_and_get
  create desired w = wait_and_get (svc.create desired.metadata desired.spec w)

  unfoldable pub update : Resource S → W → Result E (Resource S) × W
  unfolding wait_and_get
  update desired w = wait_and_get (svc.update desired.metadata desired.spec w)

  unfoldable pub ignore_not_found : E → Result E (Unit {0})
  ignore_not_found e = if svc.is_not_found e then ok tt else err e

  unfoldable pub wait_deleted : Result E Op × W → Result E (Unit {0}) × W
  unfolding ignore_not_found
  wait_deleted (err e, w) = (ignore_not_found e, w)
  wait_deleted (ok op, w) =
      let (waited, w') = svc.wait op w in elim waited [ err e ↦ (err e, w') | ok id ↦ (ok tt, w') ]

  -- The field `delete`.
  unfoldable pub delete_by_id : Resource S → W → Result E (Unit {0}) × W
  unfolding wait_deleted
  delete_by_id desired w = wait_deleted (svc.delete desired.metadata.id w)

  -- What CreateOrUpdate looks up first.
  unfoldable pub resolve : Resource S → W → Result E (Resource S) × W
  unfolding by_name by_id
  resolve desired w = if desired.metadata.id == "" then by_name desired w else by_id desired w

  -- CreateOrUpdate after the drift has been looked for.
  unfoldable pub update_drifted :
      Resource S → Result E (Option (Resource S)) × W → Result E (Resource S) × W
  unfolding update
  update_drifted existing (err e, w) = (err e, w)
  update_drifted existing (ok none, w) = (ok existing, w)
  update_drifted existing (ok (some changed), w) = update changed w

  -- CreateOrUpdate after the look-up.
  unfoldable pub settle :
      DriftDetect S E W → Resource S → Result E (Resource S) × W → Result E (Resource S) × W
  unfolding create update_drifted
  settle detect desired (ok existing, w) = update_drifted existing (detect existing desired w)
  settle detect desired (err e, w) = if svc.is_not_found e then create desired w else (err e, w)

  unfoldable pub create_or_update : DriftDetect S E W → Resource S → W → Result E (Resource S) × W
  unfolding resolve settle
  create_or_update detect desired w = settle detect desired (resolve desired w)

  -- Delete after the look-up by name.
  unfoldable pub delete_resolved : Result E (Resource S) × W → Result E (Unit {0}) × W
  unfolding delete_by_id ignore_not_found
  delete_resolved (ok existing, w) = delete_by_id existing w
  delete_resolved (err e, w) = (ignore_not_found e, w)

  unfoldable pub delete : Resource S → W → Result E (Unit {0}) × W
  unfolding delete_by_id delete_resolved by_name
  delete t w = if t.metadata.id == "" then delete_resolved (by_name t w) else delete_by_id t w

-- What the Nebius API promises: the reads change nothing; a resource that a `create` has made,
-- under a name of its parent, is the one found by that name; a resource that has been deleted is
-- found neither by its id nor by its name, and names belong to one resource.
pub record ServiceLaws {S Op E W : Type 0} (svc : Service S Op E W) : Type 0 where
  pub get_reads : (id : String) (w : W) → (svc.get id w).1 ≡ w
  pub get_by_name_reads :
      (name : String) (parent : String) (w : W) → (svc.get_by_name name parent w).1 ≡ w
  pub create_named :
      (md : Metadata) (spec : S) (op : Op) (id : String) (w : W)
      → (svc.create md spec w).0 ≡ ok op
      → (svc.wait op (svc.create md spec w).1).0 ≡ ok id
      → let w' = (svc.wait op (svc.create md spec w).1).1 in
        (svc.get_by_name md.name md.parent_id w').0 ≡ (svc.get id w').0
  pub delete_gone :
      (id : String) (op : Op) (last : String) (w : W)
      → (svc.delete id w).0 ≡ ok op
      → (svc.wait op (svc.delete id w).1).0 ≡ ok last
      → let w' = (svc.wait op (svc.delete id w).1).1 in
        (e : E) × (svc.is_not_found e ≡ true) × (svc.delete id w' ≡ (err e, w'))
  pub delete_gone_named :
      (name : String) (parent : String) (r : Resource S) (op : Op) (last : String) (w : W)
      → (svc.get_by_name name parent w).0 ≡ ok r
      → (svc.delete r.metadata.id w).0 ≡ ok op
      → (svc.wait op (svc.delete r.metadata.id w).1).0 ≡ ok last
      → let w' = (svc.wait op (svc.delete r.metadata.id w).1).1 in
        (e : E) × (svc.is_not_found e ≡ true) × (svc.get_by_name name parent w' ≡ (err e, w'))
  pub delete_missing :
      (id : String) (e : E) (w : W)
      → (svc.delete id w).0 ≡ err e
      → svc.is_not_found e ≡ true
      → (svc.delete id w).1 ≡ w
