-- ===== src/Plugin/Stacks/Kept.antt =====
-- The laws of CloudFormation that the theorems need, and what Deploy and Delete do to the stacks.
-- `look` is the template and the parameters that a stack was last given.
use aks_flex.Common.{
  ◌≡◌, ◌≢◌, refl, ◌∙◌, inl, inr, true, Option, some, List, String, Result, ok, err, Bool-cases,
}
use aks_flex.Plugin.Stacks.{
  Parameter, Output, Aws, wait_for, wait_unless_current, create, update, create_or_update,
  outputs_of, get_stack, deploy, delete,
}

-- A stack is in one region, and a call for a stack leaves every stack of another name as it is.
-- Once a creation or an update has ended, the stack has what it was given; an update for which there
-- is nothing to do says so, and the stack has that already.
pub record AwsLaws {Config A W : Type 0} (aws : Aws Config A W) : Type 0 where
  pub look : Config → String → W → Option (String × List Parameter)
  pub load_apart :
      (region : String) (cfg : Config) (other : String) (w : W)
      → look cfg other (aws.load_default_config region w).1 ≡ look cfg other w
  pub describe_apart :
      (c cfg : Config) (name other : String) (w : W)
      → look cfg other (aws.describe_stacks c name w).1 ≡ look cfg other w
  pub connections_apart :
      (c cfg : Config) (id other : String) (w : W)
      → look cfg other (aws.describe_vpn_connections c id w).1 ≡ look cfg other w
  pub create_apart :
      (c cfg : Config) (name other t : String) (ps : List Parameter) (w : W)
      → other ≢ name
      → look cfg other (aws.create_stack c name t ps w).1 ≡ look cfg other w
  pub wait_created_apart :
      (c cfg : Config) (name other : String) (w : W)
      → other ≢ name
      → look cfg other (aws.wait_created c name w).1 ≡ look cfg other w
  pub update_apart :
      (c cfg : Config) (name other t : String) (ps : List Parameter) (w : W)
      → other ≢ name
      → look cfg other (aws.update_stack c name t ps w).1 ≡ look cfg other w
  pub wait_updated_apart :
      (c cfg : Config) (name other : String) (w : W)
      → other ≢ name
      → look cfg other (aws.wait_updated c name w).1 ≡ look cfg other w
  pub delete_apart :
      (c cfg : Config) (name other : String) (w : W)
      → other ≢ name
      → look cfg other (aws.delete_stack c name w).1 ≡ look cfg other w
  pub wait_deleted_apart :
      (c cfg : Config) (name other : String) (w : W)
      → other ≢ name
      → look cfg other (aws.wait_deleted c name w).1 ≡ look cfg other w
  pub created :
      (cfg : Config) (name t : String) (ps : List Parameter) (w : W)
      → (aws.create_stack cfg name t ps w).0 ≡ ok tt
      → (aws.wait_created cfg name (aws.create_stack cfg name t ps w).1).0 ≡ ok tt
      → look cfg name (aws.wait_created cfg name (aws.create_stack cfg name t ps w).1).1
        ≡ some (t, ps)
  pub updated :
      (cfg : Config) (name t : String) (ps : List Parameter) (w : W)
      → (aws.update_stack cfg name t ps w).0 ≡ ok tt
      → (aws.wait_updated cfg name (aws.update_stack cfg name t ps w).1).0 ≡ ok tt
      → look cfg name (aws.wait_updated cfg name (aws.update_stack cfg name t ps w).1).1
        ≡ some (t, ps)
  pub current :
      (cfg : Config) (name t : String) (ps : List Parameter) (w : W) (e : A)
      → (aws.update_stack cfg name t ps w).0 ≡ err e
      → aws.is_no_updates e ≡ true
      → look cfg name (aws.update_stack cfg name t ps w).1 ≡ some (t, ps)

module _ {Config A W : Type 0} {aws : Aws Config A W} (laws : AwsLaws aws) where
  open laws use {look}

  -- A wait after a call changes what either of them does.
  wait_for-kept :
      (wait : W → Result A (Unit {0}) × W) (r : Result A (Unit {0})) (w : W) (cfg : Config)
      (other : String)
      → ((v : W) → look cfg other (wait v).1 ≡ look cfg other v)
      → look cfg other (wait_for aws wait (r, w)).1 ≡ look cfg other w
  unfolding wait_for
  wait_for-kept wait (ok _) w cfg other h = h w
  wait_for-kept wait (err e) w cfg other h = refl

  wait_unless_current-kept :
      (wait : W → Result A (Unit {0}) × W) (r : Result A (Unit {0})) (w : W) (cfg : Config)
      (other : String)
      → ((v : W) → look cfg other (wait v).1 ≡ look cfg other v)
      → look cfg other (wait_unless_current aws wait (r, w)).1 ≡ look cfg other w
  unfolding wait_unless_current
  wait_unless_current-kept wait (ok _) w cfg other h = h w
  wait_unless_current-kept wait (err e) w cfg other h = elim (Bool-cases (aws.is_no_updates e)) [
    | inl q ↦ rw q refl
    | inr q ↦ rw q refl
  ]

  module _ (c cfg : Config) (name other t : String) (ps : List Parameter)
      (apart : other ≢ name) where
    create-kept : (w : W) → look cfg other (create aws c name t ps w).1 ≡ look cfg other w
    unfolding create
    create-kept w =
        wait_for-kept (aws.wait_created c name) (aws.create_stack c name t ps w).0
          (aws.create_stack c name t ps w).1 cfg other
          (λ v. laws.wait_created_apart c cfg name other v apart)
        ∙ laws.create_apart c cfg name other t ps w apart

    update-kept : (w : W) → look cfg other (update aws c name t ps w).1 ≡ look cfg other w
    unfolding update
    update-kept w =
        wait_unless_current-kept (aws.wait_updated c name) (aws.update_stack c name t ps w).0
          (aws.update_stack c name t ps w).1 cfg other
          (λ v. laws.wait_updated_apart c cfg name other v apart)
        ∙ laws.update_apart c cfg name other t ps w apart

    create_or_update-kept :
        (r : Result A (List (List Output))) (w : W)
        → look cfg other (create_or_update aws c name t ps (r, w)).1 ≡ look cfg other w
    unfolding create_or_update
    create_or_update-kept (ok _) w = update-kept w
    create_or_update-kept (err e) w = elim (Bool-cases (aws.is_validation_error e)) [
      | inl q ↦ rw (q) (create-kept w)
      | inr q ↦ rw (q) refl
    ]

    pub outputs_of-kept :
        (r : Result A (Unit {0})) (w : W)
        → look cfg other (outputs_of aws c name (r, w)).1 ≡ look cfg other w
    unfolding outputs_of get_stack
    outputs_of-kept (ok _) w = laws.describe_apart c cfg name other w
    outputs_of-kept (err e) w = refl

    -- Deploy leaves every stack of another name as it is.
    pub deploy-kept : (w : W) → look cfg other (deploy aws c name t ps w).1 ≡ look cfg other w
    unfolding deploy
    deploy-kept w =
        let described = aws.describe_stacks c name w in
        let made = create_or_update aws c name t ps described in
        outputs_of-kept made.0 made.1
        ∙ create_or_update-kept described.0 described.1
        ∙ laws.describe_apart c cfg name other w

  -- Delete leaves every stack of another name as it is.
  pub delete-kept :
      (c cfg : Config) (name other : String) (w : W)
      → other ≢ name
      → look cfg other (delete aws c name w).1 ≡ look cfg other w
  unfolding delete
  delete-kept c cfg name other w apart =
      wait_for-kept (aws.wait_deleted c name) (aws.delete_stack c name w).0
        (aws.delete_stack c name w).1 cfg other
        (λ v. laws.wait_deleted_apart c cfg name other v apart)
      ∙ laws.delete_apart c cfg name other w apart
