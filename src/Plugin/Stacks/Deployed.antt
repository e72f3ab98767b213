-- ===== src/Plugin/Stacks/Deployed.antt =====
-- What a stack has after Deploy has succeeded.
use aks_flex.Common.{
  ◌≡◌, refl, sym, ap, ◌∙◌, inl, inr, true, false, some, List, String, Result, ok, err, Result-cases,
  Bool-cases, err≢ok,
}
use aks_flex.Common.Assoc.{Map}
use aks_flex.Plugin.Stacks.{
  Parameter, Output, Aws, wait_for, wait_unless_current, create, update, create_or_update,
  outputs_of, get_stack, deploy,
}
use aks_flex.Plugin.Stacks.Kept.{AwsLaws}

module _ {Config A W : Type 0} {aws : Aws Config A W} (laws : AwsLaws aws) (cfg : Config)
    (name t : String) (ps : List Parameter) where
  open laws use {look}

  create-Deployed :
      (w : W)
      → (create aws cfg name t ps w).0 ≡ ok tt
      → look cfg name (create aws cfg name t ps w).1 ≡ some (t, ps)
  unfolding create wait_for
  create-Deployed w done = elim (Result-cases (aws.create_stack cfg name t ps w).0) [
    | inl (u, q) ↦ ended q
    | inr (e, q) ↦ absurd (err≢ok (sym (failed e q) ∙ done))
  ]
    where
      failed :
          (e : A)
          → (aws.create_stack cfg name t ps w).0 ≡ err e
          → (wait_for aws (aws.wait_created cfg name) (aws.create_stack cfg name t ps w)).0 ≡ err e
      failed e q =
          ap
            (λ r.
              (wait_for aws (aws.wait_created cfg name)
                (r, (aws.create_stack cfg name t ps w).1)).0)
            q

      same :
          (aws.create_stack cfg name t ps w).0 ≡ ok tt
          → wait_for aws (aws.wait_created cfg name) (aws.create_stack cfg name t ps w)
            ≡ aws.wait_created cfg name (aws.create_stack cfg name t ps w).1
      same q =
          ap
            (λ r.
              wait_for aws (aws.wait_created cfg name) (r, (aws.create_stack cfg name t ps w).1))
            q

      ended :
          (aws.create_stack cfg name t ps w).0 ≡ ok tt
          → look cfg name
              (wait_for aws (aws.wait_created cfg name) (aws.create_stack cfg name t ps w)).1
            ≡ some (t, ps)
      ended q =
          ap (λ r. look cfg name r.1) (same q)
          ∙ laws.created cfg name t ps w q (sym (ap (λ r. r.0) (same q)) ∙ done)

  update-Deployed :
      (w : W)
      → (update aws cfg name t ps w).0 ≡ ok tt
      → look cfg name (update aws cfg name t ps w).1 ≡ some (t, ps)
  unfolding update wait_unless_current
  update-Deployed w done = elim (Result-cases (aws.update_stack cfg name t ps w).0) [
    | inl (u, q) ↦
        ap (λ r. look cfg name r.1) (step (ok tt) q)
        ∙ laws.updated cfg name t ps w q (sym (ap (λ r. r.0) (step (ok tt) q)) ∙ done)
    | inr (e, q) ↦ elim (Bool-cases (aws.is_no_updates e)) [
      | inl k ↦
          ap (λ r. look cfg name r.1) (step (err e) q ∙ unchanged e k)
          ∙ laws.current cfg name t ps w e q k
      | inr k ↦ absurd (err≢ok (sym (ap (λ r. r.0) (step (err e) q ∙ refused e k)) ∙ done))
    ]
  ]
    where
      step :
          (r : Result A (Unit {0}))
          → (aws.update_stack cfg name t ps w).0 ≡ r
          → update aws cfg name t ps w
            ≡ wait_unless_current aws
                (aws.wait_updated cfg name)
                (r, (aws.update_stack cfg name t ps w).1)
      step r q =
          ap
            (λ r.
              wait_unless_current aws (aws.wait_updated cfg name)
                (r, (aws.update_stack cfg name t ps w).1))
            q

      unchanged :
          (e : A)
          → aws.is_no_updates e ≡ true
          → wait_unless_current aws
              (aws.wait_updated cfg name)
              (err e, (aws.update_stack cfg name t ps w).1)
            ≡ (ok tt, (aws.update_stack cfg name t ps w).1)
      unchanged e k = rw k refl

      refused :
          (e : A)
          → aws.is_no_updates e ≡ false
          → wait_unless_current aws
              (aws.wait_updated cfg name)
              (err e, (aws.update_stack cfg name t ps w).1)
            ≡ (err e, (aws.update_stack cfg name t ps w).1)
      refused e k = rw k refl

  create_or_update-Deployed :
      (r : Result A (List (List Output))) (w : W)
      → (create_or_update aws cfg name t ps (r, w)).0 ≡ ok tt
      → look cfg name (create_or_update aws cfg name t ps (r, w)).1 ≡ some (t, ps)
  unfolding create_or_update
  create_or_update-Deployed (ok _) w done = update-Deployed w done
  create_or_update-Deployed (err e) w done = elim (Bool-cases (aws.is_validation_error e)) [
    | inl q ↦ rw q (create-Deployed w (rw q at done))
    | inr q ↦ absurd (err≢ok (rw q at done))
  ]

  outputs_of-Deployed :
      (r : Result A (Unit {0})) (w : W) (outputs : Map String String)
      → (r ≡ ok tt → look cfg name w ≡ some (t, ps))
      → (outputs_of aws cfg name (r, w)).0 ≡ ok outputs
      → look cfg name (outputs_of aws cfg name (r, w)).1 ≡ some (t, ps)
  unfolding outputs_of get_stack
  outputs_of-Deployed (ok _) w outputs h done = laws.describe_apart cfg cfg name name w ∙ h refl
  outputs_of-Deployed (err e) w outputs h done = absurd (err≢ok done)

  -- After a Deploy that succeeds the stack has the template and the parameters.
  pub deploy-Deployed :
      (w : W) (outputs : Map String String)
      → (deploy aws cfg name t ps w).0 ≡ ok outputs
      → look cfg name (deploy aws cfg name t ps w).1 ≡ some (t, ps)
  unfolding deploy
  deploy-Deployed w outputs done =
      let described = aws.describe_stacks cfg name w in
      let made = create_or_update aws cfg name t ps described in
      outputs_of-Deployed made.0 made.1 outputs
        (λ h. create_or_update-Deployed described.0 described.1 h) done
