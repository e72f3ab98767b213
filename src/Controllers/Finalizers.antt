-- ===== src/Controllers/Finalizers.antt =====
-- The termination finalizer of the NodeClasses on the API server, under both controllers.
use aks_flex.Common.{
  ◌≡◌, refl, ap, ◌∙◌, ◌⊎◌, inl, inr, true, false, List, [], ◌∷◌, String, Result, ok, err, ◌==◌,
  elem, string_eq, if◌then◌else◌, Bool-cases,
}
use aks_flex.Controllers.{NodeClass, no_requeue, Client}
use aks_flex.Controllers.Status.{
  termination_finalizer, add_finalizer, ensure_finalizer, answered, set_ready,
}
use aks_flex.Controllers.Status as Status
use aks_flex.Controllers.Termination.{without_finalizer, removed, finalize_listed, finalize}
use aks_flex.Controllers.Termination as Termination

pub elem-without_finalizer :
    (fs : List String) → elem termination_finalizer (without_finalizer fs) ≡ false
unfolding without_finalizer elem
elem-without_finalizer [] = refl
elem-without_finalizer (f ∷ fs) = elim (Bool-cases (f == termination_finalizer)) [
  | inl q ↦ rw (without_finalizer, q) (elem-without_finalizer fs)
  | inr q ↦ rw (without_finalizer, q, elem, q) (elem-without_finalizer fs)
]

-- What the API server promises for the finalizers that it has for a NodeClass, none where there is
-- no such object: a read and an event change nothing, nor does a patch whose base is its object,
-- the status subresource has no finalizers, and the patch with the lock that is made here writes
-- those of its object or nothing.
pub record ClassLaws {Conditions E W : Type 0} (client : Client Conditions E W) : Type 0 where
  pub finalizers_at : String → W → List String
  pub list_keeps :
      (class name : String) (w : W)
      → finalizers_at name (client.list_node_claims class w).1 ≡ finalizers_at name w
  pub publish_keeps :
      (class : String) (claims : List String) (name : String) (w : W)
      → finalizers_at name (client.publish_waiting class claims w) ≡ finalizers_at name w
  pub empty_patch_keeps :
      (obj : NodeClass Conditions) (name : String) (w : W)
      → finalizers_at name (client.patch_class obj obj w).1 ≡ finalizers_at name w
  pub status_keeps :
      (obj base : NodeClass Conditions) (name : String) (w : W)
      → finalizers_at name (client.patch_class_status obj base w).1 ≡ finalizers_at name w
  pub patch_locked :
      (obj base : NodeClass Conditions) (name : String) (w : W)
      → let w' = (client.patch_class_locked obj base w).1 in
        (finalizers_at name w' ≡ finalizers_at name w)
        ⊎ ((name ≡ obj.name) × (finalizers_at name w' ≡ obj.finalizers))

module _ {Conditions E W : Type 0} (client : Client Conditions E W) (laws : ClassLaws client) where
  ensure_finalizer-keeps :
      (node_class : NodeClass Conditions) (name : String) (w : W)
      → laws.finalizers_at name (ensure_finalizer client node_class w).1 ≡ laws.finalizers_at name w
  unfolding ensure_finalizer
  ensure_finalizer-keeps node_class name w =
      elim (Bool-cases (elem termination_finalizer node_class.finalizers)) [
        | inl q ↦ rw (ensure_finalizer, q) refl
        | inr q ↦
            rw (ensure_finalizer, q)
              (laws.empty_patch_keeps (add_finalizer client node_class) name w)
      ]

  answered-world : (r : Result E (NodeClass Conditions) × W) → (answered client r).1 ≡ r.1
  unfolding answered
  answered-world (ok node_class, w) = refl
  answered-world (err e, w) = refl

  set_ready-keeps :
      (existing : NodeClass Conditions) (r : Result E (NodeClass Conditions)) (name : String)
      (w : W)
      → laws.finalizers_at name (set_ready client existing (r, w)).1 ≡ laws.finalizers_at name w
  unfolding set_ready
  set_ready-keeps existing (err e) name w = refl
  set_ready-keeps existing (ok node_class) name w =
      let future : NodeClass Conditions = record node_class {
        conditions = client.set_validation_succeeded node_class.conditions;
      } in
      elim (Bool-cases (client.deep_equal existing future)) [
        | inl q ↦ rw (set_ready, q) refl
        | inr q ↦
            rw (set_ready, q, answered-world (client.patch_class_status future existing w))
              (laws.status_keeps future existing name w)
      ]

  -- Reconcile of the status controller changes no finalizer on the API server, for any view of a
  -- NodeClass and whatever the calls return, although it means to add one: the base of its patch
  -- is the object that it has changed. The client keeps the laws of the API server.
  pub reconcile-finalizers :
      (node_class : NodeClass Conditions) (name : String) (w : W)
      → laws.finalizers_at name (Status.reconcile client node_class w).1 ≡ laws.finalizers_at name w
  unfolding Status.reconcile
  reconcile-finalizers node_class name w =
      let (r, w') = ensure_finalizer client node_class w in
      set_ready-keeps node_class (ensure_finalizer client node_class w).0 name
        (ensure_finalizer client node_class w).1
      ∙ ensure_finalizer-keeps node_class name w

  -- What the termination controller does to the finalizers of a NodeClass.
  abbrev pub Removal : NodeClass Conditions → String → W → W → Type 0
  Removal node_class name w w' =
      (laws.finalizers_at name w' ≡ laws.finalizers_at name w)
      ⊎ ((name ≡ node_class.name)
          × (node_class.terminating ≡ true)
          × ((client.list_node_claims node_class.name w).0 ≡ ok [])
          × (laws.finalizers_at name w' ≡ without_finalizer node_class.finalizers))

  removed-world : (r : Result E (NodeClass Conditions) × W) → (removed client r).1 ≡ r.1
  unfolding removed
  removed-world (ok node_class, w) = refl
  removed-world (err e, w) = refl

  abbrev Listed : NodeClass Conditions → Result E (List String) → String → W → W → Type 0
  Listed node_class r name w w' =
      (laws.finalizers_at name w' ≡ laws.finalizers_at name w)
      ⊎ ((name ≡ node_class.name)
          × (r ≡ ok [])
          × (laws.finalizers_at name w' ≡ without_finalizer node_class.finalizers))

  finalize_listed-Listed :
      (node_class : NodeClass Conditions) (r : Result E (List String)) (name : String) (w : W)
      → Listed node_class r name w (finalize_listed client node_class (r, w)).1
  unfolding finalize_listed
  finalize_listed-Listed node_class (err e) name w = inl refl
  finalize_listed-Listed node_class (ok (claim ∷ claims)) name w =
      inl (laws.publish_keeps node_class.name (claim ∷ claims) name w)
  finalize_listed-Listed node_class (ok []) name w =
      let future : NodeClass Conditions = record node_class {
        finalizers = without_finalizer node_class.finalizers;
      } in
      elim (Bool-cases (client.deep_equal node_class future)) [
        | inl q ↦ rw (finalize_listed, q) (inl refl)
        | inr q ↦
            rw (finalize_listed, q, removed-world (client.patch_class_locked future node_class w))
              (elim (laws.patch_locked future node_class name w) [
                | inl same ↦ inl same
                | inr (this, k) ↦ inr (this, refl, k)
              ])
      ]

  pub kept_lem :
      (node_class : NodeClass Conditions) (w : W)
      → node_class.terminating ≡ false
      → Termination.reconcile client node_class w ≡ (ok no_requeue, w)
  unfolding Termination.reconcile
  kept_lem node_class w q =
      ap (λ b. if b then finalize client node_class w else (ok no_requeue, w)) q

  pub finalize_lem :
      (node_class : NodeClass Conditions) (w : W)
      → node_class.terminating ≡ true
      → Termination.reconcile client node_class w ≡ finalize client node_class w
  unfolding Termination.reconcile
  finalize_lem node_class w q =
      ap (λ b. if b then finalize client node_class w else (ok no_requeue, w)) q

  pub unfinalized_lem :
      (node_class : NodeClass Conditions) (w : W)
      → elem termination_finalizer node_class.finalizers ≡ false
      → finalize client node_class w ≡ (ok no_requeue, w)
  unfolding finalize
  unfinalized_lem node_class w q = rw (finalize, q) refl

  finalized_lem :
      (node_class : NodeClass Conditions) (w : W)
      → elem termination_finalizer node_class.finalizers ≡ true
      → finalize client node_class w
        ≡ finalize_listed client node_class (client.list_node_claims node_class.name w)
  unfolding finalize
  finalized_lem node_class w q = rw (finalize, q) refl

  -- The termination controller changes the finalizers of a NodeClass on the API server only when
  -- its view of that NodeClass is being deleted and no NodeClaim of its name is listed; it then
  -- leaves those of its view without the termination finalizer. The client keeps the laws of the
  -- API server.
  pub reconcile-Removal :
      (node_class : NodeClass Conditions) (name : String) (w : W)
      → Removal node_class name w (Termination.reconcile client node_class w).1
  reconcile-Removal node_class name w = elim (Bool-cases node_class.terminating) [
    | inr q ↦ rw (kept_lem node_class w q) (inl refl)
    | inl q ↦ elim (Bool-cases (elem termination_finalizer node_class.finalizers)) [
      | inr k ↦ rw (finalize_lem node_class w q, unfinalized_lem node_class w k) (inl refl)
      | inl k ↦
          let listed = client.list_node_claims node_class.name w in
          rw (finalize_lem node_class w q, finalized_lem node_class w k)
            (elim (finalize_listed-Listed node_class listed.0 name listed.1) [
              | inl same ↦ inl (same ∙ laws.list_keeps node_class.name name w)
              | inr (this, none_left, l) ↦ inr (this, q, none_left, l)
            ])
    ]
  ]
