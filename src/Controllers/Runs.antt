-- ===== src/Controllers/Runs.antt =====
-- Runs of both controllers beside changes of others.
use aks_flex.Common.{◌≡◌, ap, ◌∙◌, inl, inr, false, String, ok, elem, string_eq, Bool-cases}
use aks_flex.Controllers.{NodeClass, no_requeue, Client}
use aks_flex.Controllers.Status.{termination_finalizer}
use aks_flex.Controllers.Status as Status
use aks_flex.Controllers.Termination.{without_finalizer}
use aks_flex.Controllers.Termination as Termination
use aks_flex.Controllers.Finalizers.{
  ClassLaws, elem-without_finalizer, reconcile-finalizers, reconcile-Removal, kept_lem,
  finalize_lem, unfinalized_lem,
}

module _ {Conditions E W : Type 0} (client : Client Conditions E W) (laws : ClassLaws client) where
  -- No NodeClass on the API server has the termination finalizer.
  abbrev pub Unfinalized : W → Type 0
  Unfinalized w = (name : String) → elem termination_finalizer (laws.finalizers_at name w) ≡ false

  -- Calls of both controllers, each with any view of a NodeClass, and changes of others that bring
  -- no termination finalizer.
  pub data Step : W → W → Type 0 where
    status :
        (node_class : NodeClass Conditions) (w : W)
        → Step w (Status.reconcile client node_class w).1
    termination :
        (node_class : NodeClass Conditions) (w : W)
        → Step w (Termination.reconcile client node_class w).1
    others : (w w' : W) → (Unfinalized w → Unfinalized w') → Step w w'

  pub data Reached (first : W) : W → Type 0 where
    here : Reached first first
    after : (w w' : W) → Reached first w → Step w w' → Reached first w'

  Step-Unfinalized : {w w' : W} → Step w w' → Unfinalized w → Unfinalized w'
  Step-Unfinalized (status node_class w) free name =
      ap (elem termination_finalizer) (reconcile-finalizers client laws node_class name w)
      ∙ free name
  Step-Unfinalized (termination node_class w) free name =
      elim (reconcile-Removal client laws node_class name w) [
        | inl same ↦ ap (elem termination_finalizer) same ∙ free name
        | inr (this, q, none_left, left) ↦
            ap (elem termination_finalizer) left ∙ elem-without_finalizer node_class.finalizers
      ]
  Step-Unfinalized (others w w' keeps) free name = keeps free name

  Reached-Unfinalized : {first w : W} → Reached first w → Unfinalized first → Unfinalized w
  Reached-Unfinalized here free = free
  Reached-Unfinalized (after w w' run step) free =
      Step-Unfinalized step (Reached-Unfinalized run free)

  -- No NodeClass has the termination finalizer, and the termination controller's call for a current
  -- view of one asks for nothing and changes nothing.
  abbrev pub Unwaited : W → Type 0
  Unwaited w =
      Unfinalized w
      × ((node_class : NodeClass Conditions)
          → node_class.finalizers ≡ laws.finalizers_at node_class.name w
          → Termination.reconcile client node_class w ≡ (ok no_requeue, w))

  -- From a world in which no NodeClass has the termination finalizer, no run of both controllers
  -- gives it to one, unless others do, so that the termination controller lets every NodeClass go
  -- at once: its call for a current view of one asks for no NodeClaims and changes nothing. The
  -- client keeps the laws of the API server.
  pub Reached-Unwaited : (first w : W) → Reached first w → Unfinalized first → Unwaited w
  Reached-Unwaited first w run free =
      let still = Reached-Unfinalized run free in
      (
        still,
        λ node_class current. elim (Bool-cases node_class.terminating) [
          | inr q ↦ kept_lem client laws node_class w q
          | inl q ↦
              finalize_lem client laws node_class w q
              ∙ unfinalized_lem client laws node_class w
                  (ap (elem termination_finalizer) current ∙ still node_class.name)
        ],
      )
