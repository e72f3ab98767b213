-- ===== src/Controllers/Termination.antt =====
-- nodeclass_termination.go
use aks_flex.Common.{
  none, some, List, [], ◌∷◌, String, Result, ok, err, ◌==◌, elem, string_eq, if◌then◌else◌,
}
use aks_flex.Karpenter.{NodeClaim}
use aks_flex.Controllers.{NodeClass, Requeue, no_requeue, requeue_now, requeue_after, Client}
use aks_flex.Controllers.Status.{termination_finalizer}

-- The NodeClasses that are reconciled when a NodeClaim is deleted.
unfoldable pub requests_of : NodeClaim → List String
requests_of claim = elim claim.node_class_ref [
  | none ↦ []
  | some r ↦
      if r.group == "flex.aks.azure.com"
      then (if r.kind == "NebiusNodeClass" then r.name ∷ [] else [])
      else []
]

-- controllerutil.RemoveFinalizer
unfoldable pub without_finalizer : List String → List String
without_finalizer [] = []
without_finalizer (f ∷ fs) =
    let rest = without_finalizer fs in if f == termination_finalizer then rest else f ∷ rest

module _ {Conditions E W : Type 0} (client : Client Conditions E W) where
  -- finalize after the patch.
  unfoldable pub removed : Result E (NodeClass Conditions) × W → Result E Requeue × W
  removed (ok node_class, w) = (ok no_requeue, w)
  removed (err e, w) = (
    if client.is_conflict e
        then ok requeue_now
        else (if client.is_not_found e then ok no_requeue else err e),
    w,
  )

  -- finalize after the NodeClaims have been listed.
  unfoldable pub finalize_listed :
      NodeClass Conditions → Result E (List String) × W → Result E Requeue × W
  unfolding removed without_finalizer
  finalize_listed stored (err e, w) = (err e, w)
  finalize_listed stored (ok (claim ∷ claims), w) =
      (ok (requeue_after 600), client.publish_waiting stored.name (claim ∷ claims) w)
  finalize_listed stored (ok [], w) =
      let node_class : NodeClass Conditions = record stored {
        finalizers = without_finalizer stored.finalizers;
      } in
      if client.deep_equal stored node_class
      then (ok no_requeue, w)
      else removed (client.patch_class_locked node_class stored w)

  unfoldable pub finalize : NodeClass Conditions → W → Result E Requeue × W
  unfolding finalize_listed
  finalize node_class w =
      if elem termination_finalizer node_class.finalizers
      then finalize_listed node_class (client.list_node_claims node_class.name w)
      else (ok no_requeue, w)

  unfoldable pub reconcile : NodeClass Conditions → W → Result E Requeue × W
  unfolding finalize
  reconcile node_class w =
      if node_class.terminating then finalize node_class w else (ok no_requeue, w)
