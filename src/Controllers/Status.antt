-- ===== src/Controllers/Status.antt =====
-- nodeclass_status.go. The object that a patch is given is also its answer, and MergeFrom keeps
-- a pointer to its base: a base that is the object itself is what the object has become.
use aks_flex.Common.{[], ◌∷◌, ◌++◌, String, Result, ok, err, elem, string_eq, if◌then◌else◌}
use aks_flex.Controllers.{NodeClass, Requeue, no_requeue, Client}

abbrev pub termination_finalizer : String
termination_finalizer = "flex.aks.azure.com/termination"

module _ {Conditions E W : Type 0} (client : Client Conditions E W) where
  -- controllerutil.AddFinalizer, for an object that does not contain it
  unfoldable pub add_finalizer : NodeClass Conditions → NodeClass Conditions
  add_finalizer node_class = record node_class {
    finalizers = node_class.finalizers ++ termination_finalizer ∷ [];
  }

  -- ensureFinalizer; the object is the one that it leaves to its caller.
  unfoldable pub ensure_finalizer : NodeClass Conditions → W → Result E (NodeClass Conditions) × W
  unfolding add_finalizer
  ensure_finalizer node_class w =
      if elem termination_finalizer node_class.finalizers
      then (ok node_class, w)
      else client.patch_class (add_finalizer node_class) (add_finalizer node_class) w

  unfoldable pub answered : Result E (NodeClass Conditions) × W → Result E Requeue × W
  answered (ok node_class, w) = (ok no_requeue, w)
  answered (err e, w) = (err e, w)

  -- Reconcile after ensureFinalizer.
  unfoldable pub set_ready :
      NodeClass Conditions → Result E (NodeClass Conditions) × W → Result E Requeue × W
  unfolding answered
  set_ready existing (err e, w) = (err e, w)
  set_ready existing (ok node_class, w) =
      let future : NodeClass Conditions = record node_class {
        conditions = client.set_validation_succeeded node_class.conditions;
      } in
      if client.deep_equal existing future
      then (ok no_requeue, w)
      else answered (client.patch_class_status future existing w)

  unfoldable pub reconcile : NodeClass Conditions → W → Result E Requeue × W
  unfolding ensure_finalizer set_ready
  reconcile node_class w = set_ready node_class (ensure_finalizer node_class w)
