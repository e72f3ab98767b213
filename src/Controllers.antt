-- ===== src/Controllers.antt =====
-- The controllers of karpenter/pkg/controllers: `ProviderId` is nodes/set_provider_id.go, `Status`
-- and `Termination` are nodeclass_status.go and nodeclass_termination.go of nebius. This file has the
-- objects and the client that they share; a view of an object may be older than the API server's.
pub mod ProviderId
pub mod Status
pub mod Termination
pub mod Finalizers
pub mod Runs
mod Tests
use aks_flex.Common.{ℕ, ◌≡◌, Bool, List, String, Result}
use aks_flex.Common.Assoc.{Map}
use aks_flex.Karpenter.{NodeClaim}

-- corev1.Node
pub record Node : Type 0 where
  pub name : String
  pub provider_id : String
  pub labels : Map String String

-- v1alpha1.NebiusNodeClass, with its status conditions
pub record NodeClass (Conditions : Type 0) : Type 0 where
  pub name : String
  pub terminating : Bool
  pub finalizers : List String
  pub conditions : Conditions

-- reconcile.Result; the time is in seconds.
pub data Requeue : Type 0 where
  no_requeue : Requeue
  requeue_now : Requeue
  requeue_after : ℕ → Requeue

-- The client of controller-runtime and the recorder of events, over a world. A patch is given the
-- object and the base of its MergeFrom, and a patch that succeeds gives the object that the server
-- answers with.
pub record Client (Conditions E W : Type 0) : Type 0 where
  pub get_node_claim : String → W → Result E NodeClaim × W
  pub patch_node : Node → Node → W → Result E Node × W
  -- the names of the NodeClaims whose spec.nodeClassRef.name is given
  pub list_node_claims : String → W → Result E (List String) × W
  pub patch_class :
      NodeClass Conditions → NodeClass Conditions → W → Result E (NodeClass Conditions) × W
  -- with the optimistic lock
  pub patch_class_locked :
      NodeClass Conditions → NodeClass Conditions → W → Result E (NodeClass Conditions) × W
  -- of the status subresource
  pub patch_class_status :
      NodeClass Conditions → NodeClass Conditions → W → Result E (NodeClass Conditions) × W
  -- WaitingOnNodeClaimTerminationEvent of a NodeClass and the names of NodeClaims
  pub publish_waiting : String → List String → W → W
  pub is_not_found : E → Bool
  pub is_conflict : E → Bool
  -- equality.Semantic.DeepEqual
  pub deep_equal : NodeClass Conditions → NodeClass Conditions → Bool
  -- StatusConditions().SetTrue(ConditionTypeValidationSucceeded)
  pub set_validation_succeeded : Conditions → Conditions
