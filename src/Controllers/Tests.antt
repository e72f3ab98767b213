-- ===== src/Controllers/Tests.antt =====
-- An API server with a provider ID for each node and finalizers for each NodeClass.
use aks_flex.Common.{
  ◌≡◌, refl, inl, inr, Bool, true, false, none, List, [], ◌∷◌, String, ok, ◌==◌, elem, string_eq,
  ==_refl, if◌then◌else◌, Bool-cases,
}
use aks_flex.Karpenter.{NodeClaim}
use aks_flex.Controllers.{Node, NodeClass, Client}
use aks_flex.Controllers.ProviderId.{NodeLaws, Progress, Kept, reconcile-Progress, reconcile-Kept}
use aks_flex.Controllers.ProviderId as ProviderId
use aks_flex.Controllers.Status as Status
use aks_flex.Controllers.Termination as Termination
use aks_flex.Controllers.Termination.{without_finalizer}
use aks_flex.Controllers.Finalizers.{ClassLaws, Removal, reconcile-finalizers, reconcile-Removal}
use aks_flex.Controllers.Runs.{status, Reached, here, after, Unwaited, Reached-Unwaited}

abbrev World : Type 0
World = (String → String) × (String → List String)

abbrev claim : NodeClaim
claim = record {
  name = "claim";
  labels = [];
  node_class_ref = none;
  requirements = [];
  requests = [];
  provider_id = "aks-nebius://claim";
  capacity = [];
  allocatable = [];
}

abbrev stored : NodeClass Bool → World → NodeClass Bool
stored obj w = record obj { finalizers = w.1 obj.name }

abbrev client : Client Bool String World
client = record {
  get_node_claim = λ name w. (ok claim, w);
  patch_node =
      λ obj base w. (ok obj, ((λ n. if n == obj.name then obj.provider_id else w.0 n), w.1));
  list_node_claims = λ name w. (ok [], w);
  patch_class = λ obj base w. (ok (stored obj w), w);
  patch_class_locked =
      λ obj base w. (ok obj, (w.0, (λ n. if n == obj.name then obj.finalizers else w.1 n)));
  patch_class_status = λ obj base w. (ok (stored obj w), w);
  publish_waiting = λ name claims w. w;
  is_not_found = λ e. e == "not found";
  is_conflict = λ e. e == "conflict";
  deep_equal = λ a b. false;
  set_validation_succeeded = λ c. true;
}

abbrev node_laws : NodeLaws client
node_laws = record {
  provider_id_at = λ name w. w.0 name;
  get_reads = λ name w. refl;
  patch_node_only = λ obj base w name. elim (Bool-cases (name == obj.name)) [
    | inl q ↦ inr ((string_eq.same_iff name obj.name).0 q)
    | inr q ↦ inl (rw (q) refl)
  ];
  patch_node_writes = λ obj base w answer h done. rw (==_refl obj.name) refl;
}

abbrev class_laws : ClassLaws client
class_laws = record {
  finalizers_at = λ name w. w.1 name;
  list_keeps = λ class name w. refl;
  publish_keeps = λ class claims name w. refl;
  empty_patch_keeps = λ obj name w. refl;
  status_keeps = λ obj base name w. refl;
  patch_locked = λ obj base name w. elim (Bool-cases (name == obj.name)) [
    | inl q ↦ inr ((string_eq.same_iff name obj.name).0 q, rw (q) refl)
    | inr q ↦ inl (rw (q) refl)
  ];
}

abbrev node : Node
node = record {
  name = "node";
  provider_id = "";
  labels = ("karpenter.azure.com/node-claim", "claim") ∷ [];
}

abbrev start : World
start = ((λ n. ""), (λ n. []))

abbrev node_class : NodeClass Bool
node_class = record { name = "class"; terminating = true; finalizers = []; conditions = false }

reconcile-Progress_example :
    Progress client node_laws node start (ProviderId.reconcile client node start)
reconcile-Progress_example = reconcile-Progress client node_laws node start

reconcile-Kept_example :
    Kept client node_laws node start "node" (ProviderId.reconcile client node start).1
reconcile-Kept_example = reconcile-Kept client node_laws node start "node" refl

reconcile-finalizers_example :
    class_laws.finalizers_at "class" (Status.reconcile client node_class start).1
    ≡ class_laws.finalizers_at "class" start
reconcile-finalizers_example = reconcile-finalizers client class_laws node_class "class" start

reconcile-Removal_example :
    Removal client class_laws node_class "class" start
      (Termination.reconcile client node_class start).1
reconcile-Removal_example = reconcile-Removal client class_laws node_class "class" start

abbrev w1 : World
w1 = (Status.reconcile client node_class start).1

run : Reached client class_laws start w1
run = after start w1 here (status node_class start)

Reached-Unwaited_example : Unwaited client class_laws w1
unfolding elem
Reached-Unwaited_example = Reached-Unwaited client class_laws start w1 run (λ name. refl)
