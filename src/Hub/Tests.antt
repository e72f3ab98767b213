-- ===== src/Hub/Tests.antt =====
-- Two providers on concrete calls.
use aks_flex.Common.{
  ℕ, ◌+◌, ◌≡◌, refl, Option, none, some, List, [], ◌∷◌, String, Result, ok, err, string_eq,
}
use aks_flex.Common.Assoc.{lookup, insert}
use aks_flex.Karpenter.{GroupKind, group_kind_eq, NodeClaim, NodePool, CloudProvider}
use aks_flex.Hub.{
  ProviderSet, not_registered_for, provider_error, new_cloud_provider_set, register,
  get_by_group_kind, call, by_ref, delete,
}
use aks_flex.Hub.Routing.{Registration, registered}
use aks_flex.Hub.Fanout.{last_registered_serves, list-Gathers, IsServed, Gathers}

abbrev flex : String → GroupKind
flex kind = record { group = "flex.aks.azure.com"; kind = kind }

abbrev claim : String → String → NodeClaim
claim name kind = record {
  name = name;
  labels = [];
  node_class_ref = some (record { group = "flex.aks.azure.com"; kind = kind; name = "default" });
  requirements = [];
  requests = [];
  provider_id = "";
  capacity = [];
  allocatable = [];
}

-- A provider whose world counts its calls, and which lists one claim or fails.
abbrev provider : String → Result String (List NodeClaim) → CloudProvider String String ℕ
provider name listed = record {
  create = λ c w. (ok c, w + 1);
  delete = λ c w. (err name, w + 1);
  get = λ id w. (ok (claim id name), w + 1);
  list = λ w. (listed, w + 1);
  get_instance_types = λ p w. (ok (name ∷ []), w);
  is_drifted = λ c w. (ok "", w);
  supported_node_classes = flex name ∷ [];
  repair_policies = [];
  close = none;
}

abbrev pool : NodePool
pool = record { name = "pool"; node_class_ref = none }

abbrev two : List (Registration (CloudProvider String String ℕ))
two =
    (
      provider "NebiusNodeClass" (ok (claim "a" "NebiusNodeClass" ∷ [])),
      flex "NebiusNodeClass",
      "nebius",
    )
    ∷ (
      provider "KaitoNodeClass" (ok (claim "b" "KaitoNodeClass" ∷ [])),
      flex "KaitoNodeClass",
      "kaito",
    )
    ∷ []

abbrev scheme : String → Option String
scheme id = some "kaito"

unfoldable hub : ProviderSet (CloudProvider String String ℕ)
hub = registered new_cloud_provider_set two

delete_reaches_kaito :
    delete hub (claim "x" "KaitoNodeClass") 0 ≡ (err (provider_error "KaitoNodeClass"), 1)
unfolding hub delete by_ref call get_by_group_kind lookup registered register new_cloud_provider_set
    insert
delete_reaches_kaito = refl

unknown_kind : delete hub (claim "x" "Other") 0 ≡ (err (not_registered_for (flex "Other")), 0)
unfolding hub delete by_ref call get_by_group_kind lookup registered register new_cloud_provider_set
    insert
unknown_kind = refl

last_registered_serves_example : IsServed two (claim "x" "KaitoNodeClass") pool scheme "kaito://x" 0
last_registered_serves_example =
    last_registered_serves two (claim "x" "KaitoNodeClass") pool scheme "kaito://x" 0

list-Gathers_example : Gathers hub 0
list-Gathers_example = list-Gathers hub 0
