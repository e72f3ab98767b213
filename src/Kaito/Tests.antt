-- ===== src/Kaito/Tests.antt =====
-- A Kaito NodeClaim, over the back-end for agent pools of Nebius.
use aks_flex.Common.{
  ℕ, ◌*◌, ◌+◌, ◌^◌, ◌≤◌, ◌<◌, ◌≡◌, refl, false, none, some, List, [], ◌∷◌, String, ok, err, map_err,
  ◌>>=◌, ◌==◌, string_eq,
}
use aks_flex.Common.Assoc.{lookup}
use aks_flex.Karpenter.{NodeClaim}
use aks_flex.Wireguard.Allocator.{Cache, not_found}
use aks_flex.Nebius.Calls.{Pools}
use aks_flex.Nebius.Fixture.{pkg, outside, net, cluster}
use aks_flex.Kaito.{
  KaitoOptions, NodeClaimRequirements, Settings, requested_type, require, platform_presets,
  os_disk_size, settings_of, resolve_node_claim_requirements, resolve_nebius_agent_pool_settings,
}
use aks_flex.Kaito.Requested.{preferred, requested_type-preferred}
use aks_flex.Kaito.Sizes.{settings-bounds}
use aks_flex.Kaito.CloudProvider.{State, create}
use aks_flex.Kaito.Unversioned.{Refused, create-Refused}
use aks_flex.Plugin.Resource.Slot.{SlotError}
use aks_flex.Plugin.AgentPools.Fixture.{Cloud, disks, instances, host}
use aks_flex.Plugin.AgentPools.Launch as Launch
use aks_flex.Plugin.AgentPools.Launch.{AgentPoolsError}

abbrev opts : KaitoOptions
opts = record {
  nebius_project_id = "project";
  nebius_region = "eu";
  nebius_subnet_id = "subnet";
  nebius_wireguard_peer_cidr = "";
}

abbrev claim : NodeClaim
claim = record {
  name = "claim";
  labels = [];
  node_class_ref = none;
  requirements =
      record { key = "karpenter.azure.com/sku-name"; operator = "In"; values = "sku" ∷ [] }
      ∷ record { key = "type"; operator = "In"; values = "Standard_NC6s_v3" ∷ [] }
      ∷ [];
  requests = ("storage", 70 * 2 ^ 30) ∷ [];
  provider_id = "";
  capacity = [];
  allocatable = [];
}

abbrev reqs : NodeClaimRequirements
reqs = record { instance_type_requested = "Standard_NC6s_v3"; disk_size_gibibytes_requested = 70 }

abbrev settings : Settings
settings = record {
  platform = "gpu-h100-sxm";
  preset = "1gpu-16vcpu-200gb";
  image_family = "ubuntu24.04-cuda12";
  os_disk_size_gibibytes = 100;
  wireguard = none;
}

abbrev rand : ℕ → ℕ
rand n = 0

abbrev cache : Cache
cache = record { list = λ c. some []; get = λ n. not_found }

abbrev start : State Cloud
start = record { allocator = record { pre_allocated = [] }; cloud = (none, none); clean_ups = [] }

abbrev status : AgentPoolsError String SlotError SlotError → String
status e = "invalid argument"

-- The client of the back-end, without the database.
abbrev pools : Pools String Cloud
pools = record {
  create_or_update = λ pool w.
      let (r, w') =
        Launch.launch SlotError host disks instances (record { spec = pool; status = none }) w in
      (map_err status r >>= (λ made. ok made.spec), w');
  get = λ name w. (err "not found", w);
  list = λ w. (ok [], w);
  delete = λ name w. (ok tt, w);
}

create-Refused_example :
    Refused pkg outside "storage" pools net rand cache cluster opts host disks instances status
      start
      (create pkg outside "storage" pools net rand cache cluster opts claim start)
create-Refused_example =
    create-Refused {P = SlotError} pkg outside "storage" pools net rand cache cluster opts host
      disks instances status (λ pool w. refl) claim start

required : resolve_node_claim_requirements pkg outside "storage" claim ≡ ok reqs
unfolding resolve_node_claim_requirements requested_type require lookup
required = refl

resolved :
    (resolve_nebius_agent_pool_settings pkg outside "storage" net rand cache opts claim reqs
      start.allocator).0
    ≡ ok settings
unfolding resolve_nebius_agent_pool_settings platform_presets settings_of os_disk_size lookup
resolved = refl

settings-bounds_example : (100 ≤ 100) × (70 * 2 ^ 30 + 29 * 2 ^ 30 < 100 * 2 ^ 30)
unfolding lookup
settings-bounds_example =
    settings-bounds pkg outside "storage" net rand cache opts claim reqs start.allocator settings
      (70 * 2 ^ 30) refl required resolved

filled :
    (a : String)
    → (a == "") ≡ false
    → (v : String) (vs : List String) → a ∷ [] ≡ v ∷ vs
    → (v == "") ≡ false
filled a h v vs e = let same : a ≡ v = cc in rw (← same) h

requested_type-preferred_example :
    requested_type "type" "" claim.requirements ≡ preferred "type" claim.requirements
requested_type-preferred_example =
    requested_type-preferred "type" claim.requirements
      (filled "sku" refl, (filled "Standard_NC6s_v3" refl, tt))
