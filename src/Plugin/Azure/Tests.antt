-- ===== src/Plugin/Azure/Tests.antt =====
-- A scale set with two pages of machines, whose agent pool is in the database.
use mathlib.Core.List.{flatten}
use aks_flex.Common.{
  arith, ◌≡◌, refl, Bool, true, false, Option, none, some, List, [], ◌∷◌, map, String, ok,
  string_eq,
}
use aks_flex.Common.Split.{split, has_slash}
use aks_flex.Plugin.{Proto, Store}
use aks_flex.Plugin.Db as Db
use aks_flex.Plugin.Db.{to, any_to, unpack_all, find_id, decode}
use aks_flex.Plugin.Azure.{ScaleSetPool, ResourceId, Azure}
use aks_flex.Plugin.Azure.AgentPools.{ScaleSetMessages, client_for}
use aks_flex.Plugin.Azure.Instances.{stored, stored_pool, restart}
use aks_flex.Plugin.Azure.Restarted.{no_more, page, Listed, list-Listed}

data Object : Type 0 where
  pool : ScaleSetPool → Object
  instance_id : String → Object

abbrev object_id : Object → String
object_id (pool ap) = ap.id
object_id (instance_id id) = id

abbrev as_pool : Object → Option ScaleSetPool
as_pool (pool ap) = some ap
as_pool (instance_id id) = none

abbrev proto : Proto Object Object Object (List Object) String
proto = record {
  id = object_id;
  redact = λ o. o;
  type_url = λ o. "pool";
  any_type_url = λ a. "pool";
  new_any = λ o. ok o;
  unmarshal_new = λ a. ok a;
  as_object = λ m. some m;
  marshal = λ items. ok items;
  unmarshal = λ b. ok b;
}

abbrev messages : ScaleSetMessages Object Object
messages = record { pool_of_message = as_pool; pool_of_object = as_pool; object_of = pool }

abbrev memory : Store (List Object) String (List Object)
memory = record { read = λ w. (ok w, w); write = λ b w. (ok tt, b) }

abbrev rid : ResourceId
rid = record { subscription_id = "sub"; resource_group_name = "group"; name = "flex" }

abbrev remaining : List (List String) → List (List String)
remaining [] = []
remaining (ids ∷ pages) = pages

abbrev has_more : List (List String) → Bool
has_more [] = false
has_more (ids ∷ pages) = true

abbrev front : List (List String) → List String
front [] = []
front (ids ∷ pages) = ids

-- A client is its subscription, a pager its pages; the restarted machines are kept.
abbrev azure : Azure String String String (List (List String)) (List String)
azure = record {
  parse_resource_id = λ id. ok rid;
  new_scale_sets_client = λ sub. ok sub;
  new_machines_client = λ sub. ok sub;
  begin_create_or_update = λ c rg name spec w. (ok "created", w);
  begin_delete = λ c rg name force w. (ok "deleted", w);
  begin_restart = λ c rg name ids w. (ok "restarted", ids);
  poll_until_done = λ poller w. (ok tt, w);
  new_list_pager = λ c rg name. ("0" ∷ "1" ∷ []) ∷ ("2" ∷ []) ∷ [];
  more = has_more;
  next_page = λ pages w. (ok (map some (front pages)), remaining pages, w);
}

abbrev agent_pool : ScaleSetPool
agent_pool = record {
  id = "a";
  resource_id = "/flex";
  location = "eastus";
  subnet_id = "nodes";
  sku = "Standard_D2ds_v5";
  capacity = 3;
  kubeadm = record {
    server = "";
    certificate_authority_data = "";
    token = "";
    node_labels = [];
    register_with_taints = [];
    node_ip = "";
  };
  zones = [];
}

abbrev world : List Object
world = pool agent_pool ∷ []

restarts_second :
    restart String proto messages instance_id memory azure "a/1" world [] ≡ (ok tt, "1" ∷ [])
unfolding restart split stored_pool stored client_for Db.get Db.list decode unpack_all any_to to
    find_id
restarts_second = refl

list-Listed_example :
    Listed String proto messages instance_id memory azure world agent_pool rid "sub"
      (flatten (("0" ∷ "1" ∷ []) ∷ ("2" ∷ []) ∷ []))
      3
      []
      []
unfolding stored_pool stored client_for Db.get Db.list decode unpack_all any_to to find_id has_slash
    flatten
list-Listed_example =
    list-Listed String proto messages instance_id memory azure world agent_pool rid "sub" "sub"
      (("0" ∷ "1" ∷ []) ∷ ("2" ∷ []) ∷ []) [] [] 3 (λ o. (o, refl)) refl refl refl refl
      (refl, (refl, (refl, tt)))
      (page _ (("2" ∷ []) ∷ []) [] [] ("0" ∷ "1" ∷ []) (("2" ∷ []) ∷ []) refl refl
        (page _ [] [] [] ("2" ∷ []) [] refl refl (no_more [] refl)))
      (omega arith)
