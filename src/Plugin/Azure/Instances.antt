-- ===== src/Plugin/Azure/Instances.antt =====
-- instances.go: the machines of a scale set. The loop over the pages runs on fuel; running out of it
-- is `none`.
use Prim.Native.String.{◌++◌ as concat}
use aks_flex.Common.{
  ℕ, zero, suc, true, false, Option, none, some, List, [], ◌∷◌, ◌++◌, String, Result, ok, err,
  ◌>>=◌, or_err, map_err,
}
use aks_flex.Common.Split.{split, first_part, second_part}
use aks_flex.Plugin.{Proto, Store}
use aks_flex.Plugin.Db as Db
use aks_flex.Plugin.Db.{AnyError, type_mismatch}
use aks_flex.Plugin.Azure.{
  ScaleSetPool, ResourceId, Azure, AzureFailure, unpacking, azure_failed, packing, database,
  not_found, nil_dereference, id_out_of_range,
}
use aks_flex.Plugin.Azure.AgentPools.{ScaleSetMessages, finish, client_for}

module _ {M O Any Bytes P Z Client Poller Pager World W : Type 0} (E : Type 0)
    (p : Proto M O Any Bytes P) (messages : ScaleSetMessages M O) (instance_of : String → O)
    (store : Store Bytes P World) (azure : Azure Z Client Poller Pager W) where
  -- The item of an instance.
  unfoldable pub instance_item : String → Result (AzureFailure E P Z) Any
  instance_item id = map_err packing (p.new_any (instance_of id))

  -- The loop over a page.
  unfoldable pub page_items :
      String → List Any → List (Option String) → Result (AzureFailure E P Z) (List Any)
  unfolding instance_item
  page_items pool_id items [] = ok items
  page_items pool_id items (none ∷ rest) = err nil_dereference
  page_items pool_id items (some id ∷ rest) =
      elim (instance_item (concat pool_id (concat "/" id))) [
        | err e ↦ err e
        | ok item ↦ page_items pool_id (items ++ item ∷ []) rest
      ]

  -- The loop over the pages, where `fuel` bounds its rounds.
  unfoldable pub all_items :
      ℕ → String → List Any → Pager → W → Option (Result (AzureFailure E P Z) (List Any) × W)
  unfolding page_items
  all_items zero pool_id items pager w = none
  all_items (suc fuel) pool_id items pager w = elim (azure.more pager) [
    | false ↦ some (ok items, w)
    | true ↦
        let (r, pager', w') = azure.next_page pager w in
        elim (map_err azure_failed r >>= page_items pool_id items) [
          | err e ↦ some (err e, w')
          | ok items' ↦ all_items fuel pool_id items' pager' w'
        ]
  ]

  -- The agent pool's object, if the database has one, and as an agent pool.
  unfoldable pub stored : String → World → Result (AzureFailure E P Z) O
  stored id world = map_err database (Db.get p store id world).0 >>= (λ o. or_err o not_found)

  unfoldable pub stored_pool : String → World → Result (AzureFailure E P Z) ScaleSetPool
  unfolding stored
  stored_pool id world =
      stored id world
      >>= (λ obj. map_err unpacking (or_err (messages.pool_of_object obj) type_mismatch))

  -- The agent pool, its scale set and a client for the machines.
  unfoldable pub machines :
      String → World → Result (AzureFailure E P Z) (ScaleSetPool × (ResourceId × Client))
  unfolding stored_pool client_for
  machines id world = stored_pool id world >>= (λ pool.
      client_for E P azure azure.new_machines_client pool >>= (λ target. ok (pool, target)))

  unfoldable pub list_machines :
      ℕ
      → Result (AzureFailure E P Z) (ScaleSetPool × (ResourceId × Client))
      → W
      → Option (Result (AzureFailure E P Z) (List Any) × W)
  unfolding all_items
  list_machines fuel (err e) w = some (err e, w)
  list_machines fuel (ok (pool, (rid, client))) w =
      all_items fuel pool.id [] (azure.new_list_pager client rid.resource_group_name rid.name) w

  unfoldable pub list : ℕ → String → World → W → Option (Result (AzureFailure E P Z) (List Any) × W)
  unfolding machines list_machines
  list fuel id world w = list_machines fuel (machines id world) w

  unfoldable pub get : String → World → Result (AzureFailure E P Z) Any
  unfolding stored instance_item split
  get id world = stored (first_part (split id)) world >>= (λ obj. instance_item id)

  -- Restart once the agent pool and the client are there.
  unfoldable pub restart_machine :
      ResourceId × Client → Option String → W → Result (AzureFailure E P Z) (Unit {0}) × W
  unfolding finish
  restart_machine (rid, client) none w = (err id_out_of_range, w)
  restart_machine (rid, client) (some id) w =
      finish E P azure (azure.begin_restart client rid.resource_group_name rid.name (id ∷ []) w)

  unfoldable pub restart_in :
      Result (AzureFailure E P Z) (ResourceId × Client)
      → Option String
      → W
      → Result (AzureFailure E P Z) (Unit {0}) × W
  unfolding restart_machine
  restart_in (err e) id w = (err e, w)
  restart_in (ok target) id w = restart_machine target id w

  unfoldable pub restart : String → World → W → Result (AzureFailure E P Z) (Unit {0}) × W
  unfolding stored_pool client_for restart_in split
  restart id world w =
      restart_in
        (stored_pool (first_part (split id)) world
          >>= client_for E P azure azure.new_scale_sets_client)
        (second_part (split id)) w
