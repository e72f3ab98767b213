-- ===== src/Plugin/Azure/AgentPools.antt =====
-- The handlers CreateOrUpdate and Delete of agentpools.go, as a back-end of the plugin's server. Get
-- and List are not implemented there.
use aks_flex.Common.{true, Option, none, some, String, Result, ok, err, ◌>>=◌, or_err, map_err}
use aks_flex.Plugin.{Proto, Store}
use aks_flex.Plugin.Db as Db
use aks_flex.Plugin.Db.{AnyError, Panic, unmarshalling, type_mismatch}
use aks_flex.Plugin.Server.{Backend}
use aks_flex.Plugin.Ssh.{public_key}
use aks_flex.Plugin.Azure.{
  ScaleSetPool, ResourceId, ScaleSet, Azure, AzureFailure, unpacking, azure_failed, no_public_key,
  packing, database, unimplemented, Machine, scale_set, label_node, user_data_content,
}

-- The agent pools of Azure among the messages and the objects.
pub record ScaleSetMessages (M O : Type 0) : Type 0 where
  pub pool_of_message : M → Option ScaleSetPool
  pub pool_of_object : O → Option ScaleSetPool
  pub object_of : ScaleSetPool → O

module _ {Z Client Poller Pager W : Type 0} (E P : Type 0)
    (azure : Azure Z Client Poller Pager W) where
  -- `poller.PollUntilDone` after a call that has begun.
  unfoldable pub finish : Result Z Poller × W → Result (AzureFailure E P Z) (Unit {0}) × W
  finish (err e, w) = (err (azure_failed e), w)
  finish (ok poller, w) =
      let (r, w') = azure.poll_until_done poller w in (map_err azure_failed r, w')

  -- The scale set's resource ID, and a client for its subscription.
  unfoldable pub client_for :
      (String → Result Z Client) → ScaleSetPool → Result (AzureFailure E P Z) (ResourceId × Client)
  client_for new_client pool =
      map_err azure_failed (azure.parse_resource_id pool.resource_id) >>= (λ rid.
        map_err azure_failed (new_client rid.subscription_id) >>= (λ client. ok (rid, client)))

  -- Delete of an agent pool that the database has.
  unfoldable pub remove : ScaleSetPool → W → Result (AzureFailure E P Z) (Unit {0}) × W
  unfolding client_for finish
  remove pool w = elim (client_for azure.new_scale_sets_client pool) [
    | err e ↦ (err e, w)
    | ok (rid, client) ↦ finish (azure.begin_delete client rid.resource_group_name rid.name true w)
  ]

module _ {E Z Client Poller Pager W : Type 0} (P : Type 0) (azure : Azure Z Client Poller Pager W)
    (machine : Machine E) where
  -- The scale set that a labelled agent pool wants.
  unfoldable pub desired : ScaleSetPool → ResourceId → Result (AzureFailure E P Z) ScaleSet
  unfolding public_key user_data_content scale_set
  desired pool rid = public_key no_public_key machine.read_file >>= (λ ssh_key.
      user_data_content P Z machine pool
      >>= (λ content. ok (scale_set pool rid ssh_key (machine.encode_base64 content))))

  unfoldable pub begin :
      ScaleSetPool → ResourceId × Client → W → Result (AzureFailure E P Z) (Unit {0}) × W
  unfolding desired finish
  begin pool (rid, client) w = elim (desired pool rid) [
    | err e ↦ (err e, w)
    | ok spec ↦
        finish E P azure
          (azure.begin_create_or_update client rid.resource_group_name rid.name spec w)
  ]

  -- CreateOrUpdate between unpacking and packing the agent pool.
  unfoldable pub apply : ScaleSetPool → W → Result (AzureFailure E P Z) ScaleSetPool × W
  unfolding client_for label_node begin
  apply pool w = elim (client_for E P azure azure.new_scale_sets_client pool) [
    | err e ↦ (err e, w)
    | ok target ↦
        let labelled = label_node P Z machine pool in
        let (r, w') = begin labelled target w in (r >>= (λ u. ok labelled), w')
  ]

module _ {M O Any Bytes E P Z Client Poller Pager World W : Type 0} (p : Proto M O Any Bytes P)
    (messages : ScaleSetMessages M O) (store : Store Bytes P World)
    (azure : Azure Z Client Poller Pager W) (machine : Machine E) where
  -- helper.AnyTo for agent pools
  unfoldable pub any_to_pool : Any → Result (AnyError P) ScaleSetPool
  any_to_pool item =
      map_err unmarshalling (p.unmarshal_new item)
      >>= (λ m. or_err (messages.pool_of_message m) type_mismatch)

  unfoldable pub create_or_update : Any → W → Result (AzureFailure E P Z) Any × W
  unfolding any_to_pool apply
  create_or_update item w = elim (any_to_pool item) [
    | err e ↦ (err (unpacking e), w)
    | ok pool ↦
        let (r, w') = apply P azure machine pool w in
        (r >>= (λ made. map_err packing (p.new_any (messages.object_of made))), w')
  ]

  -- Delete after the database has been asked.
  unfoldable pub delete_found :
      Result (Panic P) (Option O) → W → Result (AzureFailure E P Z) (Unit {0}) × W
  unfolding remove
  delete_found (err e) w = (err (database e), w)
  delete_found (ok none) w = (ok tt, w)
  delete_found (ok (some obj)) w =
      elim (or_err {E = AnyError P} (messages.pool_of_object obj) type_mismatch) [
        | err e ↦ (err (unpacking e), w)
        | ok pool ↦ remove E P azure pool w
      ]

  unfoldable pub delete : String → World → W → Result (AzureFailure E P Z) (Unit {0}) × W
  unfolding delete_found
  delete id world w = delete_found (Db.get p store id world).0 w

  unfoldable pub server : Backend Any (AzureFailure E P Z) W World
  unfolding create_or_update delete
  server = record {
    create_or_update = λ item world w. create_or_update item w;
    list = λ id world w. (err unimplemented, w);
    get = λ id world w. (err unimplemented, w);
    delete = delete;
  }
