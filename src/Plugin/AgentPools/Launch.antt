-- ===== src/Plugin/AgentPools/Launch.antt =====
-- The handlers CreateOrUpdate and Delete of agentpools.go, as a back-end of the plugin's server.
use aks_flex.Common.{
  Option, none, some, String, Result, ok, err, ◌>>=◌, or_err, map_err, ◌==◌, string_eq,
  if◌then◌else◌,
}
use aks_flex.Nebius.{AgentPool}
use aks_flex.Plugin.{Proto, Store}
use aks_flex.Plugin.Db as Db
use aks_flex.Plugin.Db.{AnyError, Panic, unmarshalling, type_mismatch}
use aks_flex.Plugin.Server.{Backend}
use aks_flex.Plugin.CloudInit.{marshal}
use aks_flex.Plugin.Flex.{FlexError}
use aks_flex.Plugin.Resource.{Resource, Service, drift_todo}
use aks_flex.Plugin.Resource as Resource
use aks_flex.Plugin.AgentPools.{
  Pool, DiskSpec, InstanceSpec, Host, desired_boot_disk, desired_instance, with_kubeadm,
  node_config, instance_user_data,
}

-- What a handler fails with: `E` is an error of the printers, `P` of the protobuf package, `N` of
-- Nebius.
pub data AgentPoolsError (E P N : Type 0) : Type 0 where
  unpacking : AnyError P → AgentPoolsError E P N
  -- InvalidArgument, "kubernetes_version is required"
  version_required : AgentPoolsError E P N
  generating : FlexError E → AgentPoolsError E P N
  printing : E → AgentPoolsError E P N
  disk_failed : N → AgentPoolsError E P N
  instance_failed : N → AgentPoolsError E P N
  -- the instance's error, then that of deleting the disk
  instance_and_disk_failed : N → N → AgentPoolsError E P N
  packing : P → AgentPoolsError E P N
  database : Panic P → AgentPoolsError E P N
  unimplemented : AgentPoolsError E P N

-- The agent pools among the messages and the objects.
pub record PoolMessages (M O : Type 0) : Type 0 where
  pub pool_of_message : M → Option Pool
  pub pool_of_object : O → Option Pool
  pub object_of : Pool → O

module _ {E N DiskOp InstanceOp W : Type 0} (P : Type 0) (host : Host E)
    (disks : Service DiskSpec DiskOp N W) (instances : Service InstanceSpec InstanceOp N W) where
  -- The status after a creation.
  unfoldable pub with_status : Pool → Resource DiskSpec → Resource InstanceSpec → Pool
  with_status ap boot_disk instance = record {
    spec = ap.spec;
    status = some (record {
      instance_id = instance.metadata.id;
      os_disk_id = boot_disk.metadata.id;
      created_at = instance.metadata.created_at;
    });
  }

  -- CreateOrUpdate after the instance has failed.
  unfoldable pub clean_disk : N → Result N (Unit {0}) × W → Result (AgentPoolsError E P N) Pool × W
  clean_disk e (ok _, w) = (err (instance_failed e), w)
  clean_disk e (err disk_err, w) = (err (instance_and_disk_failed e disk_err), w)

  unfoldable pub finish :
      Pool
      → Resource DiskSpec
      → Result N (Resource InstanceSpec) × W
      → Result (AgentPoolsError E P N) Pool × W
  unfolding with_status clean_disk
  finish ap boot_disk (ok instance, w) = (ok (with_status ap boot_disk instance), w)
  finish ap boot_disk (err e, w) = clean_disk e (Resource.delete disks boot_disk w)

  -- CreateOrUpdate after the boot disk.
  unfoldable pub boot :
      Pool → String → Result N (Resource DiskSpec) × W → Result (AgentPoolsError E P N) Pool × W
  unfolding finish
  boot ap content (err e, w) = (err (disk_failed e), w)
  boot ap content (ok boot_disk, w) =
      finish ap boot_disk
        (Resource.create_or_update instances drift_todo (desired_instance ap boot_disk content) w)

  -- The cloud-init text of the agent pool.
  unfoldable pub content_of : AgentPool → Result (AgentPoolsError E P N) String
  content_of spec =
      map_err generating (instance_user_data host spec)
      >>= (λ ud. map_err printing (marshal host.yaml_marshal ud))

  -- CreateOrUpdate between unpacking and packing the agent pool.
  unfoldable pub launch : Pool → W → Result (AgentPoolsError E P N) Pool × W
  unfolding boot content_of
  launch ap w =
      if ap.spec.kubernetes_version == ""
      then (err version_required, w)
      else elim (content_of ap.spec) [
        | err e ↦ (err e, w)
        | ok content ↦
            let ap' : Pool = record {
              spec = with_kubeadm ap.spec (node_config host ap.spec);
              status = ap.status;
            } in
            boot ap' content (Resource.create_or_update disks drift_todo (desired_boot_disk ap') w)
      ]

  unfoldable pub remove_disk :
      Resource DiskSpec → Result N (Unit {0}) × W → Result (AgentPoolsError E P N) (Unit {0}) × W
  remove_disk os_disk (err e, w) = (err (instance_failed e), w)
  remove_disk os_disk (ok _, w) =
      let (r, w') = Resource.delete disks os_disk w in (map_err disk_failed r, w')

  -- Delete of an agent pool that the database has.
  unfoldable pub remove : Pool → W → Result (AgentPoolsError E P N) (Unit {0}) × W
  unfolding remove_disk
  remove ap w =
      let os_disk = desired_boot_disk ap in
      remove_disk os_disk (Resource.delete instances (desired_instance ap os_disk "") w)

module _ {M O Any Bytes P E N DiskOp InstanceOp World W : Type 0} (p : Proto M O Any Bytes P)
    (messages : PoolMessages M O) (store : Store Bytes P World) (host : Host E)
    (disks : Service DiskSpec DiskOp N W) (instances : Service InstanceSpec InstanceOp N W) where
  -- helper.AnyTo and helper.To for agent pools
  unfoldable pub any_to_pool : Any → Result (AnyError P) Pool
  any_to_pool item =
      map_err unmarshalling (p.unmarshal_new item)
      >>= (λ m. or_err (messages.pool_of_message m) type_mismatch)

  unfoldable pub create_or_update : Any → W → Result (AgentPoolsError E P N) Any × W
  unfolding any_to_pool launch
  create_or_update item w = elim (any_to_pool item) [
    | err e ↦ (err (unpacking e), w)
    | ok ap ↦
        let (r, w') = launch P host disks instances ap w in
        (r >>= (λ made. map_err packing (p.new_any (messages.object_of made))), w')
  ]

  -- Delete after the database has been asked.
  unfoldable pub delete_found :
      Result (Panic P) (Option O) → W → Result (AgentPoolsError E P N) (Unit {0}) × W
  unfolding remove
  delete_found (err e) w = (err (database e), w)
  delete_found (ok none) w = (ok tt, w)
  delete_found (ok (some obj)) w =
      elim (or_err {E = AnyError P} (messages.pool_of_object obj) type_mismatch) [
        | err e ↦ (err (unpacking e), w)
        | ok ap ↦ remove P host disks instances ap w
      ]

  unfoldable pub delete : String → World → W → Result (AgentPoolsError E P N) (Unit {0}) × W
  unfolding delete_found
  delete id world w = delete_found (Db.get p store id world).0 w

  unfoldable pub server : Backend Any (AgentPoolsError E P N) W World
  unfolding create_or_update delete
  server = record {
    create_or_update = λ item world w. create_or_update item w;
    list = λ id world w. (err unimplemented, w);
    get = λ id world w. (err unimplemented, w);
    delete = delete;
  }
