-- ===== src/Plugin/Networks/Server.antt =====
-- The handlers of vpc.go as a back-end of the plugin's server. Get and List are not implemented
-- there.
use aks_flex.Common.{Option, none, some, String, Result, ok, err, ◌>>=◌, or_err, map_err}
use aks_flex.Plugin.{Proto, Store}
use aks_flex.Plugin.Db as Db
use aks_flex.Plugin.Db.{AnyError, Panic, unmarshalling, type_mismatch}
use aks_flex.Plugin.Server.{Backend}
use aks_flex.Plugin.Resource.{Service}
use aks_flex.Plugin.Networks as Networks
use aks_flex.Plugin.Networks.{Network, PoolSpec, NetworkSpec, SubnetSpec}

-- `P` is an error of the protobuf package, `N` of Nebius.
pub data NetworksError (P N : Type 0) : Type 0 where
  unpacking : AnyError P → NetworksError P N
  cloud_failed : N → NetworksError P N
  packing : P → NetworksError P N
  database : Panic P → NetworksError P N
  unimplemented : NetworksError P N

-- The networks among the messages and the objects.
pub record NetworkMessages (M O : Type 0) : Type 0 where
  pub network_of_message : M → Option Network
  pub network_of_object : O → Option Network
  pub object_of : Network → O

module _ {M O Any Bytes P N PoolOp NetworkOp SubnetOp World W : Type 0} (p : Proto M O Any Bytes P)
    (messages : NetworkMessages M O) (store : Store Bytes P World)
    (pools : Service PoolSpec PoolOp N W) (networks : Service NetworkSpec NetworkOp N W)
    (subnets : Service SubnetSpec SubnetOp N W) where
  -- helper.AnyTo for networks
  unfoldable pub any_to_network : Any → Result (AnyError P) Network
  any_to_network item =
      map_err unmarshalling (p.unmarshal_new item)
      >>= (λ m. or_err (messages.network_of_message m) type_mismatch)

  unfoldable pub create_or_update : Any → W → Result (NetworksError P N) Any × W
  unfolding any_to_network Networks.create_or_update
  create_or_update item w = elim (any_to_network item) [
    | err e ↦ (err (unpacking e), w)
    | ok n ↦
        let (r, w') = Networks.create_or_update pools networks subnets n w in
        (
          map_err cloud_failed r
              >>= (λ made. map_err packing (p.new_any (messages.object_of made))),
          w',
        )
  ]

  -- Delete after the database has been asked.
  unfoldable pub delete_found :
      Result (Panic P) (Option O) → W → Result (NetworksError P N) (Unit {0}) × W
  unfolding Networks.delete
  delete_found (err e) w = (err (database e), w)
  delete_found (ok none) w = (ok tt, w)
  delete_found (ok (some obj)) w =
      elim (or_err {E = AnyError P} (messages.network_of_object obj) type_mismatch) [
        | err e ↦ (err (unpacking e), w)
        | ok n ↦
            let (r, w') = Networks.delete pools networks subnets n w in (map_err cloud_failed r, w')
      ]

  unfoldable pub delete : String → World → W → Result (NetworksError P N) (Unit {0}) × W
  unfolding delete_found
  delete id world w = delete_found (Db.get p store id world).0 w

  unfoldable pub server : Backend Any (NetworksError P N) W World
  unfolding create_or_update delete
  server = record {
    create_or_update = λ item world w. create_or_update item w;
    list = λ id world w. (err unimplemented, w);
    get = λ id world w. (err unimplemented, w);
    delete = delete;
  }
