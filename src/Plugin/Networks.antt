-- ===== src/Plugin/Networks.antt =====
-- plugin/pkg/services/networks/nebius/vpc: vpc.go, the back-end for networks of Nebius. This file
-- is between unpacking an object and packing it, which is in `Server`. `pools`, `networks` and
-- `subnets` are services of the SDK.
pub mod Settled
pub mod Server
mod Tests
use Prim.Native.String.{◌++◌ as concat}
use aks_flex.Common.{
  ◌≡◌, Bool, true, Option, none, some, List, [], ◌∷◌, String, Result, ok, err, ◌==◌, string_eq,
  if◌then◌else◌,
}
use aks_flex.Nebius.NodeClaims.{from_ptr_or}
use aks_flex.Plugin.Resource.{Metadata, Resource, Service, drift_todo}
use aks_flex.Plugin.Resource as Resource

pub record NetworkStatus : Type 0 where
  pub pool_id : String
  pub vnet_id : String
  pub subnet_id : String

pub record Network : Type 0 where
  pub id : String
  pub project_id : String
  pub cidr_block : String
  pub status : Option NetworkStatus

-- PoolSpec of private IPv4 addresses; NetworkSpec by the ids of its private pools; SubnetSpec, which
-- uses the pools of its network.
pub record PoolSpec : Type 0 where
  pub cidrs : List String

pub record NetworkSpec : Type 0 where
  pub pools : List String

pub record SubnetSpec : Type 0 where
  pub network_id : String
  pub use_network_pools : Bool

abbrev pub status_id : (NetworkStatus → String) → Network → String
status_id field n = from_ptr_or (elim n.status [ none ↦ none | some s ↦ some (field s) ]) ""

unfoldable pub desired_pool : Network → Resource PoolSpec
desired_pool n = record {
  metadata = record {
    id = status_id (λ s. s.pool_id) n;
    parent_id = n.project_id;
    name = concat n.id "-pool";
    created_at = none;
  };
  spec = record { cidrs = n.cidr_block ∷ [] };
}

unfoldable pub desired_network : Network → Resource PoolSpec → Resource NetworkSpec
desired_network n pool = record {
  metadata = record {
    id = status_id (λ s. s.vnet_id) n;
    parent_id = n.project_id;
    name = n.id;
    created_at = none;
  };
  spec = record { pools = if pool.metadata.id == "" then [] else pool.metadata.id ∷ [] };
}

-- An id that is not set is the empty one of a new message.
unfoldable pub desired_subnet : Network → Resource NetworkSpec → Resource SubnetSpec
desired_subnet n network = record {
  metadata = record {
    id = status_id (λ s. s.subnet_id) n;
    parent_id = n.project_id;
    name = concat n.id "-subnet";
    created_at = none;
  };
  spec = record { network_id = network.metadata.id; use_network_pools = true };
}

module _ {PoolOp NetworkOp SubnetOp N W : Type 0} (pools : Service PoolSpec PoolOp N W)
    (networks : Service NetworkSpec NetworkOp N W) (subnets : Service SubnetSpec SubnetOp N W) where
  -- CreateOrUpdate after the subnet, the network and the pool.
  unfoldable pub with_status :
      Network
      → Resource PoolSpec
      → Resource NetworkSpec
      → Result N (Resource SubnetSpec) × W
      → Result N Network × W
  with_status n pool network (err e, w) = (err e, w)
  with_status n pool network (ok subnet, w) = (
    ok (record n {
      status = some (record {
        pool_id = pool.metadata.id;
        vnet_id = network.metadata.id;
        subnet_id = subnet.metadata.id;
      });
    }),
    w,
  )

  unfoldable pub create_subnet :
      Network → Resource PoolSpec → Result N (Resource NetworkSpec) × W → Result N Network × W
  unfolding with_status
  create_subnet n pool (err e, w) = (err e, w)
  create_subnet n pool (ok network, w) =
      with_status n pool network
        (Resource.create_or_update subnets drift_todo (desired_subnet n network) w)

  unfoldable pub create_network : Network → Result N (Resource PoolSpec) × W → Result N Network × W
  unfolding create_subnet
  create_network n (err e, w) = (err e, w)
  create_network n (ok pool, w) =
      create_subnet n pool
        (Resource.create_or_update networks drift_todo (desired_network n pool) w)

  unfoldable pub create_or_update : Network → W → Result N Network × W
  unfolding create_network
  create_or_update n w =
      create_network n (Resource.create_or_update pools drift_todo (desired_pool n) w)

  -- Delete after the subnet, and after the network.
  unfoldable pub delete_pool : Network → Result N (Unit {0}) × W → Result N (Unit {0}) × W
  delete_pool n (err e, w) = (err e, w)
  delete_pool n (ok _, w) = Resource.delete pools (desired_pool n) w

  unfoldable pub delete_network : Network → Result N (Unit {0}) × W → Result N (Unit {0}) × W
  unfolding delete_pool
  delete_network n (err e, w) = (err e, w)
  delete_network n (ok _, w) =
      delete_pool n (Resource.delete networks (desired_network n (desired_pool n)) w)

  -- Delete of a network that the database has.
  unfoldable pub delete : Network → W → Result N (Unit {0}) × W
  unfolding delete_network
  delete n w =
      delete_network n
        (Resource.delete subnets (desired_subnet n (desired_network n (desired_pool n))) w)
