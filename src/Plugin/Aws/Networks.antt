-- ===== src/Plugin/Aws/Networks.antt =====
-- plugin/pkg/services/networks/aws/vpc: vpc.go. Get and List are not implemented there.
use aks_flex.Common.{some, List, [], ◌∷◌, String, Result, ok, err, ◌>>=◌, map_err}
use aks_flex.Common.Assoc.{Map}
use aks_flex.Plugin.{Proto, Store}
use aks_flex.Plugin.Db as Db
use aks_flex.Plugin.Server.{Backend}
use aks_flex.Plugin.Stacks.{Parameter, Aws, AwsError}
use aks_flex.Plugin.Stacks as Stacks
use aks_flex.Plugin.Aws.{
  VpcNetwork, Kind, AwsFailure, configuring, stack_failed, unimplemented, output, network_stack,
  serve, serve_delete, Machine,
}

module _ {Config A W : Type 0} (E P : Type 0) (aws : Aws Config A W) (machine : Machine E) where
  unfoldable pub with_outputs : VpcNetwork → Map String String → VpcNetwork
  unfolding output
  with_outputs n outputs = record n {
    status = some (record {
      vpc = output outputs "VPC";
      subnet = output outputs "Subnet";
      route_table = output outputs "RouteTable";
      security_group = output outputs "SecurityGroup";
    });
  }

  unfoldable pub parameters : VpcNetwork → List Parameter
  parameters n = record { key = "CidrBlock"; value = n.cidr_block } ∷ []

  -- CreateOrUpdate after the configuration is loaded.
  unfoldable pub deploy :
      VpcNetwork → Result A Config × W → Result (AwsFailure E P A) VpcNetwork × W
  unfolding parameters with_outputs Stacks.deploy
  deploy n (err e, w) = (err (configuring e), w)
  deploy n (ok cfg, w) =
      let (r, w') =
        Stacks.deploy aws cfg (network_stack n.id) machine.network_template (parameters n) w in
      (map_err stack_failed r >>= (λ outputs. ok (with_outputs n outputs)), w')

  -- CreateOrUpdate between unpacking and packing the network.
  unfoldable pub apply : VpcNetwork → W → Result (AwsFailure E P A) VpcNetwork × W
  unfolding deploy
  apply n w = deploy n (aws.load_default_config n.region w)

  unfoldable pub delete_stack :
      VpcNetwork → Result A Config × W → Result (AwsFailure E P A) (Unit {0}) × W
  unfolding Stacks.delete
  delete_stack n (err e, w) = (err (configuring e), w)
  delete_stack n (ok cfg, w) =
      let (r, w') = Stacks.delete aws cfg (network_stack n.id) w in
      (map_err (λ e. stack_failed (Stacks.api e)) r, w')

  -- Delete of a network that the database has.
  unfoldable pub remove : VpcNetwork → W → Result (AwsFailure E P A) (Unit {0}) × W
  unfolding delete_stack
  remove n w = delete_stack n (aws.load_default_config n.region w)

module _ {M O Any Bytes E P Config A World W : Type 0} (p : Proto M O Any Bytes P)
    (kind : Kind M O VpcNetwork) (store : Store Bytes P World) (aws : Aws Config A W)
    (machine : Machine E) where
  unfoldable pub server : Backend Any (AwsFailure E P A) W World
  unfolding serve serve_delete apply remove
  server = record {
    create_or_update = λ item world w. serve p kind (apply E P aws machine) item w;
    list = λ id world w. (err unimplemented, w);
    get = λ id world w. (err unimplemented, w);
    delete =
        λ id world w. serve_delete p kind (remove E P aws machine) (Db.get p store id world).0 w;
  }
