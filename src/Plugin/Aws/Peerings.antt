-- ===== src/Plugin/Aws/Peerings.antt =====
-- plugin/pkg/services/peerings/aws/ipsecvpn: ipsecvpn.go. Get and List are not implemented there.
use aks_flex.Common.{Option, none, some, List, [], ◌∷◌, String, Result, ok, err, ◌>>=◌, map_err}
use aks_flex.Common.Assoc.{Map}
use aks_flex.Plugin.{Proto, Store}
use aks_flex.Plugin.Db as Db
use aks_flex.Plugin.Server.{Backend}
use aks_flex.Plugin.Stacks.{Parameter, Aws, AwsError, api, index_out_of_range, nil_dereference}
use aks_flex.Plugin.Stacks as Stacks
use aks_flex.Plugin.Aws.{
  Peering, Kind, AwsFailure, configuring, stack_failed, unimplemented, output, peering_stack, serve,
  serve_delete, Machine,
}

-- `*conn.VgwTelemetry[0].OutsideIpAddress` and the same of the second tunnel
unfoldable pub outside_ip_addresses :
    {A : Type 0} → List (Option String) → Result (AwsError A) (List String)
outside_ip_addresses [] = err index_out_of_range
outside_ip_addresses (none ∷ rest) = err nil_dereference
outside_ip_addresses (some a ∷ []) = err index_out_of_range
outside_ip_addresses (some a ∷ none ∷ rest) = err nil_dereference
outside_ip_addresses (some a ∷ some b ∷ rest) = ok (a ∷ b ∷ [])

module _ {Config A W : Type 0} (E P : Type 0) (aws : Aws Config A W) (machine : Machine E) where
  unfoldable pub parameters : Peering → List Parameter
  parameters n =
      record { key = "PreSharedKey"; value = n.pre_shared_key }
      ∷ record { key = "RemoteIP"; value = n.remote_ip }
      ∷ record { key = "RouteTable"; value = n.route_table }
      ∷ record { key = "VPC"; value = n.vpc }
      ∷ []

  unfoldable pub with_connection : Peering → String → List String → Peering
  with_connection n connection addresses = record n {
    status = some (record { vpn_connection = connection; outside_ip_addresses = addresses });
  }

  -- CreateOrUpdate after the stack is deployed.
  unfoldable pub connect :
      Config
      → Peering
      → Result (AwsError A) (Map String String) × W
      → Result (AwsFailure E P A) Peering × W
  unfolding with_connection output outside_ip_addresses Stacks.get_vpn_connection
  connect cfg n (err e, w) = (err (stack_failed e), w)
  connect cfg n (ok outputs, w) =
      let (r, w') = Stacks.get_vpn_connection aws cfg (output outputs "VPNConnection") w in
      (
        map_err stack_failed (r >>= outside_ip_addresses)
            >>= (λ addresses. ok (with_connection n (output outputs "VPNConnection") addresses)),
        w',
      )

  unfoldable pub deploy : Peering → Result A Config × W → Result (AwsFailure E P A) Peering × W
  unfolding parameters connect Stacks.deploy
  deploy n (err e, w) = (err (configuring e), w)
  deploy n (ok cfg, w) =
      connect cfg n
        (Stacks.deploy aws cfg (peering_stack n.id) machine.peering_template (parameters n) w)

  -- CreateOrUpdate between unpacking and packing the peering.
  unfoldable pub apply : Peering → W → Result (AwsFailure E P A) Peering × W
  unfolding deploy
  apply n w = deploy n (aws.load_default_config n.region w)

  unfoldable pub delete_stack :
      Peering → Result A Config × W → Result (AwsFailure E P A) (Unit {0}) × W
  unfolding Stacks.delete
  delete_stack n (err e, w) = (err (configuring e), w)
  delete_stack n (ok cfg, w) =
      let (r, w') = Stacks.delete aws cfg (peering_stack n.id) w in
      (map_err (λ e. stack_failed (api e)) r, w')

  -- Delete of a peering that the database has.
  unfoldable pub remove : Peering → W → Result (AwsFailure E P A) (Unit {0}) × W
  unfolding delete_stack
  remove n w = delete_stack n (aws.load_default_config n.region w)

-- Redact, which clears the pre-shared key
unfoldable pub redact : Peering → Peering
redact n = record n { pre_shared_key = "" }

module _ {M O Any Bytes E P Config A World W : Type 0} (p : Proto M O Any Bytes P)
    (kind : Kind M O Peering) (store : Store Bytes P World) (aws : Aws Config A W)
    (machine : Machine E) where
  unfoldable pub server : Backend Any (AwsFailure E P A) W World
  unfolding serve serve_delete apply remove
  server = record {
    create_or_update = λ item world w. serve p kind (apply E P aws machine) item w;
    list = λ id world w. (err unimplemented, w);
    get = λ id world w. (err unimplemented, w);
    delete =
        λ id world w. serve_delete p kind (remove E P aws machine) (Db.get p store id world).0 w;
  }
