-- ===== src/Plugin/Aws/Tests.antt =====
-- A network that stays while a peering and an agent pool of the same ID are deployed and deleted.
use aks_flex.Common.{refl, none, some, List, [], ◌∷◌, String, string_eq}
use aks_flex.Common.Assoc.{lookup, insert}
use aks_flex.Plugin.Stacks as Stacks
use aks_flex.Plugin.Aws.{VpcNetwork, Peering, output}
use aks_flex.Plugin.Aws.Networks as Networks
use aks_flex.Plugin.Aws.Fixture.{Missing, fake_aws, fake_laws, machine}
use aks_flex.Plugin.Aws.History.{vpc_network, vpn_peering, Call, apply, remove, apply_object, run}
use aks_flex.Plugin.Aws.Remains.{Remains, apply_object-Remains}

abbrev network : VpcNetwork
network = record { id = "a"; region = "us-east-2"; cidr_block = "10.0.0.0/16"; status = none }

abbrev made : VpcNetwork
made = record network {
  status = some (record { vpc = "vpc-1"; subnet = ""; route_table = ""; security_group = "" });
}

abbrev peering : Peering
peering = record {
  id = "a";
  region = "us-east-2";
  vpc = "vpc-1";
  route_table = "rtb-1";
  pre_shared_key = "secret";
  remote_ip = "4.3.2.1";
  status = none;
}

abbrev calls : List Call
calls = apply (vpn_peering peering) ∷ remove (vpn_peering peering) ∷ []

apply_object-Remains_example :
    Remains Missing String fake_laws machine "us-east-2" (vpc_network network) (vpc_network made) (
      run Missing String fake_aws machine calls
        (apply_object Missing String fake_aws machine (vpc_network network) []).1)
unfolding apply_object Networks.apply Networks.deploy Stacks.deploy Stacks.create_or_update
    Stacks.create Stacks.wait_for Stacks.outputs_of Stacks.get_stack Stacks.collect
    Networks.with_outputs output lookup insert
apply_object-Remains_example =
    apply_object-Remains Missing String fake_laws machine "us-east-2" (vpc_network network)
      (vpc_network made) [] calls refl refl ((λ e. cc), ((λ e. cc), tt))
