-- ===== src/Plugin/Aws/History.antt =====
-- Sequences of what the back-ends for AWS do with the cloud.
use aks_flex.Common.{List, [], ◌∷◌, String, Result, ok, ◌>>=◌}
use aks_flex.Plugin.Stacks.{Parameter, Aws}
use aks_flex.Plugin.Aws.{VpcNetwork, Peering, UbuntuPool, AwsFailure, Machine}
use aks_flex.Plugin.Aws.Names.{Identity}
use aks_flex.Plugin.Aws.Networks as Networks
use aks_flex.Plugin.Aws.Peerings as Peerings
use aks_flex.Plugin.Aws.AgentPools as AgentPools

-- What the three back-ends keep as stacks.
pub data Object : Type 0 where
  vpc_network : VpcNetwork → Object
  vpn_peering : Peering → Object
  ubuntu_pool : UbuntuPool → Object

abbrev pub identity : Object → Identity
identity (vpc_network n) = Identity.network n.id
identity (vpn_peering n) = Identity.peering n.id
identity (ubuntu_pool pool) = Identity.agent_pool pool.id

abbrev pub region : Object → String
region (vpc_network n) = n.region
region (vpn_peering n) = n.region
region (ubuntu_pool pool) = pool.region

pub data Call : Type 0 where
  apply : Object → Call
  remove : Object → Call

abbrev pub object : Call → Object
object (apply o) = o
object (remove o) = o

module _ {Config A W : Type 0} (E P : Type 0) (aws : Aws Config A W) (machine : Machine E) where
  -- CreateOrUpdate and Delete of the object's back-end.
  unfoldable pub apply_object : Object → W → Result (AwsFailure E P A) Object × W
  unfolding Networks.apply Peerings.apply AgentPools.apply
  apply_object (vpc_network n) w =
      let (r, w') = Networks.apply E P aws machine n w in
      (r >>= (λ made. ok (vpc_network made)), w')
  apply_object (vpn_peering n) w =
      let (r, w') = Peerings.apply E P aws machine n w in
      (r >>= (λ made. ok (vpn_peering made)), w')
  apply_object (ubuntu_pool pool) w =
      let (r, w') = AgentPools.apply P aws machine pool w in
      (r >>= (λ made. ok (ubuntu_pool made)), w')

  unfoldable pub remove_object : Object → W → Result (AwsFailure E P A) (Unit {0}) × W
  unfolding Networks.remove Peerings.remove AgentPools.remove
  remove_object (vpc_network n) w = Networks.remove E P aws machine n w
  remove_object (vpn_peering n) w = Peerings.remove E P aws machine n w
  remove_object (ubuntu_pool pool) w = AgentPools.remove P aws machine pool w

  -- The template and the parameters that the stack of an object is to have.
  unfoldable pub wanted : Object → Result (AwsFailure E P A) (String × List Parameter)
  unfolding AgentPools.label_node
  wanted (vpc_network n) = ok (machine.network_template, Networks.parameters E P aws machine n)
  wanted (vpn_peering n) = ok (machine.peering_template, Peerings.parameters E P aws machine n)
  wanted (ubuntu_pool pool) =
      AgentPools.parameters P aws machine (AgentPools.label_node P aws machine pool)
      >>= (λ ps. ok (machine.agent_pool_template, ps))

  unfoldable pub run_call : Call → W → W
  unfolding apply_object remove_object
  run_call (apply o) w = (apply_object o w).1
  run_call (remove o) w = (remove_object o w).1

  unfoldable pub run : List Call → W → W
  unfolding run_call
  run [] w = w
  run (c ∷ cs) w = run cs (run_call c w)
