-- ===== src/Plugin/Aws/Stays.antt =====
-- Stacks of AWS stay as they were deployed while other objects come and go.
use aks_flex.Common.{◌≡◌, ◌≢◌, refl, ◌∙◌, inl, inr, String, Result, ok, err, Result-cases}
use aks_flex.Common.Assoc.{Map}
use aks_flex.Plugin.Stacks.{Parameter, Aws, AwsError}
use aks_flex.Plugin.Stacks as Stacks
use aks_flex.Plugin.Stacks.Kept.{AwsLaws, deploy-kept, delete-kept}
use aks_flex.Plugin.Aws.{
  VpcNetwork, Peering, UbuntuPool, Machine, network_stack, peering_stack, agent_pool_stack,
}
use aks_flex.Plugin.Aws.Names.{stack_name}
use aks_flex.Plugin.Aws.Networks as Networks
use aks_flex.Plugin.Aws.Peerings as Peerings
use aks_flex.Plugin.Aws.AgentPools as AgentPools
use aks_flex.Plugin.Aws.History.{
  vpc_network, vpn_peering, ubuntu_pool, identity, Call, apply, remove, object, run_call,
}

module _ {Config A W : Type 0} {aws : Aws Config A W} (E P : Type 0) (laws : AwsLaws aws)
    (machine : Machine E) (cfg : Config) (other : String) where
  open laws use {look}

  network-kept :
      (n : VpcNetwork) (r : Result A Config) (w : W)
      → other ≢ network_stack n.id
      → (look cfg other (Networks.deploy E P aws machine n (r, w)).1 ≡ look cfg other w)
        × (look cfg other (Networks.delete_stack E P aws machine n (r, w)).1 ≡ look cfg other w)
  unfolding Networks.deploy Networks.delete_stack
  network-kept n (err e) w apart = (refl, refl)
  network-kept n (ok c) w apart = (
    deploy-kept laws c cfg (network_stack n.id) other machine.network_template
        (Networks.parameters E P aws machine n) apart w,
    delete-kept laws c cfg (network_stack n.id) other w apart,
  )

  connect-kept :
      (c : Config) (n : Peering) (r : Result (AwsError A) (Map String String)) (w : W)
      → look cfg other (Peerings.connect E P aws machine c n (r, w)).1 ≡ look cfg other w
  unfolding Peerings.connect Stacks.get_vpn_connection
  connect-kept c n (err e) w = refl
  connect-kept c n (ok outputs) w = laws.connections_apart c cfg _ other w

  peering-kept :
      (n : Peering) (r : Result A Config) (w : W)
      → other ≢ peering_stack n.id
      → (look cfg other (Peerings.deploy E P aws machine n (r, w)).1 ≡ look cfg other w)
        × (look cfg other (Peerings.delete_stack E P aws machine n (r, w)).1 ≡ look cfg other w)
  unfolding Peerings.deploy Peerings.delete_stack
  peering-kept n (err e) w apart = (refl, refl)
  peering-kept n (ok c) w apart =
      let deployed =
        Stacks.deploy aws c (peering_stack n.id) machine.peering_template
          (Peerings.parameters E P aws machine n) w in
      (
        connect-kept c n deployed.0 deployed.1
            ∙ deploy-kept laws c cfg (peering_stack n.id) other machine.peering_template
                (Peerings.parameters E P aws machine n) apart w,
        delete-kept laws c cfg (peering_stack n.id) other w apart,
      )

  pool-kept :
      (pool : UbuntuPool) (r : Result A Config) (w : W)
      → other ≢ agent_pool_stack pool.id
      → (look cfg other (AgentPools.deploy P aws machine pool (r, w)).1 ≡ look cfg other w)
        × (look cfg other (AgentPools.delete_stack P aws machine pool (r, w)).1 ≡ look cfg other w)
  unfolding AgentPools.deploy AgentPools.delete_stack
  pool-kept pool (err e) w apart = (refl, refl)
  pool-kept pool (ok c) w apart = (
    elim (Result-cases (AgentPools.parameters P aws machine pool)) [
      | inl (ps, q) ↦
          rw (q, AgentPools.deploy)
            (deploy-kept laws c cfg (agent_pool_stack pool.id) other machine.agent_pool_template ps
              apart w)
      | inr (e, q) ↦ rw (q, AgentPools.deploy) refl
    ],
    delete-kept laws c cfg (agent_pool_stack pool.id) other w apart,
  )

  pub call-kept :
      (c : Call) (w : W)
      → other ≢ stack_name (identity (object c))
      → look cfg other (run_call E P aws machine c w) ≡ look cfg other w
  unfolding run_call
  call-kept (apply (vpc_network n)) w apart =
      let r = aws.load_default_config n.region w in
      (network-kept n r.0 r.1 apart).0 ∙ laws.load_apart n.region cfg other w
  call-kept (apply (vpn_peering n)) w apart =
      let r = aws.load_default_config n.region w in
      (peering-kept n r.0 r.1 apart).0 ∙ laws.load_apart n.region cfg other w
  call-kept (apply (ubuntu_pool pool)) w apart =
      let r = aws.load_default_config pool.region w in
      (pool-kept (AgentPools.label_node P aws machine pool) r.0 r.1 apart).0
      ∙ laws.load_apart pool.region cfg other w
  call-kept (remove (vpc_network n)) w apart =
      let r = aws.load_default_config n.region w in
      (network-kept n r.0 r.1 apart).1 ∙ laws.load_apart n.region cfg other w
  call-kept (remove (vpn_peering n)) w apart =
      let r = aws.load_default_config n.region w in
      (peering-kept n r.0 r.1 apart).1 ∙ laws.load_apart n.region cfg other w
  call-kept (remove (ubuntu_pool pool)) w apart =
      let r = aws.load_default_config pool.region w in
      (pool-kept pool r.0 r.1 apart).1 ∙ laws.load_apart pool.region cfg other w
