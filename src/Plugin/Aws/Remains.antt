-- ===== src/Plugin/Aws/Remains.antt =====
-- A stack of AWS is as CreateOrUpdate has made it while other objects come and go.
use mathlib.Core.Path.{subst}
use aks_flex.Common.{
  ◌≡◌, ◌≢◌, refl, pair, sym, ap, ◌∙◌, inl, inr, some, List, [], ◌∷◌, String, Result, ok, err, ◌>>=◌,
  map_err, All, Result-cases, >>=-eq-ok, map_err-eq-ok, err≢ok, ok_unique,
}
use aks_flex.Common.Assoc.{Map}
use aks_flex.Plugin.Stacks.{Parameter, Aws, AwsError}
use aks_flex.Plugin.Stacks as Stacks
use aks_flex.Plugin.Stacks.Kept.{AwsLaws}
use aks_flex.Plugin.Stacks.Deployed.{deploy-Deployed}
use aks_flex.Plugin.Aws.{
  VpcNetwork, Peering, UbuntuPool, AwsFailure, Machine, output, stack_failed, network_stack,
  peering_stack, agent_pool_stack,
}
use aks_flex.Plugin.Aws.Names.{Identity, stack_name, stack_name_injective}
use aks_flex.Plugin.Aws.Networks as Networks
use aks_flex.Plugin.Aws.Peerings as Peerings
use aks_flex.Plugin.Aws.Peerings.{outside_ip_addresses}
use aks_flex.Plugin.Aws.AgentPools as AgentPools
use aks_flex.Plugin.Aws.Stays.{call-kept}
use aks_flex.Plugin.Aws.History.{
  Object, vpc_network, vpn_peering, ubuntu_pool, identity, region, Call, object, apply_object,
  wanted, run_call, run,
}

module _ {Config A W : Type 0} {aws : Aws Config A W} (E P : Type 0) (laws : AwsLaws aws)
    (machine : Machine E) (cfg : Config) where
  open laws use {look}

  network-Deployed :
      (n : VpcNetwork) (w : W) (made : VpcNetwork)
      → (Networks.deploy E P aws machine n (ok cfg, w)).0 ≡ ok made
      → (look cfg (network_stack n.id) (Networks.deploy E P aws machine n (ok cfg, w)).1
          ≡ some (machine.network_template, Networks.parameters E P aws machine n))
        × (made.id ≡ n.id)
        × (made.region ≡ n.region)
  unfolding Networks.deploy Networks.with_outputs
  network-Deployed n w made done =
      let r =
        Stacks.deploy aws cfg (network_stack n.id) machine.network_template
          (Networks.parameters E P aws machine n) w in
      let (outputs, q, last) =
        >>=-eq-ok (map_err {F = AwsFailure E P A} stack_failed r.0)
          (λ outputs. ok (Networks.with_outputs E P aws machine n outputs)) done in
      (
        deploy-Deployed laws cfg (network_stack n.id) machine.network_template
            (Networks.parameters E P aws machine n) w outputs
            (map_err-eq-ok stack_failed r.0 outputs q),
        ap (λ m. m.id) (sym (ok_unique refl last)),
        ap (λ m. m.region) (sym (ok_unique refl last)),
      )

  connect-Kept :
      (n : Peering) (r : Result (AwsError A) (Map String String)) (w : W) (made : Peering)
      → (Peerings.connect E P aws machine cfg n (r, w)).0 ≡ ok made
      → (outputs : Map String String) × (r ≡ ok outputs)
        × (look cfg (peering_stack n.id) (Peerings.connect E P aws machine cfg n (r, w)).1
            ≡ look cfg (peering_stack n.id) w)
        × (made.id ≡ n.id)
        × (made.region ≡ n.region)
  unfolding Peerings.connect Peerings.with_connection Stacks.get_vpn_connection
  connect-Kept n (err e) w made done = absurd (err≢ok done)
  connect-Kept n (ok outputs) w made done =
      let connection = output outputs "VPNConnection" in
      let r = Stacks.get_vpn_connection aws cfg connection w in
      let (addresses, q, last) =
        >>=-eq-ok (map_err {F = AwsFailure E P A} stack_failed (r.0 >>= outside_ip_addresses))
          (λ found. ok (Peerings.with_connection E P aws machine n connection found)) done in
      (
        outputs,
        refl,
        laws.connections_apart cfg cfg _ (peering_stack n.id) w,
        ap (λ m. m.id) (sym (ok_unique refl last)),
        ap (λ m. m.region) (sym (ok_unique refl last)),
      )

  peering-Deployed :
      (n : Peering) (w : W) (made : Peering)
      → (Peerings.deploy E P aws machine n (ok cfg, w)).0 ≡ ok made
      → (look cfg (peering_stack n.id) (Peerings.deploy E P aws machine n (ok cfg, w)).1
          ≡ some (machine.peering_template, Peerings.parameters E P aws machine n))
        × (made.id ≡ n.id)
        × (made.region ≡ n.region)
  unfolding Peerings.deploy
  peering-Deployed n w made done =
      let r =
        Stacks.deploy aws cfg (peering_stack n.id) machine.peering_template
          (Peerings.parameters E P aws machine n) w in
      let (outputs, q, kept, id, place) = connect-Kept n r.0 r.1 made done in
      (
        kept
            ∙ deploy-Deployed laws cfg (peering_stack n.id) machine.peering_template
                (Peerings.parameters E P aws machine n) w outputs q,
        id,
        place,
      )

  pool-Deployed :
      (pool : UbuntuPool) (w : W) (made : UbuntuPool)
      → (AgentPools.deploy P aws machine pool (ok cfg, w)).0 ≡ ok made
      → (ps : List Parameter) × (AgentPools.parameters P aws machine pool ≡ ok ps)
        × (look cfg (agent_pool_stack pool.id) (AgentPools.deploy P aws machine pool (ok cfg, w)).1
            ≡ some (machine.agent_pool_template, ps))
        × (made.id ≡ pool.id)
        × (made.region ≡ pool.region)
  unfolding AgentPools.deploy AgentPools.with_instance
  pool-Deployed pool w made done = elim (Result-cases (AgentPools.parameters P aws machine pool)) [
    | inr (e, q) ↦ absurd (err≢ok (rw (q, AgentPools.deploy) at done))
    | inl (ps, q) ↦
        let r = Stacks.deploy aws cfg (agent_pool_stack pool.id) machine.agent_pool_template ps w in
        let (outputs, k, last) =
          >>=-eq-ok (map_err {F = AwsFailure E P A} stack_failed r.0)
            (λ outputs. ok (AgentPools.with_instance P aws machine pool outputs))
            (rw (q, AgentPools.deploy) at done) in
        (
          ps,
          q,
          rw (q, AgentPools.deploy)
              (deploy-Deployed laws cfg (agent_pool_stack pool.id) machine.agent_pool_template ps w
                outputs (map_err-eq-ok stack_failed r.0 outputs k)),
          ap (λ m. m.id) (sym (ok_unique refl last)),
          ap (λ m. m.region) (sym (ok_unique refl last)),
        )
  ]

  -- What a call that starts with this configuration leaves.
  Applied : Object → Result (AwsFailure E P A) Object × W → Type 0
  Applied o (r, w) =
      (made : Object)
      → r ≡ ok made
      → (given : String × List Parameter) × (wanted E P aws machine o ≡ ok given)
        × (look cfg (stack_name (identity o)) w ≡ some given)
        × (identity made ≡ identity o)
        × (region made ≡ region o)

  network-Applied :
      (n : VpcNetwork) (w : W)
      → Applied (vpc_network n) (
        (Networks.deploy E P aws machine n (ok cfg, w)).0 >>= (λ made. ok (vpc_network made)),
        (Networks.deploy E P aws machine n (ok cfg, w)).1,
      )
  unfolding Applied wanted
  network-Applied n w made done =
      let (m, q, last) = >>=-eq-ok _ (λ made. ok (vpc_network made)) done in
      let same : made ≡ vpc_network m = sym (ok_unique refl last) in
      let (kept, id, place) = network-Deployed n w m q in
      (
        (machine.network_template, Networks.parameters E P aws machine n),
        refl,
        kept,
        ap identity same ∙ ap Identity.network id,
        ap region same ∙ place,
      )

  peering-Applied :
      (n : Peering) (w : W)
      → Applied (vpn_peering n) (
        (Peerings.deploy E P aws machine n (ok cfg, w)).0 >>= (λ made. ok (vpn_peering made)),
        (Peerings.deploy E P aws machine n (ok cfg, w)).1,
      )
  unfolding Applied wanted
  peering-Applied n w made done =
      let (m, q, last) = >>=-eq-ok _ (λ made. ok (vpn_peering made)) done in
      let same : made ≡ vpn_peering m = sym (ok_unique refl last) in
      let (kept, id, place) = peering-Deployed n w m q in
      (
        (machine.peering_template, Peerings.parameters E P aws machine n),
        refl,
        kept,
        ap identity same ∙ ap Identity.peering id,
        ap region same ∙ place,
      )

  pool-Applied :
      (pool : UbuntuPool) (w : W)
      → Applied (ubuntu_pool pool) (
        (AgentPools.deploy P aws machine (AgentPools.label_node P aws machine pool) (ok cfg, w)).0
            >>= (λ made. ok (ubuntu_pool made)),
        (AgentPools.deploy P aws machine (AgentPools.label_node P aws machine pool) (ok cfg, w)).1,
      )
  unfolding Applied wanted
  pool-Applied pool w made done =
      let (m, q, last) = >>=-eq-ok _ (λ made. ok (ubuntu_pool made)) done in
      let same : made ≡ ubuntu_pool m = sym (ok_unique refl last) in
      let (ps, given, kept, id, place) =
        pool-Deployed (AgentPools.label_node P aws machine pool) w m q in
      (
        (machine.agent_pool_template, ps),
        ap (λ r. r >>= (λ ps. ok (machine.agent_pool_template, ps))) given,
        kept,
        ap identity same ∙ ap Identity.agent_pool id,
        ap region same ∙ place,
      )

  apply_object-Applied :
      (o : Object) (w : W)
      → (aws.load_default_config (region o) w).0 ≡ ok cfg
      → Applied o (apply_object E P aws machine o w)
  unfolding apply_object
  apply_object-Applied (vpc_network n) w loaded =
      let v = aws.load_default_config n.region w in
      subst
        (λ x. Applied (vpc_network n) (
          (Networks.deploy E P aws machine n x).0 >>= (λ made. ok (vpc_network made)),
          (Networks.deploy E P aws machine n x).1,
        ))
        (sym (pair {p = v} loaded refl)) (network-Applied n v.1)
  apply_object-Applied (vpn_peering n) w loaded =
      let v = aws.load_default_config n.region w in
      subst
        (λ x. Applied (vpn_peering n) (
          (Peerings.deploy E P aws machine n x).0 >>= (λ made. ok (vpn_peering made)),
          (Peerings.deploy E P aws machine n x).1,
        ))
        (sym (pair {p = v} loaded refl)) (peering-Applied n v.1)
  apply_object-Applied (ubuntu_pool pool) w loaded =
      let v = aws.load_default_config pool.region w in
      let labelled = AgentPools.label_node P aws machine pool in
      subst
        (λ x. Applied (ubuntu_pool pool) (
          (AgentPools.deploy P aws machine labelled x).0 >>= (λ made. ok (ubuntu_pool made)),
          (AgentPools.deploy P aws machine labelled x).1,
        ))
        (sym (pair {p = v} loaded refl)) (pool-Applied pool v.1)

  -- The calls are for objects of other types or other IDs.
  abbrev pub Others : Object → List Call → Type 0
  Others o = All (λ c. identity o ≢ identity (object c))

  run-kept :
      (o : Object) (cs : List Call) (w : W)
      → Others o cs
      → look cfg (stack_name (identity o)) (run E P aws machine cs w)
        ≡ look cfg (stack_name (identity o)) w
  unfolding run
  run-kept o [] w apart = refl
  run-kept o (c ∷ cs) w (d, ds) =
      run-kept o cs (run_call E P aws machine c w) ds
      ∙ call-kept E P laws machine cfg (stack_name (identity o)) c w
          (λ e. d (stack_name_injective (identity o) (identity (object c)) e))

  -- The stack of an object that was applied, after other calls.
  abbrev pub Remains : Object → Object → W → Type 0
  Remains o made w =
      (given : String × List Parameter) × (wanted E P aws machine o ≡ ok given)
      × (look cfg (stack_name (identity o)) w ≡ some given)
      × (identity made ≡ identity o)
      × (region made ≡ region o)

  -- When CreateOrUpdate of a network, a peering or an agent pool of AWS has succeeded, its stack
  -- has the template and the parameters that the object asks for, and keeps them through any
  -- calls of CreateOrUpdate and Delete for objects of other types or other IDs, whatever these
  -- return. The returned object has the ID and the region under which Delete asks for that stack.
  -- CloudFormation keeps its laws.
  pub apply_object-Remains :
      (o made : Object) (w : W) (cs : List Call)
      → (aws.load_default_config (region o) w).0 ≡ ok cfg
      → (apply_object E P aws machine o w).0 ≡ ok made
      → Others o cs
      → Remains o made (run E P aws machine cs (apply_object E P aws machine o w).1)
  unfolding Applied
  apply_object-Remains o made w cs loaded done apart =
      let (given, want, kept, id, place) = apply_object-Applied o w loaded made done in
      (given, want, run-kept o cs (apply_object E P aws machine o w).1 apart ∙ kept, id, place)
