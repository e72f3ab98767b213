-- ===== src/Plugin/Aws/AgentPools.antt =====
-- plugin/pkg/services/agentpools/aws/ubuntu2404instance: agentpools.go with redact.go. Get and List
-- are not implemented there.
use aks_flex.Common.{some, List, [], ◌∷◌, String, Result, ok, err, ◌>>=◌, map_err}
use aks_flex.Common.Assoc.{Map}
use aks_flex.Nebius.{KubeadmConfig}
use aks_flex.Plugin.{Proto, Store}
use aks_flex.Plugin.Db as Db
use aks_flex.Plugin.Server.{Backend}
use aks_flex.Plugin.CloudInit.{gzip}
use aks_flex.Plugin.Ssh.{public_key}
use aks_flex.Plugin.Ubuntu as Ubuntu
use aks_flex.Plugin.AgentPools.{add_node_labels}
use aks_flex.Plugin.Stacks.{Parameter, Aws, AwsError}
use aks_flex.Plugin.Stacks as Stacks
use aks_flex.Plugin.Aws.{
  UbuntuPool, Kind, AwsFailure, configuring, generating, stack_failed, unimplemented, output,
  agent_pool_stack, no_public_key, serve, serve_delete, Machine,
}

-- Redact of a pool's kubeadm configuration, which clears the token
abbrev pub redact_kubeadm : KubeadmConfig → KubeadmConfig
redact_kubeadm config = record config { token = "" }

unfoldable pub redact : UbuntuPool → UbuntuPool
redact ap = record ap { kubeadm = redact_kubeadm ap.kubeadm }

module _ {Config A W : Type 0} {E : Type 0} (P : Type 0) (aws : Aws Config A W)
    (machine : Machine E) where
  -- The kubeadm configuration with the labels that the handler adds, which stays in the agent pool.
  unfoldable pub label_node : UbuntuPool → UbuntuPool
  unfolding add_node_labels
  label_node ap = record ap {
    kubeadm = add_node_labels ap.kubeadm (
        ("aks.azure.com/cloud", "aws")
        ∷ ("aks.azure.com/region", machine.to_lower ap.region)
        ∷ ("aks.azure.com/instance-type", machine.to_lower "m8i.large")
        ∷ []);
  }

  unfoldable pub user_data_content : UbuntuPool → Result (AwsFailure E P A) String
  unfolding gzip Ubuntu.user_data
  user_data_content ap =
      map_err generating (
        Ubuntu.user_data machine.encoders ap.kubeadm >>= gzip machine.yaml_marshal machine.compress)

  unfoldable pub parameters_of : UbuntuPool → String → String → List Parameter
  parameters_of ap ssh_key content =
      record { key = "PublicKeyMaterial"; value = ssh_key }
      ∷ record { key = "SecurityGroup"; value = ap.security_group }
      ∷ record { key = "Subnet"; value = ap.subnet }
      ∷ record { key = "UserData"; value = machine.encode_base64 content }
      ∷ []

  -- What CreateOrUpdate gives to the stack of a labelled agent pool.
  unfoldable pub parameters : UbuntuPool → Result (AwsFailure E P A) (List Parameter)
  unfolding public_key user_data_content parameters_of
  parameters ap =
      public_key no_public_key machine.read_file
      >>= (λ ssh_key. user_data_content ap >>= (λ content. ok (parameters_of ap ssh_key content)))

  unfoldable pub with_instance : UbuntuPool → Map String String → UbuntuPool
  unfolding output
  with_instance ap outputs = record ap { status = some (output outputs "Instance") }

  -- CreateOrUpdate after the configuration is loaded.
  unfoldable pub deploy :
      UbuntuPool → Result A Config × W → Result (AwsFailure E P A) UbuntuPool × W
  unfolding parameters with_instance Stacks.deploy
  deploy ap (err e, w) = (err (configuring e), w)
  deploy ap (ok cfg, w) = elim (parameters ap) [
    | err e ↦ (err e, w)
    | ok ps ↦
        let (r, w') =
          Stacks.deploy aws cfg (agent_pool_stack ap.id) machine.agent_pool_template ps w in
        (map_err stack_failed r >>= (λ outputs. ok (with_instance ap outputs)), w')
  ]

  -- CreateOrUpdate between unpacking and packing the agent pool.
  unfoldable pub apply : UbuntuPool → W → Result (AwsFailure E P A) UbuntuPool × W
  unfolding label_node deploy
  apply ap w = deploy (label_node ap) (aws.load_default_config ap.region w)

  unfoldable pub delete_stack :
      UbuntuPool → Result A Config × W → Result (AwsFailure E P A) (Unit {0}) × W
  unfolding Stacks.delete
  delete_stack ap (err e, w) = (err (configuring e), w)
  delete_stack ap (ok cfg, w) =
      let (r, w') = Stacks.delete aws cfg (agent_pool_stack ap.id) w in
      (map_err (λ e. stack_failed (Stacks.api e)) r, w')

  -- Delete of an agent pool that the database has.
  unfoldable pub remove : UbuntuPool → W → Result (AwsFailure E P A) (Unit {0}) × W
  unfolding delete_stack
  remove ap w = delete_stack ap (aws.load_default_config ap.region w)

module _ {M O Any Bytes E P Config A World W : Type 0} (p : Proto M O Any Bytes P)
    (kind : Kind M O UbuntuPool) (store : Store Bytes P World) (aws : Aws Config A W)
    (machine : Machine E) where
  unfoldable pub server : Backend Any (AwsFailure E P A) W World
  unfolding serve serve_delete apply remove
  server = record {
    create_or_update = λ item world w. serve p kind (apply P aws machine) item w;
    list = λ id world w. (err unimplemented, w);
    get = λ id world w. (err unimplemented, w);
    delete = λ id world w. serve_delete p kind (remove P aws machine) (Db.get p store id world).0 w;
  }
