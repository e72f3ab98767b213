-- ===== src/Plugin/Aws.antt =====
-- The back-ends for AWS: networks (plugin/pkg/services/networks/aws/vpc), peerings
-- (services/peerings/aws/ipsecvpn), agent pools and their instances
-- (services/agentpools/aws/ubuntu2404instance). Each keeps an object as a stack of CloudFormation.
-- This file has the objects, the failures and what they take from elsewhere.
pub mod Networks
pub mod Peerings
pub mod AgentPools
pub mod Instances
pub mod Names
pub mod History
pub mod Stays
pub mod Remains
pub mod Fixture
mod Tests
use Prim.Native.String.{◌++◌ as concat}
use aks_flex.Common.{
  Bool, Option, none, some, List, String, Result, ok, err, ◌>>=◌, or_err, map_err,
}
use aks_flex.Common.Assoc.{Map, lookup}
use aks_flex.Common.{string_eq}
use aks_flex.Nebius.{KubeadmConfig}
use aks_flex.Plugin.CloudInit.{UserData}
use aks_flex.Plugin.Ubuntu.{Encoders}
use aks_flex.Plugin.Stacks.{AwsError}
use aks_flex.Plugin.{Proto}
use aks_flex.Plugin.Db.{AnyError, Panic, unmarshalling, type_mismatch}

-- vpc.NetworkStatus and vpc.Network
pub record VpcStatus : Type 0 where
  pub vpc : String
  pub subnet : String
  pub route_table : String
  pub security_group : String

pub record VpcNetwork : Type 0 where
  pub id : String
  pub region : String
  pub cidr_block : String
  pub status : Option VpcStatus

-- ipsecvpn.PeeringStatus and ipsecvpn.Peering
pub record PeeringStatus : Type 0 where
  pub vpn_connection : String
  pub outside_ip_addresses : List String

pub record Peering : Type 0 where
  pub id : String
  pub region : String
  pub vpc : String
  pub route_table : String
  pub pre_shared_key : String
  pub remote_ip : String
  pub status : Option PeeringStatus

-- ubuntu2404instance.AgentPool; the status is the instance's ID
pub record UbuntuPool : Type 0 where
  pub id : String
  pub region : String
  pub subnet : String
  pub security_group : String
  pub kubeadm : KubeadmConfig
  pub status : Option String

-- One type of object among the messages and the objects.
pub record Kind (M O T : Type 0) : Type 0 where
  pub of_message : M → Option T
  pub of_object : O → Option T
  pub to_object : T → O

-- What a handler fails with: `E` is an error of an encoder, `P` of the protobuf package, `A` of AWS.
pub data AwsFailure (E P A : Type 0) : Type 0 where
  unpacking : AnyError P → AwsFailure E P A
  configuring : A → AwsFailure E P A
  -- "public key not found"
  no_public_key : AwsFailure E P A
  generating : E → AwsFailure E P A
  stack_failed : AwsError A → AwsFailure E P A
  rebooting : A → AwsFailure E P A
  packing : P → AwsFailure E P A
  database : Panic P → AwsFailure E P A
  not_found : AwsFailure E P A
  -- a panic: the part of an ID that is not there is read
  id_out_of_range : AwsFailure E P A
  unimplemented : AwsFailure E P A

-- The embedded templates, strings.ToLower, the user's files by their paths below HOME, and what
-- makes the user data of an instance a parameter.
pub record Machine (E : Type 0) : Type 0 where
  pub network_template : String
  pub peering_template : String
  pub agent_pool_template : String
  pub to_lower : String → String
  pub read_file : String → Option String
  pub encoders : Encoders E
  pub yaml_marshal : UserData → Result E String
  pub compress : String → Result E String
  pub encode_base64 : String → String

-- `outputs[key]`, which is empty for a missing key
unfoldable pub output : Map String String → String → String
unfolding lookup
output outputs key = elim (lookup key outputs) [ none ↦ "" | some v ↦ v ]

-- The names of the stacks.
abbrev pub network_stack : String → String
network_stack id = concat "network-" id

abbrev pub peering_stack : String → String
peering_stack id = concat "peering-" id

abbrev pub agent_pool_stack : String → String
agent_pool_stack id = concat "agentpool-" id

module _ {M O Any Bytes P T : Type 0} (p : Proto M O Any Bytes P) (kind : Kind M O T) where
  -- helper.AnyTo and helper.To for the type
  unfoldable pub any_to : Any → Result (AnyError P) T
  any_to item =
      map_err unmarshalling (p.unmarshal_new item)
      >>= (λ m. or_err (kind.of_message m) type_mismatch)

  -- A CreateOrUpdate around what it does with the unpacked object.
  unfoldable pub serve :
      {E A W : Type 0}
      → (T → W → Result (AwsFailure E P A) T × W)
      → Any
      → W
      → Result (AwsFailure E P A) Any × W
  unfolding any_to
  serve apply item w = elim (any_to item) [
    | err e ↦ (err (unpacking e), w)
    | ok o ↦
        let (r, w') = apply o w in
        (r >>= (λ made. map_err packing (p.new_any (kind.to_object made))), w')
  ]

  -- A Delete after the database has been asked, around what it does with the object.
  unfoldable pub serve_delete :
      {E A W : Type 0}
      → (T → W → Result (AwsFailure E P A) (Unit {0}) × W)
      → Result (Panic P) (Option O)
      → W
      → Result (AwsFailure E P A) (Unit {0}) × W
  serve_delete remove (err e) w = (err (database e), w)
  serve_delete remove (ok none) w = (ok tt, w)
  serve_delete remove (ok (some obj)) w =
      elim (or_err {E = AnyError P} (kind.of_object obj) type_mismatch) [
        | err e ↦ (err (unpacking e), w)
        | ok o ↦ remove o w
      ]
