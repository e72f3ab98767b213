-- ===== src/Plugin/Stacks.antt =====
-- plugin/pkg/util/aws: cloudformation.go with aws.go, and ec2.go. A client is given by the
-- configuration that it is made from. Which template a stack has and what parameters it was given is
-- not asked by the program, and is what the laws speak of.
pub mod Kept
pub mod Deployed
use aks_flex.Common.{
  ◌≡◌, ◌≢◌, Bool, true, false, Option, none, some, List, [], ◌∷◌, String, Result, ok, err, ◌>>=◌,
  or_err, map_err, string_eq, if◌then◌else◌,
}
use aks_flex.Common.Assoc.{Map, insert}

-- types.Parameter, and types.Output, whose fields are pointers
pub record Parameter : Type 0 where
  pub key : String
  pub value : String

pub record Output : Type 0 where
  pub output_key : Option String
  pub output_value : Option String

-- The clients of CloudFormation and EC2: `Config` is an aws.Config, `A` an error of theirs, `W` what
-- they change. A stack is described by its outputs, a connection by the outside addresses of its
-- tunnels.
pub record Aws (Config A W : Type 0) : Type 0 where
  pub load_default_config : String → W → Result A Config × W
  pub describe_stacks : Config → String → W → Result A (List (List Output)) × W
  pub create_stack : Config → String → String → List Parameter → W → Result A (Unit {0}) × W
  pub wait_created : Config → String → W → Result A (Unit {0}) × W
  pub update_stack : Config → String → String → List Parameter → W → Result A (Unit {0}) × W
  pub wait_updated : Config → String → W → Result A (Unit {0}) × W
  pub delete_stack : Config → String → W → Result A (Unit {0}) × W
  pub wait_deleted : Config → String → W → Result A (Unit {0}) × W
  pub describe_vpn_connections : Config → String → W → Result A (List (List (Option String))) × W
  pub reboot_instances : Config → List String → W → Result A (Unit {0}) × W
  -- isErrorCode(err, "ValidationError"), and isErrorMessage of "No updates are to be performed."
  pub is_validation_error : A → Bool
  pub is_no_updates : A → Bool

-- An error of a call, an index out of range, or a nil pointer that is read.
pub data AwsError (A : Type 0) : Type 0 where
  api : A → AwsError A
  index_out_of_range : AwsError A
  nil_dereference : AwsError A

-- aws.ToString
abbrev pub to_string : Option String → String
to_string none = ""
to_string (some s) = s

-- The loop over the outputs of a stack.
unfoldable pub collect : Map String String → List Output → Map String String
collect outputs [] = outputs
collect outputs (o ∷ os) =
    collect (insert (to_string o.output_key) (to_string o.output_value) outputs) os

abbrev pub first : {A B : Type 0} → List B → Result (AwsError A) B
first [] = err index_out_of_range
first (x ∷ xs) = ok x

module _ {Config A W : Type 0} (aws : Aws Config A W) where
  unfoldable pub get_stack : Config → String → W → Result (AwsError A) (Map String String) × W
  unfolding collect
  get_stack cfg name w =
      let (r, w') = aws.describe_stacks cfg name w in
      (map_err api r >>= first >>= (λ stack. ok (collect [] stack)), w')

  -- A wait, once the call before it has succeeded.
  unfoldable pub wait_for :
      (W → Result A (Unit {0}) × W) → Result A (Unit {0}) × W → Result A (Unit {0}) × W
  wait_for wait (err e, w) = (err e, w)
  wait_for wait (ok _, w) = wait w

  unfoldable pub create : Config → String → String → List Parameter → W → Result A (Unit {0}) × W
  unfolding wait_for
  create cfg name template parameters w =
      wait_for (aws.wait_created cfg name) (aws.create_stack cfg name template parameters w)

  unfoldable pub wait_unless_current :
      (W → Result A (Unit {0}) × W) → Result A (Unit {0}) × W → Result A (Unit {0}) × W
  wait_unless_current wait (err e, w) = if aws.is_no_updates e then (ok tt, w) else (err e, w)
  wait_unless_current wait (ok _, w) = wait w

  unfoldable pub update : Config → String → String → List Parameter → W → Result A (Unit {0}) × W
  unfolding wait_unless_current
  update cfg name template parameters w =
      wait_unless_current (aws.wait_updated cfg name)
        (aws.update_stack cfg name template parameters w)

  -- The switch of Deploy on the answer of DescribeStacks.
  unfoldable pub create_or_update :
      Config
      → String
      → String
      → List Parameter
      → Result A (List (List Output)) × W
      → Result A (Unit {0}) × W
  unfolding create update
  create_or_update cfg name template parameters (ok _, w) = update cfg name template parameters w
  create_or_update cfg name template parameters (err e, w) =
      if aws.is_validation_error e then create cfg name template parameters w else (err e, w)

  unfoldable pub outputs_of :
      Config → String → Result A (Unit {0}) × W → Result (AwsError A) (Map String String) × W
  unfolding get_stack
  outputs_of cfg name (err e, w) = (err (api e), w)
  outputs_of cfg name (ok _, w) = get_stack cfg name w

  unfoldable pub deploy :
      Config → String → String → List Parameter → W → Result (AwsError A) (Map String String) × W
  unfolding create_or_update outputs_of
  deploy cfg name template parameters w =
      outputs_of cfg name
        (create_or_update cfg name template parameters (aws.describe_stacks cfg name w))

  unfoldable pub delete : Config → String → W → Result A (Unit {0}) × W
  unfolding wait_for
  delete cfg name w = wait_for (aws.wait_deleted cfg name) (aws.delete_stack cfg name w)

  -- GetVpnConnection
  unfoldable pub get_vpn_connection :
      Config → String → W → Result (AwsError A) (List (Option String)) × W
  get_vpn_connection cfg id w =
      let (r, w') = aws.describe_vpn_connections cfg id w in (map_err api r >>= first, w')
