-- ===== src/Plugin/Aws/Fixture.antt =====
-- A cloud of one region whose stacks are a map from their names, for tests.
use aks_flex.Common.{
  ◌≡◌, ◌≢◌, refl, sym, ap, ◌∙◌, true, false, Option, none, some, List, [], ◌∷◌, String, Result, ok,
  err, string_eq, ==_ne, ==_refl, if◌then◌else◌, err≢ok,
}
use aks_flex.Common.Assoc.{Map, lookup, insert, delete, lookup-insert, lookup-delete}
use aks_flex.Plugin.Stacks.{Parameter, Output, Aws}
use aks_flex.Plugin.Stacks.Kept.{AwsLaws}
use aks_flex.Plugin.Aws.{Machine}

abbrev pub Cloud : Type 0
Cloud = Map String (String × List Parameter)

pub data Missing : Type 0 where
  missing : Missing

abbrev pub described : Option (String × List Parameter) → Result Missing (List (List Output))
described none = err missing
described (some s) =
    ok ((record { output_key = some "VPC"; output_value = some "vpc-1" } ∷ []) ∷ [])

abbrev pub fake_aws : Aws String Missing Cloud
fake_aws = record {
  load_default_config = λ region w. (ok region, w);
  describe_stacks = λ cfg name w. (described (lookup name w), w);
  create_stack = λ cfg name t ps w. (ok tt, insert name (t, ps) w);
  wait_created = λ cfg name w. (ok tt, w);
  update_stack = λ cfg name t ps w. (ok tt, insert name (t, ps) w);
  wait_updated = λ cfg name w. (ok tt, w);
  delete_stack = λ cfg name w. (ok tt, delete name w);
  wait_deleted = λ cfg name w. (ok tt, w);
  describe_vpn_connections = λ cfg id w. (ok ((some "1.2.3.4" ∷ some "5.6.7.8" ∷ []) ∷ []), w);
  reboot_instances = λ cfg ids w. (ok tt, w);
  is_validation_error = λ e. true;
  is_no_updates = λ e. false;
}

pub insert_apart :
    (name other : String) (v : String × List Parameter) (w : Cloud)
    → other ≢ name
    → lookup other (insert name v w) ≡ lookup other w
insert_apart name other v w h =
    lookup-insert name other v w
    ∙ ap (λ b. if b then some v else lookup other w) (==_ne name other (λ e. h (sym e)))

pub insert_self :
    (name : String) (v : String × List Parameter) (w : Cloud)
    → lookup name (insert name v w) ≡ some v
insert_self name v w =
    lookup-insert name name v w ∙ ap (λ b. if b then some v else lookup name w) (==_refl name)

pub delete_apart :
    (name other : String) (w : Cloud) → other ≢ name → lookup other (delete name w) ≡ lookup other w
delete_apart name other w h =
    lookup-delete name other w
    ∙ ap (λ b. if b then none else lookup other w) (==_ne name other (λ e. h (sym e)))

abbrev pub fake_laws : AwsLaws fake_aws
fake_laws = record {
  look = λ cfg name w. lookup name w;
  load_apart = λ region cfg other w. refl;
  describe_apart = λ c cfg name other w. refl;
  connections_apart = λ c cfg id other w. refl;
  create_apart = λ c cfg name other t ps w h. insert_apart name other (t, ps) w h;
  wait_created_apart = λ c cfg name other w h. refl;
  update_apart = λ c cfg name other t ps w h. insert_apart name other (t, ps) w h;
  wait_updated_apart = λ c cfg name other w h. refl;
  delete_apart = λ c cfg name other w h. delete_apart name other w h;
  wait_deleted_apart = λ c cfg name other w h. refl;
  created = λ cfg name t ps w h k. insert_self name (t, ps) w;
  updated = λ cfg name t ps w h k. insert_self name (t, ps) w;
  current = λ cfg name t ps w e h k. absurd (err≢ok (sym h));
}

abbrev pub machine : Machine Missing
machine = record {
  network_template = "network.json";
  peering_template = "peering.json";
  agent_pool_template = "pool.json";
  to_lower = λ s. s;
  read_file = λ path. some "ssh-ed25519";
  encoders = record { encode_kubeconfig = λ c. ok "kubeconfig"; encode_join = λ c. ok "join" };
  yaml_marshal = λ ud. ok "packages";
  compress = λ text. ok text;
  encode_base64 = λ text. text;
}
