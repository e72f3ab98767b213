-- ===== src/Plugin/Aws/Instances.antt =====
-- plugin/pkg/services/agentpools/aws/ubuntu2404instance: instances.go. An agent pool has the one
-- instance with the ID "<pool>/0".
use Prim.Native.String.{◌++◌ as concat}
use aks_flex.Common.{
  Option, none, some, List, [], ◌∷◌, String, Result, ok, err, ◌>>=◌, or_err, map_err, ◌==◌,
  string_eq, if◌then◌else◌,
}
use aks_flex.Common.Split.{split, first_part, second_part}
use aks_flex.Plugin.{Proto, Store}
use aks_flex.Plugin.Db as Db
use aks_flex.Plugin.Db.{AnyError, Panic, type_mismatch}
use aks_flex.Plugin.Stacks.{Aws}
use aks_flex.Plugin.Aws.{
  UbuntuPool, Kind, AwsFailure, configuring, rebooting, packing, database, not_found, unpacking,
  id_out_of_range,
}

module _ {M O Any Bytes P Config A World W : Type 0} (E : Type 0) (p : Proto M O Any Bytes P)
    (kind : Kind M O UbuntuPool) (instance_of : String → O) (store : Store Bytes P World)
    (aws : Aws Config A W) where
  -- The item of an instance.
  unfoldable pub instance_item : String → Result (AwsFailure E P A) Any
  instance_item id = map_err packing (p.new_any (instance_of id))

  -- The agent pool's object, if the database has one.
  unfoldable pub stored : String → World → Result (AwsFailure E P A) O
  stored id world = map_err database (Db.get p store id world).0 >>= (λ o. or_err o not_found)

  unfoldable pub list : String → World → Result (AwsFailure E P A) (List Any)
  unfolding stored instance_item
  list id world =
      stored id world
      >>= (λ obj. instance_item (concat (p.id obj) "/0") >>= (λ item. ok (item ∷ [])))

  -- Get once the agent pool is there.
  unfoldable pub get_numbered : String → Option String → Result (AwsFailure E P A) Any
  unfolding instance_item
  get_numbered id none = err id_out_of_range
  get_numbered id (some number) = if number == "0" then instance_item id else err not_found

  unfoldable pub get : String → World → Result (AwsFailure E P A) Any
  unfolding stored get_numbered split
  get id world =
      stored (first_part (split id)) world >>= (λ obj. get_numbered id (second_part (split id)))

  unfoldable pub reboot :
      UbuntuPool → Result A Config × W → Result (AwsFailure E P A) (Unit {0}) × W
  reboot ap (err e, w) = (err (configuring e), w)
  reboot ap (ok cfg, w) =
      let instance = elim ap.status as (λ s. String) [ none ↦ "" | some i ↦ i ] in
      let (r, w') = aws.reboot_instances cfg (instance ∷ []) w in (map_err rebooting r, w')

  unfoldable pub restart : String → World → W → Result (AwsFailure E P A) (Unit {0}) × W
  unfolding stored reboot split
  restart id world w =
      elim (stored (first_part (split id)) world
        >>= (λ obj. map_err unpacking (or_err (kind.of_object obj) type_mismatch))) [
          | err e ↦ (err e, w)
          | ok ap ↦ reboot ap (aws.load_default_config ap.region w)
        ]
