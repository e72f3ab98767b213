-- ===== src/Plugin/CloudInit.antt =====
-- plugin/pkg/util/cloudinit: the user data of a machine, and how it is marshalled and compressed.
-- Fields that no caller sets are left out. yaml.Marshal and gzip are outside.
use Prim.Native.String.{◌++◌ as concat}
use aks_flex.Common.{Bool, Option, List, String, Result, ok, ◌>>=◌}
use aks_flex.Common.Assoc.{Map}

-- APTSource by its source and key ID, and APT by its sources
pub record AptSource : Type 0 where
  pub source : String
  pub key_id : String

pub record WriteFile : Type 0 where
  pub path : String
  pub content : String
  pub permissions : String

-- A command of RunCmd is its words, or a text for the shell.
pub data Command : Type 0 where
  words : List String → Command
  script : String → Command

pub record UserData : Type 0 where
  pub apt : Option (Map String AptSource)
  pub package_update : Bool
  pub package_upgrade : Bool
  pub packages : List String
  pub write_files : List WriteFile
  pub run_cmd : List Command

module _ {E : Type 0} (yaml_marshal : UserData → Result E String) where
  unfoldable pub marshal : UserData → Result E String
  marshal ud = yaml_marshal ud >>= (λ b. ok (concat "#cloud-config\n" b))

  -- Gzip, where `compress` is what a gzip.Writer leaves in its buffer when it is closed.
  unfoldable pub gzip : (String → Result E String) → UserData → Result E String
  unfolding marshal
  gzip compress ud = marshal ud >>= compress
