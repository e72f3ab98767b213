-- ===== src/InstanceTypes/Platform.antt =====
-- platform.go: a pair of a Nebius platform and one of its presets. A quantity is the number of its
-- units, without a bound.
use Prim.Native.String.{◌++◌ as concat}
use aks_flex.Common.{ℕ, ◌*◌, ◌^◌, Bool, List, String}

-- nebius compute v1 Preset and Platform, the fields that are read
pub record Preset : Type 0 where
  pub name : String
  pub vcpu_count : ℕ
  pub memory_gibibytes : ℕ
  pub gpu_count : ℕ

pub record Platform : Type 0 where
  pub name : String
  pub presets : List Preset
  pub gpu_memory_gigabytes : ℕ
  pub allowed_for_preemptibles : Bool

pub record PlatformPreset : Type 0 where
  pub platform : Platform
  pub preset : Preset

unfoldable pub allowed_for_preemptibles : PlatformPreset → Bool
allowed_for_preemptibles p = p.platform.allowed_for_preemptibles

unfoldable pub join_names : String → String → String
join_names platform preset = concat (concat platform "-") preset

unfoldable pub instance_type_name : PlatformPreset → String
unfolding join_names
instance_type_name p = join_names p.platform.name p.preset.name

-- The number of bytes. The source keeps it as an int64 with a decimal scale and reads it in
-- thousandths, which fit in an int64 below 9223372 GiB; larger amounts are not modelled.
unfoldable pub memory_gib : PlatformPreset → ℕ
memory_gib p = p.preset.memory_gibibytes * 10 ^ 9

unfoldable pub architecture : PlatformPreset → String
architecture p = "amd64"

-- The pair with the capacity type and the zone to launch it with.
pub record LaunchSettings : Type 0 where
  pub platform_preset : PlatformPreset
  pub capacity_type : String
  pub zone : String
