-- ===== src/InstanceTypes.antt =====
-- The instance types of Nebius: karpenter/pkg/cloudproviders/nebius/instancetype. This file has
-- what the package takes from elsewhere; `Platform`, `Offerings` and `Types` are its
-- files platform.go, offerings.go and instancetype.go; provider.go is in
-- `Resolve`, `Choice` and `Provider`.
pub mod Platform
pub mod Offerings
pub mod Types
pub mod Resolve
pub mod Choice
pub mod Provider
mod Tests
use aks_flex.Common.{ℕ, ◌≡◌, Bool, true, false, Option, none, some, List, String, Result}
use aks_flex.Common.Assoc.{Map}
use aks_flex.Karpenter.{Requirement}

-- Packages outside the repository: float64 with `<` and strconv.ParseFloat, fmt.Sprint, the names
-- that Kubernetes and Karpenter give to labels, the scheduling package, and the overheads of
-- karpenter-provider-azure.
pub record Packages (Price : Type 0) : Type 0 where
  pub less : Price → Price → Bool
  pub default_price : Price
  pub max_float64 : Price
  pub parse_float : String → Option Price
  pub sprint : ℕ → String
  -- values of labels
  pub on_demand : String
  pub spot : String
  pub linux : String
  pub op_in : String
  -- keys of labels
  pub instance_type_key : String
  pub zone_key : String
  pub region_key : String
  pub os_key : String
  pub arch_key : String
  pub capacity_type_key : String
  pub sku_cpu_key : String
  pub sku_memory_key : String
  pub aks_cpu_key : String
  pub aks_memory_key : String
  pub sku_gpu_count_key : String
  -- `requirements.IsCompatible(offered, AllowUndefinedWellKnownLabels)`
  pub is_compatible : List Requirement → List Requirement → Bool
  -- `requirements.Get(key).Values()`
  pub values : List Requirement → String → List String
  pub kube_reserved : ℕ → ℕ → Map String ℕ
  pub system_reserved : Map String ℕ
  pub eviction_threshold : Map String ℕ

-- What a `<` of float64 satisfies, NaN included.
pub record IsFloatOrder {Price : Type 0} (p : Packages Price) : Type 0 where
  pub less_irrefl : (a : Price) → p.less a a ≡ false
  pub less_trans : (a b c : Price) → p.less a b ≡ true → p.less b c ≡ true → p.less a c ≡ true
