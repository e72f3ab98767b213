-- ===== src/InstanceTypes/Types.antt =====
-- instancetype.go: a Karpenter InstanceType from a preset and its offerings.
use aks_flex.Common.{
  ℕ, ◌*◌, ◌^◌, Bool, true, ◌&&◌, List, [], ◌∷◌, ◌++◌, String, Eq, ◌==◌, string_eq, nat_eq, elem,
  if◌then◌else◌, ◌≡◌, ◌↔◌, arith,
}
use aks_flex.Common.Assoc.{Map}
use aks_flex.Karpenter.{Requirement}
use aks_flex.InstanceTypes.{Packages}
use aks_flex.InstanceTypes.Platform.{PlatformPreset, instance_type_name, memory_gib, architecture}
use aks_flex.InstanceTypes.Offerings.{Offering}

pub record NodeClassKey : Type 0 where
  pub project_id : String
  pub region : String
  pub os_disk_size_gib : ℕ
  pub per_node_pods_count : ℕ

abbrev pub same_key : NodeClassKey → NodeClassKey → Bool
same_key a b =
    a.project_id == b.project_id
    && (a.region == b.region
        && (a.os_disk_size_gib == b.os_disk_size_gib
            && a.per_node_pods_count == b.per_node_pods_count))

pub same_key_iff : (a b : NodeClassKey) → (same_key a b ≡ true) ↔ (a ≡ b)
same_key_iff a b = (
  (λ h. ground (
    arith,
    string_eq.same_iff a.project_id b.project_id,
    string_eq.same_iff a.region b.region,
    nat_eq.same_iff a.os_disk_size_gib b.os_disk_size_gib,
    nat_eq.same_iff a.per_node_pods_count b.per_node_pods_count,
  )),
  (λ h. ground (
    arith,
    string_eq.same_iff a.project_id b.project_id,
    string_eq.same_iff a.region b.region,
    nat_eq.same_iff a.os_disk_size_gib b.os_disk_size_gib,
    nat_eq.same_iff a.per_node_pods_count b.per_node_pods_count,
  )),
)

instance abbrev pub node_class_key_eq : Eq NodeClassKey
node_class_key_eq = record { same = same_key; same_iff = same_key_iff }

-- cloudprovider.InstanceTypeOverhead and InstanceType
pub record Overhead : Type 0 where
  pub kube_reserved : Map String ℕ
  pub system_reserved : Map String ℕ
  pub eviction_threshold : Map String ℕ

pub record InstanceType (Price : Type 0) : Type 0 where
  pub name : String
  pub requirements : List Requirement
  pub offerings : List (Offering Price)
  pub capacity : Map String ℕ
  pub overhead : Overhead

-- `set.Insert(values...)`
insert_all : List String → List String → List String
insert_all set [] = set
insert_all set (v ∷ vs) = insert_all (if elem v set then set else set ++ v ∷ []) vs

module _ {Price : Type 0} (pkg : Packages Price) where
  -- The values that the available offerings have for a key; a set is listed in any order, here in
  -- the order of its insertions.
  unfoldable pub available_values : String → List String → List (Offering Price) → List String
  unfolding insert_all
  available_values key set [] = set
  available_values key set (o ∷ os) =
      available_values key
        (if o.available then insert_all set (pkg.values o.requirements key) else set) os

  abbrev requires : String → List String → Requirement
  requires key values = record { key = key; operator = pkg.op_in; values = values }

  unfoldable pub compute_requirements :
      String → PlatformPreset → List (Offering Price) → List Requirement
  unfolding available_values instance_type_name memory_gib architecture
  compute_requirements region p offerings =
      let vcpu_count = pkg.sprint p.preset.vcpu_count in
      let memory_mib = pkg.sprint (memory_gib p * 10 ^ 3) in
      requires pkg.instance_type_key (instance_type_name p ∷ [])
      ∷ requires pkg.zone_key (available_values pkg.zone_key [] offerings)
      ∷ requires pkg.region_key (region ∷ [])
      ∷ requires pkg.os_key (pkg.linux ∷ [])
      ∷ requires pkg.arch_key (architecture p ∷ [])
      ∷ requires pkg.capacity_type_key (available_values pkg.capacity_type_key [] offerings)
      ∷ requires pkg.sku_cpu_key (vcpu_count ∷ [])
      ∷ requires pkg.sku_memory_key (memory_mib ∷ [])
      ∷ requires pkg.aks_cpu_key (vcpu_count ∷ [])
      ∷ requires pkg.aks_memory_key (memory_mib ∷ [])
      ∷ requires pkg.sku_gpu_count_key (pkg.sprint p.preset.gpu_count ∷ [])
      ∷ []

  unfoldable pub compute_capacity : NodeClassKey → PlatformPreset → Map String ℕ
  unfolding memory_gib
  compute_capacity key p =
      ("cpu", p.preset.vcpu_count)
      ∷ ("memory", memory_gib p)
      ∷ ("ephemeral-storage", key.os_disk_size_gib * 10 ^ 9)
      ∷ ("pods", key.per_node_pods_count)
      ∷ ("nvidia.com/gpu", p.preset.gpu_count)
      ∷ []

  unfoldable pub compute_overhead : PlatformPreset → Overhead
  compute_overhead p = record {
    kube_reserved = pkg.kube_reserved p.preset.vcpu_count p.preset.memory_gibibytes;
    system_reserved = pkg.system_reserved;
    eviction_threshold = pkg.eviction_threshold;
  }

  unfoldable pub new_instance_type :
      NodeClassKey → PlatformPreset → List (Offering Price) → InstanceType Price
  unfolding instance_type_name compute_requirements compute_capacity compute_overhead
  new_instance_type key p offerings = record {
    name = instance_type_name p;
    requirements = compute_requirements key.region p offerings;
    offerings = offerings;
    capacity = compute_capacity key p;
    overhead = compute_overhead p;
  }
