-- ===== src/Karpenter.antt =====
-- The Karpenter and Kubernetes types that the cloud providers exchange, with the fields that the
-- code of karpenter/pkg reads or writes, and the interface of a cloud provider.
use aks_flex.Common.{
  ℕ, ◌≡◌, ◌↔◌, Bool, true, ◌&&◌, Option, List, String, Result, Eq, ◌==◌, string_eq, arith,
}
use aks_flex.Common.Assoc.{Map}

-- schema.GroupKind
pub record GroupKind : Type 0 where
  pub group : String
  pub kind : String

abbrev pub same_group_kind : GroupKind → GroupKind → Bool
same_group_kind a b = a.group == b.group && a.kind == b.kind

pub same_group_kind_iff : (a b : GroupKind) → (same_group_kind a b ≡ true) ↔ (a ≡ b)
same_group_kind_iff a b = (
  (λ h. ground (arith, string_eq.same_iff a.group b.group, string_eq.same_iff a.kind b.kind)),
  (λ h. ground (arith, string_eq.same_iff a.group b.group, string_eq.same_iff a.kind b.kind)),
)

instance abbrev pub group_kind_eq : Eq GroupKind
group_kind_eq = record { same = same_group_kind; same_iff = same_group_kind_iff }

pub record NodeClassRef : Type 0 where
  pub group : String
  pub kind : String
  pub name : String

-- v1.NodeSelectorRequirementWithMinValues and scheduling.Requirement
pub record Requirement : Type 0 where
  pub key : String
  pub operator : String
  pub values : List String

pub record NodeClaim : Type 0 where
  pub name : String
  pub labels : Map String String
  pub node_class_ref : Option NodeClassRef
  pub requirements : List Requirement
  -- spec.resources.requests, in units
  pub requests : Map String ℕ
  -- status
  pub provider_id : String
  pub capacity : Map String ℕ
  pub allocatable : Map String ℕ

-- spec.template.spec.nodeClassRef is all that a provider reads.
pub record NodePool : Type 0 where
  pub name : String
  pub node_class_ref : Option NodeClassRef

-- cloudprovider.CloudProvider over a world that its calls change: the clouds and the API server.
-- A provider that is `Closeable` has `close`.
pub record CloudProvider (E I World : Type 0) : Type 0 where
  pub create : NodeClaim → World → Result E NodeClaim × World
  pub delete : NodeClaim → World → Result E (Unit {0}) × World
  pub get : String → World → Result E NodeClaim × World
  pub list : World → Result E (List NodeClaim) × World
  pub get_instance_types : NodePool → World → Result E (List I) × World
  pub is_drifted : NodeClaim → World → Result E String × World
  pub supported_node_classes : List GroupKind
  pub repair_policies : List String
  pub close : Option (World → Result E (Unit {0}) × World)
