-- ===== src/Hub.antt =====
-- The hub of cloud providers: karpenter/pkg/cloudproviders/hub.go. `parse_scheme` is the scheme
-- that net/url's `Parse` reads, `none` for its error. The context is not modelled.
pub mod Routing
pub mod Fanout
mod Tests
use aks_flex.Common.{
  ℕ, Option, none, some, List, [], ◌∷◌, ◌++◌, String, Result, ok, err, length, get_elem?, Eq,
  string_eq,
}
use aks_flex.Common.Assoc.{Map, lookup, insert}
use aks_flex.Karpenter.{GroupKind, group_kind_eq, NodeClassRef, NodeClaim, NodePool, CloudProvider}

pub record ProviderSet (P : Type 0) : Type 0 where
  pub providers : List P
  pub by_group_kind : Map GroupKind ℕ
  pub by_provider_id_scheme : Map String ℕ

-- What `GetBy...` finds; `out_of_range` is the panic of `set.providers[idx]`.
pub data Found (P : Type 0) : Type 0 where
  missing : Found P
  out_of_range : Found P
  found : P → Found P

pub data HubError (E : Type 0) : Type 0 where
  not_registered_for : GroupKind → HubError E
  not_registered_for_scheme : String → HubError E
  parsing_provider_id : String → HubError E
  provider_error : E → HubError E
  -- panics: an index out of range, and a call through a nil NodeClassRef
  index_out_of_range : HubError E
  nil_reference : HubError E

module _ {P : Type 0} where
  unfoldable pub new_cloud_provider_set : ProviderSet P
  new_cloud_provider_set = record { providers = []; by_group_kind = []; by_provider_id_scheme = [] }

  abbrev at : List P → Option ℕ → Found P
  at ps none = missing
  at ps (some idx) = elim (get_elem? ps idx) [ none ↦ out_of_range | some p ↦ found p ]

  unfoldable pub get_by_group_kind : ProviderSet P → GroupKind → Found P
  get_by_group_kind set gk = at set.providers (lookup gk set.by_group_kind)

  unfoldable pub get_by_provider_id_scheme : ProviderSet P → String → Found P
  get_by_provider_id_scheme set scheme = at set.providers (lookup scheme set.by_provider_id_scheme)

  unfoldable pub register : ProviderSet P → P → GroupKind → String → ProviderSet P
  register set c gk scheme =
      let idx = length set.providers in
      record {
        providers = set.providers ++ c ∷ [];
        by_group_kind = insert gk idx set.by_group_kind;
        by_provider_id_scheme = insert scheme idx set.by_provider_id_scheme;
      }

abbrev wrap : {E World A : Type 0} → Result E A × World → Result (HubError E) A × World
wrap (ok a, w) = (ok a, w)
wrap (err e, w) = (err (provider_error e), w)

module _ {E I World : Type 0} where
  -- `cp, ok := c.set.GetBy...(key); if !ok { return ... }; return cp.Call(...)`
  unfoldable pub call :
      {A : Type 0}
      → HubError E
      → (CloudProvider E I World → World → Result E A × World)
      → Found (CloudProvider E I World)
      → World
      → Result (HubError E) A × World
  call e f missing w = (err e, w)
  call e f out_of_range w = (err index_out_of_range, w)
  call e f (found cp) w = wrap (f cp w)

module _ {E I World : Type 0} (set : ProviderSet (CloudProvider E I World)) where
  unfoldable pub by_ref :
      {A : Type 0}
      → (CloudProvider E I World → World → Result E A × World)
      → Option NodeClassRef
      → World
      → Result (HubError E) A × World
  unfolding call
  by_ref f none w = (err nil_reference, w)
  by_ref f (some r) w =
      let gk : GroupKind = record { group = r.group; kind = r.kind } in
      call (not_registered_for gk) f (get_by_group_kind set gk) w

  unfoldable pub create : NodeClaim → World → Result (HubError E) NodeClaim × World
  create c = by_ref (λ cp. cp.create c) c.node_class_ref

  unfoldable pub delete : NodeClaim → World → Result (HubError E) (Unit {0}) × World
  delete c = by_ref (λ cp. cp.delete c) c.node_class_ref

  unfoldable pub get_instance_types : NodePool → World → Result (HubError E) (List I) × World
  get_instance_types p = by_ref (λ cp. cp.get_instance_types p) p.node_class_ref

  unfoldable pub is_drifted : NodeClaim → World → Result (HubError E) String × World
  is_drifted c = by_ref (λ cp. cp.is_drifted c) c.node_class_ref

  unfoldable pub get :
      (String → Option String) → String → World → Result (HubError E) NodeClaim × World
  get parse_scheme provider_id w = elim (parse_scheme provider_id) [
    | none ↦ (err (parsing_provider_id provider_id), w)
    | some scheme ↦
        call (not_registered_for_scheme scheme) (λ cp. cp.get provider_id)
          (get_by_provider_id_scheme set scheme) w
  ]

module _ {E I World : Type 0} where
  -- The loop of `List` with what it has gathered.
  unfoldable pub list_from :
      List NodeClaim → List (CloudProvider E I World) → World → Result E (List NodeClaim) × World
  list_from result [] w = (ok result, w)
  list_from result (cp ∷ cps) w =
      let (r, w') = cp.list w in
      elim r [ ok claims ↦ list_from (result ++ claims) cps w' | err e ↦ (err e, w') ]

  unfoldable pub list :
      ProviderSet (CloudProvider E I World) → World → Result E (List NodeClaim) × World
  unfolding list_from
  list set w = list_from [] set.providers w

  unfoldable pub supported_from : List (CloudProvider E I World) → List GroupKind
  supported_from [] = []
  supported_from (cp ∷ cps) = cp.supported_node_classes ++ supported_from cps

  unfoldable pub get_supported_node_classes : ProviderSet (CloudProvider E I World) → List GroupKind
  get_supported_node_classes set = supported_from set.providers

  unfoldable pub policies_from : List (CloudProvider E I World) → List String
  policies_from [] = []
  policies_from (cp ∷ cps) = cp.repair_policies ++ policies_from cps

  unfoldable pub repair_policies : ProviderSet (CloudProvider E I World) → List String
  repair_policies set = policies_from set.providers

  abbrev closed : CloudProvider E I World → World → Result E (Unit {0}) × World
  closed cp w = elim cp.close [ none ↦ (ok tt, w) | some close ↦ close w ]

  -- The errors that `errors.Join` joins.
  unfoldable pub close_from : List E → List (CloudProvider E I World) → World → List E × World
  close_from errs [] w = (errs, w)
  close_from errs (cp ∷ cps) w =
      let (r, w') = closed cp w in
      close_from (elim r [ ok _ ↦ errs | err e ↦ errs ++ e ∷ [] ]) cps w'

  unfoldable pub close : ProviderSet (CloudProvider E I World) → World → List E × World
  unfolding close_from
  close set w = close_from [] set.providers w
