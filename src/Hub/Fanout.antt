-- ===== src/Hub/Fanout.antt =====
-- What the calls of the hub do with the providers that they reach: hub.go.
use aks_flex.Common.{
  string_eq, ◌≡◌, refl, sym, ap, ◌∙◌, ◌⊎◌, inl, inr, Option, none, some, List, [], ◌∷◌, ◌++◌,
  String, Result, ok, err, Option-cases,
}
use mathlib.Core.List.{append_assoc, append-nil}
use aks_flex.Hub.Routing.{Registration, registered, last_for, last_registration_wins}
use aks_flex.Karpenter.{group_kind_eq, GroupKind, NodeClassRef, NodeClaim, NodePool, CloudProvider}
use aks_flex.Hub.{
  ProviderSet, missing, HubError, not_registered_for, not_registered_for_scheme, nil_reference,
  parsing_provider_id, new_cloud_provider_set, call, by_ref, create, delete, get_instance_types,
  is_drifted, get, list_from, list,
}

module _ {E I World : Type 0} where
  -- Each provider of a list in turn has given its claims, and the world has gone through their calls.
  pub data Listed : List (CloudProvider E I World) → World → List NodeClaim → World → Type 0 where
    listed_none : (w : World) → Listed [] w [] w
    listed_one :
        (cp : CloudProvider E I World) (cps : List (CloudProvider E I World)) (w w' w'' : World)
        (claims rest : List NodeClaim)
        → cp.list w ≡ (ok claims, w')
        → Listed cps w' rest w''
        → Listed (cp ∷ cps) w (claims ++ rest) w''

  -- The providers before one have given their claims, and it has failed.
  pub data Failed : List (CloudProvider E I World) → World → E → World → Type 0 where
    failed_here :
        (cp : CloudProvider E I World) (cps : List (CloudProvider E I World)) (w w' : World) (e : E)
        → cp.list w ≡ (err e, w')
        → Failed (cp ∷ cps) w e w'
    failed_later :
        (cp : CloudProvider E I World) (cps : List (CloudProvider E I World)) (w w' w'' : World)
        (claims : List NodeClaim) (e : E)
        → cp.list w ≡ (ok claims, w')
        → Failed cps w' e w''
        → Failed (cp ∷ cps) w e w''

  abbrev ListOutcome :
      List NodeClaim
      → List (CloudProvider E I World)
      → World
      → Result E (List NodeClaim) × World
      → Type 0
  ListOutcome acc cps w r =
      ((claims : List NodeClaim) × (w' : World) × (r ≡ (ok (acc ++ claims), w'))
        × Listed cps w claims w')
      ⊎ ((e : E) × (w' : World) × (r ≡ (err e, w')) × Failed cps w e w')

  outcome_next :
      (acc claims : List NodeClaim) (cp : CloudProvider E I World)
      (cps : List (CloudProvider E I World)) (w w' : World) (r : Result E (List NodeClaim) × World)
      → cp.list w ≡ (ok claims, w')
      → ListOutcome (acc ++ claims) cps w' r
      → ListOutcome acc (cp ∷ cps) w r
  outcome_next acc claims cp cps w w' r q (inl (rest, w'', e, l)) = inl (
    claims ++ rest,
    w'',
    e ∙ ap (λ c. (ok c, w'')) (append_assoc acc claims rest),
    listed_one cp cps w w' w'' claims rest q l,
  )
  outcome_next acc claims cp cps w w' r q (inr (e, w'', p, f)) =
      inr (e, w'', p, failed_later cp cps w w' w'' claims e q f)

  list_from_outcome :
      (acc : List NodeClaim) (cps : List (CloudProvider E I World)) (w : World)
      → ListOutcome acc cps w (list_from acc cps w)
  unfolding list_from
  list_from_outcome acc [] w =
      inl ([], w, ap (λ c. (ok c, w)) (sym (append-nil acc)), listed_none w)
  list_from_outcome acc (cp ∷ cps) w =
      step (cp.list w).0 refl (λ acc' w'. list_from_outcome acc' cps w')
    where
      step :
          (r : Result E (List NodeClaim))
          → (cp.list w).0 ≡ r
          → ((acc' : List NodeClaim) (w' : World) → ListOutcome acc' cps w' (list_from acc' cps w'))
          → ListOutcome acc (cp ∷ cps) w (list_from acc (cp ∷ cps) w)
      step (ok claims) q rest =
          outcome_next acc claims cp cps w (cp.list w).1 (list_from acc (cp ∷ cps) w)
            (ap (λ x. (x, (cp.list w).1)) q) (rw (q) (rest (acc ++ claims) (cp.list w).1))
      step (err e) q rest = inr (
        e,
        (cp.list w).1,
        rw (q) refl,
        failed_here cp cps w (cp.list w).1 e (ap (λ x. (x, (cp.list w).1)) q),
      )

  -- `List` returns what all providers list, in their order, or the first failure among them.
  abbrev pub Gathers : ProviderSet (CloudProvider E I World) → World → Type 0
  Gathers set w =
      ((claims : List NodeClaim) × (w' : World) × (list set w ≡ (ok claims, w'))
        × Listed set.providers w claims w')
      ⊎ ((e : E) × (w' : World) × (list set w ≡ (err e, w')) × Failed set.providers w e w')

  -- List of the hub returns what the providers list one after the other, in the order of their
  -- registrations, or the first failure among them with no later provider called.
  pub list-Gathers : (set : ProviderSet (CloudProvider E I World)) (w : World) → Gathers set w
  unfolding list
  list-Gathers set w = list_from_outcome [] set.providers w

  -- What a call with a node class reference does when the registrations are `rs`.
  abbrev by_last :
      {A : Type 0}
      → List (Registration (CloudProvider E I World))
      → Option NodeClassRef
      → (CloudProvider E I World → World → Result E A × World)
      → World
      → Result (HubError E) A × World
  by_last rs none f w = (err nil_reference, w)
  by_last rs (some r) f w =
      let gk : GroupKind = record { group = r.group; kind = r.kind } in
      call (not_registered_for gk) f (last_for (λ x. x.1) gk missing rs) w

  by_ref-registered :
      {A : Type 0} (rs : List (Registration (CloudProvider E I World))) (ref : Option NodeClassRef)
      (f : CloudProvider E I World → World → Result E A × World) (w : World)
      → by_ref (registered new_cloud_provider_set rs) f ref w ≡ by_last rs ref f w
  unfolding by_ref
  by_ref-registered rs none f w = refl
  by_ref-registered rs (some r) f w =
      let gk : GroupKind = record { group = r.group; kind = r.kind } in
      rw ((last_registration_wins rs).0 gk) refl

  -- The same for `Get`, given the scheme of the provider ID.
  abbrev by_last_scheme :
      List (Registration (CloudProvider E I World))
      → String
      → Option String
      → World
      → Result (HubError E) NodeClaim × World
  by_last_scheme rs id none w = (err (parsing_provider_id id), w)
  by_last_scheme rs id (some scheme) w =
      call (not_registered_for_scheme scheme) (λ cp. cp.get id)
        (last_for (λ x. x.2) scheme missing rs) w

  get-registered :
      (rs : List (Registration (CloudProvider E I World))) (parse_scheme : String → Option String)
      (id : String) (w : World)
      → get (registered new_cloud_provider_set rs) parse_scheme id w
        ≡ by_last_scheme rs id (parse_scheme id) w
  unfolding get
  get-registered rs parse_scheme id w = elim (Option-cases (parse_scheme id)) [
    | inl q ↦ rw (q, get) refl
    | inr (scheme, q) ↦ rw (q, get, (last_registration_wins rs).1 scheme) refl
  ]

  -- Each operation of the hub calls the provider that was registered last for its key.
  abbrev pub IsServed :
      List (Registration (CloudProvider E I World))
      → NodeClaim
      → NodePool
      → (String → Option String)
      → String
      → World
      → Type 0
  IsServed rs claim pool parse_scheme id w =
      let hub = registered new_cloud_provider_set rs in
      (create hub claim w ≡ by_last rs claim.node_class_ref (λ cp. cp.create claim) w)
      × (delete hub claim w ≡ by_last rs claim.node_class_ref (λ cp. cp.delete claim) w)
      × (is_drifted hub claim w ≡ by_last rs claim.node_class_ref (λ cp. cp.is_drifted claim) w)
      × (get_instance_types hub pool w
          ≡ by_last rs pool.node_class_ref (λ cp. cp.get_instance_types pool) w)
      × (get hub parse_scheme id w ≡ by_last_scheme rs id (parse_scheme id) w)

  -- After any calls of Register, Create, Delete, IsDrifted, GetInstanceTypes and Get of the hub
  -- do what the provider that was registered last for the group and kind, or for the scheme of
  -- the provider ID, does; where none was registered they return the error and leave the world as
  -- it was, and an index is never out of range.
  pub last_registered_serves :
      (rs : List (Registration (CloudProvider E I World))) (claim : NodeClaim) (pool : NodePool)
      (parse_scheme : String → Option String) (id : String) (w : World)
      → IsServed rs claim pool parse_scheme id w
  unfolding create delete is_drifted get_instance_types
  last_registered_serves rs claim pool parse_scheme id w = (
    by_ref-registered rs claim.node_class_ref (λ cp. cp.create claim) w,
    by_ref-registered rs claim.node_class_ref (λ cp. cp.delete claim) w,
    by_ref-registered rs claim.node_class_ref (λ cp. cp.is_drifted claim) w,
    by_ref-registered rs pool.node_class_ref (λ cp. cp.get_instance_types pool) w,
    get-registered rs parse_scheme id w,
  )
