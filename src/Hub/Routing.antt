-- ===== src/Hub/Routing.antt =====
-- Which provider a call reaches: `Register`, `GetByGroupKind`, `GetByProviderIDScheme` of hub.go.
use aks_flex.Common.{
  ℕ, ◌<◌, ◌≡◌, refl, inl, inr, zero, suc, true, false, Option, none, some, List, [], ◌∷◌, ◌++◌,
  String, length, get_elem?, Eq, ◌==◌, string_eq, if◌then◌else◌, arith, length-append, Bool-cases,
}
use aks_flex.Common.Assoc.{Map, lookup, insert, lookup-insert}
use aks_flex.Karpenter.{GroupKind, group_kind_eq}
use aks_flex.Hub.{
  ProviderSet, Found, missing, found, new_cloud_provider_set, at, get_by_group_kind,
  get_by_provider_id_scheme, register,
}

-- The arguments of one call of `Register`.
abbrev pub Registration : Type 0 → Type 0
Registration P = P × GroupKind × String

module _ {P : Type 0} where
  get_elem?-append_left :
      (xs ys : List P) (i : ℕ) → i < length xs → get_elem? (xs ++ ys) i ≡ get_elem? xs i
  get_elem?-append_left [] ys i h = absurd (omega arith)
  get_elem?-append_left (x ∷ xs) ys zero h = refl
  get_elem?-append_left (x ∷ xs) ys (suc i) h = get_elem?-append_left xs ys i (omega arith)

  get_elem?-append_last : (xs : List P) (x : P) → get_elem? (xs ++ x ∷ []) (length xs) ≡ some x
  get_elem?-append_last [] x = refl
  get_elem?-append_last (y ∷ xs) x = get_elem?-append_last xs x

  unfoldable pub registered : ProviderSet P → List (Registration P) → ProviderSet P
  registered set [] = set
  registered set ((c, gk, scheme) ∷ rs) = registered (register set c gk scheme) rs

  -- The provider of the last registration for a key, else what there was before.
  unfoldable pub last_for :
      {K : Type 0} ⦃e : Eq K⦄ → (Registration P → K) → K → Found P → List (Registration P) → Found P
  last_for key k before [] = before
  last_for key k before (r ∷ rs) = last_for key k (if key r == k then found r.0 else before) rs

  at-append :
      (ps : List P) (c : P) (o : Option ℕ)
      → ((i : ℕ) → o ≡ some i → i < length ps)
      → at (ps ++ c ∷ []) o ≡ at ps o
  at-append ps c none h = refl
  at-append ps c (some i) h = rw (at, get_elem?-append_left ps (c ∷ []) i (h i refl)) refl

  -- The indices of a map stay in range of the providers.
  module _ {K : Type 0} ⦃e : Eq K⦄ where
    abbrev IsInRange : List P → Map K ℕ → Type 0
    IsInRange ps m = (k : K) (i : ℕ) → lookup k m ≡ some i → i < length ps

    at-insert_same :
        (ps : List P) (c : P) (k : K) (m : Map K ℕ) (j : K)
        → (k == j) ≡ true
        → at (ps ++ c ∷ []) (lookup j (insert k (length ps) m)) ≡ found c
    at-insert_same ps c k m j q =
        rw (lookup-insert k j (length ps) m, q, at, get_elem?-append_last ps c) refl

    at-insert_other :
        (ps : List P) (c : P) (k : K) (m : Map K ℕ) (j : K)
        → IsInRange ps m
        → (k == j) ≡ false
        → at (ps ++ c ∷ []) (lookup j (insert k (length ps) m)) ≡ at ps (lookup j m)
    at-insert_other ps c k m j h q =
        rw (lookup-insert k j (length ps) m, q) (at-append ps c (lookup j m) (λ i e. h j i e))

    at-insert :
        (ps : List P) (c : P) (k : K) (m : Map K ℕ)
        → IsInRange ps m
        → (j : K)
        → at (ps ++ c ∷ []) (lookup j (insert k (length ps) m))
          ≡ (if k == j then found c else at ps (lookup j m))
    at-insert ps c k m h j = elim (Bool-cases (k == j)) [
      | inl q ↦ rw (q) (at-insert_same ps c k m j q)
      | inr q ↦ rw (q) (at-insert_other ps c k m j h q)
    ]

    insert-IsInRange :
        (ps : List P) (c : P) (k : K) (m : Map K ℕ)
        → IsInRange ps m
        → IsInRange (ps ++ c ∷ []) (insert k (length ps) m)
    insert-IsInRange ps c k m h j i q =
        ground (arith, h j i, lookup-insert k j (length ps) m, length-append ps (c ∷ []))

  module _ where
    abbrev IsIndexed : ProviderSet P → Type 0
    IsIndexed set =
        IsInRange set.providers set.by_group_kind
        × IsInRange set.providers set.by_provider_id_scheme

    register-IsIndexed :
        (set : ProviderSet P) (c : P) (gk : GroupKind) (s : String)
        → IsIndexed set
        → IsIndexed (register set c gk s)
    unfolding register
    register-IsIndexed set c gk s (h, k) = (
      insert-IsInRange set.providers c gk set.by_group_kind h,
      insert-IsInRange set.providers c s set.by_provider_id_scheme k,
    )

    get_by_group_kind-register :
        (set : ProviderSet P) (c : P) (gk key : GroupKind) (s : String)
        → IsIndexed set
        → get_by_group_kind (register set c gk s) key
          ≡ (if gk == key then found c else get_by_group_kind set key)
    unfolding register get_by_group_kind
    get_by_group_kind-register set c gk key s (h, k) =
        at-insert set.providers c gk set.by_group_kind h key

    get_by_provider_id_scheme-register :
        (set : ProviderSet P) (c : P) (gk : GroupKind) (s key : String)
        → IsIndexed set
        → get_by_provider_id_scheme (register set c gk s) key
          ≡ (if s == key then found c else get_by_provider_id_scheme set key)
    unfolding register get_by_provider_id_scheme
    get_by_provider_id_scheme-register set c gk s key (h, k) =
        at-insert set.providers c s set.by_provider_id_scheme k key

    routed_from :
        (set : ProviderSet P) (rs : List (Registration P))
        → IsIndexed set
        → ((gk : GroupKind)
            → get_by_group_kind (registered set rs) gk
              ≡ last_for (λ r. r.1) gk (get_by_group_kind set gk) rs)
          × ((s : String)
              → get_by_provider_id_scheme (registered set rs) s
                ≡ last_for (λ r. r.2) s (get_by_provider_id_scheme set s) rs)
    unfolding registered last_for
    routed_from set [] h = ((λ gk. refl), (λ s. refl))
    routed_from set ((c, gk', s') ∷ rs) h =
        let (k, p) = routed_from (register set c gk' s') rs (register-IsIndexed set c gk' s' h) in
        (
          (λ gk. rw (← get_by_group_kind-register set c gk' gk s' h) (k gk)),
          (λ s. rw (← get_by_provider_id_scheme-register set c gk' s' s h) (p s)),
        )

    -- After any calls of Register on a new provider set, GetByGroupKind finds the provider that
    -- was registered last for the group and kind, GetByProviderIDScheme the one that was
    -- registered last for the scheme, and each finds none where there was no such registration.
    pub last_registration_wins :
        (rs : List (Registration P))
        → ((gk : GroupKind)
            → get_by_group_kind (registered new_cloud_provider_set rs) gk
              ≡ last_for (λ r. r.1) gk missing rs)
          × ((s : String)
              → get_by_provider_id_scheme (registered new_cloud_provider_set rs) s
                ≡ last_for (λ r. r.2) s missing rs)
    unfolding new_cloud_provider_set get_by_group_kind get_by_provider_id_scheme lookup
    last_registration_wins rs = routed_from new_cloud_provider_set rs ((λ k i q. cc), (λ k i q. cc))
