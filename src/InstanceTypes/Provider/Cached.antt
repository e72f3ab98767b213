-- ===== src/InstanceTypes/Provider/Cached.antt =====
-- What the cache holds after any calls of a provider, refreshes included.
use mathlib.Core.List.{Memᴰ}
use mathlib.Core.Path.{subst}
use aks_flex.Common.{
  false, ◌++◌, ℕ, suc, ◌≡◌, refl, sym, ap, ◌∙◌, ◌⊎◌, inl, inr, true, none, some, List, [], ◌∷◌,
  String, Result, ok, err, ◌==◌, elem, elem-append, ==_refl, arith, Bool-cases, Option-cases,
  Result-cases,
}
use aks_flex.Karpenter.{NodeClaim}
use aks_flex.InstanceTypes.{Packages}
use aks_flex.InstanceTypes.Platform.{PlatformPreset, instance_type_name}
use aks_flex.InstanceTypes.Types.{NodeClassKey, node_class_key_eq}
use aks_flex.InstanceTypes.Resolve.{CachedEntry, NebiusApi, ProviderError, resolve}
use aks_flex.InstanceTypes.Provider.{
  Lru, LruLaws, Provider, track_key, new_provider, store_resolved, get_or_resolve_cached_entry,
  get_instance_types, find_instance_type, cached_types, get_instance_type_by_platform_preset,
  get_cached_or_list_presets, get_platform_preset, resolve_platform_preset_from_node_claim,
  refresh_keys, refresh_all,
}
use aks_flex.InstanceTypes.Provider.Reached.{
  asked, Reached, started, got_instance_types, got_instance_type, got_preset, chosen, refreshed,
  looked_up, stored, refreshed_key, IsGenuine, IsSound,
}

track_key-keeps :
    (active : List NodeClassKey) (k j : NodeClassKey)
    → elem j active ≡ true
    → elem j (track_key active k) ≡ true
unfolding track_key
track_key-keeps active k j h = ground (arith, elem-append j active (k ∷ []))

track_key-has : (active : List NodeClassKey) (k : NodeClassKey) → elem k (track_key active k) ≡ true
unfolding track_key elem
track_key-has active k = ground (arith, elem-append k active (k ∷ []), ==_refl k)

later : (k j : NodeClassKey) (ks : List NodeClassKey) → elem j ks ≡ true → elem j (k ∷ ks) ≡ true
unfolding elem
later k j ks h = ground arith

module _ (Error : Type 0) {Price C : Type 0} (pkg : Packages Price)
    (lru : Lru C (CachedEntry Price)) where
  IsSound-later :
      (api : NebiusApi Error) (log : List (NebiusApi Error)) (active : List NodeClassKey) (c : C)
      → IsSound Error pkg lru log active c
      → IsSound Error pkg lru (api ∷ log) active c
  IsSound-later api log active c h k e q =
      let (a, (api', m, g)) = h k e q in (a, (api', Memᴰ.tail m, g))

  module _ (laws : LruLaws lru) where
    get-IsSound :
        (log : List (NebiusApi Error)) (active : List NodeClassKey) (c : C) (k : NodeClassKey)
        → IsSound Error pkg lru log active c
        → IsSound Error pkg lru log active (lru.get c k).1
    get-IsSound log active c k h j e q = h j e (sym (laws.get-get c k j) ∙ q)

    add-IsSound :
        (log : List (NebiusApi Error)) (active : List NodeClassKey) (c : C) (k : NodeClassKey)
        (entry : CachedEntry Price)
        → IsGenuine Error pkg lru log active k entry
        → IsSound Error pkg lru log active c
        → IsSound Error pkg lru log active (lru.add c k entry)
    add-IsSound log active c k entry g h j e q = elim (Bool-cases (k == j)) [
      | inl b ↦ same ((node_class_key_eq.same_iff k j).0 b)
      | inr b ↦ elim (laws.get-add_other c k j entry b) [
        | inl n ↦ absurd (clash n)
        | inr s ↦ h j e (sym s ∙ q)
      ]
    ]
      where
        clash : (lru.get (lru.add c k entry) j).0 ≡ none → ⊥
        clash n = cc

        same : k ≡ j → IsGenuine Error pkg lru log active j e
        same p =
            let r : entry ≡ e =
              (let a = laws.get-add c k entry in
                let b = ap (λ x. (lru.get (lru.add c k entry) x).0) p in cc) in
            rw (← p, ← r) g

    track_key-IsSound :
        (log : List (NebiusApi Error)) (active : List NodeClassKey) (c : C) (k : NodeClassKey)
        → IsSound Error pkg lru log active c
        → IsSound Error pkg lru log (track_key active k) c
    track_key-IsSound log active c k h j e q =
        let (a, known) = h j e q in (track_key-keeps active k j a, known)

    -- A call of getOrResolveCachedEntry keeps what was cached, or adds what it has resolved.
    abbrev Looked : NebiusApi Error → Provider C → NodeClassKey → Provider C → Type 0
    Looked api op key op' =
        (op' ≡ record { cache = (lru.get op.cache key).1; active_keys = op.active_keys })
        ⊎ ((entry : CachedEntry Price) × (resolve pkg api key ≡ ok entry)
            × (op' ≡ record {
              cache = lru.add (lru.get op.cache key).1 key entry;
              active_keys = track_key op.active_keys key;
            }))

    store_resolved-Looked :
        (op : Provider C) (api : NebiusApi Error) (key : NodeClassKey)
        (r : Result (ProviderError Error) (CachedEntry Price))
        → resolve pkg api key ≡ r
        → Looked api op key
            (store_resolved pkg lru key
              (record { cache = (lru.get op.cache key).1; active_keys = op.active_keys })
              r).1
    unfolding store_resolved
    store_resolved-Looked op api key (err e) q = inl refl
    store_resolved-Looked op api key (ok entry) q = inr (entry, q, refl)

    get_or_resolve-Looked :
        (op : Provider C) (api : NebiusApi Error) (key : NodeClassKey)
        → Looked api op key (get_or_resolve_cached_entry pkg lru api op key).1
    unfolding get_or_resolve_cached_entry
    get_or_resolve-Looked op api key = elim (Option-cases (lru.get op.cache key).0) [
      | inl q ↦
          rw (q, get_or_resolve_cached_entry)
            (store_resolved-Looked op api key (resolve pkg api key) refl)
      | inr (e, q) ↦ inl (rw (q, get_or_resolve_cached_entry) refl)
    ]

    Looked-IsSound :
        (log : List (NebiusApi Error)) (op op' : Provider C) (api : NebiusApi Error)
        (key : NodeClassKey)
        → Looked api op key op'
        → IsSound Error pkg lru log op.active_keys op.cache
        → IsSound Error pkg lru (api ∷ log) op'.active_keys op'.cache
    Looked-IsSound log op op' api key (inl e) h = rw (e) (
        get-IsSound (api ∷ log) op.active_keys op.cache key
          (IsSound-later api log op.active_keys op.cache h))
    Looked-IsSound log op op' api key (inr (entry, q, e)) h = rw (e) (
        add-IsSound (api ∷ log) (track_key op.active_keys key) (lru.get op.cache key).1 key entry
          (track_key-has op.active_keys key, (api, Memᴰ.head refl, q))
          (track_key-IsSound (api ∷ log) op.active_keys (lru.get op.cache key).1 key (
            get-IsSound (api ∷ log) op.active_keys op.cache key
              (IsSound-later api log op.active_keys op.cache h))))

    store_resolved-IsSound :
        (log : List (NebiusApi Error)) (op : Provider C) (api : NebiusApi Error)
        (key : NodeClassKey) (r : Result (ProviderError Error) (CachedEntry Price))
        → resolve pkg api key ≡ r
        → IsSound Error pkg lru log op.active_keys op.cache
        → let op' = (store_resolved pkg lru key op r).1 in
          IsSound Error pkg lru (api ∷ log) op'.active_keys op'.cache
    unfolding store_resolved
    store_resolved-IsSound log op api key (err e) q h =
        IsSound-later api log op.active_keys op.cache h
    store_resolved-IsSound log op api key (ok entry) q h =
        add-IsSound (api ∷ log) (track_key op.active_keys key) op.cache key entry
          (track_key-has op.active_keys key, (api, Memᴰ.head refl, q))
          (track_key-IsSound (api ∷ log) op.active_keys op.cache key
            (IsSound-later api log op.active_keys op.cache h))

    only-key :
        (active : List NodeClassKey) (key j : NodeClassKey)
        → elem key active ≡ true
        → elem j (key ∷ []) ≡ true
        → elem j active ≡ true
    unfolding elem
    only-key active key j h m = elim (Bool-cases (key == j)) [
      | inl b ↦ subst (λ x. elem x active ≡ true) ((node_class_key_eq.same_iff key j).0 b) h
      | inr b ↦ absurd (neither b (rw (elem, b) at m))
    ]
      where
        neither : (key == j) ≡ false → false ≡ true → ⊥
        neither b x = cc

    refresh_keys-IsSound :
        (log : List (NebiusApi Error)) (active : List NodeClassKey) (apis : ℕ → NebiusApi Error)
        (c : C) (i : ℕ) (ks : List NodeClassKey)
        → ((api : NebiusApi Error) → Memᴰ api (asked Error pkg lru apis i ks) → Memᴰ api log)
        → ((k : NodeClassKey) → elem k ks ≡ true → elem k active ≡ true)
        → IsSound Error pkg lru log active c
        → IsSound Error pkg lru log active (refresh_keys pkg lru apis c i ks)
    unfolding refresh_keys elem
    refresh_keys-IsSound log active apis c i [] l a h = h
    refresh_keys-IsSound log active apis c i (k ∷ ks) l a h =
        elim (Result-cases (resolve pkg (apis i) k)) [
          | inl (entry, q) ↦ rw (q) (
              refresh_keys-IsSound log active apis (lru.add c k entry) (suc i) ks
                (λ api m. l api (Memᴰ.tail m)) (λ j m. a j (later k j ks m))
                (add-IsSound log active c k entry
                  (a k (rw (==_refl k) refl), (apis i, l (apis i) (Memᴰ.head refl), q)) h))
          | inr (e, q) ↦ rw (q) (
              refresh_keys-IsSound log active apis c (suc i) ks (λ api m. l api (Memᴰ.tail m))
                (λ j m. a j (later k j ks m)) h)
        ]

    member-left :
        (api : NebiusApi Error) (xs ys : List (NebiusApi Error)) → Memᴰ api xs → Memᴰ api (xs ++ ys)
    member-left api [] ys m = elim m [ ]
    member-left api (x ∷ xs) ys (Memᴰ.head e) = Memᴰ.head e
    member-left api (x ∷ xs) ys (Memᴰ.tail m) = Memᴰ.tail (member-left api xs ys m)

    IsSound-longer :
        (xs log : List (NebiusApi Error)) (active : List NodeClassKey) (c : C)
        → IsSound Error pkg lru log active c
        → IsSound Error pkg lru (xs ++ log) active c
    IsSound-longer [] log active c h = h
    IsSound-longer (x ∷ xs) log active c h =
        IsSound-later x (xs ++ log) active c (IsSound-longer xs log active c h)

    -- A call that only reads the cache.
    abbrev read : Provider C → NodeClassKey → Provider C
    read op key = record { cache = (lru.get op.cache key).1; active_keys = op.active_keys }

    get_instance_type-read :
        (op : Provider C) (api : NebiusApi Error) (key : NodeClassKey) (p : PlatformPreset)
        → (get_instance_type_by_platform_preset pkg lru api op key p).1 ≡ read op key
    unfolding get_instance_type_by_platform_preset
    get_instance_type-read op api key p =
        elim (Option-cases
          (find_instance_type (instance_type_name p) (cached_types (lru.get op.cache key).0))) [
            | inl q ↦ rw (q, get_instance_type_by_platform_preset) refl
            | inr (it, q) ↦ rw (q, get_instance_type_by_platform_preset) refl
          ]

    get_platform_preset-read :
        (op : Provider C) (api : NebiusApi Error) (key : NodeClassKey) (platform preset : String)
        → (get_platform_preset pkg lru api op key platform preset).1 ≡ read op key
    unfolding get_platform_preset get_cached_or_list_presets
    get_platform_preset-read op api key platform preset =
        elim (Option-cases (lru.get op.cache key).0) [
          | inl q ↦ rw (q, get_platform_preset, get_cached_or_list_presets) refl
          | inr (e, q) ↦ rw (q, get_platform_preset, get_cached_or_list_presets) refl
        ]

    chosen-Looked :
        (op : Provider C) (api : NebiusApi Error) (key : NodeClassKey) (claim : NodeClaim)
        → ((resolve_platform_preset_from_node_claim pkg lru api op key claim).1 ≡ op)
          ⊎ Looked api op key (resolve_platform_preset_from_node_claim pkg lru api op key claim).1
    unfolding resolve_platform_preset_from_node_claim
    chosen-Looked op api key claim =
        by_names (pkg.values claim.requirements pkg.instance_type_key) refl
      where
        by_names :
            (names : List String)
            → pkg.values claim.requirements pkg.instance_type_key ≡ names
            → ((resolve_platform_preset_from_node_claim pkg lru api op key claim).1 ≡ op)
              ⊎ Looked api op key
                  (resolve_platform_preset_from_node_claim pkg lru api op key claim).1
        by_names [] q = inl (rw (q, resolve_platform_preset_from_node_claim) refl)
        by_names (n ∷ ns) q =
            inr (rw (q, resolve_platform_preset_from_node_claim) (get_or_resolve-Looked op api key))

    -- After any calls of the provider and any refreshes, also where a call stores what it has
    -- resolved after others, or others come between the keys of a refresh, under the laws of the
    -- LRU cache, an entry that the cache has for a key is one that resolving the key has given
    -- with an API that one of these calls or refreshes saw, and the key is among those that the
    -- refresh loop fetches again.
    pub Reached-IsSound :
        (log : List (NebiusApi Error)) (op : Provider C)
        → Reached Error pkg lru log op
        → (k : NodeClassKey) (e : CachedEntry Price) → (lru.get op.cache k).0 ≡ some e
        → IsGenuine Error pkg lru log op.active_keys k e
    unfolding new_provider get_instance_types refresh_all
    Reached-IsSound log' op started = λ k e q. absurd (none_yet k e q)
      where
        none_yet : (k : NodeClassKey) (e : CachedEntry Price) → (lru.get lru.new k).0 ≡ some e → ⊥
        none_yet k e q = let n = laws.get-new k in cc
    Reached-IsSound log' op' (got_instance_types log op api key r) =
        Looked-IsSound log op (get_or_resolve_cached_entry pkg lru api op key).1 api key
          (get_or_resolve-Looked op api key) (Reached-IsSound log op r)
    Reached-IsSound log' op' (got_instance_type log op api key p r) =
        rw (get_instance_type-read op api key p) (
          IsSound-later api log op.active_keys (lru.get op.cache key).1
            (get-IsSound log op.active_keys op.cache key (Reached-IsSound log op r)))
    Reached-IsSound log' op' (got_preset log op api key platform preset r) =
        rw (get_platform_preset-read op api key platform preset) (
          IsSound-later api log op.active_keys (lru.get op.cache key).1
            (get-IsSound log op.active_keys op.cache key (Reached-IsSound log op r)))
    Reached-IsSound log' op' (chosen log op api key claim r) =
        elim (chosen-Looked op api key claim) [
          | inl e ↦
              rw (e) (IsSound-later api log op.active_keys op.cache (Reached-IsSound log op r))
          | inr l ↦
              Looked-IsSound log op
                (resolve_platform_preset_from_node_claim pkg lru api op key claim).1 api key l
                (Reached-IsSound log op r)
        ]
    Reached-IsSound log' op' (refreshed log op apis r) =
        let new = asked Error pkg lru apis 0 op.active_keys in
        refresh_keys-IsSound (new ++ log) op.active_keys apis op.cache 0 op.active_keys
          (λ api m. member-left api new log m) (λ j m. m)
          (IsSound-longer new log op.active_keys op.cache (Reached-IsSound log op r))
    Reached-IsSound log op' (looked_up log' op key r) =
        get-IsSound log' op.active_keys op.cache key (Reached-IsSound log' op r)
    Reached-IsSound log' op' (stored log op api key r) =
        store_resolved-IsSound log op api key (resolve pkg api key) refl (Reached-IsSound log op r)
    Reached-IsSound log' op' (refreshed_key log op api key active r) =
        refresh_keys-IsSound (api ∷ log) op.active_keys (λ i. api) op.cache 0 (key ∷ [])
          (λ api' m. member-left api' (api ∷ []) log m)
          (λ j m. only-key op.active_keys key j active m)
          (IsSound-later api log op.active_keys op.cache (Reached-IsSound log op r))
