-- ===== src/InstanceTypes/Provider/Reached.antt =====
-- The providers that calls and refreshes lead to. Calls may overlap: a call is one step, or a look-up
-- and later the storing of what it has resolved, and a refresh is one step for all keys or one for
-- each. That the cache and the active keys change together is assumed.
use mathlib.Core.List.{Memᴰ}
use aks_flex.Common.{◌++◌, ℕ, suc, ◌≡◌, true, some, List, [], ◌∷◌, String, ok, elem}
use aks_flex.Karpenter.{NodeClaim}
use aks_flex.InstanceTypes.{Packages}
use aks_flex.InstanceTypes.Platform.{PlatformPreset}
use aks_flex.InstanceTypes.Types.{NodeClassKey, node_class_key_eq}
use aks_flex.InstanceTypes.Resolve.{CachedEntry, NebiusApi, resolve}
use aks_flex.InstanceTypes.Provider.{
  Lru, Provider, new_provider, store_resolved, get_instance_types,
  get_instance_type_by_platform_preset, get_platform_preset,
  resolve_platform_preset_from_node_claim, refresh_keys, refresh_all,
}

module _ (Error : Type 0) {Price C : Type 0} (pkg : Packages Price)
    (lru : Lru C (CachedEntry Price)) where
  -- The APIs that a refresh asks, one for each key.
  abbrev pub asked : (ℕ → NebiusApi Error) → ℕ → List NodeClassKey → List (NebiusApi Error)
  asked apis i [] = []
  asked apis i (k ∷ ks) = apis i ∷ asked apis (suc i) ks

  -- The providers that calls can lead to, each call with the API that it sees, and these APIs.
  pub data Reached : List (NebiusApi Error) → Provider C → Type 0 where
    started : Reached [] (new_provider lru)
    got_instance_types :
        (log : List (NebiusApi Error)) (op : Provider C) (api : NebiusApi Error)
        (key : NodeClassKey)
        → Reached log op
        → Reached (api ∷ log) (get_instance_types pkg lru api op key).1
    got_instance_type :
        (log : List (NebiusApi Error)) (op : Provider C) (api : NebiusApi Error)
        (key : NodeClassKey) (p : PlatformPreset)
        → Reached log op
        → Reached (api ∷ log) (get_instance_type_by_platform_preset pkg lru api op key p).1
    got_preset :
        (log : List (NebiusApi Error)) (op : Provider C) (api : NebiusApi Error)
        (key : NodeClassKey) (platform preset : String)
        → Reached log op
        → Reached (api ∷ log) (get_platform_preset pkg lru api op key platform preset).1
    chosen :
        (log : List (NebiusApi Error)) (op : Provider C) (api : NebiusApi Error)
        (key : NodeClassKey) (claim : NodeClaim)
        → Reached log op
        → Reached (api ∷ log) (resolve_platform_preset_from_node_claim pkg lru api op key claim).1
    refreshed :
        (log : List (NebiusApi Error)) (op : Provider C) (apis : ℕ → NebiusApi Error)
        → Reached log op
        → Reached (asked apis 0 op.active_keys ++ log) (refresh_all pkg lru apis op)
    -- a look-up of a call that goes on later
    looked_up :
        (log : List (NebiusApi Error)) (op : Provider C) (key : NodeClassKey)
        → Reached log op
        → Reached log (record { cache = (lru.get op.cache key).1; active_keys = op.active_keys })
    -- a call that has found nothing stores what it has resolved, after other calls
    stored :
        (log : List (NebiusApi Error)) (op : Provider C) (api : NebiusApi Error)
        (key : NodeClassKey)
        → Reached log op
        → Reached (api ∷ log) (store_resolved pkg lru key op (resolve pkg api key)).1
    -- one key of a refresh, between other calls
    refreshed_key :
        (log : List (NebiusApi Error)) (op : Provider C) (api : NebiusApi Error)
        (key : NodeClassKey)
        → elem key op.active_keys ≡ true
        → Reached log op
        → Reached (api ∷ log) (record {
          cache = refresh_keys pkg lru (λ i. api) op.cache 0 (key ∷ []);
          active_keys = op.active_keys;
        })

  -- An entry that one of the APIs has given for its key, which the refresh loop knows.
  abbrev pub IsGenuine :
      List (NebiusApi Error) → List NodeClassKey → NodeClassKey → CachedEntry Price → Type 0
  IsGenuine log active k e =
      (elem k active ≡ true) × ((api : NebiusApi Error) × Memᴰ api log × (resolve pkg api k ≡ ok e))

  abbrev pub IsSound : List (NebiusApi Error) → List NodeClassKey → C → Type 0
  IsSound log active c =
      (k : NodeClassKey) (e : CachedEntry Price)
      → (lru.get c k).0 ≡ some e
      → IsGenuine log active k e
