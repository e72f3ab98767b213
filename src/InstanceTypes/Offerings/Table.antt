-- ===== src/InstanceTypes/Offerings/Table.antt =====
-- The map that GetPrices returns.
use mathlib.Core.List.{Memᴰ}
use mathlib.Core.List.Memᴰ
use aks_flex.Common.{
  ℕ, ◌≡◌, refl, ◌∙◌, ◌⊎◌, inl, inr, true, false, Option, some, List, [], ◌∷◌, String, ◌==◌,
  Bool-cases, ==_refl,
}
use aks_flex.Common.Assoc.{Map, lookup, insert, lookup-insert}
use aks_flex.InstanceTypes.{Packages}
use aks_flex.InstanceTypes.Platform.{PlatformPreset}
use aks_flex.InstanceTypes.Offerings.{
  Prices, Calculator, PriceKey, price_key_eq, price_key, price_entry, get_prices_from, get_prices,
}

module _ {Price Error : Type 0} (pkg : Packages Price) (calculator : Calculator Error)
    (parent_id : String) (disk : ℕ) where
  abbrev entry_of : PlatformPreset → Prices Price Error
  entry_of p = price_entry pkg calculator parent_id disk p

  abbrev Tabled :
      PriceKey
      → List PlatformPreset
      → Map PriceKey (Prices Price Error)
      → Option (Prices Price Error)
      → Type 0
  Tabled k ps before r =
      ((q : PlatformPreset) × Memᴰ q ps × (price_key pkg q disk ≡ k) × (r ≡ some (entry_of q)))
      ⊎ ((m : (q : PlatformPreset) → Memᴰ q ps → (price_key pkg q disk == k) ≡ false) × (r
            ≡ lookup k before))

  get_prices_from-Tabled :
      (k : PriceKey) (before : Map PriceKey (Prices Price Error)) (ps : List PlatformPreset)
      → Tabled k ps before (lookup k (get_prices_from pkg calculator parent_id disk before ps))
  unfolding get_prices_from
  get_prices_from-Tabled k before [] = inr ((λ q m. absurd (Memᴰ.not-nil m)), refl)
  get_prices_from-Tabled k before (p ∷ ps) =
      elim (get_prices_from-Tabled k (insert (price_key pkg p disk) (entry_of p) before) ps) [
        | inl (q, m, e, l) ↦ inl (q, Memᴰ.tail m, e, l)
        | inr (n, l) ↦ elim (Bool-cases (price_key pkg p disk == k)) [
          | inl b ↦ inl (
            p,
            Memᴰ.head refl,
            (price_key_eq.same_iff (price_key pkg p disk) k).0 b,
            l ∙ rw (lookup-insert (price_key pkg p disk) k (entry_of p) before, b) refl,
          )
          | inr b ↦ inr (
            (λ q m. elim (Memᴰ.cases_cons m) [ inl e ↦ rw (e) b | inr m' ↦ n q m' ]),
            l ∙ rw (lookup-insert (price_key pkg p disk) k (entry_of p) before, b) refl,
          )
        ]
      ]

  -- For each preset of the request GetPrices returns an entry under the preset's key, which is
  -- the one computed for a preset of the request with that key; so the lookups of its callers
  -- never miss.
  pub lookup-get_prices :
      (ps : List PlatformPreset) (p : PlatformPreset)
      → Memᴰ p ps
      → (q : PlatformPreset) × Memᴰ q ps
        × (price_key pkg q disk ≡ price_key pkg p disk)
        × (lookup (price_key pkg p disk) (get_prices pkg calculator parent_id disk ps)
            ≡ some (entry_of q))
  unfolding get_prices
  lookup-get_prices ps p m = elim (get_prices_from-Tabled (price_key pkg p disk) [] ps) [
    | inl found ↦ found
    | inr (n, l) ↦ absurd (clash (n p m) (==_refl (price_key pkg p disk)))
  ]
    where
      clash :
          (price_key pkg p disk == price_key pkg p disk) ≡ false
          → (price_key pkg p disk == price_key pkg p disk) ≡ true
          → ⊥
      clash a b = cc
