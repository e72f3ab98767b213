-- ===== src/Wireguard/RandomIp/Loop.antt =====
-- The loop over the offsets ends, and collects exactly the free ones of its range.
use aks_flex.Common.{
  ℕ, zero, suc, ◌+◌, ◌^◌, ◌≤◌, ◌<◌, ◌≡◌, refl, inl, inr, some, List, [], ◌∷◌, String, Bool, true,
  false, leb, leb→le, if◌then◌else◌, All, elem, arith, nat_eq, string_eq, Bool-cases,
}
use native.Mathlib.Decide.{ℕ_discrete}
use aks_flex.Wireguard.Net.{Net}
use aks_flex.Wireguard.RandomIp.{u32, candidate, free_offsets}

module _ (net : Net) (network_addr : ℕ) (allocated : List String) (end : ℕ) where
  abbrev pub IsFree : ℕ → Type 0
  IsFree x = elem (candidate net network_addr x) allocated ≡ false

  pub record IsFreeList (offset : ℕ) (free : List ℕ) : Type 0 where
    pub sound : All (λ x. (offset ≤ x) × (x ≤ end) × IsFree x) free
    pub complete : (x : ℕ) → offset ≤ x → x ≤ end → IsFree x → elem x free ≡ true

  All-later :
      (offset : ℕ) (free : List ℕ)
      → All (λ x. (suc offset ≤ x) × (x ≤ end) × IsFree x) free
      → All (λ x. (offset ≤ x) × (x ≤ end) × IsFree x) free
  All-later offset [] h = tt
  All-later offset (x ∷ xs) ((a, b, c), h) = ((omega arith, b, c), All-later offset xs h)

  abbrev extend : Bool → ℕ → List ℕ → List ℕ
  extend found offset free = if found then free else offset ∷ free

  extend-IsFreeList :
      (offset : ℕ) (free : List ℕ) (found : Bool)
      → elem (candidate net network_addr offset) allocated ≡ found
      → offset ≤ end
      → IsFreeList (suc offset) free
      → IsFreeList offset (extend found offset free)
  unfolding elem
  extend-IsFreeList offset free true e le h = record {
    sound = All-later offset free h.sound;
    complete = λ x a b c. elim (ℕ_discrete x offset) [
      | yes p ↦ absurd (cc)
      | no q ↦ h.complete x (omega arith) b c
    ];
  }
  extend-IsFreeList offset free false e le h = record {
    sound = ((omega arith, le, e), All-later offset free h.sound);
    complete = λ x a b c. ground (arith, h.complete x);
  }

  pub free_offsets_lem :
      (fuel offset : ℕ)
      → suc end < 2 ^ 32
      → offset ≤ suc end
      → suc (suc end) ≤ offset + fuel
      → (free : List ℕ) × (free_offsets net fuel network_addr allocated offset end ≡ some free)
        × IsFreeList offset free
  unfolding free_offsets
  free_offsets_lem zero offset small a b = absurd (omega arith)
  free_offsets_lem (suc fuel) offset small a b = elim (Bool-cases (leb offset end)) [
    | inl more ↦
        let le : offset ≤ end = leb→le _ _ more in
        let next : u32 (offset + 1) ≡ suc offset = omega arith in
        let (free, e, good) =
          free_offsets_lem fuel (suc offset) small (omega arith) (omega arith) in
        let found = elem (candidate net network_addr offset) allocated in
        (
          extend found offset free,
          ground (arith, next, e),
          extend-IsFreeList offset free found refl le good,
        )
    | inr done ↦
        ([], ground arith, record { sound = tt; complete = λ x a b c. absurd (ground arith) })
  ]
