-- ===== src/Plugin/Chunks.antt =====
-- The chunks of plugin/pkg/db/secretstore.go: how Write splits the compressed data, and how Read
-- joins what it finds. The loop runs on fuel, `none` when it is spent.
use mathlib.Core.List.{append_assoc, append-nil}
use aks_flex.Common.{
  ℕ, zero, suc, ◌-◌, ◌≤◌, ◌<◌, ◌≡◌, refl, sym, ap, ◌∙◌, Option, none, some, List, [], ◌∷◌, ◌++◌,
  length, All, arith,
}

module _ {A : Type 0} where
  unfoldable pub take : ℕ → List A → List A
  take zero xs = []
  take (suc n) [] = []
  take (suc n) (x ∷ xs) = x ∷ take n xs

  unfoldable pub drop : ℕ → List A → List A
  drop zero xs = xs
  drop (suc n) [] = []
  drop (suc n) (x ∷ xs) = drop n xs

  abbrev push : List A → Option (List (List A)) → Option (List (List A))
  push c none = none
  push c (some cs) = some (c ∷ cs)

  -- `data[:end]` and `data[end:]` for `end = min(len(data), size)`: `take` and `drop` stop at the end.
  unfoldable pub chunk_loop : ℕ → List A → ℕ → Option (List (List A))
  unfolding take drop
  chunk_loop fuel [] size = some []
  chunk_loop zero (x ∷ xs) size = none
  chunk_loop (suc fuel) (x ∷ xs) size =
      push (take size (x ∷ xs)) (chunk_loop fuel (drop size (x ∷ xs)) size)

  unfoldable pub chunk : List A → ℕ → Option (List (List A))
  unfolding chunk_loop
  chunk [] size = some ([] ∷ [])
  chunk (x ∷ xs) size = chunk_loop (length (x ∷ xs)) (x ∷ xs) size

  -- The loop of Read.
  unfoldable pub join : List A → List (List A) → List A
  join compressed [] = compressed
  join compressed (c ∷ cs) = join (compressed ++ c) cs

  take-drop : (n : ℕ) (xs : List A) → take n xs ++ drop n xs ≡ xs
  unfolding take drop
  take-drop zero xs = refl
  take-drop (suc n) [] = refl
  take-drop (suc n) (x ∷ xs) = ap (λ r. x ∷ r) (take-drop n xs)

  length-take : (n : ℕ) (xs : List A) → length (take n xs) ≤ n
  unfolding take
  length-take zero xs = omega arith
  length-take (suc n) [] = omega arith
  length-take (suc n) (x ∷ xs) = omega (arith, length-take n xs)

  length-drop : (n : ℕ) (xs : List A) → length (drop n xs) ≤ length xs - n
  unfolding drop
  length-drop zero xs = omega arith
  length-drop (suc n) [] = omega arith
  length-drop (suc n) (x ∷ xs) = omega (arith, length-drop n xs)

  -- Chunks of at most `size` whose join, after what was joined before, is the data.
  abbrev pub Splits : List A → ℕ → Option (List (List A)) → Type 0
  Splits data_ size r =
      (chunks : List (List A)) × (r ≡ some chunks)
      × All (λ c. length c ≤ size) chunks
      × ((before : List A) → join before chunks ≡ before ++ data_)

  chunk_loop-Splits :
      (fuel : ℕ) (xs : List A) (size : ℕ)
      → 0 < size
      → length xs ≤ fuel
      → Splits xs size (chunk_loop fuel xs size)
  unfolding chunk_loop join
  chunk_loop-Splits fuel [] size pos enough = ([], refl, tt, (λ before. sym (append-nil before)))
  chunk_loop-Splits zero (x ∷ xs) size pos enough = absurd (omega (arith, enough))
  chunk_loop-Splits (suc fuel) (x ∷ xs) size pos enough =
      let shorter = length-drop size (x ∷ xs) in
      let (chunks, e, small, joined) =
        chunk_loop-Splits fuel (drop size (x ∷ xs)) size pos
          (omega (arith, shorter, enough, pos)) in
      (
        take size (x ∷ xs) ∷ chunks,
        rw (e) refl,
        (length-take size (x ∷ xs), small),
        (λ before.
            joined (before ++ take size (x ∷ xs))
            ∙ append_assoc before (take size (x ∷ xs)) (drop size (x ∷ xs))
            ∙ ap (λ r. before ++ r) (take-drop size (x ∷ xs))),
      )

  -- For a positive chunk size the loop of chunk ends, no chunk is longer than the size, and
  -- joining the chunks in their order, as Read does, gives the data back after whatever was
  -- joined before.
  pub chunk-Splits : (xs : List A) (size : ℕ) → 0 < size → Splits xs size (chunk xs size)
  unfolding chunk join
  chunk-Splits [] size pos = ([] ∷ [], refl, (omega arith, tt), (λ before. refl))
  chunk-Splits (x ∷ xs) size pos =
      chunk_loop-Splits (length (x ∷ xs)) (x ∷ xs) size pos (omega arith)

  push_full :
      (c : List A) (o : Option (List (List A))) (cs : List (List A))
      → push c o ≡ some cs
      → 0 < length cs
  push_full c none cs h = absurd cc
  push_full c (some rest) cs h = let e : c ∷ rest ≡ cs = cc in rw (← e) (omega arith)

  pub chunk_full :
      (xs : List A) (size : ℕ) (cs : List (List A)) → chunk xs size ≡ some cs → 0 < length cs
  unfolding chunk chunk_loop
  chunk_full [] size cs h = let e : [] ∷ [] ≡ cs = cc in rw (← e) (omega arith)
  chunk_full (x ∷ xs) size cs h =
      push_full (take size (x ∷ xs)) (chunk_loop (length xs) (drop size (x ∷ xs)) size) cs h
