-- ===== src/Plugin/Secrets/RoundTrip.antt =====
-- What a read gives after a write of the secret store.
use aks_flex.Common.{
  arith, ℕ, ◌≤◌, ◌<◌, ◌≡◌, refl, sym, ap, ◌∙◌, inl, inr, Option, some, List, [], ◌∷◌, map, String,
  Result, ok, err, length, get_elem?, get_elem?_in_range, Result-cases, Bool-cases, err≢ok, ltb,
  ltb→lt,
}
use aks_flex.Plugin.Chunks.{chunk, join, chunk-Splits, chunk_full}
use aks_flex.Plugin.Secrets.{
  Secret, Secrets, SecretsLaws, max_chunk_size, read_values, read, write_chunks, write_split, write,
}
use aks_flex.Plugin.Secrets.Written.{
  get_elem?_beyond, write_chunks-Overlaid, Stale, delete_chunks_from-Cut,
}

some-injective : {A : Type 0} {a b : A} → some a ≡ some b → a ≡ b
some-injective h = cc

module _ {A E W : Type 0} (secrets : Secrets A E W) (name_prefix : String)
    (laws : SecretsLaws secrets name_prefix) where
  -- The store has some number of chunks, without a gap.
  abbrev pub Gapless : ℕ → W → Type 0
  Gapless k w = Stale secrets name_prefix laws 0 k w

  abbrev Stored : List (List A) → W → Type 0
  Stored cs w = (j : ℕ) → laws.value_at j w ≡ get_elem? cs j

  Stored-Gapless : (cs : List (List A)) (w : W) → Stored cs w → Gapless (length cs) w
  Stored-Gapless cs w stored j least = (
    (λ h. let (v, e) = get_elem?_in_range cs j h in (v, stored j ∙ e)),
    (λ h. stored j ∙ get_elem?_beyond cs j h),
  )

  -- A write of chunks that ends, and leaves them alone when it succeeds.
  abbrev Replaced : List (List A) → Option (Result E (Unit {0}) × W) → Type 0
  Replaced cs o = (r : Result E (Unit {0}) × W) × (o ≡ some r) × (r.0 ≡ ok tt → Stored cs r.1)

  write_split-Replaced :
      (fuel k : ℕ) (cs : List (List A)) (w : W)
      → k < fuel
      → Gapless k w
      → Replaced cs (write_split secrets name_prefix fuel cs w)
  unfolding write_split
  write_split-Replaced fuel k cs w enough gapless =
      let wrote = write_chunks secrets name_prefix 0 cs w in
      elim (Result-cases wrote.0) [
        | inr (e, q) ↦ ((err e, wrote.1), rw (write_split, q) refl, (λ h. absurd (err≢ok h)))
        | inl (u, q) ↦
            let laid = write_chunks-Overlaid secrets name_prefix laws 0 cs w q in
            let (r, e, cut) =
              delete_chunks_from-Cut secrets name_prefix laws fuel (length cs) k wrote.1
                (omega (arith, enough)) (omega (arith, enough))
                (λ j h.
                  let same = (laid j).2 (omega (arith, h)) in
                  let (is, not) = gapless j (omega arith) in
                  ((λ l. ((is l).0, same ∙ (is l).1)), (λ l. same ∙ not l))) in
            (
              r,
              rw (write_split, q) e,
              (λ done j.
                  let (before, after) = cut done j in
                  elim (Bool-cases (ltb j (length cs))) [
                    | inl h ↦
                        let l = ltb→lt j (length cs) h in before l ∙ (laid j).1 j (omega arith) l
                    | inr h ↦
                        let l : length cs ≤ j = ground (arith, h) in
                        after l ∙ sym (get_elem?_beyond cs j l)
                  ]),
            )
      ]

  read_values-sorted :
      (found : List (Secret A)) (cs : List (List A))
      → map (λ s. s.value) (secrets.sort_by_name found) ≡ cs
      → 0 < length cs
      → read_values secrets name_prefix (ok found) ≡ secrets.decompress (join [] cs)
  unfolding read_values
  read_values-sorted [] cs sorted some_chunk =
      let none_left : [] ≡ cs = rw (laws.sort_nil) at sorted in
      absurd (omega (arith, rw (← none_left) at some_chunk))
  read_values-sorted (s ∷ ss) cs sorted some_chunk = rw (read_values, sorted) refl

  read-Stored :
      (b compressed : List A) (cs : List (List A)) (w : W)
      → secrets.compress b ≡ ok compressed
      → chunk compressed max_chunk_size ≡ some cs
      → length cs ≤ 10
      → Stored cs w
      → (read secrets name_prefix w).0 ≡ ok b
  unfolding read join
  read-Stored b compressed cs w squeezed split few stored =
      let (found, listed, sorted) = laws.list_sorted cs w stored few in
      let (chunks, e, small, joined) = chunk-Splits compressed max_chunk_size (omega arith) in
      let same : chunks ≡ cs = some-injective (sym e ∙ split) in
      let whole : join [] cs ≡ compressed = rw (← same) (joined []) in
      rw (read, listed)
        (read_values-sorted found cs sorted (chunk_full compressed max_chunk_size cs split)
          ∙ ap secrets.decompress whole
          ∙ laws.decompress-compress b compressed squeezed)

  -- A write of data on a store without gaps ends, with more fuel than the store has chunks. When
  -- it succeeds a read gives the data back, and the store is again without gaps.
  abbrev pub Written : List A → ℕ → Option (Result E (Unit {0}) × W) → Type 0
  Written b n o =
      (r : Result E (Unit {0}) × W) × (o ≡ some r)
      × (r.0 ≡ ok tt → ((read secrets name_prefix r.1).0 ≡ ok b) × Gapless n r.1)

  -- Write of the secret store ends for a store whose chunks have no gap, on more fuel than there
  -- are chunks; when it succeeds, the store has the chunks of the new data and no stale one, and
  -- Read gives the data back. The data compresses to ten chunks at most, and the API server and
  -- gzip keep their laws.
  pub write-Written :
      (b compressed : List A) (cs : List (List A)) (fuel k : ℕ) (w : W)
      → k < fuel
      → Gapless k w
      → secrets.compress b ≡ ok compressed
      → chunk compressed max_chunk_size ≡ some cs
      → length cs ≤ 10
      → Written b (length cs) (write secrets name_prefix fuel b w)
  unfolding write
  write-Written b compressed cs fuel k w enough gapless squeezed split few =
      let (r, e, stored) = write_split-Replaced fuel k cs w enough gapless in
      (
        r,
        rw (write, squeezed, split) e,
        (λ done. (
          read-Stored b compressed cs r.1 squeezed split few (stored done),
          Stored-Gapless cs r.1 (stored done),
        )),
      )
