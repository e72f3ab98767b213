-- ===== src/Plugin/Secrets/Written.antt =====
-- What a write of the secret store leaves, and what a read finds then.
use aks_flex.Common.{
  arith, ℕ, zero, suc, ◌+◌, ◌≤◌, ◌<◌, ◌≡◌, refl, ap, ◌∙◌, ◌≢◌, inl, inr, Option, none, some, List,
  [], ◌∷◌, String, Result, ok, err, ◌==◌, ==_refl, ==_ne, nat_eq, if◌then◌else◌, length, get_elem?,
  Result-cases, Bool-cases, Option-cases, err≢ok, ltb, ltb→lt,
}
use aks_flex.Plugin.Secrets.{
  chunk_labels, Secret, Secrets, SecretsLaws, chunk_name, put_chunk, write_chunk, write_chunks,
  delete_chunks_from,
}

pub get_elem?_beyond : {A : Type 0} (xs : List A) (i : ℕ) → length xs ≤ i → get_elem? xs i ≡ none
get_elem?_beyond [] i h = refl
get_elem?_beyond (x ∷ xs) zero h = absurd (omega (arith, h))
get_elem?_beyond (x ∷ xs) (suc i) h = get_elem?_beyond xs i (omega (arith, h))

get_elem?_step :
    {A : Type 0} (c : A) (cs : List A) {o : Option A} (i j : ℕ)
    → (i ≡ j → o ≡ some c)
    → ((m : ℕ) → j ≡ suc i + m → m < length cs → o ≡ get_elem? cs m)
    → (m : ℕ) → j ≡ i + m
    → m < length (c ∷ cs)
    → o ≡ get_elem? (c ∷ cs) m
get_elem?_step c cs i j first rest zero e h = first (omega (arith, e))
get_elem?_step c cs i j first rest (suc m) e h = rest m (omega (arith, e)) (omega (arith, h))

some≢none : {A : Type 0} {o : Option A} {a : A} → o ≡ some a → o ≡ none → ⊥
some≢none h k = cc

module _ {A E W : Type 0} (secrets : Secrets A E W) (name_prefix : String)
    (laws : SecretsLaws secrets name_prefix) where
  write_chunk-value :
      (i : ℕ) (c : List A) (w : W)
      → (write_chunk secrets name_prefix i c w).0 ≡ ok tt
      → (j : ℕ)
      → laws.value_at j (write_chunk secrets name_prefix i c w).1
        ≡ (if i == j then some c else laws.value_at j w)
  unfolding write_chunk put_chunk
  write_chunk-value i c w done j =
      let name = chunk_name secrets name_prefix i in
      let secret : Secret A = record {
        name = name;
        labels = chunk_labels name_prefix;
        value = c;
      } in
      let same = laws.get_reads i w in
      elim (Result-cases (secrets.get name w).0) [
        | inl (existing, q) ↦
            rw (write_chunk, q, put_chunk, same)
              (laws.update_writes i j
                (record existing { value = c; labels = chunk_labels name_prefix }) w
                (laws.get_name i existing w q) refl (rw (write_chunk, q, put_chunk, same) at done))
        | inr (e, q) ↦ elim (Bool-cases (secrets.is_not_found e)) [
          | inl k ↦
              rw (write_chunk, q, put_chunk, k, same)
                (laws.create_writes i j secret w refl refl
                  (rw (write_chunk, q, put_chunk, k, same) at done))
          | inr k ↦ absurd (err≢ok (rw (write_chunk, q, put_chunk, k) at done))
        ]
      ]

  -- The chunks stand from an index on, and every other value is as it was.
  abbrev pub Overlaid : ℕ → List (List A) → W → W → Type 0
  Overlaid i cs w w' =
      (j : ℕ)
      → (j < i → laws.value_at j w' ≡ laws.value_at j w)
        × ((m : ℕ) → j ≡ i + m → m < length cs → laws.value_at j w' ≡ get_elem? cs m)
        × (i + length cs ≤ j → laws.value_at j w' ≡ laws.value_at j w)

  pub write_chunks-Overlaid :
      (i : ℕ) (cs : List (List A)) (w : W)
      → (write_chunks secrets name_prefix i cs w).0 ≡ ok tt
      → Overlaid i cs w (write_chunks secrets name_prefix i cs w).1
  unfolding write_chunks
  write_chunks-Overlaid i [] w done j =
      ((λ h. refl), (λ m e h. absurd (omega (arith, h))), (λ h. refl))
  write_chunks-Overlaid i (c ∷ cs) w done j =
      let first = write_chunk secrets name_prefix i c w in
      elim (Result-cases first.0) [
        | inr (e, q) ↦ absurd (err≢ok (rw (write_chunks, q) at done))
        | inl (u, q) ↦
            let value = write_chunk-value i c w q j in
            let kept : i ≢ j → laws.value_at j first.1 ≡ laws.value_at j w =
              λ h. value ∙ ap (λ b. if b then some c else laws.value_at j w) (==_ne i j h) in
            let (before, at, beyond) =
              write_chunks-Overlaid (suc i) cs first.1 (rw (write_chunks, q) at done) j in
            rw (write_chunks, q)
              (
                (λ h. before (omega (arith, h)) ∙ kept (λ e. omega (arith, e, h))),
                get_elem?_step c cs i j
                    (λ e.
                      before (omega (arith, e))
                      ∙ value
                      ∙ ap (λ b. if b then some c else laws.value_at j w)
                          ((nat_eq.same_iff i j).1 e))
                    at,
                (λ h. beyond (omega (arith, h)) ∙ kept (λ e. omega (arith, e, h))),
              )
      ]

  -- The values from an index on are those of `k` chunks.
  abbrev pub Stale : ℕ → ℕ → W → Type 0
  Stale i k w =
      (j : ℕ)
      → i ≤ j
      → (j < k → (v : List A) × (laws.value_at j w ≡ some v)) × (k ≤ j → laws.value_at j w ≡ none)

  -- A deletion that ends has removed what stands from an index on, when it succeeds.
  abbrev pub Cut : ℕ → W → Option (Result E (Unit {0}) × W) → Type 0
  Cut i w o =
      (r : Result E (Unit {0}) × W) × (o ≡ some r)
      × (r.0 ≡ ok tt
          → (j : ℕ)
          → (j < i → laws.value_at j r.1 ≡ laws.value_at j w)
            × (i ≤ j → laws.value_at j r.1 ≡ none))

  pub delete_chunks_from-Cut :
      (fuel i k : ℕ) (w : W)
      → 0 < fuel
      → k < i + fuel
      → Stale i k w
      → Cut i w (delete_chunks_from secrets name_prefix fuel i w)
  unfolding delete_chunks_from
  delete_chunks_from-Cut zero i k w pos enough stale = absurd (omega (arith, pos))
  delete_chunks_from-Cut (suc fuel) i k w pos enough stale =
      elim (Option-cases (laws.value_at i w)) [
        | inl q ↦
            let (e, unfound, missing) = laws.delete_missing i w q in
            let last : k ≤ i = elim (Bool-cases (ltb i k)) [
              | inl h ↦
                  let (v, l) = (stale i (omega arith)).0 (ltb→lt i k h) in absurd (some≢none l q)
              | inr h ↦ ground (arith, h)
            ] in
            (
              (ok tt, w),
              rw (delete_chunks_from, missing, unfound, ap (λ p. p.1) missing) refl,
              (λ h j. ((λ l. refl), (λ l. (stale j l).1 (omega (arith, l, last))))),
            )
        | inr (v, q) ↦
            let gone = secrets.delete (chunk_name secrets name_prefix i) w in
            elim (Result-cases gone.0) [
              | inr (e, l) ↦
                  let fails = laws.delete_found i v e w q l in
                  (
                    (err e, gone.1),
                    rw (delete_chunks_from, l, fails) refl,
                    (λ h j. absurd (err≢ok h)),
                  )
              | inl (u, l) ↦
                  let within : i < k = elim (Bool-cases (ltb i k)) [
                    | inl h ↦ ltb→lt i k h
                    | inr h ↦ absurd (some≢none q ((stale i (omega arith)).1 (ground (arith, h))))
                  ] in
                  let kept : (j : ℕ) → i ≢ j → laws.value_at j gone.1 ≡ laws.value_at j w = λ j h.
                    laws.delete_removes i j w l
                    ∙ ap (λ b. if b then none else laws.value_at j w) (==_ne i j h) in
                  let cleared : laws.value_at i gone.1 ≡ none =
                    laws.delete_removes i i w l
                    ∙ ap (λ b. if b then none else laws.value_at i w) (==_refl i) in
                  let (r, e, cut) =
                    delete_chunks_from-Cut fuel (suc i) k gone.1 (omega (arith, enough, within))
                      (omega (arith, enough))
                      (λ j m.
                        let (is, not) = stale j (omega (arith, m)) in
                        let same = kept j (λ n. omega (arith, n, m)) in
                        ((λ h. ((is h).0, same ∙ (is h).1)), (λ h. same ∙ not h))) in
                  (
                    r,
                    rw (delete_chunks_from, l) e,
                    (λ h j.
                        let (before, after) = cut h j in
                        (
                          (λ m. before (omega (arith, m)) ∙ kept j (λ n. omega (arith, n, m))),
                          (λ m. elim (Bool-cases (i == j)) [
                            | inl n ↦
                                let same = (nat_eq.same_iff i j).0 n in
                                before (omega (arith, same)) ∙ rw (← same) cleared
                            | inr n ↦ after (ground (arith, m, n, nat_eq.same_iff i j))
                          ]),
                        )),
                  )
            ]
      ]
