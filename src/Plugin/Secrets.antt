-- ===== src/Plugin/Secrets.antt =====
-- secretStore of plugin/pkg/db/secretstore.go, over `Chunks`. Each method holds the mutex from its
-- first to its last line. The loop that deletes stale chunks runs on fuel, `none` when it is spent.
pub mod Written
pub mod RoundTrip
mod Tests
use Prim.Native.String.{◌++◌ as concat}
use aks_flex.Common.{
  ℕ, zero, suc, ◌+◌, ◌≤◌, ◌<◌, ◌^◌, ◌≡◌, Bool, true, false, Option, none, some, List, [], ◌∷◌, map,
  String, Result, ok, err, ◌>>=◌, ◌==◌, nat_eq, if◌then◌else◌, length, get_elem?,
}
use aks_flex.Common.Assoc.{Map}
use aks_flex.Plugin.Chunks.{chunk, join}

-- A Secret of the store: its name, its labels, and the value under the key of the data.
pub record Secret (A : Type 0) : Type 0 where
  pub name : String
  pub labels : Map String String
  pub value : List A

-- The client of the namespace's Secrets, where `list` selects by labels; sort.Slice by
-- the names; gzip; and `%d` of an index.
pub record Secrets (A E W : Type 0) : Type 0 where
  pub get : String → W → Result E (Secret A) × W
  pub create : Secret A → W → Result E (Unit {0}) × W
  pub update : Secret A → W → Result E (Unit {0}) × W
  pub delete : String → W → Result E (Unit {0}) × W
  pub list : Map String String → W → Result E (List (Secret A)) × W
  pub is_not_found : E → Bool
  pub sort_by_name : List (Secret A) → List (Secret A)
  pub compress : List A → Result E (List A)
  pub decompress : List A → Result E (List A)
  pub decimal : ℕ → String

abbrev pub max_chunk_size : ℕ
max_chunk_size = 2 ^ 20

-- chunkLabels
unfoldable pub chunk_labels : String → Map String String
chunk_labels name_prefix =
    ("app.kubernetes.io/managed-by", "stretch-db") ∷ ("stretch-db/store", name_prefix) ∷ []

module _ {A E W : Type 0} (secrets : Secrets A E W) (name_prefix : String) where
  unfoldable pub chunk_name : ℕ → String
  chunk_name index = concat (concat name_prefix "-") (secrets.decimal index)

  -- listChunks after the call, and the values that Read appends.
  unfoldable pub read_values : Result E (List (Secret A)) → Result E (List A)
  unfolding join
  read_values (err e) = err e
  read_values (ok []) = ok []
  read_values (ok (s ∷ ss)) =
      secrets.decompress (join [] (map (λ s. s.value) (secrets.sort_by_name (s ∷ ss))))

  unfoldable pub read : W → Result E (List A) × W
  unfolding read_values chunk_labels
  read w = let (r, w') = secrets.list (chunk_labels name_prefix) w in (read_values r, w')

  -- The Secret of a chunk after the look-up of its name.
  unfoldable pub put_chunk : Secret A → Result E (Secret A) × W → Result E (Unit {0}) × W
  put_chunk secret (ok existing, w) =
      secrets.update (record existing { value = secret.value; labels = secret.labels }) w
  put_chunk secret (err e, w) =
      if secrets.is_not_found e then secrets.create secret w else (err e, w)

  unfoldable pub write_chunk : ℕ → List A → W → Result E (Unit {0}) × W
  unfolding chunk_name put_chunk chunk_labels
  write_chunk index value w =
      put_chunk
        (record { name = chunk_name index; labels = chunk_labels name_prefix; value = value })
        (secrets.get (chunk_name index) w)

  unfoldable pub write_chunks : ℕ → List (List A) → W → Result E (Unit {0}) × W
  unfolding write_chunk
  write_chunks index [] w = (ok tt, w)
  write_chunks index (c ∷ cs) w =
      let (r, w') = write_chunk index c w in
      elim r [ err e ↦ (err e, w') | ok _ ↦ write_chunks (suc index) cs w' ]

  unfoldable pub delete_chunks_from : ℕ → ℕ → W → Option (Result E (Unit {0}) × W)
  unfolding chunk_name
  delete_chunks_from zero index w = none
  delete_chunks_from (suc fuel) index w =
      let (r, w') = secrets.delete (chunk_name index) w in
      elim r [
        | ok _ ↦ delete_chunks_from fuel (suc index) w'
        | err e ↦ some ((if secrets.is_not_found e then ok tt else err e), w')
      ]

  -- Write once the data is split.
  unfoldable pub write_split : ℕ → List (List A) → W → Option (Result E (Unit {0}) × W)
  unfolding write_chunks delete_chunks_from
  write_split fuel chunks w =
      let (r, w') = write_chunks 0 chunks w in
      elim r [ err e ↦ some (err e, w') | ok _ ↦ delete_chunks_from fuel (length chunks) w' ]

  unfoldable pub write : ℕ → List A → W → Option (Result E (Unit {0}) × W)
  unfolding chunk write_split
  write fuel b w = elim (secrets.compress b) [
    | err e ↦ some (err e, w)
    | ok compressed ↦ elim (chunk compressed max_chunk_size) [
      | none ↦ none
      | some chunks ↦ write_split fuel chunks w
    ]
  ]

  -- What the API server promises for the values that it has for the chunks' names, where the
  -- Secrets have the labels of the store: a call that succeeds does what it says to the name of its
  -- Secret and nothing to another chunk, and a name that is not found has no value. Gzip reads back
  -- what it has written. A list finds the Secrets of the store, and their names as text are in the
  -- order of the chunks where these are ten at most.
  pub record SecretsLaws : Type 0 where
    pub value_at : ℕ → W → Option (List A)
    pub get_reads : (i : ℕ) (w : W) → (secrets.get (chunk_name i) w).1 ≡ w
    pub get_name :
        (i : ℕ) (s : Secret A) (w : W)
        → (secrets.get (chunk_name i) w).0 ≡ ok s
        → s.name ≡ chunk_name i
    pub create_writes :
        (i j : ℕ) (s : Secret A) (w : W)
        → s.name ≡ chunk_name i
        → s.labels ≡ chunk_labels name_prefix
        → (secrets.create s w).0 ≡ ok tt
        → value_at j (secrets.create s w).1 ≡ (if i == j then some s.value else value_at j w)
    pub update_writes :
        (i j : ℕ) (s : Secret A) (w : W)
        → s.name ≡ chunk_name i
        → s.labels ≡ chunk_labels name_prefix
        → (secrets.update s w).0 ≡ ok tt
        → value_at j (secrets.update s w).1 ≡ (if i == j then some s.value else value_at j w)
    pub delete_removes :
        (i j : ℕ) (w : W)
        → (secrets.delete (chunk_name i) w).0 ≡ ok tt
        → value_at j (secrets.delete (chunk_name i) w).1 ≡ (if i == j then none else value_at j w)
    pub delete_found :
        (i : ℕ) (v : List A) (e : E) (w : W)
        → value_at i w ≡ some v
        → (secrets.delete (chunk_name i) w).0 ≡ err e
        → secrets.is_not_found e ≡ false
    pub delete_missing :
        (i : ℕ) (w : W)
        → value_at i w ≡ none
        → (e : E) × (secrets.is_not_found e ≡ true) × (secrets.delete (chunk_name i) w ≡ (err e, w))
    pub list_sorted :
        (cs : List (List A)) (w : W)
        → ((i : ℕ) → value_at i w ≡ get_elem? cs i)
        → length cs ≤ 10
        → (found : List (Secret A)) × ((secrets.list (chunk_labels name_prefix) w).0 ≡ ok found)
          × (map (λ s. s.value) (secrets.sort_by_name found) ≡ cs)
    pub sort_nil : secrets.sort_by_name [] ≡ []
    pub decompress-compress :
        (b c : List A) → secrets.compress b ≡ ok c → secrets.decompress c ≡ ok b
