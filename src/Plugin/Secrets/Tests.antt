-- ===== src/Plugin/Secrets/Tests.antt =====
-- A namespace with room for the first chunk alone, and data that is not compressed.
use aks_flex.Common.{
  arith, ℕ, zero, suc, ◌≡◌, refl, sym, Bool, true, false, Option, none, some, List, [], ◌∷◌, map,
  String, Result, ok, err, ◌==◌, string_eq, nat_eq, if◌then◌else◌, get_elem?, err≢ok, ==_ne,
}
use aks_flex.Plugin.Chunks.{chunk, chunk_loop, take, drop}
use aks_flex.Plugin.Secrets.{
  chunk_labels, Secret, Secrets, SecretsLaws, max_chunk_size, chunk_name, write, write_split,
  write_chunks, write_chunk, put_chunk, delete_chunks_from,
}
use aks_flex.Plugin.Secrets.RoundTrip.{Gapless, Written, write-Written}

abbrev World : Type 0
World = Option (List ℕ)

abbrev first_name : String
first_name = "db-0"

abbrev secret_of : List ℕ → Secret ℕ
secret_of v = record { name = first_name; labels = chunk_labels "db"; value = v }

get_named : Bool → World → Result String (Secret ℕ)
get_named true (some v) = ok (secret_of v)
get_named true none = err "not found"
get_named false w = err "not found"

put_named : Bool → List ℕ → World → Result String (Unit {0}) × World
put_named true v w = (ok tt, some v)
put_named false v w = (err "full", w)

delete_named : Bool → World → Result String (Unit {0}) × World
delete_named true (some v) = (ok tt, none)
delete_named true none = (err "not found", none)
delete_named false w = (err "not found", w)

listed : World → List (Secret ℕ)
listed none = []
listed (some v) = secret_of v ∷ []

abbrev digit : ℕ → String
digit zero = "0"
digit (suc n) = "1"

abbrev secrets : Secrets ℕ String World
secrets = record {
  get = λ name w. (get_named (name == first_name) w, w);
  create = λ s w. put_named (s.name == first_name) s.value w;
  update = λ s w. put_named (s.name == first_name) s.value w;
  delete = λ name w. delete_named (name == first_name) w;
  list = λ selector w. (ok (listed w), w);
  is_not_found = λ e. e == "not found";
  sort_by_name = λ ss. ss;
  compress = λ b. ok b;
  decompress = λ c. ok c;
  decimal = digit;
}

abbrev value : ℕ → World → Option (List ℕ)
value zero w = w
value (suc n) w = none

put_value :
    (i j : ℕ) (s : Secret ℕ) (w : World)
    → s.name ≡ chunk_name secrets "db" i
    → (put_named (s.name == first_name) s.value w).0 ≡ ok tt
    → value j (put_named (s.name == first_name) s.value w).1
      ≡ (if i == j then some s.value else value j w)
unfolding chunk_name put_named
put_value zero zero s w e h = rw (e) refl
put_value zero (suc j) s w e h = rw (==_ne 0 (suc j) (λ k. omega (arith, k))) refl
put_value (suc i) j s w e h = absurd (err≢ok (rw (e) at h))

delete_value :
    (i j : ℕ) (w : World)
    → (delete_named (chunk_name secrets "db" i == first_name) w).0 ≡ ok tt
    → value j (delete_named (chunk_name secrets "db" i == first_name) w).1
      ≡ (if i == j then none else value j w)
unfolding chunk_name delete_named
delete_value zero zero (some v) h = refl
delete_value zero (suc j) (some v) h = rw (==_ne 0 (suc j) (λ k. omega (arith, k))) refl
delete_value zero j none h = absurd (err≢ok h)
delete_value (suc i) j w h = absurd (err≢ok h)

delete_found_value :
    (i : ℕ) (v : List ℕ) (e : String) (w : World)
    → value i w ≡ some v
    → (delete_named (chunk_name secrets "db" i == first_name) w).0 ≡ err e
    → (e == "not found") ≡ false
unfolding chunk_name delete_named
delete_found_value zero v e (some u) q h = absurd (err≢ok (sym h))
delete_found_value zero v e none q h = absurd cc
delete_found_value (suc i) v e w q h = absurd cc

delete_missing_value :
    (i : ℕ) (w : World)
    → value i w ≡ none
    → (e : String) × ((e == "not found") ≡ true)
      × (delete_named (chunk_name secrets "db" i == first_name) w ≡ (err e, w))
unfolding chunk_name delete_named
delete_missing_value zero (some v) q = absurd cc
delete_missing_value zero none q = ("not found", refl, refl)
delete_missing_value (suc i) w q = ("not found", refl, refl)

get_name_value :
    (i : ℕ) (s : Secret ℕ) (w : World)
    → get_named (chunk_name secrets "db" i == first_name) w ≡ ok s
    → s.name ≡ chunk_name secrets "db" i
unfolding chunk_name get_named
get_name_value zero s (some v) h = let e : secret_of v ≡ s = cc in rw (← e) refl
get_name_value zero s none h = absurd (err≢ok h)
get_name_value (suc i) s w h = absurd (err≢ok h)

listed_value :
    (cs : List (List ℕ)) (w : World)
    → ((i : ℕ) → value i w ≡ get_elem? cs i)
    → map (λ s. s.value) (listed w) ≡ cs
unfolding listed
listed_value [] none h = refl
listed_value [] (some v) h = absurd (let e = h 0 in cc)
listed_value (c ∷ cs) none h = absurd (let e = h 0 in cc)
listed_value (c ∷ []) (some v) h = let e = h 0 in let same : v ≡ c = cc in rw (same) refl
listed_value (c ∷ (d ∷ cs)) (some v) h = absurd (let e = h 1 in cc)

laws : SecretsLaws secrets "db"
laws = record {
  value_at = value;
  get_reads = λ i w. refl;
  get_name = get_name_value;
  create_writes = λ i j s w e l h. put_value i j s w e h;
  update_writes = λ i j s w e l h. put_value i j s w e h;
  delete_removes = delete_value;
  delete_found = delete_found_value;
  delete_missing = delete_missing_value;
  list_sorted = λ cs w h few. (listed w, refl, listed_value cs w h);
  sort_nil = refl;
  decompress-compress = λ b c h. sym h;
}

abbrev old : World
old = some (7 ∷ [])

one_chunk : Gapless secrets "db" laws 1 old
unfolding laws
one_chunk zero h = ((λ l. (7 ∷ [], refl)), (λ l. absurd (omega (arith, l))))
one_chunk (suc j) h = ((λ l. absurd (omega (arith, l))), (λ l. refl))

abbrev fresh : List ℕ
fresh = 1 ∷ 2 ∷ []

split_new : chunk fresh max_chunk_size ≡ some (fresh ∷ [])
unfolding chunk chunk_loop take drop
split_new = refl

write_new : write secrets "db" 2 fresh old ≡ some (ok tt, some fresh)
unfolding write chunk chunk_loop take drop write_split write_chunks write_chunk put_chunk
    delete_chunks_from chunk_name get_named put_named delete_named
write_new = refl

write-Written_example : Written secrets "db" laws fresh 1 (write secrets "db" 2 fresh old)
write-Written_example =
    write-Written secrets "db" laws fresh fresh (fresh ∷ []) 2 1 old (omega arith) one_chunk refl
      split_new (omega arith)
