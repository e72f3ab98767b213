-- ===== src/Plugin/Db/Contents.antt =====
-- What a method of the database leaves in the store.
use mathlib.Core.List.{append_assoc, append-nil}
use aks_flex.Common.{
  ◌≡◌, refl, sym, ap, ◌∙◌, inl, inr, none, some, List, [], ◌∷◌, ◌++◌, String, Result, ok, err,
  map_err, ◌==◌, string_eq, if◌then◌else◌, err≢ok, map_err-eq-ok, Result-cases, >>=-eq-ok, arith,
}
use aks_flex.Plugin.{Proto, ProtoLaws, Store, StoreLaws}
use aks_flex.Plugin.Db.{
  Panic, marshalling_list, writing, to, any_to, unpack_all, pack_all, delete_id, find_id, put,
  decode, encode, list, write_encoded, write, rewrite,
}

module _ {M O Any Bytes E : Type 0} (p : Proto M O Any Bytes E) where
  -- The objects that `get` sees after a change.
  pub find_id-put :
      (obj : O) (j : String) (objs : List O)
      → find_id p j (put p obj objs) ≡ (if p.id obj == j then some obj else find_id p j objs)
  unfolding find_id put delete_id
  find_id-put obj j [] = refl
  find_id-put obj j (o ∷ objs) = ground (
    arith,
    string_eq.same_iff (p.id o) (p.id obj),
    string_eq.same_iff (p.id o) j,
    string_eq.same_iff (p.id obj) j,
    find_id-put obj j objs,
  )

  pub find_id-delete_id :
      (i j : String) (objs : List O)
      → find_id p j (delete_id p i objs) ≡ (if i == j then none else find_id p j objs)
  unfolding find_id delete_id
  find_id-delete_id i j [] = ground arith
  find_id-delete_id i j (o ∷ objs) = ground (
    arith,
    string_eq.same_iff (p.id o) i,
    string_eq.same_iff (p.id o) j,
    string_eq.same_iff i j,
    find_id-delete_id i j objs,
  )

module _ {M O Any Bytes E : Type 0} (p : Proto M O Any Bytes E) (laws : ProtoLaws p) where
  pub any_to-new_any : (o : O) (a : Any) → p.new_any o ≡ ok a → any_to p a ≡ ok o
  unfolding any_to to
  any_to-new_any o a h = let (m, u, t) = laws.unmarshal_new-new_any o a h in rw (u, t) refl

  unpack_all-unpacked :
      (seen : List O) (a : Any) (o : O) (items : List Any)
      → any_to p a ≡ ok o
      → unpack_all p seen (a ∷ items) ≡ unpack_all p (seen ++ o ∷ []) items
  unfolding unpack_all
  unpack_all-unpacked seen a o items e = rw (e, unpack_all) refl

  -- What has been packed after some items unpacks to its objects.
  abbrev Unpacks : List Any → List O → List Any → Type 0
  Unpacks items objs all =
      (packed : List Any) × (all ≡ items ++ packed)
      × ((seen : List O) → unpack_all p seen packed ≡ ok (seen ++ objs))

  pack_all-Unpacks :
      (items : List Any) (objs : List O) (all : List Any)
      → pack_all p items objs ≡ ok all
      → Unpacks items objs all
  unfolding pack_all unpack_all
  pack_all-Unpacks items [] all h =
      let e : items ≡ all = cc in
      ([], sym e ∙ sym (append-nil items), (λ seen. ap ok (sym (append-nil seen))))
  pack_all-Unpacks items (o ∷ objs) all h = elim (Result-cases (p.new_any o)) [
    | inl (a, n) ↦
        let (packed, e, u) = pack_all-Unpacks (items ++ a ∷ []) objs all (rw (n, pack_all) at h) in
        (
          a ∷ packed,
          e ∙ append_assoc items (a ∷ []) packed,
          (λ seen.
              unpack_all-unpacked seen a o packed (any_to-new_any o a n)
              ∙ u (seen ++ o ∷ [])
              ∙ ap ok (append_assoc seen (o ∷ []) objs)),
        )
    | inr (why, n) ↦ absurd (err≢ok (rw (n, pack_all) at h))
  ]

  decode-encode : (objs : List O) (b : Bytes) → encode p objs ≡ ok b → decode p b ≡ ok objs
  unfolding encode decode
  decode-encode objs b h =
      let (items, e, m) =
        >>=-eq-ok (pack_all p [] objs) (λ items. map_err marshalling_list (p.marshal items)) h in
      let (packed, same, u) = pack_all-Unpacks [] objs items e in
      let back =
        laws.unmarshal-marshal items b (map_err-eq-ok marshalling_list (p.marshal items) b m) in
      rw (back, same) (u [])

module _ {M O Any Bytes E World : Type 0} (p : Proto M O Any Bytes E)
    (store : Store Bytes E World) where
  -- The objects of the database.
  abbrev pub Holds : World → List O → Type 0
  Holds w objs = (list p store w).0 ≡ ok objs

module _ {M O Any Bytes E World : Type 0} (p : Proto M O Any Bytes E) (laws : ProtoLaws p)
    (store : Store Bytes E World) (sound : StoreLaws store) where
  pub list-Holds :
      (w : World) (objs : List O) → Holds p store w objs → Holds p store (list p store w).1 objs
  unfolding list
  list-Holds w objs h = rw (sound.read_again w) h

  write_encoded-Holds :
      (objs : List O) (e : Result (Panic E) Bytes) (w : World)
      → encode p objs ≡ e
      → (write_encoded p store e w).0 ≡ ok tt
      → Holds p store (write_encoded p store e w).1 objs
  unfolding write_encoded list
  write_encoded-Holds objs (err why) w q h = absurd (err≢ok h)
  write_encoded-Holds objs (ok b) w q h =
      let written = map_err-eq-ok writing (store.write b w).0 tt h in
      rw (sound.read-write b w written) (decode-encode p laws objs b q)

  pub write-Holds :
      (objs : List O) (w : World)
      → (write p store objs w).0 ≡ ok tt
      → Holds p store (write p store objs w).1 objs
  unfolding write
  write-Holds objs w h = write_encoded-Holds objs (encode p objs) w refl h

  pub rewrite-Holds :
      (change : List O → List O) (objs : List O) (w : World)
      → Holds p store w objs
      → (rewrite p store change (list p store w).0 (list p store w).1).0 ≡ ok tt
      → Holds p store (rewrite p store change (list p store w).0 (list p store w).1).1 (change objs)
  unfolding rewrite
  rewrite-Holds change objs w h done =
      rw (h) (write-Holds (change objs) (list p store w).1 (rw (h) at done))
