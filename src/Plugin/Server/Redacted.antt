-- ===== src/Plugin/Server/Redacted.antt =====
-- What `Parent` answers and what it leaves in the database.
use aks_flex.Common.{
  ◌≡◌, refl, ◌⊎◌, inl, inr, Option, none, some, List, String, Result, ok, err, ◌==◌, string_eq,
  if◌then◌else◌, Result-cases, Option-cases,
}
use aks_flex.Common.Assoc.{Map, lookup}
use aks_flex.Plugin.{Proto, ProtoLaws, Store, StoreLaws}
use aks_flex.Plugin.Db as Db
use aks_flex.Plugin.Db.{Panic, find_id, delete_id}
use aks_flex.Plugin.Db.Contents.{Holds, find_id-delete_id, rewrite-Holds, list-Holds}
use aks_flex.Plugin.Server.{
  Failure, invalid_argument, backend, panicked, Backend, delete_stored, delete_found, delete,
}

module _ {M O Any Bytes E World : Type 0} (p : Proto M O Any Bytes E) (laws : ProtoLaws p)
    (store : Store Bytes E World) (sound : StoreLaws store) where
  pub get-Holds :
      (w : World) (objs : List O) (id : String)
      → Holds p store w objs
      → Db.get p store id w ≡ (ok (find_id p id objs), (Db.list p store w).1)
  unfolding Db.get
  get-Holds w objs id h = rw (h) refl

  get-delete :
      (w : World) (objs : List O) (i : String)
      → Holds p store w objs
      → (Db.delete p store i w).0 ≡ ok tt
      → (id : String)
      → (Db.get p store id (Db.delete p store i w).1).0
        ≡ ok (if i == id then none else find_id p id objs)
  unfolding Db.delete Db.get
  get-delete w objs i h done id =
      rw
        (
          rewrite-Holds p laws store sound (delete_id p i) objs w h done,
          find_id-delete_id p i id objs,
        )
        refl

  module _ {B Cloud : Type 0} (servers : Map String (Backend Any B Cloud World)) (w : World)
      (objs : List O) (h : Holds p store w objs) where
    -- The answer is a redacted object; the database has it as the back-end returned it.
    abbrev pub IsStored : Any → Result (Failure E B) Any × Cloud × World → Type 0
    IsStored resp r =
        (obj : O) × (p.new_any (p.redact obj) ≡ ok resp)
        × ((id : String)
            → (Db.get p store id r.2).0
              ≡ ok (if p.id obj == id then some obj else find_id p id objs))

    -- What Delete does with the answer of the back-end: an error keeps the object.
    abbrev Removed :
        String
        → Result B (Unit {0}) × Cloud
        → Result (Failure E B) (Unit {0}) × Cloud × World
        → Type 0
    Removed id answer r =
        ((e : B) × (answer.0 ≡ err e) × (r ≡ (err (backend e), answer.1, w)))
        ⊎ ((answer.0 ≡ ok tt)
            × (r.1 ≡ answer.1)
            × (((e : Panic E) × (r.0 ≡ err (panicked e)))
                ⊎ ((r.0 ≡ ok tt)
                    × ((j : String)
                        → (Db.get p store j r.2).0
                          ≡ ok (if id == j then none else find_id p j objs)))))

    delete_stored-Removed :
        (id : String) (r : Result B (Unit {0})) (c : Cloud)
        → Removed id (r, c) (delete_stored p store servers id w (r, c))
    unfolding delete_stored
    delete_stored-Removed id (err e) c = inl (e, refl, refl)
    delete_stored-Removed id (ok u) c = elim (Result-cases (Db.delete p store id w).0) [
      | inl (v, e) ↦ inr (refl, refl, inr (rw (e) refl, get-delete w objs id h e))
      | inr (why, e) ↦ inr (refl, refl, inl (why, rw (e) refl))
    ]

    -- Delete on each branch: an id with no object, an object with no server, and one with a server.
    abbrev pub Deleted : String → Cloud → Result (Failure E B) (Unit {0}) × Cloud × World → Type 0
    Deleted id c r =
        ((find_id p id objs ≡ none) × (r ≡ (ok tt, c, w)))
        ⊎ ((obj : O) × (find_id p id objs ≡ some obj)
            × (((lookup (p.type_url obj) servers ≡ none) × (r ≡ (err invalid_argument, c, w)))
                ⊎ ((srv : Backend Any B Cloud World) × (lookup (p.type_url obj) servers ≡ some srv)
                    × Removed id (srv.delete id w c) r)))

    delete_found-Deleted :
        (id : String) (c : Cloud) (found : Option O)
        → find_id p id objs ≡ found
        → Deleted id c (delete_found p store servers id c (ok found, w))
    unfolding delete_found
    delete_found-Deleted id c none q = inl (q, refl)
    delete_found-Deleted id c (some obj) q = elim (Option-cases (lookup (p.type_url obj) servers)) [
      | inl e ↦ inr (obj, q, inl (e, rw (e, delete_found) refl))
      | inr (srv, e) ↦ inr (
        obj,
        q,
        inr (
          srv,
          e,
          rw (e, delete_found)
              (delete_stored-Removed id (srv.delete id w c).0 (srv.delete id w c).1),
        ),
      )
    ]

  module _ {B Cloud : Type 0} (servers : Map String (Backend Any B Cloud World)) (w : World)
      (objs : List O) (h : Holds p store w objs) where
    -- Delete of Parent reads the database, which keeps its objects; it then returns without a
    -- call of a back-end and changes nothing when no object has the id, fails and changes nothing
    -- when no back-end is registered for the object's type, returns the error of the back-end and
    -- keeps the database when the back-end fails, and when the back-end succeeds panics in the
    -- database or removes the object and leaves every other. The database holds some objects
    -- before, and the protobuf package and the store keep their round trips.
    pub delete-Deleted :
        (id : String) (c : Cloud)
        → let w' = (Db.list p store w).1 in
          Deleted servers w' objs
            (list-Holds p laws store sound w objs h)
            id
            c
            (delete p store servers id c w)
    unfolding delete
    delete-Deleted id c = rw (get-Holds w objs id h) (
        delete_found-Deleted servers (Db.list p store w).1 objs
          (list-Holds p laws store sound w objs h) id c (find_id p id objs) refl)
