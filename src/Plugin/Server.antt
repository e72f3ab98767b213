-- ===== src/Plugin/Server.antt =====
-- plugin/pkg/server: `Parent` and `VirtualChild`. A back-end changes the cloud, and reads the
-- database at most. An item of a request may be nil; a panic of the database is one of the call.
pub mod Redacted
use aks_flex.Common.{
  ◌≡◌, Bool, true, false, Option, none, some, List, [], ◌∷◌, ◌++◌, String, Result, ok, err, ◌>>=◌,
  or_err, map_err, Eq, ◌==◌, string_eq, if◌then◌else◌,
}
use aks_flex.Common.Assoc.{Map, lookup, insert}
use aks_flex.Plugin.{Proto, Store}
use aks_flex.Plugin.Db.{AnyError, Panic, any_to}
use aks_flex.Plugin.Db as Db

-- What a call fails with: the status codes of grpc, the error of a back-end, those of the protobuf
-- package, and panics.
pub data Failure (E B : Type 0) : Type 0 where
  invalid_argument : Failure E B
  not_found : Failure E B
  unimplemented : String → Failure E B
  backend : B → Failure E B
  unpacking_failed : AnyError E → Failure E B
  packing_failed : E → Failure E B
  nil_item : Failure E B
  panicked : Panic E → Failure E B

-- A back-end server; a response of `CreateOrUpdate` or `Get` is its item.
pub record Backend (Any B Cloud World : Type 0) : Type 0 where
  pub create_or_update : Any → World → Cloud → Result B Any × Cloud
  pub list : String → World → Cloud → Result B (List Any) × Cloud
  pub get : String → World → Cloud → Result B Any × Cloud
  pub delete : String → World → Cloud → Result B (Unit {0}) × Cloud

-- MustRegister, for a server that its constructor returns; the message is an object here.
unfoldable pub must_register :
    {M O Any Bytes E S : Type 0} → Proto M O Any Bytes E → Map String S → S → O → Map String S
must_register p servers srv msg = insert (p.type_url msg) srv servers

module _ {M O Any Bytes E B Cloud World : Type 0} (p : Proto M O Any Bytes E)
    (store : Store Bytes E World) (servers : Map String (Backend Any B Cloud World)) where
  -- The end of a handler that returns one object.
  unfoldable pub redacted_item : O → Result (Failure E B) Any
  redacted_item obj = map_err packing_failed (p.new_any (p.redact obj))

  -- Parent.CreateOrUpdate after `DB.CreateOrUpdate(obj)`.
  unfoldable pub respond :
      O → Cloud → Result (Panic E) (Unit {0}) × World → Result (Failure E B) Any × Cloud × World
  unfolding redacted_item
  respond obj c (err e, w) = (err (panicked e), c, w)
  respond obj c (ok _, w) = (redacted_item obj, c, w)

  -- Parent.CreateOrUpdate after the back-end's call.
  unfoldable pub store_created :
      World → Result B Any × Cloud → Result (Failure E B) Any × Cloud × World
  unfolding respond
  store_created w (err e, c) = (err (backend e), c, w)
  store_created w (ok item, c) = elim (any_to p item) [
    | err e ↦ (err (unpacking_failed e), c, w)
    | ok obj ↦ respond obj c (Db.create_or_update p store obj w)
  ]

  unfoldable pub create_or_update :
      Option Any → Cloud → World → Result (Failure E B) Any × Cloud × World
  unfolding store_created
  create_or_update none c w = (err nil_item, c, w)
  create_or_update (some item) c w = elim (lookup (p.any_type_url item) servers) [
    | none ↦ (err invalid_argument, c, w)
    | some srv ↦ store_created w (srv.create_or_update item w c)
  ]

  unfoldable pub redacted_items : List Any → List O → Result (Failure E B) (List Any)
  redacted_items items [] = ok items
  redacted_items items (o ∷ objs) = elim (p.new_any (p.redact o)) [
    | err e ↦ err (packing_failed e)
    | ok item ↦ redacted_items (items ++ item ∷ []) objs
  ]

  unfoldable pub list : World → Result (Failure E B) (List Any) × World
  unfolding redacted_items
  list w = let (objs, w') = Db.list p store w in (map_err panicked objs >>= redacted_items [], w')

  unfoldable pub get : String → World → Result (Failure E B) Any × World
  unfolding redacted_item
  get id w =
      let (found, w') = Db.get p store id w in
      (map_err panicked found >>= (λ o. or_err o not_found) >>= redacted_item, w')

  -- Parent.Delete after the back-end's call.
  unfoldable pub delete_stored :
      String → World → Result B (Unit {0}) × Cloud → Result (Failure E B) (Unit {0}) × Cloud × World
  delete_stored id w (err e, c) = (err (backend e), c, w)
  delete_stored id w (ok _, c) = let (r, w') = Db.delete p store id w in (map_err panicked r, c, w')

  unfoldable pub delete_found :
      String
      → Cloud
      → Result (Panic E) (Option O) × World
      → Result (Failure E B) (Unit {0}) × Cloud × World
  unfolding delete_stored
  delete_found id c (err e, w) = (err (panicked e), c, w)
  delete_found id c (ok none, w) = (ok tt, c, w)
  delete_found id c (ok (some obj), w) = elim (lookup (p.type_url obj) servers) [
    | none ↦ (err invalid_argument, c, w)
    | some srv ↦ delete_stored id w (srv.delete id w c)
  ]

  unfoldable pub delete : String → Cloud → World → Result (Failure E B) (Unit {0}) × Cloud × World
  unfolding delete_found
  delete id c w = delete_found id c (Db.get p store id w)

  -- VirtualChild: the server of the parent object's type.
  unfoldable pub parent_server :
      Result (Panic E) (Option O) → Result (Failure E B) (Backend Any B Cloud World)
  parent_server found =
      map_err panicked found
      >>= (λ o. or_err o not_found)
      >>= (λ obj. or_err (lookup (p.type_url obj) servers) invalid_argument)

  unfoldable pub child_list :
      String → Cloud → World → Result (Failure E B) (List Any) × Cloud × World
  unfolding parent_server
  child_list id c w =
      let (found, w') = Db.get p store id w in
      elim (parent_server found) [
        | err e ↦ (err e, c, w')
        | ok srv ↦ let (r, c') = srv.list id w' c in (map_err backend r, c', w')
      ]

  -- `split_first` is strings.Split(id, "/")[0].
  unfoldable pub child_get :
      (String → String) → String → Cloud → World → Result (Failure E B) Any × Cloud × World
  unfolding parent_server
  child_get split_first id c w =
      let (found, w') = Db.get p store (split_first id) w in
      elim (parent_server found) [
        | err e ↦ (err e, c, w')
        | ok srv ↦ let (r, c') = srv.get id w' c in (map_err backend r, c', w')
      ]

  unfoldable pub child_create_or_update : Option Any → Result (Failure E B) Any
  child_create_or_update item = err (unimplemented "method CreateOrUpdate not implemented")

  unfoldable pub child_delete : String → Result (Failure E B) (Unit {0})
  child_delete id = err (unimplemented "method Delete not implemented")
