-- ===== src/Plugin/Db.antt =====
-- StupidDB of plugin/pkg/db/db.go. Each method holds the mutex from its first to its last line, so
-- it is one step. An error is a panic of the method.
pub mod Contents
pub mod Refines
use aks_flex.Common.{
  ◌≡◌, Bool, true, false, Option, none, some, List, [], ◌∷◌, ◌++◌, String, Result, ok, err, ◌>>=◌,
  or_err, map_err, Eq, ◌==◌, string_eq, if◌then◌else◌,
}
use aks_flex.Plugin.{Proto, Store}

-- The errors of helper.AnyTo.
pub data AnyError (E : Type 0) : Type 0 where
  unmarshalling : E → AnyError E
  type_mismatch : AnyError E

pub data Panic (E : Type 0) : Type 0 where
  reading : E → Panic E
  unmarshalling_list : E → Panic E
  unpacking : AnyError E → Panic E
  packing : E → Panic E
  marshalling_list : E → Panic E
  writing : E → Panic E

module _ {M O Any Bytes E : Type 0} (p : Proto M O Any Bytes E) where
  -- helper.To and helper.AnyTo for api.Object
  unfoldable pub to : M → Result (AnyError E) O
  to m = or_err (p.as_object m) type_mismatch

  unfoldable pub any_to : Any → Result (AnyError E) O
  unfolding to
  any_to a = map_err unmarshalling (p.unmarshal_new a) >>= to

  unfoldable pub unpack_all : List O → List Any → Result (Panic E) (List O)
  unfolding any_to
  unpack_all objs [] = ok objs
  unpack_all objs (item ∷ items) = elim (any_to item) [
    | err e ↦ err (unpacking e)
    | ok o ↦ unpack_all (objs ++ o ∷ []) items
  ]

  unfoldable pub pack_all : List Any → List O → Result (Panic E) (List Any)
  pack_all items [] = ok items
  pack_all items (o ∷ objs) = elim (p.new_any o) [
    | err e ↦ err (packing e)
    | ok item ↦ pack_all (items ++ item ∷ []) objs
  ]

  -- slices.DeleteFunc of the objects with an id
  unfoldable pub delete_id : String → List O → List O
  delete_id id [] = []
  delete_id id (o ∷ objs) = let rest = delete_id id objs in if p.id o == id then rest else o ∷ rest

  unfoldable pub find_id : String → List O → Option O
  find_id id [] = none
  find_id id (o ∷ objs) = if p.id o == id then some o else find_id id objs

  unfoldable pub put : O → List O → List O
  unfolding delete_id
  put obj objs = delete_id (p.id obj) objs ++ obj ∷ []

  -- `list` after the read, and `write` before the write.
  unfoldable pub decode : Bytes → Result (Panic E) (List O)
  unfolding unpack_all
  decode b = map_err unmarshalling_list (p.unmarshal b) >>= unpack_all []

  unfoldable pub encode : List O → Result (Panic E) Bytes
  unfolding pack_all
  encode objs = pack_all [] objs >>= (λ items. map_err marshalling_list (p.marshal items))

module _ {M O Any Bytes E World : Type 0} (p : Proto M O Any Bytes E)
    (store : Store Bytes E World) where
  -- list
  unfoldable pub list : World → Result (Panic E) (List O) × World
  unfolding decode
  list w = let (b, w') = store.read w in (map_err reading b >>= decode p, w')

  unfoldable pub write_encoded :
      Result (Panic E) Bytes → World → Result (Panic E) (Unit {0}) × World
  write_encoded (err e) w = (err e, w)
  write_encoded (ok b) w = let (r, w') = store.write b w in (map_err writing r, w')

  unfoldable pub write : List O → World → Result (Panic E) (Unit {0}) × World
  unfolding encode write_encoded
  write objs w = write_encoded (encode p objs) w

  -- What follows `db.list()` in a method that writes.
  unfoldable pub rewrite :
      (List O → List O) → Result (Panic E) (List O) → World → Result (Panic E) (Unit {0}) × World
  unfolding write
  rewrite change (err e) w = (err e, w)
  rewrite change (ok objs) w = write (change objs) w

  unfoldable pub create_or_update : O → World → Result (Panic E) (Unit {0}) × World
  unfolding list rewrite put
  create_or_update obj w = let (objs, w') = list w in rewrite (put p obj) objs w'

  unfoldable pub get : String → World → Result (Panic E) (Option O) × World
  unfolding list find_id
  get id w = let (objs, w') = list w in (objs >>= (λ os. ok (find_id p id os)), w')

  unfoldable pub delete : String → World → Result (Panic E) (Unit {0}) × World
  unfolding list rewrite delete_id
  delete id w = let (objs, w') = list w in rewrite (delete_id p id) objs w'
