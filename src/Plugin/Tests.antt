-- ===== src/Plugin/Tests.antt =====
-- A database of pairs of an id and a secret, on concrete calls.
use aks_flex.Common.{
  ℕ, arith, ◌≡◌, refl, sym, some, List, [], ◌∷◌, String, ok, err, string_eq, length,
}
use aks_flex.Common.Assoc.{Map, lookup, insert}
use aks_flex.Plugin.{Proto, ProtoLaws, Store, StoreLaws}
use aks_flex.Plugin.Chunks.{chunk, chunk_loop, take, drop, Splits, chunk-Splits}
use aks_flex.Plugin.Files.{
  File, FileLaws, file_store, read, read_sought, written, write_sought, write_truncated,
  get-file_store,
}
use aks_flex.Plugin.Db as Db
use aks_flex.Plugin.Db.{
  Panic, to, any_to, unpack_all, pack_all, delete_id, find_id, put, decode, encode, write_encoded,
  write, rewrite,
}
use aks_flex.Plugin.Db.Contents.{Holds, list-Holds}
use aks_flex.Plugin.Db.Refines.{Op, op_put, op_delete, apply, step, run, get-run}
use aks_flex.Plugin.Server.{
  Backend, must_register, redacted_item, respond, store_created, create_or_update, delete,
  delete_found, delete_stored, redacted_items, list, get,
}
use aks_flex.Plugin.Server.Redacted.{Deleted, delete-Deleted}

abbrev Object : Type 0
Object = String × String

abbrev proto : Proto Object Object Object (List Object) String
proto = record {
  id = λ o. o.0;
  redact = λ o. (o.0, "");
  type_url = λ o. "pool";
  any_type_url = λ a. "pool";
  new_any = λ o. ok o;
  unmarshal_new = λ a. ok a;
  as_object = λ m. some m;
  marshal = λ items. ok items;
  unmarshal = λ b. ok b;
}

proto-laws : ProtoLaws proto
proto-laws = record {
  unmarshal_new-new_any = λ o a h. (o, (let e : o ≡ a = cc in rw (e) refl), refl);
  unmarshal-marshal = λ items b h. sym h;
}

abbrev memory : Store (List Object) String (List Object)
memory = record { read = λ w. (ok w, w); write = λ b w. (ok tt, b) }

memory-laws : StoreLaws memory
memory-laws = record { read_again = λ w. refl; read-write = λ b w h. refl }

-- The cloud counts the objects that the back-end has created, as a list.
abbrev backend_server : Backend Object String (List Object) (List Object)
backend_server = record {
  create_or_update = λ a w c. (ok a, a ∷ c);
  list = λ id w c. (ok c, c);
  get = λ id w c. (err "none", c);
  delete = λ id w c. (ok tt, []);
}

abbrev servers : Map String (Backend Object String (List Object) (List Object))
servers = ("pool", backend_server) ∷ []

abbrev one : Object
one = ("a", "secret")

abbrev two : Object
two = ("b", "other")

Run : Unit {0}
unfolding lookup insert to any_to unpack_all pack_all delete_id find_id put decode encode Db.list
    write_encoded write rewrite Db.create_or_update Db.get Db.delete apply step run must_register
    redacted_item respond store_created create_or_update delete delete_found delete_stored
    redacted_items list get
Run = tt

registers : must_register proto [] backend_server one ≡ servers
unfolding Run
registers = refl

answers_redacted :
    create_or_update proto memory servers (some one) [] (two ∷ [])
    ≡ (ok ("a", ""), one ∷ [], two ∷ one ∷ [])
unfolding Run
answers_redacted = refl

lists_redacted : (list proto memory servers (two ∷ one ∷ [])).0 ≡ ok (("b", "") ∷ ("a", "") ∷ [])
unfolding Run
lists_redacted = refl

holds_two : Holds proto memory (two ∷ []) (two ∷ [])
unfolding Run
holds_two = refl

abbrev calls : List (Op Object)
calls = op_put one ∷ op_delete "b" ∷ op_put ("a", "new") ∷ []

calls_return : (run proto memory calls (two ∷ [])).0 ≡ ok tt
unfolding Run
calls_return = refl

get-run_example :
    (Db.get proto memory "a" (run proto memory calls (two ∷ [])).1).0
    ≡ ok (apply proto calls (λ j. find_id proto j (two ∷ [])) "a")
get-run_example =
    get-run proto memory proto-laws memory-laws calls (two ∷ []) (two ∷ []) holds_two calls_return
      "a"

-- A file of objects with its offset.
abbrev file : File Object String (List Object × ℕ)
file = record {
  seek_start = λ w. (ok tt, (w.0, 0));
  truncate = λ w. (ok tt, ([], w.1));
  write = λ b w. (ok (length b), (b, length b));
  read_all = λ w. (ok (drop w.1 w.0), (w.0, length w.0));
}

file_laws : FileLaws file
unfolding drop
file_laws = record {
  contents = λ w. w.0;
  offset = λ w. w.1;
  seek_succeeds = λ w. refl;
  seek_keeps = λ w. refl;
  seek_moves = λ w. refl;
  read_start = λ w h. rw (h) refl;
  read_keeps = λ w. refl;
  truncate_empties = λ w h. refl;
  write_start = λ b n w h k done. refl;
}

file_contents : (Db.list proto (file_store file) (two ∷ [], 1)).0 ≡ ok (two ∷ [])
unfolding Run file_store read read_sought drop
file_contents = refl

file_answers : (run proto (file_store file) calls (two ∷ [], 1)).0 ≡ ok tt
unfolding Run file_store read read_sought write written write_sought write_truncated drop
file_answers = refl

get-file_store_example :
    (Db.get proto (file_store file) "a" (run proto (file_store file) calls (two ∷ [], 1)).1).0
    ≡ ok (apply proto calls (λ j. find_id proto j (two ∷ [])) "a")
get-file_store_example =
    get-file_store file proto proto-laws file_laws calls (two ∷ []) (two ∷ [], 1) file_contents
      file_answers "a"

delete-Deleted_example :
    Deleted proto proto-laws memory memory-laws servers
      (Db.list proto memory (two ∷ [])).1
      (two ∷ [])
      (list-Holds proto proto-laws memory memory-laws (two ∷ []) (two ∷ []) holds_two)
      "b"
      (one ∷ [])
      (delete proto memory servers "b" (one ∷ []) (two ∷ []))
delete-Deleted_example =
    delete-Deleted proto proto-laws memory memory-laws servers (two ∷ []) (two ∷ []) holds_two "b"
      (one ∷ [])

abbrev three : List ℕ
three = 1 ∷ 2 ∷ 3 ∷ []

splits_three : chunk three 2 ≡ some ((1 ∷ 2 ∷ []) ∷ (3 ∷ []) ∷ [])
unfolding chunk chunk_loop take drop
splits_three = refl

chunk-Splits_example : Splits three 2 (chunk three 2)
chunk-Splits_example = chunk-Splits three 2 (omega arith)
