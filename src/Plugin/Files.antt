-- ===== src/Plugin/Files.antt =====
-- lockedFileStore of plugin/pkg/db/filestore.go: a store over an os.File. Each method holds the
-- mutex and the lock of the file from its first to its last line, so it is one step; a lock that
-- fails panics, and the file stays open.
use aks_flex.Common.{
  ℕ, ◌≡◌, sym, ap, ◌∙◌, String, List, [], Result, ok, err, Result-cases, err≢ok, inl, inr,
}
use aks_flex.Plugin.{Proto, ProtoLaws, Store, StoreLaws}
use aks_flex.Plugin.Db as Db
use aks_flex.Plugin.Db.{Panic, find_id}
use aks_flex.Plugin.Db.Refines.{Op, apply, run, get-run}

-- The methods of an os.File and io.ReadAll over a world; a written length is not looked at.
pub record File (A E World : Type 0) : Type 0 where
  pub seek_start : World → Result E (Unit {0}) × World
  pub truncate : World → Result E (Unit {0}) × World
  pub write : List A → World → Result E ℕ × World
  pub read_all : World → Result E (List A) × World

-- What a file promises for its contents and its offset: a seek to its start and a read succeed, a
-- read gives the bytes from the offset on and keeps the contents, a seek keeps the contents, a
-- truncation that succeeds leaves none, and a write that succeeds to an empty file whose offset is
-- its start leaves what was written.
pub record FileLaws {A E World : Type 0} (f : File A E World) : Type 0 where
  pub contents : World → List A
  pub offset : World → ℕ
  pub seek_succeeds : (w : World) → (f.seek_start w).0 ≡ ok tt
  pub seek_keeps : (w : World) → contents (f.seek_start w).1 ≡ contents w
  pub seek_moves : (w : World) → offset (f.seek_start w).1 ≡ 0
  pub read_start : (w : World) → offset w ≡ 0 → (f.read_all w).0 ≡ ok (contents w)
  pub read_keeps : (w : World) → contents (f.read_all w).1 ≡ contents w
  pub truncate_empties : (w : World) → (f.truncate w).0 ≡ ok tt → contents (f.truncate w).1 ≡ []
  pub write_start :
      (b : List A) (n : ℕ) (w : World)
      → offset w ≡ 0
      → contents w ≡ []
      → (f.write b w).0 ≡ ok n
      → contents (f.write b w).1 ≡ b

module _ {A E World : Type 0} (f : File A E World) where
  -- Read after the seek.
  unfoldable pub read_sought : Result E (Unit {0}) × World → Result E (List A) × World
  read_sought (err e, w) = (err e, w)
  read_sought (ok _, w) = f.read_all w

  unfoldable pub read : World → Result E (List A) × World
  unfolding read_sought
  read w = read_sought (f.seek_start w)

  unfoldable pub written : Result E ℕ × World → Result E (Unit {0}) × World
  written (err e, w) = (err e, w)
  written (ok n, w) = (ok tt, w)

  -- Write after the seek.
  unfoldable pub write_sought : List A → Result E (Unit {0}) × World → Result E (Unit {0}) × World
  unfolding written
  write_sought b (err e, w) = (err e, w)
  write_sought b (ok _, w) = written (f.write b w)

  -- Write after the truncation.
  unfoldable pub write_truncated :
      List A → Result E (Unit {0}) × World → Result E (Unit {0}) × World
  unfolding write_sought
  write_truncated b (err e, w) = (err e, w)
  write_truncated b (ok _, w) = write_sought b (f.seek_start w)

  unfoldable pub write : List A → World → Result E (Unit {0}) × World
  unfolding write_truncated
  write b w = write_truncated b (f.truncate w)

  unfoldable pub file_store : Store (List A) E World
  unfolding read write
  file_store = record { read = read; write = write }

  module _ (laws : FileLaws f) where
    -- A read gives the contents of the file, and keeps them.
    read-contents : (w : World) → (read w).0 ≡ ok (laws.contents w)
    unfolding read read_sought
    read-contents w =
        rw (read, laws.seek_succeeds w, read_sought)
          (laws.read_start (f.seek_start w).1 (laws.seek_moves w) ∙ ap ok (laws.seek_keeps w))

    contents-read : (w : World) → laws.contents (read w).1 ≡ laws.contents w
    unfolding read read_sought
    contents-read w =
        rw (read, laws.seek_succeeds w, read_sought)
          (laws.read_keeps (f.seek_start w).1 ∙ laws.seek_keeps w)

    contents-write :
        (b : List A) (w : World) → (write b w).0 ≡ ok tt → laws.contents (write b w).1 ≡ b
    unfolding write write_truncated write_sought written
    contents-write b w done = elim (Result-cases (f.truncate w).0) [
      | inr (e, q) ↦ absurd (err≢ok (rw (write, q, write_truncated) at done))
      | inl (u, q) ↦
          let cut = (f.truncate w).1 in
          let empty = laws.seek_keeps cut ∙ laws.truncate_empties w q in
          let sought = (f.seek_start cut).1 in
          elim (Result-cases (f.write b sought).0) [
            | inr (e, k) ↦ absurd (
                err≢ok (
                  rw (write, q, write_truncated, laws.seek_succeeds cut, write_sought, k, written)
                    at done))
            | inl (n, k) ↦
                rw (write, q, write_truncated, laws.seek_succeeds cut, write_sought, k, written)
                  (laws.write_start b n sought (laws.seek_moves cut) empty k)
          ]
    ]

    -- The store over a file keeps the laws that the database needs of a store: a read gives what
    -- the last write that succeeded has put there, for a file that keeps the laws of files.
    file_store-StoreLaws : StoreLaws file_store
    unfolding file_store
    file_store-StoreLaws = record {
      read_again = λ w. read-contents (read w).1 ∙ ap ok (contents-read w) ∙ sym (read-contents w);
      read-write = λ b w done. read-contents (write b w).1 ∙ ap ok (contents-write b w done);
    }

  -- Over a file, the database refines a map from ids to objects: if the file holds some objects,
  -- and calls of CreateOrUpdate and Delete all return, then Get of any id returns what the map
  -- has after the same writes and deletions, read back from the file. The protobuf package keeps
  -- its round trips, and the file the laws of files.
  pub get-file_store :
      {M O Any : Type 0} (p : Proto M O Any (List A) E) (proto_laws : ProtoLaws p)
      (laws : FileLaws f) (ops : List (Op O)) (objs : List O) (w : World)
      → (Db.list p file_store w).0 ≡ ok objs
      → (run p file_store ops w).0 ≡ ok tt
      → (id : String)
      → (Db.get p file_store id (run p file_store ops w).1).0
        ≡ ok (apply p ops (λ j. find_id p j objs) id)
  get-file_store p proto_laws laws ops objs w holds done id =
      get-run p file_store proto_laws (file_store-StoreLaws laws) ops objs w holds done id
