-- ===== src/Plugin/Db/Refines.antt =====
-- The database as a map from ids to objects.
use aks_flex.Common.{
  ◌≡◌, refl, ◌∙◌, Option, none, some, List, [], ◌∷◌, String, Result, ok, err, ◌==◌, string_eq,
  if◌then◌else◌, Result-cases, err≢ok, inl, inr,
}
use aks_flex.Plugin.{Proto, ProtoLaws, Store, StoreLaws}
use aks_flex.Plugin.Db.{Panic, find_id, put, delete_id, list, create_or_update, get, delete}
use aks_flex.Plugin.Db.Contents.{Holds, find_id-put, find_id-delete_id, rewrite-Holds}

pub data Op (O : Type 0) : Type 0 where
  op_put : O → Op O
  op_delete : String → Op O

module _ {M O Any Bytes E : Type 0} (p : Proto M O Any Bytes E) where
  -- The map after some operations.
  unfoldable pub apply : List (Op O) → (String → Option O) → String → Option O
  apply [] m id = m id
  apply (op_put obj ∷ ops) m id = apply ops (λ j. if p.id obj == j then some obj else m j) id
  apply (op_delete i ∷ ops) m id = apply ops (λ j. if i == j then none else m j) id

  abbrev change : Op O → List O → List O
  change (op_put obj) = put p obj
  change (op_delete i) = delete_id p i

  apply_same :
      (ops : List (Op O)) (m n : String → Option O)
      → ((j : String) → m j ≡ n j)
      → (id : String) → apply ops m id ≡ apply ops n id
  unfolding apply
  apply_same [] m n h id = h id
  apply_same (op_put obj ∷ ops) m n h id =
      apply_same ops (λ j. if p.id obj == j then some obj else m j)
        (λ j. if p.id obj == j then some obj else n j) (λ j. rw (h j) refl) id
  apply_same (op_delete i ∷ ops) m n h id =
      apply_same ops (λ j. if i == j then none else m j) (λ j. if i == j then none else n j)
        (λ j. rw (h j) refl) id

  apply-change :
      (op : Op O) (ops : List (Op O)) (objs : List O) (id : String)
      → apply ops (λ j. find_id p j (change op objs)) id
        ≡ apply (op ∷ ops) (λ j. find_id p j objs) id
  unfolding apply
  apply-change (op_put obj) ops objs id =
      apply_same ops (λ j. find_id p j (put p obj objs))
        (λ j. if p.id obj == j then some obj else find_id p j objs) (λ j. find_id-put p obj j objs)
        id
  apply-change (op_delete i) ops objs id =
      apply_same ops (λ j. find_id p j (delete_id p i objs))
        (λ j. if i == j then none else find_id p j objs) (λ j. find_id-delete_id p i j objs) id

module _ {M O Any Bytes E World : Type 0} (p : Proto M O Any Bytes E)
    (store : Store Bytes E World) where
  unfoldable pub step : Op O → World → Result (Panic E) (Unit {0}) × World
  step (op_put obj) w = create_or_update p store obj w
  step (op_delete i) w = delete p store i w

  -- The calls one after the other, up to the first that panics.
  unfoldable pub run : List (Op O) → World → Result (Panic E) (Unit {0}) × World
  unfolding step
  run [] w = (ok tt, w)
  run (op ∷ ops) w = let (r, w') = step op w in elim r [ ok _ ↦ run ops w' | err e ↦ (err e, w') ]

  module _ (laws : ProtoLaws p) (sound : StoreLaws store) where
    step-Holds :
        (op : Op O) (objs : List O) (w : World)
        → Holds p store w objs
        → (step op w).0 ≡ ok tt
        → Holds p store (step op w).1 (change p op objs)
    unfolding step create_or_update delete
    step-Holds (op_put obj) objs w h done =
        rewrite-Holds p laws store sound (put p obj) objs w h done
    step-Holds (op_delete i) objs w h done =
        rewrite-Holds p laws store sound (delete_id p i) objs w h done

    run-Holds :
        (ops : List (Op O)) (objs : List O) (w : World)
        → Holds p store w objs
        → (run ops w).0 ≡ ok tt
        → (objs' : List O) × Holds p store (run ops w).1 objs'
          × ((id : String) → find_id p id objs' ≡ apply p ops (λ j. find_id p j objs) id)
    unfolding run apply
    run-Holds [] objs w h done = (objs, h, (λ id. refl))
    run-Holds (op ∷ ops) objs w h done = elim (Result-cases (step op w).0) [
      | inl (u, e) ↦
          let (objs', k, view) =
            run-Holds ops (change p op objs) (step op w).1 (step-Holds op objs w h e)
              (rw (e, run) at done) in
          (objs', rw (e, run) k, (λ id. view id ∙ apply-change p op ops objs id))
      | inr (why, e) ↦ absurd (err≢ok (rw (e, run) at done))
    ]

    -- The database refines a map from ids to objects: from a store that holds some objects, if
    -- calls of CreateOrUpdate and Delete all return, then Get of any id returns what the map has
    -- after the same writes and deletions. The protobuf package reads back what it has packed and
    -- marshalled, and a read of the store gives what the last write put there.
    pub get-run :
        (ops : List (Op O)) (objs : List O) (w : World)
        → (list p store w).0 ≡ ok objs
        → (run ops w).0 ≡ ok tt
        → (id : String)
        → (get p store id (run ops w).1).0 ≡ ok (apply p ops (λ j. find_id p j objs) id)
    unfolding get
    get-run ops objs w h done id =
        let (objs', k, view) = run-Holds ops objs w h done in rw (k, view id) refl
