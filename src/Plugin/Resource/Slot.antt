-- ===== src/Plugin/Resource/Slot.antt =====
-- A cloud that holds one resource of a kind at most, in a part of a world: a service on which the
-- theorems on resources are tried.
use aks_flex.Common.{
  ◌≡◌, refl, sym, inl, inr, Bool, true, false, Option, none, some, String, Result, ok, err, ◌==◌,
  string_eq, ==_refl, if◌then◌else◌, Option-cases, Bool-cases, err≢ok, ok_unique,
}
use aks_flex.Plugin.Resource.{Metadata, Resource, Service, ServiceLaws}

pub data SlotError : Type 0 where
  missing already_exists no_quota : SlotError

abbrev is_missing : SlotError → Bool
is_missing missing = true
is_missing already_exists = false
is_missing no_quota = false

module _ {S W : Type 0} (numbered : String) (look : W → Option (Resource S))
    (put : Option (Resource S) → W → W) where
  unfoldable found : Bool → Resource S → Result SlotError (Resource S)
  found b r = if b then ok r else err missing

  unfoldable get : String → Option (Resource S) → Result SlotError (Resource S)
  unfolding found
  get id none = err missing
  get id (some r) = found (r.metadata.id == id) r

  unfoldable pub get_by_name : String → String → Option (Resource S) → Result SlotError (Resource S)
  unfolding found
  get_by_name name parent none = err missing
  get_by_name name parent (some r) =
      if r.metadata.name == name then found (r.metadata.parent_id == parent) r else err missing

  unfoldable pub create : Metadata → S → W → Option (Resource S) → Result SlotError String × W
  create md spec w (some r) = (err already_exists, w)
  create md spec w none = (
    ok numbered,
    put
        (some (record {
          metadata = record {
            id = numbered;
            parent_id = md.parent_id;
            name = md.name;
            created_at = some "now";
          };
          spec = spec;
        }))
        w,
  )

  unfoldable delete : String → W → Option (Resource S) → Result SlotError String × W
  delete id w none = (err missing, w)
  delete id w (some r) = if r.metadata.id == id then (ok id, put none w) else (err missing, w)

  unfoldable pub slot : Service S String SlotError W
  unfolding get get_by_name create delete
  slot = record {
    get_by_name = λ name parent w. (get_by_name name parent (look w), w);
    get = λ id w. (get id (look w), w);
    create = λ md spec w. create md spec w (look w);
    update = λ md spec w. (err missing, w);
    delete = λ id w. delete id w (look w);
    wait = λ op w. (ok op, w);
    is_not_found = is_missing;
  }

  module _ (look-put : (o : Option (Resource S)) (w : W) → look (put o w) ≡ o) where
    created :
        (md : Metadata) (spec : S) (op : String) (w : W)
        → (slot.create md spec w).0 ≡ ok op
        → (slot.get_by_name md.name md.parent_id (slot.create md spec w).1).0
          ≡ (slot.get op (slot.create md spec w).1).0
    unfolding slot create get get_by_name found
    created md spec op w h = elim (Option-cases (look w)) [
      | inr (r, q) ↦ absurd (err≢ok (rw (q, create) at h))
      | inl q ↦
          let same : numbered ≡ op = ok_unique {E = SlotError} refl (rw (q, create) at h) in
          rw
            (
              q,
              create,
              look-put,
              get_by_name,
              get,
              found,
              ==_refl md.name,
              ==_refl md.parent_id,
              same,
              ==_refl op,
            )
            refl
    ]

    deleted :
        (id : String) (op : String) (w : W)
        → (slot.delete id w).0 ≡ ok op
        → look (slot.delete id w).1 ≡ none
    unfolding slot delete
    deleted id op w h = elim (Option-cases (look w)) [
      | inl q ↦ absurd (err≢ok (rw (q, delete) at h))
      | inr (r, q) ↦ elim (Bool-cases (r.metadata.id == id)) [
        | inl k ↦ rw (q, delete, k) (look-put none w)
        | inr k ↦ absurd (err≢ok (rw (q, delete, k) at h))
      ]
    ]

    pub slot-laws : ServiceLaws slot
    unfolding slot get get_by_name delete
    slot-laws = record {
      get_reads = λ id w. refl;
      get_by_name_reads = λ name parent w. refl;
      create_named = λ md spec op id w h k.
          rw (← ok_unique {E = SlotError} {r = ok op} refl k) (created md spec op w h);
      delete_gone = λ id op last w h k. (missing, refl, rw (deleted id op w h, delete) refl);
      delete_gone_named = λ name parent r op last w h k l.
          (missing, refl, rw (deleted r.metadata.id op w k, get_by_name) refl);
      delete_missing = λ id e w h k. elim (Option-cases (look w)) [
        | inl q ↦ rw (q, delete) refl
        | inr (r, q) ↦ elim (Bool-cases (r.metadata.id == id)) [
          | inl l ↦ absurd (err≢ok (sym (rw (q, delete, l) at h)))
          | inr l ↦ rw (q, delete, l) refl
        ]
      ];
    }
