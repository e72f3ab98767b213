-- ===== src/Plugin/Resource/Tests.antt =====
-- A cloud of one resource, whose spec is a number.
use aks_flex.Common.{ℕ, ◌≡◌, refl, ◌⊎◌, true, Option, none, some, ok, err, string_eq}
use aks_flex.Plugin.Resource.{
  Resource, ServiceLaws, drift_todo, resolve, create, create_or_update, delete,
}
use aks_flex.Plugin.Resource.Slot.{SlotError, slot, slot-laws}
use aks_flex.Plugin.Resource.Settled.{create_or_update-again, create_or_update-Untouched}

abbrev vm : Resource ℕ
vm = record {
  metadata = record { id = ""; parent_id = "project"; name = "vm"; created_at = none };
  spec = 3;
}

abbrev made : Resource ℕ
made = record {
  metadata = record { id = "vm-1"; parent_id = "project"; name = "vm"; created_at = some "now" };
  spec = 3;
}

abbrev look : Option (Resource ℕ) → Option (Resource ℕ)
look w = w

abbrev put : Option (Resource ℕ) → Option (Resource ℕ) → Option (Resource ℕ)
put o w = o

abbrev laws : ServiceLaws (slot "vm-1" look put)
laws = slot-laws "vm-1" look put (λ o w. refl)

create_or_update_vm :
    create_or_update (slot "vm-1" look put) drift_todo vm none ≡ (ok made, some made)
unfolding create_or_update resolve create slot
create_or_update_vm = refl

create_or_update-again_example :
    let w' = (create_or_update (slot "vm-1" look put) drift_todo vm none).1 in
    create_or_update (slot "vm-1" look put) drift_todo vm w' ≡ (ok made, w')
unfolding create_or_update
create_or_update-again_example =
    create_or_update-again (slot "vm-1" look put) laws vm none made refl
      (λ i. (create_or_update_vm i).0)

delete_vm : delete (slot "vm-1" look put) vm (some made) ≡ (ok tt, none)
unfolding delete slot
delete_vm = refl

create_or_update-Untouched_example :
    ((create_or_update (slot "vm-1" look put) drift_todo vm (some made)).1 ≡ some made)
    ⊎ ((e : SlotError) × ((resolve (slot "vm-1" look put) vm (some made)).0 ≡ err e)
        × ((slot "vm-1" look put).is_not_found e ≡ true))
create_or_update-Untouched_example =
    create_or_update-Untouched (slot "vm-1" look put) laws vm (some made)
