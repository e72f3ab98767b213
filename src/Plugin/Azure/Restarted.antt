-- ===== src/Plugin/Azure/Restarted.antt =====
-- What List of the instances of a scale set returns, and what Restart does with it.
use Prim.Native.String.{◌++◌ as concat}
use mathlib.Core.List.{append_assoc, append-nil, flatten}
use aks_flex.Common.{
  ℕ, zero, suc, ◌<◌, ◌≡◌, sym, ap, ◌∙◌, true, false, some, List, [], ◌∷◌, ◌++◌, map, length, All,
  String, ok, ◌>>=◌, arith,
}
use aks_flex.Common.Split.{split, first_part, second_part, has_slash, split-whole, split-append}
use aks_flex.Plugin.{Proto, Store}
use aks_flex.Plugin.Azure.{ScaleSetPool, ResourceId, Azure}
use aks_flex.Plugin.Azure.AgentPools.{ScaleSetMessages, finish, client_for}
use aks_flex.Plugin.Azure.Instances.{
  instance_item, page_items, all_items, stored_pool, machines, list_machines, list, restart_machine,
  restart_in, restart,
}

-- The pages that a pager gives from now on, each by the IDs on it, and what they leave.
pub data Gives {Z Client Poller Pager W : Type 0} (azure : Azure Z Client Poller Pager W) (last : W)
    : Pager → W → List (List String) → Type 0 where
  no_more : (pager : Pager) → azure.more pager ≡ false → Gives azure last pager last []
  page :
      (pager next : Pager) (w w' : W) (ids : List String) (pages : List (List String))
      → azure.more pager ≡ true
      → azure.next_page pager w ≡ (ok (map some ids), next, w')
      → Gives azure last next w' pages
      → Gives azure last pager w (ids ∷ pages)

module _ {M O Any Bytes P Z Client Poller Pager World W : Type 0} (E : Type 0)
    (p : Proto M O Any Bytes P) (messages : ScaleSetMessages M O) (instance_of : String → O)
    (store : Store Bytes P World) (azure : Azure Z Client Poller Pager W) where
  -- An item for each ID, in their order.
  abbrev pub Items : String → List String → List Any → Type 0
  Items pool_id [] [] = Unit {0}
  Items pool_id [] (item ∷ items) = ⊥
  Items pool_id (id ∷ ids) [] = ⊥
  Items pool_id (id ∷ ids) (item ∷ items) =
      (p.new_any (instance_of (concat pool_id (concat "/" id))) ≡ ok item) × Items pool_id ids items

  Items-append :
      (pool_id : String) (ids js : List String) (items more_items : List Any)
      → Items pool_id ids items
      → Items pool_id js more_items
      → Items pool_id (ids ++ js) (items ++ more_items)
  Items-append pool_id [] js [] more_items h k = k
  Items-append pool_id [] js (item ∷ items) more_items h k = absurd h
  Items-append pool_id (id ∷ ids) js [] more_items h k = absurd h
  Items-append pool_id (id ∷ ids) js (item ∷ items) more_items (q, h) k =
      (q, Items-append pool_id ids js items more_items h k)

  module _ (packs : (o : O) → (item : Any) × (p.new_any o ≡ ok item)) (pool_id : String) where
    page_items-Items :
        (items : List Any) (ids : List String)
        → (found : List Any) × (page_items E p messages instance_of store azure pool_id items
              (map some ids)
            ≡ ok (items ++ found))
          × Items pool_id ids found
    unfolding page_items instance_item
    page_items-Items items [] = ([], ap ok (sym (append-nil items)), tt)
    page_items-Items items (id ∷ ids) =
        let (item, q) = packs (instance_of (concat pool_id (concat "/" id))) in
        let (found, given, all) = page_items-Items (items ++ item ∷ []) ids in
        (
          item ∷ found,
          rw (q, page_items) (given ∙ ap ok (append_assoc items (item ∷ []) found)),
          (q, all),
        )

    all_items-Items :
        (last : W) (fuel : ℕ) (items : List Any) (pager : Pager) (w : W)
        (pages : List (List String))
        → Gives azure last pager w pages
        → length pages < fuel
        → (found : List Any) × (all_items E p messages instance_of store azure fuel pool_id items
              pager w
            ≡ some (ok (items ++ found), last))
          × Items pool_id (flatten pages) found
    unfolding all_items flatten
    all_items-Items last zero items pager w pages given below = absurd (omega arith)
    all_items-Items last (suc fuel) items pager w [] (no_more _ q) below =
        ([], rw (q, all_items) (ap (λ xs. some (ok xs, last)) (sym (append-nil items))), tt)
    all_items-Items last (suc fuel) items pager w (ids ∷ pages) (page _ next _ w' _ _ q k rest)
          below =
        let (found, given, all) = page_items-Items items ids in
        let (more_found, ended, more_all) =
          all_items-Items last fuel (items ++ found) next w' pages rest (omega arith) in
        (
          found ++ more_found,
          rw (q, all_items)
              (rw (k, given)
                (ap
                    (λ x.
                      all_items E p messages instance_of store azure fuel pool_id (items ++ found)
                        x.1 x.2)
                    k
                  ∙ ended
                  ∙ ap (λ xs. some (ok xs, last)) (append_assoc items found more_found))),
          Items-append pool_id ids (flatten pages) found more_found all more_all,
        )

  -- Restart of the ID that List gives a machine asks for that machine alone.
  abbrev pub Restarts : World → ScaleSetPool → ResourceId → Client → String → Type 0
  Restarts world pool rid client id =
      (v : W)
      → restart E p messages instance_of store azure (concat pool.id (concat "/" id)) world v
        ≡ finish E P azure (azure.begin_restart client rid.resource_group_name rid.name (id ∷ []) v)

  restart-Restarts :
      (world : World) (pool : ScaleSetPool) (rid : ResourceId) (client : Client) (id : String)
      → stored_pool E p messages instance_of store azure pool.id world ≡ ok pool
      → client_for E P azure azure.new_scale_sets_client pool ≡ ok (rid, client)
      → has_slash pool.id ≡ false
      → has_slash id ≡ false
      → Restarts world pool rid client id
  unfolding restart restart_in restart_machine
  restart-Restarts world pool rid client id stored made plain plain_id v =
      let parts : split (concat pool.id (concat "/" id)) ≡ pool.id ∷ id ∷ [] =
        split-append pool.id id plain ∙ ap (λ xs. pool.id ∷ xs) (split-whole id plain_id) in
      ap
        (λ xs.
          restart_in E p messages instance_of store azure
            (stored_pool E p messages instance_of store azure (first_part xs) world
              >>= client_for E P azure azure.new_scale_sets_client)
            (second_part xs) v)
        parts
      ∙ ap
          (λ r.
            restart_in E p messages instance_of store azure
              (r >>= client_for E P azure azure.new_scale_sets_client) (some id) v)
          stored
      ∙ ap (λ r. restart_in E p messages instance_of store azure r (some id) v) made

  All-Restarts :
      (world : World) (pool : ScaleSetPool) (rid : ResourceId) (client : Client) (ids : List String)
      → stored_pool E p messages instance_of store azure pool.id world ≡ ok pool
      → client_for E P azure azure.new_scale_sets_client pool ≡ ok (rid, client)
      → has_slash pool.id ≡ false
      → All (λ id. has_slash id ≡ false) ids
      → All (Restarts world pool rid client) ids
  All-Restarts world pool rid client [] stored made plain h = tt
  All-Restarts world pool rid client (id ∷ ids) stored made plain (h, hs) = (
    restart-Restarts world pool rid client id stored made plain h,
    All-Restarts world pool rid client ids stored made plain hs,
  )

  -- The items that List returns for these machines, and what Restart does with their IDs.
  abbrev pub Listed : World → ScaleSetPool → ResourceId → Client → List String → ℕ → W → W → Type 0
  Listed world pool rid client ids fuel w last =
      ((items : List Any) × (list E p messages instance_of store azure fuel pool.id world w
          ≡ some (ok items, last))
        × Items pool.id ids items)
      × All (Restarts world pool rid client) ids

  -- List of the machines of a stored scale set ends, on more fuel than its pager gives pages, and
  -- returns one item for each machine of the pages in their order; Restart of the ID that an item
  -- has asks the scale set for that machine alone. Neither the agent pool's ID nor a machine's
  -- has a slash, the clients can be made, and the items can be packed.
  pub list-Listed :
      (world : World) (pool : ScaleSetPool) (rid : ResourceId) (client viewer : Client)
      (pages : List (List String)) (w last : W) (fuel : ℕ)
      → ((o : O) → (item : Any) × (p.new_any o ≡ ok item))
      → stored_pool E p messages instance_of store azure pool.id world ≡ ok pool
      → client_for E P azure azure.new_scale_sets_client pool ≡ ok (rid, client)
      → client_for E P azure azure.new_machines_client pool ≡ ok (rid, viewer)
      → has_slash pool.id ≡ false
      → All (λ id. has_slash id ≡ false) (flatten pages)
      → Gives azure last (azure.new_list_pager viewer rid.resource_group_name rid.name) w pages
      → length pages < fuel
      → Listed world pool rid client (flatten pages) fuel w last
  unfolding list list_machines machines
  list-Listed world pool rid client viewer pages w last fuel packs stored made seen plain all_plain
        given below =
      let pager = azure.new_list_pager viewer rid.resource_group_name rid.name in
      let (items, ended, all) =
        all_items-Items packs pool.id last fuel [] pager w pages given below in
      (
        (
          items,
          ap
                (λ r.
                  list_machines E p messages instance_of store azure fuel
                    (r >>= (λ pool.
                      client_for E P azure azure.new_machines_client pool
                      >>= (λ target. ok (pool, target))))
                    w)
                stored
              ∙ ap
                  (λ r.
                    list_machines E p messages instance_of store azure fuel
                      (r >>= (λ target. ok (pool, target))) w)
                  seen
              ∙ ended,
          all,
        ),
        All-Restarts world pool rid client (flatten pages) stored made plain all_plain,
      )
