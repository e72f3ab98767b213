-- ===== src/Wireguard/Allocator/History.antt =====
-- Runs of the allocator: any sequence of calls of `AllocateIP` and of `cleanup`, each with the
-- cache that it reads and, for an allocation, the generator that it draws from.
use aks_flex.Common.{
  ℕ, Bool, true, false, ◌&&◌, ◌||◌, not, ◌≡◌, ◌≢◌, refl, sym, ap, ◌∙◌, inl, inr, Option, none, some,
  List, [], ◌∷◌, String, Result, ok, err, elem, string_eq, ◌==◌, if◌then◌else◌, All, arith, ==_refl,
  &&-eq-true, not-eq-true, Result-cases,
}
use aks_flex.Wireguard.Net.{Net, NetLaws}
use aks_flex.Wireguard.RandomIp.Laws.{IsIntN}
use aks_flex.Wireguard.Allocator.{
  Cache, Node, IpAllocator, AllocateError, allocate_ip, cleanup, reserved, is_not_found,
  confirmed_ips,
}
use aks_flex.Wireguard.Allocator.Reserved.{reconciled, reserved-cleanup}
use aks_flex.Wireguard.Allocator.Grants.{IsGranted}
use aks_flex.Wireguard.Allocator.Steps.{allocate_ip-Outcome}

pub data Event : Type 0 where
  -- the generator, the cache, the CIDR, the NodeClass and the NodeClaim of a call of `AllocateIP`
  allocates : (ℕ → ℕ) → Cache → String → String → String → Event
  cleans : Cache → Event

-- The NodeClasses and addresses that the calls return, in their order.
unfoldable pub grants : Net → IpAllocator → List Event → List (String × String)
grants net a [] = []
grants net a (allocates rand cache cidr c claim ∷ es) =
    let (r, a') = allocate_ip net rand cache a cidr c claim in
    let rest = grants net a' es in elim r [ ok ip ↦ (c, ip) ∷ rest | err _ ↦ rest ]
grants net a (cleans cache ∷ es) = grants net (cleanup cache a) es

abbrev pub Draws : Event → Type 0
Draws (allocates rand _ _ _ _) = IsIntN rand
Draws (cleans _) = Unit

-- Whether the nodes that a call lists have the address; `none` where it lists none of the class.
abbrev pub sighting : String → String → Event → Option Bool
sighting c ip (allocates _ cache _ d _) =
    if d == c
    then elim (cache.list d) [ none ↦ none | some nodes ↦ some (elem ip (confirmed_ips nodes)) ]
    else none
sighting c ip (cleans _) = none

abbrev pub vanished : Bool → Option Bool → Bool
vanished seen (some now) = seen && not now
vanished seen none = false

abbrev pub seen_after : Bool → Option Bool → Bool
seen_after seen (some now) = seen || now
seen_after seen none = seen

-- The claim is not reported missing before its node has shown the address.
abbrev pub claim_kept : String → Bool → Event → Bool
claim_kept claim seen (allocates _ _ _ _ _) = true
claim_kept claim seen (cleans cache) = seen || not (is_not_found (cache.get claim))

-- The address stays in use throughout the run: until a node shows it, its claim exists, and from
-- then on every list of the nodes of the class has it.
unfoldable pub in_use : String → String → String → Bool → List Event → Bool
in_use c ip claim seen [] = true
in_use c ip claim seen (e ∷ es) =
    claim_kept claim seen e
    && (not (vanished seen (sighting c ip e))
        && in_use c ip claim (seen_after seen (sighting c ip e)) es)

abbrev Held : IpAllocator → String → String → String → Bool → Type 0
Held a c ip claim seen = seen ≡ false → reserved a c ip ≡ some claim

-- What an allocation for class `d` leaves reserved for another class, or for an address that it
-- has not seen.
reconciled_keeps :
    (confirmed : List String) (d c ip claim : String) (a : IpAllocator)
    → reserved a c ip ≡ some claim
    → (d == c ≡ true → elem ip confirmed ≡ false)
    → reconciled confirmed d a c ip ≡ some claim
reconciled_keeps confirmed d c ip claim a e h = ground arith

module _ (net : Net) (c ip claim : String) (a a' : IpAllocator) (d : String)
    (confirmed : List String) where
  -- An allocation that saw the address only where it was already seen.
  failed-Held :
      (seen : Bool)
      → Held a c ip claim seen
      → ((d' x : String) → reserved a' d' x ≡ reconciled confirmed d a d' x)
      → Held a' c ip claim (seen || (d == c && elem ip confirmed))
  failed-Held seen held after unseen =
      after c ip
      ∙ reconciled_keeps confirmed d c ip claim a (held (ground arith)) (λ same. ground arith)

  abbrev Stays : Bool → Type 0
  Stays seen = (d == c) ≡ true → seen ≡ true → elem ip confirmed ≡ true

  fresh-ne :
      (seen : Bool) (base ones : ℕ) (other new : String)
      → Held a c ip claim seen
      → IsGranted net base ones d other confirmed a a' new
      → Stays seen
      → d ≡ c
      → new ≢ ip
  fresh-ne true base ones other new held g stays same e =
      let listed = stays ((string_eq.same_iff d c).1 same) refl in
      let unlisted : elem ip confirmed ≡ false = rw e at g.unconfirmed in cc
  fresh-ne false base ones other new held g stays same e =
      let kept = held refl in let free : reserved a c ip ≡ none = rw (same, e) at g.unreserved in cc

  granted-Held :
      (seen : Bool) (base ones : ℕ) (other new : String)
      → Held a c ip claim seen
      → IsGranted net base ones d other confirmed a a' new
      → Stays seen
      → Held a' c ip claim (seen || (d == c && elem ip confirmed))
        × ◌≢◌ {A = String × String} (d, new) (c, ip)
  granted-Held seen base ones other new held g stays = (
    λ unseen.
        let kept =
          reconciled_keeps confirmed d c ip claim a (held (ground arith)) (λ same. ground arith) in
        let fresh = fresh-ne seen base ones other new held g stays in
        ground
          (arith, g.after c ip, string_eq.same_iff d c, string_eq.same_iff new ip, kept, fresh),
    λ e. fresh-ne seen base ones other new held g stays (λ i. (e i).0) (λ i. (e i).1),
  )

module _ (c ip : String) (rand : ℕ → ℕ) (cache : Cache) (cidr d other : String) where
  abbrev event : Event
  event = allocates rand cache cidr d other

  sighting_unlisted : cache.list d ≡ none → sighting c ip event ≡ none
  sighting_unlisted e = rw e (ground arith)

  module _ (nodes : List Node) (listed : cache.list d ≡ some nodes) where
    seen_after_listed :
        (seen : Bool)
        → seen_after seen (sighting c ip event)
          ≡ (seen || (d == c && elem ip (confirmed_ips nodes)))
    seen_after_listed true = rw listed (ground arith)
    seen_after_listed false = rw listed (ground arith)

    listed-Stays :
        (seen : Bool)
        → vanished seen (sighting c ip event) ≡ false
        → d == c ≡ true
        → seen ≡ true
        → elem ip (confirmed_ips nodes) ≡ true
    listed-Stays seen e = let e' = rw listed at e in λ p q. ground arith

module _ (net : Net) (laws : NetLaws net) (c ip claim : String) where
  -- An allocation of this class or another one.
  allocate_ip-Held :
      (rand : ℕ → ℕ) (cache : Cache) (cidr d other : String) (a : IpAllocator) (seen : Bool)
      → IsIntN rand
      → Held a c ip claim seen
      → vanished seen (sighting c ip (allocates rand cache cidr d other)) ≡ false
      → Held
          (allocate_ip net rand cache a cidr d other).1
          c
          ip
          claim
          (seen_after seen (sighting c ip (allocates rand cache cidr d other)))
        × ((new : String)
            → (allocate_ip net rand cache a cidr d other).0 ≡ ok new
            → ◌≢◌ {A = String × String} (d, new) (c, ip))
  allocate_ip-Held rand cache cidr d other a seen draws held stays =
      elim (allocate_ip-Outcome net laws rand draws cidr cache a d other) [
        | inl (unlisted, same) ↦
            let left = ap (λ (r : Result AllocateError String × IpAllocator). r.1) same in
            let refused = ap (λ (r : Result AllocateError String × IpAllocator). r.0) same in
            (
              rw (sighting_unlisted c ip rand cache cidr d other unlisted, left) held,
              λ new e'. let clash = sym refused ∙ e' in cc,
            )
        | inr (nodes, listed, inl (new, e, base, ones, _, g)) ↦
            let (held', fresh) =
              granted-Held net c ip claim a _ d (confirmed_ips nodes) seen base ones other new held
                g (listed-Stays c ip rand cache cidr d other nodes listed seen stays) in
            (
              rw (seen_after_listed c ip rand cache cidr d other nodes listed seen) held',
              λ new' e' p. let same : new' ≡ new = cc in fresh (rw same at p),
            )
        | inr (nodes, listed, inr (why, e, after)) ↦ (
          rw (seen_after_listed c ip rand cache cidr d other nodes listed seen)
              (failed-Held net c ip claim a _ d (confirmed_ips nodes) seen held after),
          λ new e'. let clash = sym e ∙ e' in cc,
        )
      ]

  cleanup-Held :
      (cache : Cache) (a : IpAllocator) (seen : Bool)
      → Held a c ip claim seen
      → claim_kept claim seen (cleans cache) ≡ true
      → Held (cleanup cache a) c ip claim seen
  cleanup-Held cache a seen held kept unseen =
      rw (reserved-cleanup cache a c ip, held unseen) (ground arith)

  -- While an address that is reserved for a claim stays in use, no call returns it for its class.
  pub reserved_not_granted :
      (a : IpAllocator) (seen : Bool) (es : List Event)
      → Held a c ip claim seen
      → All Draws es
      → in_use c ip claim seen es ≡ true
      → All (λ g. g ≢ (c, ip)) (grants net a es)
  unfolding grants in_use
  reserved_not_granted a seen [] held draws used = tt
  reserved_not_granted a seen (cleans cache ∷ es) held draws used =
      let (kept, later) = &&-eq-true _ _ used in
      reserved_not_granted (cleanup cache a) seen es (cleanup-Held cache a seen held kept) draws.1
        later
  reserved_not_granted a seen (allocates rand cache cidr d other ∷ es) held draws used =
      let event = allocates rand cache cidr d other in
      let (stays, later) = &&-eq-true _ _ used in
      let (held', fresh) =
        allocate_ip-Held rand cache cidr d other a seen draws.0 held (not-eq-true _ stays) in
      let ih =
        reserved_not_granted (allocate_ip net rand cache a cidr d other).1
          (seen_after seen (sighting c ip event)) es held' draws.1 later in
      elim (Result-cases (allocate_ip net rand cache a cidr d other).0) [
        | inl (new, e) ↦ rw (e, grants) (fresh new e, ih)
        | inr (why, e) ↦ rw (e, grants) ih
      ]

  -- If AllocateIP returns an address for a NodeClass and a NodeClaim, then no later call for that
  -- NodeClass returns it, in any sequence of AllocateIP and cleanup calls in which the address
  -- stays in use: until a node of the class shows it, no cleanup finds the claim missing, and
  -- from then on every list of the class's nodes has it. The random indices are in range.
  pub granted_once :
      (rand : ℕ → ℕ) (cache : Cache) (cidr : String) (a : IpAllocator) (es : List Event)
      → IsIntN rand
      → (allocate_ip net rand cache a cidr c claim).0 ≡ ok ip
      → All Draws es
      → in_use c ip claim false es ≡ true
      → All (λ g. g ≢ (c, ip)) (grants net (allocate_ip net rand cache a cidr c claim).1 es)
  granted_once rand cache cidr a es draws e later used =
      elim (allocate_ip-Outcome net laws rand draws cidr cache a c claim) [
        | inl (unlisted, same) ↦
            let refused = ap (λ (r : Result AllocateError String × IpAllocator). r.0) same in
            let clash = sym refused ∙ e in cc
        | inr (nodes, listed, inl (new, e', base, ones, _, g)) ↦
            let same : new ≡ ip = cc in
            reserved_not_granted _ false es
              (λ _. ground (arith, g.after c ip, ==_refl c, string_eq.same_iff new ip)) later used
        | inr (nodes, listed, inr (why, e', after)) ↦ let clash = sym e' ∙ e in cc
      ]
