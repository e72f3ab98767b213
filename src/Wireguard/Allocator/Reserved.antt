-- ===== src/Wireguard/Allocator/Reserved.antt =====
-- Reservations under the writes of the methods.
use aks_flex.Common.{
  true, ◌≡◌, refl, Option, some, List, [], ◌∷◌, String, elem, string_eq, ◌==◌, ◌&&◌, if◌then◌else◌,
  arith,
}
use aks_flex.Common.Assoc.{
  Map, lookup, insert, discard, unless, lookup-insert, lookup-delete, lookup-discard,
}
use aks_flex.Wireguard.Allocator.{
  Cache, IpAllocator, pre_alloc, store, live, cleanup_classes, cleanup, reserved, is_not_found,
  is_empty, inner_map,
}

-- The inner map of a class after it was stored.
pub pre_alloc-store :
    (a : IpAllocator) (c d : String) (m : Map String String)
    → pre_alloc (store a c m) d ≡ (if c == d then m else pre_alloc a d)
unfolding pre_alloc store
pre_alloc-store a c d m = ground (arith, lookup-insert c d m a.pre_allocated)

-- What an allocation for class `c`, which sees these confirmed addresses, leaves reserved before
-- it records its own.
abbrev pub reconciled : List String → String → IpAllocator → String → String → Option String
reconciled confirmed c a d ip =
    if c == d then unless (λ _. elem ip confirmed) (reserved a d ip) else reserved a d ip

module _ (a : IpAllocator) (c claim : String) (confirmed : List String) where
  abbrev pub remaining : Map String String
  remaining = discard (λ ip _. elem ip confirmed) (pre_alloc a c)

  pub lookup-remaining :
      (ip : String) → lookup ip remaining ≡ unless (λ _. elem ip confirmed) (reserved a c ip)
  unfolding reserved
  lookup-remaining ip = lookup-discard (λ ip _. elem ip confirmed) ip (pre_alloc a c)

  pub reserved-store :
      (d ip : String) → reserved (store a c remaining) d ip ≡ reconciled confirmed c a d ip
  unfolding reserved
  reserved-store d ip =
      rw (pre_alloc-store a c d remaining)
        (ground (arith, string_eq.same_iff c d, lookup-remaining ip))

  pub reserved-store-insert :
      (d ip new : String)
      → reserved (store a c (insert new claim remaining)) d ip
        ≡ (if c == d && new == ip then some claim else reconciled confirmed c a d ip)
  unfolding reserved
  reserved-store-insert d ip new = rw (pre_alloc-store a c d (insert new claim remaining)) (
      ground
        (arith, string_eq.same_iff c d, lookup-remaining ip, lookup-insert new ip claim remaining))

empty_map : (m : Map String String) → is_empty m ≡ true → m ≡ []
empty_map [] h = refl
empty_map (x ∷ m) h = cc

lookup-cleanup_classes :
    (cache : Cache) (d : String) (m : Map String (Map String String))
    → inner_map (lookup d (cleanup_classes cache m)) ≡ live cache (inner_map (lookup d m))
unfolding cleanup_classes lookup
lookup-cleanup_classes cache d [] = unfold live discard in refl
lookup-cleanup_classes cache d ((c, m) ∷ rest) = ground (
  arith,
  string_eq.same_iff c d,
  lookup-delete c d (cleanup_classes cache rest),
  lookup-cleanup_classes cache d rest,
  empty_map (live cache m),
)

-- A cleanup drops the reservations whose NodeClaim is not found, for every NodeClass and address,
-- and no other.
pub reserved-cleanup :
    (cache : Cache) (a : IpAllocator) (d x : String)
    → reserved (cleanup cache a) d x
      ≡ unless (λ claim. is_not_found (cache.get claim)) (reserved a d x)
unfolding reserved cleanup pre_alloc live
reserved-cleanup cache a d x =
    rw (lookup-cleanup_classes cache d a.pre_allocated)
      (lookup-discard (λ ip claim. is_not_found (cache.get claim)) x (pre_alloc a d))
