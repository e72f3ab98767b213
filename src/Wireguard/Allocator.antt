-- ===== src/Wireguard/Allocator.antt =====
-- `IPAllocator` of allocator.go. Each method holds the mutex from its first to its last line, so
-- a method is one step on the state; `NewIPAllocator` starts a loop that calls `cleanup` at each
-- tick until `Close`, so a run is any sequence of calls. The informer cache may change between
-- calls: each call is given the cache that it reads.
pub mod Reserved
pub mod Grants
pub mod Steps
pub mod History
use aks_flex.Common.{
  ℕ, Bool, true, false, Option, none, some, List, [], ◌∷◌, ◌++◌, String, Result, ok, err, elem,
  string_eq, if◌then◌else◌,
}
use aks_flex.Common.Assoc.{Map, lookup, insert, delete, discard, keys}
use aks_flex.Wireguard.Net.{Net}
use aks_flex.Wireguard.RandomIp.{AllocError, allocate_random_ip}

-- corev1.NodeAddress, told apart by whether its type is NodeInternalIP
pub data Address : Type 0 where
  internal_ip : String → Address
  other_address : String → Address

pub record Node : Type 0 where
  pub addresses : List Address

-- What `cache.Get` says of a NodeClaim.
pub data Claim : Type 0 where
  present not_found failed : Claim

-- The controller-runtime cache: `list` is `cache.List` of the nodes with the label of a NodeClass,
-- `none` for an error.
pub record Cache : Type 0 where
  pub list : String → Option (List Node)
  pub get : String → Claim

pub record IpAllocator : Type 0 where
  -- NodeClass name -> (IP -> NodeClaim name)
  pub pre_allocated : Map String (Map String String)

pub data AllocateError : Type 0 where
  listing_nodes : String → AllocateError
  insufficient_capacity : AllocError → AllocateError

unfoldable pub new_ip_allocator : IpAllocator
new_ip_allocator = record { pre_allocated = [] }

internal_ips : List Address → List String
internal_ips [] = []
internal_ips (internal_ip ip ∷ rest) = ip ∷ internal_ips rest
internal_ips (other_address a ∷ rest) = internal_ips rest

unfoldable pub confirmed_ips : List Node → List String
unfolding internal_ips
confirmed_ips [] = []
confirmed_ips (node ∷ rest) = internal_ips node.addresses ++ confirmed_ips rest

abbrev pub inner_map : Option (Map String String) → Map String String
inner_map none = []
inner_map (some m) = m

-- The inner map of a NodeClass: a new one where there is none.
unfoldable pub pre_alloc : IpAllocator → String → Map String String
pre_alloc a node_class = inner_map (lookup node_class a.pre_allocated)

unfoldable pub store : IpAllocator → String → Map String String → IpAllocator
store a node_class m = record { pre_allocated = insert node_class m a.pre_allocated }

-- Step 4: records what step 3 has allocated.
unfoldable pub record_ip :
    IpAllocator
    → String
    → String
    → Map String String
    → Result AllocError String
    → Result AllocateError String × IpAllocator
unfolding store
record_ip a node_class node_claim m (err e) = (err (insufficient_capacity e), store a node_class m)
record_ip a node_class node_claim m (ok ip) = (ok ip, store a node_class (insert ip node_claim m))

unfoldable pub allocate_from :
    Net
    → (ℕ → ℕ)
    → IpAllocator
    → String
    → String
    → String
    → List String
    → Result AllocateError String × IpAllocator
unfolding record_ip
allocate_from net rand a cidr node_class node_claim confirmed =
    let remaining = discard (λ ip _. elem ip confirmed) (pre_alloc a node_class) in
    record_ip a node_class node_claim remaining
      (allocate_random_ip net rand cidr (confirmed ++ keys remaining))

unfoldable pub allocate_ip :
    Net
    → (ℕ → ℕ)
    → Cache
    → IpAllocator
    → String
    → String
    → String
    → Result AllocateError String × IpAllocator
allocate_ip net rand cache a cidr node_class node_claim = elim (cache.list node_class) [
  | none ↦ (err (listing_nodes node_class), a)
  | some nodes ↦ allocate_from net rand a cidr node_class node_claim (confirmed_ips nodes)
]

abbrev pub is_not_found : Claim → Bool
is_not_found not_found = true
is_not_found _ = false

abbrev is_empty : Map String String → Bool
is_empty [] = true
is_empty (_ ∷ _) = false

-- The loop of `cleanup` over the inner map of one NodeClass.
unfoldable pub live : Cache → Map String String → Map String String
live cache = discard (λ ip node_claim. is_not_found (cache.get node_claim))

unfoldable pub cleanup_classes :
    Cache → Map String (Map String String) → Map String (Map String String)
unfolding live
cleanup_classes cache [] = []
cleanup_classes cache ((node_class, m) ∷ rest) =
    let rest' = cleanup_classes cache rest in
    if is_empty (live cache m) then delete node_class rest' else (node_class, live cache m) ∷ rest'

unfoldable pub cleanup : Cache → IpAllocator → IpAllocator
unfolding cleanup_classes
cleanup cache a = record { pre_allocated = cleanup_classes cache a.pre_allocated }

-- The NodeClaim for which an address is pre-allocated.
unfoldable pub reserved : IpAllocator → String → String → Option String
reserved a node_class ip = lookup ip (pre_alloc a node_class)
