-- ===== src/Wireguard/Tests.antt =====
-- Runs of the allocator over a small network, and the theorems at inputs that meet their
-- hypotheses. The address n is written as n dots here.
use Prim.Native.Char.{Char}
use aks_flex.Common.{
  ℕ, zero, suc, ◌^◌, ◌-◌, ◌≡◌, ◌≢◌, refl, inr, sym, ◌∙◌, ap, String, Option, none, some, List, [],
  ◌∷◌, ltb, if◌then◌else◌, ok, err, arith, All, ◌==◌, string_eq, elem,
}
use aks_flex.Common.Assoc.{lookup, insert, keys, discard}
use aks_flex.Wireguard.Net.{Net, NetLaws}
use aks_flex.Wireguard.RandomIp.{
  no_free, allocate_random_ip, allocated_set, draw_host, free_offsets, choose, start_offset,
  end_offset, candidate,
}
use aks_flex.Wireguard.RandomIp.Hosts.{IsBlock, IsHost}
use aks_flex.Wireguard.RandomIp.Taken.{IsUnnamed, IsParsable}
use aks_flex.Wireguard.RandomIp.Laws.{
  IsIntN, IsGrant, allocate_random_ip-IsGrant, allocate_random_ip_succeeds,
}
use aks_flex.Wireguard.Allocator.{
  Cache, present, not_found, internal_ip, IpAllocator, allocate_ip, allocate_from, confirmed_ips,
  pre_alloc, cleanup, reserved,
}
use aks_flex.Wireguard.Allocator.Steps.{Outcome, allocate_ip-Outcome}
use aks_flex.Wireguard.Allocator.Reserved.{reserved-cleanup}
use aks_flex.Wireguard.Allocator.History.{Event, allocates, cleans, grants, in_use, granted_once}

abbrev dots : ℕ → String
dots zero = String.[]
dots (suc n) = let dot : Char = "." in String.◌∷◌ dot (dots n)

abbrev size : String → ℕ
size String.[] = 0
size (String.◌∷◌ c s) = suc (size s)

size-dots : (n : ℕ) → size (dots n) ≡ n
size-dots zero = refl
size-dots (suc n) = ap suc (size-dots n)

abbrev four_bytes : ℕ → Option ℕ
four_bytes n = if ltb n (2 ^ 32) then some n else none

-- 0.0.0.8/29: the hosts are 9 to 14
abbrev dotted : Net
dotted = record {
  Ip = ℕ;
  IpNet = ℕ × ℕ;
  parse_cidr = λ s. if s == "8/29" then some (8, 29) else none;
  network = λ n. n.0;
  mask_size = λ n. (n.1, 32);
  parse_ip = λ s. some (size s);
  to4 = four_bytes;
  ip_string = dots;
  put_uint32 = λ n. n;
}

dotted_block : (s : String) (n : ℕ × ℕ) → dotted.parse_cidr s ≡ some n → (n.0 ≡ 8) × (n.1 ≡ 29)
dotted_block s n e = ground arith

dotted_laws : NetLaws dotted
dotted_laws = record {
  to4-lt = λ p x e. ground arith;
  address_of-put_uint32 = λ x h. rw (size-dots x) (ground arith);
  address_of-ip_string = λ p e. rw (size-dots p) e;
  parse_cidr_masked = λ cidr n base ones e f g.
      let (p, q) = dotted_block cidr n e in
      let o : ones ≡ 29 = sym (ap (λ (m : ℕ × ℕ). m.0) g) ∙ q in
      let f' = rw p at f in let b : base ≡ 8 = cc in rw (o, b) (omega arith);
}

abbrev block : IsBlock dotted "8/29" 8 29
block = record { block = (8, 29); parsed = refl; is_base = refl; is_mask = refl }

abbrev first : ℕ → ℕ
first n = 0

abbrev last : ℕ → ℕ
last n = n - 1

first-IsIntN : IsIntN first
first-IsIntN n h = h

last-IsIntN : IsIntN last
last-IsIntN n h = omega arith

random_ip : Unit {0}
unfolding allocate_random_ip allocated_set draw_host free_offsets choose start_offset end_offset
    candidate elem
random_ip = tt

draws_first : allocate_random_ip dotted first "8/29" (dots 9 ∷ dots 10 ∷ []) ≡ ok (dots 11)
unfolding random_ip
draws_first = refl

draws_last : allocate_random_ip dotted last "8/29" (dots 9 ∷ []) ≡ ok (dots 14)
unfolding random_ip
draws_last = refl

exhausted :
    allocate_random_ip dotted last "8/29"
      (dots 9 ∷ dots 10 ∷ dots 11 ∷ dots 12 ∷ dots 13 ∷ dots 14 ∷ [])
    ≡ err (no_free "8/29")
unfolding random_ip
exhausted = refl

allocate_random_ip-IsGrant_example : IsGrant dotted 8 29 (dots 9 ∷ dots 10 ∷ []) (dots 11)
allocate_random_ip-IsGrant_example =
    allocate_random_ip-IsGrant dotted dotted_laws first first-IsIntN "8/29" 8 29 block
      (dots 9 ∷ dots 10 ∷ []) (dots 11) draws_first

eleven-IsHost : IsHost 8 29 11
eleven-IsHost = record {
  low = omega arith;
  high = omega arith;
  inner = inr ((λ e. omega arith), (λ e. omega arith));
}

IsUnnamed-eleven : IsUnnamed dotted 11 (dots 9 ∷ dots 10 ∷ [])
IsUnnamed-eleven = ((λ e. ground arith), ((λ e. ground arith), tt))

parsable : All (IsParsable dotted) (dots 9 ∷ dots 10 ∷ [])
parsable = ((λ e. cc), ((λ e. cc), tt))

allocate_random_ip_succeeds_example :
    (ip : String) × (allocate_random_ip dotted last "8/29" (dots 9 ∷ dots 10 ∷ []) ≡ ok ip)
allocate_random_ip_succeeds_example =
    allocate_random_ip_succeeds dotted dotted_laws last last-IsIntN "8/29" 8 29 block
      (dots 9 ∷ dots 10 ∷ []) 11 parsable eleven-IsHost IsUnnamed-eleven

-- One node of the class "gpu" shows the address 9, and every claim but "gone" exists.
abbrev cluster : Cache
cluster = record {
  list = λ c.
      if c == "gpu" then some (record { addresses = internal_ip (dots 9) ∷ [] } ∷ []) else some [];
  get = λ claim. if claim == "gone" then not_found else present;
}

abbrev start : IpAllocator
start = record { pre_allocated = ("gpu", (dots 10, "gone") ∷ []) ∷ [] }

allocate_ip-Outcome_example :
    Outcome dotted dotted_laws first first-IsIntN "8/29" cluster start "gpu" "claim-1"
      (allocate_ip dotted first cluster start "8/29" "gpu" "claim-1")
allocate_ip-Outcome_example =
    allocate_ip-Outcome dotted dotted_laws first first-IsIntN "8/29" cluster start "gpu" "claim-1"

-- A second claim, a cleanup, a claim of another class, and a third one.
abbrev schedule : List Event
schedule =
    allocates first cluster "8/29" "gpu" "claim-2"
    ∷ cleans cluster
    ∷ allocates last cluster "8/29" "cpu" "claim-3"
    ∷ allocates first cluster "8/29" "gpu" "claim-4"
    ∷ []

allocator : Unit {0}
unfolding random_ip allocate_ip allocate_from confirmed_ips pre_alloc keys discard lookup insert
    reserved cleanup grants in_use
allocator = tt

reserved-cleanup_example : reserved (cleanup cluster start) "gpu" (dots 10) ≡ none
unfolding allocator
reserved-cleanup_example = reserved-cleanup cluster start "gpu" (dots 10)

first_grant : (allocate_ip dotted first cluster start "8/29" "gpu" "claim-1").0 ≡ ok (dots 11)
unfolding allocator
first_grant = refl

granted_once_example :
    All
      (λ g. g ≢ ("gpu", dots 11))
      (grants dotted (allocate_ip dotted first cluster start "8/29" "gpu" "claim-1").1 schedule)
unfolding allocator
granted_once_example =
    granted_once dotted dotted_laws "gpu" (dots 11) "claim-1" first cluster "8/29" start schedule
      first-IsIntN first_grant (first-IsIntN, (tt, (last-IsIntN, (first-IsIntN, tt)))) refl
