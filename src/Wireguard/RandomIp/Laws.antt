-- ===== src/Wireguard/RandomIp/Laws.antt =====
-- What `AllocateRandomIP` returns, and when it does.
use aks_flex.Common.{
  ℕ, suc, ◌+◌, ◌-◌, ◌^◌, ◌≤◌, ◌<◌, ◌≡◌, ◌≢◌, refl, sym, ap, ◌∙◌, ==_refl, Result-cases, Bool-cases,
  ◌==◌, inl, inr, some, List, [], ◌∷◌, String, true, All, All-get_elem?, elem, nat_eq, string_eq,
  ok, err, or_err, >>=-eq-ok, or_err-eq-ok, length, get_elem?_in_range, arith,
}
use aks_flex.Wireguard.Net.{Net, NetLaws}
use aks_flex.Wireguard.RandomIp.{
  AllocError, parsing_cidr, only_ipv4, u32, start_offset, end_offset, candidate, allocated_set,
  free_offsets, choose, draw_host, allocate_random_ip,
}
use aks_flex.Wireguard.RandomIp.Hosts.{
  IsBlock, IsHost, block-IsRange, block_in_word, offset-IsHost, host_offset,
}
use aks_flex.Wireguard.RandomIp.Loop.{IsFreeList, free_offsets_lem}
use aks_flex.Wireguard.RandomIp.Taken.{
  IsUnnamed, IsParsable, IsUnnamed-of_absent, absent_of_unnamed, allocated_set_total,
}

-- The address that a text returned by the function stands for.
pub record IsGrant (net : Net) (base ones : ℕ) (ips : List String) (ip : String) : Type 0 where
  pub address : ℕ
  pub shown : ip ≡ net.ip_string (net.put_uint32 address)
  pub host : IsHost base ones address
  pub unnamed : IsUnnamed net address ips

-- The index that `rand.IntN` draws is below its argument.
abbrev pub IsIntN : (ℕ → ℕ) → Type 0
IsIntN rand = (n : ℕ) → 0 < n → rand n < n

elem_head : (x : ℕ) (xs : List ℕ) → elem x (x ∷ xs) ≡ true
unfolding elem
elem_head x xs = rw (==_refl x) refl

module _ (net : Net) (laws : NetLaws net) (rand : ℕ → ℕ) (in_range : IsIntN rand) (cidr : String)
    (base ones : ℕ) (b : IsBlock net cidr base ones) (ips : List String) where
  choose-eq-ok :
      (free : List ℕ) (x : ℕ) (P : ℕ → Type 0)
      → All P free
      → elem x free ≡ true
      → (o : ℕ) × P o
        × (choose net rand cidr base free ≡ ok (net.ip_string (net.put_uint32 (u32 (base + o)))))
  unfolding choose elem
  choose-eq-ok [] x P all e = cc
  choose-eq-ok (y ∷ ys) x P all e =
      let (o, at) =
        get_elem?_in_range (y ∷ ys) (rand (length (y ∷ ys))) (in_range _ (omega arith)) in
      (o, All-get_elem? P (y ∷ ys) _ o all at, rw at refl)

  abbrev start : ℕ
  start = start_offset (32 - ones)

  abbrev end : ℕ
  end = end_offset (32 - ones)

  reduces :
      (ts : List String) (free : List ℕ)
      → allocated_set net ips ≡ ok ts
      → free_offsets net (suc (suc end - start)) base ts start end ≡ some free
      → allocate_random_ip net rand cidr ips ≡ choose net rand cidr base free
  unfolding allocate_random_ip draw_host
  reduces ts free parsed e = rw (b.parsed, parsed, b.is_base, b.is_mask, e) refl

  -- With the texts parsed, what is left is the choice among the free offsets.
  chooses :
      (ts : List String)
      → allocated_set net ips ≡ ok ts
      → (free : List ℕ) × (allocate_random_ip net rand cidr ips ≡ choose net rand cidr base free)
        × IsFreeList net base ts end start free
  chooses ts parsed =
      let r = block-IsRange net laws cidr base ones b in
      let (free, e, good) =
        free_offsets_lem net base ts end (suc (suc end - start)) start r.below_word
          (omega (arith, r.ordered)) (omega (arith, r.ordered)) in
      (free, reduces ts free parsed e, good)

  -- The address of an offset in the range does not wrap.
  unwrapped : (o : ℕ) → o ≤ end → u32 (base + o) ≡ base + o
  unwrapped o le =
      let r = block-IsRange net laws cidr base ones b in
      let fits = block_in_word net laws cidr base ones b in omega (arith, r.last)

  candidate_text :
      (o : ℕ) → o ≤ end → candidate net base o ≡ net.ip_string (net.put_uint32 (base + o))
  unfolding candidate
  candidate_text o le = ap (λ a. net.ip_string (net.put_uint32 a)) (unwrapped o le)

  chose_none : (ip : String) → choose net rand cidr base [] ≢ ok ip
  unfolding choose
  chose_none ip e = cc

  host_in_word : (o : ℕ) → o ≤ end → base + o < 2 ^ 32
  host_in_word o le =
      let r = block-IsRange net laws cidr base ones b in
      let fits = block_in_word net laws cidr base ones b in omega (arith, r.last)

  choose-IsGrant :
      (ts : List String) (free : List ℕ) (ip : String)
      → allocated_set net ips ≡ ok ts
      → IsFreeList net base ts end start free
      → choose net rand cidr base free ≡ ok ip
      → IsGrant net base ones ips ip
  choose-IsGrant ts [] ip parsed good e = absurd (chose_none ip e)
  choose-IsGrant ts (x ∷ xs) ip parsed good e =
      let (o, (lo, hi, unused), chosen) = choose-eq-ok (x ∷ xs) x _ good.sound (elem_head x xs) in
      let same = unwrapped o hi in
      let text : ip ≡ net.ip_string (net.put_uint32 (base + o)) = cc in
      let word = host_in_word o hi in
      record {
        address = base + o;
        shown = text;
        host = offset-IsHost net laws cidr base ones b o lo hi;
        unnamed =
            IsUnnamed-of_absent net laws (base + o) word ips ts parsed
              (rw (candidate_text o hi) at unused);
      }

  unparsed :
      (ip : String) (why : AllocError)
      → allocated_set net ips ≡ err why
      → allocate_random_ip net rand cidr ips ≢ ok ip
  unfolding allocate_random_ip
  unparsed ip why failed e = let still : err why ≡ ok ip = rw (b.parsed, failed) at e in cc

  -- Whatever AllocateRandomIP returns, for a CIDR that the net package parses to a block, is the
  -- text of an address in that block that none of the listed texts stands for; with a prefix of
  -- at most 30 bits it is neither the network address nor the broadcast address, and with a
  -- longer prefix it may be either. The random index is in range.
  pub allocate_random_ip-IsGrant :
      (ip : String) → allocate_random_ip net rand cidr ips ≡ ok ip → IsGrant net base ones ips ip
  allocate_random_ip-IsGrant ip e = elim (Result-cases (allocated_set net ips)) [
    | inl (ts, parsed) ↦
        let (free, same, good) = chooses ts parsed in
        choose-IsGrant ts free ip parsed good (sym same ∙ e)
    | inr (why, failed) ↦ absurd (unparsed ip why failed e)
  ]

  -- AllocateRandomIP returns an address whenever the CIDR parses to a block, each listed text is
  -- an address, and some host of the block is listed by none of them. The random index is in
  -- range.
  pub allocate_random_ip_succeeds :
      (x : ℕ)
      → All (IsParsable net) ips
      → IsHost base ones x
      → IsUnnamed net x ips
      → (ip : String) × (allocate_random_ip net rand cidr ips ≡ ok ip)
  allocate_random_ip_succeeds x parsable h free =
      let (ts, parsed) = allocated_set_total net laws ips parsable in
      let (offsets, same, good) = chooses ts parsed in
      let (lo, hi) = host_offset net laws cidr base ones b x h in
      let back : base + (x - base) ≡ x = omega (arith, h.low) in
      let word : x < 2 ^ 32 = omega (arith, host_in_word (x - base) hi) in
      let absent = absent_of_unnamed net laws x word ips ts parsed free in
      let listed =
        good.complete (x - base) lo hi (rw (candidate_text (x - base) hi, back) absent) in
      let (o, _, chosen) = choose-eq-ok offsets (x - base) _ good.sound listed in (_, same ∙ chosen)

draw_host-eq-ok :
    (net : Net) (rand : ℕ → ℕ) (cidr : String) (ts : List String) (base : ℕ) (m : ℕ × ℕ)
    (ip : String)
    → draw_host net rand cidr ts base m ≡ ok ip
    → m.1 ≡ 32
unfolding draw_host
draw_host-eq-ok net rand cidr ts base (ones, bits) ip e = elim (Bool-cases (bits == 32)) [
  | inl wide ↦ (nat_eq.same_iff bits 32).0 wide
  | inr other ↦ let refused : err (only_ipv4 cidr) ≡ ok ip = rw other at e in cc
]

-- It succeeds for IPv4 CIDRs only.
pub allocate_random_ip-IsBlock :
    (net : Net) (rand : ℕ → ℕ) (cidr : String) (ips : List String) (ip : String)
    → allocate_random_ip net rand cidr ips ≡ ok ip
    → (base : ℕ) × (ones : ℕ) × IsBlock net cidr base ones
unfolding allocate_random_ip
allocate_random_ip-IsBlock net rand cidr ips ip e =
    let (n, parsed, e1) = >>=-eq-ok (or_err (net.parse_cidr cidr) (parsing_cidr cidr)) _ e in
    let (ts, _, e2) = >>=-eq-ok (allocated_set net ips) _ e1 in
    let (base, four, e3) = >>=-eq-ok (or_err (net.to4 (net.network n)) (only_ipv4 cidr)) _ e2 in
    (
      base,
      (net.mask_size n).0,
      record {
        block = n;
        parsed = or_err-eq-ok _ _ parsed;
        is_base = or_err-eq-ok _ _ four;
        is_mask = λ i. ((net.mask_size n).0, draw_host-eq-ok net rand cidr ts base _ ip e3 i);
      },
    )
