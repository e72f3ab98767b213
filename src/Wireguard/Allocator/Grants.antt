-- ===== src/Wireguard/Allocator/Grants.antt =====
-- What an allocation has seen when it returns an address, and what it leaves behind.
use aks_flex.Common.{
  ℕ, ◌^◌, ◌<◌, false, ◌≡◌, refl, ap, ◌∙◌, inl, inr, Option, none, some, List, [], ◌∷◌, ◌++◌, String,
  Result, ok, err, elem, string_eq, ◌==◌, ◌&&◌, if◌then◌else◌, arith, Bool-cases, elem-append,
}
use aks_flex.Common.Assoc.{Map, lookup, insert, keys, unless, elem-keys, is_some}
use aks_flex.Wireguard.Allocator.Reserved.{
  reconciled, remaining, lookup-remaining, reserved-store, reserved-store-insert,
}
use aks_flex.Wireguard.Net.{Net, NetLaws, address_of}
use aks_flex.Wireguard.RandomIp.{AllocError}
use aks_flex.Wireguard.RandomIp.Hosts.{IsBlock, IsHost, block_in_word}
use aks_flex.Wireguard.RandomIp.Taken.{IsUnnamed}
use aks_flex.Wireguard.RandomIp.Laws.{
  IsGrant, IsIntN, allocate_random_ip-IsGrant, allocate_random_ip-IsBlock,
}
use aks_flex.Wireguard.Allocator.{
  IpAllocator, AllocateError, store, record_ip, allocate_from, reserved,
}

-- A text whose address no listed text has is not listed.
absent_of_unnamed_text :
    (net : Net) (x : ℕ) (ip : String) (ips : List String)
    → address_of net ip ≡ some x
    → IsUnnamed net x ips
    → elem ip ips ≡ false
unfolding elem
absent_of_unnamed_text net x ip [] e h = refl
absent_of_unnamed_text net x ip (s ∷ ips) e (h, hs) =
    let ih = absent_of_unnamed_text net x ip ips e hs in
    elim (Bool-cases (s == ip)) [
      | inl same ↦
          let p : address_of net s ≡ some x =
            ap (address_of net) ((string_eq.same_iff s ip).0 same) ∙ e in
          absurd (h p)
      | inr other ↦ rw other ih
    ]

record_ip-eq-ok :
    (a : IpAllocator) (c claim ip : String) (m : Map String String) (r : Result AllocError String)
    → (record_ip a c claim m r).0 ≡ ok ip
    → (r ≡ ok ip) × ((record_ip a c claim m r).1 ≡ store a c (insert ip claim m))
unfolding record_ip
record_ip-eq-ok a c claim ip m (ok ip') e = let same : ip' ≡ ip = cc in rw same (refl, refl)
record_ip-eq-ok a c claim ip m (err why) e = cc

record_ip-eq-err :
    (a : IpAllocator) (c claim : String) (why : AllocateError) (m : Map String String)
    (r : Result AllocError String)
    → (record_ip a c claim m r).0 ≡ err why
    → (record_ip a c claim m r).1 ≡ store a c m
unfolding record_ip
record_ip-eq-err a c claim why m (ok ip) e = cc
record_ip-eq-err a c claim why m (err e') e = refl

-- What an allocation for class `c` that returns `ip` has seen and has left behind: a host of the
-- CIDR that was neither confirmed nor reserved, and that is reserved now. Of the other
-- reservations of the class the confirmed ones are gone.
pub record IsGranted (net : Net) (base ones : ℕ) (c claim : String) (confirmed : List String)
    (a a' : IpAllocator) (ip : String) : Type 0 where
  pub address : ℕ
  pub shown : ip ≡ net.ip_string (net.put_uint32 address)
  pub host : IsHost base ones address
  pub unconfirmed : elem ip confirmed ≡ false
  pub unreserved : reserved a c ip ≡ none
  pub after :
      (d x : String)
      → reserved a' d x ≡ (if c == d && ip == x then some claim else reconciled confirmed c a d x)

none_of_unless : (o : Option String) → is_some (unless (λ _. false) o) ≡ false → o ≡ none
none_of_unless none h = refl
none_of_unless (some v) h = cc

module _ (net : Net) (laws : NetLaws net) (rand : ℕ → ℕ) (in_range : IsIntN rand)
    (cidr : String) where
  module _ (a : IpAllocator) (c claim : String) (confirmed : List String) where
    abbrev left : Map String String
    left = remaining a c claim confirmed

    from_grant :
        (ip : String) (base ones : ℕ)
        → IsBlock net cidr base ones
        → IsGrant net base ones (confirmed ++ keys left) ip
        → IsGranted net base ones c claim confirmed a (store a c (insert ip claim left)) ip
    from_grant ip base ones b g =
        let word : g.address < 2 ^ 32 =
          omega (arith, g.host.high, block_in_word net laws cidr base ones b) in
        let known : address_of net ip ≡ some g.address =
          ap (address_of net) g.shown ∙ laws.address_of-put_uint32 g.address word in
        let absent = absent_of_unnamed_text net g.address ip _ known g.unnamed in
        let split = elem-append ip confirmed (keys left) in
        let unconfirmed : elem ip confirmed ≡ false = ground arith in
        let unkept : is_some (lookup ip left) ≡ false = ground (arith, elem-keys ip left) in
        record {
          address = g.address;
          shown = g.shown;
          host = g.host;
          unconfirmed = unconfirmed;
          unreserved =
              none_of_unless _
                (rw (lookup-remaining a c claim confirmed ip, unconfirmed) at unkept);
          after = λ d x. reserved-store-insert a c claim confirmed d x ip;
        }

    pub allocate_from-IsGranted :
        (ip : String)
        → (allocate_from net rand a cidr c claim confirmed).0 ≡ ok ip
        → (base : ℕ) × (ones : ℕ) × IsBlock net cidr base ones
          × IsGranted net base ones c claim confirmed a
              (allocate_from net rand a cidr c claim confirmed).1
              ip
    unfolding allocate_from
    allocate_from-IsGranted ip e =
        let (drawn, after) = record_ip-eq-ok a c claim ip left _ e in
        let (base, ones, b) = allocate_random_ip-IsBlock net rand cidr _ ip drawn in
        let grant = allocate_random_ip-IsGrant net laws rand in_range cidr base ones b _ ip drawn in
        (base, ones, b, rw after (from_grant ip base ones b grant))

pub allocate_from_failed :
    (net : Net) (rand : ℕ → ℕ) (a : IpAllocator) (cidr c claim : String) (confirmed : List String)
    (why : AllocateError)
    → (allocate_from net rand a cidr c claim confirmed).0 ≡ err why
    → (d x : String)
    → reserved (allocate_from net rand a cidr c claim confirmed).1 d x
      ≡ reconciled confirmed c a d x
unfolding allocate_from
allocate_from_failed net rand a cidr c claim confirmed why e d x =
    rw (record_ip-eq-err a c claim why (remaining a c claim confirmed) _ e)
      (reserved-store a c claim confirmed d x)
