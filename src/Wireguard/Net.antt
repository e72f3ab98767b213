-- ===== src/Wireguard/Net.antt =====
-- Go's packages net and math/rand, as far as allocator.go calls them. An IPv4 address is the
-- number that `binary.BigEndian.Uint32` reads from its four bytes.
use aks_flex.Common.{ℕ, ◌-◌, ◌%◌, ◌^◌, ◌≤◌, ◌<◌, ◌≡◌, Option, none, some, String}

pub record Net : Type 1 where
  -- net.IP and *net.IPNet
  pub Ip : Type 0
  pub IpNet : Type 0
  -- the network of net.ParseCIDR, `none` for its error
  pub parse_cidr : String → Option IpNet
  -- n.IP and n.Mask.Size()
  pub network : IpNet → Ip
  pub mask_size : IpNet → ℕ × ℕ
  -- net.ParseIP, ip.To4() and ip.String()
  pub parse_ip : String → Option Ip
  pub to4 : Ip → Option ℕ
  pub ip_string : Ip → String
  -- the four bytes that binary.BigEndian.PutUint32 writes
  pub put_uint32 : ℕ → Ip

-- The IPv4 address that a text stands for.
abbrev pub then_to4 : (net : Net) → Option net.Ip → Option ℕ
then_to4 net none = none
then_to4 net (some p) = net.to4 p

abbrev pub address_of : (net : Net) → String → Option ℕ
address_of net s = then_to4 net (net.parse_ip s)

-- What the documentation of the package says of these functions.
pub record NetLaws (net : Net) : Type 0 where
  -- Four bytes hold 32 bits.
  pub to4-lt : (p : net.Ip) (x : ℕ) → net.to4 p ≡ some x → x < 2 ^ 32
  -- The dotted text of four bytes is read back as those four bytes.
  pub address_of-put_uint32 :
      (x : ℕ) → x < 2 ^ 32 → address_of net (net.ip_string (net.put_uint32 x)) ≡ some x
  -- The text of a parsed address that is not IPv4 is not that of an IPv4 address.
  pub address_of-ip_string :
      (p : net.Ip) → net.to4 p ≡ none → address_of net (net.ip_string p) ≡ none
  -- ParseCIDR masks the address: a prefix is at most 32 bits long, and the bits behind it are zero.
  pub parse_cidr_masked :
      (cidr : String) (n : net.IpNet) (base ones : ℕ)
      → net.parse_cidr cidr ≡ some n
      → net.to4 (net.network n) ≡ some base
      → net.mask_size n ≡ (ones, 32)
      → (ones ≤ 32) × (base % 2 ^ (32 - ones) ≡ 0)
