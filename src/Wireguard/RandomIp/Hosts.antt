-- ===== src/Wireguard/RandomIp/Hosts.antt =====
-- The host addresses of a CIDR, stated without the code: those of its block, less the first and
-- the last one where the prefix leaves more than one bit.
use aks_flex.Common.{ℕ, suc, ◌+◌, ◌-◌, ◌^◌, ◌≤◌, ◌<◌, ◌≡◌, ◌≢◌, ◌⊎◌, inl, inr, some, String, arith}
use native.Mathlib.Decide.{dec_le}
use aks_flex.Wireguard.Net.{Net, NetLaws}
use aks_flex.Wireguard.RandomIp.{start_offset, end_offset}
use aks_flex.Wireguard.RandomIp.Range.{IsRange, left_out, range_lem, block_fits}

-- An IPv4 CIDR as net.ParseCIDR reads it.
pub record IsBlock (net : Net) (cidr : String) (base ones : ℕ) : Type 0 where
  pub block : net.IpNet
  pub parsed : net.parse_cidr cidr ≡ some block
  pub is_base : net.to4 (net.network block) ≡ some base
  pub is_mask : net.mask_size block ≡ (ones, 32)

pub record IsHost (base ones x : ℕ) : Type 0 where
  pub low : base ≤ x
  pub high : x < base + 2 ^ (32 - ones)
  pub inner : (30 < ones) ⊎ ((x ≢ base) × (suc x ≢ base + 2 ^ (32 - ones)))

left_out_wide : (ones : ℕ) → ones ≤ 30 → left_out (32 - ones) ≡ 1
left_out_wide ones h = ground arith

left_out_narrow : (ones : ℕ) → 30 < ones → left_out (32 - ones) ≡ 0
left_out_narrow ones h = ground arith

left_out_small : (ones : ℕ) → left_out (32 - ones) ≤ 1
left_out_small ones = ground arith

module _ (net : Net) (laws : NetLaws net) (cidr : String) (base ones : ℕ)
    (b : IsBlock net cidr base ones) where
  pub ones-le : ones ≤ 32
  ones-le = (laws.parse_cidr_masked cidr b.block base ones b.parsed b.is_base b.is_mask).0

  pub block-IsRange : IsRange (32 - ones)
  block-IsRange = range_lem (32 - ones) (omega arith)

  pub block_in_word : base + 2 ^ (32 - ones) ≤ 2 ^ 32
  block_in_word =
      let aligned =
        (laws.parse_cidr_masked cidr b.block base ones b.parsed b.is_base b.is_mask).1 in
      let word = laws.to4-lt (net.network b.block) base b.is_base in
      let r = block-IsRange in
      rw r.blocks at (
        block_fits base (2 ^ (32 - ones)) (2 ^ (32 - (32 - ones))) aligned (omega (arith, r.last))
          (rw r.blocks word))

  pub offset-IsHost :
      (o : ℕ)
      → start_offset (32 - ones) ≤ o
      → o ≤ end_offset (32 - ones)
      → IsHost base ones (base + o)
  offset-IsHost o lo hi =
      let r = block-IsRange in
      let le = ones-le in
      record {
        low = omega arith;
        high = omega (arith, r.last);
        inner = elim (dec_le ones 30) [
          | yes p ↦
              let wide = left_out_wide ones p in
              inr ((λ e. omega (arith, r.first)), (λ e. omega (arith, r.last)))
          | no q ↦ inl (omega arith)
        ];
      }

  pub host_offset :
      (x : ℕ)
      → IsHost base ones x
      → (start_offset (32 - ones) ≤ x - base) × (x - base ≤ end_offset (32 - ones))
  host_offset x h =
      let r = block-IsRange in
      let le = ones-le in
      elim h.inner [
        | inl narrow ↦
            let all = left_out_narrow ones narrow in
            (omega (arith, r.first), omega (arith, r.last, h.high))
        | inr (not_network, not_broadcast) ↦
            let few = left_out_small ones in
            let low = h.low in let high = h.high in (omega (arith, r.first), omega (arith, r.last))
      ]
