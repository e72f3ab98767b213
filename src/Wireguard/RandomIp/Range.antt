-- ===== src/Wireguard/RandomIp/Range.antt =====
-- The range of host offsets, in terms of the 2 ^ host_bits addresses of the network.
use aks_flex.Common.{
  ℕ, suc, ◌+◌, ◌-◌, ◌*◌, ◌/◌, ◌%◌, ◌^◌, ◌≤◌, ◌<◌, ◌≡◌, refl, Bool, true, ◌&&◌, ltb, leb, nat_beq,
  if◌then◌else◌, arith,
}
use native.Mathlib.Nat.{div-add-mod}
use aks_flex.Common.Below.{every_below, every_below-lt}
use aks_flex.Wireguard.RandomIp.{start_offset, end_offset}

-- How many addresses the range leaves out: the network's and the broadcast one, except in a
-- network of one or two addresses.
abbrev pub left_out : ℕ → ℕ
left_out host_bits = if leb host_bits 1 then 0 else 1

abbrev range_table : ℕ → Bool
range_table h =
    nat_beq (start_offset h) (left_out h)
    && nat_beq (end_offset h + left_out h + 1) (2 ^ h)
    && leb (start_offset h) (end_offset h)
    && nat_beq (2 ^ (32 - h) * 2 ^ h) (2 ^ 32)
    && leb 1 (2 ^ (32 - h))
    && leb (2 ^ h) (2 ^ 32)
    && ltb (suc (end_offset h)) (2 ^ 32)

range_checked : every_below 33 range_table ≡ true
unfolding every_below start_offset end_offset
range_checked = refl

pub record IsRange (h : ℕ) : Type 0 where
  pub first : start_offset h ≡ left_out h
  pub last : end_offset h + left_out h + 1 ≡ 2 ^ h
  pub ordered : start_offset h ≤ end_offset h
  pub blocks : 2 ^ (32 - h) * 2 ^ h ≡ 2 ^ 32
  pub some_block : 1 ≤ 2 ^ (32 - h)
  pub fits_word : 2 ^ h ≤ 2 ^ 32
  pub below_word : suc (end_offset h) < 2 ^ 32

of_table : (h : ℕ) → range_table h ≡ true → IsRange h
of_table h t = record {
  first = ground arith;
  last = ground arith;
  ordered = ground arith;
  blocks = ground arith;
  some_block = ground arith;
  fits_word = ground arith;
  below_word = ground arith;
}

pub range_lem : (h : ℕ) → h ≤ 32 → IsRange h
range_lem h le = of_table h (every_below-lt range_table 33 h (omega arith) range_checked)

-- A block that starts at a multiple of its size ends inside the word.
pub block_fits : (a m k : ℕ) → a % m ≡ 0 → 0 < m → a < k * m → a + m ≤ k * m
block_fits a m k aligned pos lt =
    let whole : a ≡ m * (a / m) = grind (arith, div-add-mod a m) in
    let below : a / m < k = grind arith in grind arith
