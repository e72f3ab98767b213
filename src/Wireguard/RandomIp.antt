-- ===== src/Wireguard/RandomIp.antt =====
-- `AllocateRandomIP` of allocator.go. The words are uint32, so `+ 1` and `- 2` wrap.
-- `rand` is `rand.IntN` of the one call that the function makes.
pub mod Range
pub mod Loop
pub mod Hosts
pub mod Taken
pub mod Laws
use aks_flex.Common.{
  ℕ, zero, suc, ◌+◌, ◌-◌, ◌%◌, ◌^◌, Option, none, some, List, [], ◌∷◌, String, Bool, true, false,
  ltb, leb, not, if◌then◌else◌, length, get_elem?, Result, ok, err, or_err, map_err, ◌>>=◌, elem,
  ◌==◌, nat_eq, string_eq,
}
use aks_flex.Wireguard.Net.{Net}

-- The errors that the function returns. The last two stand for what would not be one: an index
-- that is out of range, and a loop that takes more rounds than its range has offsets.
pub data AllocError : Type 0 where
  parsing_cidr parsing_allocated only_ipv4 no_free : String → AllocError
  index_out_of_range : AllocError
  endless_loop : AllocError

abbrev pub u32 : ℕ → ℕ
u32 n = n % 2 ^ 32

-- `start`, `end` for the bits that the prefix leaves to hosts
unfoldable pub start_offset : ℕ → ℕ
start_offset host_bits = if leb host_bits 1 then 0 else 1

unfoldable pub end_offset : ℕ → ℕ
end_offset host_bits =
    let total_hosts = u32 (2 ^ host_bits) in
    if leb host_bits 1 then u32 (total_hosts + (2 ^ 32 - 1)) else u32 (total_hosts + (2 ^ 32 - 2))

module _ (net : Net) where
  -- `parsed = v4` where there is one
  unfoldable pub to_4_bytes : Option ℕ → net.Ip → net.Ip
  to_4_bytes none p = p
  to_4_bytes (some x) p = net.put_uint32 x

  -- The map `allocated`, by its keys.
  unfoldable pub allocated_set : List String → Result AllocError (List String)
  unfolding to_4_bytes
  allocated_set [] = ok []
  allocated_set (ip ∷ ips) = do
    parsed ← or_err (net.parse_ip ip) (parsing_allocated ip)
    let key = net.ip_string (to_4_bytes (net.to4 parsed) parsed)
    rest ← allocated_set ips
    ok (key ∷ rest)

  unfoldable pub candidate : ℕ → ℕ → String
  candidate network_addr offset = net.ip_string (net.put_uint32 (u32 (network_addr + offset)))

  -- The loop over the offsets; `none` when the fuel runs out.
  unfoldable pub free_offsets : ℕ → ℕ → List String → ℕ → ℕ → Option (List ℕ)
  free_offsets zero network_addr allocated offset end = none
  free_offsets (suc fuel) network_addr allocated offset end =
      let rest = free_offsets fuel network_addr allocated (u32 (offset + 1)) end in
      let found = elem (candidate network_addr offset) allocated in
      if leb offset end
      then elim rest [ none ↦ none | some free ↦ some (if found then free else offset ∷ free) ]
      else some []

  -- Picks the random free address.
  unfoldable pub choose : (ℕ → ℕ) → String → ℕ → List ℕ → Result AllocError String
  choose rand cidr network_addr [] = err (no_free cidr)
  choose rand cidr network_addr (x ∷ xs) = do
    chosen ← or_err (get_elem? (x ∷ xs) (rand (length (x ∷ xs)))) index_out_of_range
    ok (net.ip_string (net.put_uint32 (u32 (network_addr + chosen))))

  -- From the size of the mask on.
  unfoldable pub draw_host : (ℕ → ℕ) → String → List String → ℕ → ℕ × ℕ → Result AllocError String
  draw_host rand cidr allocated network_addr (ones, bits) =
      if not (bits == 32) then err (only_ipv4 cidr) else do
        let start = start_offset (bits - ones)
        let end = end_offset (bits - ones)
        free ←
            or_err (free_offsets (suc (suc end - start)) network_addr allocated start end)
              endless_loop
        choose rand cidr network_addr free

  unfoldable pub allocate_random_ip : (ℕ → ℕ) → String → List String → Result AllocError String
  allocate_random_ip rand cidr ips = do
    ip_net ← or_err (net.parse_cidr cidr) (parsing_cidr cidr)
    allocated ← allocated_set ips
    network_addr ← or_err (net.to4 (net.network ip_net)) (only_ipv4 cidr)
    draw_host rand cidr allocated network_addr (net.mask_size ip_net)
