-- ===== src/Wireguard/RandomIp/Taken.antt =====
-- The set of allocated addresses: its keys are the texts of the addresses that the list names.
use aks_flex.Common.{
  ℕ, ◌^◌, ◌<◌, ◌≡◌, ◌≢◌, refl, sym, ap, ◌∙◌, inl, inr, Option, none, some, List, [], ◌∷◌, String,
  false, All, elem, string_eq, or_err, >>=-eq-ok, or_err-eq-ok, ok, Option-cases, arith,
}
use aks_flex.Wireguard.Net.{Net, NetLaws, address_of}
use aks_flex.Wireguard.RandomIp.{parsing_allocated, to_4_bytes, allocated_set}

-- No entry of the list names the address.
abbrev pub IsUnnamed : Net → ℕ → List String → Type 0
IsUnnamed net x = All (λ s. address_of net s ≢ some x)

abbrev pub IsParsable : Net → String → Type 0
IsParsable net s = net.parse_ip s ≢ none

module _ (net : Net) (laws : NetLaws net) where
  text : ℕ → String
  text x = net.ip_string (net.put_uint32 x)

  address_of-key :
      (p : net.Ip) (o : Option ℕ)
      → net.to4 p ≡ o
      → address_of net (net.ip_string (to_4_bytes net o p)) ≡ o
  unfolding to_4_bytes
  address_of-key p none e = laws.address_of-ip_string p e
  address_of-key p (some x) e = laws.address_of-put_uint32 x (laws.to4-lt p x e)

  -- What the first entry has contributed.
  allocated_set-eq-ok :
      (s : String) (ips ts : List String)
      → allocated_set net (s ∷ ips) ≡ ok ts
      → (p : net.Ip) × (rest : List String) × (net.parse_ip s ≡ some p)
        × (allocated_set net ips ≡ ok rest)
        × (ts ≡ net.ip_string (to_4_bytes net (net.to4 p) p) ∷ rest)
  unfolding allocated_set
  allocated_set-eq-ok s ips ts e =
      let (p, parsed, e') = >>=-eq-ok (or_err (net.parse_ip s) (parsing_allocated s)) _ e in
      let (rest, later, e'') = >>=-eq-ok (allocated_set net ips) _ e' in
      (p, rest, or_err-eq-ok _ _ parsed, later, cc)

  module _ (x : ℕ) (word : x < 2 ^ 32) where
    key_names :
        (p : net.Ip)
        → net.ip_string (to_4_bytes net (net.to4 p) p) ≡ net.ip_string (net.put_uint32 x)
        → net.to4 p ≡ some x
    key_names p e =
        let named = address_of-key p (net.to4 p) refl in
        let given = laws.address_of-put_uint32 x word in sym named ∙ ap (address_of net) e ∙ given

    names_key :
        (p : net.Ip)
        → net.to4 p ≡ some x
        → net.ip_string (to_4_bytes net (net.to4 p) p) ≡ net.ip_string (net.put_uint32 x)
    unfolding to_4_bytes
    names_key p e = rw (e, to_4_bytes) refl

    pub IsUnnamed-of_absent :
        (ips ts : List String)
        → allocated_set net ips ≡ ok ts
        → elem (net.ip_string (net.put_uint32 x)) ts ≡ false
        → IsUnnamed net x ips
    unfolding allocated_set elem
    IsUnnamed-of_absent [] ts e absent = tt
    IsUnnamed-of_absent (s ∷ ips) ts e absent =
        let (p, rest, parsed, later, shape) = allocated_set-eq-ok s ips ts e in
        let absent' = rw (shape, elem) at absent in
        (
          λ named.
              let key = names_key p (rw parsed at named) in
              ground (arith, (string_eq.same_iff _ _).1 key),
          IsUnnamed-of_absent ips rest later (ground arith),
        )

    pub absent_of_unnamed :
        (ips ts : List String)
        → allocated_set net ips ≡ ok ts
        → IsUnnamed net x ips
        → elem (net.ip_string (net.put_uint32 x)) ts ≡ false
    unfolding allocated_set elem
    absent_of_unnamed [] ts e h = let none_taken : ts ≡ [] = cc in rw none_taken refl
    absent_of_unnamed (s ∷ ips) ts e h =
        let (p, rest, parsed, later, shape) = allocated_set-eq-ok s ips ts e in
        let other = absent_of_unnamed ips rest later h.1 in
        let same : address_of net s ≡ net.to4 p = rw parsed refl in
        let test =
          string_eq.same_iff (net.ip_string (to_4_bytes net (net.to4 p) p))
            (net.ip_string (net.put_uint32 x)) in
        rw shape (ground (arith, other, same, h.0, test, key_names p))

  pub allocated_set_total :
      (ips : List String)
      → All (IsParsable net) ips
      → (ts : List String) × (allocated_set net ips ≡ ok ts)
  unfolding allocated_set
  allocated_set_total [] h = ([], refl)
  allocated_set_total (s ∷ ips) (h, hs) =
      let (rest, later) = allocated_set_total ips hs in
      elim (Option-cases (net.parse_ip s)) [
        | inl missing ↦ absurd (h missing)
        | inr (p, parsed) ↦
            (net.ip_string (to_4_bytes net (net.to4 p) p) ∷ rest, rw (parsed, later) refl)
      ]
