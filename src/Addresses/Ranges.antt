-- ===== src/Addresses/Ranges.antt =====
-- The private addresses of IPv4, as numbers.
use k8s_dns_manager.Prelude.{
  ℕ, ◌+◌, ◌*◌, ◌/◌, ◌^◌, ◌-◌, ◌≤◌, ◌≡◌, refl, ◌↔◌, ◌⊎◌, ◌||◌, Bool, true, false, some, List, [],
  ◌∷◌, Text, codes, ok, arith, ◌==◌, Option,
}
use k8s_dns_manager.Deps.{Ip}
use k8s_dns_manager.Addresses.{Net, cidrs, parse_blocks, is_private, is_private_s}

-- a.b.c.d as a number
abbrev pub quad : ℕ → ℕ → ℕ → ℕ → ℕ
quad a b c d = ((a * 256 + b) * 256 + c) * 256 + d

-- What package net documents, for the addresses of IPv4: ParseCIDR reads each text a.b.c.d/bits that
-- the program names as the network of the addresses with the same leading bits, and those of IPv6
-- as networks with no address of IPv4; the addresses of loopback, of link-local unicast and of
-- link-local multicast are those of 127.0.0.0/8, 169.254.0.0/16 and 224.0.0.0/24.
pub record Documented (net : Net) : Type 0 where
  pub value : Ip → Option ℕ
  pub block : ℕ → ℕ → net.Block
  pub parses :
      (net.parse_cidr (codes "127.0.0.0/8") ≡ ok (block (quad 127 0 0 0) 8))
      × (net.parse_cidr (codes "10.0.0.0/8") ≡ ok (block (quad 10 0 0 0) 8))
      × (net.parse_cidr (codes "172.16.0.0/12") ≡ ok (block (quad 172 16 0 0) 12))
      × (net.parse_cidr (codes "192.168.0.0/16") ≡ ok (block (quad 192 168 0 0) 16))
      × (net.parse_cidr (codes "169.254.0.0/16") ≡ ok (block (quad 169 254 0 0) 16))
  pub contains :
      (base bits n : ℕ) (ip : Ip)
      → value ip ≡ some n
      → net.contains (block base bits) ip ≡ (n / 2 ^ (32 - bits) == base / 2 ^ (32 - bits))
  pub block6 : Text → net.Block
  pub parses6 :
      (net.parse_cidr (codes "::1/128") ≡ ok (block6 (codes "::1/128")))
      × (net.parse_cidr (codes "fe80::/10") ≡ ok (block6 (codes "fe80::/10")))
      × (net.parse_cidr (codes "fc00::/7") ≡ ok (block6 (codes "fc00::/7")))
  pub contains6 :
      (t : Text) (n : ℕ) (ip : Ip) → value ip ≡ some n → net.contains (block6 t) ip ≡ false
  pub loopback : (n : ℕ) (ip : Ip) → value ip ≡ some n → net.is_loopback ip ≡ (n / 2 ^ 24 == 127)
  pub unicast :
      (n : ℕ) (ip : Ip)
      → value ip ≡ some n
      → net.is_link_local_unicast ip ≡ (n / 2 ^ 16 == 169 * 256 + 254)
  pub multicast :
      (n : ℕ) (ip : Ip)
      → value ip ≡ some n
      → net.is_link_local_multicast ip ≡ (n / 2 ^ 8 == 224 * 65536)

-- From a.b.c.d to a'.b'.c'.d'.
abbrev pub IsWithin : ℕ → ℕ → ℕ → Type 0
IsWithin first last n = (first ≤ n) × (n ≤ last)

abbrev pub IsPrivate : ℕ → Type 0
IsPrivate n =
    IsWithin (quad 10 0 0 0) (quad 10 255 255 255) n
    ⊎ IsWithin (quad 127 0 0 0) (quad 127 255 255 255) n
    ⊎ IsWithin (quad 169 254 0 0) (quad 169 254 255 255) n
    ⊎ IsWithin (quad 172 16 0 0) (quad 172 31 255 255) n
    ⊎ IsWithin (quad 192 168 0 0) (quad 192 168 255 255) n
    ⊎ IsWithin (quad 224 0 0 0) (quad 224 0 0 255) n

module _ (net : Net) (doc : Documented net) where
  abbrev pub blocks : List net.Block
  blocks =
      doc.block (quad 127 0 0 0) 8
      ∷ doc.block (quad 10 0 0 0) 8
      ∷ doc.block (quad 172 16 0 0) 12
      ∷ doc.block (quad 192 168 0 0) 16
      ∷ doc.block (quad 169 254 0 0) 16
      ∷ doc.block6 (codes "::1/128")
      ∷ doc.block6 (codes "fe80::/10")
      ∷ doc.block6 (codes "fc00::/7")
      ∷ []

  parse_blocks-cidrs : parse_blocks net cidrs ≡ ok blocks
  unfolding parse_blocks
  parse_blocks-cidrs =
      let (p, q, r, s, t) = doc.parses in
      let (u, v, w) = doc.parses6 in rw (p, q, r, s, t, u, v, w) refl

  -- The tests, on the number of the address.
  abbrev is_numbered : ℕ → Bool
  is_numbered n =
      (n / 2 ^ 24 == 127)
      || (n / 2 ^ 16 == 169 * 256 + 254)
      || (n / 2 ^ 8 == 224 * 65536)
      || (n / 2 ^ 24 == 10)
      || (n / 2 ^ 20 == 172 * 16 + 1)
      || (n / 2 ^ 16 == 192 * 256 + 168)

  is_numbered-IsPrivate : (n : ℕ) → (is_numbered n ≡ true) ↔ IsPrivate n
  is_numbered-IsPrivate n = ground arith

  is_private-numbered :
      (ip : Ip) (n : ℕ) → doc.value ip ≡ some n → is_private net blocks ip ≡ is_numbered n
  unfolding is_private
  is_private-numbered ip n v =
      rw
        (
          doc.loopback n ip v,
          doc.unicast n ip v,
          doc.multicast n ip v,
          doc.contains (quad 127 0 0 0) 8 n ip v,
          doc.contains (quad 10 0 0 0) 8 n ip v,
          doc.contains (quad 172 16 0 0) 12 n ip v,
          doc.contains (quad 192 168 0 0) 16 n ip v,
          doc.contains (quad 169 254 0 0) 16 n ip v,
          doc.contains6 (codes "::1/128") n ip v,
          doc.contains6 (codes "fe80::/10") n ip v,
          doc.contains6 (codes "fc00::/7") n ip v,
        )
        (ground arith)

  -- For a package net that does what it documents, the networks are parsed without a panic, and a
  -- text that parses as an address of IPv4 is private exactly if it lies in 10.0.0.0/8,
  -- 127.0.0.0/8, 169.254.0.0/16, 172.16.0.0/12, 192.168.0.0/16 or 224.0.0.0/24.
  pub is_private_s-IsPrivate :
      (text : Text) (ip : Ip) (n : ℕ)
      → net.parse_ip text ≡ some ip
      → doc.value ip ≡ some n
      → (parse_blocks net cidrs ≡ ok blocks) × ((is_private_s net blocks text ≡ true) ↔ IsPrivate n)
  unfolding is_private_s
  is_private_s-IsPrivate text ip n parsed v =
      (parse_blocks-cidrs, rw (parsed, is_private-numbered ip n v) (is_numbered-IsPrivate n))
