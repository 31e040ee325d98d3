-- ===== src/Tests/Addresses.antt =====
-- A package net for addresses of four bytes.
use k8s_dns_manager.Prelude.{
  ℕ, ◌-◌, ◌/◌, ◌^◌, ◌≡◌, refl, ◌↔◌, Bool, true, false, Option, none, some, [], ◌∷◌, Text, codes,
  Result, ok, text_eq, ◌==◌, if◌then◌else◌,
}
use k8s_dns_manager.Deps.{Ip}
use k8s_dns_manager.Addresses.{Net, cidrs, parse_blocks, is_private_s}
use k8s_dns_manager.Addresses.Ranges.{quad, Documented, IsPrivate, blocks, is_private_s-IsPrivate}

abbrev value : Ip → Option ℕ
value (a ∷ b ∷ c ∷ d ∷ []) = some (quad a b c d)
value _ = none

-- A network of IPv4, or another one.
abbrev Block : Type 0
Block = Option (ℕ × ℕ)

abbrev covers : Block → Option ℕ → Bool
covers (some (base, bits)) (some n) = n / 2 ^ (32 - bits) == base / 2 ^ (32 - bits)
covers _ _ = false

abbrev parse : Text → Result Block
parse t =
    if text_eq t (codes "127.0.0.0/8")
    then ok (some (quad 127 0 0 0, 8))
    else if text_eq t (codes "10.0.0.0/8")
    then ok (some (quad 10 0 0 0, 8))
    else if text_eq t (codes "172.16.0.0/12")
    then ok (some (quad 172 16 0 0, 12))
    else if text_eq t (codes "192.168.0.0/16")
    then ok (some (quad 192 168 0 0, 16))
    else if text_eq t (codes "169.254.0.0/16")
    then ok (some (quad 169 254 0 0, 16))
    else ok none

abbrev net : Net
net = record {
  Block = Block;
  parse_cidr = parse;
  contains = λ b ip. covers b (value ip);
  is_loopback = λ ip. covers (some (quad 127 0 0 0, 8)) (value ip);
  is_link_local_unicast = λ ip. covers (some (quad 169 254 0 0, 16)) (value ip);
  is_link_local_multicast = λ ip. covers (some (quad 224 0 0 0, 24)) (value ip);
  parse_ip = λ t. if text_eq t (codes "10.1.2.3") then some (10 ∷ 1 ∷ 2 ∷ 3 ∷ []) else none;
}

net-Documented : Documented net
unfolding text_eq
net-Documented = record {
  value = value;
  block = λ base bits. some (base, bits);
  parses = (refl, refl, refl, refl, refl);
  contains = λ base bits n ip v. rw v refl;
  block6 = λ t. none;
  parses6 = (refl, refl, refl);
  contains6 = λ t n ip v. refl;
  loopback = λ n ip v. rw v refl;
  unicast = λ n ip v. rw v refl;
  multicast = λ n ip v. rw v refl;
}

private-parsed : net.parse_ip (codes "10.1.2.3") ≡ some (10 ∷ 1 ∷ 2 ∷ 3 ∷ [])
unfolding text_eq
private-parsed = refl

private-value : net-Documented.value (10 ∷ 1 ∷ 2 ∷ 3 ∷ []) ≡ some (quad 10 1 2 3)
unfolding net-Documented
private-value = refl

is_private_s-IsPrivate_example :
    (parse_blocks net cidrs ≡ ok (blocks net net-Documented))
    × ((is_private_s net (blocks net net-Documented) (codes "10.1.2.3") ≡ true)
        ↔ IsPrivate (quad 10 1 2 3))
is_private_s-IsPrivate_example =
    is_private_s-IsPrivate net net-Documented (codes "10.1.2.3") (10 ∷ 1 ∷ 2 ∷ 3 ∷ [])
      (quad 10 1 2 3) private-parsed private-value
