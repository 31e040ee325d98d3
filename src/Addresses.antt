-- ===== src/Addresses.antt =====
-- Private addresses (pkg/ip/ip.go). What the code uses of package net is a parameter.
pub mod Ranges
use k8s_dns_manager.Prelude.{
  Bool, true, false, ◌||◌, Option, none, some, List, [], ◌∷◌, Text, codes, Error, Result, ok, err,
  ◌>>=◌, any, if◌then◌else◌,
}
use k8s_dns_manager.Deps.{Ip}

-- net.ParseCIDR, the Contains of its network, the tests of net.IP, and net.ParseIP.
pub record Net : Type 1 where
  pub Block : Type 0
  pub parse_cidr : Text → Result Block
  pub contains : Block → Ip → Bool
  pub is_loopback : Ip → Bool
  pub is_link_local_unicast : Ip → Bool
  pub is_link_local_multicast : Ip → Bool
  pub parse_ip : Text → Option Ip

abbrev pub cidrs : List Text
cidrs =
    codes "127.0.0.0/8"
    ∷ codes "10.0.0.0/8"
    ∷ codes "172.16.0.0/12"
    ∷ codes "192.168.0.0/16"
    ∷ codes "169.254.0.0/16"
    ∷ codes "::1/128"
    ∷ codes "fe80::/10"
    ∷ codes "fc00::/7"
    ∷ []

module _ (net : Net) where
  -- The loop of `init`; an error is its panic.
  unfoldable pub parse_blocks : List Text → Result (List net.Block)
  parse_blocks [] = ok []
  parse_blocks (cidr ∷ rest) = do
    block ← net.parse_cidr cidr
    blocks ← parse_blocks rest
    ok (block ∷ blocks)

  unfoldable pub is_private : List net.Block → Ip → Bool
  is_private blocks ip =
      if net.is_loopback ip || net.is_link_local_unicast ip || net.is_link_local_multicast ip
      then true
      else any (λ block. net.contains block ip) blocks

  private_parsed : List net.Block → Option Ip → Bool
  private_parsed blocks none = false
  private_parsed blocks (some ip) = is_private blocks ip

  unfoldable pub is_private_s : List net.Block → Text → Bool
  unfolding private_parsed
  is_private_s blocks ip = private_parsed blocks (net.parse_ip ip)
