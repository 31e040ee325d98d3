-- ===== src/Deps.antt =====
-- What the program takes from other packages: the resource records of miekg/dns with their parser
-- and printer, the addresses of package net, and the public suffix list.
use k8s_dns_manager.Prelude.{ℕ, Bool, Option, List, Text, Result}

-- net.IP, a list of bytes
abbrev pub Ip : Type 0
Ip = List ℕ

-- dns.RR_Header
pub record Header : Type 0 where
  pub name : Text
  pub rrtype : ℕ
  pub class : ℕ
  pub ttl : ℕ

-- The concrete types of dns.RR that the program tells apart, with their fields; `other` is any
-- further type, with the name of its Go type and its data as text.
pub data Rdata : Type 0 where
  a : Ip → Rdata
  aaaa : Ip → Rdata
  cname : Text → Rdata
  mx : ℕ → Text → Rdata
  ns : Text → Rdata
  srv : ℕ → ℕ → ℕ → Text → Rdata
  txt : List Text → Rdata
  soa : Text → Text → ℕ → ℕ → ℕ → ℕ → ℕ → Rdata
  other : Text → Text → Rdata

pub record Rr : Type 0 where
  pub header : Header
  pub rdata : Rdata

-- dns.TypeA and so on, and dns.ClassINET
abbrev pub type_a : ℕ
type_a = 1

abbrev pub type_ns : ℕ
type_ns = 2

abbrev pub type_cname : ℕ
type_cname = 5

abbrev pub type_soa : ℕ
type_soa = 6

abbrev pub type_mx : ℕ
type_mx = 15

abbrev pub type_txt : ℕ
type_txt = 16

abbrev pub type_aaaa : ℕ
type_aaaa = 28

abbrev pub type_srv : ℕ
type_srv = 33

abbrev pub class_inet : ℕ
class_inet = 1

-- net.ParseIP and IP.String; publicsuffix.Domain; dns.NewRR, whose record may be nil without an
-- error, and RR.String; dns.SplitDomainName; dns.Fqdn; dns.TypeToString; dns.IsDuplicate.
pub record Deps : Type 0 where
  pub parse_ip : Text → Option Ip
  pub ip_string : Ip → Text
  pub domain : Text → Result Text
  pub new_rr : Text → Result (Option Rr)
  pub rr_string : Rr → Text
  pub split_domain_name : Text → List Text
  pub fqdn : Text → Text
  pub type_to_string : ℕ → Text
  pub is_duplicate : Rr → Rr → Bool
