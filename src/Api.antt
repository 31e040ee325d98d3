-- ===== src/Api.antt =====
-- The DNSRecord resource (api/v1alpha1/dnsrecord_types.go). A pointer field is an `Option`, an
-- integer field is a natural number below its width's bound, a Go map is an association list, and
-- a nil slice or map is the empty list. Of the metadata the fields that the program touches.
use mathlib.Core.Option.{none}
use k8s_dns_manager.Prelude.{ℕ, Bool, Option, List, [], Text}

pub record ARecord : Type 0 where
  pub name : Text
  pub class : ℕ
  pub ttl : ℕ
  pub target : Text

pub record CnameRecord : Type 0 where
  pub name : Text
  pub class : ℕ
  pub ttl : ℕ
  pub target : Text

pub record TxtRecord : Type 0 where
  pub name : Text
  pub class : ℕ
  pub ttl : ℕ
  pub targets : List Text

pub record SrvRecord : Type 0 where
  pub name : Text
  pub class : ℕ
  pub ttl : ℕ
  pub priority : ℕ
  pub weight : ℕ
  pub port : ℕ
  pub target : Text

pub record MxRecord : Type 0 where
  pub name : Text
  pub class : ℕ
  pub ttl : ℕ
  pub preference : ℕ
  pub target : Text

pub record DnsRecordSpec : Type 0 where
  pub active : Option Bool
  pub a : Option ARecord
  pub cname : Option CnameRecord
  pub txt : Option TxtRecord
  pub srv : Option SrvRecord
  pub mx : Option MxRecord
  pub raw : Text

pub record DnsRecordStatus : Type 0 where
  pub printed : Text
  pub active : Option Bool
  pub provider : Text
  pub id : Text

pub record OwnerReference : Type 0 where
  pub api_version : Text
  pub kind : Text
  pub name : Text
  pub uid : Text
  pub controller : Option Bool
  pub block_owner_deletion : Option Bool

pub record ObjectMeta : Type 0 where
  pub name : Text
  pub namespace : Text
  pub annotations : List (Text × Text)
  pub finalizers : List Text
  pub owner_references : List OwnerReference
  pub resource_version : Text
  pub deletion_timestamp : Option ℕ

pub record DnsRecord : Type 0 where
  pub api_version : Text
  pub kind : Text
  pub metadata : ObjectMeta
  pub spec : DnsRecordSpec
  pub status : DnsRecordStatus

-- The zero values of Go's composite literals.
abbrev pub empty_spec : DnsRecordSpec
empty_spec = record {
  active = none;
  a = none;
  cname = none;
  txt = none;
  srv = none;
  mx = none;
  raw = [];
}

abbrev pub empty_status : DnsRecordStatus
empty_status = record { printed = []; active = none; provider = []; id = [] }

abbrev pub empty_metadata : ObjectMeta
empty_metadata = record {
  name = [];
  namespace = [];
  annotations = [];
  finalizers = [];
  owner_references = [];
  resource_version = [];
  deletion_timestamp = none;
}
