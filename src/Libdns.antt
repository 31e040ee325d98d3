-- ===== src/Libdns.antt =====
-- The provider over a libdns client (pkg/provider/libdns/libdns.go). A client answers by all that
-- was called before; the calls are listed the last one first. Durations are in nanoseconds.
pub mod Names
pub mod Provider
pub mod Rounds
pub mod Synced
use k8s_dns_manager.Prelude.{ℕ, Option, List, Text, Error, Result}

-- libdns.Record
pub record LibRecord : Type 0 where
  pub id : Text
  pub rtype : Text
  pub name : Text
  pub value : Text
  pub ttl : ℕ

pub data ClientCall : Type 0 where
  get_records : Text → ClientCall
  append_records : Text → LibRecord → ClientCall
  delete_records : Text → LibRecord → ClientCall

-- The interface `Client`. GetRecords may return records beside an error; the records that
-- DeleteRecords returns are not used.
pub record Client : Type 0 where
  pub on_get : List ClientCall → Text → List LibRecord × Option Error
  pub on_append : List ClientCall → Text → LibRecord → Result (List LibRecord)
  pub on_delete : List ClientCall → Text → LibRecord → Option Error
