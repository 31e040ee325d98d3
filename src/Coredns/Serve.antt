-- ===== src/Coredns/Serve.antt =====
-- ServeDNS of pkg/coredns/k8s_dns/crds.go. The provider is read twice, so the second reading may be
-- of later zones than the first.
use k8s_dns_manager.Prelude.{
  ℕ, ◌≡◌, refl, ◌≢◌, Bool, true, false, ◌↔◌, ◌⊎◌, inl, inr, Option, none, some, List, [], Text,
  Error, is_some, text_eq, text_eq_iff, lookup, if◌then◌else◌, arith, Option-cases, Bool-cases,
}
use k8s_dns_manager.Deps.{Deps, Rr}
use k8s_dns_manager.Coredns.{ZoneLib, Zones, Provider}
use k8s_dns_manager.Coredns.Sync.{sync}
use k8s_dns_manager.Coredns.Sync.Names.{is_listed, sync-NamesAgree}

-- file.Result
pub data LookupResult : Type 0 where
  success no_data name_error delegation server_failure : LookupResult

-- What a zone's Lookup returns.
pub record Found : Type 0 where
  pub answer : List Rr
  pub ns : List Rr
  pub extra : List Rr
  pub result : LookupResult

-- The reply, with the size that it is truncated to.
pub record Reply : Type 0 where
  pub authoritative : Bool
  pub rcode : ℕ
  pub answer : List Rr
  pub ns : List Rr
  pub extra : List Rr
  pub truncated_to : Option ℕ

-- What ServeDNS returns, and the reply that it has passed to WriteMsg.
pub record Served : Type 0 where
  pub code : ℕ
  pub error : Option Error
  pub written : Option Reply

abbrev pub rcode_success : ℕ
rcode_success = 0

abbrev pub rcode_server_failure : ℕ
rcode_server_failure = 2

abbrev pub rcode_name_error : ℕ
rcode_name_error = 3

abbrev pub min_msg_size : ℕ
min_msg_size = 512

-- One query: plugin.Zones' Matches for its name, a zone's Expired and Lookup for it, whether it came
-- over TCP, the error of WriteMsg, and what the next plugin returns.
pub record Query (lib : ZoneLib) : Type 0 where
  pub matches : List Text → Text
  pub expired : lib.Zone → Bool
  pub find : lib.Zone → Found
  pub tcp : Bool
  pub write_error : Reply → Option Error
  pub next : Served

abbrev pub server_failed : Option Reply → Served
server_failed reply = record { code = rcode_server_failure; error = none; written = reply }

module _ (lib : ZoneLib) (q : Query lib) where
  wrote : Reply → Option Error → Served
  wrote m none = record { code = rcode_success; error = none; written = some m }
  wrote m (some _) = server_failed (some m)

  write_reply : Reply → Served
  write_reply m = wrote m (q.write_error m)

  reply : Bool → ℕ → Found → Reply
  reply authoritative rcode f = record {
    authoritative = authoritative;
    rcode = rcode;
    answer = f.answer;
    ns = f.ns;
    extra = f.extra;
    truncated_to = if q.tcp then none else some min_msg_size;
  }

  -- The switch on the result of the lookup.
  replied : Found → LookupResult → Served
  replied f success = write_reply (reply true rcode_success f)
  replied f no_data = write_reply (reply true rcode_success f)
  replied f name_error = write_reply (reply true rcode_name_error f)
  replied f delegation = write_reply (reply false rcode_success f)
  replied f server_failure = server_failed none

  unfoldable pub serve_zone : lib.Zone → Served
  unfolding replied write_reply wrote reply
  serve_zone z = if q.expired z then server_failed none else replied (q.find z) (q.find z).result

  served_by : Option lib.Zone → Served
  served_by none = server_failed none
  served_by (some z) = serve_zone z

  unfoldable pub serve_dns : Zones lib → Zones lib → Served
  unfolding served_by
  serve_dns first second =
      let zone = q.matches first.names in
      if text_eq zone [] then q.next else served_by (lookup zone second.table)

  replied-success :
      (f : Found) (res : LookupResult)
      → res ≡ success
      → q.write_error (reply true rcode_success f) ≡ none
      → (replied f res).written ≡ some (reply true rcode_success f)
  unfolding replied write_reply wrote
  replied-success f res h sends = rw (h, sends) refl

  -- A query for the name of a zone, in which its lookup succeeds, has the lookup's answer.
  pub serve_dns-success :
      (first second : Zones lib) (n : Text) (z : lib.Zone)
      → q.matches first.names ≡ n
      → text_eq n [] ≡ false
      → lookup n second.table ≡ some z
      → q.expired z ≡ false
      → (q.find z).result ≡ success
      → ((m : Reply) → q.write_error m ≡ none)
      → (m : Reply) × ((serve_dns first second).written ≡ some m) × (m.answer ≡ (q.find z).answer)
  unfolding serve_dns serve_zone
  serve_dns-success first second n z matched named there fresh successful sends = (
    reply true rcode_success (q.find z),
    rw (matched, named, there, fresh)
        (replied-success (q.find z) (q.find z).result successful (sends _)),
    unfold reply in refl,
  )

  -- Every reply that a zone is answered with stands for a lookup in a zone that has not expired
  -- and whose result is no server failure; the reply is authoritative unless the result is a
  -- delegation, says NXDOMAIN exactly for a name error, holds what the lookup found, and is cut to
  -- 512 bytes unless the query came over TCP.
  pub serve_zone-written :
      (z : lib.Zone) (m : Reply)
      → (serve_zone z).written ≡ some m
      → (q.expired z ≡ false)
        × ((q.find z).result ≢ server_failure)
        × ((m.authoritative ≡ false) ↔ ((q.find z).result ≡ delegation))
        × ((m.rcode ≡ rcode_name_error) ↔ ((q.find z).result ≡ name_error))
        × (m.answer ≡ (q.find z).answer)
        × (m.ns ≡ (q.find z).ns)
        × (m.extra ≡ (q.find z).extra)
        × (m.truncated_to ≡ (if q.tcp then none else some min_msg_size))
  unfolding serve_zone
  serve_zone-written z m h = ground arith

-- Matches documents that it returns one of the names, or "".
abbrev pub MatchesAName : {lib : ZoneLib} → Query lib → Type 0
MatchesAName q =
    (names : List Text) → (q.matches names ≡ []) ⊎ (is_listed (q.matches names) names ≡ true)

module _ (lib : ZoneLib) (q : Query lib) (law : MatchesAName q) where
  serve_dns-agree :
      (zs : Zones lib)
      → ((n : Text) → is_some (lookup n zs.table) ≡ is_listed n zs.names)
      → ((q.matches zs.names ≡ []) × (serve_dns lib q zs zs ≡ q.next))
        ⊎ ((z : lib.Zone) × (lookup (q.matches zs.names) zs.table ≡ some z)
            × (serve_dns lib q zs zs ≡ serve_zone lib q z))
  unfolding serve_dns
  serve_dns-agree zs agree = elim (Bool-cases (text_eq (q.matches zs.names) [])) [
    | inl unmatched ↦ inl ((text_eq_iff _ _).0 unmatched, rw unmatched)
    | inr matched ↦ elim (Option-cases (lookup (q.matches zs.names) zs.table)) [
      | inl missing ↦ absurd (
          ground
            (arith, law zs.names, agree (q.matches zs.names), text_eq_iff (q.matches zs.names) []))
      | inr (z, there) ↦ inr (z, there, rw (matched, there))
    ]
  ]

-- If both readings are of the zones of one `sync`, ServeDNS hands a query on to the next plugin,
-- for a name that matches no zone, or answers it from the zone of the name that it matches, which
-- is there.
pub serve_dns-synced :
    (deps : Deps) (lib : ZoneLib) (q : Query lib) (p : Provider lib)
    → MatchesAName q
    → let zs = (sync deps lib p).0.zones in
      ((q.matches zs.names ≡ []) × (serve_dns lib q zs zs ≡ q.next))
      ⊎ ((z : lib.Zone) × (lookup (q.matches zs.names) zs.table ≡ some z)
          × (serve_dns lib q zs zs ≡ serve_zone lib q z))
serve_dns-synced deps lib q p law =
    serve_dns-agree lib q law (sync deps lib p).0.zones (sync-NamesAgree deps lib p).0
