-- ===== src/Coredns/System/Loopback.antt =====
-- The controller of a DNSRecord whose verification server is the plugin itself, as cmd/k8s-dns/main.go
-- sets it when the DNS server runs in the process: the query of `lookup`
-- (controllers/dnsrecord_controller.go) is answered by ServeDNS (pkg/coredns/k8s_dns/crds.go).
use k8s_dns_manager.Prelude.{
  ◌≡◌, ◌∙◌, ap, true, false, Option, none, some, List, [], ◌∷◌, Text, codes, any, Error, Result, ok,
  err, text_eq, lookup,
}
use k8s_dns_manager.Deps.{Deps, Ip, Rr}
use k8s_dns_manager.Api.{DnsRecordSpec, DnsRecord}
use k8s_dns_manager.Ptr.{to_bool_d}
use k8s_dns_manager.Webhook.Default.{default_spec}
use k8s_dns_manager.Record.{to_rr}
use k8s_dns_manager.Controllers.{Key, Message, Call, get, provide, exchange, event, World}
use k8s_dns_manager.Controllers.Records.{question}
use k8s_dns_manager.Controllers.Server.{Server, Accepting}
use k8s_dns_manager.Controllers.Records.Convergence.{
  Setting, with_spec, IsLive, IsSettled, calls, round, to_rr-of_spec,
}
use k8s_dns_manager.Controllers.Records.Rounds.{three_rounds-IsSettled}
use k8s_dns_manager.Coredns.{ZoneLib}
use k8s_dns_manager.Coredns.Informer.{is_active}
use k8s_dns_manager.Coredns.Serve.{Query, Reply, success, serve_dns, serve_dns-success}
use k8s_dns_manager.Coredns.Sync.{in_zone, place}
use k8s_dns_manager.Coredns.Sync.Held.{Holding, IsPlain, IsHeld}
use k8s_dns_manager.Coredns.System.{System, Reach}
use k8s_dns_manager.Coredns.System.Served.{Reach-IsHeld}

-- What the DNS server makes of a query and its client reads: the plugin's request, the state of the
-- plugin and the cluster at a call of the controller, and the message that a reply becomes.
pub record Resolver (lib : ZoneLib) : Type 0 where
  pub query : Query lib
  pub at : List Call → System lib
  pub message : Reply → Message

-- The client's answer: without a reply it runs out of time.
abbrev pub received : {lib : ZoneLib} → Resolver lib → Option Reply → Result Message
received r none = err (Error.external (codes "i/o timeout"))
received r (some m) = ok (r.message m)

-- A specification that the webhook has defaulted, that is active and is converted to `rr`, and the
-- plugin behind the controller's client.
pub record Loopback (lib : ZoneLib) (hold : Holding lib) : Type 1 where
  pub deps : Deps
  pub world : World
  pub server : Server
  pub req : Key
  pub spec : DnsRecordSpec
  pub rr : Rr
  pub zone_name : Text
  pub address : Option Ip
  pub resolver : Resolver lib
  pub defaulted : default_spec deps spec ≡ spec
  pub wanted : to_bool_d spec.active true ≡ true
  pub converts : to_rr deps (with_spec spec) ≡ ok rr
  pub placed : place deps lib rr ≡ in_zone zone_name
  pub plain : IsPlain deps lib hold rr
  pub reached : (log : List Call) → Reach deps lib address (resolver.at log)
  pub there :
      (log : List Call)
      → (k : Text) × (o : DnsRecord) × (lookup k (resolver.at log).cluster ≡ some o)
        × (o.spec ≡ spec)
  pub accepts : Accepting world
  pub resolves :
      (log : List Call)
      → let zs = (resolver.at log).plugin.zones in
        world.on_exchange log (codes "udp") (question deps world rr)
        ≡ received resolver (serve_dns lib resolver.query zs zs).written
  pub named : text_eq zone_name [] ≡ false
  pub matched :
      (log : List Call) → resolver.query.matches (resolver.at log).plugin.zones.names ≡ zone_name
  pub fresh : (z : lib.Zone) → resolver.query.expired z ≡ false
  pub finds :
      (z : lib.Zone)
      → hold.holds z rr
      → ((resolver.query.find z).result ≡ success)
        × (any (λ v. deps.is_duplicate v rr) (resolver.query.find z).answer ≡ true)
  pub sends : (m : Reply) → resolver.query.write_error m ≡ none
  pub message_answer : (m : Reply) → (resolver.message m).answer ≡ m.answer
  pub fits : (m : Reply) → (resolver.message m).truncated ≡ false

module _ (lib : ZoneLib) (hold : Holding lib) (l : Loopback lib hold) where
  open l use {deps, world as w, server, req, spec, rr, resolver as r}

  same_active : (o : DnsRecord) → o.spec ≡ spec → is_active deps o ≡ true
  unfolding is_active
  same_active o e = ap (λ (x : DnsRecordSpec). to_bool_d x.active true) e ∙ l.wanted

  -- The plugin's zone holds the record at every call of the controller.
  rr-IsHeld : (log : List Call) → IsHeld deps lib hold (r.at log).plugin.zones.table l.zone_name rr
  rr-IsHeld log =
      let (k, o, there, same) = l.there log in
      Reach-IsHeld deps lib hold (l.reached log) k l.zone_name o rr there
        (to_rr-of_spec deps o (with_spec spec) same ∙ l.converts) (same_active o same) l.placed
        l.plain

  -- The reply to the query of `lookup`.
  record IsAnswer (log : List Call) : Type 0 where
    reply' : Reply
    written :
        let zs = (r.at log).plugin.zones in (serve_dns lib r.query zs zs).written ≡ some reply'
    duplicate : any (λ v. deps.is_duplicate v rr) reply'.answer ≡ true

  lookup-IsAnswer : (log : List Call) → IsAnswer log
  lookup-IsAnswer log =
      let zs = (r.at log).plugin.zones in
      let (z, there, holds) = rr-IsHeld log in
      let (successful, duplicate) = l.finds z holds in
      let (m, written, same) =
        serve_dns-success lib r.query zs zs l.zone_name z (l.matched log) l.named there (l.fresh z)
          successful l.sends in
      record { reply' = m; written = written; duplicate = rw same duplicate }

  setting_of : Setting
  setting_of = record {
    deps = deps;
    world = w;
    server = server;
    req = req;
    spec = spec;
    rr = rr;
    answer = λ log. r.message (lookup-IsAnswer log).reply';
    defaulted = l.defaulted;
    wanted = l.wanted;
    converts = l.converts;
    answers = λ log. l.resolves log ∙ ap (received r) (lookup-IsAnswer log).written;
    accepts = l.accepts;
    whole = λ log. l.fits (lookup-IsAnswer log).reply';
    found =
        λ log. rw (l.message_answer (lookup-IsAnswer log).reply') (lookup-IsAnswer log).duplicate;
  }

  -- With the CoreDNS provider and the plugin as the verification server, three reconciliations
  -- settle a live and active DNSRecord that the webhook has defaulted, and the fourth writes
  -- nothing, if no write fails, if at each query the plugin and the cluster are in a state of a
  -- run in which no two DNSRecords are converted to records with one text, no change turns a
  -- DNSRecord that is converted into one that is not, or back, and each deletion is passed on with
  -- the last object, if the cluster has a DNSRecord of this specification, the query's name
  -- matches the zone of the record's registrable domain, the record is no SOA or NS record and is
  -- taken by every zone, a zone's lookup finds what the zone holds, and the reply is sent and fits
  -- into one message.
  pub loopback-IsSettled :
      (s : DnsRecord)
      → IsLive spec s
      → let next : DnsRecord → DnsRecord = round deps w server req in
        let t = next (next (next s)) in
        IsSettled deps rr t
        × (calls deps w req t
            ≡ event (codes "Success") (codes "record active")
              ∷ exchange (codes "udp") (question deps w rr)
              ∷ provide t
              ∷ get req
              ∷ [])
  unfolding setting_of
  loopback-IsSettled s live = three_rounds-IsSettled setting_of s live
