-- ===== src/Record/RoundTrip.antt =====
-- FromRR, ToRR and Name of pkg/record/record.go agree with one another.
use k8s_dns_manager.Prelude.{◌≡◌, ◌≢◌, Option, some, [], Text, ok, text_eq_iff, arith}
use k8s_dns_manager.Deps.{Deps, Rr, Header, Rdata, type_a, type_txt, type_srv, type_mx, type_cname}
use k8s_dns_manager.Api.{ARecord, CnameRecord, TxtRecord, SrvRecord, MxRecord, DnsRecord}
use k8s_dns_manager.Record.{
  from_rr, to_rr_a, to_rr_txt, to_rr_srv, to_rr_mx, to_rr_cname, to_rr_raw, to_rr_switch, to_rr,
  name_switch, raw_name, name,
}

module _ (deps : Deps) where
  -- What a resource record must meet for its DNSRecord to say all of it: the type of the header is
  -- that of the data, an address has the form that ParseIP returns, a required target is there, and
  -- a record of no type of its own is one that the parser reads back from its text.
  abbrev pub IsFaithful : Rr → Header → Rdata → Type 0
  IsFaithful r h (Rdata.a ip) = (h.rrtype ≡ type_a) × (deps.parse_ip (deps.ip_string ip) ≡ some ip)
  IsFaithful r h (Rdata.cname target) = (h.rrtype ≡ type_cname) × (target ≢ [])
  IsFaithful r h (Rdata.srv _ _ _ target) = (h.rrtype ≡ type_srv) × (target ≢ [])
  IsFaithful r h (Rdata.txt targets) = (h.rrtype ≡ type_txt) × (targets ≢ [])
  IsFaithful r h (Rdata.mx _ _) = h.rrtype ≡ type_mx
  IsFaithful r h _ = (deps.rr_string r ≢ []) × (deps.new_rr (deps.rr_string r) ≡ ok (some r))

  to_rr_raw_of_printed :
      (r : Rr)
      → (deps.rr_string r ≢ []) × (deps.new_rr (deps.rr_string r) ≡ ok (some r))
      → to_rr_raw deps (deps.rr_string r) ≡ ok r
  unfolding to_rr_raw
  to_rr_raw_of_printed r h = ground (arith, text_eq_iff (deps.rr_string r) [])

  faithful_lem :
      (h : Header) (d : Rdata)
      → IsFaithful (record { header = h; rdata = d }) h d
      → to_rr deps (from_rr deps (record { header = h; rdata = d }))
        ≡ ok (record { header = h; rdata = d })
  unfolding to_rr from_rr
  faithful_lem h (Rdata.a ip) f = unfold to_rr_a in ground arith
  faithful_lem h (Rdata.cname target) f =
      unfold to_rr_cname in ground (arith, text_eq_iff target [])
  faithful_lem h (Rdata.srv p w q target) f =
      unfold to_rr_srv in ground (arith, text_eq_iff target [])
  faithful_lem h (Rdata.txt targets) f = unfold to_rr_txt in ground arith
  faithful_lem h (Rdata.mx p target) f = unfold to_rr_mx in ground arith
  faithful_lem h d f = to_rr_raw_of_printed (record { header = h; rdata = d }) f

  -- ToRR returns a resource record unchanged from the DNSRecord that FromRR makes of it, if the
  -- type of its header is that of its data, an address is the one that ParseIP reads from its
  -- text, the target of a CNAME or SRV record and the texts of a TXT record are there, and a
  -- record of another type is read back by NewRR from its text.
  pub to_rr-from_rr : (r : Rr) → IsFaithful r r.header r.rdata → to_rr deps (from_rr deps r) ≡ ok r
  to_rr-from_rr r f = faithful_lem r.header r.rdata f

  name_switch_lem :
      (a : Option ARecord) (t : Option TxtRecord) (s : Option SrvRecord) (m : Option MxRecord)
      (c : Option CnameRecord) (raw : Text) (rr : Rr)
      → to_rr_switch deps a t s m c raw ≡ ok rr
      → name_switch deps a t s m c raw ≡ some rr.header.name
  unfolding to_rr_switch name_switch raw_name to_rr_a to_rr_txt to_rr_srv to_rr_mx to_rr_cname
      to_rr_raw
  name_switch_lem a t s m c raw rr h = ground arith

  -- Where ToRR converts a DNSRecord, Name does not panic and returns the owner name of the
  -- converted record.
  pub name-to_rr :
      (r : DnsRecord) (rr : Rr) → to_rr deps r ≡ ok rr → name deps r ≡ some rr.header.name
  unfolding to_rr name
  name-to_rr r rr h =
      name_switch_lem r.spec.a r.spec.txt r.spec.srv r.spec.mx r.spec.cname r.spec.raw rr h
