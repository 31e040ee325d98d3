-- ===== src/Coredns/System/Refines.antt =====
-- The table of the plugin and the active DNSRecords of the cluster.
use k8s_dns_manager.Prelude.{
  ◌≡◌, refl, sym, ap, subst, fun_ext, Option, none, some, Text, ok, text_eq_refl, if◌then◌else◌,
  arith, Bool-cases, inl, inr, Result-cases, lookup, lookup-insert, lookup-delete, delete,
}
use k8s_dns_manager.Deps.{Deps, Ip, Rr}
use k8s_dns_manager.Api.{DnsRecord}
use k8s_dns_manager.Record.{to_rr}
use k8s_dns_manager.Coredns.{ZoneLib, Provider, new_provider}
use k8s_dns_manager.Coredns.Sync.{sync}
use k8s_dns_manager.Coredns.Informer.{
  is_active, make_record, handle_add, handle_update, handle_delete,
}
use k8s_dns_manager.Coredns.System.{
  System, IsApart, Step, created, changed, removed, created_broken, changed_broken, Reach, start,
  later, init,
}
use k8s_dns_manager.Coredns.System.Broken.{
  some-IsBroken, handle_add-broken, handle_delete-broken, handle_update-broken,
}
use k8s_dns_manager.Coredns.System.Contents.{
  with_key, Mirrors, without-Mirrors, with-Mirrors, broken-Mirrors,
}

module _ (deps : Deps) (lib : ZoneLib) where
  abbrev pub IsMirror : System lib → Type 0
  IsMirror s = Mirrors deps (λ k. lookup k s.cluster) (λ t. lookup t s.plugin.records)

  subst-Mirrors :
      {o o' : Text → Option DnsRecord} {t t' : Text → Option Rr}
      → ((k : Text) → o k ≡ o' k)
      → ((k : Text) → t k ≡ t' k)
      → Mirrors deps o t
      → Mirrors deps o' t'
  subst-Mirrors {o' = o'} {t = t} p q m =
      subst (λ u. Mirrors deps o' u) (fun_ext q) (subst (λ v. Mirrors deps v t) (fun_ext p) m)

  -- the tables of the handlers, as functions
  abbrev table_of : Provider lib → Text → Option Rr
  table_of p t = lookup t p.records

  pub lookup-handle_add :
      (p : Provider lib) (o : DnsRecord) (rr : Rr) (t : Text)
      → to_rr deps o ≡ ok rr
      → (if is_active deps o
            then with_key (table_of p) (deps.rr_string rr) (some rr)
            else table_of p)
          t
        ≡ lookup t (handle_add deps lib p (some o)).records
  unfolding handle_add make_record sync
  lookup-handle_add p o rr t c = rw c (elim (Bool-cases (is_active deps o)) [
    | inl on ↦ rw on (sym (lookup-insert (deps.rr_string rr) t rr p.records))
    | inr off ↦ rw off refl
  ])

  pub lookup-handle_delete :
      (p : Provider lib) (o : DnsRecord) (rr : Rr) (t : Text)
      → to_rr deps o ≡ ok rr
      → with_key (table_of p) (deps.rr_string rr) none t
        ≡ lookup t (handle_delete deps lib p (some o)).records
  unfolding handle_delete make_record sync
  lookup-handle_delete p o rr t c = rw c (sym (lookup-delete (deps.rr_string rr) t p.records))

  lookup-handle_update :
      (p : Provider lib) (old new : DnsRecord) (was rr : Rr) (t : Text)
      → to_rr deps old ≡ ok was
      → to_rr deps new ≡ ok rr
      → (if is_active deps new
            then with_key
                (with_key (table_of p) (deps.rr_string was) none)
                (deps.rr_string rr)
                (some rr)
            else with_key (table_of p) (deps.rr_string was) none)
          t
        ≡ lookup t (handle_update deps lib p (some old) (some new)).records
  unfolding handle_update make_record sync
  lookup-handle_update p old new was rr t c d =
      rw (c, d)
        (elim (Bool-cases (is_active deps new)) [
          | inl on ↦ rw on (
              ground (
                arith,
                lookup-insert (deps.rr_string rr) t rr (delete (deps.rr_string was) p.records),
                lookup-delete (deps.rr_string was) t p.records,
              ))
          | inr off ↦ rw off (sym (lookup-delete (deps.rr_string was) t p.records))
        ])

  without-some :
      (objects : Text → Option DnsRecord) (k j : Text) (b : DnsRecord)
      → with_key objects k none j ≡ some b
      → objects j ≡ some b
  without-some objects k j b e = ground arith

  -- A record that is apart from all objects is apart from all but one.
  abbrev apart_without :
      (objects : Text → Option DnsRecord) (k : Text) (o : DnsRecord)
      → IsApart deps objects k o
      → IsApart deps (with_key objects k none) k o
  apart_without objects k o a = record {
    rr = a.rr;
    converted = a.converted;
    apart = λ j b x e c s. a.apart j b x (without-some objects k j b e) c s;
  }

  Step-IsMirror : {s t : System lib} → Step deps lib s t → IsMirror s → IsMirror t
  Step-IsMirror {s} (created k o absent a) m =
      subst-Mirrors (λ j. sym (lookup-insert k j o s.cluster))
        (λ t. lookup-handle_add s.plugin o a.rr t a.converted)
        (with-Mirrors deps _ _ m k o a absent)
  Step-IsMirror {s} (changed k old new was there c a) m =
      subst-Mirrors (λ j. ground (arith, lookup-insert k j new s.cluster))
        (λ t. lookup-handle_update s.plugin old new was a.rr t c a.converted)
        (with-Mirrors deps _ _ (without-Mirrors deps _ _ m k old was there c) k new
          (apart_without _ k new a) (rw (text_eq_refl k) refl))
  Step-IsMirror {s} (removed k old there) m = elim (Result-cases (to_rr deps old)) [
    | inl (rr, c) ↦
        subst-Mirrors (λ j. sym (lookup-delete k j s.cluster))
          (λ t. lookup-handle_delete s.plugin old rr t c)
          (without-Mirrors deps _ _ m k old rr there c)
    | inr (e, c) ↦
        subst-Mirrors (λ j. sym (lookup-delete k j s.cluster))
          (λ t.
            ap (λ (p : Provider lib). lookup t p.records)
              (handle_delete-broken deps lib s.plugin old e c))
          (broken-Mirrors deps _ _ m k none (some-IsBroken deps old e c there) (λ b x h. cc))
  ]
  Step-IsMirror {s} (created_broken k o e absent c) m =
      subst-Mirrors (λ j. sym (lookup-insert k j o s.cluster))
        (λ t.
          ap (λ (p : Provider lib). lookup t p.records) (handle_add-broken deps lib s.plugin o e c))
        (broken-Mirrors deps _ _ m k (some o) (λ b x h. cc) (some-IsBroken deps o e c refl))
  Step-IsMirror {s} (changed_broken k old new e e' there c d) m =
      subst-Mirrors (λ j. sym (lookup-insert k j new s.cluster))
        (λ t.
          ap (λ (p : Provider lib). lookup t p.records)
            (handle_update-broken deps lib s.plugin old new e c))
        (broken-Mirrors deps _ _ m k (some new) (some-IsBroken deps old e c there)
          (some-IsBroken deps new e' d refl))

  init-IsMirror : (address : Option Ip) → IsMirror (init deps lib address)
  unfolding new_provider lookup
  init-IsMirror address = record {
    sound = λ t rr e. cc;
    complete = λ k o rr e c a. cc;
    distinct = λ j k a b x y e f c d s. cc;
  }

  -- In every state of a run in which no two DNSRecords are converted to records with one text, no
  -- change turns a DNSRecord that is converted into one that is not, or back, and each deletion is
  -- passed on with the last object, the table of the plugin holds exactly the records of the
  -- active DNSRecords of the cluster that are converted, each under its text.
  pub Reach-IsMirror :
      {address : Option Ip} {s : System lib} → Reach deps lib address s → IsMirror s
  Reach-IsMirror {address = address} start = init-IsMirror address
  Reach-IsMirror (later r st) = Step-IsMirror st (Reach-IsMirror r)
