-- ===== src/Controllers/Owners/Apart.antt =====
-- The names of the records that an Ingress asks for (recordName of controllers/child_records.go), for
-- hosts that stay apart in them.
use mathlib.Core.List.{append_cancel_left}
use k8s_dns_manager.Prelude.{
  ℕ, suc, ◌≡◌, refl, sym, ◌∙◌, ◌≢◌, ◌⊎◌, true, none, List, [], ◌∷◌, ◌++◌, Text, codes, ok, text_eq,
  All, All-map, All-append, All-append_last, arith, Bool-cases, inl, inr,
}
use k8s_dns_manager.GoStrings.{replace_byte, decimal}
use k8s_dns_manager.GoStrings.Laws.{decimal-IsDigit}
use k8s_dns_manager.Deps.{Deps}
use k8s_dns_manager.Api.{ObjectMeta, DnsRecord}
use k8s_dns_manager.Controllers.Children.{Ownership, find, record_name, diff_records}
use k8s_dns_manager.Controllers.Children.Differences.{
  HasUniqueNames, Matches, after, diff_records-Matches,
}
use k8s_dns_manager.Controllers.Owners.{
  Ingress, address_loop, addresses_of, host_loop, ingress_records, ingress_annotation, ttl_of,
}
use k8s_dns_manager.Controllers.Owners.Names.{
  KeepsRecord, find-of_other, named, cons_result-eq-ok, address_loop-HasUniqueNames,
}
use k8s_dns_manager.Controllers.Owners.Hosts.{host_records, append_result-eq-ok}

-- The part of a record's name that stands for the host.
abbrev pub dashed : Text → Text
dashed host = replace_byte (replace_byte host b'.' (codes "-")) b'*' (codes "wildcard")

-- The later host is empty, and has no record, or stands for another part of a name.
abbrev pub Differs : Text → Text → Type 0
Differs host later = (text_eq later [] ≡ true) ⊎ (dashed host ≢ dashed later)

-- No two of the hosts that are not empty stand for the same part of a name.
abbrev pub AreApart : List Text → Type 0
AreApart [] = Unit
AreApart (h ∷ hosts) = ((text_eq h [] ≡ true) ⊎ All (Differs h) hosts) × AreApart hosts

abbrev NoDash : Text → Type 0
NoDash = All λ c. c ≢ b'-'

-- What stands before the last dash.
before_dash : (s s' t t' : Text) → NoDash t → NoDash t' → s ++ b'-' ∷ t ≡ s' ++ b'-' ∷ t' → s ≡ s'
before_dash [] [] t t' h h' e = refl
before_dash [] (c ∷ s') t t' h h' e =
    let same : t ≡ s' ++ b'-' ∷ t' = ground (arith, e) in
    absurd ((All-append_last _ s' (b'-' ∷ t') (rw same at h)).0 refl)
before_dash (c ∷ s) [] t t' h h' e =
    let same : t' ≡ s ++ b'-' ∷ t = ground (arith, e) in
    absurd ((All-append_last _ s (b'-' ∷ t) (rw same at h')).0 refl)
before_dash (c ∷ s) (c' ∷ s') t t' h h' e =
    let rest : s ++ b'-' ∷ t ≡ s' ++ b'-' ∷ t' = ground (arith, e) in
    let first : c ≡ c' = ground (arith, e) in cc (first, before_dash s s' t t' h h' rest)

decimal-NoDash : (n : ℕ) → NoDash (decimal n)
decimal-NoDash n = All-map (decimal n) (λ c d e. omega (arith, d, e)) (decimal-IsDigit n)

record_name-dashed :
    (name typ host host' : Text) (i j : ℕ)
    → record_name name typ host i ≡ record_name name typ host' j
    → dashed host ≡ dashed host'
unfolding record_name
record_name-dashed name typ host host' i j e =
    before_dash (dashed host) (dashed host') (decimal i) (decimal j) (decimal-NoDash i)
      (decimal-NoDash j)
      (append_cancel_left (codes "-") _ _ (
        append_cancel_left typ _ _
          (append_cancel_left (codes "-") _ _ (append_cancel_left name _ _ e))))

find-append :
    (n : Text) (xs ys : List DnsRecord)
    → find n xs ≡ none
    → find n ys ≡ none
    → find n (xs ++ ys) ≡ none
unfolding find
find-append n [] ys h k = k
find-append n (x ∷ xs) ys h k = ground (arith, find-append n xs ys)

HasUniqueNames-append :
    (xs ys : List DnsRecord)
    → HasUniqueNames xs
    → HasUniqueNames ys
    → All (λ (r : DnsRecord). find r.metadata.name ys ≡ none) xs
    → HasUniqueNames (xs ++ ys)
HasUniqueNames-append [] ys h k a = k
HasUniqueNames-append (x ∷ xs) ys h k a =
    (find-append x.metadata.name xs ys h.0 a.0, HasUniqueNames-append xs ys h.1 k a.1)

module _ (deps : Deps) (o : Ownership) (kept : KeepsRecord o) (ing : Ingress) where
  abbrev owner : ObjectMeta
  owner = ing.metadata

  -- A name of a record for the host.
  abbrev IsFor : Text → Text → Type 0
  IsFor host n = (i : ℕ) × (n ≡ record_name owner.name (codes "ing") host i)

  loop-AreFor :
      (host : Text) (i : ℕ) (ips : List Text) (part : List DnsRecord)
      → address_loop deps o ingress_annotation (codes "ing") owner host (ttl_of owner) i ips
        ≡ ok part
      → All (λ (r : DnsRecord). IsFor host r.metadata.name) part
  unfolding address_loop
  loop-AreFor host i [] part e = let nil : part ≡ [] = ground arith in rw nil tt
  loop-AreFor host i (ip ∷ ips) part e =
      let (v, vs, here, rest, same) = cons_result-eq-ok _ _ part e in
      rw same (
        (
          i,
          kept.name owner _ v here
              ∙ named deps o kept ingress_annotation (codes "ing") owner host (ttl_of owner) i ip,
        ),
        loop-AreFor host (suc i) ips vs rest,
      )

  -- No record of later hosts has a name for the host.
  host_loop-others :
      (host n : Text) (hosts : List Text) (want : List DnsRecord)
      → IsFor host n
      → All (Differs host) hosts
      → host_loop deps o ing hosts ≡ ok want
      → All (λ (r : DnsRecord). n ≢ r.metadata.name) want
  unfolding host_loop
  host_loop-others host n [] want f apart e = let nil : want ≡ [] = ground arith in rw nil tt
  host_loop-others host n (h ∷ hosts) want (i, f) apart e = elim (Bool-cases (text_eq h [])) [
    | inl empty ↦ host_loop-others host n hosts want (i, f) apart.1 (rw empty at e)
    | inr full ↦
        let (xs, ys, first, rest, all) =
          append_result-eq-ok (host_records deps o ing h) (host_loop deps o ing hosts) want
            (rw full at e) in
        let differs : dashed host ≢ dashed h = elim apart.0 [
          | inl empty ↦ absurd (ground (arith, empty, full))
          | inr other ↦ other
        ] in
        rw all (
          All-append _ xs ys
            (All-map xs
              (λ r (j, g) q.
                differs (record_name-dashed owner.name (codes "ing") host h i j (sym f ∙ q ∙ g)))
              (loop-AreFor h 0 (addresses_of ing.addresses) xs first))
            (host_loop-others host n hosts ys (i, f) apart.1 rest))
  ]

  host_loop-HasUniqueNames :
      (hosts : List Text) (want : List DnsRecord)
      → AreApart hosts
      → host_loop deps o ing hosts ≡ ok want
      → HasUniqueNames want
  unfolding host_loop
  host_loop-HasUniqueNames [] want apart e = let nil : want ≡ [] = ground arith in rw nil tt
  host_loop-HasUniqueNames (h ∷ hosts) want apart e = elim (Bool-cases (text_eq h [])) [
    | inl empty ↦ host_loop-HasUniqueNames hosts want apart.1 (rw empty at e)
    | inr full ↦
        let (xs, ys, first, rest, all) =
          append_result-eq-ok (host_records deps o ing h) (host_loop deps o ing hosts) want
            (rw full at e) in
        let later : All (Differs h) hosts = elim apart.0 [
          | inl empty ↦ absurd (ground (arith, empty, full))
          | inr others ↦ others
        ] in
        rw all (
          HasUniqueNames-append xs ys
            (address_loop-HasUniqueNames deps o kept ingress_annotation (codes "ing") owner h
              (ttl_of owner) 0 (addresses_of ing.addresses) xs first)
            (host_loop-HasUniqueNames hosts ys apart.1 rest)
            (All-map xs
              (λ r f.
                find-of_other r.metadata.name ys
                  (host_loop-others h r.metadata.name hosts ys f later rest))
              (loop-AreFor h 0 (addresses_of ing.addresses) xs first)))
  ]

-- If SetControllerReference keeps what it documents, and no two hosts of an Ingress that are not
-- empty are the same up to dots, dashes and wildcards, the diff of the Ingress's children with the
-- records that it asks for leaves, for each name, a record exactly if one is asked for, and with
-- the specification, annotations and owners asked for.
pub ingress_diff-Matches :
    (deps : Deps) (o : Ownership) (ing : Ingress) (got want : List DnsRecord) (n : Text)
    → KeepsRecord o
    → AreApart ing.hosts
    → ingress_records deps o ing ≡ ok want
    → Matches (after (diff_records got want) got n) (find n want)
unfolding ingress_records
ingress_diff-Matches deps o ing got want n kept apart e =
    diff_records-Matches got want n
      (host_loop-HasUniqueNames deps o kept ing ing.hosts want apart e)
