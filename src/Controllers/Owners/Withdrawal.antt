-- ===== src/Controllers/Owners/Withdrawal.antt =====
-- When the records of a Service or an Ingress are taken back.
use k8s_dns_manager.Prelude.{
  ◌≡◌, refl, ◌∙◌, ap, ◌⊎◌, true, false, none, some, List, [], ◌∷◌, Text, codes, Error, Result, ok,
  err, lookup, text_eq, text_eq_iff, text_eq_refl, Bool-cases, Option-cases, Result-cases, inl, inr,
}
use k8s_dns_manager.Deps.{Deps}
use k8s_dns_manager.Api.{DnsRecord}
use k8s_dns_manager.Controllers.{Key, done, Call, get, list, delete, update, create, World}
use k8s_dns_manager.Controllers.Children.{
  Ownership, children_of, child_records, ignore_not_found, diff_records,
}
use k8s_dns_manager.Controllers.Children.Writes.{
  made, Accepts, call_all-made, reconcile_child_records-made,
}
use k8s_dns_manager.Controllers.Owners.{
  Service, ignored_annotation, hostname_annotation, service_annotation, is_withdrawn, children,
  hostname_of, service_records, reconcile_service,
}

module _ (deps : Deps) (o : Ownership) (w : World) (fetch : List Call → Key → Result Service)
    (req : Key) where
  -- what is called before the records are written
  abbrev pub reads : Service → List Call
  reads svc = list svc.metadata.namespace ∷ list req.namespace ∷ get req ∷ []

  -- The API server returns the Service, and the lists of which `got` are the Service's records.
  pub record Reads (svc : Service) (got : List DnsRecord) : Type 0 where
    pub items : List DnsRecord
    pub others : List DnsRecord
    pub fetched : fetch [] req ≡ ok svc
    pub first : w.on_list (get req ∷ []) req.namespace ≡ ok others
    pub second : w.on_list (list req.namespace ∷ get req ∷ []) svc.metadata.namespace ≡ ok items
    pub owned : children_of o service_annotation svc.metadata items ≡ ok got

  children-read :
      (svc : Service) (got : List DnsRecord)
      → Reads svc got
      → children deps o w svc.metadata service_annotation req (get req ∷ []) ≡ (ok got, reads svc)
  unfolding children child_records
  children-read svc got r = rw (r.first, r.second, r.owned)

  -- The annotation that ignores the Service, another type, or no hostname with a registrable domain.
  pub data IsWithdrawn (svc : Service) : Type 0 where
    ignored :
        (v : Text) → lookup ignored_annotation svc.metadata.annotations ≡ some v → IsWithdrawn svc
    other_type : text_eq svc.service_type (codes "LoadBalancer") ≡ false → IsWithdrawn svc
    unnamed : lookup hostname_annotation svc.metadata.annotations ≡ none → IsWithdrawn svc
    empty_name : lookup hostname_annotation svc.metadata.annotations ≡ some [] → IsWithdrawn svc
    unregistrable :
        (host : Text) (e : Error)
        → lookup hostname_annotation svc.metadata.annotations ≡ some host
        → deps.domain host ≡ err e
        → IsWithdrawn svc

  pub record IsPublished (svc : Service) : Type 0 where
    pub kept : lookup ignored_annotation svc.metadata.annotations ≡ none
    pub balanced : text_eq svc.service_type (codes "LoadBalancer") ≡ true
    pub host : Text
    pub named : lookup hostname_annotation svc.metadata.annotations ≡ some host
    pub full : text_eq host [] ≡ false
    pub domain : Text
    pub registrable : deps.domain host ≡ ok domain

  abbrev Decides : Service → Type 0
  Decides svc =
      (IsWithdrawn svc × (is_withdrawn deps o svc ≡ true))
      ⊎ (IsPublished svc × (is_withdrawn deps o svc ≡ false))

  hostname-missing :
      (svc : Service)
      → lookup hostname_annotation svc.metadata.annotations ≡ none
      → hostname_of deps o svc ≡ []
  unfolding hostname_of
  hostname-missing svc e = rw (hostname_of, e) refl

  hostname-unregistrable :
      (svc : Service) (host : Text) (e : Error)
      → lookup hostname_annotation svc.metadata.annotations ≡ some host
      → deps.domain host ≡ err e
      → hostname_of deps o svc ≡ []
  unfolding hostname_of
  hostname-unregistrable svc host e named bad = rw (hostname_of, named, bad) refl

  hostname-found :
      (svc : Service) (host d : Text)
      → lookup hostname_annotation svc.metadata.annotations ≡ some host
      → deps.domain host ≡ ok d
      → hostname_of deps o svc ≡ host
  unfolding hostname_of
  hostname-found svc host d named found = rw (hostname_of, named, found) refl

  named_cases :
      (svc : Service)
      → lookup ignored_annotation svc.metadata.annotations ≡ none
      → text_eq svc.service_type (codes "LoadBalancer") ≡ true
      → Decides svc
  unfolding is_withdrawn
  named_cases svc kept balanced =
      elim (Option-cases (lookup hostname_annotation svc.metadata.annotations)) [
        | inl missing ↦
            inl
              (unnamed missing, rw (kept, balanced, hostname-missing svc missing) (text_eq_refl []))
        | inr (host, named) ↦ elim (Result-cases (deps.domain host)) [
          | inr (e, bad) ↦ inl (
            unregistrable host e named bad,
            rw (kept, balanced, hostname-unregistrable svc host e named bad) (text_eq_refl []),
          )
          | inl (d, found) ↦ elim (Bool-cases (text_eq host [])) [
            | inl empty ↦ inl (
              empty_name (named ∙ ap some ((text_eq_iff host []).0 empty)),
              rw (kept, balanced, hostname-found svc host d named found) empty,
            )
            | inr full ↦ inr (
              record {
                kept = kept;
                balanced = balanced;
                host = host;
                named = named;
                full = full;
                domain = d;
                registrable = found;
              },
              rw (kept, balanced, hostname-found svc host d named found) full,
            )
          ]
        ]
      ]

  withdrawn_cases : (svc : Service) → Decides svc
  unfolding is_withdrawn
  withdrawn_cases svc = elim (Option-cases (lookup ignored_annotation svc.metadata.annotations)) [
    | inr (v, there) ↦ inl (ignored v there, rw there refl)
    | inl kept ↦ elim (Bool-cases (text_eq svc.service_type (codes "LoadBalancer"))) [
      | inr other ↦ inl (other_type other, rw (kept, other) refl)
      | inl balanced ↦ named_cases svc kept balanced
    ]
  ]

  -- Where the API server is read without an error and no write fails, the reconciliation of a
  -- Service succeeds. If the Service has the annotation that ignores it, is no load balancer, or
  -- has no hostname annotation, an empty one, or one without a registrable domain, it deletes
  -- every record of the Service and makes no other write. Otherwise, with the records that the
  -- Service asks for, it makes the deletions, the creations and the updates of diffRecords, in
  -- this order, and no other write.
  pub reconcile_service-made :
      (svc : Service) (got want : List DnsRecord)
      → Reads svc got
      → Accepts w
      → service_records deps o svc (hostname_of deps o svc) ≡ ok want
      → (IsWithdrawn svc
          × (reconcile_service deps o w fetch req [] ≡ (done, made delete got (reads svc))))
        ⊎ (IsPublished svc
            × (reconcile_service deps o w fetch req [] ≡ (
              done,
              made update (diff_records got want).update (
                  made create
                    (diff_records got want).add
                    (made delete (diff_records got want).del (reads svc))),
            )))
  unfolding reconcile_service
  reconcile_service-made svc got want r a asked = elim (withdrawn_cases svc) [
    | inl (withdrawn, back) ↦ inl (
      withdrawn,
      rw
          (
            r.fetched,
            children-read svc got r,
            back,
            call_all-made w ignore_not_found delete got (reads svc) a.deletes,
          )
          refl,
    )
    | inr (published, kept) ↦ inr (
      published,
      rw (r.fetched, children-read svc got r, kept, asked)
          (reconcile_child_records-made w got want (reads svc) a),
    )
  ]
