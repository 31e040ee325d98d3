-- ===== src/Tests/Providers.antt =====
-- The libdns provider, and the registry.
use k8s_dns_manager.Prelude.{
  ◌≡◌, refl, ◌⊎◌, true, none, [], ◌∷◌, codes, ok, All, text_eq, insert, delete, lookup,
}
use k8s_dns_manager.GoStrings.{has_suffix, join, to_lower, contains}
use k8s_dns_manager.Record.{to_rr, to_rr_a}
use k8s_dns_manager.Libdns.{Client}
use k8s_dns_manager.Libdns.Provider.{Prov, reconcile, find_id, find_same, is_unwanted, is_fatal}
use k8s_dns_manager.Libdns.Provider.Ownership.{IsOwn, reconcile-IsOwn}
use k8s_dns_manager.Registry.{Env, register, new}
use k8s_dns_manager.Registry.Vendors.{Vendors, synced, require, providers}
use k8s_dns_manager.Tests.Samples.{deps, a_record}

-- An empty zone, and a client that gives its first record the id 1.
abbrev client : Client
client = record {
  on_get = λ log zone. ([], none);
  on_append = λ log zone r. ok (record r { id = codes "1" } ∷ []);
  on_delete = λ log zone r. none;
}

abbrev prov : Prov
prov = record { name = codes "test"; client = client; absolute_name = λ name zone. name }

reconcile-a_record : (reconcile deps prov a_record).0.ok ≡ true
unfolding reconcile to_rr to_rr_a is_unwanted is_fatal find_id find_same has_suffix join to_lower
    contains text_eq
reconcile-a_record = refl

reconcile-IsOwn_example :
    All (IsOwn deps prov a_record) (reconcile deps prov a_record).1
    × (((reconcile deps prov a_record).1 ≡ [])
        ⊎ ((a_record.status.provider ≡ []) ⊎ (a_record.status.provider ≡ prov.name)))
reconcile-IsOwn_example = reconcile-IsOwn deps prov a_record

abbrev pub vendors : Vendors
vendors = record {
  cloudflare = λ token. client;
  hetzner = λ token. client;
  ovh = λ endpoint key secret consumer. client;
  scaleway = λ key organization. client;
}

-- Every variable is set.
abbrev pub env : Env
env name = codes "x"

new-hetzner : new (providers vendors) env (codes "hetzner") ≡ ok (synced (codes "hetzner") client)
unfolding new providers register insert delete lookup require text_eq
new-hetzner = refl
