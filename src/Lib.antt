-- ===== src/Lib.antt =====
-- A model of the DNS manager for Kubernetes: the DNSRecord resource with its webhook, the
-- controllers that look after it, the providers that carry it out, and the CoreDNS plugin that
-- serves it.
--
-- A DNSRecord is defaulted and validated by the webhook, written by a user or by the controllers of
-- Services and Ingresses, and reconciled by its own controller, which holds a finalizer, calls a
-- provider, and asks a DNS server whether the record is served. The CoreDNS plugin watches the
-- DNSRecords and builds zones of them.
--
-- Files and the code that they are about, by path from the repository's root:
--   Api             api/v1alpha1/dnsrecord_types.go: the resource; a pointer is an Option
--   Webhook         api/v1alpha1/dnsrecord_webhook.go: Default, and validate
--   Ptr             pkg/ptr/ptr.go
--   Record          pkg/record/record.go: FromRR, ToRR, Name
--   Errors          the texts of the program's errors
--   Controllers     the calls of a controller, and the world that answers them
--     Finalizers    controllers/dnsrecord_controller.go: hasFinalizer, removeFinalizer
--     Records       controllers/dnsrecord_controller.go: Reconcile, lookup
--     Locks         controllers/dnsrecord_controller.go: the table of mutexes of Reconcile
--     Server        what the API server stores of the writes
--     Children      controllers/child_records.go
--     Owners        controllers/service_controller.go and ingress_controller.go
--     Watches       controllers/service_controller.go: the filter of SetupWithManager
--   Libdns          pkg/provider/libdns/libdns.go: the provider over a libdns client
--     Rounds        the DNSRecord controller with that provider
--     Synced        pkg/provider/libdns/sync.go: the client under a lock
--   Coredns         pkg/coredns/k8s_dns
--     Sync          provider.go: sync
--     Informer      provider.go: the event handlers of Run, makeRecord
--     Serve         crds.go: ServeDNS
--     Setup         crds.go: setup
--     Interleaved   provider.go: the critical sections of the handlers, and the queries in between
--     System        the plugin beside the DNSRecords of a cluster
--       Delivery    with a queue of changes between the cluster and the plugin
--   Corefile        pkg/coredns/config/config.go, pkg/coredns/coredns.go: the configuration of CoreDNS
--     Server        pkg/coredns/coredns.go: Run
--   Registry        pkg/provider/provider.go; Vendors: the factories of pkg/provider/coredns and
--                   pkg/provider/libdns, which cmd/k8s-dns/providers.go imports
--   Addresses       pkg/ip/ip.go: private addresses
--   Recorder        pkg/recorder/recorder.go: what is handed to the recorder of Kubernetes
--   Kubectl         pkg/kubect-dns: get, activate, deactivate, list, create, import
--   Start           cmd/k8s-dns/main.go: the command, from its flags to the start of the manager
--   Deps            what the code uses of net, miekg/dns and publicsuffix, as a parameter
--   GoStrings       what the code uses of package strings and strconv
--   Prelude         shared names, lists, texts and results
--   Tests           the theorems at concrete inputs
--
-- A reconciliation is a function from the calls so far to its outcome and the calls after it, the
-- last call first. What is outside the program, the API server, the provider, the DNS server and a
-- libdns client, is a record of functions that may answer a call by all that was called before it.
-- Texts are lists of bytes. Integers are natural numbers, except for the lifetime of the DNS server's
-- cache, which may be negative; no operation of the modelled code adds to them but the product of a
-- TTL of 32 bits with a second in nanoseconds, which stays below 2^63.
-- The files, the zone parser, the YAML and the columns of tables of the kubectl plugin are parameters.
-- A map is an association list, and a loop over it takes its order, which the theorems leave open.
--
-- The loops are structural recursion. Only the printing of decimals has fuel: the number itself, plus
-- one, which exceeds its number of digits.
--
-- The workers of the DNSRecord controller and those that call a synchronised client are step
-- relations: a step is what a worker does under a lock, or the taking or the release of a lock. The
-- plugin beside the cluster is one, too, whose step is a change of a DNSRecord with the handler that
-- it calls. In Interleaved a step is one critical section of a handler, and a query reads the zones in
-- two states of a run, with any steps in between; in System/Delivery the informer has a queue of the
-- changes that it has not passed on yet. A mutex and the informer do what they document.
--
-- The runs of System and System/Delivery are those in which no two DNSRecords are converted to
-- records with one text, no change turns a DNSRecord that is converted into one that is not, or
-- back, and the informer passes each deletion on with the last object. The other events are in
-- Interleaved and System/Parted.
--
-- Not modelled: the difference of a nil and an empty slice or map, that Insert of a file.Zone puts the
-- name of the record of the table in lower case, logging, the wiring of managers
-- and informers, the vendors' clients, the reading of Corefiles by Caddy, the registration of the
-- kubectl plugin's commands, and the generated deep copies.
pub mod Prelude
pub mod GoStrings
pub mod Deps
pub mod Ptr
pub mod Api
pub mod Webhook
pub mod Record
pub mod Errors
pub mod Controllers
pub mod Libdns
pub mod Coredns
pub mod Registry
pub mod Recorder
pub mod Addresses
pub mod Corefile
pub mod Kubectl
pub mod Start
mod Tests
