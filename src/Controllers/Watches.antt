-- ===== src/Controllers/Watches.antt =====
-- The events that the Service controller lets through (SetupWithManager of
-- controllers/service_controller.go). Its filter is given every event of the controller, also those
-- of the DNSRecords that it owns.
use mathlib.Core.List.{Memᴰ}
use mathlib.Core.List.Memᴰ
use k8s_dns_manager.Prelude.{
  ◌≡◌, refl, ap, ◌⊎◌, inl, inr, Bool, true, false, ◌&&◌, none, some, List, [], ◌∷◌, ◌++◌, Text, All,
  All-append, if◌then◌else◌, text_eq_refl, is_some, text_eq, text_eq_iff, lookup, arith, Bool-cases,
  Option-cases,
}
use k8s_dns_manager.Deps.{Deps}
use k8s_dns_manager.Api.{DnsRecord}
use k8s_dns_manager.Controllers.Children.{Ownership}
use k8s_dns_manager.Controllers.Owners.{
  Service, hostname_annotation, load_balancer, hostname_of, is_withdrawn,
}

-- client.Object, as the filter tells them apart.
pub data Object : Type 0 where
  nil : Object
  service : Service → Object
  child : DnsRecord → Object

pub data Event : Type 0 where
  created deleted generic : Object → Event
  updated : Object → Object → Event

-- `filter` on a Service
unfoldable pub filter : Service → Bool
filter svc =
    text_eq svc.service_type load_balancer
    && is_some (lookup hostname_annotation svc.metadata.annotations)

unfoldable pub filter_object : Object → Bool
filter_object nil = false
filter_object (service svc) = filter svc
filter_object (child _) = false

-- predicate.Funcs
unfoldable pub passes : Event → Bool
unfolding filter_object
passes (created o) = filter_object o
passes (deleted o) = filter_object o
passes (generic o) = filter_object o
passes (updated old new) = if filter_object old then true else filter_object new

-- The versions of a Service that an event is about.
abbrev pub versions : Object → List Service
versions (service svc) = svc ∷ []
versions _ = []

abbrev pub services : Event → List Service
services (created o) = versions o
services (deleted o) = versions o
services (generic o) = versions o
services (updated old new) = versions old ++ versions new

module _ (deps : Deps) (o : Ownership) where
  abbrev IsWithdrawn : Service → Type 0
  IsWithdrawn svc = is_withdrawn deps o svc ≡ true

  -- A version among them is a load balancer with a hostname annotation.
  pub record IsWatched (vs : List Service) : Type 0 where
    pub version : Service
    pub among : Memᴰ version vs
    pub balancer : version.service_type ≡ load_balancer
    pub hostname : Text
    pub annotated : lookup hostname_annotation version.metadata.annotations ≡ some hostname

  hostname_of-missing :
      (svc : Service)
      → lookup hostname_annotation svc.metadata.annotations ≡ none
      → hostname_of deps o svc ≡ []
  unfolding hostname_of
  hostname_of-missing svc missing = rw (hostname_of, missing) refl

  nameless-IsWithdrawn : (svc : Service) → hostname_of deps o svc ≡ [] → IsWithdrawn svc
  unfolding is_withdrawn
  nameless-IsWithdrawn svc h = ground (arith, ap (λ n. text_eq n []) h, text_eq_refl [])

  filter_cases :
      (svc : Service)
      → ((filter svc ≡ true) × IsWatched (svc ∷ [])) ⊎ ((filter svc ≡ false) × IsWithdrawn svc)
  unfolding filter is_withdrawn
  filter_cases svc = elim (Bool-cases (text_eq svc.service_type load_balancer)) [
    | inr other ↦ inr (rw other refl, ground (arith, other))
    | inl balancer ↦ elim (Option-cases (lookup hostname_annotation svc.metadata.annotations)) [
      | inl missing ↦
          inr (
            rw (balancer, missing) refl,
            nameless-IsWithdrawn svc (hostname_of-missing svc missing),
          )
      | inr (host, there) ↦ inl (
        rw (balancer, there) refl,
        record {
          version = svc;
          among = Memᴰ.head refl;
          balancer = (text_eq_iff _ _).0 balancer;
          hostname = host;
          annotated = there;
        },
      )
    ]
  ]

  abbrev pub IsPassed : Bool → List Service → Type 0
  IsPassed b vs = ((b ≡ true) × IsWatched vs) ⊎ ((b ≡ false) × All IsWithdrawn vs)

  object_cases : (x : Object) → IsPassed (filter_object x) (versions x)
  unfolding filter_object
  object_cases nil = inr (refl, tt)
  object_cases (child r) = inr (refl, tt)
  object_cases (service svc) = elim (filter_cases svc) [
    | inl (h, w) ↦ inl (h, w)
    | inr (h, w) ↦ inr (h, (w, tt))
  ]

  among_first : (vs ws : List Service) → IsWatched vs → IsWatched (vs ++ ws)
  among_first vs ws w = record {
    version = w.version;
    among = Memᴰ.append_left ws w.among;
    balancer = w.balancer;
    hostname = w.hostname;
    annotated = w.annotated;
  }

  among_last : (vs ws : List Service) → IsWatched ws → IsWatched (vs ++ ws)
  among_last vs ws w = record {
    version = w.version;
    among = Memᴰ.append_right vs w.among;
    balancer = w.balancer;
    hostname = w.hostname;
    annotated = w.annotated;
  }

  -- An event that the filter lets through is of a Service, with a version that is a load balancer
  -- with a hostname annotation, so that no event of a DNSRecord passes; of an event that it keeps
  -- back, every version of a Service is one whose records are withdrawn.
  pub passes_lem : (e : Event) → IsPassed (passes e) (services e)
  unfolding passes
  passes_lem (created x) = object_cases x
  passes_lem (deleted x) = object_cases x
  passes_lem (generic x) = object_cases x
  passes_lem (updated old new) = elim (object_cases old) [
    | inl (h, w) ↦ inl (rw h refl, among_first (versions old) (versions new) w)
    | inr (h, w) ↦ elim (object_cases new) [
      | inl (k, v) ↦ inl (rw (h, k) refl, among_last (versions old) (versions new) v)
      | inr (k, v) ↦ inr (rw (h, k) refl, All-append IsWithdrawn (versions old) (versions new) w v)
    ]
  ]
