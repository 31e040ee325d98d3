-- ===== src/Kubectl/Root.antt =====
-- What pkg/kubect-dns/root.go does before a command, and the whole command create
-- (pkg/kubect-dns/new.go). The configuration that the flags lead to, the YAML of a DNSRecord and the
-- standard output are parameters.
use k8s_dns_manager.Prelude.{
  ◌≡◌, refl, Bool, Option, none, some, Text, Error, Result, ok, err, ◌>>=◌,
}
use k8s_dns_manager.Deps.{Deps, Rr}
use k8s_dns_manager.Api.{DnsRecord}
use k8s_dns_manager.Record.{to_rr}
use k8s_dns_manager.Record.RoundTrip.{IsFaithful}
use k8s_dns_manager.Kubectl.Listing.{namespace_of, create_record, create_record-read}

-- What Namespace returns, of which the program takes the text alone, and the errors of
-- ToRESTConfig and of the construction of the client.
pub record Flags : Type 0 where
  pub namespace : Text × Bool × Option Error
  pub rest_config : Option Error
  pub client : Option Error

-- yaml.Marshal, and the error of the write to the standard output.
pub record Output : Type 0 where
  pub marshal : DnsRecord → Result Text
  pub write : Text → Option Error

unfoldable pub checked : Option Error → Text → Result Text
checked (some e) v = err e
checked none v = ok v

-- The namespace that the command is given, or the error that keeps it from running.
unfoldable pub pre_run : Flags → Result Text
unfolding checked
pre_run f = do ns ← checked f.rest_config (namespace_of f.namespace.0); checked f.client ns

-- What runs behind `pre_run` is only asked for at the namespace of the flags.
pre_run-same :
    (f : Flags) (g h : Text → Result Text)
    → g (namespace_of f.namespace.0) ≡ h (namespace_of f.namespace.0)
    → (do ns ← pre_run f; g ns) ≡ (do ns ← pre_run f; h ns)
unfolding pre_run checked
pre_run-same f g h e = same f.rest_config f.client
  where
    same :
        (a b : Option Error)
        → (do ns ← (do ns ← checked a (namespace_of f.namespace.0); checked b ns); g ns)
          ≡ (do ns ← (do ns ← checked a (namespace_of f.namespace.0); checked b ns); h ns)
    same none none = e
    same none (some _) = refl
    same (some _) b = refl

module _ (deps : Deps) (f : Flags) (out : Output) where
  unfoldable pub printed : Text → Text → Result Text
  unfolding checked
  printed ns text = do r ← create_record deps ns text; b ← out.marshal r; checked (out.write b) b

  -- The command with what runs before it: what is written, or its error.
  unfoldable pub create : Text → Result Text
  unfolding pre_run printed
  create text = do ns ← pre_run f; printed ns text

  -- If the text parses as a resource record that FromRR loses nothing of, create ends in the error
  -- of the configuration, of the client, of the YAML or of the write, or writes the YAML of a
  -- DNSRecord that ToRR converts back to the resource record, in the namespace of the flags.
  pub create-converted :
      (text : Text) (rr : Rr)
      → deps.new_rr text ≡ ok (some rr)
      → IsFaithful deps rr rr.header rr.rdata
      → (r : DnsRecord) × (create text
          ≡ (do ns ← pre_run f; b ← out.marshal r; checked (out.write b) b))
        × (r.metadata.namespace ≡ namespace_of f.namespace.0)
        × (to_rr deps r ≡ ok rr)
  unfolding create printed
  create-converted text rr parsed faithful =
      let (r, made, there, converts) =
        create_record-read deps (namespace_of f.namespace.0) text rr parsed faithful in
      (r, pre_run-same f _ _ (rw made refl), there, converts)
