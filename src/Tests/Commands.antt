-- ===== src/Tests/Commands.antt =====
-- The kubectl plugin.
use k8s_dns_manager.Prelude.{
  ◌≡◌, refl, false, external, ◌>>=◌, All, Option, none, some, List, [], ◌∷◌, codes, Text, not_found,
  ok, err, map, text_eq,
}
use k8s_dns_manager.Deps.{Deps, Rr}
use k8s_dns_manager.Api.{DnsRecord}
use k8s_dns_manager.Record.{to_rr, api_version}
use k8s_dns_manager.Controllers.{World}
use k8s_dns_manager.Kubectl.{get_record, find_printed, activate, deactivate}
use k8s_dns_manager.Kubectl.Import.{
  DnsRecordList, dns_record_list_kind, Parsing, Shell, written, import_file, parsed,
  import_file-converted,
}
use k8s_dns_manager.Tests.Samples.{deps, a_rr, a_record, world}

abbrev ns : Text
ns = codes "default"

abbrev www : Text
www = codes "www"

www-activated : (activate deps world ns www []).0 ≡ none
unfolding activate get_record
www-activated = refl

www-deactivated : (deactivate deps world ns www []).0 ≡ none
unfolding deactivate get_record
www-deactivated = refl

-- Every name but that of an object is parsed as the record.
abbrev parsing : Deps
parsing = record deps { new_rr = λ t. ok (some a_rr) }

abbrev printed : DnsRecord
printed = record a_record { status = record a_record.status { printed = codes "www.example.org." } }

abbrev nameless : World
nameless = record world {
  on_get = λ log k. err (not_found (codes "gone"));
  on_list = λ log n. ok (a_record ∷ printed ∷ []);
}

abbrev line : Text
line = codes "www.example.org. A 1.2.3.4"

line-found : (get_record parsing nameless ns line []).0 ≡ ok printed
unfolding get_record find_printed text_eq
line-found = refl

abbrev zone_file : List (Option Rr)
zone_file = some a_rr ∷ none ∷ []

-- The parser stops at an error behind the record.
abbrev cut_off : Parsing
cut_off = record { next = zone_file; error = some (external (codes "dns: bad A A")) }

abbrev shell : Shell
shell = record {
  stat = λ f. ok false;
  open' = λ f. ok cut_off;
  marshal = λ l. ok l.kind;
  write = λ b. none;
}

import_file-converted_example :
    (l : DnsRecordList) × (import_file deps ns shell www
      ≡ (do b ← shell.marshal l; written deps ns shell b (shell.write b)))
    × (l.api_version ≡ api_version)
    × (l.kind ≡ dns_record_list_kind)
    × All (λ (r : DnsRecord). r.metadata.namespace ≡ ns) l.items
    × (map (to_rr deps) l.items ≡ map ok (parsed cut_off.next))
import_file-converted_example =
    import_file-converted deps ns shell www cut_off refl refl ((refl, refl), tt)
