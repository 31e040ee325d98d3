-- ===== src/Tests/Children.antt =====
-- The records that a resource owns.
use k8s_dns_manager.Prelude.{
  ◌≡◌, refl, Option, none, some, List, [], ◌∷◌, codes, text_eq, Error, external,
}
use k8s_dns_manager.Api.{DnsRecord}
use k8s_dns_manager.Controllers.{World}
use k8s_dns_manager.Controllers.Children.{
  find, diff_records, all_deleted, all_added, all_updated, call_all, reconcile_child_records,
}
use k8s_dns_manager.Controllers.Children.Differences.{
  HasUniqueNames, Matches, after, diff_records-Matches,
}
use k8s_dns_manager.Controllers.Children.Quiet.{diff_records-nothing}
use k8s_dns_manager.Tests.Samples.{a_record, two_kinds, world}

-- A record of another name.
abbrev other : DnsRecord
other = record a_record { metadata = record a_record.metadata { name = codes "mail" } }

-- `www` is to change and `mail` to appear.
abbrev got : List DnsRecord
got = a_record ∷ []

abbrev want : List DnsRecord
want = two_kinds ∷ other ∷ []

want-HasUniqueNames : HasUniqueNames want
unfolding find text_eq
want-HasUniqueNames = (refl, (refl, tt))

diff_records-Matches_example :
    Matches (after (diff_records got want) got (codes "www")) (find (codes "www") want)
diff_records-Matches_example = diff_records-Matches got want (codes "www") want-HasUniqueNames

abbrev down : Error
down = external (codes "down")

abbrev failing : World
failing = record world { on_write = λ log c. some down }

reconcile_child_records-down : (reconcile_child_records failing [] got []).0.error ≡ some down
unfolding reconcile_child_records call_all diff_records all_deleted all_added all_updated find
reconcile_child_records-down = refl

option-Matches : (o : Option DnsRecord) → Matches o o
option-Matches none = tt
option-Matches (some v) = record { spec = refl; annotations = refl; owners = refl }

diff_records-nothing_example : diff_records want want ≡ record { add = []; update = []; del = [] }
diff_records-nothing_example =
    diff_records-nothing want want want-HasUniqueNames (λ n. option-Matches (find n want))
