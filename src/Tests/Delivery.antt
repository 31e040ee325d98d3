-- ===== src/Tests/Delivery.antt =====
-- A DNSRecord that waits in the queue of the informer, and is then passed on and served.
use k8s_dns_manager.Prelude.{◌≡◌, refl, ◌⊎◌, ◌≤◌, [], ◌∷◌, insert}
use k8s_dns_manager.Coredns.Sync.{sync}
use k8s_dns_manager.Coredns.Informer.{put}
use k8s_dns_manager.Coredns.Interleaved.{Plugin, resting, syncing, added, started, synced}
use k8s_dns_manager.Coredns.System.Delivery.{
  Delayed, create, creates, changed, passed, finished, Work, Works, still, further, Steps, here,
  later, init,
}
use k8s_dns_manager.Coredns.System.Delivery.Delivered.{IsQuiet, IsMirrored}
use k8s_dns_manager.Coredns.System.Delivery.Drained.{left, drained-IsMirrored}
use k8s_dns_manager.Tests.Samples.{deps, a_rr, a_record}
use k8s_dns_manager.Tests.Plugin.{lib}
use k8s_dns_manager.Tests.Interleaving.{change-added}
use k8s_dns_manager.Tests.Cluster.{www, address, nothing-there, a_record-IsApart}

abbrev empty : Delayed lib
empty = init deps lib address

abbrev waiting : Delayed lib
waiting = record empty { cluster = insert www a_record []; queue = create www a_record ∷ [] }

abbrev inside : Plugin lib
inside = record {
  provider = put deps lib empty.plugin.provider a_rr;
  turn = syncing;
  events = added a_record ∷ [];
}

abbrev shown : Plugin lib
shown = record inside { provider = (sync deps lib inside.provider).0; turn = resting }

abbrev done : Delayed lib
done = record waiting { queue = []; plugin = shown }

waiting-Steps : Steps deps lib empty waiting
waiting-Steps =
    later here (changed (create www a_record) (creates www a_record nothing-there a_record-IsApart))

waiting-Works : Works deps lib waiting 2 done
waiting-Works =
    further
      (further still (
        passed (create www a_record) [] inside refl
          (started (added a_record) inside.provider refl (change-added empty.plugin.provider))
          refl))
      (finished shown (synced refl) refl)

drained-IsMirrored_example :
    (2 ≤ left deps lib address waiting)
    × (done.cluster ≡ waiting.cluster)
    × ((IsQuiet deps lib address done × IsMirrored deps lib address done)
        ⊎ ((u : Delayed lib) × Work deps lib done u))
drained-IsMirrored_example = drained-IsMirrored deps lib address waiting-Steps waiting-Works
