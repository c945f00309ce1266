-- ===== src/Storage/Cleanup.antt =====
-- What garbage collection takes away, and what it leaves.
use intelligent_cluster_opti.Prelude.{
  ◌+◌, String, ◌≡◌, refl, Option, none, some, List, [], ◌∷◌, arith, eq_iff, if◌then◌else◌, length,
  keep,
}
use intelligent_cluster_opti.Prelude.Dict.{lookup, entries, IsDistinct}
use intelligent_cluster_opti.Api.{Instant, Duration}
use intelligent_cluster_opti.Storage.{
  PodMetric, History, cutoff, is_after, valid_metrics, cleanup_loop, cleanup, is_active, sync_pods,
  get_metric_count,
}
use intelligent_cluster_opti.Storage.Invariant.{cleanup-absent, sync-absent}

valid-keep : (c : Instant) (ms : List PodMetric) → (valid_metrics c ms).0 ≡ keep (is_after c) ms
unfolding valid_metrics
valid-keep c [] = refl
valid-keep c (m ∷ ms) = ground (arith, valid-keep c ms)

valid-count :
    (c : Instant) (ms : List PodMetric)
    → length (valid_metrics c ms).0 + (valid_metrics c ms).1 ≡ length ms
unfolding valid_metrics
valid-count c [] = refl
valid-count c (m ∷ ms) = ground (arith, valid-count c ms)

cleanup-count :
    (c : Instant) (history : History)
    → get_metric_count (cleanup_loop c history).0 + (cleanup_loop c history).1
      ≡ get_metric_count history
unfolding cleanup_loop get_metric_count
cleanup-count c [] = refl
cleanup-count c ((j, ms) ∷ history) = ground (arith, valid-count c ms, cleanup-count c history)

-- A slice as the map stores it: no key for an empty one.
abbrev pub stored : List PodMetric → Option (List PodMetric)
stored [] = none
stored (m ∷ ms) = some (m ∷ ms)

lookup-cleanup :
    (c : Instant) (k : String) (history : History)
    → IsDistinct history
    → lookup k (cleanup_loop c history).0 ≡ stored (keep (is_after c) (entries (lookup k history)))
unfolding lookup cleanup_loop
lookup-cleanup c k [] d = refl
lookup-cleanup c k ((j, ms) ∷ history) d = ground (
  arith,
  eq_iff j k,
  valid-keep c ms,
  cleanup-absent c j history d.0,
  lookup-cleanup c k history d.1,
)

-- With no key twice: after `Cleanup` a pod has exactly its metrics that are newer than the cutoff, in
-- order, and no key if there is none; and the count that is returned is by how much the total falls.
pub cleanup_lem :
    (now : Instant) (max_age : Duration) (history : History)
    → IsDistinct history
    → let (after, removed) = cleanup now max_age history in
      ((k : String)
        → lookup k after
          ≡ stored (keep (is_after (cutoff now max_age)) (entries (lookup k history))))
      × (get_metric_count after + removed ≡ get_metric_count history)
unfolding cleanup
cleanup_lem now max_age history d = (
  λ k. lookup-cleanup (cutoff now max_age) k history d,
  cleanup-count (cutoff now max_age) history,
)

-- The count that `SyncPods` returns is of pods, and a pod that is not active has no metrics afterwards.
lookup-sync :
    (active : List String) (k : String) (history : History)
    → IsDistinct history
    → lookup k (sync_pods active history).0
      ≡ (if is_active active k then lookup k history else none)
unfolding lookup sync_pods
lookup-sync active k [] d = ground arith
lookup-sync active k ((j, ms) ∷ history) d =
    ground (arith, eq_iff j k, sync-absent active j history d.0, lookup-sync active k history d.1)

sync-count :
    (active : List String) (history : History)
    → length (sync_pods active history).0 + (sync_pods active history).1 ≡ length history
unfolding sync_pods
sync-count active [] = refl
sync-count active ((j, ms) ∷ history) = ground (arith, sync-count active history)

-- With no key twice: after `SyncPods` an active pod has the metrics that it had and any other pod has
-- none, and the count that is returned is by how much the number of pods falls.
pub sync_pods_lem :
    (active : List String) (history : History)
    → IsDistinct history
    → let (after, removed) = sync_pods active history in
      ((k : String) → lookup k after ≡ (if is_active active k then lookup k history else none))
      × (length after + removed ≡ length history)
sync_pods_lem active history d = (λ k. lookup-sync active k history d, sync-count active history)
