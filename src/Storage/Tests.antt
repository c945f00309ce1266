-- ===== src/Storage/Tests.antt =====
-- The theorems of the storage at a history of two pods.
use intelligent_cluster_opti.Prelude.{String, ◌≡◌, refl, [], ◌∷◌, ◌+◌, keep}
use intelligent_cluster_opti.Prelude.Int.{pos}
use intelligent_cluster_opti.Prelude.Dict.{lookup, entries, IsDistinct}
use intelligent_cluster_opti.Api.{Instant}
use intelligent_cluster_opti.Storage.{
  PodMetric, History, cutoff, is_after, get_metric_count, cleanup,
}
use intelligent_cluster_opti.Storage.Cleanup.{stored, cleanup_lem}

abbrev metric_at : String → Instant → PodMetric
metric_at pod_name time = record {
  pod_name = pod_name;
  namespace = "default";
  timestamp = time;
  containers = [];
}

abbrev two_pods : History
two_pods =
    ("web-1", metric_at "web-1" (pos 100) ∷ metric_at "web-1" (pos 900) ∷ [])
    ∷ ("db-1", metric_at "db-1" (pos 200) ∷ [])
    ∷ []

two_pods-IsDistinct : IsDistinct two_pods
unfolding lookup
two_pods-IsDistinct = (refl, (refl, tt))

cleanup_lem_example :
    let (after, removed) = cleanup (pos 1000) (pos 500) two_pods in
    ((k : String)
      → lookup k after
        ≡ stored (keep (is_after (cutoff (pos 1000) (pos 500))) (entries (lookup k two_pods))))
    × (get_metric_count after + removed ≡ 3)
unfolding get_metric_count
cleanup_lem_example = cleanup_lem (pos 1000) (pos 500) two_pods two_pods-IsDistinct
