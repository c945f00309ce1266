-- ===== src/Storage.antt =====
-- pkg/storage/memory.go and pkg/models/types.go: the history of metrics, by the name of the pod.
-- Each method holds the lock from its start to its end, so it is one step. `now` is `time.Now()`.
-- The counters count entries in memory, so they are plain numbers.
mod Invariant
mod Cleanup
mod Queries
mod Tests
use intelligent_cluster_opti.Prelude.{
  ℕ, suc, ◌+◌, String, Bool, true, false, not, ◌&&◌, Option, none, some, List, [], ◌∷◌, ◌++◌,
  if◌then◌else◌, str_eq, length, ltb,
}
use Prim.Native.String.{len, slice}
use intelligent_cluster_opti.Prelude.Int.{ℤ, pos, ◌+ℤ◌, ◌-ℤ◌, ltb_ℤ, wrap64}
use intelligent_cluster_opti.Prelude.Dict.{Dict, lookup, insert, entries}
use intelligent_cluster_opti.Api.{Instant, Duration}

pub record ContainerMetric : Type 0 where
  pub container_name : String
  pub usage_cpu : ℤ  -- int64, as all below
  pub usage_memory : ℤ
  pub request_cpu : ℤ
  pub request_memory : ℤ
  pub limit_cpu : ℤ
  pub limit_memory : ℤ

pub record PodMetric : Type 0 where
  pub pod_name : String
  pub namespace : String
  pub timestamp : Instant
  pub containers : List ContainerMetric

abbrev pub History : Type 0
History = Dict (List PodMetric)

unfoldable pub new_storage : History
new_storage = []

unfoldable pub add : PodMetric → History → History
add metric history =
    insert metric.pod_name (entries (lookup metric.pod_name history) ++ (metric ∷ [])) history

-- `time.Now().Add(-age)`
unfoldable pub cutoff : Instant → Duration → Instant
cutoff now age = now +ℤ wrap64 (pos 0 -ℤ age)

-- `metric.Timestamp.After(cutoffTime)`
abbrev pub is_after : Instant → PodMetric → Bool
is_after cutoff_time metric = ltb_ℤ cutoff_time metric.timestamp

-- The inner loop of `Cleanup`: the metrics that stay, and how many go.
pub valid_metrics : Instant → List PodMetric → List PodMetric × ℕ
valid_metrics cutoff_time [] = ([], 0)
valid_metrics cutoff_time (metric ∷ metrics) =
    let (valid, removed) = valid_metrics cutoff_time metrics in
    if is_after cutoff_time metric then (metric ∷ valid, removed) else (valid, suc removed)

-- Deletes the key of an empty list, and stores any other.
abbrev store_valid : String → List PodMetric → History → History
store_valid pod_name [] history = history
store_valid pod_name (m ∷ ms) history = (pod_name, m ∷ ms) ∷ history

pub cleanup_loop : Instant → History → History × ℕ
cleanup_loop cutoff_time [] = ([], 0)
cleanup_loop cutoff_time ((pod_name, metrics) ∷ history) =
    let (rest, count) = cleanup_loop cutoff_time history in
    let (valid, removed) = valid_metrics cutoff_time metrics in
    (store_valid pod_name valid rest, removed + count)

unfoldable pub cleanup : Instant → Duration → History → History × ℕ
cleanup now max_age history = cleanup_loop (cutoff now max_age) history

-- `activeSet[podName]`
pub is_active : List String → String → Bool
is_active [] pod_name = false
is_active (name ∷ names) pod_name = if str_eq name pod_name then true else is_active names pod_name

unfoldable pub sync_pods : List String → History → History × ℕ
sync_pods active [] = ([], 0)
sync_pods active ((pod_name, metrics) ∷ history) =
    let (rest, count) = sync_pods active history in
    if not (is_active active pod_name)
    then (rest, suc count)
    else ((pod_name, metrics) ∷ rest, count)

-- The metrics of one pod in a namespace that are newer than the cutoff.
pub matching : String → Instant → List PodMetric → List PodMetric
matching namespace cutoff_time [] = []
matching namespace cutoff_time (metric ∷ metrics) =
    let rest = matching namespace cutoff_time metrics in
    if str_eq metric.namespace namespace && is_after cutoff_time metric then metric ∷ rest else rest

unfoldable pub namespace_loop : String → Instant → History → List PodMetric
namespace_loop namespace cutoff_time [] = []
namespace_loop namespace cutoff_time ((pod_name, metrics) ∷ history) =
    matching namespace cutoff_time metrics ++ namespace_loop namespace cutoff_time history

unfoldable pub get_metrics_by_namespace : Instant → String → Duration → History → List PodMetric
get_metrics_by_namespace now namespace since history =
    namespace_loop namespace (cutoff now since) history

unfoldable pub get_metric_count : History → ℕ
get_metric_count [] = 0
get_metric_count ((pod_name, metrics) ∷ history) = length metrics + get_metric_count history

-- Byte lengths and byte slices, as in the language.
unfoldable pub has_prefix : String → String → Bool
has_prefix s prefix =
    if ltb (len s) (len prefix) then false else str_eq (slice s 0 (len prefix)) prefix

pub workload_loop : String → String → Instant → History → List PodMetric
workload_loop namespace workload_name cutoff_time [] = []
workload_loop namespace workload_name cutoff_time ((pod_name, metrics) ∷ history) =
    let rest = workload_loop namespace workload_name cutoff_time history in
    if not (has_prefix pod_name workload_name)
    then rest
    else matching namespace cutoff_time metrics ++ rest

unfoldable pub get_metrics_by_workload :
    Instant → String → String → Duration → History → List PodMetric
get_metrics_by_workload now namespace workload_name since history =
    workload_loop namespace workload_name (cutoff now since) history
