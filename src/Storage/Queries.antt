-- ===== src/Storage/Queries.antt =====
-- What the readers of the history see.
use Prim.Native.String.{len}
use text.Mathlib.TextBridge.{IsPrefix}
use text.Mathlib.TextEquality.{starts_with_iff}
use text.Mathlib.TextPositions.{len-append}
use intelligent_cluster_opti.Prelude.{
  ℕ, ◌+◌, ◌≤◌, ◌<◌, String, ◌≡◌, refl, ap, ◌↔◌, ◌&&◌, Bool, true, false, List, [], ◌∷◌, ◌++◌, arith,
  str_eq, eq_iff, if◌then◌else◌, length, length-append, ltb,
}
use intelligent_cluster_opti.Prelude.Int.{pos, ◌≤ℤ◌, ◌+ℤ◌, ◌-ℤ◌, wrap64, -ℤ_parts}
use intelligent_cluster_opti.Prelude.Dict.{lookup, insert, entries}
use intelligent_cluster_opti.Api.{Instant, Duration}
use intelligent_cluster_opti.Storage.{
  PodMetric, History, add, cutoff, is_after, valid_metrics, cleanup_loop, cleanup, matching,
  namespace_loop, workload_loop, has_prefix, get_metrics_by_namespace, get_metrics_by_workload,
}

module _ (ns : String) (c1 c2 : Instant) (h : c1 ≤ℤ c2) where
  matching-valid :
      (ms : List PodMetric) → matching ns c2 (valid_metrics c1 ms).0 ≡ matching ns c2 ms
  unfolding matching valid_metrics
  matching-valid [] = refl
  matching-valid (m ∷ ms) = ground (arith, matching-valid ms)

  namespace-cleanup :
      (history : History)
      → namespace_loop ns c2 (cleanup_loop c1 history).0 ≡ namespace_loop ns c2 history
  unfolding namespace_loop cleanup_loop matching
  namespace-cleanup [] = refl
  namespace-cleanup ((j, ms) ∷ history) =
      ground (arith, matching-valid ms, namespace-cleanup history)

  workload-cleanup :
      (w : String) (history : History)
      → workload_loop ns w c2 (cleanup_loop c1 history).0 ≡ workload_loop ns w c2 history
  unfolding workload_loop cleanup_loop matching
  workload-cleanup w [] = refl
  workload-cleanup w ((j, ms) ∷ history) =
      ground (arith, matching-valid ms, workload-cleanup w history)

-- `Add(-age)` in range.
cutoff_exact :
    (now : Instant) (age : ℕ) → age < 9223372036854775808 → cutoff now (pos age) ≡ now -ℤ pos age
unfolding cutoff wrap64 ◌-ℤ◌ ◌+ℤ◌
cutoff_exact now age h = ground arith

cutoff-le :
    (before now : Instant) (since max_age : ℕ)
    → before ≤ℤ now
    → since ≤ max_age
    → max_age < 9223372036854775808
    → cutoff before (pos max_age) ≤ℤ cutoff now (pos since)
cutoff-le before now since max_age earlier shorter h =
    rw (cutoff_exact before max_age h, cutoff_exact now since (omega arith))
      (omega (arith, -ℤ_parts before (pos max_age), -ℤ_parts now (pos since)))

-- A collection of metrics older than `max_age` that ran before or at the time of a query is not seen by
-- it, if the query looks back no further than `max_age`: it returns the same metrics, in the same order.
pub query-cleanup :
    (before now : Instant) (since max_age : ℕ) (namespace workload_name : String)
    (history : History)
    → before ≤ℤ now
    → since ≤ max_age
    → max_age < 9223372036854775808
    → let after = (cleanup before (pos max_age) history).0 in
      (get_metrics_by_namespace now namespace (pos since) after
        ≡ get_metrics_by_namespace now namespace (pos since) history)
      × (get_metrics_by_workload now namespace workload_name (pos since) after
          ≡ get_metrics_by_workload now namespace workload_name (pos since) history)
unfolding get_metrics_by_namespace get_metrics_by_workload cleanup
query-cleanup before now since max_age namespace workload_name history earlier shorter h =
    let le = cutoff-le before now since max_age earlier shorter h in
    (
      namespace-cleanup namespace _ _ le history,
      workload-cleanup namespace _ _ le workload_name history,
    )

-- Does the query return the metric?
abbrev pub is_wanted : Instant → String → String → Duration → PodMetric → Bool
is_wanted now namespace workload_name since metric =
    has_prefix metric.pod_name workload_name
    && (str_eq metric.namespace namespace && is_after (cutoff now since) metric)

module _ (ns w : String) (c : Instant) where
  matching-snoc :
      (ms : List PodMetric) (m : PodMetric)
      → length (matching ns c (ms ++ (m ∷ [])))
        ≡ length (matching ns c ms) + (if str_eq m.namespace ns && is_after c m then 1 else 0)
  unfolding matching
  matching-snoc [] m = ground arith
  matching-snoc (n ∷ ms) m = ground (arith, matching-snoc ms m)

  workload-add :
      (m : PodMetric) (history : History)
      → length (
          workload_loop ns w c
            (insert m.pod_name (entries (lookup m.pod_name history) ++ (m ∷ [])) history))
        ≡ length (workload_loop ns w c history)
          + (if has_prefix m.pod_name w && (str_eq m.namespace ns && is_after c m) then 1 else 0)
  unfolding workload_loop lookup insert matching
  workload-add m [] = ground arith
  workload-add m ((j, ms) ∷ history) = ground (
    arith,
    eq_iff j m.pod_name,
    matching-snoc ms m,
    length-append (matching ns c (ms ++ (m ∷ []))) (workload_loop ns w c history),
    length-append (matching ns c ms) (workload_loop ns w c history),
    length-append (matching ns c ms) (
        workload_loop ns w c
          (insert m.pod_name (entries (lookup m.pod_name history) ++ (m ∷ [])) history)),
    workload-add m history,
  )

-- A query of a workload returns one metric more once a metric is added that it wants, which is one of
-- its namespace, newer than its cutoff, and of a pod whose name starts with the workload's; and as
-- many as before once any other is added.
pub get_metrics_by_workload-add :
    (now : Instant) (namespace workload_name : String) (since : Duration) (metric : PodMetric)
    (history : History)
    → length (get_metrics_by_workload now namespace workload_name since (add metric history))
      ≡ length (get_metrics_by_workload now namespace workload_name since history)
        + (if is_wanted now namespace workload_name since metric then 1 else 0)
unfolding get_metrics_by_workload add
get_metrics_by_workload-add now namespace workload_name since metric history =
    workload-add namespace workload_name (cutoff now since) metric history

-- `hasPrefix` is true exactly of a text that begins with the other.
pub has_prefix_iff : (s prefix : String) → (has_prefix s prefix ≡ true) ↔ IsPrefix prefix s
unfolding has_prefix
has_prefix_iff s prefix = (
  λ h. (starts_with_iff s prefix).0 (ground arith),
  λ (rest, e).
      let longer : ltb (len s) (len prefix) ≡ false =
        ground (arith, ap len e, len-append prefix rest) in
      rw longer ((starts_with_iff s prefix).1 (rest, e)),
)
