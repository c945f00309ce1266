-- ===== src/Safety/Oom/Scan.antt =====
-- pkg/safety/oom_detector.go: the scan of a namespace. `hours` is `time.Duration.Hours`, and `now` is
-- `time.Now()`.
pub mod Priority
pub mod Complete
use intelligent_cluster_opti.Prelude.{
  String, Bool, true, false, not, ◌||◌, Option, none, some, List, [], ◌∷◌, map, if◌then◌else◌,
}
use intelligent_cluster_opti.Prelude.Int.{ℤ, pos, ◌+ℤ◌, ltb_ℤ, wrap64}
use intelligent_cluster_opti.Prelude.Float64.{Float64, ltb_float, of_ℕ}
use intelligent_cluster_opti.Prelude.Dict.{Dict, RangeOrder, lookup, insert}
use intelligent_cluster_opti.Api.{Instant, Duration, zero_time, sub_time}
use intelligent_cluster_opti.Safety.Oom.Check.{
  ContainerOomInfo, Pod, later, check_pod_for_oom, extract_workload_name_from_pod,
}
use intelligent_cluster_opti.Safety.Oom.History.{Histories, history_key, update_oom_history}

pub data OomPriority : Type 0 where
  no_priority low medium high critical : OomPriority

pub record OomCheckResult : Type 0 where
  pub has_oom_history : Bool
  pub workload_name : String
  pub namespace : String
  pub affected_containers : List ContainerOomInfo
  pub total_oom_count : ℤ  -- int
  pub last_oom_time : Instant
  pub priority : OomPriority
  pub recommended_action : String

unfoldable pub calculate_priority : (Duration → Float64) → Instant → OomCheckResult → OomPriority
calculate_priority hours now result =
    let hours_since_last_oom = hours (sub_time now result.last_oom_time) in
    let total_ooms = result.total_oom_count in
    if not result.has_oom_history
    then no_priority
    else if ltb_float hours_since_last_oom (of_ℕ 1) || ltb_ℤ (pos 20) total_ooms
    then critical
    else if ltb_float hours_since_last_oom (of_ℕ 24) || ltb_ℤ (pos 10) total_ooms
    then high
    else if ltb_float hours_since_last_oom (of_ℕ 168) || ltb_ℤ (pos 3) total_ooms
    then medium
    else low

unfoldable pub get_recommended_action : OomCheckResult → String
get_recommended_action result = elim result.priority [
  | critical ↦
      "URGENT: Immediate memory increase required. Container experiencing frequent OOM kills."
  | high ↦ "HIGH: Significant memory increase recommended. Recent OOM events detected."
  | medium ↦ "MEDIUM: Memory optimization recommended. Multiple OOM events in history."
  | low ↦ "LOW: Consider slight memory buffer increase. Past OOM event detected."
  | no_priority ↦ "No action required. No OOM history detected."
]

unfoldable pub priority_string : OomPriority → String
priority_string no_priority = "None"
priority_string low = "Low"
priority_string medium = "Medium"
priority_string high = "High"
priority_string critical = "Critical"

unfoldable pub count_loop : ℤ → List ContainerOomInfo → ℤ
count_loop total [] = total
count_loop total (c ∷ containers) = count_loop (wrap64 (total +ℤ c.oom_count)) containers

unfoldable pub count_ooms : List ContainerOomInfo → ℤ
unfolding count_loop
count_ooms containers = count_loop (pos 0) containers

unfoldable pub latest_loop : Instant → List ContainerOomInfo → Instant
latest_loop latest [] = latest
latest_loop latest (c ∷ containers) = latest_loop (later c.last_oom_time latest) containers

unfoldable pub get_latest_oom_time : List ContainerOomInfo → Instant
unfolding latest_loop
get_latest_oom_time containers = latest_loop zero_time containers

-- The higher of each.
abbrev merge_info : ContainerOomInfo → ContainerOomInfo → ContainerOomInfo
merge_info c ex = record ex {
  oom_count = if ltb_ℤ ex.oom_count c.oom_count then c.oom_count else ex.oom_count;
  last_oom_time = later c.last_oom_time ex.last_oom_time;
  restart_count =
      if ltb_ℤ ex.restart_count c.restart_count then c.restart_count else ex.restart_count;
  recommended_boost =
      if ltb_float ex.recommended_boost c.recommended_boost
      then c.recommended_boost
      else ex.recommended_boost;
}

unfoldable pub existing_loop : List ContainerOomInfo → Dict ContainerOomInfo → Dict ContainerOomInfo
existing_loop [] merged = merged
existing_loop (c ∷ cs) merged = existing_loop cs (insert c.container_name c merged)

unfoldable pub merge_loop : List ContainerOomInfo → Dict ContainerOomInfo → Dict ContainerOomInfo
merge_loop [] merged = merged
merge_loop (c ∷ cs) merged = merge_loop cs (
    insert c.container_name
      (elim (lookup c.container_name merged) [ none ↦ c | some ex ↦ merge_info c ex ]) merged)

module _ (order : RangeOrder) where
  open order use {visit}

  unfoldable pub merge_container_ooms :
      List ContainerOomInfo → List ContainerOomInfo → List ContainerOomInfo
  unfolding existing_loop merge_loop
  merge_container_ooms existing new =
      map (λ entry. entry.1) (visit (merge_loop new (existing_loop existing [])))

  -- The aggregate of a workload with the kills of one more pod.
  abbrev aggregate : OomCheckResult → List ContainerOomInfo → OomCheckResult
  aggregate existing containers = record existing {
    affected_containers = merge_container_ooms existing.affected_containers containers;
    total_oom_count = wrap64 (existing.total_oom_count +ℤ count_ooms containers);
    last_oom_time = later (get_latest_oom_time containers) existing.last_oom_time;
  }

  abbrev first_result : String → String → List ContainerOomInfo → OomCheckResult
  first_result namespace workload_name containers = record {
    has_oom_history = true;
    workload_name = workload_name;
    namespace = namespace;
    affected_containers = containers;
    total_oom_count = count_ooms containers;
    last_oom_time = get_latest_oom_time containers;
    priority = no_priority;
    recommended_action = "";
  }

  -- A pod with these kills: the aggregates and the history.
  abbrev pub kills_of :
      Instant
      → String
      → Pod
      → Dict OomCheckResult × Histories
      → List ContainerOomInfo
      → Dict OomCheckResult × Histories
  kills_of now namespace pod state [] = state
  kills_of now namespace pod (results, histories) (c ∷ cs) =
      let name = extract_workload_name_from_pod pod in
      let key = history_key namespace name in
      (
        insert key
            (elim (lookup key results) [
              | none ↦ first_result namespace name (c ∷ cs)
              | some existing ↦ aggregate existing (c ∷ cs)
            ])
            results,
        update_oom_history now namespace name "Deployment" (c ∷ cs) histories,
      )

  unfoldable pub check_pod :
      Instant → String → Pod → Dict OomCheckResult × Histories → Dict OomCheckResult × Histories
  unfolding check_pod_for_oom extract_workload_name_from_pod update_oom_history
  check_pod now namespace pod state = kills_of now namespace pod state (check_pod_for_oom pod)

  unfoldable pub pods_loop :
      Instant
      → String
      → List Pod
      → Dict OomCheckResult × Histories
      → Dict OomCheckResult × Histories
  unfolding check_pod
  pods_loop now namespace [] state = state
  pods_loop now namespace (pod ∷ pods) state =
      pods_loop now namespace pods (check_pod now namespace pod state)

  -- The end: the priority and the action.
  abbrev judge : (Duration → Float64) → Instant → OomCheckResult → OomCheckResult
  judge hours now result =
      let judged = record result { priority = calculate_priority hours now result } in
      record judged { recommended_action = get_recommended_action judged }

  -- `list_pods` is the answer of the cluster.
  unfoldable pub check_namespace_for_ooms :
      (Duration → Float64)
      → Instant
      → String
      → Option (List Pod)
      → Histories
      → Option (List OomCheckResult) × Histories
  unfolding pods_loop calculate_priority get_recommended_action
  check_namespace_for_ooms hours now namespace none histories = (none, histories)
  check_namespace_for_ooms hours now namespace (some pods) histories =
      let (results, histories') = pods_loop now namespace pods ([], histories) in
      (some (map (λ entry. judge hours now entry.1) (visit results)), histories')
