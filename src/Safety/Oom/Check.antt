-- ===== src/Safety/Oom/Check.antt =====
-- pkg/safety/oom_detector.go: the kills that the status of a pod shows.
use intelligent_cluster_opti.Prelude.{
  String, Option, none, some, List, [], ◌∷◌, if◌then◌else◌, str_eq,
}
use intelligent_cluster_opti.Prelude.Int.{ℤ, pos, ltb_ℤ, leb_ℤ}
use intelligent_cluster_opti.Prelude.Float64.{Float64, of_ℕ, constant}
use intelligent_cluster_opti.Api.{Instant, zero_time}
use intelligent_cluster_opti.Safety.Oom.Names.{OwnerReference, owners_loop}

-- Of the Kubernetes API, what the detector reads.
pub record Terminated : Type 0 where
  pub reason : String
  pub finished_at : Instant

pub record ContainerStatus : Type 0 where
  pub name : String
  pub restart_count : ℤ  -- int32
  pub last_terminated : Option Terminated
  pub terminated : Option Terminated

pub record ContainerSpec : Type 0 where
  pub name : String
  pub memory_limit : Option ℤ  -- int64

pub record Pod : Type 0 where
  pub name : String
  pub owner_references : List OwnerReference
  pub containers : List ContainerSpec
  pub container_statuses : List ContainerStatus

-- `last_memory_usage` is never set.
pub record ContainerOomInfo : Type 0 where
  pub container_name : String
  pub oom_count : ℤ  -- int
  pub last_oom_time : Instant
  pub last_memory_limit : ℤ  -- int64
  pub restart_count : ℤ  -- int32
  pub recommended_boost : Float64

unfoldable pub calculate_memory_boost : ℤ → Float64
calculate_memory_boost restart_count =
    if leb_ℤ (pos 10) restart_count
    then of_ℕ 2
    else if leb_ℤ (pos 5) restart_count
    then constant 175 100
    else if leb_ℤ (pos 3) restart_count
    then constant 15 10
    else if leb_ℤ (pos 1) restart_count
    then constant 13 10
    else constant 12 10

-- Terminated for want of memory: when.
abbrev killed_at : Option Terminated → Option Instant
killed_at none = none
killed_at (some t) = if str_eq t.reason "OOMKilled" then some t.finished_at else none

-- The later of two instants.
abbrev pub later : Instant → Instant → Instant
later t u = if ltb_ℤ u t then t else u

-- When the container was last killed, of the last and the current state.
unfoldable pub last_kill : ContainerStatus → Option Instant
last_kill status = elim (killed_at status.terminated) [
  | none ↦ killed_at status.last_terminated
  | some t ↦ elim (killed_at status.last_terminated) [
    | none ↦ some (later t zero_time)
    | some u ↦ some (later t u)
  ]
]

-- The limit of the first container of the name.
pub limit_loop : String → List ContainerSpec → ℤ
limit_loop name [] = pos 0
limit_loop name (container ∷ containers) =
    let rest = limit_loop name containers in
    if str_eq container.name name
    then elim container.memory_limit [ none ↦ pos 0 | some limit ↦ limit ]
    else rest

abbrev pub info_of : ContainerStatus → Pod → Instant → ContainerOomInfo
info_of status pod last_oom_time = record {
  container_name = status.name;
  oom_count = status.restart_count;
  last_oom_time = last_oom_time;
  last_memory_limit = limit_loop status.name pod.containers;
  restart_count = status.restart_count;
  recommended_boost = calculate_memory_boost status.restart_count;
}

unfoldable pub check_container_for_oom : ContainerStatus → Pod → Option ContainerOomInfo
unfolding last_kill limit_loop calculate_memory_boost
check_container_for_oom status pod = elim (last_kill status) [
  | none ↦ none
  | some last_oom_time ↦ some (info_of status pod last_oom_time)
]

abbrev pub append_some : {A : Type 0} → Option A → List A → List A
append_some none xs = xs
append_some (some x) xs = x ∷ xs

unfoldable pub statuses_loop : List ContainerStatus → Pod → List ContainerOomInfo
unfolding check_container_for_oom
statuses_loop [] pod = []
statuses_loop (status ∷ statuses) pod =
    append_some (check_container_for_oom status pod) (statuses_loop statuses pod)

unfoldable pub check_pod_for_oom : Pod → List ContainerOomInfo
unfolding statuses_loop
check_pod_for_oom pod = statuses_loop pod.container_statuses pod

unfoldable pub extract_workload_name_from_pod : Pod → String
unfolding owners_loop
extract_workload_name_from_pod pod = owners_loop pod.name pod.owner_references
