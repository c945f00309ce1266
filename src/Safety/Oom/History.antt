-- ===== src/Safety/Oom/History.antt =====
-- pkg/safety/oom_detector.go: the history of kills. Each method holds the lock from its start to its end,
-- so it is one step. `now` is `time.Now()`.
pub mod Invariant
pub mod Clear
use Prim.Native.String.{◌++◌ as str_append}
use intelligent_cluster_opti.Prelude.{
  ℕ, suc, String, Option, none, some, List, [], ◌∷◌, map, if◌then◌else◌,
}
use intelligent_cluster_opti.Prelude.Int.{ℤ, pos, ◌+ℤ◌, ◌-ℤ◌, ltb_ℤ, wrap64}
use intelligent_cluster_opti.Prelude.Float64.{Float64, of_ℕ}
use intelligent_cluster_opti.Prelude.Dict.{Dict, RangeOrder, lookup, insert}
use intelligent_cluster_opti.Api.{Instant, Duration, zero_time}
use intelligent_cluster_opti.Safety.Oom.Check.{ContainerOomInfo, later}

pub record OomHistory : Type 0 where
  pub namespace : String
  pub workload_name : String
  pub workload_kind : String
  pub container_ooms : Dict ContainerOomInfo
  pub total_ooms : ℤ  -- int
  pub last_oom_time : Instant
  pub first_oom_time : Instant

-- The detector, by namespace and name of the workload.
abbrev pub Histories : Type 0
Histories = Dict OomHistory

unfoldable pub new_oom_detector : Histories
new_oom_detector = []

abbrev pub history_key : String → String → String
history_key namespace workload_name = str_append (str_append namespace "/") workload_name

-- An existing record with what a check says now.
abbrev pub refresh : ContainerOomInfo → ContainerOomInfo → ContainerOomInfo
refresh c existing = record existing {
  oom_count = if ltb_ℤ existing.oom_count c.oom_count then c.oom_count else existing.oom_count;
  last_oom_time = later c.last_oom_time existing.last_oom_time;
  restart_count = c.restart_count;
  recommended_boost = c.recommended_boost;
}

abbrev pub record_container : ContainerOomInfo → OomHistory → OomHistory
record_container c history = record history {
  container_ooms =
      insert c.container_name
        (elim (lookup c.container_name history.container_ooms) [
          | none ↦ c
          | some existing ↦ refresh c existing
        ])
        history.container_ooms;
  total_ooms = wrap64 (history.total_ooms +ℤ c.oom_count);
  last_oom_time = later c.last_oom_time history.last_oom_time;
}

unfoldable pub record_loop : List ContainerOomInfo → OomHistory → OomHistory
record_loop [] history = history
record_loop (c ∷ containers) history = record_loop containers (record_container c history)

abbrev pub new_history : Instant → String → String → String → OomHistory
new_history now namespace workload_name workload_kind = record {
  namespace = namespace;
  workload_name = workload_name;
  workload_kind = workload_kind;
  container_ooms = [];
  total_ooms = pos 0;
  last_oom_time = zero_time;
  first_oom_time = now;
}

unfoldable pub update_oom_history :
    Instant → String → String → String → List ContainerOomInfo → Histories → Histories
unfolding record_loop
update_oom_history now namespace workload_name workload_kind containers histories =
    let key = history_key namespace workload_name in
    insert key
      (record_loop containers (elim (lookup key histories) [
        | none ↦ new_history now namespace workload_name workload_kind
        | some history ↦ history
      ]))
      histories

unfoldable pub get_oom_history : String → String → Histories → Option OomHistory
get_oom_history namespace workload_name histories =
    lookup (history_key namespace workload_name) histories

unfoldable pub get_memory_boost_factor : String → String → String → Histories → Float64
get_memory_boost_factor namespace workload_name container_name histories =
    elim (lookup (history_key namespace workload_name) histories) [
      | none ↦ of_ℕ 1
      | some history ↦ elim (lookup container_name history.container_ooms) [
        | none ↦ of_ℕ 1
        | some info ↦ info.recommended_boost
      ]
    ]

-- The loop over the history: what stays, and how many go.
unfoldable pub clear_loop : Instant → Histories → Histories × ℕ
clear_loop cutoff [] = ([], 0)
clear_loop cutoff ((key, history) ∷ histories) =
    let (rest, removed) = clear_loop cutoff histories in
    if ltb_ℤ history.last_oom_time cutoff
    then (rest, suc removed)
    else ((key, history) ∷ rest, removed)

unfoldable pub clear_oom_history : Instant → Duration → Histories → Histories × ℕ
unfolding clear_loop
clear_oom_history now older_than histories =
    clear_loop (now +ℤ wrap64 (pos 0 -ℤ older_than)) histories

unfoldable pub get_all_oom_workloads : RangeOrder → Histories → List OomHistory
get_all_oom_workloads order histories = map (λ entry. entry.1) (order.visit histories)
