-- ===== src/Safety/Oom/Tests.antt =====
-- A pod that is killed and scanned twice, and the properties applied to it.
use intelligent_cluster_opti.Prelude.{
  ℕ, ◌+◌, ◌*◌, ◌/◌, ◌^◌, ◌≤◌, ◌≡◌, refl, true, not, ◌||◌, none, some, [], ◌∷◌, All, length, arith,
  is_some,
}
use intelligent_cluster_opti.Prelude.Int.{ℤ, pos, pos_part, ◌+ℤ◌, ◌-ℤ◌, ◌≤ℤ◌, wrap64}
use intelligent_cluster_opti.Prelude.Float64.{Float64, finite, ltb_float}
use intelligent_cluster_opti.Prelude.Dict.{RangeOrder, lookup, insert}
use intelligent_cluster_opti.Api.{Duration}
use intelligent_cluster_opti.Recommendation.Names.{
  split_pod_name, split_loop, join_parts, join_loop,
}
use intelligent_cluster_opti.Safety.Oom.Names.{owners_loop}
use intelligent_cluster_opti.Safety.Oom.Check.{
  Pod, last_kill, check_container_for_oom, statuses_loop, check_pod_for_oom,
  extract_workload_name_from_pod, calculate_memory_boost,
}
use intelligent_cluster_opti.Safety.Oom.History.{
  OomHistory, Histories, new_oom_detector, record_loop, update_oom_history, get_oom_history,
  clear_oom_history,
}
use intelligent_cluster_opti.Safety.Oom.History.Invariant.{
  IsSoundAll, Reached, start, scanned, Reached-IsSoundAll,
}
use intelligent_cluster_opti.Safety.Oom.History.Clear.{unless_before, clear_oom_history_lem}
use intelligent_cluster_opti.Safety.Oom.Scan.{
  OomCheckResult, low, check_pod, pods_loop, check_namespace_for_ooms, calculate_priority,
}
use intelligent_cluster_opti.Safety.Oom.Scan.Priority.{IsMonotone, rank, calculate_priority_mono}
use intelligent_cluster_opti.Safety.Oom.Scan.Complete.{IsNoted, check_namespace_for_ooms-IsNoted}

abbrev order : RangeOrder
order = record { visit = λ dict. dict }

-- Whole hours, from 0 on.
abbrev hours : Duration → Float64
hours d = finite (pos (pos_part d / 3_600_000_000_000 * 2 ^ 1074))

abbrev pod : Pod
pod = record {
  name = "web-5d7b8c7d9f-abc12";
  owner_references = record { kind = "ReplicaSet"; name = "web-5d7b8c7d9f" } ∷ [];
  containers = record { name = "web"; memory_limit = some (pos 1000) } ∷ [];
  container_statuses =
      record {
        name = "web";
        restart_count = pos 3;
        last_terminated = some (record { reason = "OOMKilled"; finished_at = pos 7 });
        terminated = none;
      }
      ∷ [];
}

abbrev once : Histories
once = (check_namespace_for_ooms order hours (pos 9) "default" (some (pod ∷ [])) new_oom_detector).1

abbrev twice : Histories
twice = (check_namespace_for_ooms order hours (pos 10) "default" (some (pod ∷ [])) once).1

-- Three restarts, scanned twice, count as six kills.
counted_twice :
    lookup "default/web" twice
    ≡ some (record {
      namespace = "default";
      workload_name = "web";
      workload_kind = "Deployment";
      container_ooms =
          (
            "web",
            record {
              container_name = "web";
              oom_count = pos 3;
              last_oom_time = pos 7;
              last_memory_limit = pos 1000;
              restart_count = pos 3;
              recommended_boost = calculate_memory_boost (pos 3);
            },
          )
          ∷ [];
      total_ooms = pos 6;
      last_oom_time = pos 7;
      first_oom_time = pos 9;
    })
unfolding check_namespace_for_ooms pods_loop check_pod check_pod_for_oom statuses_loop
    check_container_for_oom last_kill extract_workload_name_from_pod owners_loop split_pod_name
    split_loop join_parts join_loop update_oom_history record_loop new_oom_detector lookup insert
    wrap64 ◌+ℤ◌
counted_twice = refl

twice-Reached : Reached order twice
twice-Reached =
    scanned hours (pos 10) "default" (some (pod ∷ []))
      (scanned hours (pos 9) "default" (some (pod ∷ [])) start)

Reached-IsSoundAll_example : IsSoundAll twice
Reached-IsSoundAll_example = Reached-IsSoundAll order twice-Reached

abbrev history : OomHistory
history = record {
  namespace = "default";
  workload_name = "web";
  workload_kind = "Deployment";
  container_ooms = [];
  total_ooms = pos 6;
  last_oom_time = pos 7;
  first_oom_time = pos 9;
}

clear_oom_history_lem_example :
    let (after, removed) = clear_oom_history (pos 20) (pos 5) (("default/web", history) ∷ []) in
    (get_oom_history "default" "web" after
      ≡ unless_before
          (pos 20 +ℤ wrap64 (pos 0 -ℤ pos 5))
          (get_oom_history "default" "web" (("default/web", history) ∷ [])))
    × (length after + removed ≡ 1)
unfolding lookup
clear_oom_history_lem_example =
    clear_oom_history_lem (pos 20) (pos 5) "default" "web" (("default/web", history) ∷ [])
      (refl, tt)

check_namespace_for_ooms-IsNoted_example :
    All (IsNoted "default" once) (pod ∷ [])
    × ((not (is_some (get_oom_history "default" "web" new_oom_detector))
          || is_some (get_oom_history "default" "web" once))
        ≡ true)
check_namespace_for_ooms-IsNoted_example =
    check_namespace_for_ooms-IsNoted order hours (pos 9) "default" "web" (pod ∷ []) new_oom_detector

abbrev result : ℤ → OomCheckResult
result total = record {
  has_oom_history = true;
  workload_name = "web";
  namespace = "default";
  affected_containers = [];
  total_oom_count = total;
  last_oom_time = pos 7;
  priority = low;
  recommended_action = "";
}

scaled : (k m n : ℕ) → m ≤ n → m * k ≤ n * k
scaled k m n h = grind (arith, h)

quotient : (a b : ℤ) → a ≤ℤ b → pos_part a / 3600000000000 ≤ pos_part b / 3600000000000
quotient a b h = ground (arith, h)

shorter :
    (m n : ℕ) (bound : Float64)
    → m ≤ n
    → ltb_float (finite (pos n)) bound ≡ true
    → ltb_float (finite (pos m)) bound ≡ true
shorter m n (finite c) h e = ground (arith, h, e)
shorter m n Float64.infinity h e = refl
shorter m n Float64.negative_infinity h e = cc
shorter m n Float64.nan h e = cc

hours-IsMonotone : IsMonotone hours
hours-IsMonotone a b bound h e =
    shorter (pos_part a / 3600000000000 * 2 ^ 1074) (pos_part b / 3600000000000 * 2 ^ 1074) bound
      (scaled (2 ^ 1074) (pos_part a / 3600000000000) (pos_part b / 3600000000000) (quotient a b h))
      e

calculate_priority_mono_example :
    rank (calculate_priority hours (pos 8) (result (pos 1)))
    ≤ rank (calculate_priority hours (pos 8) (result (pos 30)))
calculate_priority_mono_example =
    calculate_priority_mono hours (pos 8) (result (pos 1)) (result (pos 30)) hours-IsMonotone refl
      refl (omega arith) (omega arith)
