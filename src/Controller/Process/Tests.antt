-- ===== src/Controller/Process/Tests.antt =====
-- The processing in a cluster with one deployment, for one recommendation, and the properties applied to
-- it.
use intelligent_cluster_opti.Prelude.{ℕ, ◌≡◌, ◌↔◌, refl, true, false, not, none, some, [], ◌∷◌}
use intelligent_cluster_opti.Prelude.Int.{pos, inc64, wrap32, ◌-ℤ◌}
use intelligent_cluster_opti.Prelude.Float64.{of_ℕ}
use intelligent_cluster_opti.Prelude.Dict.{lookup}
use intelligent_cluster_opti.Api.{Instant, HpaAwareness, OptimizerConfig}
use intelligent_cluster_opti.Safety.Pdb.{
  check_pdb_safety, get_workload_info, find_matching_pdb, matching_loop, check_budget,
  calculate_int_or_percent,
}
use intelligent_cluster_opti.Safety.Hpa.{
  resource_metric, HorizontalPodAutoscaler, HpaConflictResult, is_targeting_workload,
  get_conflicting_metrics, conflict_loop, conflicting_loop, check_hpa_conflict,
}
use intelligent_cluster_opti.Safety.Hpa.Conflicts.{
  is_nil, has_conflicting, check_hpa_conflict-has_conflicting,
}
use intelligent_cluster_opti.Scaler.{apply_rolling_update}
use intelligent_cluster_opti.Scaler.Tests.{with_available, web}
use intelligent_cluster_opti.Applier.{
  ResourceRecommendation, has_changes, scale_request, live_apply,
}
use intelligent_cluster_opti.Applier.Live.{live_apply-applied_iff}
use intelligent_cluster_opti.Profile.Tests.{scanner}
use intelligent_cluster_opti.Webhook.Tests.{config}
use intelligent_cluster_opti.Controller.Format.{format_cpu, format_memory}
use intelligent_cluster_opti.Recommendation.Types.{ContainerRecommendation, WorkloadRecommendation}
use intelligent_cluster_opti.Safety.CircuitBreaker.{is_opened, should_allow, record_success}
use intelligent_cluster_opti.Scheduler.{
  is_in_maintenance_window, get_next_maintenance_window, next_loop,
}
use intelligent_cluster_opti.Recommendation.Tests.{library}
use intelligent_cluster_opti.Recommendation.Engine.Settings.{new_engine}
use intelligent_cluster_opti.Recommendation.Engine.{generate_recommendations}
use intelligent_cluster_opti.Controller.{
  reconcile, reconcile_window, reconcile_live, mark_window, update_phase, update_condition,
  set_condition, same_type, same_status,
}
use intelligent_cluster_opti.Controller.Health.{should_block_optimization, check_system_health}
use intelligent_cluster_opti.Prelude.Exchange.{exchange_sort, exchange_loop}
use intelligent_cluster_opti.Storage.{get_metrics_by_namespace, namespace_loop}
use intelligent_cluster_opti.Controller.Tests.{no_calendar, start, after_failures, live_result}
use intelligent_cluster_opti.Controller.Process.Engine.{with_engine, reconcile-closed_engine}
use intelligent_cluster_opti.Controller.Process.{
  Pipeline, start_run, process_workload, as_process, process_recommendations,
}
use intelligent_cluster_opti.Controller.Process.DryRun.{
  IsUntouched, process_recommendations-IsUntouched,
}
use intelligent_cluster_opti.Controller.Process.Kept.{IsKept, process_recommendations-IsKept}
use intelligent_cluster_opti.Controller.Process.Gates.{
  process_workload-is_blocked, process_workload-has_conflicting,
}

writes_cores : format_cpu (pos 2000) ≡ "2"
unfolding format_cpu
writes_cores = refl

writes_millicores : format_cpu (pos 1500) ≡ "1500m"
unfolding format_cpu
writes_millicores = refl

writes_mebibytes : format_memory (pos 1610612736) ≡ "1536Mi"
unfolding format_memory
writes_mebibytes = refl

abbrev container : ContainerRecommendation
container = record {
  container_name = "web";
  current_cpu = pos 1000;
  current_memory = pos 0;
  recommended_cpu = pos 2000;
  recommended_memory = pos 0;
  sample_count = pos 10;
  cpu_percentile = pos 95;
  memory_percentile = pos 95;
  confidence = of_ℕ 90;
  confidence_details = none;
  estimated_savings = none;
  has_oom_history = false;
  oom_count = pos 0;
  oom_boost_applied = of_ℕ 1;
  oom_priority = "None";
}

abbrev workload : WorkloadRecommendation
workload = record {
  namespace = "default";
  workload_kind = "Deployment";
  workload_name = "web";
  containers = container ∷ [];
  generated_at = pos 0;
  expires_at = pos 0;
  current_total_cpu = pos 1000;
  current_total_memory = pos 0;
  total_estimated_savings = none;
  has_oom_history = false;
  total_oom_count = pos 0;
  oom_priority = "None";
}

abbrev autoscaler : HorizontalPodAutoscaler
autoscaler = record {
  name = "hpa";
  target_kind = "Deployment";
  target_name = "web";
  metrics = resource_metric "cpu" ∷ [];
}

abbrev pipeline : ℕ → Pipeline
pipeline n = record {
  platform = with_available n;
  scanner = scanner;
  list_hpas = λ w namespace. some (autoscaler ∷ []);
  generate = λ c. some (workload ∷ []);
  blocks_scaling = λ namespace name. false;
  hpa_message = λ result. "";
  pdb_message = λ result. "";
}

abbrev clock : ℕ → Instant
clock n = pos n

abbrev dry : OptimizerConfig
dry = record config { spec = record (config.spec) { dry_run = true } }

abbrev skipping : HpaAwareness
skipping = record { enabled = true; conflict_policy = "Skip" }

abbrev aware : OptimizerConfig
aware = record config { spec = record (config.spec) { hpa_awareness = some skipping } }

process_recommendations-IsUntouched_example :
    IsUntouched
      (pipeline 3)
      clock
      (web ∷ [])
      []
      dry.spec
      (process_recommendations (pipeline 3) clock (web ∷ []) [] dry).0
process_recommendations-IsUntouched_example =
    process_recommendations-IsUntouched (pipeline 3) clock (web ∷ []) [] dry refl

process_recommendations-IsKept_example :
    IsKept
      (pipeline 3)
      clock
      config
      (process_recommendations (pipeline 3) clock (web ∷ []) [] config).0
process_recommendations-IsKept_example =
    process_recommendations-IsKept (pipeline 3) clock (web ∷ []) [] config tt

-- A resource in a closed circuit, and what one reconciliation without recommendations makes of it.
abbrev targeted : OptimizerConfig
targeted = record start { spec = record (start.spec) { target_namespaces = "default" ∷ [] } }

abbrev succeeded : OptimizerConfig
succeeded = record (after_failures 1) {
  spec = targeted.spec;
  status = record ((after_failures 1).status) { total_updates_failed = pos 0 };
}

succeeds :
    reconcile no_calendar
      (as_process (with_engine library new_engine (pos 0) [] (pipeline 3)) clock (web ∷ []) [])
      1
      clock
      targeted
    ≡ some (succeeded, live_result)
unfolding reconcile reconcile_window reconcile_live mark_window should_allow record_success
    update_phase update_condition set_condition same_type same_status is_in_maintenance_window inc64
    get_next_maintenance_window next_loop as_process process_recommendations
    generate_recommendations should_block_optimization check_system_health exchange_sort
    exchange_loop new_engine get_metrics_by_namespace namespace_loop
succeeds = refl

reconcile-closed_engine_example : is_opened succeeded.status.circuit_state ≡ false
reconcile-closed_engine_example =
    reconcile-closed_engine library new_engine (pos 0) [] (pipeline 3) no_calendar clock clock 1
      (web ∷ []) [] targeted tt refl succeeds

process_workload-is_blocked_example :
    (process_workload (pipeline 2) clock none workload (start_run (web ∷ []) [] config)).world
    ≡ web ∷ []
unfolding check_pdb_safety get_workload_info find_matching_pdb matching_loop check_budget
    calculate_int_or_percent wrap32 ◌-ℤ◌
process_workload-is_blocked_example =
    process_workload-is_blocked (pipeline 2) clock none workload (start_run (web ∷ []) [] config)
      refl

process_workload-has_conflicting_example :
    let after = process_workload (pipeline 3) clock none workload (start_run (web ∷ []) [] aware) in
    (after.world ≡ web ∷ [])
    × ((after.history ≡ []) × ((after.applied_count ≡ 0) × (after.skipped_count ≡ 1)))
unfolding is_targeting_workload
process_workload-has_conflicting_example =
    process_workload-has_conflicting (pipeline 3) clock none workload
      (start_run (web ∷ []) [] aware) skipping (autoscaler ∷ []) refl refl refl refl refl

abbrev found : HpaConflictResult
found = record { has_conflict = true; conflicting_hpa = "hpa"; conflict_metrics = "cpu" ∷ [] }

check_hpa_conflict-has_conflicting_example :
    (true ≡ has_conflicting "Deployment" "web" (autoscaler ∷ [])) × (is_nil ("cpu" ∷ []) ≡ not true)
unfolding check_hpa_conflict conflict_loop is_targeting_workload get_conflicting_metrics
    conflicting_loop lookup
check_hpa_conflict-has_conflicting_example =
    check_hpa_conflict-has_conflicting (autoscaler ∷ []) "Deployment" "web" found refl

abbrev recommendation : ResourceRecommendation
recommendation = record {
  namespace = "default";
  workload_kind = "Deployment";
  workload_name = "web";
  container_name = "web";
  current_cpu = "1";
  recommended_cpu = "2";
  current_memory = "0";
  recommended_memory = "0";
}

live_apply-applied_iff_example :
    (((live_apply (with_available 3) (web ∷ []) [] (pos 1) recommendation).1.1.applied ≡ true) ↔ (
      (has_changes recommendation ≡ true)
      × ((apply_rolling_update (with_available 3) (web ∷ []) (scale_request recommendation)).1
          ≡ none)))
    × (has_changes recommendation ≡ false
        → ((live_apply (with_available 3) (web ∷ []) [] (pos 1) recommendation).0 ≡ web ∷ [])
          × ((live_apply (with_available 3) (web ∷ []) [] (pos 1) recommendation).1.0 ≡ []))
live_apply-applied_iff_example =
    live_apply-applied_iff (with_available 3) (web ∷ []) [] (pos 1) recommendation
