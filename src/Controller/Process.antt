-- ===== src/Controller/Process.antt =====
-- pkg/controller/reconciler.go: `processRecommendations`. The engine is an argument, which
-- Process/Engine fills. The anomaly check and the texts of messages are in the record `Pipeline`, and so
-- is the cluster. Predictions, the Pareto analysis, the export and the comparison of health after an
-- update make events and logs only, or files, and are left out.
mod Steps
mod Kept
mod DryRun
mod Gates
mod Engine
mod Tests
use Prim.Native.String.{◌++◌ as str_append}
use intelligent_cluster_opti.Prelude.{
  ℕ, zero, suc, ◌+◌, ◌*◌, ◌/◌, ◌%◌, ◌^◌, String, Bool, true, false, not, ◌&&◌, ◌||◌, Option, none,
  some, List, [], ◌∷◌, if◌then◌else◌, str_eq, length, ltb, leb, ◌==◌, is_some,
}
use intelligent_cluster_opti.Prelude.Int.{ℤ, pos, negsuc, ◌+ℤ◌, wrap64}
use intelligent_cluster_opti.Prelude.Float64.{Float64, finite, ltb_float}
use intelligent_cluster_opti.Prelude.Decimal.{decimal, format_int}
use intelligent_cluster_opti.Api.{
  Instant, OptimizerConfig, hpa_conflict, pdb_violation, condition_true, OptimizerConditionType,
}
use intelligent_cluster_opti.Recommendation.Types.{
  ContainerRecommendation, WorkloadRecommendation, max_change_percent,
}
use intelligent_cluster_opti.Rollback.{Configs}
use intelligent_cluster_opti.Safety.Hpa.{
  HorizontalPodAutoscaler, HpaConflictResult, check_hpa_conflict,
}
use intelligent_cluster_opti.Safety.Pdb.{PdbCheckResult, check_pdb_safety}
use intelligent_cluster_opti.Platform.{Platform, seconds}
use intelligent_cluster_opti.Applier.{ResourceRecommendation, ApplyResult, has_changes, apply}
use intelligent_cluster_opti.Profile.{new_profile_manager}
use intelligent_cluster_opti.Profile.Resolver.{
  Scanner, ResolvedSettings, resolve, should_apply_recommendation,
}
use intelligent_cluster_opti.Controller.Health.{check_system_health, should_block_optimization}
use intelligent_cluster_opti.Controller.Format.{format_cpu, format_memory}
use intelligent_cluster_opti.Controller.{Process, update_condition}

pub record Pipeline : Type 1 where
  pub platform : Platform
  pub scanner : Scanner
  -- The autoscalers of a namespace.
  pub list_hpas : platform.cluster.World → String → Option (List HorizontalPodAutoscaler)
  -- `GenerateRecommendations`, whose signature lets it fail.
  pub generate : OptimizerConfig → Option (List WorkloadRecommendation)
  -- Are there metrics of the workload, and does the anomaly check of them block a change?
  pub blocks_scaling : String → String → Bool
  -- The texts that a condition shows.
  pub hpa_message : HpaConflictResult → String
  pub pdb_message : PdbCheckResult → String

unfoldable pub to_applier :
    WorkloadRecommendation → ContainerRecommendation → ResourceRecommendation
unfolding format_cpu format_memory
to_applier workload_rec container_rec = record {
  namespace = workload_rec.namespace;
  workload_kind = workload_rec.workload_kind;
  workload_name = workload_rec.workload_name;
  container_name = container_rec.container_name;
  current_cpu = format_cpu container_rec.current_cpu;
  recommended_cpu = format_cpu container_rec.recommended_cpu;
  current_memory = format_memory container_rec.current_memory;
  recommended_memory = format_memory container_rec.recommended_memory;
}

-- The cluster, the history of the rollback manager, the resource, the two counters, and how often the
-- clock has been read.
pub record Run (World : Type 0) : Type 0 where
  pub world : World
  pub history : Configs
  pub config : OptimizerConfig
  pub applied_count : ℕ
  pub skipped_count : ℕ
  pub ticks : ℕ

abbrev pub start_run : {World : Type 0} → World → Configs → OptimizerConfig → Run World
start_run world history config = record {
  world = world;
  history = history;
  config = config;
  applied_count = 0;
  skipped_count = 0;
  ticks = 0;
}

abbrev pub skip : {World : Type 0} → Run World → Run World
skip run = record run { skipped_count = suc run.skipped_count }

-- `if err != nil { continue }`, and the count of what was applied.
abbrev pub count_result : {World : Type 0} → ApplyResult → Bool → Run World → Run World
count_result result dry_run run =
    if is_some result.error
    then run
    else if dry_run
    then run
    else if result.applied
    then record run { applied_count = suc run.applied_count }
    else run

module _ (pl : Pipeline) (clock : ℕ → Instant) where
  open pl use {platform, scanner, list_hpas, generate, blocks_scaling, hpa_message, pdb_message}

  -- The end of the loop over the containers: the call of the applier, and what it counts.
  unfoldable pub apply_container :
      ResourceRecommendation → Run platform.cluster.World → Run platform.cluster.World
  apply_container rec run =
      let (world', (history', result)) =
        apply platform run.world run.history (clock run.ticks) rec run.config.spec.dry_run in
      count_result result run.config.spec.dry_run
        (record run { world = world'; history = history'; ticks = suc run.ticks })

  abbrev pub is_refused : Option ResolvedSettings → ContainerRecommendation → Bool
  is_refused none container_rec = false
  is_refused (some settings) container_rec = is_some (
      should_apply_recommendation settings container_rec.confidence
        (max_change_percent container_rec))

  unfoldable pub process_container :
      Option ResolvedSettings
      → WorkloadRecommendation
      → ContainerRecommendation
      → Run platform.cluster.World
      → Run platform.cluster.World
  process_container settings workload_rec container_rec run =
      let rec = to_applier workload_rec container_rec in
      if not (has_changes rec)
      then skip run
      else if is_refused settings container_rec
      then skip run
      else apply_container rec run

  unfoldable pub containers_loop :
      Option ResolvedSettings
      → WorkloadRecommendation
      → List ContainerRecommendation
      → Run platform.cluster.World
      → Run platform.cluster.World
  containers_loop settings workload_rec [] run = run
  containers_loop settings workload_rec (c ∷ cs) run =
      containers_loop settings workload_rec cs (process_container settings workload_rec c run)

  -- `updateCondition` and `skippedCount++`
  abbrev pub skip_with :
      OptimizerConditionType
      → String
      → String
      → Run platform.cluster.World
      → Run platform.cluster.World
  skip_with type reason message run = record run {
    config = update_condition (clock run.ticks) run.config type condition_true reason message;
    skipped_count = suc run.skipped_count;
    ticks = suc run.ticks;
  }

  -- The conflict for which the workload is passed over, if any.
  unfoldable pub hpa_gate :
      WorkloadRecommendation → Run platform.cluster.World → Option HpaConflictResult
  hpa_gate workload_rec run = elim run.config.spec.hpa_awareness [
    | none ↦ none
    | some awareness ↦
        if awareness.enabled
        then elim (check_hpa_conflict (list_hpas run.world workload_rec.namespace)
            workload_rec.workload_kind workload_rec.workload_name) [
              | none ↦ none
              | some result ↦
                  if result.has_conflict
                  then (if str_eq awareness.conflict_policy ""
                        || str_eq awareness.conflict_policy "Skip"
                      then some result
                      else none)
                  else none
            ]
        else none
  ]

  -- The budget for which the workload is passed over, if any.
  unfoldable pub pdb_gate :
      WorkloadRecommendation → Run platform.cluster.World → Option PdbCheckResult
  pdb_gate workload_rec run = elim run.config.spec.pdb_awareness [
    | none ↦ none
    | some awareness ↦
        if awareness.enabled && not run.config.spec.dry_run
        then elim (check_pdb_safety (platform.pdb_api run.world) workload_rec.namespace
            workload_rec.workload_kind workload_rec.workload_name (pos 1)) [
              | none ↦ none
              | some result ↦
                  if result.has_pdb && not result.is_safe
                  then (if awareness.respect_min_available then some result else none)
                  else none
            ]
        else none
  ]

  -- The body of the loop over the workloads.
  unfoldable pub process_workload :
      Option ResolvedSettings
      → WorkloadRecommendation
      → Run platform.cluster.World
      → Run platform.cluster.World
  process_workload settings workload_rec run = elim (hpa_gate workload_rec run) [
    | some result ↦ skip_with hpa_conflict "ConflictDetected" (hpa_message result) run
    | none ↦ elim (pdb_gate workload_rec run) [
      | some result ↦ skip_with pdb_violation "ViolationDetected" (pdb_message result) run
      | none ↦
          if blocks_scaling workload_rec.namespace workload_rec.workload_name
          then skip run
          else containers_loop settings workload_rec workload_rec.containers run
    ]
  ]

  unfoldable pub workloads_loop :
      Option ResolvedSettings
      → List WorkloadRecommendation
      → Run platform.cluster.World
      → Run platform.cluster.World
  workloads_loop settings [] run = run
  workloads_loop settings (r ∷ rs) run =
      workloads_loop settings rs (process_workload settings r run)

  -- What follows the loop: the counts go to the status, and after an update there is a pause.
  unfoldable pub finish_run : ℕ → Run platform.cluster.World → Run platform.cluster.World
  finish_run recommended run =
      let status = run.config.status in
      let updated : Bool = not run.config.spec.dry_run && ltb 0 run.applied_count in
      record run {
        world = if updated then platform.sleep (seconds 5) run.world else run.world;
        config = record (run.config) {
          status = record status {
            total_updates_applied =
                if updated
                then wrap64 (status.total_updates_applied +ℤ pos run.applied_count)
                else status.total_updates_applied;
            total_recommendations = wrap64 (status.total_recommendations +ℤ pos recommended);
          };
        };
      }

  unfoldable pub process_recommendations :
      platform.cluster.World
      → Configs
      → OptimizerConfig
      → Run platform.cluster.World × Option String
  process_recommendations world history config =
      let start = start_run world history config in
      let settings = resolve scanner new_profile_manager config in
      if should_block_optimization (some (check_system_health config))
      then (start, some "optimization blocked by SLA health check")
      else elim (generate config) [
        | none ↦ (start, some "failed to generate recommendations")
        | some [] ↦ (start, none)
        | some (r ∷ rs) ↦
            (finish_run (suc (length rs)) (workloads_loop settings (r ∷ rs) start), none)
      ]

  -- As the processing of one reconciliation: what it does to the resource, and its error.
  unfoldable pub as_process : platform.cluster.World → Configs → Process
  as_process world history config =
      let (run, error) = process_recommendations world history config in (run.config, error)
