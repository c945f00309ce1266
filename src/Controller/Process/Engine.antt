-- ===== src/Controller/Process/Engine.antt =====
-- The processing with the engine of pkg/recommendation over the metrics storage.
use intelligent_cluster_opti.Prelude.{
  ℕ, String, ◌≡◌, ◌∙◌, refl, ap, Bool, true, false, Option, none, some, arith, Bool-cases, inl, inr,
}
use intelligent_cluster_opti.Api.{Instant, OptimizerConfig}
use intelligent_cluster_opti.Storage.{History, get_metrics_by_namespace}
use intelligent_cluster_opti.Rollback.{Configs}
use intelligent_cluster_opti.Rollback.History.{IsBounded}
use intelligent_cluster_opti.Safety.CircuitBreaker.{is_opened, should_allow, record_success}
use intelligent_cluster_opti.Scheduler.{Calendar}
use intelligent_cluster_opti.Recommendation.Values.{Library}
use intelligent_cluster_opti.Recommendation.Engine.Settings.{Engine}
use intelligent_cluster_opti.Recommendation.Engine.{generate_recommendations}
use intelligent_cluster_opti.Controller.{
  ReconcileResult, Process, when_active, mark_window, is_outside, reconcile, reconcile_live,
  reconcile_window,
}
use intelligent_cluster_opti.Controller.Process.{Pipeline, process_recommendations, as_process}
use intelligent_cluster_opti.Controller.Process.Kept.{
  process_recommendations-IsKept, process_recommendations-error_iff,
}

-- The pipeline whose recommendations the engine makes of what is stored.
abbrev pub with_engine : Library → Engine → Instant → History → Pipeline → Pipeline
with_engine lib engine now store pl = record pl {
  generate =
      generate_recommendations lib engine now
        (λ namespace since. get_metrics_by_namespace now namespace since store);
}

allowed_closed :
    (parse_duration : String → Option Instant) (now : Instant) (config : OptimizerConfig)
    → is_opened config.status.circuit_state ≡ false
    → when_active (should_allow parse_duration now) true config ≡ (config, true)
unfolding should_allow
allowed_closed parse_duration now config h = ground (arith, h)

success_closed :
    (now : Instant) (config : OptimizerConfig)
    → is_opened config.status.circuit_state ≡ false
    → is_opened (when_active (record_success now) false config).0.status.circuit_state ≡ false
unfolding record_success
success_closed now config h = ground (arith, h)

-- A processing without errors that leaves the state of the breaker alone.
record IsHarmless (process : Process) : Type 0 where
  no_error : (config : OptimizerConfig) → (process config).1 ≡ none
  state_kept :
      (config : OptimizerConfig)
      → (process config).0.status.circuit_state ≡ config.status.circuit_state

module _ (c : Calendar) (process : Process) (harmless : IsHarmless process) where
  live-closed :
      (clock : ℕ → Instant) (config : OptimizerConfig)
      → is_opened config.status.circuit_state ≡ false
      → is_opened (reconcile_live process clock config).0.status.circuit_state ≡ false
  unfolding reconcile_live
  live-closed clock config h =
      rw (harmless.no_error config)
        (success_closed (clock 8) _ (ap is_opened (harmless.state_kept config) ∙ h))

  window-closed :
      (clock : ℕ → Instant) (in_window : Bool) (config : OptimizerConfig)
      → is_opened config.status.circuit_state ≡ false
      → is_opened (reconcile_window c process clock in_window config).0.status.circuit_state ≡ false
  unfolding reconcile_window mark_window
  window-closed clock in_window config h =
      let marked = mark_window c clock in_window config in
      elim (Bool-cases (is_outside in_window marked)) [
        | inl out ↦ rw out h
        | inr live ↦ rw live (live-closed clock marked h)
      ]

  reconcile-closed :
      (fuel : ℕ) (clock : ℕ → Instant) (config : OptimizerConfig) {after : OptimizerConfig}
      {result : ReconcileResult}
      → is_opened config.status.circuit_state ≡ false
      → reconcile c process fuel clock config ≡ some (after, result)
      → is_opened after.status.circuit_state ≡ false
  unfolding reconcile
  reconcile-closed fuel clock config h e = ground (
    arith,
    allowed_closed c.parse_duration (clock 0) config h,
    window-closed clock true config h,
    window-closed clock false config h,
  )

module _ (lib : Library) (engine : Engine) (now : Instant) (store : History) (pl : Pipeline) where
  -- The processing with the engine never returns an error, whatever is stored and whatever the cluster
  -- answers.
  no_error :
      (clock : ℕ → Instant) (world : pl.platform.cluster.World) (history : Configs)
      (config : OptimizerConfig)
      → (process_recommendations (with_engine lib engine now store pl) clock world history config).1
        ≡ none
  unfolding generate_recommendations
  no_error clock world history config =
      (process_recommendations-error_iff (with_engine lib engine now store pl) clock world history
          config).1
        (_, refl)

  as_process-IsHarmless :
      (clock : ℕ → Instant) (world : pl.platform.cluster.World) (history : Configs)
      → IsBounded history
      → IsHarmless (as_process (with_engine lib engine now store pl) clock world history)
  unfolding as_process
  as_process-IsHarmless clock world history b = record {
    no_error = no_error clock world history;
    state_kept = λ config.
        (process_recommendations-IsKept (with_engine lib engine now store pl) clock world history
          config b).state_kept;
  }

  -- With the engine over any stored metrics, and at most five saved configurations of every container: a
  -- reconciliation never opens a circuit breaker that is not open, whatever its thresholds, the cluster's
  -- answers and the updates that fail.
  pub reconcile-closed_engine :
      (c : Calendar) (clock ticks : ℕ → Instant) (fuel : ℕ) (world : pl.platform.cluster.World)
      (history : Configs) (config : OptimizerConfig) {after : OptimizerConfig}
      {result : ReconcileResult}
      → IsBounded history
      → is_opened config.status.circuit_state ≡ false
      → reconcile c
          (as_process (with_engine lib engine now store pl) ticks world history)
          fuel
          clock
          config
        ≡ some (after, result)
      → is_opened after.status.circuit_state ≡ false
  reconcile-closed_engine c clock ticks fuel world history config b =
      reconcile-closed c (as_process (with_engine lib engine now store pl) ticks world history)
        (as_process-IsHarmless ticks world history b) fuel clock config
