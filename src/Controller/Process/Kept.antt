-- ===== src/Controller/Process/Kept.antt =====
-- What `processRecommendations` keeps in live mode too: the fields of the circuit breaker, and the bound
-- of the history. Its only error is that of the engine.
use intelligent_cluster_opti.Prelude.{
  ℕ, suc, length, is_some, String, ◌≡◌, ◌↔◌, refl, ap, subst, sym, ◌∙◌, Bool, true, false, Option,
  none, some, List, [], ◌∷◌, if◌then◌else◌, Bool-cases, inl, inr,
}
use intelligent_cluster_opti.Api.{Instant, OptimizerConfig, OptimizerConfigSpec}
use intelligent_cluster_opti.Rollback.{Configs}
use intelligent_cluster_opti.Rollback.History.{IsBounded, rollback_manager-IsBounded}
use intelligent_cluster_opti.Applier.{
  ResourceRecommendation, ApplyResult, has_changes, apply, live_apply,
}
use intelligent_cluster_opti.Controller.{update_condition}
use intelligent_cluster_opti.Profile.{new_profile_manager}
use intelligent_cluster_opti.Profile.Resolver.{resolve}
use intelligent_cluster_opti.Safety.CircuitBreaker.{active_breaker}
use intelligent_cluster_opti.Controller.Breaker.{KeepsBreaker}
use intelligent_cluster_opti.Controller.Health.{
  should_block_optimization, check_system_health, has_critical,
}
use intelligent_cluster_opti.Recommendation.Types.{WorkloadRecommendation}
use intelligent_cluster_opti.Controller.Process.{
  Pipeline, Run, apply_container, workloads_loop, finish_run, process_recommendations, as_process,
  count_result, start_run,
}
use intelligent_cluster_opti.Controller.Process.Steps.{IsStable, process_stable}

count_result-kept :
    {World : Type 0} (result : ApplyResult) (dry_run : Bool) (run : Run World)
    → let after = count_result result dry_run run in
      (after.config ≡ run.config) × ((after.history ≡ run.history) × (after.world ≡ run.world))
count_result-kept result dry_run run = of_tests (is_some result.error) dry_run result.applied
  where
    of_tests :
        (e d a : Bool)
        → let after =
            if e
            then run
            else if d
            then run
            else if a
            then record run { applied_count = suc run.applied_count }
            else run in
          (after.config ≡ run.config) × ((after.history ≡ run.history) × (after.world ≡ run.world))
    of_tests true d a = (refl, (refl, refl))
    of_tests false true a = (refl, (refl, refl))
    of_tests false false true = (refl, (refl, refl))
    of_tests false false false = (refl, (refl, refl))

module _ (pl : Pipeline) (clock : ℕ → Instant) where
  open pl use {platform, generate, scanner}

  -- The applier gives the history and the cluster, and nothing else of what it does reaches the resource.
  pub apply_container-kept :
      (rec : ResourceRecommendation) (run : Run platform.cluster.World)
      → let after = apply_container pl clock rec run in
        (after.config ≡ run.config)
        × ((after.history
              ≡ (apply platform run.world run.history
                  (clock run.ticks)
                  rec
                  run.config.spec.dry_run).1.0)
            × (after.world
                ≡ (apply platform run.world run.history
                    (clock run.ticks)
                    rec
                    run.config.spec.dry_run).0))
  unfolding apply_container
  apply_container-kept rec run =
      let (world', (history', result)) =
        apply platform run.world run.history (clock run.ticks) rec run.config.spec.dry_run in
      count_result-kept result run.config.spec.dry_run
        (record run { world = world'; history = history'; ticks = suc run.ticks })

  live_apply-IsBounded :
      (world : platform.cluster.World) (history : Configs) (now : Instant)
      (rec : ResourceRecommendation)
      → IsBounded history
      → IsBounded (live_apply platform world history now rec).1.0
  unfolding live_apply
  live_apply-IsBounded world history now rec h = elim (Bool-cases (has_changes rec)) [
    | inr same ↦ rw same h
    | inl differs ↦
        rw differs
          (rollback_manager-IsBounded platform.cluster world rec.namespace rec.workload_kind
            rec.workload_name rec.container_name history now h).0
  ]

  apply-IsBounded :
      (world : platform.cluster.World) (history : Configs) (now : Instant)
      (rec : ResourceRecommendation) (dry_run : Bool)
      → IsBounded history
      → IsBounded (apply platform world history now rec dry_run).1.0
  unfolding apply
  apply-IsBounded world history now rec true h = h
  apply-IsBounded world history now rec false h = live_apply-IsBounded world history now rec h

  -- The spec, the state and the error count of the breaker as in `config`, and the history in its bound.
  pub record IsKept (config : OptimizerConfig) (run : Run platform.cluster.World) : Type 0 where
    pub spec_kept : run.config.spec ≡ config.spec
    pub state_kept : run.config.status.circuit_state ≡ config.status.circuit_state
    pub errors_kept : run.config.status.consecutive_errors ≡ config.status.consecutive_errors
    pub history_bound : IsBounded run.history

  config-IsKept :
      (config : OptimizerConfig) (run after : Run platform.cluster.World)
      → after.config ≡ run.config
      → IsBounded after.history
      → IsKept config run
      → IsKept config after
  config-IsKept config run after e b k = record {
    spec_kept = ap (λ c. c.spec) e ∙ k.spec_kept;
    state_kept = ap (λ c. c.status.circuit_state) e ∙ k.state_kept;
    errors_kept = ap (λ c. c.status.consecutive_errors) e ∙ k.errors_kept;
    history_bound = b;
  }

  IsStable-IsKept : (config : OptimizerConfig) → IsStable pl clock (IsKept config)
  unfolding update_condition
  IsStable-IsKept config = record {
    skipping = λ run k. config-IsKept config run _ refl k.history_bound k;
    marking = λ type reason message run k. record {
      spec_kept = k.spec_kept;
      state_kept = k.state_kept;
      errors_kept = k.errors_kept;
      history_bound = k.history_bound;
    };
    applying = λ rec run k.
        let (c, (h, w)) = apply_container-kept rec run in
        config-IsKept config run _ c
          (subst IsBounded (sym h) (
            apply-IsBounded run.world run.history (clock run.ticks) rec run.config.spec.dry_run
              k.history_bound))
          k;
  }

  finish-IsKept :
      (config : OptimizerConfig) (n : ℕ) (run : Run platform.cluster.World)
      → IsKept config run
      → IsKept config (finish_run pl clock n run)
  unfolding finish_run
  finish-IsKept config n run k = record {
    spec_kept = k.spec_kept;
    state_kept = k.state_kept;
    errors_kept = k.errors_kept;
    history_bound = k.history_bound;
  }

  -- From a history in which every container has at most five saved configurations: the processing, dry run
  -- or live, whatever the cluster answers, leaves the spec, the circuit state and the error count as they
  -- are, and every container with at most five saved configurations.
  pub process_recommendations-IsKept :
      (world : platform.cluster.World) (history : Configs) (config : OptimizerConfig)
      → IsBounded history
      → IsKept config (process_recommendations pl clock world history config).0
  process_recommendations-IsKept world history config b =
      process_stable pl clock (IsKept config) (IsStable-IsKept config) (finish-IsKept config) world
        history config
        (record { spec_kept = refl; state_kept = refl; errors_kept = refl; history_bound = b })

  as_process-KeepsBreaker :
      (world : platform.cluster.World) (history : Configs)
      → IsBounded history
      → KeepsBreaker (as_process pl clock world history)
  unfolding as_process
  as_process-KeepsBreaker world history b = record {
    breaker_kept = λ config.
        ap (λ (s : OptimizerConfigSpec). active_breaker (record config { spec = s }))
          (process_recommendations-IsKept world history config b).spec_kept;
    state_kept = λ config. (process_recommendations-IsKept world history config b).state_kept;
    errors_kept = λ config. (process_recommendations-IsKept world history config b).errors_kept;
  }

  -- The processing returns an error exactly if the engine does: no update that fails, and no state of the
  -- cluster, is an error of the reconciliation.
  pub process_recommendations-error_iff :
      (world : platform.cluster.World) (history : Configs) (config : OptimizerConfig)
      → ((process_recommendations pl clock world history config).1 ≡ none)
        ↔ ((rs : List WorkloadRecommendation) × (generate config ≡ some rs))
  unfolding process_recommendations should_block_optimization check_system_health has_critical
  process_recommendations-error_iff world history config = of_answer (generate config)
    where
      of_answer :
          (answer : Option (List WorkloadRecommendation))
          → ((elim answer as (λ a. Run platform.cluster.World × Option String) [
            | none ↦ (start_run world history config, some "failed to generate recommendations")
            | some [] ↦ (start_run world history config, none)
            | some (r ∷ rs) ↦ (
              finish_run pl clock (suc (length rs)) (
                  workloads_loop pl clock
                    (resolve scanner new_profile_manager config)
                    (r ∷ rs)
                    (start_run world history config)),
              none,
            )
          ]).1
              ≡ none)
            ↔ ((rs : List WorkloadRecommendation) × (answer ≡ some rs))
      of_answer none = (λ h. cc, λ (rs, e). cc)
      of_answer (some []) = (λ h. ([], refl), λ r. refl)
      of_answer (some (r ∷ rs)) = (λ h. (r ∷ rs, refl), λ q. refl)
