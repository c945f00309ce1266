-- ===== src/Controller/Process/Steps.antt =====
-- A property that the three steps of `processRecommendations` keep holds throughout.
use intelligent_cluster_opti.Prelude.{
  ℕ, suc, length, String, inl, inr, Option, none, some, List, [], ◌∷◌, Bool-cases, Option-cases,
}
use intelligent_cluster_opti.Api.{Instant, OptimizerConditionType, OptimizerConfig}
use intelligent_cluster_opti.Applier.{ResourceRecommendation, has_changes}
use intelligent_cluster_opti.Profile.Resolver.{ResolvedSettings, resolve}
use intelligent_cluster_opti.Profile.{new_profile_manager}
use intelligent_cluster_opti.Rollback.{Configs}
use intelligent_cluster_opti.Controller.Health.{
  should_block_optimization, check_system_health, has_critical,
}
use intelligent_cluster_opti.Recommendation.Types.{ContainerRecommendation, WorkloadRecommendation}
use intelligent_cluster_opti.Controller.Process.{
  Pipeline, Run, to_applier, skip, skip_with, is_refused, apply_container, process_container,
  containers_loop, hpa_gate, pdb_gate, process_workload, workloads_loop, finish_run, start_run,
  process_recommendations,
}

module _ (pl : Pipeline) (clock : ℕ → Instant) where
  open pl use {platform, blocks_scaling, generate, scanner}

  -- Counting a skip, marking a condition, and one call of the applier.
  pub record IsStable (P : Run platform.cluster.World → Type 0) : Type 0 where
    pub skipping : (run : Run platform.cluster.World) → P run → P (skip run)
    pub marking :
        (type : OptimizerConditionType) (reason message : String) (run : Run platform.cluster.World)
        → P run
        → P (skip_with pl clock type reason message run)
    pub applying :
        (rec : ResourceRecommendation) (run : Run platform.cluster.World)
        → P run
        → P (apply_container pl clock rec run)

  module _ (P : Run platform.cluster.World → Type 0) (stable : IsStable P)
      (settings : Option ResolvedSettings) where
    container_stable :
        (workload_rec : WorkloadRecommendation) (c : ContainerRecommendation)
        (run : Run platform.cluster.World)
        → P run
        → P (process_container pl clock settings workload_rec c run)
    unfolding process_container
    container_stable workload_rec c run h =
        elim (Bool-cases (has_changes (to_applier workload_rec c))) [
          | inr same ↦ rw same (stable.skipping run h)
          | inl differs ↦ rw differs (elim (Bool-cases (is_refused pl clock settings c)) [
            | inl refused ↦ rw refused (stable.skipping run h)
            | inr allowed ↦ rw allowed (stable.applying (to_applier workload_rec c) run h)
          ])
        ]

    containers_stable :
        (workload_rec : WorkloadRecommendation) (cs : List ContainerRecommendation)
        (run : Run platform.cluster.World)
        → P run
        → P (containers_loop pl clock settings workload_rec cs run)
    unfolding containers_loop
    containers_stable workload_rec [] run h = h
    containers_stable workload_rec (c ∷ cs) run h =
        containers_stable workload_rec cs _ (container_stable workload_rec c run h)

    workload_stable :
        (workload_rec : WorkloadRecommendation) (run : Run platform.cluster.World)
        → P run
        → P (process_workload pl clock settings workload_rec run)
    unfolding process_workload
    workload_stable workload_rec run h = elim (Option-cases (hpa_gate pl clock workload_rec run)) [
      | inr (result, e) ↦ rw (e, process_workload) (stable.marking _ _ _ run h)
      | inl e ↦
          rw (e, process_workload)
            (elim (Option-cases (pdb_gate pl clock workload_rec run)) [
              | inr (result, f) ↦ rw f (stable.marking _ _ _ run h)
              | inl f ↦
                  rw f
                    (elim (Bool-cases
                      (blocks_scaling workload_rec.namespace workload_rec.workload_name)) [
                        | inl b ↦ rw b (stable.skipping run h)
                        | inr b ↦
                            rw b (containers_stable workload_rec workload_rec.containers run h)
                      ])
            ])
    ]

    pub workloads_stable :
        (rs : List WorkloadRecommendation) (run : Run platform.cluster.World)
        → P run
        → P (workloads_loop pl clock settings rs run)
    unfolding workloads_loop
    workloads_stable [] run h = h
    workloads_stable (r ∷ rs) run h = workloads_stable rs _ (workload_stable r run h)

  pub process_stable :
      (P : Run platform.cluster.World → Type 0)
      → IsStable P
      → ((n : ℕ) (run : Run platform.cluster.World) → P run → P (finish_run pl clock n run))
      → (world : platform.cluster.World) (history : Configs) (config : OptimizerConfig)
      → P (start_run world history config)
      → P (process_recommendations pl clock world history config).0
  unfolding process_recommendations should_block_optimization check_system_health has_critical
  process_stable P stable finish world history config h = of_answer (generate config)
    where
      of_answer :
          (answer : Option (List WorkloadRecommendation))
          → P
              (elim answer as (λ a. Run platform.cluster.World × Option String) [
                | none ↦ (start_run world history config, some "failed to generate recommendations")
                | some [] ↦ (start_run world history config, none)
                | some (r ∷ rs) ↦ (
                  finish_run pl clock (suc (length rs)) (
                      workloads_loop pl clock
                        (resolve scanner new_profile_manager config)
                        (r ∷ rs)
                        (start_run world history config)),
                  none,
                )
              ]).0
      of_answer none = h
      of_answer (some []) = h
      of_answer (some (r ∷ rs)) =
          finish (suc (length rs)) _ (workloads_stable P stable _ (r ∷ rs) _ h)
