-- ===== src/Controller/Process/DryRun.antt =====
-- In dry-run mode `processRecommendations` leaves the cluster as it is.
use intelligent_cluster_opti.Prelude.{
  ℕ, suc, is_some, ap, subst, sym, ◌≡◌, refl, ◌∙◌, true, Bool-cases, inl, inr,
}
use intelligent_cluster_opti.Api.{Instant, OptimizerConfig, OptimizerConfigSpec}
use intelligent_cluster_opti.Rollback.{Configs}
use intelligent_cluster_opti.Applier.{ResourceRecommendation, apply, dry_run_apply}
use intelligent_cluster_opti.Controller.{update_condition}
use intelligent_cluster_opti.Controller.Process.{
  Pipeline, Run, apply_container, finish_run, process_recommendations,
}
use intelligent_cluster_opti.Controller.Process.Steps.{IsStable, process_stable}

module _ (pl : Pipeline) (clock : ℕ → Instant) where
  open pl use {platform, generate}

  apply_container-dry_run :
      (rec : ResourceRecommendation) (run : Run platform.cluster.World)
      → run.config.spec.dry_run ≡ true
      → apply_container pl clock rec run ≡ record run { ticks = suc run.ticks }
  unfolding apply_container apply
  apply_container-dry_run rec run d = elim (Bool-cases (is_some (dry_run_apply rec).error)) [
    | inl e ↦ rw (d, e) refl
    | inr e ↦ rw (d, e) refl
  ]

  -- As at the start: the cluster, the history and the spec; and nothing is counted as applied.
  pub record IsUntouched (world : platform.cluster.World) (history : Configs)
      (spec : OptimizerConfigSpec) (run : Run platform.cluster.World) : Type 0 where
    pub world_kept : run.world ≡ world
    pub history_kept : run.history ≡ history
    pub spec_kept : run.config.spec ≡ spec
    pub none_applied : run.applied_count ≡ 0

  module _ (world : platform.cluster.World) (history : Configs) (spec : OptimizerConfigSpec)
      (dry : spec.dry_run ≡ true) where
    IsStable-IsUntouched : IsStable pl clock (IsUntouched world history spec)
    unfolding apply_container apply update_condition
    IsStable-IsUntouched = record {
      skipping = λ run u. record {
        world_kept = u.world_kept;
        history_kept = u.history_kept;
        spec_kept = u.spec_kept;
        none_applied = u.none_applied;
      };
      marking = λ type reason message run u. record {
        world_kept = u.world_kept;
        history_kept = u.history_kept;
        spec_kept = u.spec_kept;
        none_applied = u.none_applied;
      };
      applying = λ rec run u.
          subst (IsUntouched world history spec)
            (sym (apply_container-dry_run rec run (ap (λ s. s.dry_run) u.spec_kept ∙ dry)))
            (record {
              world_kept = u.world_kept;
              history_kept = u.history_kept;
              spec_kept = u.spec_kept;
              none_applied = u.none_applied;
            });
    }

    finish-IsUntouched :
        (n : ℕ) (run : Run platform.cluster.World)
        → IsUntouched world history spec run
        → IsUntouched world history spec (finish_run pl clock n run)
    unfolding finish_run
    finish-IsUntouched n run u = record {
      world_kept = rw (ap (λ s. s.dry_run) u.spec_kept ∙ dry) u.world_kept;
      history_kept = u.history_kept;
      spec_kept = u.spec_kept;
      none_applied = u.none_applied;
    }

  -- In dry-run mode, whatever is recommended, the processing leaves the cluster, the history of saved
  -- configurations and the spec as they are, and counts nothing as applied.
  pub process_recommendations-IsUntouched :
      (world : platform.cluster.World) (history : Configs) (config : OptimizerConfig)
      → config.spec.dry_run ≡ true
      → IsUntouched world history config.spec
          (process_recommendations pl clock world history config).0
  process_recommendations-IsUntouched world history config dry =
      process_stable pl clock (IsUntouched world history config.spec)
        (IsStable-IsUntouched world history config.spec dry)
        (finish-IsUntouched world history config.spec dry) world history config
        (record { world_kept = refl; history_kept = refl; spec_kept = refl; none_applied = refl })
