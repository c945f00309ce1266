-- ===== src/Controller/Gates.antt =====
-- The gates of `Reconcile`: when nothing is processed, and when the resource is looked at again.
use intelligent_cluster_opti.Prelude.{
  ℕ, ◌≡◌, refl, ◌∙◌, ◌⊎◌, inl, inr, Bool, true, false, some, arith, Bool-cases,
}
use intelligent_cluster_opti.Prelude.Int.{pos, ◌≤ℤ◌, ◌<ℤ◌}
use intelligent_cluster_opti.Api.{Instant, OptimizerConfig}
use intelligent_cluster_opti.Safety.CircuitBreaker.{should_allow}
use intelligent_cluster_opti.Scheduler.{Calendar, is_in_maintenance_window}
use intelligent_cluster_opti.Controller.{
  ReconcileResult, Process, is_unset, when_active, is_outside, mark_window, requeue_outside,
  reconcile_live, reconcile_window, reconcile, thirty_minutes,
}

module _ (c : Calendar) where
  -- Disabled, not yet initialised, refused by the breaker, or live and outside every window.
  abbrev pub IsGated : ℕ → (ℕ → Instant) → OptimizerConfig → Type 0
  IsGated fuel clock config =
      (config.spec.enabled ≡ false)
      ⊎ (is_unset config.status.phase ≡ true)
      ⊎ ((when_active (should_allow c.parse_duration (clock 0)) true config).1 ≡ false)
      ⊎ ((is_in_maintenance_window c fuel (clock 1) config ≡ some false)
          × (is_outside false config ≡ true))

  mark_outside :
      (clock : ℕ → Instant) (in_window : Bool) (config : OptimizerConfig)
      → is_outside in_window (mark_window c clock in_window config) ≡ is_outside in_window config
  unfolding mark_window
  mark_outside clock in_window config = refl

  mark_counters :
      (clock : ℕ → Instant) (in_window : Bool) (config : OptimizerConfig)
      → let after = mark_window c clock in_window config in
        (after.status.total_updates_applied ≡ config.status.total_updates_applied)
        × (after.status.total_updates_failed ≡ config.status.total_updates_failed)
        × (after.status.total_recommendations ≡ config.status.total_recommendations)
  unfolding mark_window
  mark_counters clock in_window config = (refl, refl, refl)

  window_gated :
      (p : Process) (clock : ℕ → Instant) (config : OptimizerConfig)
      → is_outside false config ≡ true
      → reconcile_window c p clock false config ≡ (
        mark_window c clock false config,
        record {
          requeue_after = requeue_outside (clock 4) (mark_window c clock false config);
          updated = true;
        },
      )
  unfolding reconcile_window
  window_gated p clock config o = ground (arith, mark_outside clock false config)

  allow_kept :
      (now : Instant) (config : OptimizerConfig)
      → let after = (when_active (should_allow c.parse_duration now) true config).0 in
        (after.spec ≡ config.spec)
        × (after.status.total_updates_applied ≡ config.status.total_updates_applied)
        × (after.status.total_updates_failed ≡ config.status.total_updates_failed)
        × (after.status.total_recommendations ≡ config.status.total_recommendations)
  unfolding should_allow
  allow_kept now config = ground arith

  in_window_kept :
      (fuel : ℕ) (now : Instant) (a b : OptimizerConfig)
      → a.spec ≡ b.spec
      → is_in_maintenance_window c fuel now a ≡ is_in_maintenance_window c fuel now b
  unfolding is_in_maintenance_window
  in_window_kept fuel now a b e = rw e

  gated_same :
      (fuel : ℕ) (clock : ℕ → Instant) (config : OptimizerConfig) (p q : Process)
      → IsGated fuel clock config
      → reconcile c p fuel clock config ≡ reconcile c q fuel clock config
  unfolding reconcile
  gated_same fuel clock config p q g =
      let config' = (when_active (should_allow c.parse_duration (clock 0)) true config).0 in
      ground (
        arith,
        allow_kept (clock 0) config,
        in_window_kept fuel (clock 1) config' config,
        window_gated p clock config',
        window_gated q clock config',
      )

  gated_counters :
      (fuel : ℕ) (clock : ℕ → Instant) (config : OptimizerConfig) (p : Process)
      {after : OptimizerConfig} {result : ReconcileResult}
      → IsGated fuel clock config
      → reconcile c p fuel clock config ≡ some (after, result)
      → (after.status.total_updates_applied ≡ config.status.total_updates_applied)
        × (after.status.total_updates_failed ≡ config.status.total_updates_failed)
        × (after.status.total_recommendations ≡ config.status.total_recommendations)
  unfolding reconcile
  gated_counters fuel clock config p g e =
      let config' = (when_active (should_allow c.parse_duration (clock 0)) true config).0 in
      ground (
        arith,
        allow_kept (clock 0) config,
        in_window_kept fuel (clock 1) config' config,
        window_gated p clock config',
        mark_counters clock false config',
      )

  -- A resource that is disabled, not yet initialised, refused by its breaker, or live and outside every
  -- maintenance window is not processed: two reconciliations that differ in what processing does have
  -- the same outcome, and the counters of updates and of recommendations stay as they are.
  pub reconcile_gated :
      (fuel : ℕ) (clock : ℕ → Instant) (config : OptimizerConfig) (p q : Process)
      {after : OptimizerConfig} {result : ReconcileResult}
      → IsGated fuel clock config
      → reconcile c p fuel clock config ≡ some (after, result)
      → (reconcile c q fuel clock config ≡ some (after, result))
        × (after.status.total_updates_applied ≡ config.status.total_updates_applied)
        × (after.status.total_updates_failed ≡ config.status.total_updates_failed)
        × (after.status.total_recommendations ≡ config.status.total_recommendations)
  reconcile_gated fuel clock config p q g e =
      let (a, f, r) = gated_counters fuel clock config p g e in
      (gated_same fuel clock config q p g ∙ e, a, f, r)

  outside_bounds :
      (now : Instant) (config : OptimizerConfig)
      → (pos 0 <ℤ requeue_outside now config) × (requeue_outside now config ≤ℤ thirty_minutes)
  unfolding requeue_outside
  outside_bounds now config = ground arith

  window_requeue :
      (p : Process) (clock : ℕ → Instant) (in_window : Bool) (config : OptimizerConfig)
      → let (after, result) = reconcile_window c p clock in_window config in
        (pos 0 <ℤ result.requeue_after) × (result.requeue_after ≤ℤ thirty_minutes)
  unfolding reconcile_window reconcile_live
  window_requeue p clock in_window config =
      elim (Bool-cases (is_outside in_window (mark_window c clock in_window config))) [
        | inl out ↦ rw out (outside_bounds (clock 4) (mark_window c clock in_window config))
        | inr live ↦ rw live (omega arith)
      ]

  -- The reconciliation of an enabled resource whose phase is set asks for the next one after a time
  -- that is positive and at most thirty minutes.
  pub reconcile_requeue :
      (fuel : ℕ) (clock : ℕ → Instant) (config : OptimizerConfig) (p : Process)
      {after : OptimizerConfig} {result : ReconcileResult}
      → config.spec.enabled ≡ true
      → is_unset config.status.phase ≡ false
      → reconcile c p fuel clock config ≡ some (after, result)
      → (pos 0 <ℤ result.requeue_after) × (result.requeue_after ≤ℤ thirty_minutes)
  unfolding reconcile
  reconcile_requeue fuel clock config p on started e =
      let config' = (when_active (should_allow c.parse_duration (clock 0)) true config).0 in
      ground (arith, window_requeue p clock true config', window_requeue p clock false config')
