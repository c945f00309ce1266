-- ===== src/Webhook/Decides.antt =====
-- The webhook accepts exactly the resources that are in order.
use intelligent_cluster_opti.Prelude.{◌≡◌, ◌↔◌, refl, none}
use intelligent_cluster_opti.Api.{OptimizerConfig}
use intelligent_cluster_opti.Webhook.{
  Environment, validate_profile, validate_maintenance_windows, validate_resource_thresholds,
  validate_recommendation_config, validate_circuit_breaker, validate_git_ops_export,
  validate_exclude_workloads, validate_create, validate_update,
}
use intelligent_cluster_opti.Webhook.Checks.{then_check_iff, check_each_iff, check_some_iff}
use intelligent_cluster_opti.Webhook.Accepted.{IsAccepted}
use intelligent_cluster_opti.Webhook.Parts.{
  target_namespaces_iff, validate_overrides-IsOverrides, validate_window-IsWindow,
  validate_thresholds-IsThresholds, validate_recommendations-IsRecommendations, update_strategy_iff,
  validate_breaker-IsBreaker, validate_git_ops-IsExport, validate_pattern-IsPattern,
}

module _ (e : Environment) where
  -- The webhook accepts a resource, on its creation and on its update alike, exactly if it names a
  -- namespace and all of its parts are in order: the names, patterns, durations, schedules, time zones,
  -- quantities and URLs can be read, the numbers are in their ranges, and what an enabled export needs
  -- is there.
  pub validate_create-IsAccepted :
      (config old_config : OptimizerConfig)
      → ((validate_create e config ≡ none) ↔ IsAccepted e config)
        × (validate_update e old_config config ≡ validate_create e config)
  unfolding validate_create validate_profile validate_maintenance_windows
      validate_resource_thresholds validate_recommendation_config validate_circuit_breaker
      validate_git_ops_export validate_exclude_workloads validate_update
  validate_create-IsAccepted config old_config =
      let spec = config.spec in
      let (f, f') = then_check_iff (target_namespaces_iff e config) (
        then_check_iff (check_some_iff (validate_overrides-IsOverrides e) spec.profile_overrides) (
          then_check_iff (check_each_iff (validate_window-IsWindow e) spec.maintenance_windows) (
            then_check_iff
              (check_some_iff (validate_thresholds-IsThresholds e) spec.resource_thresholds)
              (then_check_iff
                (check_some_iff (validate_recommendations-IsRecommendations e) spec.recommendations)
                (then_check_iff (update_strategy_iff e config) (
                  then_check_iff
                    (check_some_iff (validate_breaker-IsBreaker e) spec.circuit_breaker)
                    (then_check_iff
                      (check_some_iff (validate_git_ops-IsExport e) spec.git_ops_export)
                      (check_each_iff (validate_pattern-IsPattern e)
                        spec.exclude_workloads)))))))) in
      (
        (
          λ h.
              let ((n, a), (o, (w, (t, (r, (u, (b, (g, x)))))))) = f h in
              record {
                some_namespace = n;
                namespaces = a;
                overrides = o;
                windows = w;
                thresholds = t;
                recommendations = r;
                rolling_update = u;
                breaker = b;
                export = g;
                excluded = x;
              },
          λ v. f' (
            (v.some_namespace, v.namespaces),
            (
              v.overrides,
              (
                v.windows,
                (
                  v.thresholds,
                  (v.recommendations, (v.rolling_update, (v.breaker, (v.export, v.excluded)))),
                ),
              ),
            ),
          ),
        ),
        refl,
      )
