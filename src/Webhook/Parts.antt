-- ===== src/Webhook/Parts.antt =====
-- Each check of the webhook finds no problem exactly if its part of the resource is in order.
use intelligent_cluster_opti.Prelude.{
  ◌≡◌, ◌↔◌, ◌⊎◌, ◌≢◌, refl, String, true, false, not, ◌&&◌, ◌||◌, Option, none, some, List, [], ◌∷◌,
  arith, All, str_eq,
}
use intelligent_cluster_opti.Prelude.Int.{ℤ, pos, ◌≤ℤ◌, ltb_ℤ, eqb_ℤ}
use intelligent_cluster_opti.Prelude.Float64.{Float64, ltb_float, eqb_float, of_ℕ}
use intelligent_cluster_opti.Api.{
  MaintenanceWindow, CircuitBreakerConfig, ProfileOverrides, ResourceLimit, ResourceThresholds,
  RecommendationConfig, RollingUpdateConfig, GitRepositoryConfig, GitOpsExportConfig,
  OptimizerConfig,
}
use intelligent_cluster_opti.Webhook.{
  Environment, Problem, check_each, reject, validate_namespace, validate_target_namespaces,
  validate_duration, validate_overrides, validate_window, validate_resource_limit,
  validate_thresholds, validate_recommendations, validate_int_or_percentage,
  validate_rolling_update, validate_update_strategy, validate_breaker, validate_repository,
  validate_git_ops, validate_pattern, is_outside, is_no_percent,
}
use intelligent_cluster_opti.Webhook.Checks.{
  WhenSome, Gives, then_check_iff, reject_iff, check_each_iff, check_some_iff, skip_iff, when_iff,
  gives_iff, same_iff, refl_iff,
}
use intelligent_cluster_opti.Webhook.Accepted.{
  IsWithin, IsPercent, IsMargin, IsNamespace, IsDuration, IsPositive, IsOverrides, IsWindow,
  IsLimit, IsThresholds, IsRecommendations, IsIntOrPercentage, IsRollingUpdate, IsBreaker,
  IsRepository, IsExport, IsPattern,
}

is_outside-IsWithin : (lo hi v : ℤ) → (is_outside lo hi v ≡ false) ↔ IsWithin lo hi v
is_outside-IsWithin lo hi v = ground arith

is_no_percent-IsPercent : (f : Float64) → (is_no_percent f ≡ false) ↔ IsPercent f
is_no_percent-IsPercent f = ground arith

module _ (e : Environment) where
  open e use {
    Quantity, calendar, parse_quantity, is_less, is_positive, matches, compiles, atoi, cut_percent,
  }

  pub validate_namespace-IsNamespace :
      (ns : String) → (validate_namespace e ns ≡ none) ↔ IsNamespace e ns
  unfolding validate_namespace
  validate_namespace-IsNamespace ns = ground arith

  pub target_namespaces_iff :
      (config : OptimizerConfig)
      → (validate_target_namespaces e config ≡ none)
        ↔ ((config.spec.target_namespaces ≢ []) × All (IsNamespace e) config.spec.target_namespaces)
  unfolding validate_target_namespaces
  target_namespaces_iff config = loop config.spec.target_namespaces
    where
      loop :
          (names : List String)
          → ((elim names [
            | [] ↦ some Problem.no_namespaces
            | ns ∷ rest ↦ check_each (validate_namespace e) (ns ∷ rest)
          ])
              ≡ none)
            ↔ ((names ≢ []) × All (IsNamespace e) names)
      loop [] = (λ h. cc, λ (n, a). absurd (n refl))
      loop (ns ∷ rest) =
          let (f, f') = check_each_iff validate_namespace-IsNamespace (ns ∷ rest) in
          ((λ h. (λ k. cc, f h)), λ (n, a). f' a)

  pub validate_duration-IsDuration :
      (text : String) (format : Problem)
      → (validate_duration e text format none ≡ none) ↔ IsDuration e text
  unfolding validate_duration
  validate_duration-IsDuration text format =
      skip_iff (str_eq text "")
        (gives_iff (calendar.parse_duration text) format (λ d. ground arith))

  pub validate_duration-IsPositive :
      (text : String) (format sign : Problem)
      → (validate_duration e text format (some sign) ≡ none)
        ↔ ((str_eq text "" ≡ true) ⊎ IsPositive e text)
  unfolding validate_duration
  validate_duration-IsPositive text format sign =
      skip_iff (str_eq text "")
        (gives_iff (calendar.parse_duration text) format (λ d. ground arith))

  pub validate_overrides-IsOverrides :
      (o : ProfileOverrides) → (validate_overrides e o ≡ none) ↔ IsOverrides e o
  unfolding validate_overrides
  validate_overrides-IsOverrides o =
      let percent = λ (problem : Problem) (f : Float64).
        reject_iff (is_no_percent f) problem (is_no_percent-IsPercent f) in
      let (f, f') =
        then_check_iff (check_some_iff (percent Problem.confidence_range) o.min_confidence) (
          then_check_iff (check_some_iff (percent Problem.change_range) o.max_change_percent)
            (validate_duration-IsDuration o.apply_delay Problem.delay_format)) in
      (
        λ h. let (a, (b, c)) = f h in record { confidence = a; change = b; delay = c },
        λ v. f' (v.confidence, (v.change, v.delay)),
      )

  pub validate_window-IsWindow :
      (window : MaintenanceWindow) → (validate_window e window ≡ none) ↔ IsWindow e window
  unfolding validate_window
  validate_window-IsWindow window =
      let (f, f') =
        then_check_iff (reject_iff (str_eq window.schedule "") Problem.empty_schedule same_iff) (
          then_check_iff
            (gives_iff (calendar.parse window.schedule) Problem.invalid_schedule (λ s. refl_iff))
            (then_check_iff (reject_iff (str_eq window.duration "") Problem.empty_duration same_iff)
              (then_check_iff
                (gives_iff (calendar.parse_duration window.duration) Problem.duration_format
                  (λ d. ground arith))
                (skip_iff (str_eq window.timezone "" || str_eq window.timezone "UTC") (
                  gives_iff (calendar.load_location window.timezone) Problem.time_zone
                    (λ l. refl_iff)))))) in
      (
        λ h.
            let (a, (b, (c, (d, z)))) = f h in
            record { schedule_set = a; schedule = b; duration_set = c; duration = d; zone = z },
        λ v. f' (v.schedule_set, (v.schedule, (v.duration_set, (v.duration, v.zone)))),
      )

  pub validate_resource_limit-IsLimit :
      (limit : ResourceLimit) → (validate_resource_limit e limit ≡ none) ↔ IsLimit e limit
  unfolding validate_resource_limit
  validate_resource_limit-IsLimit limit =
      gives_iff (parse_quantity limit.min) Problem.limit_min_format
        λ min. gives_iff (parse_quantity limit.max) Problem.limit_max_format λ max. ground arith

  pub validate_thresholds-IsThresholds :
      (t : ResourceThresholds) → (validate_thresholds e t ≡ none) ↔ IsThresholds e t
  unfolding validate_thresholds
  validate_thresholds-IsThresholds t =
      let (f, f') =
        then_check_iff (check_some_iff validate_resource_limit-IsLimit t.cpu)
          (check_some_iff validate_resource_limit-IsLimit t.memory) in
      (λ h. let (a, b) = f h in record { cpu = a; memory = b }, λ v. f' (v.cpu, v.memory))

  pub samples_iff :
      (v : ℤ) → (not (eqb_ℤ v (pos 0)) && ltb_ℤ v (pos 10) ≡ false) ↔ ((v ≡ pos 0) ⊎ (pos 10 ≤ℤ v))
  samples_iff v = ground arith

  pub outside-IsMargin :
      (f : Float64)
      → (not (eqb_float f (of_ℕ 0)) && (ltb_float f (of_ℕ 1) || ltb_float (of_ℕ 3) f) ≡ false)
        ↔ IsMargin f
  outside-IsMargin f = ground arith

  pub validate_recommendations-IsRecommendations :
      (rec : RecommendationConfig)
      → (validate_recommendations e rec ≡ none) ↔ IsRecommendations e rec
  unfolding validate_recommendations
  validate_recommendations-IsRecommendations rec =
      let percentile = λ (problem : Problem) (v : ℤ).
        reject_iff (is_outside (pos 50) (pos 99) v) problem
          (is_outside-IsWithin (pos 50) (pos 99) v) in
      let (f, f') = then_check_iff (percentile Problem.cpu_percentile_range rec.cpu_percentile) (
        then_check_iff (percentile Problem.memory_percentile_range rec.memory_percentile) (
          then_check_iff (reject_iff _ Problem.samples_range (samples_iff rec.min_samples)) (
            then_check_iff (reject_iff _ Problem.margin_range (outside-IsMargin rec.safety_margin))
              (validate_duration-IsPositive rec.history_duration Problem.history_format
                Problem.history_sign)))) in
      (
        λ h.
            let (a, (b, (c, (d, t)))) = f h in
            record {
              cpu_percentile = a;
              memory_percentile = b;
              min_samples = c;
              margin = d;
              history = t;
            },
        λ v. f' (v.cpu_percentile, (v.memory_percentile, (v.min_samples, (v.margin, v.history)))),
      )

  pub validate_int_or_percentage-IsIntOrPercentage :
      (value : String) → (validate_int_or_percentage e value ≡ none) ↔ IsIntOrPercentage e value
  unfolding validate_int_or_percentage
  validate_int_or_percentage-IsIntOrPercentage value = cut_iff (cut_percent value)
    where
      cut_iff :
          (cut : Option String)
          → ((elim cut [
            | some text ↦ elim (atoi text) [
              | none ↦ some Problem.percentage_format
              | some n ↦ reject (ltb_ℤ n (pos 0) || ltb_ℤ (pos 100) n) Problem.percentage_range
            ]
            | none ↦ elim (atoi value) [
              | none ↦ some Problem.count_format
              | some n ↦ reject (ltb_ℤ n (pos 0)) Problem.count_sign
            ]
          ])
              ≡ none)
            ↔ (elim cut [
              | some text ↦ Gives (atoi text) (λ n. (pos 0 ≤ℤ n) × (n ≤ℤ pos 100))
              | none ↦ Gives (atoi value) (λ n. pos 0 ≤ℤ n)
            ])
      cut_iff none = gives_iff (atoi value) Problem.count_format (λ k. ground arith)
      cut_iff (some text) = gives_iff (atoi text) Problem.percentage_format (λ k. ground arith)

  pub validate_rolling_update-IsRollingUpdate :
      (r : RollingUpdateConfig) → (validate_rolling_update e r ≡ none) ↔ IsRollingUpdate e r
  unfolding validate_rolling_update
  validate_rolling_update-IsRollingUpdate r =
      let (f, f') =
        then_check_iff
          (skip_iff (str_eq r.max_unavailable "")
            (validate_int_or_percentage-IsIntOrPercentage r.max_unavailable))
          (skip_iff (str_eq r.max_surge "")
            (validate_int_or_percentage-IsIntOrPercentage r.max_surge)) in
      (
        λ h. let (a, b) = f h in record { unavailable = a; surge = b },
        λ v. f' (v.unavailable, v.surge),
      )

  pub update_strategy_iff :
      (config : OptimizerConfig)
      → (validate_update_strategy e config ≡ none)
        ↔ WhenSome
            (λ strategy. WhenSome (IsRollingUpdate e) strategy.rolling_update)
            config.spec.update_strategy
  unfolding validate_update_strategy
  update_strategy_iff config =
      check_some_iff
        (λ strategy. check_some_iff validate_rolling_update-IsRollingUpdate strategy.rolling_update)
        config.spec.update_strategy

  pub validate_breaker-IsBreaker :
      (cb : CircuitBreakerConfig) → (validate_breaker e cb ≡ none) ↔ IsBreaker e cb
  unfolding validate_breaker
  validate_breaker-IsBreaker cb =
      let (f, f') =
        then_check_iff
          (reject_iff _ Problem.error_threshold_range
            (is_outside-IsWithin (pos 1) (pos 20) cb.error_threshold))
          (then_check_iff
            (reject_iff _ Problem.success_threshold_range
              (is_outside-IsWithin (pos 1) (pos 10) cb.success_threshold))
            (validate_duration-IsPositive cb.timeout Problem.timeout_format
              Problem.timeout_sign)) in
      (
        λ h. let (a, (b, c)) = f h in record { errors = a; successes = b; timeout = c },
        λ v. f' (v.errors, (v.successes, v.timeout)),
      )

  pub validate_repository-IsRepository :
      (repo : GitRepositoryConfig) → (validate_repository e repo ≡ none) ↔ IsRepository e repo
  unfolding validate_repository
  validate_repository-IsRepository repo = ground arith

  pub validate_git_ops-IsExport :
      (g : GitOpsExportConfig) → (validate_git_ops e g ≡ none) ↔ IsExport e g
  unfolding validate_git_ops
  validate_git_ops-IsExport g = skip_iff (not g.enabled) (
      then_check_iff (reject_iff (str_eq g.output_path "") Problem.no_output_path same_iff) (
        when_iff g.auto_commit
          (gives_iff g.git_repository Problem.no_repository validate_repository-IsRepository)))

  pub validate_pattern-IsPattern :
      (pattern : String) → (validate_pattern e pattern ≡ none) ↔ IsPattern e pattern
  unfolding validate_pattern
  validate_pattern-IsPattern pattern = ground arith
