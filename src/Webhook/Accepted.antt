-- ===== src/Webhook/Accepted.antt =====
-- What a resource is like that the webhook accepts, said without the order of the checks.
use intelligent_cluster_opti.Prelude.{
  ◌≡◌, ◌⊎◌, ◌≢◌, String, true, false, not, ◌&&◌, ◌||◌, none, some, [], All, str_eq,
}
use intelligent_cluster_opti.Prelude.Int.{ℤ, pos, ◌≤ℤ◌, ◌<ℤ◌}
use intelligent_cluster_opti.Prelude.Float64.{Float64, ltb_float, eqb_float, of_ℕ}
use intelligent_cluster_opti.Api.{
  MaintenanceWindow, CircuitBreakerConfig, ProfileOverrides, ResourceLimit, ResourceThresholds,
  RecommendationConfig, RollingUpdateConfig, GitRepositoryConfig, GitOpsExportConfig,
  OptimizerConfig,
}
use intelligent_cluster_opti.Webhook.{Environment, namespace_pattern, url_pattern}
use intelligent_cluster_opti.Webhook.Checks.{WhenSome, Gives}

-- Zero, which stands for the default, or from `lo` to `hi`.
abbrev pub IsWithin : ℤ → ℤ → ℤ → Type 0
IsWithin lo hi v = (v ≡ pos 0) ⊎ ((lo ≤ℤ v) × (v ≤ℤ hi))

-- Neither below 0 nor above 100.
abbrev pub IsPercent : Float64 → Type 0
IsPercent f = (ltb_float f (of_ℕ 0) ≡ false) × (ltb_float (of_ℕ 100) f ≡ false)

abbrev pub IsMargin : Float64 → Type 0
IsMargin f =
    (eqb_float f (of_ℕ 0) ≡ true)
    ⊎ ((ltb_float f (of_ℕ 1) ≡ false) × (ltb_float (of_ℕ 3) f ≡ false))

module _ (e : Environment) where
  open e use {
    Quantity, calendar, parse_quantity, is_less, is_positive, matches, compiles, atoi, cut_percent,
  }

  abbrev pub IsNamespace : String → Type 0
  IsNamespace ns = (str_eq ns "" ≡ false) × (matches namespace_pattern ns ≡ true)

  -- Left out, or a duration.
  abbrev pub IsDuration : String → Type 0
  IsDuration text = (str_eq text "" ≡ true) ⊎ Gives (calendar.parse_duration text) (λ d. Unit {0})

  -- A positive duration.
  abbrev pub IsPositive : String → Type 0
  IsPositive text = Gives (calendar.parse_duration text) (λ d. pos 0 <ℤ d)

  abbrev pub IsZone : String → Type 0
  IsZone zone =
      (str_eq zone "" || str_eq zone "UTC" ≡ true)
      ⊎ Gives (calendar.load_location zone) (λ l. Unit {0})

  pub record IsOverrides (o : ProfileOverrides) : Type 0 where
    pub confidence : WhenSome IsPercent o.min_confidence
    pub change : WhenSome IsPercent o.max_change_percent
    pub delay : IsDuration o.apply_delay

  pub record IsWindow (window : MaintenanceWindow) : Type 0 where
    pub schedule_set : str_eq window.schedule "" ≡ false
    pub schedule : Gives (calendar.parse window.schedule) (λ s. Unit {0})
    pub duration_set : str_eq window.duration "" ≡ false
    pub duration : IsPositive window.duration
    pub zone : IsZone window.timezone

  -- From a positive minimum to a greater maximum.
  abbrev pub IsLimit : ResourceLimit → Type 0
  IsLimit limit = Gives (parse_quantity limit.min) λ min.
      Gives (parse_quantity limit.max) λ max. (is_less min max ≡ true) × (is_positive min ≡ true)

  pub record IsThresholds (t : ResourceThresholds) : Type 0 where
    pub cpu : WhenSome IsLimit t.cpu
    pub memory : WhenSome IsLimit t.memory

  pub record IsRecommendations (rec : RecommendationConfig) : Type 0 where
    pub cpu_percentile : IsWithin (pos 50) (pos 99) rec.cpu_percentile
    pub memory_percentile : IsWithin (pos 50) (pos 99) rec.memory_percentile
    pub min_samples : (rec.min_samples ≡ pos 0) ⊎ (pos 10 ≤ℤ rec.min_samples)
    pub margin : IsMargin rec.safety_margin
    pub history : (str_eq rec.history_duration "" ≡ true) ⊎ IsPositive rec.history_duration

  -- A number of percent up to 100, or a number that is not negative.
  abbrev pub IsIntOrPercentage : String → Type 0
  IsIntOrPercentage value = elim (cut_percent value) [
    | some text ↦ Gives (atoi text) (λ n. (pos 0 ≤ℤ n) × (n ≤ℤ pos 100))
    | none ↦ Gives (atoi value) (λ n. pos 0 ≤ℤ n)
  ]

  pub record IsRollingUpdate (r : RollingUpdateConfig) : Type 0 where
    pub unavailable : (str_eq r.max_unavailable "" ≡ true) ⊎ IsIntOrPercentage r.max_unavailable
    pub surge : (str_eq r.max_surge "" ≡ true) ⊎ IsIntOrPercentage r.max_surge

  pub record IsBreaker (cb : CircuitBreakerConfig) : Type 0 where
    pub errors : IsWithin (pos 1) (pos 20) cb.error_threshold
    pub successes : IsWithin (pos 1) (pos 10) cb.success_threshold
    pub timeout : (str_eq cb.timeout "" ≡ true) ⊎ IsPositive cb.timeout

  pub record IsRepository (repo : GitRepositoryConfig) : Type 0 where
    pub url_set : str_eq repo.url "" ≡ false
    pub url : matches url_pattern repo.url ≡ true
    pub title : repo.create_pr && str_eq repo.pr_title "" ≡ false

  -- Disabled, or with an output path; and with a repository where the export commits.
  abbrev pub IsExport : GitOpsExportConfig → Type 0
  IsExport g =
      (not g.enabled ≡ true)
      ⊎ ((str_eq g.output_path "" ≡ false)
          × ((g.auto_commit ≡ false) ⊎ Gives g.git_repository IsRepository))

  abbrev pub IsPattern : String → Type 0
  IsPattern pattern = (str_eq pattern "" ≡ false) × (compiles pattern ≡ true)

  pub record IsAccepted (config : OptimizerConfig) : Type 0 where
    pub some_namespace : config.spec.target_namespaces ≢ []
    pub namespaces : All IsNamespace config.spec.target_namespaces
    pub overrides : WhenSome IsOverrides config.spec.profile_overrides
    pub windows : All IsWindow config.spec.maintenance_windows
    pub thresholds : WhenSome IsThresholds config.spec.resource_thresholds
    pub recommendations : WhenSome IsRecommendations config.spec.recommendations
    pub rolling_update :
        WhenSome
          (λ strategy. WhenSome IsRollingUpdate strategy.rolling_update)
          config.spec.update_strategy
    pub breaker : WhenSome IsBreaker config.spec.circuit_breaker
    pub export : WhenSome IsExport config.spec.git_ops_export
    pub excluded : All IsPattern config.spec.exclude_workloads
