-- ===== src/Webhook.antt =====
-- pkg/webhook/validator.go: the validation of an OptimizerConfig before it is stored. A method answers
-- with the first problem that it finds, or `none`. What the package takes from others is the record
-- `Environment`: cron, time zones and durations (`Calendar`), quantities, regular expressions, and the
-- conversion of texts. The texts of the errors are left out, but for the fields they are about.
pub mod Checks
pub mod Accepted
mod Parts
pub mod Decides
mod Consequences
pub mod Tests
use intelligent_cluster_opti.Prelude.{
  String, Bool, true, false, not, ◌&&◌, ◌||◌, Option, none, some, List, [], ◌∷◌, if◌then◌else◌,
  str_eq,
}
use intelligent_cluster_opti.Prelude.Int.{ℤ, pos, ltb_ℤ, leb_ℤ, eqb_ℤ}
use intelligent_cluster_opti.Prelude.Float64.{Float64, ltb_float, eqb_float, of_ℕ}
use intelligent_cluster_opti.Api.{
  MaintenanceWindow, CircuitBreakerConfig, ProfileOverrides, ResourceLimit, ResourceThresholds,
  RecommendationConfig, RollingUpdateConfig, GitRepositoryConfig, GitOpsExportConfig,
  OptimizerConfig,
}
use intelligent_cluster_opti.Scheduler.{Calendar}

-- What an error is about.
pub data Problem : Type 0 where
  no_namespaces empty_namespace invalid_namespace : Problem
  confidence_range change_range delay_format : Problem
  empty_schedule invalid_schedule empty_duration duration_format duration_sign time_zone : Problem
  limit_min_format limit_max_format limit_order limit_sign : Problem
  cpu_percentile_range memory_percentile_range samples_range margin_range : Problem
  history_format history_sign : Problem
  percentage_format percentage_range count_format count_sign : Problem
  error_threshold_range success_threshold_range timeout_format timeout_sign : Problem
  no_output_path no_repository no_url url_format no_pr_title : Problem
  empty_pattern invalid_pattern : Problem

pub record Environment : Type 1 where
  pub calendar : Calendar
  pub Quantity : Type 0
  pub parse_quantity : String → Option Quantity
  -- `a.Cmp(b) < 0`, and `a.Sign() > 0`
  pub is_less : Quantity → Quantity → Bool
  pub is_positive : Quantity → Bool
  -- `regexp.MustCompile(pattern).MatchString(text)`, and whether a pattern compiles.
  pub matches : String → String → Bool
  pub compiles : String → Bool
  -- `strconv.Atoi`, and the text before a final "%".
  pub atoi : String → Option ℤ
  pub cut_percent : String → Option String

-- `if bad { return problem }`
abbrev pub reject : Bool → Problem → Option Problem
reject bad problem = if bad then some problem else none

-- `if err := first; err != nil { return err }`, and the rest.
infixr 20 ◌then_check◌
abbrev pub ◌then_check◌ : Option Problem → Option Problem → Option Problem
some problem then_check rest = some problem
none then_check rest = rest

-- Every element in turn.
pub check_each : {A : Type 0} → (A → Option Problem) → List A → Option Problem
check_each check [] = none
check_each check (x ∷ xs) = check x then_check check_each check xs

abbrev pub check_some : {A : Type 0} → (A → Option Problem) → Option A → Option Problem
check_some check none = none
check_some check (some a) = check a

-- `v != 0 && (v < lo || v > hi)`
abbrev pub is_outside : ℤ → ℤ → ℤ → Bool
is_outside lo hi v = not (eqb_ℤ v (pos 0)) && (ltb_ℤ v lo || ltb_ℤ hi v)

abbrev pub is_no_percent : Float64 → Bool
is_no_percent f = ltb_float f (of_ℕ 0) || ltb_float (of_ℕ 100) f

abbrev pub namespace_pattern : String
namespace_pattern = "^[a-z0-9]([-a-z0-9]*[a-z0-9])?$"

abbrev pub url_pattern : String
url_pattern = "^(https?://|git@)[\\w\\-.]+(:\\d+)?(/|:)[\\w\\-./]+\\.git$"

module _ (e : Environment) where
  open e use {calendar, parse_quantity, is_less, is_positive, matches, compiles, atoi, cut_percent}

  unfoldable pub validate_namespace : String → Option Problem
  validate_namespace ns =
      reject (str_eq ns "") empty_namespace
      then_check reject (not (matches namespace_pattern ns)) invalid_namespace

  unfoldable pub validate_target_namespaces : OptimizerConfig → Option Problem
  validate_target_namespaces config = elim config.spec.target_namespaces [
    | [] ↦ some no_namespaces
    | ns ∷ rest ↦ check_each validate_namespace (ns ∷ rest)
  ]

  -- A duration that may be missing: is it one, and if `sign` asks so, is it positive?
  unfoldable pub validate_duration : String → Problem → Option Problem → Option Problem
  validate_duration text format sign =
      if str_eq text "" then none else elim (calendar.parse_duration text) [
        | none ↦ some format
        | some d ↦ if leb_ℤ d (pos 0) then sign else none
      ]

  unfoldable pub validate_overrides : ProfileOverrides → Option Problem
  unfolding validate_duration
  validate_overrides o =
      check_some (λ c. reject (is_no_percent c) confidence_range) o.min_confidence
      then_check check_some (λ c. reject (is_no_percent c) change_range) o.max_change_percent
      then_check validate_duration o.apply_delay delay_format none

  unfoldable pub validate_profile : OptimizerConfig → Option Problem
  validate_profile config = check_some validate_overrides config.spec.profile_overrides

  -- The body of the loop over the windows.
  unfoldable pub validate_window : MaintenanceWindow → Option Problem
  validate_window window =
      reject (str_eq window.schedule "") empty_schedule
      then_check (elim (calendar.parse window.schedule) [
        | none ↦ some invalid_schedule
        | some _ ↦ none
      ])
      then_check reject (str_eq window.duration "") empty_duration
      then_check (elim (calendar.parse_duration window.duration) [
        | none ↦ some duration_format
        | some d ↦ reject (leb_ℤ d (pos 0)) duration_sign
      ])
      then_check (if str_eq window.timezone "" || str_eq window.timezone "UTC"
          then none
          else elim (calendar.load_location window.timezone) [
            | none ↦ some time_zone
            | some _ ↦ none
          ])

  unfoldable pub validate_maintenance_windows : OptimizerConfig → Option Problem
  validate_maintenance_windows config = check_each validate_window config.spec.maintenance_windows

  unfoldable pub validate_resource_limit : ResourceLimit → Option Problem
  validate_resource_limit limit = elim (parse_quantity limit.min) [
    | none ↦ some limit_min_format
    | some min ↦ elim (parse_quantity limit.max) [
      | none ↦ some limit_max_format
      | some max ↦
          reject (not (is_less min max)) limit_order
          then_check reject (not (is_positive min)) limit_sign
    ]
  ]

  unfoldable pub validate_thresholds : ResourceThresholds → Option Problem
  validate_thresholds t =
      check_some validate_resource_limit t.cpu
      then_check check_some validate_resource_limit t.memory

  unfoldable pub validate_resource_thresholds : OptimizerConfig → Option Problem
  validate_resource_thresholds config =
      check_some validate_thresholds config.spec.resource_thresholds

  unfoldable pub validate_recommendations : RecommendationConfig → Option Problem
  unfolding validate_duration
  validate_recommendations rec =
      reject (is_outside (pos 50) (pos 99) rec.cpu_percentile) cpu_percentile_range
      then_check reject (is_outside (pos 50) (pos 99) rec.memory_percentile) memory_percentile_range
      then_check reject (not (eqb_ℤ rec.min_samples (pos 0)) && ltb_ℤ rec.min_samples (pos 10))
          samples_range
      then_check reject
          (not (eqb_float rec.safety_margin (of_ℕ 0))
            && (ltb_float rec.safety_margin (of_ℕ 1) || ltb_float (of_ℕ 3) rec.safety_margin))
          margin_range
      then_check validate_duration rec.history_duration history_format (some history_sign)

  unfoldable pub validate_recommendation_config : OptimizerConfig → Option Problem
  validate_recommendation_config config =
      check_some validate_recommendations config.spec.recommendations

  unfoldable pub validate_int_or_percentage : String → Option Problem
  validate_int_or_percentage value = elim (cut_percent value) [
    | some text ↦ elim (atoi text) [
      | none ↦ some percentage_format
      | some n ↦ reject (ltb_ℤ n (pos 0) || ltb_ℤ (pos 100) n) percentage_range
    ]
    | none ↦ elim (atoi value) [
      | none ↦ some count_format
      | some n ↦ reject (ltb_ℤ n (pos 0)) count_sign
    ]
  ]

  unfoldable pub validate_rolling_update : RollingUpdateConfig → Option Problem
  validate_rolling_update r =
      (if str_eq r.max_unavailable "" then none else validate_int_or_percentage r.max_unavailable)
      then_check (if str_eq r.max_surge "" then none else validate_int_or_percentage r.max_surge)

  unfoldable pub validate_update_strategy : OptimizerConfig → Option Problem
  validate_update_strategy config = elim config.spec.update_strategy [
    | none ↦ none
    | some strategy ↦ check_some validate_rolling_update strategy.rolling_update
  ]

  unfoldable pub validate_breaker : CircuitBreakerConfig → Option Problem
  unfolding validate_duration
  validate_breaker cb =
      reject (is_outside (pos 1) (pos 20) cb.error_threshold) error_threshold_range
      then_check reject (is_outside (pos 1) (pos 10) cb.success_threshold) success_threshold_range
      then_check validate_duration cb.timeout timeout_format (some timeout_sign)

  unfoldable pub validate_circuit_breaker : OptimizerConfig → Option Problem
  validate_circuit_breaker config = check_some validate_breaker config.spec.circuit_breaker

  unfoldable pub validate_repository : GitRepositoryConfig → Option Problem
  validate_repository repo =
      reject (str_eq repo.url "") no_url
      then_check reject (not (matches url_pattern repo.url)) url_format
      then_check reject (repo.create_pr && str_eq repo.pr_title "") no_pr_title

  unfoldable pub validate_git_ops : GitOpsExportConfig → Option Problem
  validate_git_ops g =
      if not g.enabled
      then none
      else reject (str_eq g.output_path "") no_output_path
        then_check (if g.auto_commit
            then elim g.git_repository [
              | none ↦ some no_repository
              | some repo ↦ validate_repository repo
            ]
            else none)

  unfoldable pub validate_git_ops_export : OptimizerConfig → Option Problem
  validate_git_ops_export config = check_some validate_git_ops config.spec.git_ops_export

  unfoldable pub validate_pattern : String → Option Problem
  validate_pattern pattern =
      reject (str_eq pattern "") empty_pattern
      then_check reject (not (compiles pattern)) invalid_pattern

  unfoldable pub validate_exclude_workloads : OptimizerConfig → Option Problem
  validate_exclude_workloads config = check_each validate_pattern config.spec.exclude_workloads

  unfoldable pub validate_create : OptimizerConfig → Option Problem
  validate_create config =
      validate_target_namespaces config
      then_check validate_profile config
      then_check validate_maintenance_windows config
      then_check validate_resource_thresholds config
      then_check validate_recommendation_config config
      then_check validate_update_strategy config
      then_check validate_circuit_breaker config
      then_check validate_git_ops_export config
      then_check validate_exclude_workloads config

  unfoldable pub validate_update : OptimizerConfig → OptimizerConfig → Option Problem
  validate_update old_config new_config = validate_create new_config

  unfoldable pub validate_delete : OptimizerConfig → Option Problem
  validate_delete config = none
