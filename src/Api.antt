-- ===== src/Api.antt =====
-- The custom resource, pkg/apis/optimizer/v1alpha1/types.go. Of the metadata only the name and the
-- generation are here. An instant is a number of nanoseconds, and so is a `time.Duration`.
use intelligent_cluster_opti.Prelude.{String, Bool, false, Option, none, List, [], if◌then◌else◌}
use intelligent_cluster_opti.Prelude.Float64.{Float64}
use intelligent_cluster_opti.Prelude.Int.{ℤ, pos, negsuc, ◌-ℤ◌, ltb_ℤ}

abbrev pub Instant : Type 0
Instant = ℤ

abbrev pub Duration : Type 0
Duration = ℤ

-- The zero `time.Time`, the first instant of year 1.
abbrev pub zero_time : Instant
zero_time = negsuc 62_135_596_799_999_999_999

abbrev pub minute : Duration
minute = pos 60_000_000_000

-- `t.Sub(u)`, which stops at the ends of `int64`.
abbrev pub saturate : ℤ → Duration
saturate d =
    if ltb_ℤ (pos 9223372036854775807) d
    then pos 9223372036854775807
    else if ltb_ℤ d (negsuc 9223372036854775807)
    then negsuc 9223372036854775807
    else d

unfoldable pub sub_time : Instant → Instant → Duration
unfolding ◌-ℤ◌
sub_time t u = saturate (t -ℤ u)

-- A `CircuitState` is a string: one of three constants, or anything else, the empty one included.
pub data CircuitState : Type 0 where
  closed opened half_open : CircuitState
  other : String → CircuitState

-- `unset` is the empty string.
pub data OptimizerPhase : Type 0 where
  unset pending active paused circuit_open error : OptimizerPhase

pub data OptimizerConditionType : Type 0 where
  ready maintenance_window hpa_conflict pdb_violation circuit_breaker_open : OptimizerConditionType
  metrics_available : OptimizerConditionType

pub data ConditionStatus : Type 0 where
  condition_true condition_false condition_unknown : ConditionStatus

pub record OptimizerCondition : Type 0 where
  pub type : OptimizerConditionType
  pub status : ConditionStatus
  pub last_transition_time : Instant
  pub reason : String
  pub message : String

pub record CircuitBreakerConfig : Type 0 where
  pub enabled : Bool
  pub error_threshold : ℤ  -- int
  pub success_threshold : ℤ  -- int
  pub timeout : String

pub record MaintenanceWindow : Type 0 where
  pub schedule : String
  pub duration : String
  pub timezone : String

-- Strategies, profiles, policies and formats are strings, which need not be one of the constants.
pub record ProfileOverrides : Type 0 where
  pub min_confidence : Option Float64
  pub max_change_percent : Option Float64
  pub require_approval : Option Bool
  pub apply_delay : String
  pub dry_run : Option Bool

pub record ResourceLimit : Type 0 where
  pub min : String
  pub max : String

pub record ResourceThresholds : Type 0 where
  pub cpu : Option ResourceLimit
  pub memory : Option ResourceLimit

pub record RecommendationConfig : Type 0 where
  pub cpu_percentile : ℤ  -- int
  pub memory_percentile : ℤ  -- int
  pub min_samples : ℤ  -- int
  pub safety_margin : Float64
  pub history_duration : String

pub record RollingUpdateConfig : Type 0 where
  pub max_unavailable : String
  pub max_surge : String

pub record UpdateStrategy : Type 0 where
  pub type : String
  pub rolling_update : Option RollingUpdateConfig

pub record HpaAwareness : Type 0 where
  pub enabled : Bool
  pub conflict_policy : String

pub record PdbAwareness : Type 0 where
  pub enabled : Bool
  pub respect_min_available : Bool

pub record GitRepositoryConfig : Type 0 where
  pub url : String
  pub branch : String
  pub base_branch : String
  pub commit_message : String
  pub auth_secret_name : String
  pub create_pr : Bool
  pub pr_title : String
  pub pr_body : String

pub record GitOpsExportConfig : Type 0 where
  pub enabled : Bool
  pub format : String
  pub output_path : String
  pub auto_commit : Bool
  pub git_repository : Option GitRepositoryConfig

pub record OptimizerConfigSpec : Type 0 where
  pub enabled : Bool
  pub target_namespaces : List String
  pub profile : String
  pub profile_overrides : Option ProfileOverrides
  pub strategy : String
  pub dry_run : Bool
  pub maintenance_windows : List MaintenanceWindow
  pub resource_thresholds : Option ResourceThresholds
  pub recommendations : Option RecommendationConfig
  pub update_strategy : Option UpdateStrategy
  pub hpa_awareness : Option HpaAwareness
  pub pdb_awareness : Option PdbAwareness
  pub circuit_breaker : Option CircuitBreakerConfig
  pub git_ops_export : Option GitOpsExportConfig
  pub target_resources : List String
  pub exclude_workloads : List String

-- The zero value.
abbrev pub empty_spec : OptimizerConfigSpec
empty_spec = record {
  enabled = false;
  target_namespaces = [];
  profile = "";
  profile_overrides = none;
  strategy = "";
  dry_run = false;
  maintenance_windows = [];
  resource_thresholds = none;
  recommendations = none;
  update_strategy = none;
  hpa_awareness = none;
  pdb_awareness = none;
  circuit_breaker = none;
  git_ops_export = none;
  target_resources = [];
  exclude_workloads = [];
}

pub record OptimizerConfigStatus : Type 0 where
  pub phase : OptimizerPhase
  pub observed_generation : ℤ  -- int64
  pub last_recommendation_time : Option Instant
  pub last_update_time : Option Instant
  pub circuit_state : CircuitState
  pub consecutive_errors : ℤ  -- int
  pub consecutive_successes : ℤ  -- int
  pub total_recommendations : ℤ  -- int64
  pub total_updates_applied : ℤ  -- int64
  pub total_updates_failed : ℤ  -- int64
  pub conditions : List OptimizerCondition
  pub active_maintenance_window : Bool
  pub next_maintenance_window : Option Instant

pub record OptimizerConfig : Type 0 where
  pub namespace : String
  pub name : String
  pub generation : ℤ  -- int64
  pub spec : OptimizerConfigSpec
  pub status : OptimizerConfigStatus
