-- ===== src/Profile/Resolver.antt =====
-- pkg/profile/resolver.go: the settings that are in force for a resource. `time.ParseDuration` and
-- `fmt.Sscanf` are the record `Scanner`.
use intelligent_cluster_opti.Prelude.{
  ℕ, suc, ◌-◌, ◌*◌, String, Bool, true, false, not, ◌&&◌, Option, none, some, if◌then◌else◌, str_eq,
}
use intelligent_cluster_opti.Prelude.Int.{ℤ, pos, negsuc, wrap64}
use intelligent_cluster_opti.Prelude.Float64.{
  Float64, ltb_float, of_ℕ, of_mantissa, scale_float, to_int64,
}
use intelligent_cluster_opti.Prelude.Dict.{Dict}
use intelligent_cluster_opti.Api.{
  Duration, ProfileOverrides, ResourceLimit, ResourceThresholds, RecommendationConfig,
  CircuitBreakerConfig, OptimizerConfigSpec, OptimizerConfig,
}
use intelligent_cluster_opti.Profile.{
  ProfileSettings, Profile, hours, get_profile, over, over_float,
}

pub record Scanner : Type 0 where
  pub parse_duration : String → Option Duration
  -- `fmt.Sscanf(text, format, &value)` with one verb, "%d" into an `int64`.
  pub scan_int : String → String → Option ℤ
  -- `fmt.Sscanf(text, "%f", &value)`
  pub scan_float : String → Option Float64
  -- What the conversion of a float to `int64` gives out of range.
  pub unrepresentable : ℤ

pub record ResolvedSettings : Type 0 where
  pub profile_name : String
  pub strategy : String
  pub cpu_percentile : ℤ  -- int
  pub memory_percentile : ℤ  -- int
  pub safety_margin : Float64
  pub min_samples : ℤ  -- int
  pub history_duration : Duration
  pub min_confidence : Float64
  pub apply_delay : Duration
  pub max_change_percent : Float64
  pub require_approval : Bool
  pub dry_run : Bool
  pub rollback_on_error : Bool
  pub circuit_breaker_enabled : Bool
  pub circuit_breaker_threshold : ℤ  -- int
  pub min_cpu_millicores : ℤ  -- int64
  pub min_memory_megabytes : ℤ  -- int64
  pub max_cpu_millicores : ℤ  -- int64
  pub max_memory_megabytes : ℤ  -- int64

-- `k * v` in `int64`, for a positive constant `k`.
unfoldable pub scale64 : ℕ → ℤ → ℤ
scale64 k (pos n) = wrap64 (pos (k * n))
scale64 k (negsuc n) = wrap64 (negsuc (k * suc n - 1))

-- `field`, unless there is a value.
abbrev pub or_else : {A : Type 0} → Option A → A → A
or_else none field = field
or_else (some v) field = v

module _ (sc : Scanner) where
  open sc use {parse_duration, scan_int, scan_float, unrepresentable}

  -- `if text != "" { if d, err := time.ParseDuration(text); err == nil { field = d } }`
  abbrev over_duration : String → Duration → Duration
  over_duration text field =
      if not (str_eq text "") then or_else (parse_duration text) field else field

  unfoldable pub parse_cpu_to_millicores : String → ℤ
  unfolding scale64
  parse_cpu_to_millicores cpu = if str_eq cpu "" then pos 0 else elim (scan_int cpu "%dm") [
    | some value ↦ value
    | none ↦ elim (scan_float cpu) [
      | some value ↦ to_int64 unrepresentable (scale_float 1000 value)
      | none ↦ elim (scan_int cpu "%d") [ some value ↦ scale64 1000 value | none ↦ pos 0 ]
    ]
  ]

  unfoldable pub parse_memory_to_megabytes : String → ℤ
  unfolding scale64
  parse_memory_to_megabytes memory =
      if str_eq memory "" then pos 0 else elim (scan_int memory "%dGi") [
        | some value ↦ scale64 1024 value
        | none ↦ elim (scan_int memory "%dMi") [
          | some value ↦ value
          | none ↦ elim (scan_int memory "%dG") [
            | some value ↦ scale64 1000 value
            | none ↦ elim (scan_int memory "%dM") [ some value ↦ value | none ↦ pos 0 ]
          ]
        ]
      ]

  unfoldable pub apply_overrides : ResolvedSettings → ProfileOverrides → ResolvedSettings
  apply_overrides r o = record r {
    min_confidence = or_else o.min_confidence r.min_confidence;
    max_change_percent = or_else o.max_change_percent r.max_change_percent;
    require_approval = or_else o.require_approval r.require_approval;
    apply_delay = over_duration o.apply_delay r.apply_delay;
    dry_run = or_else o.dry_run r.dry_run;
  }

  -- `if spec.ProfileOverrides != nil { … }`
  unfoldable pub override_profile : ResolvedSettings → Option ProfileOverrides → ResolvedSettings
  unfolding apply_overrides
  override_profile r none = r
  override_profile r (some o) = apply_overrides r o

  -- The four parts of `applySpecOverrides`.
  unfoldable pub override_recommendations :
      ResolvedSettings → Option RecommendationConfig → ResolvedSettings
  override_recommendations r none = r
  override_recommendations r (some rec) = record r {
    cpu_percentile = over rec.cpu_percentile r.cpu_percentile;
    memory_percentile = over rec.memory_percentile r.memory_percentile;
    safety_margin = over_float rec.safety_margin r.safety_margin;
    min_samples = over rec.min_samples r.min_samples;
    history_duration = over_duration rec.history_duration r.history_duration;
  }

  unfoldable pub override_breaker :
      ResolvedSettings → Option CircuitBreakerConfig → ResolvedSettings
  override_breaker r none = r
  override_breaker r (some cb) = record r {
    circuit_breaker_enabled = cb.enabled;
    circuit_breaker_threshold = over cb.error_threshold r.circuit_breaker_threshold;
  }

  unfoldable pub override_cpu : ResolvedSettings → Option ResourceLimit → ResolvedSettings
  override_cpu r none = r
  override_cpu r (some limit) = record r {
    min_cpu_millicores = over (parse_cpu_to_millicores limit.min) r.min_cpu_millicores;
    max_cpu_millicores = over (parse_cpu_to_millicores limit.max) r.max_cpu_millicores;
  }

  unfoldable pub override_memory : ResolvedSettings → Option ResourceLimit → ResolvedSettings
  override_memory r none = r
  override_memory r (some limit) = record r {
    min_memory_megabytes = over (parse_memory_to_megabytes limit.min) r.min_memory_megabytes;
    max_memory_megabytes = over (parse_memory_to_megabytes limit.max) r.max_memory_megabytes;
  }

  unfoldable pub override_thresholds :
      ResolvedSettings → Option ResourceThresholds → ResolvedSettings
  unfolding override_cpu override_memory
  override_thresholds r none = r
  override_thresholds r (some t) = override_memory (override_cpu r t.cpu) t.memory

  unfoldable pub apply_spec_overrides : ResolvedSettings → OptimizerConfigSpec → ResolvedSettings
  unfolding override_recommendations override_breaker override_thresholds
  apply_spec_overrides r spec =
      let thresholded =
        override_thresholds
          (override_breaker (override_recommendations r spec.recommendations) spec.circuit_breaker)
          spec.resource_thresholds in
      record thresholded { dry_run = spec.dry_run }

  -- The settings of a profile, before anything overrides them.
  unfoldable pub of_profile : String → ProfileSettings → ResolvedSettings
  of_profile name s = record {
    profile_name = name;
    strategy = s.strategy;
    cpu_percentile = s.cpu_percentile;
    memory_percentile = s.memory_percentile;
    safety_margin = s.safety_margin;
    min_samples = s.min_samples;
    history_duration = s.history_duration;
    min_confidence = s.min_confidence;
    apply_delay = s.apply_delay;
    max_change_percent = s.max_change_percent;
    require_approval = s.require_approval;
    dry_run = s.dry_run_by_default;
    rollback_on_error = s.rollback_on_error;
    circuit_breaker_enabled = s.circuit_breaker_enabled;
    circuit_breaker_threshold = s.circuit_breaker_threshold;
    min_cpu_millicores = s.min_cpu_millicores;
    min_memory_megabytes = s.min_memory_megabytes;
    max_cpu_millicores = s.max_cpu_millicores;
    max_memory_megabytes = s.max_memory_megabytes;
  }

  unfoldable pub resolve_from_profile : Dict Profile → OptimizerConfigSpec → Option ResolvedSettings
  unfolding override_profile apply_spec_overrides of_profile
  resolve_from_profile manager spec = elim (get_profile spec.profile manager) [
    | none ↦ none
    | some profile ↦
        let base = of_profile spec.profile profile.settings in
        some (apply_spec_overrides (override_profile base spec.profile_overrides) spec)
  ]

  -- The balanced defaults of `resolveFromSpec`.
  unfoldable pub balanced_defaults : OptimizerConfigSpec → ResolvedSettings
  balanced_defaults spec = record {
    profile_name = "custom";
    strategy = if str_eq spec.strategy "" then "balanced" else spec.strategy;
    cpu_percentile = pos 95;
    memory_percentile = pos 95;
    safety_margin = of_mantissa 5404319552844595;  -- 1.2
    min_samples = pos 100;
    history_duration = hours 24;
    min_confidence = of_ℕ 50;
    apply_delay = pos 0;
    max_change_percent = of_ℕ 0;
    require_approval = false;
    dry_run = spec.dry_run;
    rollback_on_error = true;
    circuit_breaker_enabled = true;
    circuit_breaker_threshold = pos 5;
    min_cpu_millicores = pos 10;
    min_memory_megabytes = pos 32;
    max_cpu_millicores = pos 16000;
    max_memory_megabytes = pos 65536;
  }

  unfoldable pub resolve_from_spec : OptimizerConfigSpec → ResolvedSettings
  unfolding apply_spec_overrides balanced_defaults
  resolve_from_spec spec = apply_spec_overrides (balanced_defaults spec) spec

  unfoldable pub resolve : Dict Profile → OptimizerConfig → Option ResolvedSettings
  unfolding resolve_from_profile resolve_from_spec
  resolve manager config =
      if not (str_eq config.spec.profile "") && not (str_eq config.spec.profile "custom")
      then resolve_from_profile manager config.spec
      else some (resolve_from_spec config.spec)

-- `OptimizationStrategy`
pub data OptimizationStrategy : Type 0 where
  aggressive balanced conservative : OptimizationStrategy

unfoldable pub get_effective_strategy : ResolvedSettings → OptimizationStrategy
get_effective_strategy r =
    if str_eq r.strategy "aggressive"
    then aggressive
    else if str_eq r.strategy "conservative"
    then conservative
    else balanced

-- Why a recommendation is not applied; `none` is `(true, "")`.
pub data Refusal : Type 0 where
  dry_run_enabled confidence_below change_exceeds approval_required : Refusal

unfoldable pub should_apply_recommendation : ResolvedSettings → Float64 → Float64 → Option Refusal
should_apply_recommendation r confidence change_percent =
    if r.dry_run
    then some dry_run_enabled
    else if ltb_float confidence r.min_confidence
    then some confidence_below
    else if ltb_float (of_ℕ 0) r.max_change_percent && ltb_float r.max_change_percent change_percent
    then some change_exceeds
    else if r.require_approval
    then some approval_required
    else none
