-- ===== src/Profile.antt =====
-- pkg/profile/profile.go: the settings of an environment, the four profiles that are built in, and the
-- manager, a map from names to profiles. The summaries for people are left out.
pub mod Resolver
mod Settings
mod Modes
mod Ranges
pub mod Tests
use intelligent_cluster_opti.Prelude.{
  ℕ, ◌*◌, String, Bool, true, false, not, ◌||◌, Option, none, some, List, [], ◌∷◌, map,
  if◌then◌else◌, str_eq,
}
use intelligent_cluster_opti.Prelude.Int.{ℤ, pos, ltb_ℤ}
use intelligent_cluster_opti.Prelude.Float64.{Float64, ltb_float, of_ℕ, of_mantissa}
use intelligent_cluster_opti.Prelude.Dict.{Dict, lookup, insert}
use intelligent_cluster_opti.Api.{Duration}

pub record ProfileSettings : Type 0 where
  pub strategy : String
  pub cpu_percentile : ℤ  -- int
  pub memory_percentile : ℤ  -- int
  pub safety_margin : Float64
  pub min_samples : ℤ  -- int
  pub history_duration : Duration
  pub min_confidence : Float64
  pub apply_delay : Duration
  pub max_change_percent : Float64
  pub require_approval : Bool
  pub rollback_on_error : Bool
  pub circuit_breaker_enabled : Bool
  pub circuit_breaker_threshold : ℤ  -- int
  pub dry_run_by_default : Bool
  pub min_cpu_millicores : ℤ  -- int64
  pub min_memory_megabytes : ℤ  -- int64
  pub max_cpu_millicores : ℤ  -- int64
  pub max_memory_megabytes : ℤ  -- int64

-- `other_environment` is any other text.
pub data EnvironmentType : Type 0 where
  production staging development test custom : EnvironmentType
  other_environment : String → EnvironmentType

-- `p.Environment == env`
abbrev is_environment : EnvironmentType → EnvironmentType → Bool
is_environment production production = true
is_environment staging staging = true
is_environment development development = true
is_environment test test = true
is_environment custom custom = true
is_environment (other_environment s) (other_environment t) = str_eq s t
is_environment _ _ = false

pub record Profile : Type 0 where
  pub name : String
  pub environment : EnvironmentType
  pub description : String
  pub settings : ProfileSettings

abbrev pub minutes : ℕ → Duration
minutes n = pos (n * 60_000_000_000)

abbrev pub hours : ℕ → Duration
hours n = pos (n * 3_600_000_000_000)

abbrev pub production_profile : Profile
production_profile = record {
  name = "production";
  environment = production;
  description =
      "Conservative optimization for production workloads. Prioritizes stability over cost savings.";
  settings = record {
    strategy = "conservative";
    cpu_percentile = pos 99;
    memory_percentile = pos 99;
    safety_margin = of_mantissa 6305039478318694;  -- 1.4
    min_samples = pos 200;
    history_duration = hours 168;
    min_confidence = of_ℕ 80;
    apply_delay = hours 24;
    max_change_percent = of_ℕ 20;
    require_approval = true;
    rollback_on_error = true;
    circuit_breaker_enabled = true;
    circuit_breaker_threshold = pos 2;
    dry_run_by_default = true;
    min_cpu_millicores = pos 100;
    min_memory_megabytes = pos 128;
    max_cpu_millicores = pos 16000;
    max_memory_megabytes = pos 65536;
  };
}

abbrev pub staging_profile : Profile
staging_profile = record {
  name = "staging";
  environment = staging;
  description = "Balanced optimization for staging/pre-production workloads.";
  settings = record {
    strategy = "balanced";
    cpu_percentile = pos 95;
    memory_percentile = pos 95;
    safety_margin = of_mantissa 5404319552844595;  -- 1.2
    min_samples = pos 100;
    history_duration = hours 72;
    min_confidence = of_ℕ 60;
    apply_delay = hours 4;
    max_change_percent = of_ℕ 30;
    require_approval = false;
    rollback_on_error = true;
    circuit_breaker_enabled = true;
    circuit_breaker_threshold = pos 3;
    dry_run_by_default = false;
    min_cpu_millicores = pos 50;
    min_memory_megabytes = pos 64;
    max_cpu_millicores = pos 8000;
    max_memory_megabytes = pos 32768;
  };
}

abbrev pub development_profile : Profile
development_profile = record {
  name = "development";
  environment = development;
  description = "Aggressive optimization for development workloads. Prioritizes cost savings.";
  settings = record {
    strategy = "aggressive";
    cpu_percentile = pos 90;
    memory_percentile = pos 90;
    safety_margin = of_mantissa 4953959590107546;  -- 1.1
    min_samples = pos 50;
    history_duration = hours 24;
    min_confidence = of_ℕ 40;
    apply_delay = hours 1;
    max_change_percent = of_ℕ 50;
    require_approval = false;
    rollback_on_error = true;
    circuit_breaker_enabled = true;
    circuit_breaker_threshold = pos 5;
    dry_run_by_default = false;
    min_cpu_millicores = pos 10;
    min_memory_megabytes = pos 32;
    max_cpu_millicores = pos 4000;
    max_memory_megabytes = pos 16384;
  };
}

abbrev pub test_profile : Profile
test_profile = record {
  name = "test";
  environment = test;
  description = "Very aggressive optimization for test/ephemeral workloads. Maximum cost savings.";
  settings = record {
    strategy = "aggressive";
    cpu_percentile = pos 80;
    memory_percentile = pos 85;
    safety_margin = of_mantissa 4728779608739021;  -- 1.05
    min_samples = pos 20;
    history_duration = hours 6;
    min_confidence = of_ℕ 20;
    apply_delay = minutes 15;
    max_change_percent = of_ℕ 0;
    require_approval = false;
    rollback_on_error = false;
    circuit_breaker_enabled = false;
    circuit_breaker_threshold = pos 10;
    dry_run_by_default = false;
    min_cpu_millicores = pos 5;
    min_memory_megabytes = pos 16;
    max_cpu_millicores = pos 2000;
    max_memory_megabytes = pos 8192;
  };
}

unfoldable pub custom_profile : String → String → ProfileSettings → Profile
custom_profile name description settings = record {
  name = name;
  environment = custom;
  description = description;
  settings = settings;
}

-- `ProfileManager`
unfoldable pub register_profile : Profile → Dict Profile → Dict Profile
register_profile p profiles = insert p.name p profiles

unfoldable pub new_profile_manager : Dict Profile
unfolding register_profile
new_profile_manager = register_profile test_profile (
    register_profile development_profile
      (register_profile staging_profile (register_profile production_profile [])))

unfoldable pub get_profile : String → Dict Profile → Option Profile
get_profile name profiles = lookup name profiles

unfoldable pub get_profile_by_environment : EnvironmentType → Dict Profile → Option Profile
get_profile_by_environment env [] = none
get_profile_by_environment env ((name, p) ∷ profiles) =
    let rest = get_profile_by_environment env profiles in
    if is_environment p.environment env then some p else rest

unfoldable pub list_profiles : Dict Profile → List Profile
list_profiles profiles = map (λ entry. entry.1) profiles

-- `if v > 0 { field = v }`
abbrev pub over : ℤ → ℤ → ℤ
over v field = if ltb_ℤ (pos 0) v then v else field

abbrev pub over_float : Float64 → Float64 → Float64
over_float v field = if ltb_float (of_ℕ 0) v then v else field

unfoldable pub merge : ProfileSettings → Option ProfileSettings → ProfileSettings
merge s none = s
merge s (some o) = record {
  strategy = if not (str_eq o.strategy "") then o.strategy else s.strategy;
  cpu_percentile = over o.cpu_percentile s.cpu_percentile;
  memory_percentile = over o.memory_percentile s.memory_percentile;
  safety_margin = over_float o.safety_margin s.safety_margin;
  min_samples = over o.min_samples s.min_samples;
  history_duration = over o.history_duration s.history_duration;
  min_confidence = over_float o.min_confidence s.min_confidence;
  apply_delay = over o.apply_delay s.apply_delay;
  max_change_percent = over_float o.max_change_percent s.max_change_percent;
  circuit_breaker_threshold = over o.circuit_breaker_threshold s.circuit_breaker_threshold;
  min_cpu_millicores = over o.min_cpu_millicores s.min_cpu_millicores;
  min_memory_megabytes = over o.min_memory_megabytes s.min_memory_megabytes;
  max_cpu_millicores = over o.max_cpu_millicores s.max_cpu_millicores;
  max_memory_megabytes = over o.max_memory_megabytes s.max_memory_megabytes;
  require_approval = o.require_approval;
  rollback_on_error = o.rollback_on_error;
  circuit_breaker_enabled = o.circuit_breaker_enabled;
  dry_run_by_default = o.dry_run_by_default;
}

-- What `Validate` finds first; `none` where it returns no error.
pub data SettingsError : Type 0 where
  bad_cpu_percentile bad_memory_percentile bad_margin bad_samples bad_confidence : SettingsError
  bad_change bad_strategy : SettingsError

abbrev pub is_strategy : String → Bool
is_strategy s = str_eq s "aggressive" || (str_eq s "balanced" || str_eq s "conservative")

unfoldable pub validate : ProfileSettings → Option SettingsError
validate s =
    if ltb_ℤ s.cpu_percentile (pos 50) || ltb_ℤ (pos 99) s.cpu_percentile
    then some bad_cpu_percentile
    else if ltb_ℤ s.memory_percentile (pos 50) || ltb_ℤ (pos 99) s.memory_percentile
    then some bad_memory_percentile
    else if ltb_float s.safety_margin (of_ℕ 1) || ltb_float (of_ℕ 3) s.safety_margin
    then some bad_margin
    else if ltb_ℤ s.min_samples (pos 1)
    then some bad_samples
    else if ltb_float s.min_confidence (of_ℕ 0) || ltb_float (of_ℕ 100) s.min_confidence
    then some bad_confidence
    else if ltb_float s.max_change_percent (of_ℕ 0)
    then some bad_change
    else if not (is_strategy s.strategy)
    then some bad_strategy
    else none
