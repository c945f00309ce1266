-- ===== src/Recommendation/Engine/Settings.antt =====
-- pkg/recommendation/engine.go: the engine, and the settings of a run.
use intelligent_cluster_opti.Prelude.{String, Option, none, some, if◌then◌else◌, str_eq}
use intelligent_cluster_opti.Prelude.Int.{ℤ, pos, ◌+ℤ◌, ◌-ℤ◌, ltb_ℤ, wrap64}
use intelligent_cluster_opti.Prelude.Float64.{
  Float64, finite, ltb_float, of_ℕ, constant, add_float, sub_float,
}
use intelligent_cluster_opti.Api.{Duration, RecommendationConfig}
use intelligent_cluster_opti.Cost.Pricing.{
  PricingModel, default_pricing, new_calculator, new_calculator_with_preset,
}
use intelligent_cluster_opti.Profile.Resolver.{or_else}
use intelligent_cluster_opti.Recommendation.Confidence.{ConfidenceConfig, default_confidence_config}
use intelligent_cluster_opti.Recommendation.Types.{default_recommendation_ttl}

pub record Engine : Type 0 where
  pub default_cpu_percentile : ℤ  -- int
  pub default_memory_percentile : ℤ  -- int
  pub default_safety_margin : Float64
  pub default_min_samples : ℤ  -- int
  pub default_history_duration : Duration
  pub cost_calculator : PricingModel
  pub confidence_calculator : ConfidenceConfig
  pub expected_sample_interval : Duration
  pub recommendation_ttl : Duration

unfoldable pub new_engine : Engine
new_engine = record {
  default_cpu_percentile = pos 95;
  default_memory_percentile = pos 95;
  default_safety_margin = constant 12 10;
  default_min_samples = pos 10;
  default_history_duration = pos 86400_000_000_000;
  cost_calculator = default_pricing;
  confidence_calculator = default_confidence_config;
  expected_sample_interval = pos 30_000_000_000;
  recommendation_ttl = default_recommendation_ttl;
}

unfoldable pub set_recommendation_ttl : Duration → Engine → Engine
set_recommendation_ttl ttl engine = record engine { recommendation_ttl = ttl }

unfoldable pub new_engine_with_pricing : String → Engine
unfolding new_engine
new_engine_with_pricing pricing_preset = record new_engine {
  cost_calculator = new_calculator_with_preset pricing_preset;
}

unfoldable pub set_pricing_model : Option PricingModel → Engine → Engine
set_pricing_model pricing engine = record engine { cost_calculator = new_calculator pricing }

abbrev min_int : ℤ → ℤ → ℤ
min_int a b = if ltb_ℤ a b then a else b

abbrev max_int : ℤ → ℤ → ℤ
max_int a b = if ltb_ℤ b a then a else b

abbrev min_float : Float64 → Float64 → Float64
min_float a b = if ltb_float a b then a else b

abbrev max_float : Float64 → Float64 → Float64
max_float a b = if ltb_float b a then a else b

-- The percentiles, of processor and memory, and the margin.
pub record Tuning : Type 0 where
  pub cpu_percentile : ℤ
  pub memory_percentile : ℤ
  pub safety_margin : Float64

unfoldable pub apply_strategy : String → Tuning → Tuning
apply_strategy strategy t =
    if str_eq strategy "aggressive"
    then record {
      cpu_percentile = max_int (wrap64 (t.cpu_percentile -ℤ pos 10)) (pos 50);
      memory_percentile = max_int (wrap64 (t.memory_percentile -ℤ pos 5)) (pos 50);
      safety_margin = max_float (sub_float t.safety_margin (constant 1 10)) (of_ℕ 1);
    }
    else if str_eq strategy "conservative"
    then record {
      cpu_percentile = min_int (wrap64 (t.cpu_percentile +ℤ pos 4)) (pos 99);
      memory_percentile = min_int (wrap64 (t.memory_percentile +ℤ pos 4)) (pos 99);
      safety_margin = min_float (add_float t.safety_margin (constant 2 10)) (of_ℕ 2);
    }
    else t

module _ (engine : Engine) where
  -- `if config.Spec.Recommendations.CPUPercentile > 0 { ... }`
  abbrev over_int : ℤ → ℤ → ℤ
  over_int value field = if ltb_ℤ (pos 0) value then value else field

  abbrev pub tuning_of : Option RecommendationConfig → Tuning
  tuning_of none = record {
    cpu_percentile = engine.default_cpu_percentile;
    memory_percentile = engine.default_memory_percentile;
    safety_margin = engine.default_safety_margin;
  }
  tuning_of (some r) = record {
    cpu_percentile = over_int r.cpu_percentile engine.default_cpu_percentile;
    memory_percentile = over_int r.memory_percentile engine.default_memory_percentile;
    safety_margin =
        if ltb_float (finite (pos 0)) r.safety_margin
        then r.safety_margin
        else engine.default_safety_margin;
  }

  abbrev pub min_samples_of : Option RecommendationConfig → ℤ
  min_samples_of none = engine.default_min_samples
  min_samples_of (some r) = over_int r.min_samples engine.default_min_samples

  abbrev pub history_duration_of :
      (String → Option Duration) → Option RecommendationConfig → Duration
  history_duration_of parse_duration none = engine.default_history_duration
  history_duration_of parse_duration (some r) =
      if str_eq r.history_duration ""
      then engine.default_history_duration
      else or_else (parse_duration r.history_duration) engine.default_history_duration
