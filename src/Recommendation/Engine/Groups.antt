-- ===== src/Recommendation/Engine/Groups.antt =====
-- pkg/recommendation/engine.go: the samples of the containers, grouped by workload.
pub mod Grouping
use intelligent_cluster_opti.Prelude.{
  ℕ, String, Bool, true, false, not, ◌&&◌, ◌||◌, Option, none, some, List, [], ◌∷◌, ◌++◌, map,
  if◌then◌else◌, str_eq, length,
}
use intelligent_cluster_opti.Prelude.Int.{ℤ, pos, ◌+ℤ◌, ◌-ℤ◌, ltb_ℤ, wrap64}
use intelligent_cluster_opti.Prelude.Float64.{
  Float64, finite, ltb_float, of_ℕ, of_ℤ, constant, add_float, sub_float, mul_float, to_int64,
}
use intelligent_cluster_opti.Prelude.Dict.{Dict, lookup, insert, entries}
use intelligent_cluster_opti.Prelude.Exchange.{exchange_sort}
use intelligent_cluster_opti.Api.{
  Instant, Duration, ResourceThresholds, RecommendationConfig, OptimizerConfig,
}
use intelligent_cluster_opti.Storage.{ContainerMetric, PodMetric}
use intelligent_cluster_opti.Cost.Pricing.{
  PricingModel, default_pricing, new_calculator, new_calculator_with_preset,
}
use intelligent_cluster_opti.Cost.{
  SavingsEstimate, Totals, no_totals, add_totals, estimate_of_totals, estimate_savings,
}
use intelligent_cluster_opti.Profile.Resolver.{or_else}
use intelligent_cluster_opti.Recommendation.Confidence.{
  ConfidenceConfig, default_confidence_config, calculate_from_samples,
}
use intelligent_cluster_opti.Recommendation.Names.{extract_workload_name}
use intelligent_cluster_opti.Recommendation.Types.{
  ContainerRecommendation, WorkloadRecommendation, ContainerOomDetails, OomHistoryInfo,
  default_recommendation_ttl,
}
use intelligent_cluster_opti.Recommendation.Values.{Library, calculate_percentile, apply_thresholds}

pub record ContainerSample : Type 0 where
  pub timestamp : Instant
  pub usage_cpu : ℤ  -- int64, as all below
  pub usage_memory : ℤ
  pub request_cpu : ℤ
  pub request_memory : ℤ

abbrev sample_of : Instant → ContainerMetric → ContainerSample
sample_of timestamp cm = record {
  timestamp = timestamp;
  usage_cpu = cm.usage_cpu;
  usage_memory = cm.usage_memory;
  request_cpu = cm.request_cpu;
  request_memory = cm.request_memory;
}

-- The samples of a workload, by the name of the container.
abbrev pub Samples : Type 0
Samples = Dict (List ContainerSample)

pub containers_group : Instant → List ContainerMetric → Samples → Samples
containers_group timestamp [] result = result
containers_group timestamp (cm ∷ containers) result = containers_group timestamp containers (
    insert cm.container_name
      (entries (lookup cm.container_name result) ++ (sample_of timestamp cm ∷ [])) result)

pub group_loop : List PodMetric → Dict Samples → Dict Samples
group_loop [] result = result
group_loop (pm ∷ metrics) result =
    let workload_name = extract_workload_name pm.pod_name in
    group_loop metrics (
      insert workload_name
        (containers_group pm.timestamp pm.containers (entries (lookup workload_name result)))
        result)

unfoldable pub group_by_workload : List PodMetric → Dict Samples
unfolding group_loop containers_group
group_by_workload metrics = group_loop metrics []
