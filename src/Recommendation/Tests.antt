-- ===== src/Recommendation/Tests.antt =====
-- The engine over one deployment, and the properties applied to concrete inputs.
use mathlib.Core.List.{Perm}
use intelligent_cluster_opti.Prelude.{
  String, ◌≡◌, refl, Bool, true, false, none, some, List, [], ◌∷◌, All, str_eq, eq_iff, ◌≢◌, arith,
}
use intelligent_cluster_opti.Prelude.Int.{ℤ, pos, wrap64, ◌*ℤ◌, ◌≤ℤ◌}
use intelligent_cluster_opti.Prelude.Float64.{
  Numerics, of_ℕ, of_ℤ, constant, add_float, div_float, to_int64,
}
use intelligent_cluster_opti.Prelude.Dict.{lookup, entries}
use intelligent_cluster_opti.Prelude.Sort.{by_exchange, by_exchange-Sorts}
use intelligent_cluster_opti.Recommendation.Values.Rank.{nearest_rank}
use intelligent_cluster_opti.Api.{ResourceThresholds, OptimizerConfig}
use intelligent_cluster_opti.Webhook.Tests.{config}
use intelligent_cluster_opti.Storage.{ContainerMetric, PodMetric}
use intelligent_cluster_opti.Profile.Tests.{scanner}
use intelligent_cluster_opti.Recommendation.Confidence.{
  default_confidence_config, calculate_confidence,
}
use intelligent_cluster_opti.Recommendation.Confidence.Summary.{MetricsSummary}
use intelligent_cluster_opti.Recommendation.Confidence.Grade.{
  IsGraded, calculate_confidence-IsGraded,
}
use intelligent_cluster_opti.Recommendation.Names.{extract_workload_name, join_parts, join_loop}
use intelligent_cluster_opti.Recommendation.Names.RoundTrip.{extract_workload_name_lem}
use intelligent_cluster_opti.Recommendation.Types.{WorkloadRecommendation, ContainerOomDetails}
use intelligent_cluster_opti.Recommendation.Values.{
  Library, SuffixOrders, rank_of, calculate_percentile,
}
use intelligent_cluster_opti.Recommendation.Values.Percentile.{
  IsRanked, calculate_percentile-IsRanked,
}
use intelligent_cluster_opti.Recommendation.Engine.Settings.{Tuning, new_engine, apply_strategy}
use intelligent_cluster_opti.Recommendation.Engine.Groups.{ContainerSample, group_by_workload}
use intelligent_cluster_opti.Recommendation.Engine.{
  sort_recommendations_by_priority, generate_container_recommendation_with_oom,
  generate_recommendations_with_oom,
}
use intelligent_cluster_opti.Recommendation.Engine.Container.{
  generate_container_recommendation_with_oom-le,
}
use intelligent_cluster_opti.Recommendation.Engine.Supported.{
  IsSupported, generate_recommendations_with_oom-IsSupported,
}
use intelligent_cluster_opti.Recommendation.Engine.Order.{
  IsPrioritized, sort_recommendations_by_priority-IsPrioritized,
}
use intelligent_cluster_opti.Recommendation.Engine.Groups.Grouping.{
  samples_of, group_by_workload_lem,
}

abbrev numerics : Numerics
numerics = record {
  log = λ f. f;
  sqrt = λ f. f;
  hours = λ d. div_float (of_ℤ d) (of_ℕ 3_600_000_000_000);
}

abbrev pub library : Library
library = record {
  numerics = numerics;
  scanner = scanner;
  sorting = by_exchange;
  visit = λ call dict. dict;
}

-- Rank 9.1, which "rounded up" would make 10, is 9.
rank_is_nearest : rank_of library 10 (pos 91) ≡ pos 9
unfolding rank_of wrap64 ◌*ℤ◌ of_ℕ of_ℤ constant div_float add_float to_int64
rank_is_nearest = refl

-- The conservative strategy lowers a margin of 3 to 2.
lowers_margin :
    (apply_strategy "conservative" (record {
      cpu_percentile = pos 95;
      memory_percentile = pos 95;
      safety_margin = of_ℕ 3;
    })).safety_margin
    ≡ of_ℕ 2
unfolding apply_strategy of_ℕ constant div_float add_float
lowers_margin = refl

calculate_percentile-IsRanked_example :
    (p : ℤ) × (calculate_percentile library (pos 3 ∷ pos 1 ∷ pos 2 ∷ []) (pos 95) ≡ some p)
    × IsRanked (pos 3 ∷ pos 1 ∷ pos 2 ∷ []) (nearest_rank 3 95) p
calculate_percentile-IsRanked_example =
    calculate_percentile-IsRanked library (pos 3) (pos 1 ∷ pos 2 ∷ []) 95 by_exchange-Sorts
      (omega arith)

abbrev thresholds : ResourceThresholds
thresholds = record { cpu = some (record { min = "500m"; max = "" }); memory = none }

abbrev summary : MetricsSummary
summary = record {
  sample_count = pos 600;
  oldest_sample = pos 0;
  newest_sample = pos 3_600_000_000_000;
  mean = of_ℕ 100;
  std_dev = of_ℕ 5;
  min = pos 90;
  max = pos 110;
  time_gaps = [];
  expected_interval = pos 30_000_000_000;
}

calculate_confidence-IsGraded_example :
    IsGraded
      (calculate_confidence numerics default_confidence_config (pos 3_600_000_000_000) summary)
calculate_confidence-IsGraded_example =
    calculate_confidence-IsGraded numerics default_confidence_config (pos 3_600_000_000_000) summary

not_empty : (s : String) → str_eq s "" ≡ false → s ≢ ""
not_empty s h e = let t = (eq_iff s "").1 e in cc

extract_workload_name_lem_example :
    extract_workload_name "nginx-deployment-5d7b8c7d9f-abc12" ≡ "nginx-deployment"
unfolding join_parts join_loop
extract_workload_name_lem_example =
    extract_workload_name_lem "nginx" ("deployment" ∷ []) "5d7b8c7d9f" "abc12"
      (
        ((refl, (refl, (refl, (refl, (refl, tt))))), not_empty "nginx" refl),
        (
          (
            (refl, (refl, (refl, (refl, (refl, (refl, (refl, (refl, (refl, (refl, tt)))))))))),
            not_empty "deployment" refl,
          ),
          tt,
        ),
      )
      (
        (refl, (refl, (refl, (refl, (refl, (refl, (refl, (refl, (refl, (refl, tt)))))))))),
        not_empty "5d7b8c7d9f" refl,
      )
      ((refl, (refl, (refl, (refl, (refl, tt))))), not_empty "abc12" refl)

abbrev usage : ContainerMetric
usage = record {
  container_name = "web";
  usage_cpu = pos 100;
  usage_memory = pos 1000;
  request_cpu = pos 200;
  request_memory = pos 4000;
  limit_cpu = pos 0;
  limit_memory = pos 0;
}

abbrev metric : PodMetric
metric = record {
  pod_name = "web-5d7b8c7d9f-abc12";
  namespace = "default";
  timestamp = pos 7;
  containers = usage ∷ [];
}

group_by_workload_lem_example :
    entries (lookup "web" (entries (lookup "web" (group_by_workload (metric ∷ metric ∷ [])))))
    ≡ samples_of "web" "web" (metric ∷ metric ∷ [])
group_by_workload_lem_example = group_by_workload_lem "web" "web" (metric ∷ metric ∷ [])

abbrev sample : ContainerSample
sample = record {
  timestamp = pos 7;
  usage_cpu = pos 100;
  usage_memory = pos 1000;
  request_cpu = pos 200;
  request_memory = pos 4000;
}

abbrev tuning : Tuning
tuning = record {
  cpu_percentile = pos 95;
  memory_percentile = pos 95;
  safety_margin = constant 12 10;
}

abbrev oom : ContainerOomDetails
oom = record { oom_count = pos 1; recommended_boost = constant 13 10; priority = "High" }

-- The suffixes as the source lists them.
abbrev kept_order : SuffixOrders
kept_order = record { for_min = λ dict. dict; for_max = λ dict. dict }

generate_container_recommendation_with_oom-le_example :
    let rec =
      generate_container_recommendation_with_oom library new_engine
        (pos 8)
        "web"
        (sample ∷ [])
        tuning
        none
        (some oom)
        kept_order in
    rec.current_memory ≤ℤ rec.recommended_memory
unfolding of_ℕ constant div_float
generate_container_recommendation_with_oom-le_example =
    generate_container_recommendation_with_oom-le library new_engine (pos 8) "web" (sample ∷ [])
      tuning none oom kept_order refl tt

abbrev workload : Bool → ℤ → WorkloadRecommendation
workload killed count = record {
  namespace = "default";
  workload_kind = "Deployment";
  workload_name = "web";
  containers = [];
  generated_at = pos 8;
  expires_at = pos 9;
  current_total_cpu = pos 0;
  current_total_memory = pos 0;
  total_estimated_savings = none;
  has_oom_history = killed;
  total_oom_count = count;
  oom_priority = "None";
}

abbrev unsorted : List WorkloadRecommendation
unsorted = workload false (pos 0) ∷ workload true (pos 2) ∷ workload true (pos 5) ∷ []

sort_recommendations_by_priority-IsPrioritized_example :
    Perm unsorted (sort_recommendations_by_priority unsorted)
    × IsPrioritized (sort_recommendations_by_priority unsorted)
sort_recommendations_by_priority-IsPrioritized_example =
    sort_recommendations_by_priority-IsPrioritized unsorted

abbrev resource : OptimizerConfig
resource = record config {
  spec = record (config.spec) {
    resource_thresholds = some thresholds;
    recommendations = some (record {
      cpu_percentile = pos 95;
      memory_percentile = pos 95;
      min_samples = pos 2;
      safety_margin = constant 12 10;
      history_duration = "";
    });
  };
}

-- Two samples of a container that needs half a core.
generate_recommendations_with_oom-IsSupported_example :
    (recs : List WorkloadRecommendation) × ((generate_recommendations_with_oom library new_engine
          (pos 8)
          (λ namespace since. metric ∷ metric ∷ [])
          (λ namespace name. none)
          resource
        ≡ some recs)
      × IsPrioritized recs
      × All (IsSupported (pos 2) ("default" ∷ [])) recs)
generate_recommendations_with_oom-IsSupported_example =
    generate_recommendations_with_oom-IsSupported library new_engine (pos 8)
      (λ namespace since. metric ∷ metric ∷ []) (λ namespace name. none) resource
