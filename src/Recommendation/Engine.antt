-- ===== src/Recommendation/Engine.antt =====
-- pkg/recommendation/engine.go: from the history of metrics to recommendations. `now` is `time.Now()`,
-- one instant for all the readings of a run. Of a map, `visit` gives the order of each `range`.
pub mod Settings
pub mod Groups
pub mod Container
pub mod Order
pub mod Supported
use intelligent_cluster_opti.Prelude.{
  ℕ, String, Bool, true, false, not, ◌&&◌, ◌||◌, Option, none, some, List, [], ◌∷◌, ◌++◌, map,
  if◌then◌else◌, str_eq, length,
}
use intelligent_cluster_opti.Prelude.Int.{ℤ, pos, ◌+ℤ◌, ◌-ℤ◌, ltb_ℤ, wrap64}
use intelligent_cluster_opti.Prelude.Float64.{
  Float64, finite, ltb_float, of_ℕ, of_ℤ, constant, add_float, sub_float, mul_float, to_int64,
}
use intelligent_cluster_opti.Prelude.Dict.{Dict, lookup, insert, entries}
use intelligent_cluster_opti.Prelude.Exchange.{exchange_sort}
use intelligent_cluster_opti.Api.{
  Instant, Duration, ResourceThresholds, RecommendationConfig, OptimizerConfig,
}
use intelligent_cluster_opti.Storage.{ContainerMetric, PodMetric}
use intelligent_cluster_opti.Cost.Pricing.{
  PricingModel, default_pricing, new_calculator, new_calculator_with_preset,
}
use intelligent_cluster_opti.Cost.{
  SavingsEstimate, Totals, no_totals, add_totals, estimate_of_totals, estimate_savings,
}
use intelligent_cluster_opti.Profile.Resolver.{or_else}
use intelligent_cluster_opti.Recommendation.Confidence.{
  ConfidenceConfig, default_confidence_config, calculate_from_samples,
}
use intelligent_cluster_opti.Recommendation.Names.{extract_workload_name}
use intelligent_cluster_opti.Recommendation.Types.{
  ContainerRecommendation, WorkloadRecommendation, ContainerOomDetails, OomHistoryInfo,
  default_recommendation_ttl,
}
use intelligent_cluster_opti.Recommendation.Values.{
  Library, SuffixOrders, calculate_percentile, apply_thresholds,
}
use intelligent_cluster_opti.Recommendation.Engine.Settings.{
  Engine, Tuning, apply_strategy, tuning_of, min_samples_of, history_duration_of,
}
use intelligent_cluster_opti.Recommendation.Engine.Groups.{
  ContainerSample, Samples, group_by_workload,
}

unfoldable pub should_swap : WorkloadRecommendation → WorkloadRecommendation → Bool
should_swap a b =
    if b.has_oom_history && not a.has_oom_history
    then true
    else if a.has_oom_history && not b.has_oom_history
    then false
    else if a.has_oom_history && b.has_oom_history
    then ltb_ℤ a.total_oom_count b.total_oom_count
    else false

unfoldable pub sort_recommendations_by_priority :
    List WorkloadRecommendation → List WorkloadRecommendation
unfolding should_swap
sort_recommendations_by_priority recs = exchange_sort should_swap recs

-- The requests of the last sample, or none.
pub current_requests : ℤ × ℤ → List ContainerSample → ℤ × ℤ
current_requests current [] = current
current_requests current (s ∷ samples) = current_requests (s.request_cpu, s.request_memory) samples

pub totals_loop : List ContainerRecommendation → Totals → Totals
totals_loop [] totals = totals
totals_loop (c ∷ cs) totals =
    totals_loop cs
      (elim c.estimated_savings [ none ↦ totals | some savings ↦ add_totals savings totals ])

unfoldable pub aggregate_container_savings : List ContainerRecommendation → SavingsEstimate
unfolding totals_loop
aggregate_container_savings containers = estimate_of_totals (totals_loop containers no_totals)

-- The sums of what is there now.
pub current_totals : List ContainerRecommendation → ℤ × ℤ → ℤ × ℤ
current_totals [] totals = totals
current_totals (c ∷ cs) (cpu, memory) =
    current_totals cs (wrap64 (cpu +ℤ c.current_cpu), wrap64 (memory +ℤ c.current_memory))

-- The memory with the boost for kills, never below what is there, and the boost.
unfoldable pub boost_memory : ℤ → Option ContainerOomDetails → ℤ → ℤ → ℤ × Float64
boost_memory unrepresentable none current_memory recommended_memory = (recommended_memory, of_ℕ 1)
boost_memory unrepresentable (some oom) current_memory recommended_memory =
    let boosted =
      to_int64 unrepresentable (mul_float (of_ℤ recommended_memory) oom.recommended_boost) in
    if ltb_float (of_ℕ 1) oom.recommended_boost
    then (if ltb_ℤ boosted current_memory then current_memory else boosted, oom.recommended_boost)
    else (recommended_memory, of_ℕ 1)

-- What the loop over the containers keeps.
pub record Collected : Type 0 where
  pub containers : List ContainerRecommendation
  pub total_oom_count : ℤ  -- int
  pub has_oom_history : Bool

abbrev pub append_some :
    Option WorkloadRecommendation → List WorkloadRecommendation → List WorkloadRecommendation
append_some none recs = recs
append_some (some rec) recs = rec ∷ recs

abbrev pub is_empty : List ContainerRecommendation → Bool
is_empty [] = true
is_empty (c ∷ cs) = false

module _ (lib : Library) (engine : Engine) (now : Instant) where
  open lib use {numerics, scanner, visit}
  open scanner use {parse_duration, unrepresentable}

  -- `int64(float64(value) * safetyMargin)`
  abbrev with_margin : Float64 → ℤ → ℤ
  with_margin safety_margin value = to_int64 unrepresentable (mul_float (of_ℤ value) safety_margin)

  -- What comes after a panic, an index out of range, is not modelled: it reads as 0 here.
  abbrev pub no_panic : Option ℤ → ℤ
  no_panic value = or_else value (pos 0)

  unfoldable pub generate_container_recommendation_with_oom :
      String
      → List ContainerSample
      → Tuning
      → Option ResourceThresholds
      → Option ContainerOomDetails
      → SuffixOrders
      → ContainerRecommendation
  unfolding current_requests boost_memory
  generate_container_recommendation_with_oom container_name samples tuning thresholds oom_info
        orders =
      let (current_cpu, current_memory) = current_requests (pos 0, pos 0) samples in
      let cpu_p =
        no_panic
          (calculate_percentile lib (map (λ s. s.usage_cpu) samples) tuning.cpu_percentile) in
      let memory_p =
        no_panic
          (calculate_percentile lib (map (λ s. s.usage_memory) samples) tuning.memory_percentile) in
      let (boosted_memory, boost) =
        boost_memory unrepresentable oom_info current_memory
          (with_margin tuning.safety_margin memory_p) in
      let recommended_cpu =
        apply_thresholds lib orders (with_margin tuning.safety_margin cpu_p) thresholds "cpu" in
      let recommended_memory = apply_thresholds lib orders boosted_memory thresholds "memory" in
      let confidence_details =
        calculate_from_samples numerics engine.confidence_calculator now
          (map (λ s. (s.timestamp, s.usage_cpu)) samples) engine.expected_sample_interval in
      record {
        container_name = container_name;
        current_cpu = current_cpu;
        current_memory = current_memory;
        recommended_cpu = recommended_cpu;
        recommended_memory = recommended_memory;
        sample_count = pos (length samples);
        cpu_percentile = tuning.cpu_percentile;
        memory_percentile = tuning.memory_percentile;
        confidence = confidence_details.score;
        confidence_details = some confidence_details;
        estimated_savings = some (
            estimate_savings engine.cost_calculator current_cpu recommended_cpu current_memory
              recommended_memory);
        has_oom_history = elim oom_info [ none ↦ false | some _ ↦ true ];
        oom_count = elim oom_info [ none ↦ pos 0 | some oom ↦ oom.oom_count ];
        oom_boost_applied = boost;
        oom_priority = elim oom_info [ none ↦ "None" | some oom ↦ oom.priority ];
      }

  -- The details of a container, if there are any of the workload.
  abbrev pub container_oom : Option OomHistoryInfo → String → Option ContainerOomDetails
  container_oom none container_name = none
  container_oom (some info) container_name = lookup container_name info.container_ooms

  -- The ranges over the suffixes in the parsing of a minimum and of a maximum, for one container.
  abbrev pub orders_of : ℕ × List String → String → SuffixOrders
  orders_of (left, names) container_name = record {
    for_min = visit (left, "min" ∷ container_name ∷ names);
    for_max = visit (left, "max" ∷ container_name ∷ names);
  }

  -- A container with too few samples is passed over, its kills too.
  abbrev pub collect :
      ℕ × List String
      → Tuning
      → ℤ
      → Option ResourceThresholds
      → Option OomHistoryInfo
      → String × List ContainerSample
      → Collected
      → Collected
  collect call tuning min_samples thresholds oom_info (container_name, samples) so_far =
      let oom = container_oom oom_info container_name in
      let rec =
        generate_container_recommendation_with_oom container_name samples tuning thresholds oom
          (orders_of call container_name) in
      if ltb_ℤ (pos (length samples)) min_samples then so_far else record {
        containers = so_far.containers ++ (rec ∷ []);
        total_oom_count = elim oom [
          | none ↦ so_far.total_oom_count
          | some details ↦ wrap64 (so_far.total_oom_count +ℤ details.oom_count)
        ];
        has_oom_history = elim oom [ none ↦ so_far.has_oom_history | some details ↦ true ];
      }

  unfoldable pub collect_loop :
      ℕ × List String
      → Tuning
      → ℤ
      → Option ResourceThresholds
      → Option OomHistoryInfo
      → Samples
      → Collected
      → Collected
  unfolding generate_container_recommendation_with_oom
  collect_loop call tuning min_samples thresholds oom_info [] so_far = so_far
  collect_loop call tuning min_samples thresholds oom_info (entry ∷ rest) so_far =
      collect_loop call tuning min_samples thresholds oom_info rest
        (collect call tuning min_samples thresholds oom_info entry so_far)

  -- The end: what is known of the workload's kills replaces what its containers give.
  abbrev pub with_info : Option OomHistoryInfo → Collected → Collected × String
  with_info none c = (c, "None")
  with_info (some info) c = (
    record c {
      has_oom_history = info.has_oom_history || c.has_oom_history;
      total_oom_count =
          if ltb_ℤ c.total_oom_count info.total_oom_count
          then info.total_oom_count
          else c.total_oom_count;
    },
    info.priority,
  )

  abbrev pub workload_of : String → String → Collected → String → WorkloadRecommendation
  workload_of namespace workload_name c oom_priority =
      let totals = current_totals c.containers (pos 0, pos 0) in
      record {
        namespace = namespace;
        workload_kind = "Deployment";
        workload_name = workload_name;
        containers = c.containers;
        generated_at = now;
        expires_at = now +ℤ engine.recommendation_ttl;
        current_total_cpu = totals.0;
        current_total_memory = totals.1;
        total_estimated_savings = some (aggregate_container_savings c.containers);
        has_oom_history = c.has_oom_history;
        total_oom_count = c.total_oom_count;
        oom_priority = oom_priority;
      }

  unfoldable pub generate_workload_recommendation_with_oom :
      ℕ
      → String
      → String
      → Samples
      → Tuning
      → ℤ
      → Option ResourceThresholds
      → Option OomHistoryInfo
      → Option WorkloadRecommendation
  unfolding collect_loop current_totals aggregate_container_savings
  generate_workload_recommendation_with_oom left namespace workload_name container_metrics tuning
        min_samples thresholds oom_info =
      let call : ℕ × List String = (left, workload_name ∷ namespace ∷ []) in
      let c =
        collect_loop call tuning min_samples thresholds oom_info (visit call container_metrics)
          (record { containers = []; total_oom_count = pos 0; has_oom_history = false }) in
      let (c', oom_priority) = with_info oom_info c in
      if is_empty c.containers
      then none
      else some (workload_of namespace workload_name c' oom_priority)

  module _ (metrics_by_namespace : String → Duration → List PodMetric)
      (oom_history : String → String → Option OomHistoryInfo) (config : OptimizerConfig) where
    -- The settings in force.
    unfoldable pub tuning_for : Tuning
    unfolding apply_strategy
    tuning_for = apply_strategy config.spec.strategy (tuning_of engine config.spec.recommendations)

    -- The loop over the workloads of a namespace.
    unfoldable pub workloads_of : ℕ → String → Dict Samples → List WorkloadRecommendation
    unfolding generate_workload_recommendation_with_oom tuning_for
    workloads_of left namespace [] = []
    workloads_of left namespace ((workload_name, container_metrics) ∷ rest) =
        append_some
          (generate_workload_recommendation_with_oom left namespace workload_name container_metrics
            tuning_for (min_samples_of engine config.spec.recommendations)
            config.spec.resource_thresholds (oom_history namespace workload_name))
          (workloads_of left namespace rest)

    -- Without metrics there is no workload.
    abbrev pub of_metrics : ℕ → String → List PodMetric → List WorkloadRecommendation
    of_metrics left namespace [] = []
    of_metrics left namespace (pm ∷ metrics) =
        workloads_of left namespace
          (visit (left, namespace ∷ []) (group_by_workload (pm ∷ metrics)))

    -- The loop over the namespaces.
    unfoldable pub namespaces_loop : List String → List WorkloadRecommendation
    unfolding workloads_of group_by_workload
    namespaces_loop [] = []
    namespaces_loop (namespace ∷ namespaces) =
        let metrics =
          metrics_by_namespace namespace
            (history_duration_of engine parse_duration config.spec.recommendations) in
        of_metrics (length namespaces) namespace metrics ++ namespaces_loop namespaces

    -- No branch returns an error.
    unfoldable pub generate_recommendations_with_oom : Option (List WorkloadRecommendation)
    unfolding namespaces_loop sort_recommendations_by_priority
    generate_recommendations_with_oom =
        some (sort_recommendations_by_priority (namespaces_loop config.spec.target_namespaces))

  -- Without a provider of kills.
  unfoldable pub generate_recommendations :
      (String → Duration → List PodMetric) → OptimizerConfig → Option (List WorkloadRecommendation)
  unfolding generate_recommendations_with_oom
  generate_recommendations metrics_by_namespace config =
      generate_recommendations_with_oom metrics_by_namespace (λ namespace name. none) config
