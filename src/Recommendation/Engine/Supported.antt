-- ===== src/Recommendation/Engine/Supported.antt =====
-- What every recommendation of the engine rests on.
use text.Mathlib.TextPositions.{eq_refl}
use intelligent_cluster_opti.Prelude.{
  ℕ, String, ◌≡◌, refl, sym, ap, ◌∙◌, Bool, true, false, ◌||◌, Option, none, some, List, [], ◌∷◌,
  All, All-append, All-map, length, arith, str_eq, Bool-cases, inl, inr, subst,
}
use intelligent_cluster_opti.Prelude.Int.{ℤ, pos, ◌≤ℤ◌, ltb_ℤ, ltb_ℤ→le}
use intelligent_cluster_opti.Prelude.Dict.{Dict}
use intelligent_cluster_opti.Prelude.Exchange.{exchange_sort-All}
use intelligent_cluster_opti.Api.{Instant, Duration, ResourceThresholds, OptimizerConfig}
use intelligent_cluster_opti.Storage.{PodMetric}
use intelligent_cluster_opti.Recommendation.Types.{
  ContainerRecommendation, WorkloadRecommendation, OomHistoryInfo,
}
use intelligent_cluster_opti.Recommendation.Values.{Library}
use intelligent_cluster_opti.Recommendation.Engine.Settings.{
  Engine, Tuning, min_samples_of, history_duration_of,
}
use intelligent_cluster_opti.Recommendation.Engine.Groups.{
  ContainerSample, Samples, group_by_workload,
}
use intelligent_cluster_opti.Recommendation.Engine.Order.{
  IsPrioritized, sort_recommendations_by_priority-IsPrioritized,
}
use intelligent_cluster_opti.Recommendation.Engine.{
  Collected, should_swap, generate_container_recommendation_with_oom, collect, collect_loop,
  with_info, is_empty, generate_workload_recommendation_with_oom, tuning_for, append_some,
  workloads_of, of_metrics, namespaces_loop, generate_recommendations_with_oom,
  sort_recommendations_by_priority,
}

-- A container with as many samples as are asked for.
abbrev pub HasEnough : ℤ → ContainerRecommendation → Type 0
HasEnough min_samples c = min_samples ≤ℤ c.sample_count

abbrev pub contains : String → List String → Bool
contains name [] = false
contains name (n ∷ names) = str_eq n name || contains name names

-- About a target, with a container at least, and samples enough for each of them.
pub record IsSupported (min_samples : ℤ) (targets : List String) (r : WorkloadRecommendation)
    : Type 0 where
  pub targeted : contains r.namespace targets ≡ true
  pub not_empty : is_empty r.containers ≡ false
  pub sampled : All (HasEnough min_samples) r.containers

module _ (lib : Library) (engine : Engine) (now : Instant) (tuning : Tuning) (min_samples : ℤ)
    (thresholds : Option ResourceThresholds) where
  collect-All :
      (call : ℕ × List String) (info : Option OomHistoryInfo)
      (entry : String × List ContainerSample) (so_far : Collected)
      → All (HasEnough min_samples) so_far.containers
      → All
          (HasEnough min_samples)
          (collect lib engine now call tuning min_samples thresholds info entry so_far).containers
  unfolding generate_container_recommendation_with_oom
  collect-All call info (name, samples) so_far h =
      elim (Bool-cases (ltb_ℤ (pos (length samples)) min_samples)) [
        | inl few ↦ rw few h
        | inr many ↦ rw many (
            All-append (HasEnough min_samples) so_far.containers _ h
              (ltb_ℤ→le (pos (length samples)) min_samples many, tt))
      ]

  collect_loop-All :
      (call : ℕ × List String) (info : Option OomHistoryInfo) (samples : Samples)
      (so_far : Collected)
      → All (HasEnough min_samples) so_far.containers
      → All
          (HasEnough min_samples)
          (collect_loop lib engine now call tuning min_samples thresholds info samples
            so_far).containers
  unfolding collect_loop
  collect_loop-All call info [] so_far h = h
  collect_loop-All call info (entry ∷ samples) so_far h =
      collect_loop-All call info samples _ (collect-All call info entry so_far h)

  with_info-containers :
      (info : Option OomHistoryInfo) (c : Collected)
      → (with_info lib engine now info c).0.containers ≡ c.containers
  with_info-containers none c = refl
  with_info-containers (some info) c = refl

  -- A recommendation for one namespace.
  abbrev IsFor : String → WorkloadRecommendation → Type 0
  IsFor namespace r =
      (r.namespace ≡ namespace)
      × ((is_empty r.containers ≡ false) × All (HasEnough min_samples) r.containers)

  generate_workload-All :
      (left : ℕ) (namespace name : String) (samples : Samples) (info : Option OomHistoryInfo)
      (recs : List WorkloadRecommendation)
      → All (IsFor namespace) recs
      → All (IsFor namespace) (
          append_some
            (generate_workload_recommendation_with_oom lib engine now left namespace name samples
              tuning min_samples thresholds info)
            recs)
  unfolding generate_workload_recommendation_with_oom
  generate_workload-All left namespace name samples info recs h =
      let call : ℕ × List String = (left, name ∷ namespace ∷ []) in
      let c =
        collect_loop lib engine now call tuning min_samples thresholds info (lib.visit call samples)
          (record { containers = []; total_oom_count = pos 0; has_oom_history = false }) in
      let same = with_info-containers info c in
      elim (Bool-cases (is_empty c.containers)) [
        | inl e ↦ rw e h
        | inr n ↦ rw n (
          (
            refl,
            (
              ap is_empty same ∙ n,
              subst (All (HasEnough min_samples)) (sym same)
                  (collect_loop-All call info (lib.visit call samples) _ tt),
            ),
          ),
          h,
        )
      ]

module _ (lib : Library) (engine : Engine) (now : Instant)
    (metrics_by_namespace : String → Duration → List PodMetric)
    (oom_history : String → String → Option OomHistoryInfo) (config : OptimizerConfig) where
  abbrev IsFine : List String → WorkloadRecommendation → Type 0
  IsFine targets r = IsSupported (min_samples_of engine config.spec.recommendations) targets r

  -- Of one namespace, with the settings of the resource.
  abbrev IsHere : String → WorkloadRecommendation → Type 0
  IsHere namespace =
      IsFor lib engine now (tuning_for lib engine now metrics_by_namespace oom_history config)
        (min_samples_of engine config.spec.recommendations) config.spec.resource_thresholds
        namespace

  workloads_of-All :
      (left : ℕ) (namespace : String) (groups : Dict Samples)
      → All (IsHere namespace) (
          workloads_of lib engine now metrics_by_namespace oom_history config left namespace groups)
  unfolding workloads_of
  workloads_of-All left namespace [] = tt
  workloads_of-All left namespace ((name, samples) ∷ groups) =
      generate_workload-All lib engine now
        (tuning_for lib engine now metrics_by_namespace oom_history config)
        (min_samples_of engine config.spec.recommendations) config.spec.resource_thresholds left
        namespace name samples (oom_history namespace name) _
        (workloads_of-All left namespace groups)

  of_metrics-All :
      (left : ℕ) (namespace : String) (metrics : List PodMetric)
      → All
          (IsHere namespace)
          (of_metrics lib engine now metrics_by_namespace oom_history config left namespace metrics)
  of_metrics-All left namespace [] = tt
  of_metrics-All left namespace (pm ∷ metrics) =
      workloads_of-All left namespace
        (lib.visit (left, namespace ∷ []) (group_by_workload (pm ∷ metrics)))

  IsHere-IsFine :
      (namespace : String) (targets : List String) (r : WorkloadRecommendation)
      → IsHere namespace r
      → IsFine (namespace ∷ targets) r
  IsHere-IsFine namespace targets r (e, (n, l)) = record {
    targeted = rw (e, eq_refl namespace) refl;
    not_empty = n;
    sampled = l;
  }

  IsFine-cons :
      (namespace : String) (targets : List String) (r : WorkloadRecommendation)
      → IsFine targets r
      → IsFine (namespace ∷ targets) r
  IsFine-cons namespace targets r f = record {
    targeted = or_true (str_eq namespace r.namespace) f.targeted;
    not_empty = f.not_empty;
    sampled = f.sampled;
  }
    where
      or_true : (p : Bool) {q : Bool} → q ≡ true → (p || q) ≡ true
      or_true p h = ground (arith, h)

  namespaces_loop-All :
      (targets : List String)
      → All
          (IsFine targets)
          (namespaces_loop lib engine now metrics_by_namespace oom_history config targets)
  unfolding namespaces_loop
  namespaces_loop-All [] = tt
  namespaces_loop-All (namespace ∷ targets) =
      let metrics =
        metrics_by_namespace namespace
          (history_duration_of engine lib.scanner.parse_duration config.spec.recommendations) in
      All-append (IsFine (namespace ∷ targets)) _ _
        (All-map (IsHere namespace) (IsFine (namespace ∷ targets)) _
          (IsHere-IsFine namespace targets) (of_metrics-All (length targets) namespace metrics))
        (All-map (IsFine targets) (IsFine (namespace ∷ targets)) _ (IsFine-cons namespace targets)
          (namespaces_loop-All targets))

  sorted-IsFine :
      (recs : List WorkloadRecommendation)
      → All (IsFine config.spec.target_namespaces) recs
      → All (IsFine config.spec.target_namespaces) (sort_recommendations_by_priority recs)
  unfolding sort_recommendations_by_priority
  sorted-IsFine recs h = exchange_sort-All should_swap (IsFine config.spec.target_namespaces) recs h

  -- A run returns recommendations, no error, and they stand in the order of their priorities. Each of
  -- them is about a target namespace and has a container at least, and each container has as many samples
  -- as the settings ask for, whatever the metrics, the kills, the thresholds and the strategy, and in
  -- whatever orders the maps are visited.
  pub generate_recommendations_with_oom-IsSupported :
      (recs : List WorkloadRecommendation) × ((generate_recommendations_with_oom lib engine now
            metrics_by_namespace oom_history config
          ≡ some recs)
        × IsPrioritized recs
        × All
            (IsSupported
              (min_samples_of engine config.spec.recommendations)
              config.spec.target_namespaces)
            recs)
  unfolding generate_recommendations_with_oom
  generate_recommendations_with_oom-IsSupported =
      let found =
        namespaces_loop lib engine now metrics_by_namespace oom_history config
          config.spec.target_namespaces in
      (
        sort_recommendations_by_priority found,
        (
          refl,
          (sort_recommendations_by_priority-IsPrioritized found).1,
          sorted-IsFine found (namespaces_loop-All config.spec.target_namespaces),
        ),
      )
