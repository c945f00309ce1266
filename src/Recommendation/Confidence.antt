-- ===== src/Recommendation/Confidence.antt =====
-- pkg/recommendation/confidence.go: how far a recommendation can be trusted, from 0 to 100. Of a warning its
-- cause is here, and the description in words is left out. `now` is `time.Now()`.
pub mod Grade
pub mod Summary
use intelligent_cluster_opti.Prelude.{
  String, Bool, true, false, not, ◌&&◌, Option, none, some, List, [], ◌∷◌, map, length,
  if◌then◌else◌, ltb,
}
use intelligent_cluster_opti.Prelude.Int.{ℤ, pos, ◌+ℤ◌, ◌*ℤ◌, eqb_ℤ, ltb_ℤ, leb_ℤ, wrap64}
use intelligent_cluster_opti.Prelude.Float64.{
  Float64, Numerics, finite, ltb_float, leb_float, of_ℕ, of_ℤ, constant, add_float, sub_float,
  mul_float, div_float,
}
use intelligent_cluster_opti.Prelude.Exchange.{exchange_sort}
use intelligent_cluster_opti.Api.{Instant, Duration, zero_time, sub_time}
use intelligent_cluster_opti.Recommendation.Confidence.Summary.{
  MetricsSummary, compute_metrics_summary,
}

-- `unset` is the empty string.
pub data ConfidenceLevel : Type 0 where
  unset very_low low medium high very_high : ConfidenceLevel

pub data Warning : Type 0 where
  no_data limited_history low_sample_count high_variability stale_data data_gaps : Warning

pub record ConfidenceScore : Type 0 where
  pub score : Float64
  pub data_duration_score : Float64
  pub sample_count_score : Float64
  pub data_consistency_score : Float64
  pub recency_score : Float64
  pub coverage_score : Float64
  pub data_duration_hours : Float64
  pub sample_count : ℤ  -- int
  pub oldest_sample_age : Duration
  pub newest_sample_age : Duration
  pub coefficient_of_variation : Float64
  pub level : ConfidenceLevel
  pub warnings : List Warning

-- The zero value.
abbrev empty_score : ConfidenceScore
empty_score = record {
  score = finite (pos 0);
  data_duration_score = finite (pos 0);
  sample_count_score = finite (pos 0);
  data_consistency_score = finite (pos 0);
  recency_score = finite (pos 0);
  coverage_score = finite (pos 0);
  data_duration_hours = finite (pos 0);
  sample_count = pos 0;
  oldest_sample_age = pos 0;
  newest_sample_age = pos 0;
  coefficient_of_variation = finite (pos 0);
  level = unset;
  warnings = [];
}

pub record ConfidenceConfig : Type 0 where
  pub min_samples : ℤ  -- int
  pub ideal_samples : ℤ  -- int
  pub min_data_hours : Float64
  pub ideal_data_hours : Float64
  pub max_acceptable_cv : Float64
  pub max_acceptable_recency : Duration
  pub weight_data_duration : Float64
  pub weight_sample_count : Float64
  pub weight_data_consistency : Float64
  pub weight_recency : Float64
  pub weight_coverage : Float64

abbrev pub default_confidence_config : ConfidenceConfig
default_confidence_config = record {
  min_samples = pos 10;
  ideal_samples = pos 500;
  min_data_hours = of_ℕ 1;
  ideal_data_hours = of_ℕ 168;
  max_acceptable_cv = constant 5 10;
  max_acceptable_recency = pos 3600_000_000_000;
  weight_data_duration = constant 25 100;
  weight_sample_count = constant 25 100;
  weight_data_consistency = constant 20 100;
  weight_recency = constant 15 100;
  weight_coverage = constant 15 100;
}

-- `20 + progress * 80`
abbrev upward : Float64 → Float64
upward progress = add_float (of_ℕ 20) (mul_float progress (of_ℕ 80))

-- `start - progress * range`
abbrev downward : Float64 → Float64 → Float64 → Float64
downward start progress range = sub_float start (mul_float progress range)

unfoldable clamp : Float64 → Float64 → Float64 → Float64
clamp value min max =
    if ltb_float value min then min else if ltb_float max value then max else value

unfoldable score_to_level : Float64 → ConfidenceLevel
score_to_level score =
    if leb_float (of_ℕ 80) score
    then very_high
    else if leb_float (of_ℕ 60) score
    then high
    else if leb_float (of_ℕ 40) score
    then medium
    else if leb_float (of_ℕ 20) score
    then low
    else very_low

unfoldable pub calculate_recency_score :
    (Duration → Float64) → ConfidenceConfig → Duration → Float64
calculate_recency_score hours config age =
    if leb_ℤ age (pos 0)
    then of_ℕ 100
    else if leb_ℤ age config.max_acceptable_recency
    then downward (of_ℕ 100) (div_float (of_ℤ age) (of_ℤ config.max_acceptable_recency)) (of_ℕ 20)
    else if leb_float (of_ℕ 24) (hours age)
    then of_ℕ 20
    else downward (of_ℕ 80) (div_float (sub_float (hours age) (of_ℕ 1)) (of_ℕ 23)) (of_ℕ 60)

unfoldable pub calculate_consistency_score : ConfidenceConfig → Float64 → Float64
calculate_consistency_score config cv =
    if leb_float cv (finite (pos 0))
    then of_ℕ 50
    else if leb_float cv (constant 1 10)
    then of_ℕ 100
    else if leb_float config.max_acceptable_cv cv
    then of_ℕ 20
    else downward (of_ℕ 100)
        (div_float (sub_float cv (constant 1 10))
          (sub_float config.max_acceptable_cv (constant 1 10)))
        (of_ℕ 80)

-- `totalGapTime += gap`
pub total_gap_time : Duration → List Duration → Duration
total_gap_time total [] = total
total_gap_time total (gap ∷ gaps) = total_gap_time (wrap64 (total +ℤ gap)) gaps

abbrev gap_ratio_score : Float64 → Float64
gap_ratio_score gap_ratio =
    if leb_float gap_ratio (constant 5 100)
    then of_ℕ 100
    else if leb_float (constant 50 100) gap_ratio
    then of_ℕ 20
    else downward (of_ℕ 100) (div_float (sub_float gap_ratio (constant 5 100)) (constant 45 100))
        (of_ℕ 80)

abbrev is_empty : {A : Type 0} → List A → Bool
is_empty [] = true
is_empty (x ∷ xs) = false

unfoldable pub calculate_coverage_score : MetricsSummary → Float64
unfolding total_gap_time
calculate_coverage_score summary =
    let total_time = sub_time summary.newest_sample summary.oldest_sample in
    if ltb_ℤ summary.sample_count (pos 2)
    then of_ℕ 50
    else if is_empty summary.time_gaps
    then of_ℕ 100
    else if leb_ℤ total_time (pos 0)
    then of_ℕ 50
    else gap_ratio_score
        (div_float (of_ℤ (total_gap_time (pos 0) summary.time_gaps)) (of_ℤ total_time))

-- `if poor { warnings = append(warnings, ...) }`
abbrev warn : Bool → Warning → List Warning → List Warning
warn poor warning warnings = if poor then warning ∷ warnings else warnings

unfoldable pub generate_warnings : ConfidenceScore → MetricsSummary → List Warning
generate_warnings score summary =
    warn (ltb_float score.data_duration_score (of_ℕ 40)) limited_history (
      warn (ltb_float score.sample_count_score (of_ℕ 40)) low_sample_count (
        warn (ltb_float score.data_consistency_score (of_ℕ 40)) high_variability (
          warn (ltb_float score.recency_score (of_ℕ 40)) stale_data (
            warn (ltb_float score.coverage_score (of_ℕ 40) && not (is_empty summary.time_gaps))
              data_gaps []))))

module _ (num : Numerics) (config : ConfidenceConfig) where
  open num use {log, sqrt, hours}

  -- `(log(value) - log(min)) / (log(ideal) - log(min))`
  abbrev log_progress : Float64 → Float64 → Float64 → Float64
  log_progress min ideal value =
      div_float (sub_float (log value) (log min)) (sub_float (log ideal) (log min))

  unfoldable pub calculate_duration_score : Float64 → Float64
  calculate_duration_score duration =
      if ltb_float duration config.min_data_hours
      then mul_float (div_float duration config.min_data_hours) (of_ℕ 20)
      else if leb_float config.ideal_data_hours duration
      then of_ℕ 100
      else upward (log_progress config.min_data_hours config.ideal_data_hours duration)

  unfoldable pub calculate_sample_score : ℤ → Float64
  calculate_sample_score samples =
      if ltb_ℤ samples config.min_samples
      then mul_float (div_float (of_ℤ samples) (of_ℤ config.min_samples)) (of_ℕ 20)
      else if leb_ℤ config.ideal_samples samples
      then of_ℕ 100
      else upward
          (log_progress (of_ℤ config.min_samples) (of_ℤ config.ideal_samples) (of_ℤ samples))

  -- `!summary.OldestSample.IsZero() && !summary.NewestSample.IsZero()`
  abbrev is_dated : MetricsSummary → Bool
  is_dated summary =
      not (eqb_ℤ summary.oldest_sample zero_time) && not (eqb_ℤ summary.newest_sample zero_time)

  -- The five weighted scores, added from the left.
  abbrev weighted : ConfidenceScore → Float64
  weighted s =
      add_float
        (add_float
          (add_float
            (add_float (mul_float config.weight_data_duration s.data_duration_score)
              (mul_float config.weight_sample_count s.sample_count_score))
            (mul_float config.weight_data_consistency s.data_consistency_score))
          (mul_float config.weight_recency s.recency_score))
        (mul_float config.weight_coverage s.coverage_score)

  -- The scores of the single factors.
  unfoldable pub factor_scores : Instant → MetricsSummary → ConfidenceScore
  unfolding calculate_duration_score calculate_sample_score calculate_consistency_score
      calculate_recency_score calculate_coverage_score
  factor_scores now summary =
      let duration =
        if is_dated summary
        then hours (sub_time summary.newest_sample summary.oldest_sample)
        else finite (pos 0) in
      let age = if is_dated summary then sub_time now summary.newest_sample else pos 0 in
      let cv =
        if ltb_float (finite (pos 0)) summary.mean
        then div_float summary.std_dev summary.mean
        else finite (pos 0) in
      record empty_score {
        data_duration_score = calculate_duration_score duration;
        sample_count_score = calculate_sample_score summary.sample_count;
        data_consistency_score = calculate_consistency_score config cv;
        recency_score = calculate_recency_score hours config age;
        coverage_score = calculate_coverage_score summary;
        data_duration_hours = duration;
        sample_count = summary.sample_count;
        oldest_sample_age = if is_dated summary then sub_time now summary.oldest_sample else pos 0;
        newest_sample_age = age;
        coefficient_of_variation = cv;
      }

  unfoldable pub calculate_confidence : Instant → MetricsSummary → ConfidenceScore
  unfolding factor_scores clamp score_to_level generate_warnings
  calculate_confidence now summary =
      let factors = factor_scores now summary in
      let total = clamp (weighted factors) (of_ℕ 0) (of_ℕ 100) in
      record factors {
        score = total;
        level = score_to_level total;
        warnings = generate_warnings factors summary;
      }

  unfoldable pub calculate_from_samples : Instant → List (Instant × ℤ) → Duration → ConfidenceScore
  unfolding calculate_confidence compute_metrics_summary
  calculate_from_samples now [] expected_interval = record empty_score {
    level = very_low;
    warnings = no_data ∷ [];
  }
  calculate_from_samples now (sample ∷ samples) expected_interval =
      calculate_confidence now (compute_metrics_summary sqrt sample samples expected_interval)
