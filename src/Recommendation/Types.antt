-- ===== src/Recommendation/Types.antt =====
-- pkg/recommendation/engine.go: recommendations, how far they change what is there, and how long they
-- hold. `now` is `time.Now()`. The texts of reports are left out.
use intelligent_cluster_opti.Prelude.{
  String, Bool, not, Option, none, some, List, [], ◌∷◌, if◌then◌else◌, keep,
}
use intelligent_cluster_opti.Prelude.Int.{ℤ, pos, ◌-ℤ◌, eqb_ℤ, ltb_ℤ, wrap64}
use intelligent_cluster_opti.Prelude.Float64.{
  Float64, finite, ltb_float, of_ℕ, of_ℤ, mul_float, div_float, abs_float,
}
use intelligent_cluster_opti.Prelude.Dict.{Dict}
use intelligent_cluster_opti.Api.{Instant, Duration, zero_time, sub_time}
use intelligent_cluster_opti.Cost.{SavingsEstimate}
use intelligent_cluster_opti.Recommendation.Confidence.{ConfidenceScore}

pub record ContainerRecommendation : Type 0 where
  pub container_name : String
  pub current_cpu : ℤ  -- int64, millicores
  pub current_memory : ℤ  -- int64, bytes
  pub recommended_cpu : ℤ  -- int64
  pub recommended_memory : ℤ  -- int64
  pub sample_count : ℤ  -- int
  pub cpu_percentile : ℤ  -- int
  pub memory_percentile : ℤ  -- int
  pub confidence : Float64
  pub confidence_details : Option ConfidenceScore
  pub estimated_savings : Option SavingsEstimate
  pub has_oom_history : Bool
  pub oom_count : ℤ  -- int
  pub oom_boost_applied : Float64
  pub oom_priority : String

pub record WorkloadRecommendation : Type 0 where
  pub namespace : String
  pub workload_kind : String
  pub workload_name : String
  pub containers : List ContainerRecommendation
  pub generated_at : Instant
  pub expires_at : Instant
  pub current_total_cpu : ℤ  -- int64
  pub current_total_memory : ℤ  -- int64
  pub total_estimated_savings : Option SavingsEstimate
  pub has_oom_history : Bool
  pub total_oom_count : ℤ  -- int
  pub oom_priority : String

pub record ContainerOomDetails : Type 0 where
  pub oom_count : ℤ  -- int
  pub recommended_boost : Float64
  pub priority : String

-- A nil map reads as the empty one.
pub record OomHistoryInfo : Type 0 where
  pub has_oom_history : Bool
  pub total_oom_count : ℤ  -- int
  pub priority : String
  pub container_ooms : Dict ContainerOomDetails

unfoldable pub calculate_change_percent : ℤ → ℤ → Float64
calculate_change_percent current recommended =
    if eqb_ℤ current (pos 0)
    then (if eqb_ℤ recommended (pos 0) then finite (pos 0) else of_ℕ 100)
    else mul_float (div_float (of_ℤ (wrap64 (recommended -ℤ current))) (of_ℤ current)) (of_ℕ 100)

unfoldable pub max_change_percent : ContainerRecommendation → Float64
unfolding calculate_change_percent
max_change_percent c =
    let cpu_change = abs_float (calculate_change_percent c.current_cpu c.recommended_cpu) in
    let mem_change = abs_float (calculate_change_percent c.current_memory c.recommended_memory) in
    if ltb_float mem_change cpu_change then cpu_change else mem_change

-- 24 hours
abbrev pub default_recommendation_ttl : Duration
default_recommendation_ttl = pos 86400_000_000_000

unfoldable pub is_expired : Instant → WorkloadRecommendation → Bool
is_expired now r =
    if eqb_ℤ r.expires_at zero_time
    then ltb_ℤ default_recommendation_ttl (sub_time now r.generated_at)
    else ltb_ℤ r.expires_at now

unfoldable pub age : Instant → WorkloadRecommendation → Duration
age now r = sub_time now r.generated_at

unfoldable pub time_to_expiry : Instant → WorkloadRecommendation → Duration
unfolding age
time_to_expiry now r =
    if eqb_ℤ r.expires_at zero_time
    then wrap64 (default_recommendation_ttl -ℤ age now r)
    else sub_time r.expires_at now

unfoldable pub filter_expired : Instant → List WorkloadRecommendation → List WorkloadRecommendation
filter_expired now recommendations = keep (λ r. not (is_expired now r)) recommendations

-- Why a recommendation is not applied.
pub data Refusal : Type 0 where
  expired : Refusal
  below_minimum : String → Refusal

pub confidence_loop : Float64 → List ContainerRecommendation → Option Refusal
confidence_loop min_confidence [] = none
confidence_loop min_confidence (c ∷ cs) =
    let rest = confidence_loop min_confidence cs in
    if ltb_float c.confidence min_confidence then some (below_minimum c.container_name) else rest

unfoldable pub should_apply : Instant → Float64 → WorkloadRecommendation → Option Refusal
unfolding is_expired confidence_loop
should_apply now min_confidence r =
    if is_expired now r then some expired else confidence_loop min_confidence r.containers
