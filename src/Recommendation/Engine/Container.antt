-- ===== src/Recommendation/Engine/Container.antt =====
-- The memory of a container that was killed.
use intelligent_cluster_opti.Prelude.{
  ℕ, String, ◌≡◌, refl, inl, inr, Option-cases, true, ◌&&◌, Option, none, some, List, if◌then◌else◌,
  arith,
}
use intelligent_cluster_opti.Prelude.Int.{ℤ, pos, ◌≤ℤ◌, ltb_ℤ}
use intelligent_cluster_opti.Prelude.Dict.{Dict}
use intelligent_cluster_opti.Prelude.Float64.{ltb_float, of_ℕ, of_ℤ, mul_float, to_int64}
use intelligent_cluster_opti.Api.{Instant, ResourceLimit, ResourceThresholds}
use intelligent_cluster_opti.Recommendation.Types.{ContainerOomDetails}
use intelligent_cluster_opti.Recommendation.Values.{
  Library, SuffixOrders, parse_memory_to_bytes, apply_thresholds,
}
use intelligent_cluster_opti.Recommendation.Engine.Settings.{Engine, Tuning}
use intelligent_cluster_opti.Recommendation.Engine.Groups.{ContainerSample}
use intelligent_cluster_opti.Recommendation.Engine.{
  boost_memory, generate_container_recommendation_with_oom,
}

-- No maximum of memory is set: there are no thresholds, none for memory, or the text is empty.
abbrev pub HasNoMaximum : Option ResourceThresholds → Type 0
HasNoMaximum none = Unit
HasNoMaximum (some thresholds) =
    (limit : ResourceLimit) → thresholds.memory ≡ some limit → limit.max ≡ ""

le_floored :
    (low current value : ℤ)
    → current ≤ℤ value
    → current ≤ℤ (if ltb_ℤ (pos 0) low && ltb_ℤ value low then low else value)
le_floored low current value k = ground (arith, k)

parse_empty :
    (lib : Library) (order : Dict ℕ → Dict ℕ) (memory : String)
    → memory ≡ ""
    → parse_memory_to_bytes lib order memory ≡ pos 0
unfolding parse_memory_to_bytes
parse_empty lib order memory e = rw e refl

apply_thresholds-le :
    (lib : Library) (orders : SuffixOrders) (thresholds : Option ResourceThresholds)
    (current value : ℤ)
    → HasNoMaximum thresholds
    → current ≤ℤ value
    → current ≤ℤ apply_thresholds lib orders value thresholds "memory"
unfolding apply_thresholds
apply_thresholds-le lib orders none current value h k = k
apply_thresholds-le lib orders (some thresholds) current value h k =
    elim (Option-cases thresholds.memory) [
      | inl e ↦ rw e (le_floored (pos 0) current value k)
      | inr (limit, e) ↦
          rw (e, parse_empty lib orders.for_max limit.max (h limit e))
            (le_floored (parse_memory_to_bytes lib orders.for_min limit.min) current value k)
    ]

boost_memory-le :
    (u : ℤ) (oom : ContainerOomDetails) (current recommended : ℤ)
    → ltb_float (of_ℕ 1) oom.recommended_boost ≡ true
    → current ≤ℤ (boost_memory u (some oom) current recommended).0
unfolding boost_memory
boost_memory-le u oom current recommended h =
    rw h (at_least (to_int64 u (mul_float (of_ℤ recommended) oom.recommended_boost)))
  where
    at_least : (boosted : ℤ) → current ≤ℤ (if ltb_ℤ boosted current then current else boosted)
    at_least boosted = ground arith

-- For a container with kills whose boost is above 1, if no maximum of memory is set: whatever the
-- samples, the margin, the percentile and the minimum, and in whatever order the suffixes are tried, not
-- less memory is recommended than it has.
pub generate_container_recommendation_with_oom-le :
    (lib : Library) (engine : Engine) (now : Instant) (container_name : String)
    (samples : List ContainerSample) (tuning : Tuning) (thresholds : Option ResourceThresholds)
    (oom : ContainerOomDetails) (orders : SuffixOrders)
    → ltb_float (of_ℕ 1) oom.recommended_boost ≡ true
    → HasNoMaximum thresholds
    → let rec =
        generate_container_recommendation_with_oom lib engine now container_name samples tuning
          thresholds
          (some oom)
          orders in
      rec.current_memory ≤ℤ rec.recommended_memory
unfolding generate_container_recommendation_with_oom
generate_container_recommendation_with_oom-le lib engine now container_name samples tuning
      thresholds oom orders h allowed =
    apply_thresholds-le lib orders thresholds _ _ allowed (boost_memory-le _ oom _ _ h)
