-- ===== src/Policy/Engine/Limits.antt =====
-- What the actions do to a recommendation.
use intelligent_cluster_opti.Prelude.{
  String, ◌≡◌, refl, ◌⊎◌, ◌↔◌, false, Option, none, some, arith, is_some,
}
use intelligent_cluster_opti.Prelude.Int.{ℤ, ◌≤ℤ◌}
use intelligent_cluster_opti.Prelude.Dict.{lookup}
use intelligent_cluster_opti.Policy.Types.{Policy, RecommendationInfo, PolicyDecision, ok, Floats}
use intelligent_cluster_opti.Policy.Values.{parse_resource_value}
use intelligent_cluster_opti.Policy.Engine.{
  LimitType, ResourceType, cpu, memory, min, max, param_key, type_name, modify, modify_decision,
  apply_resource_modification,
}

abbrev pub value_or : Option ℤ → ℤ → ℤ
value_or none v = v
value_or (some w) v = w

-- The requests after the decision: a change where there is one, or else the recommendation.
abbrev pub decided : ResourceType → PolicyDecision → RecommendationInfo → ℤ
decided cpu d r = elim d.modified_recommendation [
  | none ↦ r.recommended_cpu
  | some m ↦ value_or m.cpu_request r.recommended_cpu
]
decided memory d r = elim d.modified_recommendation [
  | none ↦ r.recommended_memory
  | some m ↦ value_or m.memory_request r.recommended_memory
]

abbrev pub recommended : ResourceType → RecommendationInfo → ℤ
recommended cpu r = r.recommended_cpu
recommended memory r = r.recommended_memory

abbrev pub opposite : ResourceType → ResourceType
opposite cpu = memory
opposite memory = cpu

-- On the right side of the limit, and moved there only if need be.
abbrev pub IsLimited : LimitType → ℤ → ℤ → ℤ → Type 0
IsLimited min limit v w = (limit ≤ℤ w) × (v ≤ℤ w) × ((w ≡ v) ⊎ (w ≡ limit))
IsLimited max limit v w = (w ≤ℤ limit) × (w ≤ℤ v) × ((w ≡ v) ⊎ (w ≡ limit))

modify-IsLimited :
    (limit_type : LimitType) (resource : ResourceType) (limit : ℤ) (r : RecommendationInfo)
    → let d = modify_decision (modify limit_type resource limit r) in
      IsLimited limit_type limit (recommended resource r) (decided resource d r)
      × (decided (opposite resource) d r ≡ recommended (opposite resource) r)
      × ((is_some d.modified_recommendation ≡ false)
          ↔ (decided resource d r ≡ recommended resource r))
unfolding modify
modify-IsLimited min cpu limit r = ground arith
modify-IsLimited max cpu limit r = ground arith
modify-IsLimited min memory limit r = ground arith
modify-IsLimited max memory limit r = ground arith

-- A limit that is set and can be parsed is kept: the request that results is at least the minimum, or at
-- most the maximum, and no further from the recommendation than that takes; the other resource keeps
-- its recommendation; and no modified recommendation comes with the decision exactly if the request
-- stays the recommendation.
pub apply_resource_modification_lem :
    (f : Floats) (policy : Policy) (r : RecommendationInfo) (resource : ResourceType)
    (limit_type : LimitType) (value : String) (limit : ℤ)
    → lookup (param_key limit_type resource) policy.parameters ≡ some value
    → parse_resource_value f value (type_name resource) ≡ ok limit
    → (d : PolicyDecision) × (apply_resource_modification f policy r resource limit_type ≡ ok d)
      × IsLimited limit_type limit (recommended resource r) (decided resource d r)
      × (decided (opposite resource) d r ≡ recommended (opposite resource) r)
      × ((is_some d.modified_recommendation ≡ false)
          ↔ (decided resource d r ≡ recommended resource r))
unfolding apply_resource_modification
apply_resource_modification_lem f policy r resource limit_type value limit l p =
    let (a, b, c) = modify-IsLimited limit_type resource limit r in
    (
      modify_decision (modify limit_type resource limit r),
      rw (l, p, apply_resource_modification) refl,
      a,
      b,
      c,
    )
