-- ===== src/Recommendation/Engine/Order.antt =====
-- Workloads with kills come first, and those with more kills before those with fewer.
use mathlib.Core.List.{Perm}
use intelligent_cluster_opti.Prelude.{
  ◌≡◌, ◌⊎◌, inl, inr, refl, Bool, true, false, not, ◌&&◌, List, [], ◌∷◌, All, arith, if◌then◌else◌,
}
use intelligent_cluster_opti.Prelude.Int.{ℤ, ◌≤ℤ◌, ltb_ℤ, ltb_ℤ→le}
use intelligent_cluster_opti.Prelude.Exchange.{
  IsExchanged, exchange_sort-perm, exchange_sort-IsExchanged,
}
use intelligent_cluster_opti.Recommendation.Types.{WorkloadRecommendation}
use intelligent_cluster_opti.Recommendation.Engine.{should_swap, sort_recommendations_by_priority}

-- `a` was killed and `b` not, or both were and `b` not more often, or neither was.
abbrev pub IsAhead : WorkloadRecommendation → WorkloadRecommendation → Type 0
IsAhead a b =
    ((a.has_oom_history ≡ true) × (b.has_oom_history ≡ false))
    ⊎ (((a.has_oom_history ≡ true)
          × ((b.has_oom_history ≡ true) × (b.total_oom_count ≤ℤ a.total_oom_count)))
        ⊎ ((a.has_oom_history ≡ false) × (b.has_oom_history ≡ false)))

abbrev pub IsPrioritized : List WorkloadRecommendation → Type 0
IsPrioritized [] = Unit
IsPrioritized (a ∷ recs) = All (IsAhead a) recs × IsPrioritized recs

should_swap-IsAhead : (a b : WorkloadRecommendation) → should_swap a b ≡ false → IsAhead a b
unfolding should_swap
should_swap-IsAhead a b h =
    of_tests a.has_oom_history b.has_oom_history a.total_oom_count b.total_oom_count h
  where
    of_tests :
        (p q : Bool) (m n : ℤ)
        → (if q && not p
            then true
            else if p && not q
            then false
            else if p && q
            then ltb_ℤ m n
            else false)
          ≡ false
        → ((p ≡ true) × (q ≡ false))
          ⊎ (((p ≡ true) × ((q ≡ true) × (n ≤ℤ m))) ⊎ ((p ≡ false) × (q ≡ false)))
    of_tests true true m n h = inr (inl (refl, (refl, ltb_ℤ→le m n h)))
    of_tests true false m n h = inl (refl, refl)
    of_tests false true m n h = cc
    of_tests false false m n h = inr (inr (refl, refl))

should_swap_asym : (a b : WorkloadRecommendation) → should_swap a b ≡ true → should_swap b a ≡ false
unfolding should_swap
should_swap_asym a b h = ground (arith, h)

should_swap_trans :
    (a b c : WorkloadRecommendation)
    → should_swap a b ≡ false
    → should_swap b c ≡ false
    → should_swap a c ≡ false
unfolding should_swap
should_swap_trans a b c h k = ground (arith, h, k)

IsAhead-All :
    (a : WorkloadRecommendation) (recs : List WorkloadRecommendation)
    → All (λ b. should_swap a b ≡ false) recs
    → All (IsAhead a) recs
IsAhead-All a [] h = tt
IsAhead-All a (b ∷ recs) (h, hs) = (should_swap-IsAhead a b h, IsAhead-All a recs hs)

IsExchanged-IsPrioritized :
    (recs : List WorkloadRecommendation) → IsExchanged should_swap recs → IsPrioritized recs
IsExchanged-IsPrioritized [] h = tt
IsExchanged-IsPrioritized (a ∷ recs) (h, hs) =
    (IsAhead-All a recs h, IsExchanged-IsPrioritized recs hs)

-- The sort keeps the recommendations, each as often. No workload without kills stands before one with
-- kills, and among those with kills none with fewer before one with more.
pub sort_recommendations_by_priority-IsPrioritized :
    (recs : List WorkloadRecommendation)
    → Perm recs (sort_recommendations_by_priority recs)
      × IsPrioritized (sort_recommendations_by_priority recs)
unfolding sort_recommendations_by_priority
sort_recommendations_by_priority-IsPrioritized recs = (
  exchange_sort-perm should_swap recs,
  IsExchanged-IsPrioritized _
      (exchange_sort-IsExchanged should_swap should_swap_asym should_swap_trans recs),
)
