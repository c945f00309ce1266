-- ===== src/Recommendation/Confidence/Summary/Times.antt =====
-- What the sort of the times does.
use mathlib.Core.List.{Perm}
use intelligent_cluster_opti.Prelude.{◌≡◌, false, List, [], ◌∷◌, All, arith}
use intelligent_cluster_opti.Prelude.Int.{◌≤ℤ◌, ltb_ℤ→le}
use intelligent_cluster_opti.Prelude.Exchange.{
  IsExchanged, exchange_sort-perm, exchange_sort-IsExchanged,
}
use intelligent_cluster_opti.Api.{Instant}
use intelligent_cluster_opti.Recommendation.Confidence.Summary.{is_before, sort_time_slice}

-- No time is before one that stands earlier.
abbrev pub IsAscending : List Instant → Type 0
IsAscending [] = Unit
IsAscending (t ∷ times) = All (λ u. t ≤ℤ u) times × IsAscending times

later-All :
    (t : Instant) (times : List Instant)
    → All (λ u. is_before t u ≡ false) times
    → All (λ u. t ≤ℤ u) times
later-All t [] h = tt
later-All t (u ∷ times) (e, h) = (ltb_ℤ→le u t e, later-All t times h)

IsExchanged-IsAscending : (times : List Instant) → IsExchanged is_before times → IsAscending times
IsExchanged-IsAscending [] h = tt
IsExchanged-IsAscending (t ∷ times) (h, k) = (later-All t times h, IsExchanged-IsAscending times k)

-- Sorting any times, equal ones included, keeps the same times, each as often, and puts no time before an
-- earlier one.
pub sort_time_slice-IsAscending :
    (times : List Instant)
    → Perm times (sort_time_slice times) × IsAscending (sort_time_slice times)
unfolding sort_time_slice
sort_time_slice-IsAscending times = (
  exchange_sort-perm is_before times,
  IsExchanged-IsAscending _ (
      exchange_sort-IsExchanged is_before (λ t u h. ground arith) (λ t u v h k. ground arith)
        times),
)
