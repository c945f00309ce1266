-- ===== src/Recommendation/Values/Bounds.antt =====
-- The thresholds bound what is recommended.
use intelligent_cluster_opti.Prelude.{
  String, ◌≡◌, ◌↔◌, Bool, true, some, ◌&&◌, ◌||◌, arith, if◌then◌else◌,
}
use intelligent_cluster_opti.Prelude.Int.{ℤ, pos, ltb_ℤ, leb_ℤ}
use intelligent_cluster_opti.Api.{ResourceThresholds}
use intelligent_cluster_opti.Recommendation.Values.{
  Library, SuffixOrders, limits_of, apply_thresholds,
}

-- Is a value in a limit, where 0 and less is none?
abbrev pub is_not_below : ℤ → ℤ → Bool
is_not_below value low = leb_ℤ low (pos 0) || leb_ℤ low value

abbrev pub is_not_above : ℤ → ℤ → Bool
is_not_above value high = leb_ℤ high (pos 0) || leb_ℤ value high

-- In the two limits, and the value itself exactly if that is in them.
pub record IsWithin (limits : ℤ × ℤ) (value result : ℤ) : Type 0 where
  pub at_least : is_not_below result limits.0 ≡ true
  pub at_most : is_not_above result limits.1 ≡ true
  pub unchanged :
      (result ≡ value)
      ↔ ((is_not_below value limits.0 ≡ true) × (is_not_above value limits.1 ≡ true))

bounded :
    (low high value : ℤ)
    → is_not_above low high ≡ true
    → IsWithin
        (low, high)
        value
        (if ltb_ℤ (pos 0) low && ltb_ℤ value low
          then low
          else if ltb_ℤ (pos 0) high && ltb_ℤ high value
          then high
          else value)
bounded low high value h = record {
  at_least = ground (arith, h);
  at_most = ground (arith, h);
  unchanged = (λ e. (ground (arith, h, e), ground (arith, h, e)), λ (p, q). ground (arith, p, q));
}

-- If the maximum that is set, as this call reads it, is not below the minimum: what the thresholds make of a value is not below a
-- minimum that is set and not above a maximum that is set. It is the value itself exactly if that is so
-- already.
pub apply_thresholds-IsWithin :
    (lib : Library) (orders : SuffixOrders) (value : ℤ) (thresholds : ResourceThresholds)
    (resource_type : String)
    → (let limits = limits_of lib orders thresholds resource_type in
        is_not_above limits.0 limits.1 ≡ true)
    → IsWithin
        (limits_of lib orders thresholds resource_type)
        value
        (apply_thresholds lib orders value (some thresholds) resource_type)
unfolding apply_thresholds
apply_thresholds-IsWithin lib orders value thresholds resource_type h =
    let (low, high) = limits_of lib orders thresholds resource_type in bounded low high value h
