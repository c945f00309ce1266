-- ===== src/Cost/Tests.antt =====
-- Savings at concrete prices.
use intelligent_cluster_opti.Prelude.{◌≡◌, refl}
use intelligent_cluster_opti.Prelude.Int.{pos}
use intelligent_cluster_opti.Prelude.Float64.{
  of_ℕ, of_ℤ, constant, add_float, sub_float, mul_float, div_float,
}
use intelligent_cluster_opti.Cost.{estimate_savings, calculate_cost}
use intelligent_cluster_opti.Cost.Pricing.{default_pricing}

-- From two cores and two gigabytes to one of each.
halves :
    (estimate_savings default_pricing
      (pos 2000)
      (pos 1000)
      (pos 2147483648)
      (pos 1073741824)).percentage_reduction
    ≡ of_ℕ 50
unfolding estimate_savings calculate_cost of_ℕ of_ℤ constant add_float sub_float mul_float div_float
halves = refl
