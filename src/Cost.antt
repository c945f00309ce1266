-- ===== src/Cost.antt =====
-- pkg/cost/calculator.go: the cost of resources and what a recommendation saves, in `float64`. The texts
-- of reports are left out.
pub mod Pricing
pub mod Workload
mod Tests
use intelligent_cluster_opti.Prelude.{
  ℕ, String, Bool, Option, none, some, List, [], ◌∷◌, if◌then◌else◌,
}
use intelligent_cluster_opti.Prelude.Int.{ℤ, pos, ◌-ℤ◌, ◌*ℤ◌, wrap64}
use intelligent_cluster_opti.Prelude.Float64.{
  Float64, finite, ltb_float, of_ℕ, of_ℤ, constant, add_float, sub_float, mul_float, div_float,
}
use intelligent_cluster_opti.Prelude.Dict.{Dict, lookup}
use intelligent_cluster_opti.Cost.Pricing.{PricingModel}

pub record ResourceCost : Type 0 where
  pub cpu_cost_per_hour : Float64
  pub memory_cost_per_hour : Float64
  pub total_per_hour : Float64
  pub total_per_day : Float64
  pub total_per_month : Float64
  pub total_per_year : Float64

pub record SavingsEstimate : Type 0 where
  pub current_cost : ResourceCost
  pub recommended_cost : ResourceCost
  pub cpu_savings_per_hour : Float64
  pub memory_savings_per_hour : Float64
  pub total_savings_per_hour : Float64
  pub savings_per_day : Float64
  pub savings_per_month : Float64
  pub savings_per_year : Float64
  pub percentage_reduction : Float64
  pub cpu_reduction : Float64
  pub memory_reduction : ℤ  -- int64

-- `total * 24`, `total * 24 * 30` and `total * 24 * 365`
abbrev per_day : Float64 → Float64
per_day total = mul_float total (of_ℕ 24)

abbrev per_month : Float64 → Float64
per_month total = mul_float (per_day total) (of_ℕ 30)

abbrev per_year : Float64 → Float64
per_year total = mul_float (per_day total) (of_ℕ 365)

-- A cost of which only the totals are known.
abbrev of_total : Float64 → ResourceCost
of_total total = record {
  cpu_cost_per_hour = finite (pos 0);
  memory_cost_per_hour = finite (pos 0);
  total_per_hour = total;
  total_per_day = per_day total;
  total_per_month = per_month total;
  total_per_year = per_year total;
}

unfoldable pub calculate_cost : PricingModel → ℤ → ℤ → ResourceCost
calculate_cost pricing cpu_millicores memory_bytes =
    let cpu_cores = div_float (of_ℤ cpu_millicores) (of_ℕ 1000) in
    let memory_gb = div_float (of_ℤ memory_bytes) (of_ℕ 1073741824) in
    let cpu_cost = mul_float cpu_cores pricing.cpu_per_core_hour in
    let memory_cost = mul_float memory_gb pricing.memory_per_gb_hour in
    record (of_total (add_float cpu_cost memory_cost)) {
      cpu_cost_per_hour = cpu_cost;
      memory_cost_per_hour = memory_cost;
    }

-- The part of `total` in `current`, in percent.
abbrev reduction : Float64 → Float64 → Float64
reduction total current =
    if ltb_float (finite (pos 0)) current
    then mul_float (div_float total current) (of_ℕ 100)
    else finite (pos 0)

-- The estimate of two costs and two savings.
abbrev pub estimate_of : ResourceCost → ResourceCost → Float64 → Float64 → SavingsEstimate
estimate_of current recommended cpu_savings memory_savings =
    let total = add_float cpu_savings memory_savings in
    record {
      current_cost = current;
      recommended_cost = recommended;
      cpu_savings_per_hour = cpu_savings;
      memory_savings_per_hour = memory_savings;
      total_savings_per_hour = total;
      savings_per_day = per_day total;
      savings_per_month = per_month total;
      savings_per_year = per_year total;
      percentage_reduction = reduction total current.total_per_hour;
      cpu_reduction = finite (pos 0);
      memory_reduction = pos 0;
    }

unfoldable pub estimate_savings : PricingModel → ℤ → ℤ → ℤ → ℤ → SavingsEstimate
unfolding calculate_cost
estimate_savings pricing current_cpu recommended_cpu current_memory recommended_memory =
    let current = calculate_cost pricing current_cpu current_memory in
    let recommended = calculate_cost pricing recommended_cpu recommended_memory in
    record (estimate_of current recommended
      (sub_float current.cpu_cost_per_hour recommended.cpu_cost_per_hour)
      (sub_float current.memory_cost_per_hour recommended.memory_cost_per_hour)) {
        cpu_reduction = of_ℤ (wrap64 (current_cpu -ℤ recommended_cpu));
        memory_reduction = wrap64 (current_memory -ℤ recommended_memory);
      }

unfoldable pub scale_resource_cost : ResourceCost → ℤ → ResourceCost
scale_resource_cost cost replicas =
    let factor = of_ℤ replicas in
    record {
      cpu_cost_per_hour = mul_float cost.cpu_cost_per_hour factor;
      memory_cost_per_hour = mul_float cost.memory_cost_per_hour factor;
      total_per_hour = mul_float cost.total_per_hour factor;
      total_per_day = mul_float cost.total_per_day factor;
      total_per_month = mul_float cost.total_per_month factor;
      total_per_year = mul_float cost.total_per_year factor;
    }

unfoldable pub scale_savings : SavingsEstimate → ℤ → SavingsEstimate
unfolding scale_resource_cost
scale_savings savings replica_count =
    let factor = of_ℤ replica_count in
    record {
      current_cost = scale_resource_cost savings.current_cost replica_count;
      recommended_cost = scale_resource_cost savings.recommended_cost replica_count;
      cpu_savings_per_hour = mul_float savings.cpu_savings_per_hour factor;
      memory_savings_per_hour = mul_float savings.memory_savings_per_hour factor;
      total_savings_per_hour = mul_float savings.total_savings_per_hour factor;
      savings_per_day = mul_float savings.savings_per_day factor;
      savings_per_month = mul_float savings.savings_per_month factor;
      savings_per_year = mul_float savings.savings_per_year factor;
      percentage_reduction = savings.percentage_reduction;
      cpu_reduction = mul_float savings.cpu_reduction factor;
      memory_reduction = wrap64 (savings.memory_reduction *ℤ replica_count);
    }

-- The four sums that the loops over containers keep.
pub record Totals : Type 0 where
  pub cpu_savings : Float64
  pub memory_savings : Float64
  pub current_cost : Float64
  pub recommended_cost : Float64

abbrev pub no_totals : Totals
no_totals = record {
  cpu_savings = finite (pos 0);
  memory_savings = finite (pos 0);
  current_cost = finite (pos 0);
  recommended_cost = finite (pos 0);
}

abbrev pub add_totals : SavingsEstimate → Totals → Totals
add_totals savings totals = record {
  cpu_savings = add_float totals.cpu_savings savings.cpu_savings_per_hour;
  memory_savings = add_float totals.memory_savings savings.memory_savings_per_hour;
  current_cost = add_float totals.current_cost savings.current_cost.total_per_hour;
  recommended_cost = add_float totals.recommended_cost savings.recommended_cost.total_per_hour;
}

abbrev pub estimate_of_totals : Totals → SavingsEstimate
estimate_of_totals totals =
    estimate_of (of_total totals.current_cost) (of_total totals.recommended_cost) totals.cpu_savings
      totals.memory_savings
