-- ===== src/Cost/Workload.antt =====
-- pkg/cost/calculator.go: what is saved on a workload.
use intelligent_cluster_opti.Prelude.{String, List, [], ◌∷◌}
use intelligent_cluster_opti.Prelude.Int.{ℤ}
use intelligent_cluster_opti.Cost.Pricing.{PricingModel}
use intelligent_cluster_opti.Cost.{
  SavingsEstimate, Totals, no_totals, add_totals, estimate_of_totals, estimate_savings,
  scale_savings,
}

pub record ContainerSavings : Type 0 where
  pub container_name : String
  pub namespace : String
  pub workload_name : String
  pub savings : SavingsEstimate
  pub replica_count : ℤ  -- int32
  pub total_savings : SavingsEstimate

pub record WorkloadSavings : Type 0 where
  pub namespace : String
  pub workload_kind : String
  pub workload_name : String
  pub replica_count : ℤ  -- int32
  pub containers : List ContainerSavings
  pub total_savings : SavingsEstimate

pub record ContainerResourceChange : Type 0 where
  pub container_name : String
  pub current_cpu : ℤ  -- int64, as all below
  pub recommended_cpu : ℤ
  pub current_memory : ℤ
  pub recommended_memory : ℤ

-- The body of the loop.
unfoldable pub container_savings :
    PricingModel → String → String → ℤ → ContainerResourceChange → ContainerSavings
unfolding estimate_savings scale_savings
container_savings pricing namespace workload_name replica_count container =
    let savings =
      estimate_savings pricing container.current_cpu container.recommended_cpu
        container.current_memory container.recommended_memory in
    record {
      container_name = container.container_name;
      namespace = namespace;
      workload_name = workload_name;
      savings = savings;
      replica_count = replica_count;
      total_savings = scale_savings savings replica_count;
    }

-- The loop, from the sums so far.
pub savings_loop : List ContainerSavings → Totals → Totals
savings_loop [] totals = totals
savings_loop (c ∷ cs) totals = savings_loop cs (add_totals c.total_savings totals)

pub savings_of :
    PricingModel → String → String → ℤ → List ContainerResourceChange → List ContainerSavings
savings_of pricing namespace workload_name replica_count [] = []
savings_of pricing namespace workload_name replica_count (c ∷ cs) =
    container_savings pricing namespace workload_name replica_count c
    ∷ savings_of pricing namespace workload_name replica_count cs

unfoldable pub estimate_workload_savings :
    PricingModel → String → String → String → ℤ → List ContainerResourceChange → WorkloadSavings
unfolding savings_loop savings_of
estimate_workload_savings pricing namespace workload_kind workload_name replica_count containers =
    let savings = savings_of pricing namespace workload_name replica_count containers in
    record {
      namespace = namespace;
      workload_kind = workload_kind;
      workload_name = workload_name;
      replica_count = replica_count;
      containers = savings;
      total_savings = estimate_of_totals (savings_loop savings no_totals);
    }
