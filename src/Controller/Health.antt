-- ===== src/Controller/Health.antt =====
-- pkg/sla/health_checker.go and types.go, as far as pkg/controller/reconciler.go asks before an update:
-- the health of the system, which the reconciler takes for good, and whether it blocks an update.
use intelligent_cluster_opti.Prelude.{
  ◌*◌, ◌^◌, Bool, true, false, not, ◌||◌, Option, none, some, List, [], ◌∷◌,
}
use intelligent_cluster_opti.Prelude.Int.{pos}
use intelligent_cluster_opti.Prelude.Float64.{Float64, finite, ltb_float}
use intelligent_cluster_opti.Api.{OptimizerConfig}

-- `sla.HealthCheckResult`: of a violation, its severity.
pub record HealthCheckResult : Type 0 where
  pub is_healthy : Bool
  pub violations : List Float64

unfoldable pub check_system_health : OptimizerConfig → HealthCheckResult
check_system_health config = record { is_healthy = true; violations = [] }

-- `violation.Severity > 0.8`, for some violation.
unfoldable pub has_critical : List Float64 → Bool
has_critical [] = false
has_critical (severity ∷ violations) =
    ltb_float (finite (pos (7205759403792794 * 2 ^ 1021))) severity || has_critical violations

unfoldable pub should_block_optimization : Option HealthCheckResult → Bool
unfolding has_critical
should_block_optimization none = true
should_block_optimization (some result) = not result.is_healthy || has_critical result.violations
