-- ===== src/Safety/CircuitBreaker/Tests.antt =====
-- The theorems of the circuit breaker at a breaker with both thresholds two and a timeout of a minute.
use intelligent_cluster_opti.Prelude.{
  String, refl, true, false, Option, none, some, List, [], ◌∷◌, arith,
}
use intelligent_cluster_opti.Prelude.Int.{ℤ, pos}
use intelligent_cluster_opti.Api.{
  Instant, Duration, minute, CircuitState, closed, opened, half_open, active, CircuitBreakerConfig,
  OptimizerConfig, empty_spec,
}
use intelligent_cluster_opti.Safety.CircuitBreaker.Invariant.{
  Call, allow, success, failure, HasLimits, IsBounded, Reports, step, run, run-IsBounded,
  step-Reports,
}
use intelligent_cluster_opti.Safety.CircuitBreaker.Trip.{successes}

abbrev breaker : CircuitBreakerConfig
breaker = record {
  enabled = true;
  error_threshold = pos 2;
  success_threshold = pos 2;
  timeout = "1m";
}

abbrev parse_minute : String → Option Duration
parse_minute s = some minute

-- In a state, with the given counts and last update.
abbrev resource : CircuitState → ℤ → ℤ → Option Instant → OptimizerConfig
resource state errors successes updated = record {
  namespace = "default";
  name = "web";
  generation = pos 1;
  spec = record empty_spec { enabled = true; circuit_breaker = some breaker };
  status = record {
    phase = active;
    observed_generation = pos 1;
    last_recommendation_time = none;
    last_update_time = updated;
    circuit_state = state;
    consecutive_errors = errors;
    consecutive_successes = successes;
    total_recommendations = pos 0;
    total_updates_applied = pos 0;
    total_updates_failed = pos 0;
    conditions = [];
    active_maintenance_window = false;
    next_maintenance_window = none;
  };
}

abbrev fresh : OptimizerConfig
fresh = resource closed (pos 0) (pos 0) none

abbrev tripped : OptimizerConfig
tripped = resource opened (pos 2) (pos 0) (some (pos 0))

abbrev probing : OptimizerConfig
probing = resource half_open (pos 0) (pos 0) (some (pos 0))

abbrev calls : List (Call × Instant)
calls =
    (failure, pos 1)
    ∷ (failure, pos 2)
    ∷ (allow, pos 60_000_000_001)
    ∷ (success, pos 60_000_000_002)
    ∷ []

breaker-HasLimits : HasLimits breaker
breaker-HasLimits = record { error_pos = omega arith; success_pos = omega arith }

fresh-IsBounded : IsBounded breaker fresh.status
fresh-IsBounded = record { errors_below = λ n. omega arith; successes_below = λ e. omega arith }

run-IsBounded_example : IsBounded breaker (run parse_minute calls fresh).status
run-IsBounded_example =
    run-IsBounded parse_minute calls breaker fresh breaker-HasLimits refl fresh-IsBounded

step-Reports_example :
    Reports allow opened
      (step parse_minute allow minute tripped).0.status.circuit_state
      (step parse_minute allow minute tripped).1
step-Reports_example = step-Reports parse_minute allow minute tripped
