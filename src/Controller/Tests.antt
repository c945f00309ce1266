-- ===== src/Controller/Tests.antt =====
-- The theorems of `Reconcile` at a resource whose processing always fails.
use intelligent_cluster_opti.Prelude.{
  ℕ, ◌≡◌, refl, inl, Bool, true, false, none, some, [], ◌∷◌, arith,
}
use intelligent_cluster_opti.Prelude.Int.{ℤ, pos, inc64}
use intelligent_cluster_opti.Api.{
  Instant, minute, closed, active, paused, maintenance_window, CircuitBreakerConfig,
  OptimizerConfig, empty_spec, ready, condition_true,
}
use intelligent_cluster_opti.Safety.CircuitBreaker.{should_allow, record_success, record_failure}
use intelligent_cluster_opti.Scheduler.{
  Calendar, is_in_maintenance_window, get_next_maintenance_window, next_loop,
}
use intelligent_cluster_opti.Controller.{
  ReconcileResult, Process, update_condition, same_type, same_status, set_condition, update_phase,
  mark_window, reconcile_window, reconcile, reconcile_live,
}
use intelligent_cluster_opti.Controller.Breaker.{
  KeepsBreaker, IsQuiet, here, next, Reconciles-not_opened,
}
use intelligent_cluster_opti.Controller.Gates.{reconcile_gated}

-- No schedule parses: these resources have no maintenance windows.
abbrev pub no_calendar : Calendar
no_calendar = record {
  Schedule = Unit;
  Location = Unit;
  parse = λ s. none;
  utc = tt;
  load_location = λ z. none;
  parse_duration = λ s. some minute;
  next = λ s l t. t;
}

abbrev breaker : CircuitBreakerConfig
breaker = record {
  enabled = true;
  error_threshold = pos 2;
  success_threshold = pos 2;
  timeout = "1m";
}

abbrev resource : Bool → ℤ → ℤ → OptimizerConfig
resource enabled applied failures = record {
  namespace = "default";
  name = "web";
  generation = pos 1;
  spec = record empty_spec { enabled = enabled; circuit_breaker = some breaker };
  status = record {
    phase = active;
    observed_generation = pos 1;
    last_recommendation_time = none;
    last_update_time = none;
    circuit_state = closed;
    consecutive_errors = pos 0;
    consecutive_successes = pos 0;
    total_recommendations = pos 0;
    total_updates_applied = applied;
    total_updates_failed = failures;
    conditions = [];
    active_maintenance_window = false;
    next_maintenance_window = none;
  };
}

abbrev pub start : OptimizerConfig
start = resource true (pos 0) (pos 0)

abbrev failing : Process
failing config = (config, some "no metrics")

abbrev clock : ℕ → Instant
clock n = pos n

failing-KeepsBreaker : KeepsBreaker failing
failing-KeepsBreaker = record {
  breaker_kept = λ config. refl;
  state_kept = λ config. refl;
  errors_kept = λ config. refl;
}

start-IsQuiet : IsQuiet breaker start
start-IsQuiet = record { breaker = refl; not_opened = refl; no_errors = refl }

-- The resource after some reconciliations that failed: each is counted as a failure and as a success.
abbrev pub after_failures : ℕ → OptimizerConfig
after_failures n = record start {
  status = record (start.status) {
    last_recommendation_time = some (pos 7);
    last_update_time = some (pos 8);
    consecutive_successes = pos 1;
    total_updates_applied = pos n;
    total_updates_failed = pos n;
    conditions =
        record {
          type = maintenance_window;
          status = condition_true;
          last_transition_time = pos 3;
          reason = "MaintenanceWindowCheck";
          message = "Currently in maintenance window";
        }
        ∷ record {
          type = ready;
          status = condition_true;
          last_transition_time = pos 6;
          reason = "ReconcileSuccess";
          message = "OptimizerConfig reconciled successfully";
        }
        ∷ [];
    active_maintenance_window = true;
  };
}

abbrev pub live_result : ReconcileResult
live_result = record { requeue_after = pos 30_000_000_000; updated = true }

two_failures :
    (reconcile no_calendar failing 1 clock start ≡ some (after_failures 1, live_result))
    × (reconcile no_calendar failing 1 clock (after_failures 1)
        ≡ some (after_failures 2, live_result))
unfolding reconcile reconcile_window reconcile_live mark_window should_allow record_success
    record_failure update_phase update_condition set_condition same_type same_status
    is_in_maintenance_window inc64 get_next_maintenance_window next_loop
two_failures = (refl, refl)

-- Two failures reach the threshold of two.
Reconciles-not_opened_example : IsQuiet breaker (after_failures 2)
Reconciles-not_opened_example =
    Reconciles-not_opened no_calendar breaker 2 refl (omega arith) start-IsQuiet (
      next failing 1 clock live_result
        (next failing 1 clock live_result here failing-KeepsBreaker two_failures.0)
        failing-KeepsBreaker two_failures.1)

abbrev idle : Process
idle config = (config, none)

abbrev disabled : OptimizerConfig
disabled = resource false (pos 4) (pos 1)

-- The same, paused.
abbrev paused_result : OptimizerConfig
paused_result = record disabled { status = record (disabled.status) { phase = paused } }

abbrev no_requeue : ReconcileResult
no_requeue = record { requeue_after = pos 0; updated = true }

pausing : reconcile no_calendar failing 1 clock disabled ≡ some (paused_result, no_requeue)
unfolding reconcile update_phase
pausing = refl

reconcile_gated_example :
    (reconcile no_calendar idle 1 clock disabled ≡ some (paused_result, no_requeue))
    × (pos 4 ≡ disabled.status.total_updates_applied)
    × (pos 1 ≡ disabled.status.total_updates_failed)
    × (pos 0 ≡ disabled.status.total_recommendations)
reconcile_gated_example =
    reconcile_gated no_calendar 1 clock disabled failing idle (inl refl) pausing
