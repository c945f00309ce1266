-- ===== src/Webhook/Tests.antt =====
-- A calendar with one duration and one schedule, numbers as quantities, and the validation run in it.
use intelligent_cluster_opti.Prelude.{
  ℕ, ◌≡◌, ◌↔◌, refl, true, false, none, some, List, [], ◌∷◌, str_eq, ltb, if◌then◌else◌,
}
use intelligent_cluster_opti.Prelude.Int.{pos, ◌+ℤ◌}
use intelligent_cluster_opti.Api.{
  Instant, closed, unset, CircuitBreakerConfig, MaintenanceWindow, OptimizerConfig, empty_spec,
}
use intelligent_cluster_opti.Safety.CircuitBreaker.Invariant.{Call, IsBounded, run}
use intelligent_cluster_opti.Scheduler.{Calendar}
use intelligent_cluster_opti.Webhook.{
  Environment, Problem, validate_update, validate_resource_limit, validate_create,
  validate_target_namespaces, validate_namespace, validate_window, validate_breaker,
  validate_duration, check_each, validate_profile, validate_maintenance_windows,
  validate_resource_thresholds, validate_recommendation_config, validate_update_strategy,
  validate_circuit_breaker, validate_git_ops_export, validate_exclude_workloads,
}
use intelligent_cluster_opti.Webhook.Accepted.{IsAccepted}
use intelligent_cluster_opti.Webhook.Decides.{validate_create-IsAccepted}
use intelligent_cluster_opti.Webhook.Consequences.{validate_create-IsBounded}

abbrev hourly : Calendar
hourly = record {
  Schedule = Unit;
  Location = Unit;
  parse = λ s. if str_eq s "0 * * * *" then some tt else none;
  utc = tt;
  load_location = λ zone. if str_eq zone "UTC" then some tt else none;
  parse_duration = λ s. if str_eq s "1h" then some (pos 3_600_000_000_000) else none;
  next = λ s l t. t +ℤ pos 3_600_000_000_000;
}

abbrev pub plain : Environment
plain = record {
  calendar = hourly;
  Quantity = ℕ;
  parse_quantity = λ s. if str_eq s "1" then some 1 else if str_eq s "2" then some 2 else none;
  is_less = ltb;
  is_positive = λ q. ltb 0 q;
  matches = λ pattern text. str_eq text "default";
  compiles = λ pattern. true;
  atoi = λ s. none;
  cut_percent = λ s. none;
}

abbrev breaker : CircuitBreakerConfig
breaker = record {
  enabled = true;
  error_threshold = pos 2;
  success_threshold = pos 1;
  timeout = "1h";
}

abbrev window : MaintenanceWindow
window = record { schedule = "0 * * * *"; duration = "1h"; timezone = "" }

abbrev pub config : OptimizerConfig
config = record {
  namespace = "default";
  name = "c";
  generation = pos 1;
  spec = record empty_spec {
    target_namespaces = "default" ∷ [];
    maintenance_windows = window ∷ [];
    circuit_breaker = some breaker;
  };
  status = record {
    phase = unset;
    observed_generation = pos 0;
    last_recommendation_time = none;
    last_update_time = none;
    circuit_state = closed;
    consecutive_errors = pos 0;
    consecutive_successes = pos 0;
    total_recommendations = pos 0;
    total_updates_applied = pos 0;
    total_updates_failed = pos 0;
    conditions = [];
    active_maintenance_window = false;
    next_maintenance_window = none;
  };
}

pub accepts : validate_create plain config ≡ none
unfolding validate_create validate_target_namespaces validate_namespace validate_window
    validate_breaker validate_duration check_each validate_profile validate_maintenance_windows
    validate_resource_thresholds validate_recommendation_config validate_update_strategy
    validate_circuit_breaker validate_git_ops_export validate_exclude_workloads
accepts = refl

-- Equal bounds are refused: the minimum is to be less.
refuses_equal_limits :
    validate_resource_limit plain (record { min = "2"; max = "2" }) ≡ some Problem.limit_order
unfolding validate_resource_limit
refuses_equal_limits = refl

-- "UTC" is accepted without a look at the time zones.
accepts_utc :
    validate_window
      (record plain { calendar = record hourly { load_location = λ zone. none } })
      (record window { timezone = "UTC" })
    ≡ none
unfolding validate_window
accepts_utc = refl

validate_create-IsAccepted_example :
    ((validate_create plain config ≡ none) ↔ IsAccepted plain config)
    × (validate_update plain config config ≡ validate_create plain config)
validate_create-IsAccepted_example = validate_create-IsAccepted plain config config

abbrev calls : List (Call × Instant)
calls = (Call.failure, pos 1) ∷ (Call.failure, pos 2) ∷ []

validate_create-IsBounded_example :
    IsBounded breaker (run hourly.parse_duration calls config).status
validate_create-IsBounded_example =
    validate_create-IsBounded plain calls breaker config accepts refl refl refl
