-- ===== src/Safety/CircuitBreaker.antt =====
-- pkg/safety/circuit_breaker.go. The breaker keeps its state in the status of the resource, so a
-- method returns the resource beside its result. `time.Now()` is the argument `now`; the lock makes
-- each method one step. `time.ParseDuration` is the parameter `parse_duration`.
pub mod Invariant
mod Trip
mod Tests
use intelligent_cluster_opti.Prelude.{
  String, Bool, true, false, not, Option, none, some, if◌then◌else◌,
}
use intelligent_cluster_opti.Prelude.Int.{ℤ, pos, leb_ℤ, eqb_ℤ, inc64}
use intelligent_cluster_opti.Api.{
  Instant, Duration, sub_time, CircuitState, closed, opened, half_open, other, CircuitBreakerConfig,
  OptimizerConfig,
}

-- `spec.CircuitBreaker == nil || !spec.CircuitBreaker.Enabled` is the negation of this test.
abbrev pub active_breaker : OptimizerConfig → Option CircuitBreakerConfig
active_breaker config = elim config.spec.circuit_breaker [
  | none ↦ none
  | some cb ↦ if cb.enabled then some cb else none
]

abbrev pub is_opened : CircuitState → Bool
is_opened opened = true
is_opened _ = false

abbrev pub is_half_open : CircuitState → Bool
is_half_open half_open = true
is_half_open _ = false

-- The thresholds with their defaults.
abbrev pub success_limit : CircuitBreakerConfig → ℤ
success_limit cb = if eqb_ℤ cb.success_threshold (pos 0) then pos 3 else cb.success_threshold

abbrev pub error_limit : CircuitBreakerConfig → ℤ
error_limit cb = if eqb_ℤ cb.error_threshold (pos 0) then pos 5 else cb.error_threshold

module _ (parse_duration : String → Option Duration) where
  abbrev pub timeout_of : CircuitBreakerConfig → Duration
  timeout_of cb = elim (parse_duration cb.timeout) [ none ↦ pos 300_000_000_000 | some d ↦ d ]

  -- Has the timeout passed since the last update? Without an update it never has.
  abbrev pub is_due : Instant → CircuitBreakerConfig → OptimizerConfig → Bool
  is_due now cb config = elim config.status.last_update_time [
    | none ↦ false
    | some t ↦ leb_ℤ (timeout_of cb) (sub_time now t)
  ]

  unfoldable pub should_allow : Instant → OptimizerConfig → OptimizerConfig × Bool
  should_allow now config = elim (active_breaker config) [
    | none ↦ (config, true)
    | some cb ↦
        if is_opened config.status.circuit_state
        then if is_due now cb config
          then (
            record config {
              status = record (config.status) {
                circuit_state = half_open;
                consecutive_errors = pos 0;
                consecutive_successes = pos 0;
              };
            },
            true,
          )
          else (config, false)
        else (config, true)
  ]

unfoldable pub record_success : Instant → OptimizerConfig → OptimizerConfig × Bool
record_success now config = elim (active_breaker config) [
  | none ↦ (config, false)
  | some cb ↦
      let successes = inc64 config.status.consecutive_successes in
      let counted = record (config.status) {
        consecutive_errors = pos 0;
        consecutive_successes = successes;
        total_updates_applied = inc64 config.status.total_updates_applied;
      } in
      if is_half_open config.status.circuit_state
      then if leb_ℤ (success_limit cb) successes
        then (
          record config {
            status = record counted { circuit_state = closed; consecutive_successes = pos 0 };
          },
          true,
        )
        else (record config { status = record counted { last_update_time = some now } }, false)
      else (record config { status = record counted { last_update_time = some now } }, false)
]

unfoldable pub record_failure : Instant → OptimizerConfig → OptimizerConfig × Bool
record_failure now config = elim (active_breaker config) [
  | none ↦ (config, false)
  | some cb ↦
      let errors = inc64 config.status.consecutive_errors in
      let counted = record (config.status) {
        consecutive_successes = pos 0;
        consecutive_errors = errors;
        total_updates_failed = inc64 config.status.total_updates_failed;
      } in
      let stamped = record config { status = record counted { last_update_time = some now } } in
      if leb_ℤ (error_limit cb) errors
      then if is_opened config.status.circuit_state
        then (stamped, false)
        else (record config { status = record counted { circuit_state = opened } }, true)
      else (stamped, false)
]

unfoldable pub get_state_name : CircuitState → String
get_state_name closed = "Closed"
get_state_name opened = "Open"
get_state_name half_open = "HalfOpen"
get_state_name (other s) = "Unknown"
