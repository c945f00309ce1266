-- ===== src/Webhook/Consequences.antt =====
-- What the other components gain from a resource that the webhook has accepted: its breaker keeps its
-- bounds, and the scheduler finds no fault with its windows.
use intelligent_cluster_opti.Prelude.{
  subst, ◌≡◌, inl, inr, true, Option, none, some, List, [], ◌∷◌, arith, All, if◌then◌else◌, eq_iff,
  Bool-cases,
}
use intelligent_cluster_opti.Prelude.Int.{pos, ◌<ℤ◌}
use intelligent_cluster_opti.Api.{
  Instant, closed, CircuitBreakerConfig, MaintenanceWindow, OptimizerConfig,
}
use intelligent_cluster_opti.Safety.CircuitBreaker.{active_breaker}
use intelligent_cluster_opti.Safety.CircuitBreaker.Invariant.{
  Call, HasLimits, IsBounded, run, run-IsBounded,
}
use intelligent_cluster_opti.Scheduler.{validate_maintenance_window}
use intelligent_cluster_opti.Webhook.{Environment, validate_create}
use intelligent_cluster_opti.Webhook.Checks.{WhenSome, Gives}
use intelligent_cluster_opti.Webhook.Accepted.{IsBreaker, IsWindow}
use intelligent_cluster_opti.Webhook.Decides.{validate_create-IsAccepted}

module _ (e : Environment) where
  open e use {calendar}

  breaker-HasLimits : (cb : CircuitBreakerConfig) → IsBreaker e cb → HasLimits cb
  breaker-HasLimits cb b = record {
    error_pos = ground (arith, b.errors);
    success_pos = ground (arith, b.successes);
  }

  active_breaker-HasLimits :
      (config : OptimizerConfig) (cb : CircuitBreakerConfig)
      → WhenSome (IsBreaker e) config.spec.circuit_breaker
      → active_breaker config ≡ some cb
      → HasLimits cb
  active_breaker-HasLimits config cb w a = of_spec config.spec.circuit_breaker w a
    where
      of_spec :
          (spec : Option CircuitBreakerConfig)
          → WhenSome (IsBreaker e) spec
          → (elim spec [ none ↦ none | some cb ↦ if cb.enabled then some cb else none ]) ≡ some cb
          → HasLimits cb
      of_spec none w a = cc
      of_spec (some cb') w a = elim (Bool-cases cb'.enabled) [
        | inl on ↦ subst HasLimits (ground (arith, a, on)) (breaker-HasLimits cb' w)
        | inr off ↦ ground (arith, a, off)
      ]

  -- A resource that the webhook accepts and whose breaker is enabled, in the status of a new resource
  -- (closed, nothing counted): no sequence of calls of the breaker, at whatever instants, brings the
  -- error count to its threshold without the breaker being open, nor the success count of a half-open
  -- breaker to its threshold.
  pub validate_create-IsBounded :
      (calls : List (Call × Instant)) (cb : CircuitBreakerConfig) (config : OptimizerConfig)
      → validate_create e config ≡ none
      → active_breaker config ≡ some cb
      → config.status.circuit_state ≡ closed
      → config.status.consecutive_errors ≡ pos 0
      → IsBounded cb (run calendar.parse_duration calls config).status
  validate_create-IsBounded calls cb config v a s z =
      let accepted = (validate_create-IsAccepted e config config).0.0 v in
      let limits = active_breaker-HasLimits config cb accepted.breaker a in
      run-IsBounded calendar.parse_duration calls cb config limits a
        (record { errors_below = λ n. rw z limits.error_pos; successes_below = λ h. cc })

  -- A window that the webhook accepts: the scheduler can read it, and its duration is positive.
  abbrev pub IsUsable : MaintenanceWindow → Type 0
  IsUsable window =
      (validate_maintenance_window calendar window ≡ true)
      × Gives (calendar.parse_duration window.duration) (λ d. pos 0 <ℤ d)

  window-IsUsable :
      (window : MaintenanceWindow)
      → Gives (calendar.load_location "UTC") (λ l. Unit {0})
      → IsWindow e window
      → IsUsable window
  unfolding validate_maintenance_window
  window-IsUsable window u w =
      let (a, h, a') = w.schedule in
      let (d, k, d') = w.duration in
      let (l, m, l') = u in
      (
        elim w.zone [
          | inl z ↦ ground (arith, h, k, m, z, eq_iff window.timezone "UTC")
          | inr (l, n, l') ↦ ground (arith, h, k, n)
        ],
        w.duration,
      )

  All-IsUsable :
      (windows : List MaintenanceWindow)
      → Gives (calendar.load_location "UTC") (λ l. Unit {0})
      → All (IsWindow e) windows
      → All IsUsable windows
  All-IsUsable [] u w = tt
  All-IsUsable (window ∷ windows) u (w, ws) =
      (window-IsUsable window u w, All-IsUsable windows u ws)

  -- Where "UTC" can be loaded: of a resource that the webhook accepts, the scheduler can read every
  -- maintenance window (its schedule, its duration and its time zone), and every window has a positive
  -- duration.
  pub validate_create-IsUsable :
      (config : OptimizerConfig)
      → Gives (calendar.load_location "UTC") (λ l. Unit {0})
      → validate_create e config ≡ none
      → All IsUsable config.spec.maintenance_windows
  validate_create-IsUsable config u v =
      All-IsUsable config.spec.maintenance_windows u
        ((validate_create-IsAccepted e config config).0.0 v).windows
