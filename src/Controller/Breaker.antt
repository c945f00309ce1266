-- ===== src/Controller/Breaker.antt =====
-- What `Reconcile` makes of the circuit breaker. `RecordSuccess` runs at the end of every live
-- reconciliation, also after `RecordFailure`, and takes the error count back to zero.
use intelligent_cluster_opti.Prelude.{
  ℕ, ◌<◌, leb, String, ◌≡◌, ◌∙◌, Bool, true, false, Option, some, arith, Option-cases, Bool-cases,
  inl, inr,
}
use intelligent_cluster_opti.Prelude.Int.{pos, inc64_pos}
use intelligent_cluster_opti.Api.{Instant, CircuitBreakerConfig, OptimizerConfig}
use intelligent_cluster_opti.Safety.CircuitBreaker.{
  active_breaker, error_limit, is_opened, should_allow, record_success, record_failure,
}
use intelligent_cluster_opti.Scheduler.{Calendar}
use intelligent_cluster_opti.Controller.{
  ReconcileResult, Process, when_active, mark_window, is_outside, reconcile, reconcile_live,
  reconcile_window,
}

-- The processing leaves alone what the breaker reads.
pub record KeepsBreaker (process : Process) : Type 0 where
  pub breaker_kept :
      (config : OptimizerConfig) → active_breaker (process config).0 ≡ active_breaker config
  pub state_kept :
      (config : OptimizerConfig)
      → (process config).0.status.circuit_state ≡ config.status.circuit_state
  pub errors_kept :
      (config : OptimizerConfig)
      → (process config).0.status.consecutive_errors ≡ config.status.consecutive_errors

-- An enabled breaker that is not open and has counted no error.
pub record IsQuiet (cb : CircuitBreakerConfig) (config : OptimizerConfig) : Type 0 where
  pub breaker : active_breaker config ≡ some cb
  pub not_opened : is_opened config.status.circuit_state ≡ false
  pub no_errors : config.status.consecutive_errors ≡ pos 0

module _ (cb : CircuitBreakerConfig) (limit : ℕ) (l : error_limit cb ≡ pos limit)
    (h : 1 < limit) where
  failure_kept :
      (now : Instant) (config : OptimizerConfig)
      → IsQuiet cb config
      → (active_breaker (record_failure now config).0 ≡ some cb)
        × (is_opened (record_failure now config).0.status.circuit_state ≡ false)
  unfolding record_failure
  failure_kept now config q = ground (arith, inc64_pos 0)

  success-IsQuiet :
      (now : Instant) (config : OptimizerConfig)
      → active_breaker config ≡ some cb
      → is_opened config.status.circuit_state ≡ false
      → IsQuiet cb (record_success now config).0
  unfolding record_success
  success-IsQuiet now config a o = ground arith

  allow-IsQuiet :
      (parse_duration : String → Option Instant) (now : Instant) (config : OptimizerConfig)
      → IsQuiet cb config
      → should_allow parse_duration now config ≡ (config, true)
  unfolding should_allow
  allow-IsQuiet parse_duration now config q = ground arith

  when_success :
      (now : Instant) (config : OptimizerConfig)
      → active_breaker config ≡ some cb
      → is_opened config.status.circuit_state ≡ false
      → IsQuiet cb (when_active (record_success now) false config).0
  when_success now config a o = ground (arith, success-IsQuiet now config a o)

  when_failure :
      (now : Instant) (config : OptimizerConfig)
      → IsQuiet cb config
      → let after = (when_active (record_failure now) false config).0 in
        (active_breaker after ≡ some cb) × (is_opened after.status.circuit_state ≡ false)
  when_failure now config q = ground (arith, failure_kept now config q)

  module _ (process : Process) (kept : KeepsBreaker process) where
    process-IsQuiet : (config : OptimizerConfig) → IsQuiet cb config → IsQuiet cb (process config).0
    process-IsQuiet config q =
        ground (arith, kept.breaker_kept config, kept.state_kept config, kept.errors_kept config)

    live-IsQuiet :
        (clock : ℕ → Instant) (config : OptimizerConfig)
        → IsQuiet cb config
        → IsQuiet cb (reconcile_live process clock config).0
    unfolding reconcile_live
    live-IsQuiet clock config q = elim (Option-cases (process config).1) [
      | inl e ↦
          let q' = process-IsQuiet config q in
          rw (e) (when_success (clock 8) _ q'.breaker q'.not_opened)
      | inr (x, e) ↦
          let f = when_failure (clock 5) (process config).0 (process-IsQuiet config q) in
          rw (e) (when_success (clock 8) _ f.0 f.1)
    ]

    module _ (c : Calendar) where
      mark-IsQuiet :
          (clock : ℕ → Instant) (in_window : Bool) (config : OptimizerConfig)
          → IsQuiet cb config
          → IsQuiet cb (mark_window c clock in_window config)
      unfolding mark_window
      mark-IsQuiet clock in_window config q = record {
        breaker = q.breaker;
        not_opened = q.not_opened;
        no_errors = q.no_errors;
      }

      window-IsQuiet :
          (clock : ℕ → Instant) (in_window : Bool) (config : OptimizerConfig)
          → IsQuiet cb config
          → IsQuiet cb (reconcile_window c process clock in_window config).0
      unfolding reconcile_window
      window-IsQuiet clock in_window config q =
          let marked = mark_window c clock in_window config in
          let q' = mark-IsQuiet clock in_window config q in
          elim (Bool-cases (is_outside in_window marked)) [
            | inl out ↦ rw out q'
            | inr live ↦ rw live (live-IsQuiet clock marked q')
          ]

      pub reconcile-IsQuiet :
          (fuel : ℕ) (clock : ℕ → Instant) (config : OptimizerConfig) {after : OptimizerConfig}
          {result : ReconcileResult}
          → IsQuiet cb config
          → reconcile c process fuel clock config ≡ some (after, result)
          → IsQuiet cb after
      unfolding reconcile
      reconcile-IsQuiet fuel clock config q e = ground (
        arith,
        allow-IsQuiet c.parse_duration (clock 0) config q,
        window-IsQuiet clock true config q,
        window-IsQuiet clock false config q,
      )

-- The resource after some reconciliations, each with its own processing, fuel and clock.
pub data Reconciles (c : Calendar) (start : OptimizerConfig) : OptimizerConfig → Type 0 where
  here : Reconciles c start start
  next :
      {now after : OptimizerConfig} (process : Process) (fuel : ℕ) (clock : ℕ → Instant)
      (result : ReconcileResult)
      → Reconciles c start now
      → KeepsBreaker process
      → reconcile c process fuel clock now ≡ some (after, result)
      → Reconciles c start after

-- If the error threshold is more than one, then no sequence of reconciliations opens an enabled
-- breaker that starts out not open and with no error counted, however many of them fail, as long as
-- what is processed leaves the fields of the breaker alone.
pub Reconciles-not_opened :
    (c : Calendar) (cb : CircuitBreakerConfig) (limit : ℕ) {start after : OptimizerConfig}
    → error_limit cb ≡ pos limit
    → 1 < limit
    → IsQuiet cb start
    → Reconciles c start after
    → IsQuiet cb after
Reconciles-not_opened c cb limit l h q here = q
Reconciles-not_opened c cb limit l h q (next {now = now} process fuel clock result before kept e) =
    reconcile-IsQuiet cb limit l h process kept c fuel clock now
      (Reconciles-not_opened c cb limit l h q before) e

module _ (cb : CircuitBreakerConfig) (limit : ℕ) (l : error_limit cb ≡ pos limit) where
  failure_opens :
      (now : Instant) (config : OptimizerConfig)
      → IsQuiet cb config
      → let after = (record_failure now config).0 in
        (active_breaker after ≡ some cb) × (is_opened after.status.circuit_state ≡ leb limit 1)
  unfolding record_failure
  failure_opens now config q = ground (arith, inc64_pos 0)

  success_keeps :
      (now : Instant) (config : OptimizerConfig)
      → active_breaker config ≡ some cb
      → let after = (when_active (record_success now) false config).0 in
        (is_opened after.status.circuit_state ≡ is_opened config.status.circuit_state)
        × (after.status.consecutive_errors ≡ pos 0)
  unfolding record_success
  success_keeps now config a = ground arith

  when_failure_opens :
      (now : Instant) (config : OptimizerConfig)
      → IsQuiet cb config
      → let after = (when_active (record_failure now) false config).0 in
        (active_breaker after ≡ some cb) × (is_opened after.status.circuit_state ≡ leb limit 1)
  when_failure_opens now config q = ground (arith, failure_opens now config q)

  -- The part of a reconciliation from the processing on, where the processing fails and leaves the
  -- fields of the breaker alone: an enabled breaker that was not open and had counted no error is open
  -- afterwards exactly if the threshold is at most one, and no error is counted.
  pub reconcile_live-error :
      (process : Process) (clock : ℕ → Instant) (config : OptimizerConfig) (message : String)
      → KeepsBreaker process
      → IsQuiet cb config
      → (process config).1 ≡ some message
      → let after = (reconcile_live process clock config).0 in
        (is_opened after.status.circuit_state ≡ leb limit 1)
        × (after.status.consecutive_errors ≡ pos 0)
  unfolding reconcile_live
  reconcile_live-error process clock config message kept q e =
      let processed : IsQuiet cb (process config).0 =
        ground (arith, kept.breaker_kept config, kept.state_kept config, kept.errors_kept config) in
      let f = when_failure_opens (clock 5) (process config).0 processed in
      rw e (let s = success_keeps (clock 8) _ f.0 in (s.0 ∙ f.1, s.1))
