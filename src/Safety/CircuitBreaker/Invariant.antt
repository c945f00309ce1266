-- ===== src/Safety/CircuitBreaker/Invariant.antt =====
-- What every sequence of calls of the breaker's methods keeps, and the edges of its state diagram.
use intelligent_cluster_opti.Prelude.{
  String, ◌≡◌, ◌≢◌, ◌⊎◌, ◌∙◌, Bool, true, false, Option, some, List, [], ◌∷◌, arith,
}
use intelligent_cluster_opti.Prelude.Int.{pos, ◌<ℤ◌}
use intelligent_cluster_opti.Api.{
  Instant, Duration, CircuitState, closed, opened, half_open, CircuitBreakerConfig, OptimizerConfig,
  OptimizerConfigStatus,
}
use intelligent_cluster_opti.Safety.CircuitBreaker.{
  active_breaker, success_limit, error_limit, should_allow, record_success, record_failure,
}

pub data Call : Type 0 where
  allow success failure : Call

pub record HasLimits (cb : CircuitBreakerConfig) : Type 0 where
  pub error_pos : pos 0 <ℤ error_limit cb
  pub success_pos : pos 0 <ℤ success_limit cb

-- Unless the breaker is open, the errors counted are fewer than the threshold; while it is half
-- open, so are the successes.
pub record IsBounded (cb : CircuitBreakerConfig) (status : OptimizerConfigStatus) : Type 0 where
  pub errors_below : status.circuit_state ≢ opened → status.consecutive_errors <ℤ error_limit cb
  pub successes_below :
      status.circuit_state ≡ half_open → status.consecutive_successes <ℤ success_limit cb

-- The diagram: each method has one edge of its own.
pub data Edge : Call → CircuitState → CircuitState → Type 0 where
  probe : Edge allow opened half_open
  recover : Edge success half_open closed
  trip : {s : CircuitState} → s ≢ opened → Edge failure s opened

-- `ShouldAllow` refuses only in the open state, and the others report a change of state.
abbrev pub Reports : Call → CircuitState → CircuitState → Bool → Type 0
Reports allow s t answer =
    (answer ≡ false → (s ≡ opened) × (t ≡ opened)) × (answer ≡ true → (t ≡ s) ⊎ Edge allow s t)
Reports c s t answer = (answer ≡ true → Edge c s t) × (answer ≡ false → t ≡ s)

module _ (parse_duration : String → Option Duration) where
  -- One call, at an instant: the resource after it, and the method's result.
  pub step : Call → Instant → OptimizerConfig → OptimizerConfig × Bool
  unfolding should_allow record_success record_failure
  step allow now config = should_allow parse_duration now config
  step success now config = record_success now config
  step failure now config = record_failure now config

  pub run : List (Call × Instant) → OptimizerConfig → OptimizerConfig
  run [] config = config
  run ((c, now) ∷ calls) config = run calls (step c now config).0

  step-active_breaker :
      (c : Call) (now : Instant) (config : OptimizerConfig)
      → active_breaker (step c now config).0 ≡ active_breaker config
  unfolding step
  step-active_breaker allow now config = ground arith
  step-active_breaker success now config = ground arith
  step-active_breaker failure now config = ground arith

  step-IsBounded :
      (c : Call) (now : Instant) (cb : CircuitBreakerConfig) (config : OptimizerConfig)
      → HasLimits cb
      → active_breaker config ≡ some cb
      → IsBounded cb config.status
      → IsBounded cb (step c now config).0.status
  unfolding step
  step-IsBounded allow now cb config l a h = ground arith
  step-IsBounded success now cb config l a h = ground arith
  step-IsBounded failure now cb config l a h = ground arith

  -- With an enabled breaker whose thresholds are positive, and which starts out so: no sequence of
  -- calls, at whatever instants, brings the error count to its threshold without the breaker being open,
  -- nor the success count of a half-open breaker to its threshold.
  pub run-IsBounded :
      (calls : List (Call × Instant)) (cb : CircuitBreakerConfig) (config : OptimizerConfig)
      → HasLimits cb
      → active_breaker config ≡ some cb
      → IsBounded cb config.status
      → IsBounded cb (run calls config).status
  unfolding run
  run-IsBounded [] cb config l a h = h
  run-IsBounded ((c, now) ∷ calls) cb config l a h =
      run-IsBounded calls cb (step c now config).0 l (step-active_breaker c now config ∙ a)
        (step-IsBounded c now cb config l a h)

  -- One call changes the state only along the edge of its method. `RecordSuccess` and `RecordFailure`
  -- answer true exactly on their edge, and `ShouldAllow` refuses only a breaker that is and stays open.
  pub step-Reports :
      (c : Call) (now : Instant) (config : OptimizerConfig)
      → Reports c config.status.circuit_state
          (step c now config).0.status.circuit_state
          (step c now config).1
  unfolding step
  step-Reports allow now config = grind (arith, recover, probe, trip)
  step-Reports success now config = grind (arith, recover, probe, trip)
  step-Reports failure now config = grind (arith, recover, probe, trip)
