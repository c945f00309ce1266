-- ===== src/Safety/CircuitBreaker/Trip.antt =====
-- How many failures open the breaker, how long it stays open, and how many successes close it.
use intelligent_cluster_opti.Prelude.{
  ℕ, suc, ◌+◌, ◌<◌, String, ◌≡◌, refl, Bool, true, false, Option, some, List, [], ◌∷◌, map, arith,
  leb, length, All, Bool-cases, inl, inr, if◌then◌else◌,
}
use intelligent_cluster_opti.Prelude.Int.{pos, inc64_pos}
use intelligent_cluster_opti.Api.{
  Instant, Duration, closed, opened, half_open, CircuitBreakerConfig, OptimizerConfig,
}
use intelligent_cluster_opti.Safety.CircuitBreaker.{
  active_breaker, success_limit, error_limit, is_opened, is_due, should_allow, record_success,
  record_failure,
}

pub failures : List Instant → OptimizerConfig → OptimizerConfig
failures [] config = config
failures (now ∷ nows) config = failures nows (record_failure now config).0

pub successes : List Instant → OptimizerConfig → OptimizerConfig
successes [] config = config
successes (now ∷ nows) config = successes nows (record_success now config).0

module _ (cb : CircuitBreakerConfig) where
  opened-failures :
      (nows : List Instant) (config : OptimizerConfig)
      → active_breaker config ≡ some cb
      → config.status.circuit_state ≡ opened
      → (failures nows config).status.circuit_state ≡ opened
  unfolding failures record_failure
  opened-failures [] config a o = o
  opened-failures (now ∷ nows) config a o =
      opened-failures nows (record_failure now config).0 (ground arith) (ground arith)

  failure_counts :
      (now : Instant) (config : OptimizerConfig) (limit n : ℕ)
      → active_breaker config ≡ some cb
      → error_limit cb ≡ pos limit
      → limit < 9223372036854775808
      → is_opened config.status.circuit_state ≡ false
      → config.status.consecutive_errors ≡ pos n
      → suc n < limit
      → let after = (record_failure now config).0 in
        (active_breaker after ≡ some cb)
        × (is_opened after.status.circuit_state ≡ false)
        × (after.status.consecutive_errors ≡ pos (suc n))
  unfolding record_failure
  failure_counts now config limit n a l b o e h = ground (arith, inc64_pos n)

  failure_trips :
      (now : Instant) (config : OptimizerConfig) (limit n : ℕ)
      → active_breaker config ≡ some cb
      → error_limit cb ≡ pos limit
      → limit < 9223372036854775808
      → is_opened config.status.circuit_state ≡ false
      → config.status.consecutive_errors ≡ pos n
      → suc n ≡ limit
      → let after = (record_failure now config).0 in
        (active_breaker after ≡ some cb) × (after.status.circuit_state ≡ opened)
  unfolding record_failure
  failure_trips now config limit n a l b o e h = ground (arith, inc64_pos n)

  -- A breaker that is not open and has counted `n` errors, fewer than its threshold, is open after
  -- further failures, and no success between them, exactly if the errors reach the threshold.
  pub failures-opened :
      (nows : List Instant) (config : OptimizerConfig) (limit n : ℕ)
      → active_breaker config ≡ some cb
      → error_limit cb ≡ pos limit
      → limit < 9223372036854775808
      → is_opened config.status.circuit_state ≡ false
      → config.status.consecutive_errors ≡ pos n
      → n < limit
      → is_opened (failures nows config).status.circuit_state ≡ leb limit (n + length nows)
  unfolding failures
  failures-opened [] config limit n a l b o e h = ground arith
  failures-opened (now ∷ nows) config limit n a l b o e h = elim (Bool-cases (leb limit (suc n))) [
    | inl done ↦
        let (a', o') = failure_trips now config limit n a l b o e (ground arith) in
        ground (arith, opened-failures nows (record_failure now config).0 a' o')
    | inr more ↦
        let (a', o', e') = failure_counts now config limit n a l b o e (ground arith) in
        ground (
          arith,
          failures-opened nows (record_failure now config).0 limit (suc n) a' l b o' e'
              (ground arith),
        )
  ]

  closed-successes :
      (nows : List Instant) (config : OptimizerConfig)
      → active_breaker config ≡ some cb
      → config.status.circuit_state ≡ closed
      → (successes nows config).status.circuit_state ≡ closed
  unfolding successes record_success
  closed-successes [] config a o = o
  closed-successes (now ∷ nows) config a o =
      closed-successes nows (record_success now config).0 (ground arith) (ground arith)

  success_counts :
      (now : Instant) (config : OptimizerConfig) (limit n : ℕ)
      → active_breaker config ≡ some cb
      → success_limit cb ≡ pos limit
      → limit < 9223372036854775808
      → config.status.circuit_state ≡ half_open
      → config.status.consecutive_successes ≡ pos n
      → suc n < limit
      → let after = (record_success now config).0 in
        (active_breaker after ≡ some cb)
        × (after.status.circuit_state ≡ half_open)
        × (after.status.consecutive_successes ≡ pos (suc n))
  unfolding record_success
  success_counts now config limit n a l b o e h = ground (arith, inc64_pos n)

  success_recovers :
      (now : Instant) (config : OptimizerConfig) (limit n : ℕ)
      → active_breaker config ≡ some cb
      → success_limit cb ≡ pos limit
      → limit < 9223372036854775808
      → config.status.circuit_state ≡ half_open
      → config.status.consecutive_successes ≡ pos n
      → suc n ≡ limit
      → let after = (record_success now config).0 in
        (active_breaker after ≡ some cb) × (after.status.circuit_state ≡ closed)
  unfolding record_success
  success_recovers now config limit n a l b o e h = ground (arith, inc64_pos n)

  -- A half-open breaker that has counted `n` successes, fewer than its threshold, is closed after
  -- further successes, and no failure between them, if the successes reach the threshold, and is
  -- half open until then.
  pub successes-closed :
      (nows : List Instant) (config : OptimizerConfig) (limit n : ℕ)
      → active_breaker config ≡ some cb
      → success_limit cb ≡ pos limit
      → limit < 9223372036854775808
      → config.status.circuit_state ≡ half_open
      → config.status.consecutive_successes ≡ pos n
      → n < limit
      → (successes nows config).status.circuit_state
        ≡ (if leb limit (n + length nows) then closed else half_open)
  unfolding successes
  successes-closed [] config limit n a l b o e h = ground arith
  successes-closed (now ∷ nows) config limit n a l b o e h = elim (Bool-cases (leb limit (suc n))) [
    | inl done ↦
        let (a', o') = success_recovers now config limit n a l b o e (ground arith) in
        ground (arith, closed-successes nows (record_success now config).0 a' o')
    | inr more ↦
        let (a', o', e') = success_counts now config limit n a l b o e (ground arith) in
        ground (
          arith,
          successes-closed nows (record_success now config).0 limit (suc n) a' l b o' e'
              (ground arith),
        )
  ]

module _ (parse_duration : String → Option Duration) where
  -- The answers of successive calls of `ShouldAllow`, and the resource after them.
  pub polls : List Instant → OptimizerConfig → OptimizerConfig × List Bool
  polls [] config = (config, [])
  polls (now ∷ nows) config =
      let (config', answer) = should_allow parse_duration now config in
      let (last, answers) = polls nows config' in (last, answer ∷ answers)

  refused :
      (now : Instant) (cb : CircuitBreakerConfig) (config : OptimizerConfig)
      → active_breaker config ≡ some cb
      → config.status.circuit_state ≡ opened
      → is_due parse_duration now cb config ≡ false
      → should_allow parse_duration now config ≡ (config, false)
  unfolding should_allow
  refused now cb config a o d = ground arith

  probed :
      (now : Instant) (cb : CircuitBreakerConfig) (config : OptimizerConfig)
      → active_breaker config ≡ some cb
      → config.status.circuit_state ≡ opened
      → is_due parse_duration now cb config ≡ true
      → let (after, answer) = should_allow parse_duration now config in
        (answer ≡ true)
        × (after.status.circuit_state ≡ half_open)
        × (after.status.consecutive_errors ≡ pos 0)
        × (after.status.consecutive_successes ≡ pos 0)
  unfolding should_allow
  probed now cb config a o d = ground arith

  polls_refused :
      (nows : List Instant) (cb : CircuitBreakerConfig) (config : OptimizerConfig)
      → active_breaker config ≡ some cb
      → config.status.circuit_state ≡ opened
      → All (λ t. is_due parse_duration t cb config ≡ false) nows
      → polls nows config ≡ (config, map (λ _. false) nows)
  unfolding polls
  polls_refused [] cb config a o h = refl
  polls_refused (t ∷ nows) cb config a o h =
      rw (refused t cb config a o h.0, polls_refused nows cb config a o h.1) refl

  -- Every call of `ShouldAllow` at an instant at which the timeout of an open breaker has not passed
  -- since its last update (nor has it if there is none) is refused and leaves the resource as it is;
  -- the first call at an instant at which it has passed is allowed, and leaves the breaker half open
  -- with both its counters at zero.
  pub polls-opened :
      (nows : List Instant) (now : Instant) (cb : CircuitBreakerConfig) (config : OptimizerConfig)
      → active_breaker config ≡ some cb
      → config.status.circuit_state ≡ opened
      → All (λ t. is_due parse_duration t cb config ≡ false) nows
      → is_due parse_duration now cb config ≡ true
      → (polls nows config ≡ (config, map (λ _. false) nows))
        × (let (after, answer) = should_allow parse_duration now (polls nows config).0 in
            (answer ≡ true)
            × (after.status.circuit_state ≡ half_open)
            × (after.status.consecutive_errors ≡ pos 0)
            × (after.status.consecutive_successes ≡ pos 0))
  polls-opened nows now cb config a o h d =
      let same = polls_refused nows cb config a o h in (same, rw same (probed now cb config a o d))
