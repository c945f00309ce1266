-- ===== src/Controller.antt =====
-- pkg/controller/reconciler.go: `Reconcile` and the status updates that it makes. Each reading of the
-- clock is its own instant, `clock 0` the first. What `processRecommendations` does to the resource,
-- and the error that it may return, is the argument `process`. Logs and events are left out.
-- `none` is a maintenance-window loop that did not end within the fuel.
mod Conditions
mod Breaker
mod Gates
mod Health
mod Queue
mod Format
pub mod Process
mod Tests
use intelligent_cluster_opti.Prelude.{
  ℕ, String, ◌≡◌, Bool, true, false, not, ◌&&◌, Option, none, some, List, [], ◌∷◌, ◌++◌,
  if◌then◌else◌, is_some,
}
use intelligent_cluster_opti.Prelude.Int.{ℤ, pos, ltb_ℤ}
use intelligent_cluster_opti.Api.{
  Instant, Duration, sub_time, OptimizerPhase, unset, pending, active, paused, circuit_open,
  OptimizerConditionType, ready, maintenance_window, hpa_conflict, pdb_violation,
  circuit_breaker_open, metrics_available, ConditionStatus, condition_true, condition_false,
  condition_unknown, OptimizerCondition, MaintenanceWindow, OptimizerConfig,
}
use intelligent_cluster_opti.Safety.CircuitBreaker.{
  active_breaker, should_allow, record_success, record_failure,
}
use intelligent_cluster_opti.Scheduler.{
  Calendar, is_in_maintenance_window, get_next_maintenance_window,
}

pub record ReconcileResult : Type 0 where
  pub requeue_after : Duration
  pub updated : Bool

-- `cond.Type == conditionType`
unfoldable pub same_type : OptimizerConditionType → OptimizerConditionType → Bool
same_type ready ready = true
same_type maintenance_window maintenance_window = true
same_type hpa_conflict hpa_conflict = true
same_type pdb_violation pdb_violation = true
same_type circuit_breaker_open circuit_breaker_open = true
same_type metrics_available metrics_available = true
same_type _ _ = false

-- `cond.Status == status`
unfoldable pub same_status : ConditionStatus → ConditionStatus → Bool
same_status condition_true condition_true = true
same_status condition_false condition_false = true
same_status condition_unknown condition_unknown = true
same_status _ _ = false

unfoldable pub update_phase : OptimizerConfig → OptimizerPhase → OptimizerConfig
update_phase config phase = record config { status = record (config.status) { phase = phase } }

-- The loop of `updateCondition`, and the append after it.
pub set_condition : OptimizerCondition → List OptimizerCondition → List OptimizerCondition
set_condition condition [] = condition ∷ []
set_condition condition (cond ∷ conds) =
    if same_type cond.type condition.type
    then (if same_status cond.status condition.status then cond else condition) ∷ conds
    else cond ∷ set_condition condition conds

unfoldable pub update_condition :
    Instant
    → OptimizerConfig
    → OptimizerConditionType
    → ConditionStatus
    → String
    → String
    → OptimizerConfig
update_condition now config type status reason message =
    let condition : OptimizerCondition = record {
      type = type;
      status = status;
      last_transition_time = now;
      reason = reason;
      message = message;
    } in
    record config {
      status = record (config.status) {
        conditions = set_condition condition config.status.conditions;
      };
    }

unfoldable pub bool_to_condition_status : Bool → ConditionStatus
bool_to_condition_status true = condition_true
bool_to_condition_status false = condition_false

unfoldable pub maintenance_window_message : Bool → String
maintenance_window_message true = "Currently in maintenance window"
maintenance_window_message false = "Outside maintenance window"

abbrev pub five_minutes : Duration
five_minutes = pos 300_000_000_000

abbrev pub thirty_minutes : Duration
thirty_minutes = pos 1_800_000_000_000

abbrev pub thirty_seconds : Duration
thirty_seconds = pos 30_000_000_000

abbrev pub is_unset : OptimizerPhase → Bool
is_unset unset = true
is_unset _ = false

-- `len(windows) > 0`
abbrev pub has_windows : List MaintenanceWindow → Bool
has_windows [] = false
has_windows (_ ∷ _) = true

-- `processRecommendations`: the resource that it leaves, and its error.
abbrev pub Process : Type 0
Process = OptimizerConfig → OptimizerConfig × Option String

-- When the next window is known and near, the wait until it starts.
pub requeue_outside : Instant → OptimizerConfig → Duration
requeue_outside now config = elim config.status.next_maintenance_window [
  | none ↦ five_minutes
  | some t ↦
      let until = sub_time t now in
      if ltb_ℤ (pos 0) until && ltb_ℤ until thirty_minutes then until else five_minutes
]

-- `if config.Spec.CircuitBreaker != nil && config.Spec.CircuitBreaker.Enabled` before a method.
abbrev pub when_active :
    (OptimizerConfig → OptimizerConfig × Bool) → Bool → OptimizerConfig → OptimizerConfig × Bool
when_active method otherwise config = elim (active_breaker config) [
  | none ↦ (config, otherwise)
  | some _ ↦ method config
]

module _ (process : Process) where
  -- The part from `processRecommendations` to the end.
  unfoldable pub reconcile_live :
      (ℕ → Instant) → OptimizerConfig → OptimizerConfig × ReconcileResult
  unfolding update_phase update_condition
  reconcile_live clock config =
      let (processed, err) = process config in
      let counted =
        if is_some err
        then (when_active (record_failure (clock 5)) false processed).0
        else processed in
      let phased = update_phase counted active in
      let readied =
        update_condition (clock 6) phased ready condition_true "ReconcileSuccess"
          "OptimizerConfig reconciled successfully" in
      let observed = record readied {
        status = record (readied.status) {
          observed_generation = readied.generation;
          last_recommendation_time = some (clock 7);
        };
      } in
      (
        (when_active (record_success (clock 8)) false observed).0,
        record { requeue_after = thirty_seconds; updated = true },
      )

-- The status updates of `Reconcile` that record the maintenance window.
unfoldable pub mark_window : Calendar → (ℕ → Instant) → Bool → OptimizerConfig → OptimizerConfig
unfolding update_condition bool_to_condition_status maintenance_window_message
mark_window c clock in_window config =
    let marked = record config {
      status = record (config.status) { active_maintenance_window = in_window };
    } in
    let next = get_next_maintenance_window c (clock 2) marked in
    let planned = record marked {
      status = record (marked.status) {
        next_maintenance_window =
            if is_some next then next else marked.status.next_maintenance_window;
      };
    } in
    update_condition (clock 3) planned maintenance_window (bool_to_condition_status in_window)
      "MaintenanceWindowCheck" (maintenance_window_message in_window)

-- `!inMaintenanceWindow && len(windows) > 0 && !config.Spec.DryRun`
abbrev pub is_outside : Bool → OptimizerConfig → Bool
is_outside in_window config =
    not in_window && (has_windows config.spec.maintenance_windows && not config.spec.dry_run)

module _ (c : Calendar) (process : Process) where
  -- The part from the maintenance window on, given whether `now` lies in one.
  unfoldable pub reconcile_window :
      (ℕ → Instant) → Bool → OptimizerConfig → OptimizerConfig × ReconcileResult
  reconcile_window clock in_window config =
      let marked = mark_window c clock in_window config in
      if is_outside in_window marked
      then (marked, record { requeue_after = requeue_outside (clock 4) marked; updated = true })
      else reconcile_live process clock marked

  unfoldable pub reconcile :
      ℕ → (ℕ → Instant) → OptimizerConfig → Option (OptimizerConfig × ReconcileResult)
  unfolding update_phase
  reconcile fuel clock config =
      if not config.spec.enabled
      then some (update_phase config paused, record { requeue_after = pos 0; updated = true })
      else if is_unset config.status.phase
      then some (update_phase config pending, record { requeue_after = pos 0; updated = true })
      else let (config', allowed) =
          when_active (should_allow c.parse_duration (clock 0)) true config in
        if not allowed
        then some (
          update_phase config' circuit_open,
          record { requeue_after = five_minutes; updated = true },
        )
        else elim (is_in_maintenance_window c fuel (clock 1) config') [
          | none ↦ none
          | some in_window ↦ some (reconcile_window clock in_window config')
        ]
