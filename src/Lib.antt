-- ===== src/Lib.antt =====
-- The core of the intelligent cluster optimizer: the controller that reconciles an OptimizerConfig
-- resource, and the components that it asks before it changes a workload.
--
-- The parts, and how they interact. The controller (pkg/controller/reconciler.go) runs `Reconcile` on
-- one resource. It asks the circuit breaker whether it may go on, asks the maintenance windows whether
-- live updates are allowed now, processes the recommendations, and reports failure and success back to
-- the breaker. Processing resolves the settings of the resource's profile, passes over the workloads
-- that an autoscaler manages or whose disruption budget forbids it, and hands each recommendation to the
-- applier, which saves the configuration of the workload with the rollback manager and lets the scaler
-- write the new one. The webhook validates a resource before it is stored. The policy engine and the
-- Pareto optimisation judge recommendations, the metrics storage keeps what they are made of.
--
-- Prelude: names shared by all files; Prelude/Int the signed integers with the wrap-around of int64,
--   Prelude/Lists and Prelude/Branch lists, tests and case splits, Prelude/Dict maps as association
--   lists, whose order stands for the order of a `range`, Prelude/Sort the sort of the standard library,
--   which takes a comparison, Prelude/Float64 the exact arithmetic of
--   float64, Prelude/Decimal numbers as text, Prelude/Exchange the sort that pkg/recommendation writes
--   out twice.
-- Api: pkg/apis/optimizer/v1alpha1/types.go, the custom resource.
-- Safety/CircuitBreaker: pkg/safety/circuit_breaker.go. `should_allow`, `record_success` and
--   `record_failure` are ShouldAllow, RecordSuccess and RecordFailure. The state of the breaker is in
--   the status of the resource, which each function takes and returns. Below it, Invariant has what
--   all sequences of calls keep, and Trip how often and how long.
-- Safety/Pdb: pkg/safety/pdb_checker.go, `check_pdb_safety` for CheckPDBSafety and so on. Below it,
--   Budget has what the answers say of a disruption budget.
-- Safety/Hpa: pkg/safety/hpa_checker.go, `check_hpa_conflict` for CheckHPAConflict.
-- Safety/Oom: pkg/safety/oom_detector.go. Names has the names of workloads, Check what a pod shows,
--   History the history of kills and the operations on it, and Scan `check_namespace_for_ooms`, which
--   is CheckNamespaceForOOMs, with the priorities.
-- Scheduler: pkg/scheduler/maintenance_window.go, `is_in_window` for isInWindow and so on. Below it,
--   Window has the loop over the starts of a window and Next the next window.
-- Storage: pkg/storage/memory.go, `add`, `cleanup`, `sync_pods` and the queries.
-- Rollback: pkg/rollback/rollback_manager.go, `save_previous_config`, `rollback_workload`,
--   `fetch_current_config` and `apply_config`, over an interface of the cluster.
-- Platform: the Kubernetes API as the scaler uses it.
-- Scaler: pkg/scaler/vertical_scaler.go, `scale` for Scale, over the state of a cluster that writes,
--   waits and sleeps change. Below it, Guard has the disruption budgets and Written what is written.
-- Applier: pkg/applier, `apply`, `dry_run_apply` and `live_apply`.
-- Policy: pkg/policy. Types has types.go, Values utils.go, Engine engine.go.
-- Pareto: pkg/pareto/objectives.go and optimizer.go. Dominance has what one comparison decides, Fronts and
--   Strict the fronts of the sorting, Choice the best solution.
-- Webhook: pkg/webhook/validator.go, `validate_create` for ValidateCreate and so on. Below it, Accepted
--   says what is in order, Parts and Decides have the two agree, and Consequences what other
--   components gain.
-- Profile: pkg/profile/profile.go, and Profile/Resolver resolver.go, `resolve` for Resolve.
-- Cost: pkg/cost/calculator.go, `estimate_savings` for EstimateSavings and so on; Pricing has the prices,
--   Workload what is saved on a workload.
-- Recommendation: pkg/recommendation. Engine, with Settings and Groups below it, has engine.go from the
--   metrics to the recommendations (`generate_recommendations` is GenerateRecommendations), Values its
--   percentiles, thresholds and quantities (Rank below it has the rank of a percentile in whole numbers), Names the names of workloads, and Types the recommendations
--   themselves. Confidence and Confidence/Summary are confidence.go.
-- Controller: pkg/controller/reconciler.go, `reconcile` for Reconcile, in parts: `reconcile_window`
--   from the maintenance window on, `reconcile_live` from the processing on. `reconcile` takes the
--   processing as an argument; Controller/Process is processRecommendations, and `as_process` makes it
--   such an argument; Controller/Process/Engine gives it the recommendation engine over the metrics
--   storage. Controller/Health is the part of pkg/sla that it asks.
-- Controller/Queue: pkg/controller/optimizer_controller.go, `sync_handler`, `handle_err` and a round of
--   the worker, over the work queue of client-go; Retries below it has how often a key is tried.
-- The modules called Tests apply the theorems at concrete inputs.
--
-- Conventions. `time.Now()` is an argument: an instant, or a clock that gives the instants of the
-- successive readings. Instants and durations are integers, in nanoseconds; instants do not wrap, since
-- a time.Time does not. Counters of the resource wrap as int64; counts of entries in memory do not.
-- A method that holds its lock from start to end is one step. Logs, events and the wording of errors
-- are left out. What is not in this repository (cron, time zones, the expression language, YAML,
-- sort.Slice, fmt.Sscanf, math.Log, math.Sqrt, the hours of a duration, regular expressions, work queues,
-- Kubernetes), and the float64 arithmetic of the policies, is a field of a record of parameters, and what
-- is documented of it a named hypothesis of the theorems that need it. Where a map is built by the code
-- itself, the order in which a `range` visits it is such a parameter too; in the recommendation engine each
-- `range` of a run has an order of its own. The other arithmetic on float64 is exact, with ties to even
-- and no fused operations, as on amd64; the two zeros are one. The index of a
-- percentile gives none where it is out of range.
--
-- Fuel. The loop of isInWindow need not end, so `starts_loop` takes fuel and gives none without it; a
-- theorem shows how many rounds are enough, and another that for some schedules none is. The fronts of
-- the Pareto optimisation (`assign_pareto_ranks`) take as much fuel as there are solutions; without
-- it they give none. The exchange sort takes as much fuel as there are entries, one for each pass. The digits of a number are counted for up to 2 ^ 13 binary digits, more than
-- a product or a quotient of two float64 in their smallest unit has, and written with fuel for 20 decimal
-- ones, more than an int64 has. All other loops are structural.
--
-- Not modelled: the informers, the remaining statistics on float64 (prediction, time patterns, trends,
-- anomalies, leaks, service levels), reports of costs, GitOps export, files, events, metrics and
-- commands. What the anomaly check answers is a parameter of the processing.
pub mod Prelude
pub mod Api
pub mod Safety
pub mod Scheduler
pub mod Storage
pub mod Rollback
pub mod Platform
pub mod Scaler
pub mod Applier
pub mod Policy
pub mod Pareto
pub mod Webhook
pub mod Profile
pub mod Cost
pub mod Recommendation
pub mod Controller
