-- ===== src/Controller/Queue.antt =====
-- pkg/controller/optimizer_controller.go: what a worker does with a key of the work queue. The queue of
-- client-go is the record `WorkQueue`, the cache and the client are the record `Store`. Logs and events
-- are left out.
mod Retries
mod Tests
use intelligent_cluster_opti.Prelude.{
  ℕ, suc, String, ◌≡◌, Bool, true, false, not, ◌&&◌, Option, none, some, List, [], ◌∷◌,
  if◌then◌else◌, ltb,
}
use intelligent_cluster_opti.Prelude.Int.{pos, ltb_ℤ}
use intelligent_cluster_opti.Api.{Duration, OptimizerConfig, OptimizerConfigStatus}
use intelligent_cluster_opti.Controller.{ReconcileResult}

pub record WorkQueue : Type 1 where
  pub State : Type 0
  pub num_requeues : String → State → ℕ
  pub forget : String → State → State
  pub add_rate_limited : String → State → State
  pub add_after : String → Duration → State → State
  pub done : String → State → State

-- What client-go documents of the count of requeues.
pub record IsCounting (wq : WorkQueue) : Type 0 where
  pub forgets : (key : String) (q : wq.State) → wq.num_requeues key (wq.forget key q) ≡ 0
  pub counts :
      (key : String) (q : wq.State)
      → wq.num_requeues key (wq.add_rate_limited key q) ≡ suc (wq.num_requeues key q)
  pub after_keeps :
      (key : String) (d : Duration) (q : wq.State)
      → wq.num_requeues key (wq.add_after key d q) ≡ wq.num_requeues key q
  pub done_keeps :
      (key : String) (q : wq.State) → wq.num_requeues key (wq.done key q) ≡ wq.num_requeues key q

-- Why a key fails.
pub data SyncError : Type 0 where
  fetch_failed unexpected_type reconcile_failed status_failed : SyncError

-- What the cache holds for a key; an object may be of another type.
pub data Cached : Type 0 where
  missing foreign : Cached
  present : OptimizerConfig → Cached

pub record Store : Type 1 where
  -- Does `SplitMetaNamespaceKey` accept the key?
  pub is_key : String → Bool
  pub get_by_key : String → Option Cached
  pub run_reconcile : OptimizerConfig → Option (OptimizerConfig × ReconcileResult)
  -- `equality.Semantic.DeepEqual`
  pub deep_equal : OptimizerConfigStatus → OptimizerConfigStatus → Bool
  pub update_status : OptimizerConfig → Bool

module _ (wq : WorkQueue) where
  open wq use {State, num_requeues, forget, add_rate_limited, add_after, done}

  unfoldable pub handle_err : Option SyncError → String → State → State
  handle_err none key q = forget key q
  handle_err (some err) key q =
      if ltb (num_requeues key q) 5 then add_rate_limited key q else forget key q

  module _ (s : Store) where
    open s use {is_key, get_by_key, run_reconcile, deep_equal, update_status}

    -- From the result of `Reconcile` on.
    unfoldable pub sync_result :
        String
        → OptimizerConfig
        → OptimizerConfig
        → ReconcileResult
        → State
        → State × Option SyncError
    sync_result key original config result q =
        let q' =
          if ltb_ℤ (pos 0) result.requeue_after then add_after key result.requeue_after q else q in
        if result.updated && not (deep_equal original.status config.status)
        then (q', if update_status config then none else some status_failed)
        else (q', none)

    unfoldable pub sync_handler : String → State → State × Option SyncError
    sync_handler key q = if not (is_key key) then (q, none) else elim (get_by_key key) [
      | none ↦ (q, some fetch_failed)
      | some missing ↦ (q, none)
      | some foreign ↦ (q, some unexpected_type)
      | some (present original) ↦ elim (run_reconcile original) [
        | none ↦ (q, some reconcile_failed)
        | some (config, result) ↦ sync_result key original config result q
      ]
    ]

    -- One round of `processNextItem` for a key that the queue has handed out.
    unfoldable pub process_next_item : String → State → State
    process_next_item key q = let (q', err) = sync_handler key q in done key (handle_err err key q')
