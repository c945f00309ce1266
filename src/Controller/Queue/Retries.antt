-- ===== src/Controller/Queue/Retries.antt =====
-- How often a key that fails is tried again.
use intelligent_cluster_opti.Prelude.{
  ℕ, zero, suc, ◌≤◌, String, ◌≡◌, ◌∙◌, refl, true, Option, none, some, is_some, arith, ltb,
  if◌then◌else◌, Bool-cases, Option-cases, inl, inr,
}
use intelligent_cluster_opti.Api.{OptimizerConfig}
use intelligent_cluster_opti.Controller.{ReconcileResult}
use intelligent_cluster_opti.Controller.Queue.{
  WorkQueue, IsCounting, SyncError, fetch_failed, unexpected_type, reconcile_failed, Store, Cached,
  missing, foreign, present, handle_err, sync_result, sync_handler, process_next_item,
}

module _ (wq : WorkQueue) (w : IsCounting wq) (s : Store) (key : String) where
  open wq use {State, num_requeues, forget, add_rate_limited, add_after, done}
  open s use {is_key, get_by_key, run_reconcile, deep_equal}

  result_keeps :
      (original config : OptimizerConfig) (result : ReconcileResult) (q : State)
      → num_requeues key (sync_result wq s key original config result q).0 ≡ num_requeues key q
  unfolding sync_result
  result_keeps original config result q = ground (arith, w.after_keeps key result.requeue_after q)

  sync_keeps : (q : State) → num_requeues key (sync_handler wq s key q).0 ≡ num_requeues key q
  unfolding sync_handler
  sync_keeps q = elim (Bool-cases (is_key key)) [
    | inr invalid ↦ rw (invalid, sync_handler) refl
    | inl valid ↦ rw (valid, sync_handler) (of_cached (get_by_key key))
  ]
    where
      of_answer :
          (original : OptimizerConfig) (answer : Option (OptimizerConfig × ReconcileResult))
          → num_requeues key
              (elim answer as (λ a. State × Option SyncError) [
                | none ↦ (q, some reconcile_failed)
                | some (config, result) ↦ sync_result wq s key original config result q
              ]).0
            ≡ num_requeues key q
      of_answer original none = refl
      of_answer original (some (config, result)) = result_keeps original config result q

      of_cached :
          (cached : Option Cached)
          → num_requeues key
              (elim cached as (λ a. State × Option SyncError) [
                | none ↦ (q, some fetch_failed)
                | some missing ↦ (q, none)
                | some foreign ↦ (q, some unexpected_type)
                | some (present original) ↦ elim (run_reconcile original) [
                  | none ↦ (q, some reconcile_failed)
                  | some (config, result) ↦ sync_result wq s key original config result q
                ]
              ]).0
            ≡ num_requeues key q
      of_cached none = refl
      of_cached (some missing) = refl
      of_cached (some foreign) = refl
      of_cached (some (present original)) = of_answer original (run_reconcile original)

  -- So many rounds of the worker for the key.
  pub rounds : ℕ → State → State
  rounds zero q = q
  rounds (suc n) q = process_next_item wq s key (rounds n q)

  handle_counts :
      (err : SyncError) (q : State)
      → num_requeues key (done key (handle_err wq (some err) key q))
        ≡ (if ltb (num_requeues key q) 5 then suc (num_requeues key q) else 0)
  unfolding handle_err
  handle_counts err q = elim (Bool-cases (ltb (num_requeues key q) 5)) [
    | inl below ↦
        rw (below, handle_err) (w.done_keeps key (add_rate_limited key q) ∙ w.counts key q)
    | inr above ↦ rw (above, handle_err) (w.done_keeps key (forget key q) ∙ w.forgets key q)
  ]

  module _ (fails : (q : State) → is_some (sync_handler wq s key q).1 ≡ true) where
    round_counts :
        (q : State)
        → num_requeues key (process_next_item wq s key q)
          ≡ (if ltb (num_requeues key q) 5 then suc (num_requeues key q) else 0)
    unfolding process_next_item
    round_counts q = elim (Option-cases (sync_handler wq s key q).1) [
      | inl n ↦ (let f = fails q in ground (arith, n, f))
      | inr (err, e) ↦
          rw (e, process_next_item)
            (handle_counts err (sync_handler wq s key q).0 ∙ rw (sync_keeps q) refl)
    ]

    -- For a queue that counts requeues as documented, and a key whose every synchronisation fails and whose
    -- count of requeues starts at zero: after each of the first five rounds of the worker the count is that
    -- of the rounds, and the sixth round forgets the key, which takes the count back to zero.
    pub process_next_item-retries :
        (q : State)
        → num_requeues key q ≡ 0
        → ((n : ℕ) → n ≤ 5 → num_requeues key (rounds n q) ≡ n)
          × (num_requeues key (rounds 6 q) ≡ 0)
    unfolding rounds
    process_next_item-retries q z =
        (counted, round_counts (rounds 5 q) ∙ rw (counted 5 (omega arith)) refl)
      where
        counted : (n : ℕ) → n ≤ 5 → num_requeues key (rounds n q) ≡ n
        counted zero h = z
        counted (suc n) h = round_counts (rounds n q) ∙ rw (counted n (omega arith)) (ground arith)
