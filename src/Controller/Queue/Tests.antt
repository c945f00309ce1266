-- ===== src/Controller/Queue/Tests.antt =====
-- A queue that keeps one count for all keys, and a store whose cache fails.
use intelligent_cluster_opti.Prelude.{ℕ, suc, ◌≤◌, ◌≡◌, refl, false, true, none}
use intelligent_cluster_opti.Controller.Queue.{WorkQueue, IsCounting, Store, sync_handler}
use intelligent_cluster_opti.Controller.Queue.Retries.{rounds, process_next_item-retries}

abbrev counting : WorkQueue
counting = record {
  State = ℕ;
  num_requeues = λ key q. q;
  forget = λ key q. 0;
  add_rate_limited = λ key q. suc q;
  add_after = λ key d q. q;
  done = λ key q. q;
}

counting-IsCounting : IsCounting counting
counting-IsCounting = record {
  forgets = λ key q. refl;
  counts = λ key q. refl;
  after_keeps = λ key d q. refl;
  done_keeps = λ key q. refl;
}

abbrev broken : Store
broken = record {
  is_key = λ key. true;
  get_by_key = λ key. none;
  run_reconcile = λ config. none;
  deep_equal = λ a b. true;
  update_status = λ config. false;
}

process_next_item-retries_example :
    ((n : ℕ) → n ≤ 5 → rounds counting counting-IsCounting broken "default/c" n 0 ≡ n)
    × (rounds counting counting-IsCounting broken "default/c" 6 0 ≡ 0)
unfolding sync_handler
process_next_item-retries_example =
    process_next_item-retries counting counting-IsCounting broken "default/c" (λ q. refl) 0 refl
