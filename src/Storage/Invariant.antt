-- ===== src/Storage/Invariant.antt =====
-- What the methods that change the history keep of it.
use intelligent_cluster_opti.Prelude.{
  ◌<◌, String, ◌≡◌, refl, none, List, [], ◌∷◌, ◌++◌, arith, str_eq, eq_iff, length, All, All-append,
  Bool-cases, inl, inr,
}
use intelligent_cluster_opti.Prelude.Dict.{lookup, insert, entries, IsDistinct, insert-IsDistinct}
use intelligent_cluster_opti.Api.{Instant}
use intelligent_cluster_opti.Storage.{PodMetric, History, add, cleanup_loop, sync_pods}

-- A key has at least one metric, and only metrics of the pod of that name.
abbrev pub IsFiled : String × List PodMetric → Type 0
IsFiled (pod_name, metrics) =
    (0 < length metrics) × All (λ metric. metric.pod_name ≡ pod_name) metrics

pub record IsWellFormed (history : History) : Type 0 where
  pub distinct : IsDistinct history
  pub filed : All IsFiled history

entries-names :
    (k : String) (history : History)
    → All IsFiled history
    → All (λ metric. metric.pod_name ≡ k) (entries (lookup k history))
unfolding lookup
entries-names k [] f = tt
entries-names k ((j, ms) ∷ history) f = elim (Bool-cases (str_eq j k)) [
  | inl e ↦ rw e (rw ((eq_iff j k).0 e) at f.0.1)
  | inr n ↦ rw n (entries-names k history f.1)
]

insert-IsFiled :
    (k : String) (ms : List PodMetric) (history : History)
    → IsFiled (k, ms)
    → All IsFiled history
    → All IsFiled (insert k ms history)
unfolding insert
insert-IsFiled k ms [] f h = (f, tt)
insert-IsFiled k ms ((j, w) ∷ history) f h = ground (arith, insert-IsFiled k ms history f h.1)

length-snoc : (xs : List PodMetric) (x : PodMetric) → 0 < length (xs ++ (x ∷ []))
length-snoc [] x = omega arith
length-snoc (y ∷ xs) x = omega arith

pub add-IsWellFormed :
    (metric : PodMetric) (history : History)
    → IsWellFormed history
    → IsWellFormed (add metric history)
unfolding add
add-IsWellFormed metric history w = record {
  distinct = insert-IsDistinct metric.pod_name _ history w.distinct;
  filed =
      insert-IsFiled metric.pod_name _ history
        (
          length-snoc (entries (lookup metric.pod_name history)) metric,
          All-append _ (entries (lookup metric.pod_name history)) (metric ∷ [])
              (entries-names metric.pod_name history w.filed) (refl, tt),
        )
        w.filed;
}

-- The history has no metrics under a key that the loop has not stored.
pub cleanup-absent :
    (c : Instant) (k : String) (history : History)
    → lookup k history ≡ none
    → lookup k (cleanup_loop c history).0 ≡ none
unfolding lookup cleanup_loop
cleanup-absent c k [] e = refl
cleanup-absent c k ((j, ms) ∷ history) e = ground (arith, cleanup-absent c k history)

pub sync-absent :
    (active : List String) (k : String) (history : History)
    → lookup k history ≡ none
    → lookup k (sync_pods active history).0 ≡ none
unfolding lookup sync_pods
sync-absent active k [] e = refl
sync-absent active k ((j, ms) ∷ history) e = ground (arith, sync-absent active k history)
