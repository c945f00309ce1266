-- ===== src/Safety/Hpa/Conflicts.antt =====
-- A conflict is reported exactly if an autoscaler of the workload has a metric of its processor or memory.
use intelligent_cluster_opti.Prelude.{
  ◌≡◌, refl, inl, inr, String, Bool, true, false, not, ◌&&◌, ◌||◌, some, List, [], ◌∷◌, ◌++◌, arith,
  str_eq, Bool-cases,
}
use intelligent_cluster_opti.Prelude.Dict.{Dict, lookup, insert}
use intelligent_cluster_opti.Safety.Hpa.{
  Metric, resource_metric, other_metric, HorizontalPodAutoscaler, HpaConflictResult,
  is_targeting_workload, conflict_or, conflicting_loop, get_conflicting_metrics, conflict_loop,
  check_hpa_conflict,
}

-- Is there a metric of this resource?
abbrev pub has_metric : String → List Metric → Bool
has_metric name [] = false
has_metric name (other_metric ∷ metrics) = has_metric name metrics
has_metric name (resource_metric other ∷ metrics) = str_eq other name || has_metric name metrics

abbrev pub has_conflicting : String → String → List HorizontalPodAutoscaler → Bool
has_conflicting kind name [] = false
has_conflicting kind name (hpa ∷ hpas) =
    (is_targeting_workload hpa kind name
      && (has_metric "cpu" hpa.metrics || has_metric "memory" hpa.metrics))
    || has_conflicting kind name hpas

pub is_nil : List String → Bool
is_nil [] = true
is_nil (_ ∷ _) = false

append_not_nil : (xs : List String) (x : String) → is_nil (xs ++ (x ∷ [])) ≡ false
unfolding is_nil
append_not_nil [] x = refl
append_not_nil (y ∷ ys) x = refl

loop_not_nil :
    (metrics : List Metric) (conflicts : List String) (seen : Dict Bool)
    → is_nil conflicts ≡ false
    → is_nil (conflicting_loop metrics conflicts seen) ≡ false
unfolding conflicting_loop
loop_not_nil [] conflicts seen h = h
loop_not_nil (other_metric ∷ metrics) conflicts seen h = loop_not_nil metrics conflicts seen h
loop_not_nil (resource_metric name ∷ metrics) conflicts seen h = ground (
  arith,
  loop_not_nil metrics conflicts seen h,
  loop_not_nil metrics (conflicts ++ (name ∷ [])) (insert name true seen)
      (append_not_nil conflicts name),
)

-- From no conflicts and nothing seen, a conflict is found exactly if a metric is about one of the two.
loop_nil :
    (metrics : List Metric)
    → is_nil (conflicting_loop metrics [] [])
      ≡ not (has_metric "cpu" metrics || has_metric "memory" metrics)
unfolding conflicting_loop is_nil lookup
loop_nil [] = refl
loop_nil (other_metric ∷ metrics) = loop_nil metrics
loop_nil (resource_metric name ∷ metrics) =
    ground (arith, loop_nil metrics, loop_not_nil metrics (name ∷ []) (insert name true []) refl)

-- The report agrees with its metrics, and with `b`.
abbrev Reports : HpaConflictResult → Bool → Type 0
Reports r b = (r.has_conflict ≡ b) × (is_nil r.conflict_metrics ≡ not r.has_conflict)

conflict_or-Reports :
    (hpa : HorizontalPodAutoscaler) (metrics : List String) (rest : HpaConflictResult) (a b : Bool)
    → is_nil metrics ≡ not a
    → Reports rest b
    → Reports (conflict_or hpa metrics rest) (a || b)
unfolding is_nil
conflict_or-Reports hpa [] rest true b n h = cc
conflict_or-Reports hpa [] rest false b n h = h
conflict_or-Reports hpa (m ∷ ms) rest true b n h = (refl, refl)
conflict_or-Reports hpa (m ∷ ms) rest false b n h = cc

loop-Reports :
    (kind name : String) (hpas : List HorizontalPodAutoscaler)
    → Reports (conflict_loop kind name hpas) (has_conflicting kind name hpas)
unfolding conflict_loop is_nil get_conflicting_metrics
loop-Reports kind name [] = (refl, refl)
loop-Reports kind name (hpa ∷ hpas) = elim (Bool-cases (is_targeting_workload hpa kind name)) [
  | inl target ↦
      rw target
        (conflict_or-Reports hpa _ _ _ _ (loop_nil hpa.metrics) (loop-Reports kind name hpas))
  | inr other ↦ rw other (loop-Reports kind name hpas)
]

-- Where the autoscalers can be listed: a conflict is reported exactly if one of them targets the workload
-- and has a metric of its processor or of its memory, and the metrics reported are none exactly if there
-- is no conflict.
pub check_hpa_conflict-has_conflicting :
    (hpas : List HorizontalPodAutoscaler) (kind name : String) (r : HpaConflictResult)
    → check_hpa_conflict (some hpas) kind name ≡ some r
    → (r.has_conflict ≡ has_conflicting kind name hpas)
      × (is_nil r.conflict_metrics ≡ not r.has_conflict)
unfolding check_hpa_conflict
check_hpa_conflict-has_conflicting hpas kind name r h = ground (arith, loop-Reports kind name hpas)
