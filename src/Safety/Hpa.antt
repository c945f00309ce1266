-- ===== src/Safety/Hpa.antt =====
-- pkg/safety/hpa_checker.go: does an autoscaler manage the processor or the memory of a workload? What
-- the Kubernetes API lists is the argument `hpas`, nothing where the call fails. A metric of the type
-- "Resource" names its resource. Messages are left out.
pub mod Conflicts
use intelligent_cluster_opti.Prelude.{
  String, Bool, true, false, not, ◌&&◌, ◌||◌, Option, none, some, List, [], ◌∷◌, ◌++◌,
  if◌then◌else◌, str_eq, is_some,
}
use intelligent_cluster_opti.Prelude.Dict.{Dict, lookup, insert}

pub data Metric : Type 0 where
  resource_metric : String → Metric
  other_metric : Metric

pub record HorizontalPodAutoscaler : Type 0 where
  pub name : String
  pub target_kind : String
  pub target_name : String
  pub metrics : List Metric

pub record HpaConflictResult : Type 0 where
  pub has_conflict : Bool
  pub conflicting_hpa : String
  pub conflict_metrics : List String

abbrev pub no_conflict : HpaConflictResult
no_conflict = record { has_conflict = false; conflicting_hpa = ""; conflict_metrics = [] }

unfoldable pub is_targeting_workload : HorizontalPodAutoscaler → String → String → Bool
is_targeting_workload hpa kind name =
    let kind_matches =
      if str_eq kind "Deployment"
      then str_eq hpa.target_kind "Deployment"
      else if str_eq kind "StatefulSet"
      then str_eq hpa.target_kind "StatefulSet"
      else if str_eq kind "DaemonSet"
      then str_eq hpa.target_kind "DaemonSet"
      else false in
    if not kind_matches then false else if str_eq name "" then true else str_eq hpa.target_name name

-- `resourceName == "cpu" || resourceName == "memory"`
abbrev pub is_managed : String → Bool
is_managed name = str_eq name "cpu" || str_eq name "memory"

-- The loop of `getConflictingMetrics`; of `seen` only the keys matter.
unfoldable pub conflicting_loop : List Metric → List String → Dict Bool → List String
conflicting_loop [] conflicts seen = conflicts
conflicting_loop (other_metric ∷ metrics) conflicts seen = conflicting_loop metrics conflicts seen
conflicting_loop (resource_metric name ∷ metrics) conflicts seen =
    let skipped = conflicting_loop metrics conflicts seen in
    let taken = conflicting_loop metrics (conflicts ++ (name ∷ [])) (insert name true seen) in
    if is_managed name
    then (if not (is_some (lookup name seen)) then taken else skipped)
    else skipped

unfoldable pub get_conflicting_metrics : HorizontalPodAutoscaler → List String
get_conflicting_metrics hpa = conflicting_loop hpa.metrics [] []

-- `if len(conflictingMetrics) > 0 { return … }`, and the rest of the loop.
abbrev pub conflict_or :
    HorizontalPodAutoscaler → List String → HpaConflictResult → HpaConflictResult
conflict_or hpa [] rest = rest
conflict_or hpa (metric ∷ metrics) rest = record {
  has_conflict = true;
  conflicting_hpa = hpa.name;
  conflict_metrics = metric ∷ metrics;
}

unfoldable pub conflict_loop : String → String → List HorizontalPodAutoscaler → HpaConflictResult
conflict_loop kind name [] = no_conflict
conflict_loop kind name (hpa ∷ hpas) =
    let rest = conflict_loop kind name hpas in
    if is_targeting_workload hpa kind name
    then conflict_or hpa (get_conflicting_metrics hpa) rest
    else rest

unfoldable pub check_hpa_conflict :
    Option (List HorizontalPodAutoscaler) → String → String → Option HpaConflictResult
unfolding conflict_loop
check_hpa_conflict none kind name = none
check_hpa_conflict (some hpas) kind name = some (conflict_loop kind name hpas)
