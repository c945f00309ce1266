-- ===== src/Recommendation/Engine/Groups/Grouping.antt =====
-- Which samples a container is judged by.
use mathlib.Core.List.{append_assoc, append-nil}
use intelligent_cluster_opti.Prelude.{
  String, ◌≡◌, refl, sym, ap, ◌∙◌, Bool, true, false, List, [], ◌∷◌, ◌++◌, if◌then◌else◌, str_eq,
  eq_iff, Bool-cases, inl, inr, some,
}
use intelligent_cluster_opti.Prelude.Dict.{Dict, lookup, insert, entries, lookup-insert}
use intelligent_cluster_opti.Api.{Instant}
use intelligent_cluster_opti.Storage.{ContainerMetric, PodMetric}
use intelligent_cluster_opti.Recommendation.Names.{extract_workload_name}
use intelligent_cluster_opti.Recommendation.Engine.Groups.{
  ContainerSample, Samples, sample_of, containers_group, group_loop, group_by_workload,
}

-- The samples of one container in one metric.
abbrev pub samples_in : String → Instant → List ContainerMetric → List ContainerSample
samples_in container timestamp [] = []
samples_in container timestamp (cm ∷ containers) =
    let rest = samples_in container timestamp containers in
    if str_eq cm.container_name container then sample_of timestamp cm ∷ rest else rest

-- The samples of one container of one workload, in the order of the metrics.
abbrev pub samples_of : String → String → List PodMetric → List ContainerSample
samples_of workload container [] = []
samples_of workload container (pm ∷ metrics) =
    let rest = samples_of workload container metrics in
    if str_eq (extract_workload_name pm.pod_name) workload
    then samples_in container pm.timestamp pm.containers ++ rest
    else rest

-- What stands under a name after an insertion.
entries-insert :
    {A : Type 0} (name asked : String) (xs : List A) (dict : Dict (List A))
    → entries (lookup asked (insert name xs dict))
      ≡ (if str_eq name asked then xs else entries (lookup asked dict))
entries-insert name asked xs dict =
    ap entries (lookup-insert name asked xs dict) ∙ of_test (str_eq name asked)
  where
    of_test :
        (b : Bool)
        → entries (if b then some xs else lookup asked dict)
          ≡ (if b then xs else entries (lookup asked dict))
    of_test true = refl
    of_test false = refl

containers_group_lem :
    (container : String) (timestamp : Instant) (containers : List ContainerMetric)
    (result : Samples)
    → entries (lookup container (containers_group timestamp containers result))
      ≡ entries (lookup container result) ++ samples_in container timestamp containers
unfolding containers_group
containers_group_lem container timestamp [] result =
    sym (append-nil (entries (lookup container result)))
containers_group_lem container timestamp (cm ∷ containers) result =
    let s = sample_of timestamp cm in
    let rest = samples_in container timestamp containers in
    let name = cm.container_name in
    containers_group_lem container timestamp containers
      (insert name (entries (lookup name result) ++ (s ∷ [])) result)
    ∙ ap (λ xs. xs ++ rest)
        (entries-insert name container (entries (lookup name result) ++ (s ∷ [])) result)
    ∙ elim (Bool-cases (str_eq name container)) [
      | inl e ↦ rw e (
          append_assoc (entries (lookup name result)) (s ∷ []) rest
          ∙ ap (λ n. entries (lookup n result) ++ (s ∷ rest)) ((eq_iff name container).0 e))
      | inr n ↦ rw n
    ]

group_loop_lem :
    (workload container : String) (metrics : List PodMetric) (result : Dict Samples)
    → entries (lookup container (entries (lookup workload (group_loop metrics result))))
      ≡ entries (lookup container (entries (lookup workload result)))
        ++ samples_of workload container metrics
unfolding group_loop
group_loop_lem workload container [] result = sym (append-nil _)
group_loop_lem workload container (pm ∷ metrics) result =
    let name = extract_workload_name pm.pod_name in
    let rest = samples_of workload container metrics in
    let group = containers_group pm.timestamp pm.containers (entries (lookup name result)) in
    group_loop_lem workload container metrics (insert name group result)
    ∙ ap (λ xs. entries (lookup container xs) ++ rest) (entries-insert name workload group result)
    ∙ elim (Bool-cases (str_eq name workload)) [
      | inl e ↦ rw e (
          ap (λ xs. xs ++ rest)
            (containers_group_lem container pm.timestamp pm.containers
              (entries (lookup name result)))
          ∙ append_assoc _ (samples_in container pm.timestamp pm.containers) rest
          ∙ ap
              (λ n.
                entries (lookup container (entries (lookup n result)))
                ++ (samples_in container pm.timestamp pm.containers ++ rest))
              ((eq_iff name workload).0 e))
      | inr n ↦ rw n
    ]

-- The samples grouped under a workload and a container are those of the metrics whose pod gives the name
-- of the workload and whose entry has the name of the container, each once and in the order of the metrics;
-- under any other name there are none.
pub group_by_workload_lem :
    (workload container : String) (metrics : List PodMetric)
    → entries (lookup container (entries (lookup workload (group_by_workload metrics))))
      ≡ samples_of workload container metrics
unfolding group_by_workload lookup
group_by_workload_lem workload container metrics = group_loop_lem workload container metrics []
