-- ===== src/Safety/Oom/Names.antt =====
-- pkg/safety/oom_detector.go: the name of the workload of a pod. `splitByDash` and `joinParts` are those
-- of pkg/recommendation, letter by letter.
use intelligent_cluster_opti.Prelude.{String, ◌||◌, List, [], ◌∷◌, if◌then◌else◌, str_eq, ◌≡◌, refl}
use intelligent_cluster_opti.Recommendation.Names.{
  split_loop, split_pod_name, join_loop, join_parts, without_last,
}

abbrev split_by_dash : String → List String
split_by_dash s = split_pod_name s

unfoldable pub extract_deployment_name : String → String
extract_deployment_name replica_set_name =
    without_last 1 replica_set_name (split_by_dash replica_set_name)

unfoldable pub extract_workload_from_pod_name : String → String
extract_workload_from_pod_name pod_name = without_last 2 pod_name (split_by_dash pod_name)

pub record OwnerReference : Type 0 where
  pub kind : String
  pub name : String

-- The first owner of a kind that is known, or else the name of the pod.
unfoldable pub owners_loop : String → List OwnerReference → String
unfolding extract_deployment_name extract_workload_from_pod_name
owners_loop pod_name [] = extract_workload_from_pod_name pod_name
owners_loop pod_name (owner ∷ owners) =
    let rest = owners_loop pod_name owners in
    if str_eq owner.kind "ReplicaSet"
    then extract_deployment_name owner.name
    else if str_eq owner.kind "StatefulSet" || str_eq owner.kind "DaemonSet"
    then owner.name
    else rest

of_replica_set :
    owners_loop "x" (record { kind = "ReplicaSet"; name = "web-5d7b8c7d9f" } ∷ []) ≡ "web"
unfolding owners_loop split_pod_name split_loop join_parts join_loop
of_replica_set = refl
