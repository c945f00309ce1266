-- ===== src/Scaler.antt =====
-- pkg/scaler/vertical_scaler.go: how new requests reach a workload, over the Kubernetes API of the
-- record `Platform`. Events are left out.
pub mod Guard
mod Written
pub mod Tests
use Prim.Native.String.{◌++◌ as str_append}
use intelligent_cluster_opti.Prelude.{
  ℕ, zero, suc, ◌*◌, String, Bool, true, false, not, ◌&&◌, ◌||◌, Option, none, some, List, [], ◌∷◌,
  if◌then◌else◌, str_eq,
}
use intelligent_cluster_opti.Prelude.Int.{ℤ, pos, leb_ℤ, eqb_ℤ, pos_part}
use intelligent_cluster_opti.Prelude.Decimal.{decimal}
use intelligent_cluster_opti.Api.{Duration}
use intelligent_cluster_opti.Platform.{
  Platform, is_deployment_ready, is_daemon_set_ready, has_ready, seconds,
}
use intelligent_cluster_opti.Rollback.{
  Cluster, Container, Error, get_failed, unsupported_kind, container_not_found, invalid_cpu,
  invalid_memory, update_failed, Result, ok, err, set_request, is_supported,
}
use intelligent_cluster_opti.Safety.Pdb.{Api, PdbCheckResult, check_pdb_safety}

-- `other_strategy` is any other text.
pub data UpdateStrategy : Type 0 where
  in_place rolling : UpdateStrategy
  other_strategy : String → UpdateStrategy

pub record ScaleRequest : Type 0 where
  pub namespace : String
  pub workload_kind : String
  pub workload_name : String
  pub container_name : String
  pub new_cpu : String
  pub new_memory : String
  pub strategy : UpdateStrategy

pub data ScaleError : Type 0 where
  pdb_check_failed pdb_violation rollout_failed pod_not_ready : ScaleError
  failed : Error → ScaleError

module _ (p : Platform) where
  open p use {
    cluster, pdb_api, server_version, stateful_set_replicas, deployment_status, daemon_set_status,
    pod_conditions, poll_until, sleep,
  }

  abbrev pub check_pdb : cluster.World → ScaleRequest → Option PdbCheckResult
  check_pdb w req =
      check_pdb_safety (pdb_api w) req.namespace req.workload_kind req.workload_name (pos 1)

  unfoldable pub detect_in_place_support : cluster.World → Option Bool
  detect_in_place_support w = if server_version w then some false else none

  unfoldable pub update_container_resources :
      ScaleRequest → Container cluster.Quantity → Result (Container cluster.Quantity)
  update_container_resources req container =
      elim (set_request cluster "cpu" req.new_cpu invalid_cpu container.requests) [
        | err e ↦ err e
        | ok requests ↦ elim (set_request cluster "memory" req.new_memory invalid_memory requests) [
          | err e ↦ err e
          | ok requests' ↦ ok (record container { requests = requests' })
        ]
      ]

  -- The loop of the three `rollingUpdate…` methods: the first container of the name, if any.
  unfoldable pub rolling_containers :
      ScaleRequest → List (Container cluster.Quantity) → Result (List (Container cluster.Quantity))
  rolling_containers req [] = ok []
  rolling_containers req (container ∷ containers) =
      let rest = rolling_containers req containers in
      if str_eq container.name req.container_name
      then elim (update_container_resources req container) [
        | err e ↦ err e
        | ok container' ↦ ok (container' ∷ containers)
      ]
      else elim rest [ err e ↦ err e | ok containers' ↦ ok (container ∷ containers') ]

  -- The loop of the three `inPlaceUpdate…` methods, which want a container of the name.
  unfoldable pub in_place_containers :
      ScaleRequest → List (Container cluster.Quantity) → Result (List (Container cluster.Quantity))
  in_place_containers req [] = err container_not_found
  in_place_containers req (container ∷ containers) =
      let rest = in_place_containers req containers in
      if str_eq container.name req.container_name
      then elim (update_container_resources req container) [
        | err e ↦ err e
        | ok container' ↦ ok (container' ∷ containers)
      ]
      else elim rest [ err e ↦ err e | ok containers' ↦ ok (container ∷ containers') ]

  -- `Get`, the loop and `Update`, which the six methods share.
  unfoldable pub write_containers :
      (List (Container cluster.Quantity) → Result (List (Container cluster.Quantity)))
      → cluster.World
      → ScaleRequest
      → cluster.World × Option ScaleError
  write_containers loop w req =
      elim (cluster.get w req.workload_kind req.namespace req.workload_name) [
        | none ↦ (w, some (failed get_failed))
        | some containers ↦ elim (loop containers) [
          | err e ↦ (w, some (failed e))
          | ok containers' ↦
              let (w', done) =
                cluster.update w req.workload_kind req.namespace req.workload_name containers' in
              (w', if done then none else some (failed update_failed))
        ]
      ]

  -- The condition of `waitForRolloutComplete`.
  unfoldable pub is_rollout_complete : String → String → String → cluster.World → Option Bool
  is_rollout_complete kind namespace name w =
      if str_eq kind "Deployment"
      then elim (deployment_status w namespace name) [
        | none ↦ none
        | some d ↦ some (is_deployment_ready d)
      ]
      else if str_eq kind "DaemonSet"
      then elim (daemon_set_status w namespace name) [
        | none ↦ none
        | some d ↦ some (is_daemon_set_ready d)
      ]
      else none

  unfoldable pub wait_for_rollout_complete :
      cluster.World → String → String → String → cluster.World × Option ScaleError
  wait_for_rollout_complete w namespace name kind =
      let (w', done) =
        poll_until (seconds 5) (seconds 300) (is_rollout_complete kind namespace name) w in
      (w', if done then none else some rollout_failed)

  -- The condition of `waitForPodReady`: a pod that cannot be read is one that is not ready yet.
  unfoldable pub is_pod_ready : String → String → cluster.World → Option Bool
  is_pod_ready namespace pod_name w = elim (pod_conditions w namespace pod_name) [
    | none ↦ some false
    | some conditions ↦ some (has_ready conditions)
  ]

  unfoldable pub wait_for_pod_ready :
      cluster.World → String → String → cluster.World × Option ScaleError
  wait_for_pod_ready w namespace pod_name =
      let (w', done) = poll_until (seconds 5) (seconds 180) (is_pod_ready namespace pod_name) w in
      (w', if done then none else some pod_not_ready)

  -- The loop over the pods of a stateful set: `count` pods from number `i` on.
  unfoldable pub pods_loop :
      ℕ → ℕ → cluster.World → ScaleRequest → Bool → cluster.World × Option ScaleError
  pods_loop zero i w req has_pdb = (w, none)
  pods_loop (suc count) i w req has_pdb =
      let (w', waited) =
        wait_for_pod_ready w req.namespace
          (str_append req.workload_name (str_append "-" (decimal i))) in
      let rest = pods_loop count (suc i) w' req has_pdb in
      let later = pods_loop count (suc i) (sleep (seconds 30) w') req has_pdb in
      elim waited [
        | some e ↦ (w', some e)
        | none ↦
            if has_pdb
            then elim (check_pdb w' req) [
              | none ↦ (w', some pdb_check_failed)
              | some check_result ↦ if not check_result.is_safe then later else rest
            ]
            else rest
      ]

  -- `if err != nil { return err }` after the write, and then the wait.
  abbrev pub then_wait :
      cluster.World × Option ScaleError
      → (cluster.World → cluster.World × Option ScaleError)
      → cluster.World × Option ScaleError
  then_wait (w, some e) wait = (w, some e)
  then_wait (w, none) wait = wait w

  -- `rollingUpdateDeployment`, `rollingUpdateStatefulSet` and `rollingUpdateDaemonSet`.
  unfoldable pub rolling_update_deployment :
      cluster.World → ScaleRequest → PdbCheckResult → cluster.World × Option ScaleError
  rolling_update_deployment w req pdb_result =
      then_wait (write_containers (rolling_containers req) w req)
        λ w'. wait_for_rollout_complete w' req.namespace req.workload_name "Deployment"

  unfoldable pub rolling_update_stateful_set :
      cluster.World → ScaleRequest → PdbCheckResult → cluster.World × Option ScaleError
  rolling_update_stateful_set w req pdb_result =
      let replicas : ℤ = elim (stateful_set_replicas w req.namespace req.workload_name) [
        | none ↦ pos 1
        | some n ↦ n
      ] in
      then_wait (write_containers (rolling_containers req) w req)
        λ w'. pods_loop (pos_part replicas) 0 w' req pdb_result.has_pdb

  unfoldable pub rolling_update_daemon_set :
      cluster.World → ScaleRequest → PdbCheckResult → cluster.World × Option ScaleError
  rolling_update_daemon_set w req pdb_result =
      then_wait (write_containers (rolling_containers req) w req)
        λ w'. wait_for_rollout_complete w' req.namespace req.workload_name "DaemonSet"

  unfoldable pub apply_rolling_update :
      cluster.World → ScaleRequest → cluster.World × Option ScaleError
  apply_rolling_update w req = elim (check_pdb w req) [
    | none ↦ (w, some pdb_check_failed)
    | some pdb_result ↦
        if pdb_result.has_pdb && not pdb_result.is_safe
        then (w, some pdb_violation)
        else if str_eq req.workload_kind "Deployment"
        then rolling_update_deployment w req pdb_result
        else if str_eq req.workload_kind "StatefulSet"
        then rolling_update_stateful_set w req pdb_result
        else if str_eq req.workload_kind "DaemonSet"
        then rolling_update_daemon_set w req pdb_result
        else (w, some (failed unsupported_kind))
  ]

  -- The three `inPlaceUpdate…` methods differ in the API alone.
  unfoldable pub apply_in_place_update :
      cluster.World → ScaleRequest → cluster.World × Option ScaleError
  apply_in_place_update w req =
      if is_supported req.workload_kind
      then write_containers (in_place_containers req) w req
      else (w, some (failed unsupported_kind))

  unfoldable pub scale : cluster.World → ScaleRequest → cluster.World × Option ScaleError
  scale w req = elim req.strategy [
    | in_place ↦ elim (detect_in_place_support w) [
      | none ↦ apply_rolling_update w req
      | some supported ↦
          if not supported then apply_rolling_update w req else apply_in_place_update w req
    ]
    | rolling ↦ apply_rolling_update w req
    | other_strategy _ ↦ apply_rolling_update w req
  ]
