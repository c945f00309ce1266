-- ===== src/Platform.antt =====
-- The Kubernetes API as pkg/scaler/vertical_scaler.go uses it: a world is the state of the cluster,
-- which a write, a wait and a sleep change. The parameter `poll_until` is `wait.PollUntilContextTimeout`:
-- the world when it ends, and whether the condition came to hold. With it stands what the scaler reads
-- from the answers.
use intelligent_cluster_opti.Prelude.{
  ℕ, ◌*◌, String, Bool, false, ◌&&◌, ◌||◌, Option, List, [], ◌∷◌, str_eq,
}
use intelligent_cluster_opti.Prelude.Int.{ℤ, pos, leb_ℤ, eqb_ℤ}
use intelligent_cluster_opti.Api.{Duration}
use intelligent_cluster_opti.Rollback.{Cluster}
use intelligent_cluster_opti.Safety.Pdb.{Api}

-- The API server sets `spec.replicas` of a deployment that leaves it out.
pub record DeploymentStatus : Type 0 where
  pub spec_replicas : ℤ  -- int32
  pub generation : ℤ  -- int64
  pub updated_replicas : ℤ  -- int32
  pub replicas : ℤ  -- int32
  pub available_replicas : ℤ  -- int32
  pub observed_generation : ℤ  -- int64

pub record DaemonSetStatus : Type 0 where
  pub generation : ℤ  -- int64
  pub updated_number_scheduled : ℤ  -- int32
  pub desired_number_scheduled : ℤ  -- int32
  pub number_available : ℤ  -- int32
  pub observed_generation : ℤ  -- int64

pub record PodCondition : Type 0 where
  pub type : String
  pub status : String

pub record Platform : Type 1 where
  pub cluster : Cluster
  pub pdb_api : cluster.World → Api
  -- Does `ServerVersion` answer?
  pub server_version : cluster.World → Bool
  -- By namespace, and name; `spec.replicas` of a stateful set may be unset.
  pub stateful_set_replicas : cluster.World → String → String → Option ℤ
  pub deployment_status : cluster.World → String → String → Option DeploymentStatus
  pub daemon_set_status : cluster.World → String → String → Option DaemonSetStatus
  pub pod_conditions : cluster.World → String → String → Option (List PodCondition)
  -- The interval, the timeout, and the condition, which gives nothing where it fails.
  pub poll_until :
      Duration → Duration → (cluster.World → Option Bool) → cluster.World → cluster.World × Bool
  pub sleep : Duration → cluster.World → cluster.World

unfoldable pub is_deployment_ready : DeploymentStatus → Bool
is_deployment_ready d =
    eqb_ℤ d.updated_replicas d.spec_replicas
    && (eqb_ℤ d.replicas d.spec_replicas
        && (eqb_ℤ d.available_replicas d.spec_replicas && leb_ℤ d.generation d.observed_generation))

unfoldable pub is_daemon_set_ready : DaemonSetStatus → Bool
is_daemon_set_ready d =
    eqb_ℤ d.updated_number_scheduled d.desired_number_scheduled
    && (eqb_ℤ d.number_available d.desired_number_scheduled
        && leb_ℤ d.generation d.observed_generation)

-- The loop over the conditions of a pod.
unfoldable pub has_ready : List PodCondition → Bool
has_ready [] = false
has_ready (condition ∷ conditions) =
    (str_eq condition.type "Ready" && str_eq condition.status "True") || has_ready conditions

abbrev pub seconds : ℕ → Duration
seconds n = pos (n * 1_000_000_000)
