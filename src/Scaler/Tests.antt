-- ===== src/Scaler/Tests.antt =====
-- A cluster with one deployment, two of whose pods must be available, and the scaling run in it.
use intelligent_cluster_opti.Prelude.{
  ℕ, String, ◌≡◌, refl, true, none, some, List, [], ◌∷◌, if◌then◌else◌, str_eq,
}
use intelligent_cluster_opti.Prelude.Int.{pos, wrap32, ◌-ℤ◌}
use intelligent_cluster_opti.Prelude.Dict.{insert}
use intelligent_cluster_opti.Rollback.{
  Cluster, Container, ok, err, container_not_found, find_container,
}
use intelligent_cluster_opti.Safety.Pdb.{
  int, check_pdb_safety, get_workload_info, find_matching_pdb, matching_loop, check_budget,
  calculate_int_or_percent,
}
use intelligent_cluster_opti.Platform.{Platform}
use intelligent_cluster_opti.Scaler.{
  ScaleRequest, rolling, pdb_violation, scale, detect_in_place_support, apply_rolling_update,
  rolling_update_deployment, write_containers, update_container_resources,
  wait_for_rollout_complete, rolling_containers, in_place_containers,
}
use intelligent_cluster_opti.Scaler.Written.{rolling_containers-in_place_containers}

-- The world is the containers of the one deployment; every write succeeds.
abbrev pub one_deployment : Cluster
one_deployment = record {
  World = List (Container String);
  Quantity = String;
  parse_quantity = some;
  quantity_string = λ q. q;
  get = λ w kind namespace name. if str_eq name "web" then some w else none;
  update = λ w kind namespace name containers. (containers, true);
}

-- So many pods are available; a budget asks for two of them. Every wait ends at once.
abbrev pub with_available : ℕ → Platform
with_available n = record {
  cluster = one_deployment;
  pdb_api = λ w. record {
    Labels = Unit;
    Selector = Unit;
    list_pdbs = λ namespace. some (
        record {
          name = "budget";
          selector = some tt;
          min_available = some (int (pos 2));
          max_unavailable = none;
        }
        ∷ []);
    get_deployment = λ namespace name.
        some (record { match_labels = tt; replicas = some (pos 3); available = pos n });
    get_stateful_set = λ namespace name. none;
    get_daemon_set = λ namespace name. none;
    matches = λ selector labels. some true;
    scaled_value = λ s total. none;
  };
  server_version = λ w. true;
  stateful_set_replicas = λ w namespace name. none;
  deployment_status = λ w namespace name. none;
  daemon_set_status = λ w namespace name. none;
  pod_conditions = λ w namespace name. none;
  poll_until = λ interval timeout condition w. (w, true);
  sleep = λ d w. w;
}

abbrev pub web : Container String
web = record { name = "web"; requests = ("cpu", "1") ∷ [] }

abbrev request : String → ScaleRequest
request container_name = record {
  namespace = "default";
  workload_kind = "Deployment";
  workload_name = "web";
  container_name = container_name;
  new_cpu = "2";
  new_memory = "";
  strategy = rolling;
}

scales :
    scale (with_available 3) (web ∷ []) (request "web")
    ≡ (record { name = "web"; requests = ("cpu", "2") ∷ [] } ∷ [], none)
unfolding scale detect_in_place_support apply_rolling_update check_pdb_safety get_workload_info
    find_matching_pdb matching_loop check_budget calculate_int_or_percent wrap32 ◌-ℤ◌
    rolling_update_deployment write_containers rolling_containers update_container_resources insert
    wait_for_rollout_complete
scales = refl

refuses : scale (with_available 2) (web ∷ []) (request "web") ≡ (web ∷ [], some pdb_violation)
unfolding scale detect_in_place_support apply_rolling_update check_pdb_safety get_workload_info
    find_matching_pdb matching_loop check_budget calculate_int_or_percent wrap32 ◌-ℤ◌
    rolling_update_deployment write_containers rolling_containers update_container_resources insert
    wait_for_rollout_complete
refuses = refl

-- A container that is not there: the scaling succeeds and changes nothing.
misses : scale (with_available 3) (web ∷ []) (request "sidecar") ≡ (web ∷ [], none)
unfolding scale detect_in_place_support apply_rolling_update check_pdb_safety get_workload_info
    find_matching_pdb matching_loop check_budget calculate_int_or_percent wrap32 ◌-ℤ◌
    rolling_update_deployment write_containers rolling_containers update_container_resources insert
    wait_for_rollout_complete
misses = refl

rolling_containers-in_place_containers_example :
    ((c : Container String)
      → find_container one_deployment "sidecar" (web ∷ []) ≡ some c
      → rolling_containers (with_available 3) (request "sidecar") (web ∷ [])
        ≡ in_place_containers (with_available 3) (request "sidecar") (web ∷ []))
    × (find_container one_deployment "sidecar" (web ∷ []) ≡ none
        → (rolling_containers (with_available 3) (request "sidecar") (web ∷ []) ≡ ok (web ∷ []))
          × (in_place_containers (with_available 3) (request "sidecar") (web ∷ [])
              ≡ err container_not_found))
rolling_containers-in_place_containers_example =
    rolling_containers-in_place_containers (with_available 3) (request "sidecar") (web ∷ [])
