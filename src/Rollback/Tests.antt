-- ===== src/Rollback/Tests.antt =====
-- The theorems of the rollback manager in a cluster with one deployment of one container, whose
-- quantities are their own texts.
use intelligent_cluster_opti.Prelude.{ℕ, String, ◌≡◌, refl, true, none, some, List, [], ◌∷◌, arith}
use intelligent_cluster_opti.Prelude.Int.{pos}
use intelligent_cluster_opti.Prelude.Dict.{lookup, insert}
use intelligent_cluster_opti.Rollback.{
  Cluster, Container, WorkloadConfig, Configs, ok, key, find_container, fetch_current_config,
  save_previous_config, update_container_resources, update_containers, apply_config,
  rollback_workload, rolled_back,
}
use intelligent_cluster_opti.Rollback.History.{rollback-save}
use intelligent_cluster_opti.Rollback.Restore.{IsCanonical, ReadsBack, fetch-apply_config}

abbrev one_deployment : Cluster
one_deployment = record {
  World = List (Container String);
  Quantity = String;
  parse_quantity = λ s. some s;
  quantity_string = λ q. q;
  get = λ w kind namespace name. some w;
  update = λ w kind namespace name containers. (containers, true);
}

-- The container with its two requests.
abbrev running : String → String → List (Container String)
running cpu memory = record { name = "app"; requests = ("cpu", cpu) ∷ ("memory", memory) ∷ [] } ∷ []

abbrev config_of : String → String → ℕ → WorkloadConfig
config_of cpu memory time = record {
  namespace = "default";
  kind = "Deployment";
  name = "web";
  container_name = "app";
  cpu = cpu;
  memory = memory;
  timestamp = pos time;
}

abbrev saved_once : Configs
saved_once = (key "default" "Deployment" "web" "app", config_of "100m" "128Mi" 1 ∷ []) ∷ []

running-config :
    fetch_current_config one_deployment
      (running "200m" "256Mi")
      (pos 2)
      "default"
      "Deployment"
      "web"
      "app"
    ≡ ok (config_of "200m" "256Mi" 2)
unfolding fetch_current_config find_container lookup
running-config = refl

saved_once-lookup :
    lookup (key "default" "Deployment" "web" "app") saved_once
    ≡ some (config_of "100m" "128Mi" 1 ∷ [])
unfolding lookup key
saved_once-lookup = refl

rollback-save_example :
    let k = key "default" "Deployment" "web" "app" in
    let before = config_of "100m" "128Mi" 1 in
    let w = running "200m" "256Mi" in
    let after =
      (save_previous_config one_deployment w
        (pos 2)
        "default"
        "Deployment"
        "web"
        "app"
        saved_once).0 in
    rollback_workload one_deployment (running "900m" "1Gi") "default" "Deployment" "web" "app" after
    ≡ rolled_back k (before ∷ []) after (apply_config one_deployment (running "900m" "1Gi") before)
rollback-save_example =
    rollback-save one_deployment (running "200m" "256Mi") (running "900m" "1Gi") (pos 2) "default"
      "Deployment" "web" "app" saved_once [] (config_of "100m" "128Mi" 1)
      (config_of "200m" "256Mi" 2) running-config saved_once-lookup

goal-ReadsBack :
    ReadsBack one_deployment
      (running "900m" "1Gi")
      (running "100m" "128Mi")
      (pos 9)
      (config_of "100m" "128Mi" 1)
goal-ReadsBack containers e = ground arith

goal-IsCanonical : IsCanonical one_deployment (config_of "100m" "128Mi" 1)
goal-IsCanonical = record {
  cpu_set = refl;
  memory_set = refl;
  cpu_prints = λ q e. ground arith;
  memory_prints = λ q e. ground arith;
}

goal-applied :
    apply_config one_deployment (running "900m" "1Gi") (config_of "100m" "128Mi" 1)
    ≡ (running "100m" "128Mi", none)
unfolding apply_config update_containers update_container_resources insert
goal-applied = refl

fetch-apply_config_example :
    fetch_current_config one_deployment
      (running "100m" "128Mi")
      (pos 9)
      "default"
      "Deployment"
      "web"
      "app"
    ≡ ok (config_of "100m" "128Mi" 9)
unfolding find_container
fetch-apply_config_example =
    fetch-apply_config one_deployment (running "900m" "1Gi") (running "100m" "128Mi") (pos 9)
      (config_of "100m" "128Mi" 1) (running "900m" "1Gi")
      (record { name = "app"; requests = ("cpu", "900m") ∷ ("memory", "1Gi") ∷ [] }) goal-ReadsBack
      goal-IsCanonical refl refl goal-applied
