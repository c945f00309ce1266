-- ===== src/Safety/Pdb/Tests.antt =====
-- The theorems of the disruption budgets at a deployment of five replicas, of which four are available.
use intelligent_cluster_opti.Prelude.{◌≡◌, refl, ◌↔◌, true, none, some, [], ◌∷◌, arith}
use intelligent_cluster_opti.Prelude.Int.{pos}
use intelligent_cluster_opti.Safety.Pdb.{
  Api, int, PodDisruptionBudget, WorkloadInfo, PdbCheckResult, get_workload_info, find_matching_pdb,
  matching_loop, check_pdb_safety,
}
use intelligent_cluster_opti.Safety.Pdb.Budget.{Found, Keeps, check_pdb_safety-Keeps}

abbrev two_available : PodDisruptionBudget Unit
two_available = record {
  name = "web";
  selector = some tt;
  min_available = some (int (pos 2));
  max_unavailable = none;
}

abbrev one_deployment : Api
one_deployment = record {
  Labels = Unit;
  Selector = Unit;
  list_pdbs = λ namespace. some (two_available ∷ []);
  get_deployment = λ namespace name.
      some (record { match_labels = tt; replicas = some (pos 5); available = pos 4 });
  get_stateful_set = λ namespace name. none;
  get_daemon_set = λ namespace name. none;
  matches = λ selector labels. some true;
  scaled_value = λ s total. none;
}

abbrev web : WorkloadInfo Unit
web = record { labels = tt; current_replicas = pos 5; available_replicas = pos 4 }

web-Found : Found one_deployment "default" "Deployment" "web" web two_available
unfolding get_workload_info find_matching_pdb matching_loop
web-Found = record { named = refl; workload = refl; budget = refl }

check_pdb_safety-Keeps_example :
    (result : PdbCheckResult) × (check_pdb_safety one_deployment "default" "Deployment" "web"
        (pos 3)
      ≡ some result)
    × ((result.is_safe ≡ true)
        ↔ Keeps one_deployment "default" "Deployment" "web" two_available 5 4 3)
check_pdb_safety-Keeps_example =
    check_pdb_safety-Keeps one_deployment "default" "Deployment" "web" web two_available 5 4 3
      web-Found refl refl (omega arith) (omega arith)
