-- ===== src/Safety/Pdb.antt =====
-- pkg/safety/pdb_checker.go: whether a planned disruption keeps the pod disruption budget. The
-- Kubernetes API is the record `Api`, whose readers give nothing where a call fails. Arithmetic is that
-- of `int32`. Messages are left out.
mod Budget
mod Tests
use intelligent_cluster_opti.Prelude.{
  String, Bool, true, false, Option, none, some, List, [], ◌∷◌, if◌then◌else◌, str_eq,
}
use intelligent_cluster_opti.Prelude.Int.{ℤ, pos, ◌-ℤ◌, ◌+ℤ◌, ltb_ℤ, leb_ℤ, wrap32}

pub data IntOrString : Type 0 where
  int : ℤ → IntOrString  -- int32
  string : String → IntOrString

pub record PodDisruptionBudget (Selector : Type 0) : Type 0 where
  pub name : String
  pub selector : Option Selector
  pub min_available : Option IntOrString
  pub max_unavailable : Option IntOrString

-- Labels, current replicas and available replicas.
pub record WorkloadInfo (Labels : Type 0) : Type 0 where
  pub labels : Labels
  pub current_replicas : ℤ  -- int32
  pub available_replicas : ℤ  -- int32

-- `spec.replicas` of a deployment or of a stateful set may be unset.
pub record ReplicaSpec (Labels : Type 0) : Type 0 where
  pub match_labels : Labels
  pub replicas : Option ℤ
  pub available : ℤ

pub record Api : Type 1 where
  pub Labels : Type 0
  pub Selector : Type 0
  -- By namespace, and name.
  pub list_pdbs : String → Option (List (PodDisruptionBudget Selector))
  pub get_deployment : String → String → Option (ReplicaSpec Labels)
  pub get_stateful_set : String → String → Option (ReplicaSpec Labels)
  pub get_daemon_set : String → String → Option (WorkloadInfo Labels)
  -- `LabelSelectorAsSelector` and `Matches`; `none` is a selector that does not convert.
  pub matches : Selector → Labels → Option Bool
  -- `GetScaledValueFromIntOrPercent` of a text, rounding up.
  pub scaled_value : String → ℤ → Option ℤ

pub record PdbCheckResult : Type 0 where
  pub has_pdb : Bool
  pub pdb_name : String
  pub is_safe : Bool
  pub current_replicas : ℤ
  pub available_replicas : ℤ
  pub min_available : ℤ
  pub max_unavailable : ℤ
  pub planned_disruption : ℤ

-- The zero value of the struct.
abbrev pub no_result : PdbCheckResult
no_result = record {
  has_pdb = false;
  pdb_name = "";
  is_safe = false;
  current_replicas = pos 0;
  available_replicas = pos 0;
  min_available = pos 0;
  max_unavailable = pos 0;
  planned_disruption = pos 0;
}

-- The result for a workload that no budget is about.
abbrev pub without_pdb : {Labels : Type 0} → WorkloadInfo Labels → PdbCheckResult
without_pdb info = record no_result {
  is_safe = true;
  current_replicas = info.current_replicas;
  available_replicas = info.available_replicas;
}

module _ (api : Api) where
  open api use {
    Labels, Selector, list_pdbs, get_deployment, get_stateful_set, get_daemon_set, matches,
    scaled_value,
  }

  abbrev pub replica_info : Option (ReplicaSpec Labels) → Option (WorkloadInfo Labels)
  replica_info none = none
  replica_info (some spec) = some (record {
    labels = spec.match_labels;
    current_replicas = elim spec.replicas [ none ↦ pos 1 | some n ↦ n ];
    available_replicas = spec.available;
  })

  unfoldable pub get_workload_info : String → String → String → Option (WorkloadInfo Labels)
  get_workload_info namespace kind name =
      if str_eq kind "Deployment"
      then replica_info (get_deployment namespace name)
      else if str_eq kind "StatefulSet"
      then replica_info (get_stateful_set namespace name)
      else if str_eq kind "DaemonSet"
      then get_daemon_set namespace name
      else none

  -- Is the budget about these labels?
  abbrev pub is_about : Labels → PodDisruptionBudget Selector → Bool
  is_about labels pdb = elim pdb.selector [
    | none ↦ false
    | some selector ↦ elim (matches selector labels) [ none ↦ false | some b ↦ b ]
  ]

  unfoldable pub matching_loop :
      Labels → List (PodDisruptionBudget Selector) → Option (PodDisruptionBudget Selector)
  matching_loop labels [] = none
  matching_loop labels (pdb ∷ pdbs) =
      if is_about labels pdb then some pdb else matching_loop labels pdbs

  -- The outer `none` is an error, the inner one no budget.
  unfoldable pub find_matching_pdb :
      String → Labels → Option (Option (PodDisruptionBudget Selector))
  find_matching_pdb namespace labels = elim (list_pdbs namespace) [
    | none ↦ none
    | some pdbs ↦ some (matching_loop labels pdbs)
  ]

  unfoldable pub calculate_int_or_percent : IntOrString → ℤ → ℤ
  calculate_int_or_percent (int n) total = n
  calculate_int_or_percent (string s) total = elim (scaled_value s total) [
    | none ↦ pos 0
    | some n ↦ wrap32 n
  ]

  -- From `result := …` on.
  unfoldable pub check_budget :
      PodDisruptionBudget Selector → WorkloadInfo Labels → ℤ → PdbCheckResult
  check_budget pdb info planned =
      let result = record no_result {
        has_pdb = true;
        pdb_name = pdb.name;
        current_replicas = info.current_replicas;
        available_replicas = info.available_replicas;
        planned_disruption = planned;
      } in
      elim pdb.min_available [
        | some value ↦
            let min_avail = calculate_int_or_percent value info.current_replicas in
            record result {
              min_available = min_avail;
              is_safe = leb_ℤ min_avail (wrap32 (info.available_replicas -ℤ planned));
            }
        | none ↦ elim pdb.max_unavailable [
          | none ↦ result
          | some value ↦
              let max_unavail = calculate_int_or_percent value info.current_replicas in
              let unavailable = wrap32 (info.current_replicas -ℤ info.available_replicas) in
              record result {
                max_unavailable = max_unavail;
                is_safe = leb_ℤ (wrap32 (unavailable +ℤ planned)) max_unavail;
              }
        ]
      ]

  -- `none` is an error.
  unfoldable pub check_pdb_safety : String → String → String → ℤ → Option PdbCheckResult
  check_pdb_safety namespace kind name planned =
      if str_eq name ""
      then elim (list_pdbs namespace) [
        | none ↦ none
        | some [] ↦ some (record no_result { is_safe = true })
        | some (_ ∷ _) ↦ some (record no_result { has_pdb = true; is_safe = true })
      ]
      else elim (get_workload_info namespace kind name) [
        | none ↦ none
        | some info ↦ elim (find_matching_pdb namespace info.labels) [
          | none ↦ none
          | some none ↦ some (without_pdb info)
          | some (some pdb) ↦ some (check_budget pdb info planned)
        ]
      ]

  -- What `CalculateSafeDisruptionBudget` makes of the result.
  abbrev pub budget_of : PdbCheckResult → ℤ
  budget_of result =
      if result.has_pdb
      then if ltb_ℤ (pos 0) result.min_available
        then wrap32 (result.available_replicas -ℤ result.min_available)
        else if ltb_ℤ (pos 0) result.max_unavailable
        then wrap32 (
            result.max_unavailable -ℤ wrap32 (result.current_replicas -ℤ result.available_replicas))
        else pos 0
      else result.current_replicas

  unfoldable pub calculate_safe_disruption_budget : String → String → String → Option ℤ
  calculate_safe_disruption_budget namespace kind name =
      elim (check_pdb_safety namespace kind name (pos 0)) [
        | none ↦ none
        | some result ↦ some (budget_of result)
      ]
