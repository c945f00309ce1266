-- ===== src/Rollback.antt =====
-- pkg/rollback/rollback_manager.go and types.go: the configurations saved for each container, and how
-- one of them is applied again. The Kubernetes API and its quantities are the record `Cluster`: `get`
-- gives the containers of a workload, `update` writes them back and says whether it succeeded. The
-- lock makes each method one step. Files are left out.
pub mod History
mod Restore
mod Tests
use Prim.Native.String.{◌++◌ as str_append}
use intelligent_cluster_opti.Prelude.{
  ℕ, suc, ◌+◌, ◌-◌, String, Bool, true, false, Option, none, some, List, [], ◌∷◌, ◌++◌,
  if◌then◌else◌, str_eq, length, ltb, drop, take, get_elem?,
}
use intelligent_cluster_opti.Prelude.Dict.{Dict, lookup, insert, entries}
use intelligent_cluster_opti.Api.{Instant}

pub record Container (Quantity : Type 0) : Type 0 where
  pub name : String
  pub requests : Dict Quantity

pub record Cluster : Type 1 where
  pub World : Type 0
  pub Quantity : Type 0
  pub parse_quantity : String → Option Quantity
  pub quantity_string : Quantity → String
  -- The kind, the namespace and the name of a workload.
  pub get : World → String → String → String → Option (List (Container Quantity))
  pub update : World → String → String → String → List (Container Quantity) → World × Bool

pub record WorkloadConfig : Type 0 where
  pub namespace : String
  pub kind : String
  pub name : String
  pub container_name : String
  pub cpu : String
  pub memory : String
  pub timestamp : Instant

abbrev pub join : String → String → String
join a b = str_append a (str_append "/" b)

unfoldable pub key : String → String → String → String → String
key namespace kind name container_name = join namespace (join kind (join name container_name))

abbrev pub config_key : WorkloadConfig → String
config_key config = key config.namespace config.kind config.name config.container_name

pub data Error : Type 0 where
  get_failed unsupported_kind container_not_found no_previous_config : Error
  invalid_cpu invalid_memory update_failed : Error

pub data Result {ℓ} (A : Type ℓ) : Type ℓ where
  ok : A → Result A
  err : Error → Result A

abbrev pub Configs : Type 0
Configs = Dict (List WorkloadConfig)

abbrev pub max_history_per_workload : ℕ
max_history_per_workload = 5

-- The three cases of every switch over `kind`.
abbrev pub is_supported : String → Bool
is_supported kind =
    if str_eq kind "Deployment"
    then true
    else if str_eq kind "StatefulSet"
    then true
    else str_eq kind "DaemonSet"

-- `configs[len(configs)-n:]` for a longer list.
unfoldable pub keep_last : ℕ → List WorkloadConfig → List WorkloadConfig
keep_last n configs = if ltb n (length configs) then drop (length configs - n) configs else configs

unfoldable pub get_workload_history : String → Configs → List WorkloadConfig
get_workload_history k history = entries (lookup k history)

pub get_history_count : Configs → ℕ
get_history_count [] = 0
get_history_count ((k, configs) ∷ history) = length configs + get_history_count history

-- The end of `RollbackWorkload`: the history loses its last entry if the cluster took the old one.
abbrev pub rolled_back :
    {W : Type 0}
    → String
    → List WorkloadConfig
    → Configs
    → W × Option Error
    → W × Configs × Option Error
rolled_back k configs history (w, some e) = (w, history, some e)
rolled_back k configs history (w, none) = (w, insert k configs history, none)

module _ (c : Cluster) where
  open c use {World, Quantity, parse_quantity, quantity_string, get, update}

  abbrev pub string_or_empty : Option Quantity → String
  string_or_empty none = ""
  string_or_empty (some q) = quantity_string q

  -- The loop of `fetchCurrentConfig` over the containers.
  unfoldable pub find_container : String → List (Container Quantity) → Option (Container Quantity)
  find_container container_name [] = none
  find_container container_name (container ∷ containers) =
      if str_eq container.name container_name
      then some container
      else find_container container_name containers

  unfoldable pub fetch_current_config :
      World → Instant → String → String → String → String → Result WorkloadConfig
  fetch_current_config w now namespace kind name container_name =
      if is_supported kind
      then elim (get w kind namespace name) [
        | none ↦ err get_failed
        | some containers ↦ elim (find_container container_name containers) [
          | none ↦ err container_not_found
          | some container ↦ ok (record {
            namespace = namespace;
            kind = kind;
            name = name;
            container_name = container_name;
            cpu = string_or_empty (lookup "cpu" container.requests);
            memory = string_or_empty (lookup "memory" container.requests);
            timestamp = now;
          })
        ]
      ]
      else err unsupported_kind

  unfoldable pub save_previous_config :
      World → Instant → String → String → String → String → Configs → Configs × Option Error
  save_previous_config w now namespace kind name container_name history =
      elim (fetch_current_config w now namespace kind name container_name) [
        | err e ↦ (history, some e)
        | ok config ↦
            let configs = entries (lookup (config_key config) history) ++ (config ∷ []) in
            (insert (config_key config) (keep_last max_history_per_workload configs) history, none)
      ]

  -- One of the two settings of `updateContainerResources`; an empty string sets nothing.
  abbrev pub set_request : String → String → Error → Dict Quantity → Result (Dict Quantity)
  set_request resource value e requests =
      if str_eq value ""
      then ok requests
      else elim (parse_quantity value) [ none ↦ err e | some q ↦ ok (insert resource q requests) ]

  unfoldable pub update_container_resources :
      Container Quantity → WorkloadConfig → Result (Container Quantity)
  update_container_resources container config =
      elim (set_request "cpu" config.cpu invalid_cpu container.requests) [
        | err e ↦ err e
        | ok requests ↦ elim (set_request "memory" config.memory invalid_memory requests) [
          | err e ↦ err e
          | ok requests' ↦ ok (record container { requests = requests' })
        ]
      ]

  -- The loop of the three `rollback…` methods: the first container of the name, and no other.
  pub update_containers :
      WorkloadConfig → List (Container Quantity) → Result (List (Container Quantity))
  update_containers config [] = ok []
  update_containers config (container ∷ containers) =
      let rest = update_containers config containers in
      if str_eq container.name config.container_name
      then elim (update_container_resources container config) [
        | err e ↦ err e
        | ok container' ↦ ok (container' ∷ containers)
      ]
      else elim rest [ err e ↦ err e | ok containers' ↦ ok (container ∷ containers') ]

  -- `applyConfig` and the `rollback…` method of the kind, which differ in the API alone.
  unfoldable pub apply_config : World → WorkloadConfig → World × Option Error
  apply_config w config =
      if is_supported config.kind
      then elim (get w config.kind config.namespace config.name) [
        | none ↦ (w, some get_failed)
        | some containers ↦ elim (update_containers config containers) [
          | err e ↦ (w, some e)
          | ok containers' ↦
              let (w', done) = update w config.kind config.namespace config.name containers' in
              (w', if done then none else some update_failed)
        ]
      ]
      else (w, some unsupported_kind)

  unfoldable pub rollback_workload :
      World → String → String → String → String → Configs → World × Configs × Option Error
  rollback_workload w namespace kind name container_name history =
      let k = key namespace kind name container_name in
      let configs = entries (lookup k history) in
      if ltb (length configs) 2
      then (w, history, some no_previous_config)
      else elim (get_elem? configs (length configs - 2)) [
        -- Out of range, which the test above rules out.
        | none ↦ (w, history, some no_previous_config)
        | some previous_config ↦
            rolled_back k (take (length configs - 1) configs) history
              (apply_config w previous_config)
      ]
