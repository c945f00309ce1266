-- ===== src/Applier.antt =====
-- pkg/applier/applier.go and types.go: a recommendation is shown (dry run) or carried out (live), after
-- the configuration before it has been saved. Events and logs are left out.
pub mod Live
use Prim.Native.String.{◌++◌ as str_append}
use intelligent_cluster_opti.Prelude.{
  String, Bool, true, false, not, ◌||◌, Option, none, some, List, [], ◌∷◌, ◌++◌, if◌then◌else◌,
  str_eq, is_some,
}
use intelligent_cluster_opti.Prelude.Dict.{lookup}
use intelligent_cluster_opti.Api.{Instant}
use intelligent_cluster_opti.Rollback.{
  Container, Configs, Error, get_failed, unsupported_kind, Result, ok, err, is_supported,
  save_previous_config, find_container, string_or_empty,
}
use intelligent_cluster_opti.Platform.{Platform}
use intelligent_cluster_opti.Scaler.{ScaleRequest, rolling, ScaleError, scale}

pub record ResourceRecommendation : Type 0 where
  pub namespace : String
  pub workload_kind : String
  pub workload_name : String
  pub container_name : String
  pub current_cpu : String
  pub recommended_cpu : String
  pub current_memory : String
  pub recommended_memory : String

pub record ApplyResult : Type 0 where
  pub applied : Bool
  pub dry_run : Bool
  pub workload_kind : String
  pub workload_name : String
  pub namespace : String
  pub changes : List String
  pub error : Option ScaleError

-- `r.CurrentCPU != r.RecommendedCPU`, and the same of the memory.
abbrev pub changes_cpu : ResourceRecommendation → Bool
changes_cpu r = not (str_eq r.current_cpu r.recommended_cpu)

abbrev pub changes_memory : ResourceRecommendation → Bool
changes_memory r = not (str_eq r.current_memory r.recommended_memory)

unfoldable pub has_changes : ResourceRecommendation → Bool
has_changes r = changes_cpu r || changes_memory r

abbrev pub describe : String → String → String → String
describe label before after = str_append label (str_append before (str_append " -> " after))

-- The two tests that append to `result.Changes`.
unfoldable pub list_changes : ResourceRecommendation → List String
list_changes r =
    (if changes_cpu r then describe "CPU: " r.current_cpu r.recommended_cpu ∷ [] else [])
    ++ (if changes_memory r
        then describe "Memory: " r.current_memory r.recommended_memory ∷ []
        else [])

abbrev pub no_changes : Bool → ResourceRecommendation → ApplyResult
no_changes dry_run r = record {
  applied = false;
  dry_run = dry_run;
  workload_kind = r.workload_kind;
  workload_name = r.workload_name;
  namespace = r.namespace;
  changes = [];
  error = none;
}

unfoldable pub dry_run_apply : ResourceRecommendation → ApplyResult
unfolding has_changes list_changes
dry_run_apply r =
    if not (has_changes r)
    then no_changes true r
    else record (no_changes true r) { changes = list_changes r }

unfoldable pub scale_request : ResourceRecommendation → ScaleRequest
scale_request r = record {
  namespace = r.namespace;
  workload_kind = r.workload_kind;
  workload_name = r.workload_name;
  container_name = r.container_name;
  new_cpu = r.recommended_cpu;
  new_memory = r.recommended_memory;
  strategy = rolling;
}

-- What the scaling made of the result.
abbrev pub finished : ResourceRecommendation → Option ScaleError → ApplyResult
finished r (some e) = record (no_changes false r) { error = some e }
finished r none = record (no_changes false r) { applied = true; changes = list_changes r }

module _ (p : Platform) where
  open p use {cluster}

  -- A configuration that cannot be saved is logged, no more.
  unfoldable pub live_apply :
      cluster.World
      → Configs
      → Instant
      → ResourceRecommendation
      → cluster.World × (Configs × ApplyResult)
  live_apply w history now r =
      if not (has_changes r)
      then (w, (history, no_changes false r))
      else let (history', saved) =
          save_previous_config cluster w now r.namespace r.workload_kind r.workload_name
            r.container_name history in
        let (w', scaled) = scale p w (scale_request r) in (w', (history', finished r scaled))

  -- The error of the result is the second value returned.
  unfoldable pub apply :
      cluster.World
      → Configs
      → Instant
      → ResourceRecommendation
      → Bool
      → cluster.World × (Configs × ApplyResult)
  apply w history now r dry_run =
      if dry_run then (w, (history, dry_run_apply r)) else live_apply w history now r

  abbrev pub empty_recommendation : String → String → String → String → ResourceRecommendation
  empty_recommendation namespace kind name container_name = record {
    namespace = namespace;
    workload_kind = kind;
    workload_name = name;
    container_name = container_name;
    current_cpu = "";
    recommended_cpu = "";
    current_memory = "";
    recommended_memory = "";
  }

  unfoldable pub get_current_resources :
      cluster.World → String → String → String → String → Result ResourceRecommendation
  get_current_resources w namespace kind name container_name =
      let rec = empty_recommendation namespace kind name container_name in
      if is_supported kind
      then elim (cluster.get w kind namespace name) [
        | none ↦ err get_failed
        | some containers ↦ elim (find_container cluster container_name containers) [
          | none ↦ ok rec
          | some container ↦ ok (record rec {
            current_cpu = string_or_empty cluster (lookup "cpu" container.requests);
            current_memory = string_or_empty cluster (lookup "memory" container.requests);
          })
        ]
      ]
      else err unsupported_kind
