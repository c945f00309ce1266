-- ===== src/Policy/Engine.antt =====
-- pkg/policy/engine.go. The engine is its policies and its cache of compiled conditions. Logs are left
-- out. `sort.Slice` and the decoding of a file are arguments.
pub mod Validated
pub mod Evaluation
pub mod Limits
use Prim.Native.String.{◌++◌ as str_append}
use intelligent_cluster_opti.Prelude.{
  String, Bool, true, false, not, Option, none, some, List, [], ◌∷◌, ◌++◌, if◌then◌else◌, str_eq,
}
use intelligent_cluster_opti.Prelude.Int.{ℤ, ltb_ℤ}
use intelligent_cluster_opti.Prelude.Sort.{SortSlice}
use intelligent_cluster_opti.Prelude.Dict.{Dict, lookup, insert}
use intelligent_cluster_opti.Policy.Types.{
  Policy, PolicySet, RecommendationInfo, Modification, increased_cpu, decreased_cpu,
  increased_memory, decreased_memory, ModifiedRecommendation, PolicyDecision, Error, Result, ok,
  err, missing_parameter, invalid_value, unknown_action, no_name, no_condition, no_action,
  invalid_action, cannot_decode, Floats, Expressions,
}
use intelligent_cluster_opti.Policy.Values.{
  parse_resource_value, validate_action_parameters, is_valid_action,
}

pub record Engine (Program : Type 0) : Type 0 where
  pub policies : PolicySet
  pub compiled_programs : Dict Program

unfoldable pub new_engine : {Program : Type 0} → Engine Program
new_engine = record {
  policies = record { policies = []; default_action = "allow" };
  compiled_programs = [];
}

unfoldable pub clear_cache : {Program : Type 0} → Engine Program → Engine Program
clear_cache e = record e { compiled_programs = [] }

-- A decision with no more than its action.
abbrev pub decide_on : String → PolicyDecision
decide_on action = record {
  action = action;
  reason = "";
  matched_policy = "";
  modified_recommendation = none;
}

-- `limitType == "min"` and `"max"`; the policy's parameter is `limitType-resourceType`.
pub data LimitType : Type 0 where
  min max : LimitType

pub data ResourceType : Type 0 where
  cpu memory : ResourceType

abbrev pub param_key : LimitType → ResourceType → String
param_key min cpu = "min-cpu"
param_key max cpu = "max-cpu"
param_key min memory = "min-memory"
param_key max memory = "max-memory"

abbrev pub type_name : ResourceType → String
type_name cpu = "cpu"
type_name memory = "memory"

abbrev pub no_changes : ModifiedRecommendation
no_changes = record { cpu_request = none; memory_request = none; modifications = [] }

-- The change that a limit makes, if any.
unfoldable pub modify : LimitType → ResourceType → ℤ → RecommendationInfo → ModifiedRecommendation
modify min cpu limit r =
    if ltb_ℤ r.recommended_cpu limit
    then record no_changes {
      cpu_request = some limit;
      modifications = increased_cpu r.recommended_cpu limit ∷ [];
    }
    else no_changes
modify max cpu limit r =
    if ltb_ℤ limit r.recommended_cpu
    then record no_changes {
      cpu_request = some limit;
      modifications = decreased_cpu r.recommended_cpu limit ∷ [];
    }
    else no_changes
modify min memory limit r =
    if ltb_ℤ r.recommended_memory limit
    then record no_changes {
      memory_request = some limit;
      modifications = increased_memory r.recommended_memory limit ∷ [];
    }
    else no_changes
modify max memory limit r =
    if ltb_ℤ limit r.recommended_memory
    then record no_changes {
      memory_request = some limit;
      modifications = decreased_memory r.recommended_memory limit ∷ [];
    }
    else no_changes

-- `len(modified.Modifications) > 0`
abbrev pub modify_decision : ModifiedRecommendation → PolicyDecision
modify_decision modified = elim modified.modifications [
  | [] ↦ decide_on "allow"
  | _ ∷ _ ↦ record (decide_on "modify") { modified_recommendation = some modified }
]

-- The comparison of the sort: a greater priority stands first.
unfoldable pub higher_priority : Policy → Policy → Bool
higher_priority p q = ltb_ℤ q.priority p.priority

module _ (f : Floats) where
  unfoldable pub apply_resource_modification :
      Policy → RecommendationInfo → ResourceType → LimitType → Result PolicyDecision
  apply_resource_modification policy r resource_type limit_type =
      elim (lookup (param_key limit_type resource_type) policy.parameters) [
        | none ↦ err missing_parameter
        | some limit_value ↦ elim (parse_resource_value f limit_value (type_name resource_type)) [
          | err e ↦ err e
          | ok limit ↦ ok (modify_decision (modify limit_type resource_type limit r))
        ]
      ]

  -- The cases of `applyAction` for the limits, and those below them.
  unfoldable pub apply_limit : Policy → RecommendationInfo → Result PolicyDecision
  apply_limit policy r =
      if str_eq policy.action "set-min-cpu"
      then apply_resource_modification policy r cpu min
      else if str_eq policy.action "set-max-cpu"
      then apply_resource_modification policy r cpu max
      else if str_eq policy.action "set-min-memory"
      then apply_resource_modification policy r memory min
      else if str_eq policy.action "set-max-memory"
      then apply_resource_modification policy r memory max
      else if str_eq policy.action "require-approval"
      then ok (decide_on "require-approval")
      else err unknown_action

  unfoldable pub apply_action : Policy → RecommendationInfo → Result PolicyDecision
  apply_action policy r =
      if str_eq policy.action "allow"
      then ok (decide_on "allow")
      else if str_eq policy.action "deny"
      then ok (decide_on "deny")
      else if str_eq policy.action "skip"
      then ok (decide_on "deny")
      else if str_eq policy.action "skip-scaledown"
      then ok (decide_on (if str_eq r.change_type "scaledown" then "deny" else "allow"))
      else if str_eq policy.action "skip-scaleup"
      then ok (decide_on (if str_eq r.change_type "scaleup" then "deny" else "allow"))
      else apply_limit policy r

  -- The checks of one policy, in their order.
  unfoldable pub validate_policy : Policy → Option Error
  validate_policy p =
      if str_eq p.name ""
      then some no_name
      else if str_eq p.condition ""
      then some no_condition
      else if str_eq p.action ""
      then some no_action
      else if not (is_valid_action p.action)
      then some invalid_action
      else validate_action_parameters f p

  pub validate_policies : List Policy → Option Error
  validate_policies [] = none
  validate_policies (p ∷ ps) = elim (validate_policy p) [
    | some e ↦ some e
    | none ↦ validate_policies ps
  ]

  -- `LoadPoliciesFromBytes`, and `LoadPolicies` after it has read the file: `decoded` is what
  -- `yaml.Unmarshal` gives.
  unfoldable pub load_policies :
      {Program : Type 0}
      → SortSlice
      → Option PolicySet
      → Engine Program
      → Engine Program × Option Error
  unfolding higher_priority
  load_policies sort none e = (e, some cannot_decode)
  load_policies sort (some set) e =
      let default_action = if str_eq set.default_action "" then "allow" else set.default_action in
      elim (validate_policies set.policies) [
        | some error ↦ (e, some error)
        | none ↦ (
          record e {
            policies = record {
              policies = sort.sort_slice higher_priority set.policies;
              default_action = default_action;
            };
          },
          none,
        )
      ]

  module _ (x : Expressions) where
    open x use {Context, Program, compile, run}

    -- The cache after a condition has been evaluated, and what it gives; `none` is an error.
    unfoldable pub evaluate_condition :
        Dict Program → String → Context × RecommendationInfo → Dict Program × Option Bool
    evaluate_condition cache condition env = elim (lookup condition cache) [
      | some program ↦ (cache, run program env)
      | none ↦ elim (compile condition env) [
        | none ↦ (cache, none)
        | some compiled ↦ (insert condition compiled cache, run compiled env)
      ]
    ]

    -- What `Evaluate` makes of the decision of the policy that matches.
    abbrev pub explain : Policy → Result PolicyDecision → Result PolicyDecision
    explain policy (err e) = err e
    explain policy (ok decision) = ok (record decision {
      matched_policy = policy.name;
      reason =
          str_append "Policy '"
            (str_append policy.name (str_append "' matched: " policy.description));
    })

    abbrev pub default_decision : String → PolicyDecision
    default_decision action = record (decide_on action) {
      reason = "No policy matched, using default action";
    }

    abbrev pub is_match : Option Bool → Bool
    is_match none = false
    is_match (some b) = b

    -- The loop of `Evaluate`: the cache, and the decision.
    pub evaluate_loop :
        String
        → List Policy
        → Dict Program
        → Context × RecommendationInfo
        → Dict Program × Result PolicyDecision
    evaluate_loop default_action [] cache env = (cache, ok (default_decision default_action))
    evaluate_loop default_action (p ∷ ps) cache env =
        let (cache', matches) = evaluate_condition cache p.condition env in
        let skipped = evaluate_loop default_action ps cache env in
        let failed = evaluate_loop default_action ps cache' env in
        if not p.enabled
        then skipped
        else if is_match matches
        then (cache', explain p (apply_action p env.1))
        else failed

    unfoldable pub evaluate :
        Engine Program → Context × RecommendationInfo → Engine Program × Result PolicyDecision
    evaluate e env =
        let (cache, decision) =
          evaluate_loop e.policies.default_action e.policies.policies e.compiled_programs env in
        (record e { compiled_programs = cache }, decision)
