-- ===== src/Policy/Tests.antt =====
-- The theorems of the policy engine at three policies, with numbers for the floats and conditions that
-- are the words "true" and "false".
use intelligent_cluster_opti.Prelude.{
  ℕ, ◌+◌, ◌-◌, ◌*◌, String, ◌≡◌, ◌⊎◌, ◌≢◌, refl, Bool, true, false, none, some, List, [], ◌∷◌,
  arith, if◌then◌else◌, str_eq,
}
use intelligent_cluster_opti.Prelude.Int.{pos}
use intelligent_cluster_opti.Prelude.Dict.{lookup}
use intelligent_cluster_opti.Prelude.Sort.{by_exchange, by_exchange-Sorts}
use intelligent_cluster_opti.Policy.Types.{
  Policy, PolicySet, RecommendationInfo, unknown_action, ok, err, Floats, Expressions,
}
use intelligent_cluster_opti.Policy.Values.{
  trim_left, trim_right, trim_space, take_digits, take_fraction, take_number, cpu_suffix, is_space,
  is_valid_action, check_parameter, validate_action_parameters, parse_cpu_value,
  parse_resource_value,
}
use intelligent_cluster_opti.Policy.Engine.{Engine, validate_policy, load_policies, evaluate}
use intelligent_cluster_opti.Policy.Engine.Validated.{IsLoaded, load_policies-IsLoaded, evaluate_ok}
use intelligent_cluster_opti.Policy.Engine.Evaluation.{
  IsCoherent, holds, first_match, decide_by, evaluate_lem,
}

abbrev value_of : ℕ → List ℕ → ℕ
value_of n [] = n
value_of n (c ∷ cs) = value_of (n * 10 + (c - b'0')) cs

abbrev numbers : Floats
numbers = record {
  Float = ℕ;
  parse_float = λ cs. some (value_of 0 cs);
  of_int = λ n. n;
  times = λ a b. a * b;
  to_int64 = λ n. pos n;
}

abbrev words : Expressions
words = record {
  Context = Unit;
  Program = Bool;
  compile = λ condition env.
      if str_eq condition "true"
      then some true
      else if str_eq condition "false"
      then some false
      else none;
  run = λ program env. some program;
}

abbrev policy : String → String → String → ℕ → Policy
policy name condition action priority = record {
  name = name;
  description = "";
  condition = condition;
  action = action;
  parameters = ("min-cpu", "200m") ∷ [];
  priority = pos priority;
  enabled = true;
}

abbrev never_applies : Policy
never_applies = policy "never" "false" "deny" 20

abbrev floor : Policy
floor = policy "floor" "true" "set-min-cpu" 10

abbrev ordered : List Policy
ordered = never_applies ∷ floor ∷ []

abbrev small : RecommendationInfo
small = record {
  recommended_cpu = pos 50;
  recommended_memory = pos 1000;
  change_type = "scaledown";
}

abbrev engine : Engine Bool
engine = record {
  policies = record { policies = ordered; default_action = "allow" };
  compiled_programs = [];
}

engine-IsLoaded : IsLoaded numbers engine
unfolding validate_policy is_valid_action validate_action_parameters check_parameter
    parse_resource_value parse_cpu_value trim_space trim_left trim_right take_number take_digits
    take_fraction cpu_suffix is_space lookup
engine-IsLoaded = record {
  valid = (refl, (refl, tt));
  ordered = ((omega arith, tt), (tt, tt));
  has_default = refl;
}

load_policies-IsLoaded_example :
    let set : PolicySet = record { policies = floor ∷ never_applies ∷ []; default_action = "" } in
    let (after, failed) = load_policies numbers by_exchange (some set) engine in
    IsLoaded numbers after × ((failed ≡ none) ⊎ (after ≡ engine))
load_policies-IsLoaded_example =
    load_policies-IsLoaded numbers by_exchange
      (some (record { policies = floor ∷ never_applies ∷ []; default_action = "" })) engine
      by_exchange-Sorts engine-IsLoaded

evaluate_ok_example :
    ((evaluate numbers words engine (tt, small)).1 ≢ err unknown_action)
    × IsLoaded numbers (evaluate numbers words engine (tt, small)).0
evaluate_ok_example = evaluate_ok numbers words engine (tt, small) unknown_action engine-IsLoaded

evaluate_lem_example :
    ((evaluate numbers words engine (tt, small)).1
      ≡ decide_by numbers words "allow" small (first_match numbers words ordered (tt, small)))
    × IsCoherent numbers words (evaluate numbers words engine (tt, small)).0.compiled_programs
unfolding lookup
evaluate_lem_example =
    evaluate_lem numbers words engine (tt, small) (λ condition a b. refl)
      (λ condition program e. absurd (ground arith))

ordered-first_match : first_match numbers words ordered (tt, small) ≡ some floor
unfolding first_match holds
ordered-first_match = refl

min_parses : parse_resource_value numbers "200m" "cpu" ≡ ok (pos 200)
unfolding parse_resource_value parse_cpu_value trim_space trim_left trim_right take_number
    take_digits take_fraction cpu_suffix is_space
min_parses = refl
