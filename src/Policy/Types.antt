-- ===== src/Policy/Types.antt =====
-- pkg/policy/types.go, and what the package takes from others: the expression language `expr`, and the
-- floating-point numbers.
use intelligent_cluster_opti.Prelude.{ℕ, String, Bool, Option, List}
use intelligent_cluster_opti.Prelude.Int.{ℤ}
use intelligent_cluster_opti.Prelude.Dict.{Dict}

pub record Policy : Type 0 where
  pub name : String
  pub description : String
  pub condition : String
  pub action : String
  pub parameters : Dict String
  pub priority : ℤ  -- int
  pub enabled : Bool

pub record PolicySet : Type 0 where
  pub policies : List Policy
  pub default_action : String

pub record RecommendationInfo : Type 0 where
  pub recommended_cpu : ℤ  -- int64, millicores
  pub recommended_memory : ℤ  -- int64, bytes
  pub change_type : String

-- The texts that list the changes, by what they say: the value before and the limit.
pub data Modification : Type 0 where
  increased_cpu decreased_cpu increased_memory decreased_memory : ℤ → ℤ → Modification

pub record ModifiedRecommendation : Type 0 where
  pub cpu_request : Option ℤ
  pub memory_request : Option ℤ
  pub modifications : List Modification

pub record PolicyDecision : Type 0 where
  pub action : String
  pub reason : String
  pub matched_policy : String
  pub modified_recommendation : Option ModifiedRecommendation

-- Why a call fails.
pub data Error : Type 0 where
  missing_parameter invalid_value unknown_action unknown_resource : Error
  no_name no_condition no_action invalid_action cannot_decode : Error

pub data Result {ℓ} (A : Type ℓ) : Type ℓ where
  ok : A → Result A
  err : Error → Result A

-- `float64`, as far as quantities are parsed with it. Texts are code points.
pub record Floats : Type 1 where
  pub Float : Type 0
  pub parse_float : List ℕ → Option Float
  pub of_int : ℕ → Float
  pub times : Float → Float → Float
  pub to_int64 : Float → ℤ

-- The library `expr`: `Context` is all that a condition may read besides the recommendation.
-- `compile` and `run` are given the environment that is made of the two; a run that fails, or that
-- gives no boolean, is `none`.
pub record Expressions : Type 1 where
  pub Context : Type 0
  pub Program : Type 0
  pub compile : String → Context × RecommendationInfo → Option Program
  pub run : Program → Context × RecommendationInfo → Option Bool
