-- ===== src/Controller/Conditions.antt =====
-- `updateCondition` keeps one condition of each type.
use intelligent_cluster_opti.Prelude.{
  ℕ, ◌+◌, String, ◌≡◌, refl, ◌&&◌, ◌==◌, true, Option, none, some, List, [], ◌∷◌, arith,
  if◌then◌else◌,
}
use intelligent_cluster_opti.Api.{
  Instant, OptimizerConditionType, ConditionStatus, OptimizerCondition, OptimizerConfig,
}
use intelligent_cluster_opti.Controller.{same_type, same_status, set_condition, update_condition}

-- The status of the first condition of a type.
pub status_of : OptimizerConditionType → List OptimizerCondition → Option ConditionStatus
status_of type [] = none
status_of type (cond ∷ conds) =
    if same_type cond.type type then some cond.status else status_of type conds

pub times : OptimizerConditionType → List OptimizerCondition → ℕ
times type [] = 0
times type (cond ∷ conds) = (if same_type cond.type type then 1 else 0) + times type conds

same_type_trans :
    (a b d : OptimizerConditionType) → same_type a b ≡ true → same_type a d ≡ same_type b d
unfolding same_type
same_type_trans a b d h = ground arith

same_type_right :
    (a b d : OptimizerConditionType) → same_type b d ≡ true → same_type a b ≡ same_type a d
unfolding same_type
same_type_right a b d h = ground arith

same_status_eq : (a b : ConditionStatus) → same_status a b ≡ true → a ≡ b
unfolding same_status
same_status_eq a b h = ground arith

status_of-set_condition :
    (type : OptimizerConditionType) (condition : OptimizerCondition)
    (conds : List OptimizerCondition)
    → status_of type (set_condition condition conds)
      ≡ (if same_type condition.type type then some condition.status else status_of type conds)
unfolding status_of set_condition
status_of-set_condition type condition [] = refl
status_of-set_condition type condition (cond ∷ conds) = ground (
  arith,
  same_type_trans cond.type condition.type type,
  same_type_right cond.type condition.type type,
  same_status_eq cond.status condition.status,
  status_of-set_condition type condition conds,
)

times-set_condition :
    (type : OptimizerConditionType) (condition : OptimizerCondition)
    (conds : List OptimizerCondition)
    → times type (set_condition condition conds)
      ≡ (if same_type condition.type type && times type conds == 0 then 1 else times type conds)
unfolding times set_condition
times-set_condition type condition [] = ground arith
times-set_condition type condition (cond ∷ conds) = ground (
  arith,
  same_type_trans cond.type condition.type type,
  same_type_right cond.type condition.type type,
  times-set_condition type condition conds,
)

-- After `updateCondition` the resource has the given status under the given type and what it had under
-- every other type; and it has every type as often as before, but for the given one if it was missing,
-- which it then has once.
pub update_condition_lem :
    (now : Instant) (config : OptimizerConfig) (type other : OptimizerConditionType)
    (status : ConditionStatus) (reason message : String)
    → let before = config.status.conditions in
      let after = (update_condition now config type status reason message).status.conditions in
      (status_of other after
        ≡ (if same_type type other then some status else status_of other before))
      × (times other after
          ≡ (if same_type type other && times other before == 0 then 1 else times other before))
unfolding update_condition
update_condition_lem now config type other status reason message = (
  status_of-set_condition other _ config.status.conditions,
  times-set_condition other _ config.status.conditions,
)
