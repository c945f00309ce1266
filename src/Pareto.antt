-- ===== src/Pareto.antt =====
-- pkg/pareto/objectives.go and optimizer.go: dominance between solutions, the fronts of the
-- non-dominated sorting, and the choice of a solution. Of a `float64` only the order is used here.
-- The objectives of a solution are a list; its order stands for that of a `range` over the map.
mod Dominance
mod Fronts
mod Choice
mod Strict
mod Tests
use intelligent_cluster_opti.Prelude.{
  ℕ, zero, suc, ◌≡◌, ◌⊎◌, String, Bool, true, false, not, ◌&&◌, ◌||◌, Option, none, some, List, [],
  ◌∷◌, if◌then◌else◌, str_eq, keep,
}

-- `IsNumber` holds of all but NaN, of which no comparison is true.
pub record Floats : Type 1 where
  pub Float : Type 0
  pub lt : Float → Float → Bool
  pub IsNumber : Float → Type 0
  pub lt_irrefl : (a : Float) → lt a a ≡ false
  pub lt_trans : (a b c : Float) → lt a b ≡ true → lt b c ≡ true → lt a c ≡ true
  pub lt_cotrans : (a b c : Float) → IsNumber b → lt a c ≡ true → (lt a b ≡ true) ⊎ (lt b c ≡ true)

pub data ObjectiveType : Type 0 where
  cost performance reliability efficiency stability : ObjectiveType

unfoldable pub same_objective : ObjectiveType → ObjectiveType → Bool
same_objective cost cost = true
same_objective performance performance = true
same_objective reliability reliability = true
same_objective efficiency efficiency = true
same_objective stability stability = true
same_objective _ _ = false

pub record Objective (Float : Type 0) : Type 0 where
  pub name : String
  pub value : Float
  pub weight : Float
  pub is_minimize : Bool

pub record Solution (Float : Type 0) : Type 0 where
  pub id : String
  pub objectives : List (ObjectiveType × Objective Float)
  pub overall_score : Float

module _ (f : Floats) where
  open f use {Float, lt}

  abbrev pub Objectives : Type 0
  Objectives = List (ObjectiveType × Objective Float)

  -- `other.Objectives[objType]`
  pub find_objective : ObjectiveType → Objectives → Option (Objective Float)
  find_objective type [] = none
  find_objective type ((t, o) ∷ objectives) =
      if same_objective t type then some o else find_objective type objectives

  -- The direction is that of the first objective.
  abbrev pub is_better : Objective Float → Objective Float → Bool
  is_better obj other =
      if obj.is_minimize then lt obj.value other.value else lt other.value obj.value

  abbrev pub is_worse : Objective Float → Objective Float → Bool
  is_worse obj other =
      if obj.is_minimize then lt other.value obj.value else lt obj.value other.value

  -- The loop of `Dominates` from an objective on: nothing worse, and something better, counting what
  -- was better before.
  pub dominates_loop : Objectives → Objectives → Bool → Bool
  dominates_loop [] others strictly = strictly
  dominates_loop ((type, obj) ∷ objectives) others strictly = elim (find_objective type others) [
    | none ↦ dominates_loop objectives others strictly
    | some other ↦
        if is_worse obj other
        then false
        else dominates_loop objectives others (if is_better obj other then true else strictly)
  ]

  abbrev pub is_empty : Objectives → Bool
  is_empty [] = true
  is_empty (_ ∷ _) = false

  unfoldable pub dominates : Solution Float → Solution Float → Bool
  dominates s other =
      if is_empty s.objectives || is_empty other.objectives
      then false
      else dominates_loop s.objectives other.objectives false

  -- The inner loop of `assignParetoRanks`.
  pub is_dominated : List (Solution Float) → Solution Float → Bool
  is_dominated [] s = false
  is_dominated (other ∷ others) s =
      if not (str_eq s.id other.id) && dominates other s then true else is_dominated others s

  -- The fronts, by rank. `none` is a loop that has not ended within the fuel.
  pub assign_pareto_ranks : ℕ → List (Solution Float) → Option (List (List (Solution Float)))
  assign_pareto_ranks fuel [] = some []
  assign_pareto_ranks zero (s ∷ remaining) = none
  assign_pareto_ranks (suc fuel) (s ∷ remaining) =
      let all = s ∷ remaining in
      let frontier = keep (λ t. not (is_dominated all t)) all in
      let next_remaining = keep (is_dominated all) all in
      elim (assign_pareto_ranks fuel next_remaining) [
        | none ↦ none
        | some fronts ↦ some (frontier ∷ fronts)
      ]

  -- `if s.OverallScore > best.OverallScore`
  abbrev pub better_score : Solution Float → Solution Float → Solution Float
  better_score best s = if lt best.overall_score s.overall_score then s else best

  pub best_loop : Solution Float → List (Solution Float) → Solution Float
  best_loop best [] = best
  best_loop best (s ∷ frontier) = best_loop (better_score best s) frontier

  unfoldable pub find_best_solution : List (Solution Float) → Option (Solution Float)
  find_best_solution [] = none
  find_best_solution (s ∷ frontier) = some (best_loop s frontier)

  -- The body of the loop of `selectByObjective`.
  unfoldable pub better_at : ObjectiveType → Solution Float → Solution Float → Solution Float
  better_at type best s = elim (find_objective type s.objectives) [
    | none ↦ best
    | some obj ↦ elim (find_objective type best.objectives) [
      | none ↦ best
      | some best_obj ↦ if is_better obj best_obj then s else best
    ]
  ]

  pub select_loop : ObjectiveType → Solution Float → List (Solution Float) → Solution Float
  select_loop type best [] = best
  select_loop type best (s ∷ frontier) = select_loop type (better_at type best s) frontier

  unfoldable pub select_by_objective :
      List (Solution Float) → ObjectiveType → Option (Solution Float)
  select_by_objective [] type = none
  select_by_objective (s ∷ frontier) type = some (select_loop type s frontier)

  -- `result` by its frontier and its best solution.
  unfoldable pub select_best_for_profile :
      List (Solution Float) → Option (Solution Float) → String → Option (Solution Float)
  unfolding select_by_objective
  select_best_for_profile [] best_solution profile = none
  select_best_for_profile (s ∷ frontier) best_solution profile =
      if str_eq profile "production"
      then select_by_objective (s ∷ frontier) reliability
      else if str_eq profile "staging"
      then best_solution
      else if str_eq profile "development"
      then select_by_objective (s ∷ frontier) cost
      else if str_eq profile "performance"
      then select_by_objective (s ∷ frontier) performance
      else best_solution
