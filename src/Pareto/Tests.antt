-- ===== src/Pareto/Tests.antt =====
-- The theorems of the Pareto optimisation at small frontiers, with numbers for the floats.
use intelligent_cluster_opti.Prelude.{
  ℕ, ◌<◌, refl, some, List, All, length, String, ◌≡◌, ◌⊎◌, Bool, true, false, ltb, [], ◌∷◌, arith,
}
use intelligent_cluster_opti.Pareto.{
  Floats, ObjectiveType, Objective, cost, performance, reliability, efficiency, stability, Solution,
  assign_pareto_ranks, find_objective, same_objective,
}
use intelligent_cluster_opti.Pareto.Fronts.{total}
use intelligent_cluster_opti.Pareto.Strict.{HasAll, assign_pareto_ranks_lem}

ltb_irrefl : (a : ℕ) → ltb a a ≡ false
ltb_irrefl a = ground arith

ltb_trans : (a b c : ℕ) → ltb a b ≡ true → ltb b c ≡ true → ltb a c ≡ true
ltb_trans a b c h k = ground arith

ltb_cotrans : (a b c : ℕ) → ltb a c ≡ true → (ltb a b ≡ true) ⊎ (ltb b c ≡ true)
ltb_cotrans a b c h = ground arith

abbrev numbers : Floats
numbers = record {
  Float = ℕ;
  lt = ltb;
  IsNumber = λ a. Unit;
  lt_irrefl = ltb_irrefl;
  lt_trans = ltb_trans;
  lt_cotrans = λ a b c n. ltb_cotrans a b c;
}

abbrev objective : String → ℕ → Bool → Objective ℕ
objective name value is_minimize = record {
  name = name;
  value = value;
  weight = 1;
  is_minimize = is_minimize;
}

-- As the objectives are set in `createSolution`.
abbrev plan : String → ℕ → ℕ → ℕ → ℕ → ℕ → Solution ℕ
plan id price headroom buffer usage confidence = record {
  id = id;
  objectives =
      (cost, objective "Cost" price true)
      ∷ (performance, objective "Performance" headroom false)
      ∷ (reliability, objective "Reliability" buffer false)
      ∷ (efficiency, objective "Efficiency" usage false)
      ∷ (stability, objective "Stability" confidence false)
      ∷ [];
  overall_score = 0;
}

plan-HasAll :
    (id : String) (price headroom buffer usage confidence : ℕ)
    → HasAll numbers (plan id price headroom buffer usage confidence)
unfolding find_objective same_objective
plan-HasAll id price headroom buffer usage confidence = record {
  entries = (
    record { only = refl; direction = refl; number = tt },
    (
      record { only = refl; direction = refl; number = tt },
      (
        record { only = refl; direction = refl; number = tt },
        (
          record { only = refl; direction = refl; number = tt },
          (record { only = refl; direction = refl; number = tt }, tt),
        ),
      ),
    ),
  );
  found = found;
}
  where
    found :
        (t : ObjectiveType)
        → (o : Objective ℕ) × (find_objective numbers t
              (plan id price headroom buffer usage confidence).objectives
            ≡ some o)
    found cost = (objective "Cost" price true, refl)
    found performance = (objective "Performance" headroom false, refl)
    found reliability = (objective "Reliability" buffer false, refl)
    found efficiency = (objective "Efficiency" usage false, refl)
    found stability = (objective "Stability" confidence false, refl)

abbrev cheap : Solution ℕ
cheap = plan "cheap" 10 30 20 70 80

abbrev safe : Solution ℕ
safe = plan "safe" 30 60 60 50 80

abbrev poor : Solution ℕ
poor = plan "poor" 30 20 20 50 10

assign_pareto_ranks_lem_example :
    (fronts : List (List (Solution ℕ))) × (assign_pareto_ranks numbers 3 (cheap ∷ safe ∷ poor ∷ [])
      ≡ some fronts)
    × (total fronts ≡ 3)
    × All (λ front. 0 < length front) fronts
assign_pareto_ranks_lem_example = assign_pareto_ranks_lem numbers (cheap ∷ safe ∷ poor ∷ []) (
  plan-HasAll "cheap" 10 30 20 70 80,
  (plan-HasAll "safe" 30 60 60 50 80, (plan-HasAll "poor" 30 20 20 50 10, tt)),
)
