-- ===== src/Pareto/Choice.antt =====
-- The best solution of the frontier.
use intelligent_cluster_opti.Prelude.{
  ◌≡◌, refl, ◌⊎◌, inl, inr, false, Option, none, some, List, [], ◌∷◌, arith, All, Bool-cases,
}
use intelligent_cluster_opti.Pareto.{Floats, Solution, better_score, best_loop, find_best_solution}

module _ (f : Floats) where
  open f use {Float, lt, IsNumber, lt_irrefl, lt_trans, lt_cotrans}

  abbrev pub IsIn : Solution Float → List (Solution Float) → Type 0
  IsIn s [] = ⊥
  IsIn s (t ∷ ts) = (s ≡ t) ⊎ IsIn s ts

  abbrev pub Scored : Solution Float → Type 0
  Scored s = IsNumber s.overall_score

  -- The second does not score higher.
  abbrev pub NoLower : Solution Float → Solution Float → Type 0
  NoLower best s = lt best.overall_score s.overall_score ≡ false

  NoLower-trans : (a b s : Solution Float) → Scored b → NoLower a b → NoLower b s → NoLower a s
  NoLower-trans a b s n h k = elim (Bool-cases (lt a.overall_score s.overall_score)) [
    | inl e ↦ elim (lt_cotrans a.overall_score b.overall_score s.overall_score n e) [
      | inl i ↦ absurd (ground arith)
      | inr i ↦ absurd (ground arith)
    ]
    | inr e ↦ e
  ]

  better_score-NoLower :
      (best s : Solution Float)
      → Scored best
      → Scored s
      → Scored (better_score f best s)
        × NoLower (better_score f best s) best
        × NoLower (better_score f best s) s
  better_score-NoLower best s n m = ground (
    arith,
    lt_irrefl best.overall_score,
    lt_irrefl s.overall_score,
    lt_trans best.overall_score s.overall_score best.overall_score,
  )

  best_loop-NoLower :
      (best : Solution Float) (frontier : List (Solution Float))
      → Scored best
      → All Scored frontier
      → NoLower (best_loop f best frontier) best
        × All (NoLower (best_loop f best frontier)) frontier
  unfolding best_loop
  best_loop-NoLower best [] n ns = (lt_irrefl best.overall_score, tt)
  best_loop-NoLower best (s ∷ frontier) n (m, ns) =
      let (k, over, over') = better_score-NoLower best s n m in
      let (h, hs) = best_loop-NoLower (better_score f best s) frontier k ns in
      let r = best_loop f (better_score f best s) frontier in
      (
        NoLower-trans r (better_score f best s) best k h over,
        (NoLower-trans r (better_score f best s) s k h over', hs),
      )

  better_score-cases :
      (best s r : Solution Float) → r ≡ better_score f best s → (r ≡ best) ⊎ (r ≡ s)
  better_score-cases best s r e = ground arith

  best_loop-IsIn :
      (best : Solution Float) (frontier : List (Solution Float))
      → IsIn (best_loop f best frontier) (best ∷ frontier)
  unfolding best_loop
  best_loop-IsIn best [] = inl refl
  best_loop-IsIn best (s ∷ frontier) = elim (best_loop-IsIn (better_score f best s) frontier) [
    | inl k ↦ elim (better_score-cases best s _ k) [ inl b ↦ inl b | inr t ↦ inr (inl t) ]
    | inr k ↦ inr (inr k)
  ]

  abbrev pub IsBest : Option (Solution Float) → List (Solution Float) → Type 0
  IsBest none frontier = frontier ≡ []
  IsBest (some best) frontier = IsIn best frontier × All (NoLower best) frontier

  -- When the overall scores of a frontier are numbers, the best solution is one of the frontier than
  -- which no other scores higher; there is none only for the empty frontier.
  pub find_best_solution-IsBest :
      (frontier : List (Solution Float))
      → All Scored frontier
      → IsBest (find_best_solution f frontier) frontier
  unfolding find_best_solution
  find_best_solution-IsBest [] tt = refl
  find_best_solution-IsBest (s ∷ frontier) (n, ns) =
      (best_loop-IsIn s frontier, best_loop-NoLower s frontier n ns)
