-- ===== src/Pareto/Dominance.antt =====
-- When one solution dominates another, as the loop over its objectives decides it.
use intelligent_cluster_opti.Prelude.{
  ◌≡◌, refl, ◌↔◌, ◌⊎◌, inl, inr, Bool, true, false, some, [], ◌∷◌, arith, Bool-cases, Option-cases,
}
use intelligent_cluster_opti.Pareto.{
  Floats, Objective, Solution, Objectives, find_objective, is_better, is_worse, dominates_loop,
  is_empty, dominates,
}

module _ (f : Floats) where
  open f use {Float, lt, IsNumber, lt_irrefl, lt_trans, lt_cotrans}

  -- No objective of the first is worse than its counterpart in the second.
  abbrev pub NowhereWorse : Objectives f → Objectives f → Type 0
  NowhereWorse [] others = Unit
  NowhereWorse ((type, obj) ∷ objectives) others =
      ((other : Objective Float)
        → find_objective f type others ≡ some other
        → is_worse f obj other ≡ false)
      × NowhereWorse objectives others

  -- Some objective of the first is better than its counterpart in the second.
  abbrev pub SomewhereBetter : Objectives f → Objectives f → Type 0
  SomewhereBetter [] others = ⊥
  SomewhereBetter ((type, obj) ∷ objectives) others =
      ((other : Objective Float) × (find_objective f type others ≡ some other)
        × (is_better f obj other ≡ true))
      ⊎ SomewhereBetter objectives others

  loop_sound :
      (objectives others : Objectives f) (strictly : Bool)
      → dominates_loop f objectives others strictly ≡ true
      → NowhereWorse objectives others × ((strictly ≡ true) ⊎ SomewhereBetter objectives others)
  unfolding dominates_loop
  loop_sound [] others strictly e = (tt, inl e)
  loop_sound ((type, obj) ∷ objectives) others strictly e =
      elim (Option-cases (find_objective f type others)) [
        | inl n ↦
            let (w, b) = loop_sound objectives others strictly (ground arith) in
            (((λ o k. ground arith), w), elim b [ inl s ↦ inl s | inr t ↦ inr (inr t) ])
        | inr (o, n) ↦ elim (Bool-cases (is_worse f obj o)) [
          | inl worse ↦ absurd (ground arith)
          | inr not_worse ↦ elim (Bool-cases (is_better f obj o)) [
            | inl better ↦
                let (w, b) = loop_sound objectives others true (ground arith) in
                (((λ o' k. ground arith), w), inr (inl (o, n, better)))
            | inr same ↦
                let (w, b) = loop_sound objectives others strictly (ground arith) in
                (((λ o' k. ground arith), w), elim b [ inl s ↦ inl s | inr t ↦ inr (inr t) ])
          ]
        ]
      ]

  loop_complete :
      (objectives others : Objectives f) (strictly : Bool)
      → NowhereWorse objectives others
      → (strictly ≡ true) ⊎ SomewhereBetter objectives others
      → dominates_loop f objectives others strictly ≡ true
  unfolding dominates_loop
  loop_complete [] others strictly tt (inl e) = e
  loop_complete [] others strictly tt (inr b) = absurd b
  loop_complete ((type, obj) ∷ objectives) others strictly (w, ws) b =
      elim (Option-cases (find_objective f type others)) [
        | inl n ↦ ground (arith, loop_complete objectives others strictly ws)
        | inr (o, n) ↦ elim (Bool-cases (is_better f obj o)) [
          | inl better ↦ ground (arith, w o n, loop_complete objectives others true ws (inl refl))
          | inr same ↦ ground (arith, w o n, loop_complete objectives others strictly ws)
        ]
      ]

  -- A solution dominates another exactly if both have objectives, none of the objectives they share
  -- is worse in the first, and one of them is better there.
  pub dominates_iff :
      (s other : Solution Float)
      → dominates f s other ≡ true ↔ (
          (is_empty f s.objectives ≡ false)
          × (is_empty f other.objectives ≡ false)
          × NowhereWorse s.objectives other.objectives
          × SomewhereBetter s.objectives other.objectives)
  unfolding dominates
  dominates_iff s other = (
    λ e.
        let (w, b) = loop_sound s.objectives other.objectives false (ground arith) in
        (ground arith, ground arith, w, elim b [ inl k ↦ absurd (ground arith) | inr k ↦ k ]),
    λ (n, m, w, b). ground (arith, loop_complete s.objectives other.objectives false w (inr b)),
  )
