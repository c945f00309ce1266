-- ===== src/Policy/Engine/Evaluation.antt =====
-- `Evaluate` decides by the first enabled policy whose condition holds, and its cache changes nothing.
use intelligent_cluster_opti.Prelude.{
  String, ◌≡◌, refl, sym, ◌∙◌, subst, Bool, true, false, Option, none, some, List, [], ◌∷◌, arith,
  if◌then◌else◌, str_eq, eq_iff, All, Bool-cases, Option-cases, inl, inr,
}
use intelligent_cluster_opti.Prelude.Int.{◌≤ℤ◌}
use intelligent_cluster_opti.Prelude.Dict.{Dict, lookup, insert, lookup-insert}
use intelligent_cluster_opti.Policy.Types.{
  Policy, RecommendationInfo, PolicyDecision, Result, ok, Floats, Expressions,
}
use intelligent_cluster_opti.Policy.Engine.{
  Engine, apply_action, is_match, explain, default_decision, evaluate_condition, evaluate_loop,
  evaluate,
}
use intelligent_cluster_opti.Policy.Engine.Validated.{IsDescending}

module _ (f : Floats) (x : Expressions) where
  open x use {Context, Program, compile, run}

  -- `Compile` reads the types of the environment alone, and these are the same for all.
  abbrev pub IsStatic : Type 0
  IsStatic =
      (condition : String) (a b : Context × RecommendationInfo)
      → compile condition a ≡ compile condition b

  -- The cache holds what compiling gives.
  abbrev pub IsCoherent : Dict Program → Type 0
  IsCoherent cache =
      (condition : String) (program : Program)
      → lookup condition cache ≡ some program
      → (env : Context × RecommendationInfo) → compile condition env ≡ some program

  -- Whether a condition holds, with no cache.
  unfoldable pub holds : String → Context × RecommendationInfo → Bool
  holds condition env = elim (compile condition env) [
    | none ↦ false
    | some program ↦ is_match f x (run program env)
  ]

  unfoldable pub first_match : List Policy → Context × RecommendationInfo → Option Policy
  first_match [] env = none
  first_match (p ∷ ps) env =
      let rest = first_match ps env in
      if p.enabled then (if holds p.condition env then some p else rest) else rest

  -- The decision that follows from the policy that matches.
  abbrev pub decide_by : String → RecommendationInfo → Option Policy → Result PolicyDecision
  decide_by default_action r none = ok (default_decision f x default_action)
  decide_by default_action r (some p) = explain f x p (apply_action f p r)

  insert-IsCoherent :
      (cache : Dict Program) (condition : String) (program : Program)
      (env : Context × RecommendationInfo)
      → IsStatic
      → compile condition env ≡ some program
      → IsCoherent cache
      → IsCoherent (insert condition program cache)
  insert-IsCoherent cache condition program env s n c k q h env' =
      elim (Bool-cases (str_eq condition k)) [
        | inl e ↦
            rw (sym ((eq_iff condition k).0 e))
              (s condition env' env ∙ n ∙ sym (lookup-insert condition k program cache ∙ rw e) ∙ h)
        | inr d ↦ c k q (sym (lookup-insert condition k program cache ∙ rw d) ∙ h) env'
      ]

  condition_lem :
      (cache : Dict Program) (condition : String) (env : Context × RecommendationInfo)
      → IsStatic
      → IsCoherent cache
      → (is_match f x (evaluate_condition f x cache condition env).1 ≡ holds condition env)
        × IsCoherent (evaluate_condition f x cache condition env).0
  unfolding evaluate_condition holds
  condition_lem cache condition env s c = elim (Option-cases (lookup condition cache)) [
    | inr (p, e) ↦ rw (e, evaluate_condition) (rw (c condition p e env, holds) refl, c)
    | inl e ↦ elim (Option-cases (compile condition env)) [
      | inl n ↦ rw (e, n, evaluate_condition, holds) (refl, c)
      | inr (p, n) ↦
          rw (e, n, evaluate_condition, holds) (refl, insert-IsCoherent cache condition p env s n c)
    ]
  ]

  loop_lem :
      (default_action : String) (ps : List Policy) (cache : Dict Program)
      (env : Context × RecommendationInfo)
      → IsStatic
      → IsCoherent cache
      → ((evaluate_loop f x default_action ps cache env).1
          ≡ decide_by default_action env.1 (first_match ps env))
        × IsCoherent (evaluate_loop f x default_action ps cache env).0
  unfolding evaluate_loop first_match
  loop_lem default_action [] cache env s c = (refl, c)
  loop_lem default_action (p ∷ ps) cache env s c = elim (Bool-cases p.enabled) [
    | inr off ↦ rw off (loop_lem default_action ps cache env s c)
    | inl on ↦
        let (same, coherent) = condition_lem cache p.condition env s c in
        elim (Bool-cases (holds p.condition env)) [
          | inl yes_holds ↦ rw (on, same, yes_holds) (refl, coherent)
          | inr no_holds ↦
              rw (on, same, no_holds)
                (loop_lem default_action ps (evaluate_condition f x cache p.condition env).0 env s
                  coherent)
        ]
  ]

  -- If compiling a condition does not depend on the values that it is evaluated at, and the cache holds
  -- only what compiling gives, then `Evaluate` decides by the first enabled policy whose condition
  -- holds, or by the default action if there is none, as it would without a cache; and the cache
  -- still holds only what compiling gives.
  pub evaluate_lem :
      (e : Engine Program) (env : Context × RecommendationInfo)
      → IsStatic
      → IsCoherent e.compiled_programs
      → ((evaluate f x e env).1
          ≡ decide_by e.policies.default_action env.1 (first_match e.policies.policies env))
        × IsCoherent (evaluate f x e env).0.compiled_programs
  unfolding evaluate
  evaluate_lem e env s c =
      loop_lem e.policies.default_action e.policies.policies e.compiled_programs env s c

  abbrev pub IsBeaten : Context × RecommendationInfo → Policy → Policy → Type 0
  IsBeaten env p q = q.enabled ≡ true → holds q.condition env ≡ true → q.priority ≤ℤ p.priority

  IsBeaten-rest :
      (env : Context × RecommendationInfo) (p : Policy) (qs : List Policy)
      → All (λ q. q.priority ≤ℤ p.priority) qs
      → All (IsBeaten env p) qs
  IsBeaten-rest env p [] a = tt
  IsBeaten-rest env p (q ∷ qs) a = (λ on h. a.0, IsBeaten-rest env p qs a.1)

  -- Where no later policy has a greater priority, the policy that decides is enabled, its condition
  -- holds, and no enabled policy whose condition holds has a greater priority.
  pub first_match_greatest :
      (ps : List Policy) (env : Context × RecommendationInfo) (p : Policy)
      → IsDescending ps
      → first_match ps env ≡ some p
      → (p.enabled ≡ true) × (holds p.condition env ≡ true) × All (IsBeaten env p) ps
  unfolding first_match
  first_match_greatest [] env p d e = cc
  first_match_greatest (q ∷ ps) env p d e = elim (Bool-cases q.enabled) [
    | inr off ↦
        let (on, h, rest) = first_match_greatest ps env p d.1 (rw off at e) in
        (on, h, (λ k. cc, rest))
    | inl on ↦ elim (Bool-cases (holds q.condition env)) [
      | inr fails ↦
          let (p_on, h, rest) = first_match_greatest ps env p d.1 (rw (on, fails) at e) in
          (p_on, h, (λ k l. cc, rest))
      | inl h ↦
          let same : q ≡ p = ground arith in
          subst
            (λ r.
              (r.enabled ≡ true) × (holds r.condition env ≡ true) × All (IsBeaten env r) (q ∷ ps))
            same (on, h, (λ k l. omega arith, IsBeaten-rest env q ps d.0))
    ]
  ]
