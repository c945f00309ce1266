-- ===== src/Policy/Engine/Validated.antt =====
-- Policies that were loaded are valid, stand in the order of their priorities, and never make
-- `Evaluate` fail.
use intelligent_cluster_opti.Prelude.{
  String, ◌≡◌, refl, true, false, Option, none, some, List, [], ◌∷◌, arith, if◌then◌else◌, str_eq,
  All, All-map, ◌||◌, ◌≢◌, Bool-cases, Option-cases, inl, inr, ◌⊎◌,
}
use intelligent_cluster_opti.Prelude.Int.{◌≤ℤ◌}
use intelligent_cluster_opti.Prelude.Dict.{Dict}
use intelligent_cluster_opti.Prelude.Sort.{SortSlice, Sorts, IsSorted, IsOrder, All-perm}
use intelligent_cluster_opti.Policy.Types.{
  Policy, PolicySet, RecommendationInfo, PolicyDecision, Error, cannot_decode, Result, ok, err,
  Floats, Expressions,
}
use intelligent_cluster_opti.Policy.Values.{
  is_valid_action, validate_action_parameters, check_parameter,
}
use intelligent_cluster_opti.Policy.Engine.{
  Engine, LimitType, ResourceType, cpu, memory, min, max, param_key, type_name,
  apply_resource_modification, apply_limit, apply_action, validate_policy, validate_policies,
  higher_priority, load_policies, explain, evaluate_condition, evaluate_loop, evaluate,
}

-- No later policy has a greater priority.
abbrev pub IsDescending : List Policy → Type 0
IsDescending [] = Unit
IsDescending (p ∷ ps) = All (λ q. q.priority ≤ℤ p.priority) ps × IsDescending ps

higher_priority-IsOrder : IsOrder higher_priority
unfolding higher_priority
higher_priority-IsOrder = record {
  asymmetric = λ p q h. ground (arith, h);
  transitive = λ p q r h k. ground (arith, h, k);
}

-- By the comparison that the code gives, the sort goes from the greatest priority to the least.
IsSorted-IsDescending : (ps : List Policy) → IsSorted higher_priority ps → IsDescending ps
unfolding higher_priority
IsSorted-IsDescending [] h = tt
IsSorted-IsDescending (p ∷ ps) (h, hs) = (
  All-map _ (λ q. q.priority ≤ℤ p.priority) ps (λ q k. ground (arith, k)) h,
  IsSorted-IsDescending ps hs,
)

explain_ok :
    (f : Floats) (x : Expressions) (r : Result PolicyDecision) (p : Policy) (e : Error)
    → r ≢ err e
    → explain f x p r ≢ err e
explain_ok f x (ok d) p e n h = cc
explain_ok f x (err y) p e n h = n h

module _ (f : Floats) where
  abbrev pub IsValid : Policy → Type 0
  IsValid p = validate_policy f p ≡ none

  validate-All : (ps : List Policy) → validate_policies f ps ≡ none → All IsValid ps
  unfolding validate_policies
  validate-All [] e = tt
  validate-All (p ∷ ps) e = ground (arith, validate-All ps)

  -- A parameter that was checked can be applied.
  checked :
      (p : Policy) (r : RecommendationInfo) (resource : ResourceType) (limit : LimitType)
      (e : Error)
      → check_parameter f (param_key limit resource) (type_name resource) p ≡ none
      → apply_resource_modification f p r resource limit ≢ err e
  unfolding check_parameter apply_resource_modification
  checked p r resource limit e c h = ground arith

  limit_ok :
      (p : Policy) (r : RecommendationInfo) (e : Error)
      → validate_action_parameters f p ≡ none
      → (str_eq p.action "set-min-cpu"
          || str_eq p.action "set-max-cpu"
          || str_eq p.action "set-min-memory"
          || str_eq p.action "set-max-memory"
          || str_eq p.action "require-approval")
        ≡ true
      → apply_limit f p r ≢ err e
  unfolding validate_action_parameters apply_limit
  limit_ok p r e v a h = ground (
    arith,
    checked p r cpu min e,
    checked p r cpu max e,
    checked p r memory min e,
    checked p r memory max e,
  )

  valid_parts :
      (p : Policy)
      → IsValid p
      → (is_valid_action p.action ≡ true) × (validate_action_parameters f p ≡ none)
  unfolding validate_policy
  valid_parts p v = ground arith

  apply_ok :
      (p : Policy) (r : RecommendationInfo) (e : Error) → IsValid p → apply_action f p r ≢ err e
  unfolding apply_action is_valid_action
  apply_ok p r e v h = let (a, w) = valid_parts p v in ground (arith, limit_ok p r e w)

  -- The policies of an engine that has loaded them, or of a new one.
  pub record IsLoaded {Program : Type 0} (e : Engine Program) : Type 0 where
    pub valid : All IsValid e.policies.policies
    pub ordered : IsDescending e.policies.policies
    pub has_default : str_eq e.policies.default_action "" ≡ false

  default_set : (s : String) → str_eq (if str_eq s "" then "allow" else s) "" ≡ false
  default_set s = elim (Bool-cases (str_eq s "")) [ inl e ↦ rw e refl | inr n ↦ rw n n ]

  load_cases :
      {Program : Type 0} (sort : SortSlice) (decoded : Option PolicySet) (e : Engine Program)
      → ((x : Error) × (load_policies f sort decoded e ≡ (e, some x)))
        ⊎ ((set : PolicySet) × (validate_policies f set.policies ≡ none)
            × ((load_policies f sort decoded e).0.policies.policies
                ≡ sort.sort_slice higher_priority set.policies)
            × (str_eq (load_policies f sort decoded e).0.policies.default_action "" ≡ false)
            × ((load_policies f sort decoded e).1 ≡ none))
  unfolding load_policies
  load_cases sort none e = inl (cannot_decode, refl)
  load_cases sort (some set) e = elim (Option-cases (validate_policies f set.policies)) [
    | inl v ↦ inr (
      set,
      v,
      rw (v, load_policies) refl,
      rw (v, load_policies) (default_set set.default_action),
      rw (v, load_policies) refl,
    )
    | inr (x, v) ↦ inl (x, rw (v, load_policies) refl)
  ]

  module _ (x : Expressions) (env : x.Context × RecommendationInfo) where
    loop_ok :
        (default_action : String) (ps : List Policy) (cache : Dict x.Program) (e : Error)
        → All IsValid ps
        → (evaluate_loop f x default_action ps cache env).1 ≢ err e
    unfolding evaluate_loop
    loop_ok default_action [] cache e v h = cc
    loop_ok default_action (p ∷ ps) cache e v h =
        let (cache', matches) = evaluate_condition f x cache p.condition env in
        ground (
          arith,
          loop_ok default_action ps cache e v.1,
          loop_ok default_action ps cache' e v.1,
          explain_ok f x (apply_action f p env.1) p e (λ k. apply_ok p env.1 e v.0 k),
        )

  -- If `sort.Slice` keeps the entries and sorts them by any strict weak order it is given, then loading
  -- keeps an engine loaded, which is that all its policies are valid, that they stand from the greatest
  -- priority to the least, and that its default action is set; and the loading either succeeds or leaves
  -- the engine as it was.
  pub load_policies-IsLoaded :
      {Program : Type 0} (sort : SortSlice) (decoded : Option PolicySet) (e : Engine Program)
      → Sorts sort
      → IsLoaded e
      → let (after, failed) = load_policies f sort decoded e in
        IsLoaded after × ((failed ≡ none) ⊎ (after ≡ e))
  load_policies-IsLoaded sort decoded e s l = elim (load_cases sort decoded e) [
    | inl (x, same) ↦ rw same (l, inr refl)
    | inr (set, v, policies, default, none_failed) ↦ (
      record {
        valid = rw policies (
            All-perm IsValid (s.permuted higher_priority set.policies)
              (validate-All set.policies v));
        ordered = rw policies (
            IsSorted-IsDescending _
              (s.sorted higher_priority set.policies (higher_priority-IsOrder)));
        has_default = default;
      },
      inl none_failed,
    )
  ]

  module _ (x : Expressions) where
    -- With policies that were loaded, `Evaluate` never returns an error, whatever the conditions do; and
    -- the engine is loaded afterwards.
    pub evaluate_ok :
        (e : Engine x.Program) (env : x.Context × RecommendationInfo) (error : Error)
        → IsLoaded e
        → ((evaluate f x e env).1 ≢ err error) × IsLoaded (evaluate f x e env).0
    unfolding evaluate
    evaluate_ok e env error l = (
      loop_ok x env e.policies.default_action e.policies.policies e.compiled_programs error l.valid,
      record { valid = l.valid; ordered = l.ordered; has_default = l.has_default },
    )
