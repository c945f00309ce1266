-- ===== src/Safety/Pdb/Budget.antt =====
-- What a check that answers safe or unsafe says of the budget.
use intelligent_cluster_opti.Prelude.{
  ℕ, ◌+◌, ◌<◌, String, ◌≡◌, refl, ◌↔◌, inl, inr, true, false, none, some, arith, str_eq,
  Option-cases,
}
use intelligent_cluster_opti.Prelude.Int.{ℤ, pos, negsuc, ◌-ℤ◌, ◌+ℤ◌, ◌≤ℤ◌, ◌<ℤ◌, wrap32}
use intelligent_cluster_opti.Safety.Pdb.{
  Api, PodDisruptionBudget, WorkloadInfo, PdbCheckResult, get_workload_info, find_matching_pdb,
  calculate_int_or_percent, check_budget, check_pdb_safety, calculate_safe_disruption_budget,
  budget_of,
}

-- Positive, and in range with the replicas that are available.
abbrev pub IsLimit : ℤ → ℕ → Type 0
IsLimit limit available = (pos 0 <ℤ limit) × (limit +ℤ pos available <ℤ pos 2_147_483_648)

iff_trans : {A B D : Type 0} → A ↔ B → B ↔ D → A ↔ D
iff_trans (f, f') (g, g') = (λ a. g (f a), λ d. f' (g' d))

-- What `CalculateSafeDisruptionBudget` computes from a minimum, and from a maximum.
left_above :
    (limit : ℤ) (available planned : ℕ)
    → IsLimit limit available
    → (limit +ℤ pos planned ≤ℤ pos available) ↔ (pos planned ≤ℤ wrap32 (pos available -ℤ limit))
unfolding wrap32 ◌-ℤ◌ ◌+ℤ◌
left_above limit available planned l = ground arith

difference :
    (a b : ℕ) → a < 2_147_483_648 → b < 2_147_483_648 → wrap32 (pos a -ℤ pos b) ≡ pos a -ℤ pos b
unfolding wrap32 ◌-ℤ◌
difference a b h k = ground arith

left_below :
    (limit : ℤ) (current available planned : ℕ)
    → IsLimit limit available
    → current < 2_147_483_648
    → (pos (current + planned) ≤ℤ limit +ℤ pos available)
      ↔ (pos planned ≤ℤ wrap32 (limit -ℤ wrap32 (pos current -ℤ pos available)))
unfolding wrap32 ◌-ℤ◌ ◌+ℤ◌
left_below (pos limit) current available planned l h =
    rw (difference current available h (ground arith)) (ground arith)
left_below (negsuc limit) current available planned l h = absurd (ground arith)

module _ (api : Api) (namespace kind name : String) where
  -- The named workload is found, and so is the budget that is about it.
  pub record Found (info : WorkloadInfo api.Labels) (pdb : PodDisruptionBudget api.Selector)
      : Type 0 where
    pub named : str_eq name "" ≡ false
    pub workload : get_workload_info api namespace kind name ≡ some info
    pub budget : find_matching_pdb api namespace info.labels ≡ some (some pdb)

  checked :
      (info : WorkloadInfo api.Labels) (pdb : PodDisruptionBudget api.Selector) (planned : ℤ)
      → Found info pdb
      → check_pdb_safety api namespace kind name planned ≡ some (check_budget api pdb info planned)
  unfolding check_pdb_safety
  checked info pdb planned f = rw (f.named, f.workload, check_pdb_safety) (rw f.budget refl)

  -- The budget is kept, in exact arithmetic, by `planned` disruptions of `available` of `current`
  -- replicas: the minimum decides where there is one, or else the maximum; without either no
  -- disruption counts as safe.
  abbrev pub Keeps : PodDisruptionBudget api.Selector → ℕ → ℕ → ℕ → Type 0
  Keeps pdb current available planned = elim pdb.min_available [
    | some value ↦ calculate_int_or_percent api value (pos current) +ℤ pos planned ≤ℤ pos available
    | none ↦ elim pdb.max_unavailable [
      | some value ↦
          pos (current + planned)
          ≤ℤ calculate_int_or_percent api value (pos current) +ℤ pos available
      | none ↦ ⊥
    ]
  ]

  check_budget-Keeps :
      (info : WorkloadInfo api.Labels) (pdb : PodDisruptionBudget api.Selector)
      (current available planned : ℕ)
      → info.current_replicas ≡ pos current
      → info.available_replicas ≡ pos available
      → current + planned < 2_147_483_648
      → available < 2_147_483_648
      → ((check_budget api pdb info (pos planned)).is_safe ≡ true)
        ↔ Keeps pdb current available planned
  unfolding check_budget wrap32 ◌-ℤ◌ ◌+ℤ◌
  check_budget-Keeps info pdb current available planned c a h k =
      elim (Option-cases pdb.min_available) [
        | inr (value, m) ↦ ground arith
        | inl n ↦ elim (Option-cases pdb.max_unavailable) [
          | inr (value, m) ↦ ground arith
          | inl n' ↦ ground arith
        ]
      ]

  -- The check of a workload with a budget answers, and it answers that a planned disruption is safe
  -- exactly if the budget is kept in exact arithmetic: the replicas that stay available are at least
  -- the minimum, or those unavailable then are at most the maximum. The counts are those of an
  -- `int32`, with room for the planned disruption.
  pub check_pdb_safety-Keeps :
      (info : WorkloadInfo api.Labels) (pdb : PodDisruptionBudget api.Selector)
      (current available planned : ℕ)
      → Found info pdb
      → info.current_replicas ≡ pos current
      → info.available_replicas ≡ pos available
      → current + planned < 2_147_483_648
      → available < 2_147_483_648
      → (result : PdbCheckResult) × (check_pdb_safety api namespace kind name (pos planned)
          ≡ some result)
        × ((result.is_safe ≡ true) ↔ Keeps pdb current available planned)
  check_pdb_safety-Keeps info pdb current available planned f c a h k = (
    check_budget api pdb info (pos planned),
    checked info pdb (pos planned) f,
    check_budget-Keeps info pdb current available planned c a h k,
  )

  -- There is a limit: the minimum, or else the maximum.
  abbrev pub HasLimit : PodDisruptionBudget api.Selector → ℕ → ℕ → Type 0
  HasLimit pdb current available = elim pdb.min_available [
    | some value ↦ IsLimit (calculate_int_or_percent api value (pos current)) available
    | none ↦ elim pdb.max_unavailable [
      | some value ↦ IsLimit (calculate_int_or_percent api value (pos current)) available
      | none ↦ ⊥
    ]
  ]

  Keeps-budget :
      (info : WorkloadInfo api.Labels) (pdb : PodDisruptionBudget api.Selector)
      (current available planned : ℕ)
      → info.current_replicas ≡ pos current
      → info.available_replicas ≡ pos available
      → current < 2_147_483_648
      → HasLimit pdb current available
      → Keeps pdb current available planned
        ↔ (pos planned ≤ℤ budget_of api (check_budget api pdb info (pos 0)))
  unfolding check_budget
  Keeps-budget info pdb current available planned c a h l = elim (Option-cases pdb.min_available) [
    | inr (value, m) ↦
        let limit = calculate_int_or_percent api value (pos current) in
        ground (arith, left_above limit available planned)
    | inl n ↦ elim (Option-cases pdb.max_unavailable) [
      | inr (value, m) ↦
          let limit = calculate_int_or_percent api value (pos current) in
          ground (arith, left_below limit current available planned)
      | inl n' ↦ ground arith
    ]
  ]

  -- For a workload with a budget whose limit is positive, `CalculateSafeDisruptionBudget` answers with
  -- the greatest disruption that `CheckPDBSafety` finds safe: a planned disruption is safe exactly if
  -- it is at most the answer. The counts are those of an `int32`, with room for the limit and for the
  -- planned disruption.
  pub calculate_safe_disruption_budget_greatest :
      (info : WorkloadInfo api.Labels) (pdb : PodDisruptionBudget api.Selector)
      (current available planned : ℕ)
      → Found info pdb
      → info.current_replicas ≡ pos current
      → info.available_replicas ≡ pos available
      → current + planned < 2_147_483_648
      → available < 2_147_483_648
      → HasLimit pdb current available
      → (result : PdbCheckResult) × (budget : ℤ) × (check_pdb_safety api namespace kind name
            (pos planned)
          ≡ some result)
        × (calculate_safe_disruption_budget api namespace kind name ≡ some budget)
        × ((result.is_safe ≡ true) ↔ (pos planned ≤ℤ budget))
  unfolding calculate_safe_disruption_budget
  calculate_safe_disruption_budget_greatest info pdb current available planned f c a h k l = (
    check_budget api pdb info (pos planned),
    budget_of api (check_budget api pdb info (pos 0)),
    checked info pdb (pos planned) f,
    rw (checked info pdb (pos 0) f, calculate_safe_disruption_budget) refl,
    iff_trans (check_budget-Keeps info pdb current available planned c a h k)
        (Keeps-budget info pdb current available planned c a (omega arith) l),
  )
