-- ===== src/Pareto/Fronts.antt =====
-- The non-dominated sorting, where dominance among the solutions is taken to be a strict order: it ends,
-- no front is empty, and the fronts have as many solutions in all as there are.
use intelligent_cluster_opti.Prelude.{
  ℕ, zero, suc, ◌+◌, ◌<◌, ◌≤◌, ◌≡◌, refl, inl, inr, Bool, true, false, not, some, List, [], ◌∷◌,
  arith, All, length, keep, Bool-cases,
}
use intelligent_cluster_opti.Pareto.{Floats, Solution, dominates, is_dominated, assign_pareto_ranks}

length-keep :
    {A : Type 0} (p : A → Bool) (xs : List A)
    → length (keep p xs) + length (keep (λ x. not (p x)) xs) ≡ length xs
length-keep p [] = omega arith
length-keep p (x ∷ xs) = ground (arith, length-keep p xs)

All-keep : {A : Type 0} (P : A → Type 0) (p : A → Bool) (xs : List A) → All P xs → All P (keep p xs)
All-keep P p [] h = tt
All-keep P p (x ∷ xs) (h, hs) = elim (Bool-cases (p x)) [
  | inl e ↦ rw (e, keep, All) (h, All-keep P p xs hs)
  | inr e ↦ rw (e, keep, All) (All-keep P p xs hs)
]

-- How many solutions the fronts have.
abbrev pub total : {A : Type 0} → List (List A) → ℕ
total [] = 0
total (front ∷ fronts) = length front + total fronts

module _ (f : Floats) (P : Solution f.Float → Type 0) where
  -- Dominance among the solutions with a property is a strict order.
  pub record IsStrict : Type 0 where
    pub irreflexive : (a : Solution f.Float) → P a → dominates f a a ≡ false
    pub transitive :
        (a b c : Solution f.Float)
        → P a
        → P b
        → P c
        → dominates f a b ≡ true
        → dominates f b c ≡ true
        → dominates f a c ≡ true

  abbrev Undominated : List (Solution f.Float) → Solution f.Float → Type 0
  Undominated all m = All (λ other. dominates f other m ≡ false) all

  not-is_dominated :
      (all : List (Solution f.Float)) (m : Solution f.Float)
      → Undominated all m
      → is_dominated f all m ≡ false
  unfolding is_dominated
  not-is_dominated [] m u = refl
  not-is_dominated (other ∷ all) m u = ground (arith, not-is_dominated all m u.1)

  module _ (strict : IsStrict) where
    Undominated-step :
        (s m : Solution f.Float) (xs : List (Solution f.Float))
        → P s
        → P m
        → All P xs
        → dominates f s m ≡ true
        → Undominated xs m
        → Undominated xs s
    Undominated-step s m [] ps pm h d u = tt
    Undominated-step s m (x ∷ xs) ps pm h d u =
        (ground (arith, strict.transitive x s m h.0 ps pm), Undominated-step s m xs ps pm h.1 d u.1)

    -- A pool that is not empty has a solution that none of the pool dominates.
    undominated :
        (s : Solution f.Float) (xs : List (Solution f.Float))
        → P s
        → All P xs
        → (m : Solution f.Float) × P m
          × Undominated (s ∷ xs) m
          × ((p : Solution f.Float → Bool) → p m ≡ true → 0 < length (keep p (s ∷ xs)))
    undominated s [] ps h = (s, ps, (strict.irreflexive s ps, tt), λ p e. ground arith)
    undominated s (x ∷ xs) ps h =
        let (m, pm, u, there) = undominated x xs h.0 h.1 in
        elim (Bool-cases (dominates f s m)) [
          | inl d ↦ (
            s,
            ps,
            (strict.irreflexive s ps, Undominated-step s m (x ∷ xs) ps pm h d u),
            λ p e. ground arith,
          )
          | inr n ↦ (m, pm, (n, u), λ p e. let k = there p e in ground arith)
        ]

    ranks_step :
        (fuel : ℕ) (s : Solution f.Float) (rest : List (Solution f.Float))
        (fronts : List (List (Solution f.Float)))
        → assign_pareto_ranks f fuel (keep (is_dominated f (s ∷ rest)) (s ∷ rest)) ≡ some fronts
        → assign_pareto_ranks f (suc fuel) (s ∷ rest)
          ≡ some (keep (λ t. not (is_dominated f (s ∷ rest) t)) (s ∷ rest) ∷ fronts)
    unfolding assign_pareto_ranks
    ranks_step fuel s rest fronts e = ground arith

    -- Where dominance among the solutions of a pool is a strict order, the non-dominated sorting ends
    -- within as many rounds as there are solutions: it gives fronts none of which is empty, and together
    -- they have as many solutions as the pool.
    pub assign_pareto_ranks_ends :
        (fuel : ℕ) (solutions : List (Solution f.Float))
        → length solutions ≤ fuel
        → All P solutions
        → (fronts : List (List (Solution f.Float))) × (assign_pareto_ranks f fuel solutions
            ≡ some fronts)
          × (total fronts ≡ length solutions)
          × All (λ front. 0 < length front) fronts
    unfolding assign_pareto_ranks
    assign_pareto_ranks_ends fuel [] h ps = ([], refl, refl, tt)
    assign_pareto_ranks_ends zero (s ∷ rest) h ps = absurd (omega arith)
    assign_pareto_ranks_ends (suc fuel) (s ∷ rest) h ps =
        let all = s ∷ rest in
        let (m, pm, u, there) = undominated s rest ps.0 ps.1 in
        let front : 0 < length (keep (λ t. not (is_dominated f all t)) all) =
          there (λ t. not (is_dominated f all t)) (rw (not-is_dominated all m u) refl) in
        let count = length-keep (is_dominated f all) all in
        let (fronts, e, n, nonempty) =
          assign_pareto_ranks_ends fuel (keep (is_dominated f all) all) (omega arith)
            (All-keep P (is_dominated f all) all ps) in
        (
          keep (λ t. not (is_dominated f all t)) all ∷ fronts,
          ranks_step fuel s rest fronts e,
          omega arith,
          (front, nonempty),
        )
