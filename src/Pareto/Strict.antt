-- ===== src/Pareto/Strict.antt =====
-- Dominance among solutions that have all five objectives, as `createSolution` (pkg/pareto/optimizer.go)
-- makes them, and the end of the non-dominated sorting.
use intelligent_cluster_opti.Prelude.{
  ◌<◌, length, ◌≡◌, refl, sym, ◌∙◌, inl, inr, Bool, true, false, some, List, [], ◌∷◌, All, arith,
  Bool-cases, subst,
}
use intelligent_cluster_opti.Pareto.{
  Floats, Objective, ObjectiveType, cost, performance, reliability, efficiency, stability, Solution,
  Objectives, find_objective, same_objective, is_better, is_worse, is_empty, dominates,
  assign_pareto_ranks,
}
use intelligent_cluster_opti.Pareto.Dominance.{NowhereWorse, SomewhereBetter, dominates_iff}
use intelligent_cluster_opti.Pareto.Fronts.{IsStrict, total, assign_pareto_ranks_ends}

same_objective-eq : (s t : ObjectiveType) → same_objective s t ≡ true → s ≡ t
unfolding same_objective
same_objective-eq s t h = ground arith

-- Less cost is better, and more of the others.
abbrev pub minimizes : ObjectiveType → Bool
minimizes cost = true
minimizes performance = false
minimizes reliability = false
minimizes efficiency = false
minimizes stability = false

module _ (f : Floats) where
  open f use {Float, lt, IsNumber, lt_irrefl, lt_cotrans}

  -- An entry of a map, whose value is a number.
  pub record IsEntry (all : Objectives f) (entry : ObjectiveType × Objective Float) : Type 0 where
    pub only : find_objective f entry.0 all ≡ some entry.1
    pub direction : entry.1.is_minimize ≡ minimizes entry.0
    pub number : IsNumber entry.1.value

  -- Each objective is there, once.
  pub record HasAll (s : Solution Float) : Type 0 where
    pub entries : All (IsEntry s.objectives) s.objectives
    pub found :
        (t : ObjectiveType) → (o : Objective Float) × (find_objective f t s.objectives ≡ some o)

  NowhereWorse-at :
      (xs others : Objectives f) (t : ObjectiveType) (o other : Objective Float)
      → NowhereWorse f xs others
      → find_objective f t xs ≡ some o
      → find_objective f t others ≡ some other
      → is_worse f o other ≡ false
  unfolding find_objective
  NowhereWorse-at [] others t o other w e k = absurd (ground arith)
  NowhereWorse-at ((s, p) ∷ xs) others t o other (w, ws) e k =
      elim (Bool-cases (same_objective s t)) [
        | inl h ↦
            let q : p ≡ o = ground (arith, h, e) in
            subst (λ x. is_worse f x other ≡ false) q
              (w other (
                subst (λ x. find_objective f x others ≡ some other) (sym (same_objective-eq s t h))
                  k))
        | inr n ↦ NowhereWorse-at xs others t o other ws (ground (arith, n, e)) k
      ]

  SomewhereBetter-at :
      (xs others : Objectives f) (t : ObjectiveType) (o other : Objective Float)
      → find_objective f t xs ≡ some o
      → find_objective f t others ≡ some other
      → is_better f o other ≡ true
      → SomewhereBetter f xs others
  unfolding find_objective
  SomewhereBetter-at [] others t o other e k b = absurd (ground arith)
  SomewhereBetter-at ((s, p) ∷ xs) others t o other e k b = elim (Bool-cases (same_objective s t)) [
    | inl h ↦
        let q : p ≡ o = ground (arith, h, e) in
        inl (
          other,
          subst (λ x. find_objective f x others ≡ some other) (sym (same_objective-eq s t h)) k,
          subst (λ x. is_better f x other ≡ true) (sym q) b,
        )
    | inr n ↦ inr (SomewhereBetter-at xs others t o other (ground (arith, n, e)) k b)
  ]

  -- Where the first is better.
  abbrev BetterIn : Objectives f → Objectives f → Type 0
  BetterIn all others =
      (t : ObjectiveType) × (o : Objective Float) × (other : Objective Float) × (find_objective f t
          all
        ≡ some o)
      × (find_objective f t others ≡ some other)
      × (is_better f o other ≡ true)

  SomewhereBetter-in :
      (all xs others : Objectives f)
      → All (IsEntry all) xs
      → SomewhereBetter f xs others
      → BetterIn all others
  SomewhereBetter-in all [] others h b = absurd b
  SomewhereBetter-in all ((t, o) ∷ xs) others (h, hs) (inl (other, e, b)) =
      (t, o, other, h.only, e, b)
  SomewhereBetter-in all ((t, o) ∷ xs) others (h, hs) (inr b) =
      SomewhereBetter-in all xs others hs b

  NowhereWorse-all :
      (all xs others : Objectives f)
      → All (IsEntry all) xs
      → ((t : ObjectiveType) (o other : Objective Float)
          → find_objective f t all ≡ some o
          → find_objective f t others ≡ some other
          → is_worse f o other ≡ false)
      → NowhereWorse f xs others
  NowhereWorse-all all [] others h w = tt
  NowhereWorse-all all ((t, o) ∷ xs) others (h, hs) w =
      (λ other k. w t o other h.only k, NowhereWorse-all all xs others hs w)

  entry-at :
      (all xs : Objectives f) (t : ObjectiveType) (o : Objective Float)
      → All (IsEntry all) xs
      → find_objective f t xs ≡ some o
      → (o.is_minimize ≡ minimizes t) × IsNumber o.value
  unfolding find_objective
  entry-at all [] t o h e = absurd (ground arith)
  entry-at all ((s, p) ∷ xs) t o (h, hs) e = elim (Bool-cases (same_objective s t)) [
    | inl k ↦
        let q : p ≡ o = ground (arith, k, e) in
        subst (λ x. (x.is_minimize ≡ minimizes t) × IsNumber x.value) q
          (subst (λ x. p.is_minimize ≡ minimizes x) (same_objective-eq s t k) h.direction, h.number)
    | inr n ↦ entry-at all xs t o hs (ground (arith, n, e))
  ]

  better_irrefl : (o : Objective Float) → is_better f o o ≡ false
  better_irrefl o = ground (arith, lt_irrefl o.value)

  worse_trans :
      (a b c : Objective Float)
      → a.is_minimize ≡ b.is_minimize
      → IsNumber b.value
      → is_worse f a b ≡ false
      → is_worse f b c ≡ false
      → is_worse f a c ≡ false
  worse_trans a b c m n h k =
      ground (arith, lt_cotrans a.value b.value c.value n, lt_cotrans c.value b.value a.value n)

  better_trans :
      (a b c : Objective Float)
      → a.is_minimize ≡ b.is_minimize
      → IsNumber c.value
      → is_better f a b ≡ true
      → is_worse f b c ≡ false
      → is_better f a c ≡ true
  better_trans a b c m n h k =
      ground (arith, lt_cotrans a.value c.value b.value n, lt_cotrans b.value c.value a.value n)

  -- Nothing is worse in the first.
  abbrev NeverWorse : Solution Float → Solution Float → Type 0
  NeverWorse a b =
      (t : ObjectiveType) (o other : Objective Float)
      → find_objective f t a.objectives ≡ some o
      → find_objective f t b.objectives ≡ some other
      → is_worse f o other ≡ false

  -- Nothing is worse in the first and something better, where both have all objectives.
  dominates-parts :
      (a b : Solution Float)
      → HasAll a
      → dominates f a b ≡ true
      → NeverWorse a b × BetterIn a.objectives b.objectives
  dominates-parts a b h d =
      let (n, m, w, s) = (dominates_iff f a b).0 d in
      (
        λ t o other e k. NowhereWorse-at a.objectives b.objectives t o other w e k,
        SomewhereBetter-in a.objectives a.objectives b.objectives h.entries s,
      )

  -- There is an entry.
  has_objectives : (s : Solution Float) → HasAll s → is_empty f s.objectives ≡ false
  unfolding find_objective
  has_objectives s h = let (o, e) = h.found cost in not_empty s.objectives e
    where
      not_empty :
          (xs : Objectives f) {o : Objective Float}
          → find_objective f cost xs ≡ some o
          → is_empty f xs ≡ false
      not_empty [] e = absurd (ground arith)
      not_empty (x ∷ xs) e = refl

  dominates_irrefl : (a : Solution Float) → HasAll a → dominates f a a ≡ false
  dominates_irrefl a h = elim (Bool-cases (dominates f a a)) [
    | inl d ↦
        let (w, (t, o, other, e, k, b)) = dominates-parts a a h d in
        let same : o ≡ other = ground (arith, e, k) in
        absurd (ground (arith, subst (λ x. is_better f o x ≡ true) (sym same) b, better_irrefl o))
    | inr n ↦ n
  ]

  dominates_trans :
      (a b c : Solution Float)
      → HasAll a
      → HasAll b
      → HasAll c
      → dominates f a b ≡ true
      → dominates f b c ≡ true
      → dominates f a c ≡ true
  dominates_trans a b c ha hb hc d e =
      let (w, (t, oa, ob, fa, fb, better)) = dominates-parts a b ha d in
      let (w', _) = dominates-parts b c hb e in
      let (oc, fc) = hc.found t in
      let (ma, na) = entry-at a.objectives a.objectives t oa ha.entries fa in
      let (mb, nb) = entry-at b.objectives b.objectives t ob hb.entries fb in
      let (mc, nc) = entry-at c.objectives c.objectives t oc hc.entries fc in
      (dominates_iff f a c).1 (
        has_objectives a ha,
        has_objectives c hc,
        NowhereWorse-all a.objectives a.objectives c.objectives ha.entries
            (λ s o other k l. not_worse w w' s o other k l),
        SomewhereBetter-at a.objectives c.objectives t oa oc fa fc
            (better_trans oa ob oc (ma ∙ sym mb) nc better (w' t ob oc fb fc)),
      )
    where
      not_worse : NeverWorse a b → NeverWorse b c → NeverWorse a c
      not_worse w w' t o other k l =
          let (ob, fb) = hb.found t in
          let (ma, na) = entry-at a.objectives a.objectives t o ha.entries k in
          let (mb, nb) = entry-at b.objectives b.objectives t ob hb.entries fb in
          worse_trans o ob other (ma ∙ sym mb) nb (w t o ob k fb) (w' t ob other fb l)

  HasAll-IsStrict : IsStrict f HasAll
  HasAll-IsStrict = record { irreflexive = dominates_irrefl; transitive = dominates_trans }

  -- If `<` of float64 is irreflexive and transitive, and `a < c` implies `a < b` or `b < c` for any number
  -- `b`: for solutions each of which has all five objectives, once, with numbers as values and only the
  -- cost to be minimised, the non-dominated sorting ends within as many rounds as there are solutions. No
  -- front is empty, and together the fronts have as many solutions as were given.
  pub assign_pareto_ranks_lem :
      (solutions : List (Solution Float))
      → All HasAll solutions
      → (fronts : List (List (Solution Float))) × (assign_pareto_ranks f
            (length solutions)
            solutions
          ≡ some fronts)
        × (total fronts ≡ length solutions)
        × All (λ front. 0 < length front) fronts
  assign_pareto_ranks_lem solutions h =
      assign_pareto_ranks_ends f HasAll HasAll-IsStrict (length solutions) solutions (omega arith) h
