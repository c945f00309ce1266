-- ===== src/Prelude/Exchange.antt =====
-- The exchange sort that pkg/recommendation writes out twice: of each pair of places the entries change
-- places if the test says so.
use mathlib.Core.List.Permᴰ
use mathlib.Core.List.{Perm, Permᴰ}
use intelligent_cluster_opti.Prelude.{
  ℕ, zero, suc, ◌≡◌, refl, Bool, true, false, List, [], ◌∷◌, length, All, arith, if◌then◌else◌,
  Bool-cases, inl, inr,
}

module _ {ℓ} {A : Type ℓ} (swaps : A → A → Bool) where
  -- The inner loop: the entry that ends in the first place, and the rest.
  unfoldable pub exchange_pass : A → List A → A × List A
  exchange_pass x [] = (x, [])
  exchange_pass x (y ∷ ys) =
      let (first, rest) = exchange_pass (if swaps x y then y else x) ys in
      (first, (if swaps x y then x else y) ∷ rest)

  -- The outer loop. The fuel is the number of entries.
  unfoldable pub exchange_loop : ℕ → List A → List A
  exchange_loop zero xs = xs
  exchange_loop (suc fuel) [] = []
  exchange_loop (suc fuel) (x ∷ xs) =
      let (first, rest) = exchange_pass x xs in first ∷ exchange_loop fuel rest

  unfoldable pub exchange_sort : List A → List A
  exchange_sort xs = exchange_loop (length xs) xs

  -- No later entry changes places with an earlier one.
  abbrev pub IsExchanged : List A → Type ℓ
  IsExchanged [] = Unit
  IsExchanged (x ∷ xs) = All (λ y. swaps x y ≡ false) xs × IsExchanged xs

module _ {ℓ} {A : Type ℓ} (swaps : A → A → Bool) where
  exchange_pass-perm :
      (x : A) (ys : List A)
      → Permᴰ (x ∷ ys) ((exchange_pass swaps x ys).0 ∷ (exchange_pass swaps x ys).1)
  unfolding exchange_pass
  exchange_pass-perm x [] = Permᴰ.refl (x ∷ [])
  exchange_pass-perm x (y ∷ ys) = elim (Bool-cases (swaps x y)) [
    | inl e ↦ rw e (Permᴰ.trans (Permᴰ.cons refl (exchange_pass-perm y ys)) (Permᴰ.swap refl refl))
    | inr n ↦ rw n (
        Permᴰ.trans (Permᴰ.swap refl refl)
          (Permᴰ.trans (Permᴰ.cons refl (exchange_pass-perm x ys)) (Permᴰ.swap refl refl)))
  ]

  length-exchange_pass : (x : A) (ys : List A) → length (exchange_pass swaps x ys).1 ≡ length ys
  unfolding exchange_pass
  length-exchange_pass x [] = refl
  length-exchange_pass x (y ∷ ys) =
      omega (arith, length-exchange_pass (if swaps x y then y else x) ys)

  exchange_loop-perm : (fuel : ℕ) (xs : List A) → Permᴰ xs (exchange_loop swaps fuel xs)
  unfolding exchange_loop
  exchange_loop-perm zero xs = Permᴰ.refl xs
  exchange_loop-perm (suc fuel) [] = Permᴰ.nil
  exchange_loop-perm (suc fuel) (x ∷ xs) =
      let (first, rest) = exchange_pass swaps x xs in
      Permᴰ.trans (exchange_pass-perm x xs) (Permᴰ.cons refl (exchange_loop-perm fuel rest))

  -- The sort keeps the entries.
  pub exchange_sort-permuted : (xs : List A) → Permᴰ xs (exchange_sort swaps xs)
  unfolding exchange_sort
  exchange_sort-permuted xs = exchange_loop-perm (length xs) xs

  pub exchange_sort-perm : (xs : List A) → Perm xs (exchange_sort swaps xs)
  exchange_sort-perm xs = ∣ exchange_sort-permuted xs ∣₁

  exchange_pass-All {κ} :
      (P : A → Type κ) (x : A) (ys : List A)
      → P x
      → All P ys
      → P (exchange_pass swaps x ys).0 × All P (exchange_pass swaps x ys).1
  unfolding exchange_pass
  exchange_pass-All P x [] p _ = (p, tt)
  exchange_pass-All P x (y ∷ ys) p (q, qs) = elim (Bool-cases (swaps x y)) [
    | inl e ↦ let (f, r) = exchange_pass-All P y ys q qs in rw e (f, (p, r))
    | inr n ↦ let (f, r) = exchange_pass-All P x ys p qs in rw n (f, (q, r))
  ]

  exchange_loop-All {κ} :
      (P : A → Type κ) (fuel : ℕ) (xs : List A) → All P xs → All P (exchange_loop swaps fuel xs)
  unfolding exchange_loop
  exchange_loop-All P zero xs p = p
  exchange_loop-All P (suc fuel) [] p = tt
  exchange_loop-All P (suc fuel) (x ∷ xs) (p, ps) =
      let (f, r) = exchange_pass-All P x xs p ps in (f, exchange_loop-All P fuel _ r)

  -- What holds of every entry still does.
  pub exchange_sort-All {κ} :
      (P : A → Type κ) (xs : List A) → All P xs → All P (exchange_sort swaps xs)
  unfolding exchange_sort
  exchange_sort-All P xs p = exchange_loop-All P (length xs) xs p

  -- The test is a strict order up to ties.
  module _ (asymmetric : (x y : A) → swaps x y ≡ true → swaps y x ≡ false)
      (transitive : (x y z : A) → swaps x y ≡ false → swaps y z ≡ false → swaps x z ≡ false) where
    -- No entry changes places with itself.
    irreflexive : (x : A) → swaps x x ≡ false
    irreflexive x = elim (Bool-cases (swaps x x)) [ inl e ↦ asymmetric x x e | inr n ↦ n ]

    exchange_pass-first :
        (x : A) (ys : List A)
        → (swaps (exchange_pass swaps x ys).0 x ≡ false)
          × All (λ y. swaps (exchange_pass swaps x ys).0 y ≡ false) (exchange_pass swaps x ys).1
    unfolding exchange_pass
    exchange_pass-first x [] = (irreflexive x, tt)
    exchange_pass-first x (y ∷ ys) =
        of_test (swaps x y) refl (exchange_pass-first (if swaps x y then y else x) ys)
      where
        of_test :
            (b : Bool)
            → swaps x y ≡ b
            → (let pass = exchange_pass swaps (if b then y else x) ys in
                (swaps pass.0 (if b then y else x) ≡ false)
                × All (λ z. swaps pass.0 z ≡ false) pass.1)
            → let pass = exchange_pass swaps (if b then y else x) ys in
              (swaps pass.0 x ≡ false)
              × ((swaps pass.0 (if b then x else y) ≡ false)
                  × All (λ z. swaps pass.0 z ≡ false) pass.1)
        of_test true e (f, r) =
            let g = transitive (exchange_pass swaps y ys).0 y x f (asymmetric x y e) in (g, (g, r))
        of_test false n (f, r) = (f, (transitive (exchange_pass swaps x ys).0 x y f n, r))

    exchange_loop-IsExchanged :
        (fuel : ℕ) (xs : List A)
        → fuel ≡ length xs
        → IsExchanged swaps (exchange_loop swaps fuel xs)
    unfolding exchange_loop
    exchange_loop-IsExchanged zero [] h = tt
    exchange_loop-IsExchanged zero (x ∷ xs) h = absurd (omega (arith, h))
    exchange_loop-IsExchanged (suc fuel) [] h = tt
    exchange_loop-IsExchanged (suc fuel) (x ∷ xs) h =
        let (first, rest) = exchange_pass swaps x xs in
        (
          exchange_loop-All (λ y. swaps first y ≡ false) fuel rest (exchange_pass-first x xs).1,
          exchange_loop-IsExchanged fuel rest (omega (arith, h, length-exchange_pass x xs)),
        )

    -- The sort puts them in order.
    pub exchange_sort-IsExchanged : (xs : List A) → IsExchanged swaps (exchange_sort swaps xs)
    unfolding exchange_sort
    exchange_sort-IsExchanged xs = exchange_loop-IsExchanged (length xs) xs refl
