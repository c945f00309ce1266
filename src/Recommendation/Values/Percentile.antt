-- ===== src/Recommendation/Values/Percentile.antt =====
-- What the percentile is among the values.
use native.Mathlib.Nat.{ℕ_set}
use mathlib.Core.List.{Perm, foldr}
use mathlib.Core.List.Perm
use intelligent_cluster_opti.Prelude.{
  ℕ, zero, suc, ◌-◌, ◌≤◌, ◌<◌, ◌≡◌, refl, sym, ◌∙◌, ap, Bool, true, some, List, [], ◌∷◌, All,
  All-map, arith, ◌*◌, if◌then◌else◌, length, get_elem?, subst,
}
use intelligent_cluster_opti.Prelude.Int.{ℤ, pos, pos_part, ◌-ℤ◌, ◌≤ℤ◌, leb_ℤ, ltb_ℤ→le}
use intelligent_cluster_opti.Recommendation.Confidence.Summary.Times.{IsAscending}
use intelligent_cluster_opti.Recommendation.Values.{
  Library, less_value, at_index, clamp_rank, rank_of, calculate_percentile,
}
use intelligent_cluster_opti.Recommendation.Values.Rank.{nearest_rank, rank_of-nearest}
use intelligent_cluster_opti.Prelude.Sort.{Sorts, IsSorted, IsOrder}

-- How many values pass a test.
abbrev pub count : (ℤ → Bool) → List ℤ → ℕ
count p = foldr (λ x n. if p x then suc n else n) 0

counts_commute :
    (p : ℤ → Bool) (a b : ℤ) (n : ℕ)
    → (if p a then suc (if p b then suc n else n) else (if p b then suc n else n))
      ≡ (if p b then suc (if p a then suc n else n) else (if p a then suc n else n))
counts_commute p a b n = ground arith

count-All : (p : ℤ) (xs : List ℤ) → All (λ x. p ≤ℤ x) xs → count (λ v. leb_ℤ p v) xs ≡ length xs
count-All p [] h = refl
count-All p (x ∷ xs) (h, hs) =
    let ih = count-All p xs hs in
    let e : leb_ℤ p x ≡ true = ground (arith, h) in rw e (omega (arith, ih))

All-get : (P : ℤ → Type 0) (xs : List ℤ) (k : ℕ) (p : ℤ) → All P xs → get_elem? xs k ≡ some p → P p
All-get P [] k p h e = cc
All-get P (x ∷ xs) zero p (h, hs) e = subst P (ground (arith, e)) h
All-get P (x ∷ xs) (suc k) p (h, hs) e = All-get P xs k p hs e

-- In an ascending list the entry at a place splits the rest.
IsAscending-split :
    (xs : List ℤ) (k : ℕ) (p : ℤ)
    → IsAscending xs
    → get_elem? xs k ≡ some p
    → (suc k ≤ count (λ v. leb_ℤ v p) xs) × (length xs - k ≤ count (λ v. leb_ℤ p v) xs)
IsAscending-split [] k p h e = cc
IsAscending-split (x ∷ xs) zero p (h, hs) e =
    let same : p ≡ x = ground (arith, e) in
    let a = count-All p xs (subst (λ q. All (λ y. q ≤ℤ y) xs) (sym same) h) in
    let l : leb_ℤ x p ≡ true = ground (arith, same) in
    let m : leb_ℤ p x ≡ true = ground (arith, same) in (rw l (omega arith), rw m (omega (arith, a)))
IsAscending-split (x ∷ xs) (suc k) p (h, hs) e =
    let (a, b) = IsAscending-split xs k p hs e in
    let below = All-get (λ y. x ≤ℤ y) xs k p h e in
    let l : leb_ℤ x p ≡ true = ground (arith, below) in
    (rw l (omega (arith, a)), more (leb_ℤ p x) (length xs) _ b)
  where
    more : (t : Bool) (n m : ℕ) → n - k ≤ m → suc n - suc k ≤ (if t then suc m else m)
    more t n m h = ground (arith, h)

get-some : (xs : List ℤ) (k : ℕ) → k < length xs → (p : ℤ) × (get_elem? xs k ≡ some p)
get-some [] k h = absurd (omega (arith, h))
get-some (x ∷ xs) zero h = (x, refl)
get-some (x ∷ xs) (suc k) h = get-some xs k (omega (arith, h))

count-perm : (p : ℤ → Bool) {xs ys : List ℤ} → Perm xs ys → count p ys ≡ count p xs
count-perm p {xs} {ys} π =
    sym (Perm.foldr-eq ℕ_set (λ x n. if p x then suc n else n) (counts_commute p) π 0)

count-true : (xs : List ℤ) → count (λ v. true) xs ≡ length xs
count-true [] = refl
count-true (x ∷ xs) = omega (arith, count-true xs)

-- By the comparison that the code gives, the sort is ascending.
less_value-IsOrder : IsOrder less_value
unfolding less_value
less_value-IsOrder = record {
  asymmetric = λ a b h. ground (arith, h);
  transitive = λ a b c h k. ground (arith, h, k);
}

IsSorted-IsAscending : (xs : List ℤ) → IsSorted less_value xs → IsAscending xs
unfolding less_value
IsSorted-IsAscending [] h = tt
IsSorted-IsAscending (x ∷ xs) (h, hs) =
    (All-map _ (λ y. x ≤ℤ y) xs (λ y k. ltb_ℤ→le y x k) h, IsSorted-IsAscending xs hs)

-- At least `r` values are not above `p`, and all but `r - 1` are not below it.
pub record IsRanked (xs : List ℤ) (r : ℕ) (p : ℤ) : Type 0 where
  pub not_above : r ≤ count (λ w. leb_ℤ w p) xs
  pub not_below : suc (length xs) - r ≤ count (λ w. leb_ℤ p w) xs

Perm-IsRanked : {xs ys : List ℤ} (r : ℕ) (p : ℤ) → Perm xs ys → IsRanked ys r p → IsRanked xs r p
Perm-IsRanked {xs} {ys} r p π h =
    let n = sym (count-true ys) ∙ count-perm (λ w. true) π ∙ count-true xs in
    let c = count-perm (λ w. leb_ℤ w p) π in
    let d = count-perm (λ w. leb_ℤ p w) π in
    record {
      not_above = omega (arith, h.not_above, c);
      not_below = omega (arith, h.not_below, d, n);
    }

before : (k : ℕ) → pos (suc k) -ℤ pos 1 ≡ pos k
unfolding ◌-ℤ◌
before k = ground arith

-- In an ascending list the entry before the `r`-th place has the rank `r`.
at_index-IsRanked :
    (xs : List ℤ) (r : ℕ)
    → IsAscending xs
    → 0 < r
    → r ≤ length xs
    → (p : ℤ) × (at_index xs (pos r -ℤ pos 1) ≡ some p) × IsRanked xs r p
unfolding at_index
at_index-IsRanked xs zero h l m = absurd (omega (arith, l))
at_index-IsRanked xs (suc k) h l m =
    let (p, e) = get-some xs k (omega (arith, m)) in
    let (a, b) = IsAscending-split xs k p h e in
    let f = before k in
    (p, rw (f, at_index) e, record { not_above = a; not_below = omega (arith, b) })

nearest_rank-range :
    (n percentile : ℕ) → 0 < n → (0 < nearest_rank n percentile) × (nearest_rank n percentile ≤ n)
nearest_rank-range n percentile h = (ground (arith, h), ground (arith, h))

clamp_rank-place :
    (n : ℕ) (rank : ℤ) → 0 < n → (k : ℕ) × (clamp_rank n rank -ℤ pos 1 ≡ pos k) × (k < n)
unfolding ◌-ℤ◌
clamp_rank-place n rank h = (pos_part (clamp_rank n rank) - 1, ground (arith, h), ground (arith, h))

-- If `sort.Slice` keeps the entries: whatever the values and the percentile, the index is in range.
pub calculate_percentile-some :
    (lib : Library) (values : List ℤ) (percentile : ℤ)
    → Sorts lib.sorting
    → (p : ℤ) × (calculate_percentile lib values percentile ≡ some p)
unfolding calculate_percentile at_index
calculate_percentile-some lib [] percentile s = (pos 0, refl)
calculate_percentile-some lib (v ∷ values) percentile s =
    let xs : List ℤ = v ∷ values in
    let sorted = lib.sorting.sort_slice less_value xs in
    let n : length sorted ≡ length xs =
      sym (count-true sorted)
      ∙ count-perm (λ w. true) ∣ s.permuted less_value xs ∣₁
      ∙ count-true xs in
    let (k, e, l) =
      clamp_rank-place (length sorted) (rank_of lib (length sorted) percentile)
        (omega (arith, n)) in
    let (p, q) = get-some sorted k l in (p, ap (at_index sorted) e ∙ q)

-- If `sort.Slice` keeps the entries and sorts them by any strict weak order it is given: for one value or
-- more, and a percentile whose product with the number of values is below 10000, the index is in range,
-- and what stands there has as its rank that product over 100, rounded to the nearest whole number, a
-- half up, and brought into the range from 1 to the number of values. A value has the rank `r` if at
-- least `r` of the values are not above it, and all but `r - 1` of them, at least, are not below it.
pub calculate_percentile-IsRanked :
    (lib : Library) (v : ℤ) (values : List ℤ) (percentile : ℕ)
    → Sorts lib.sorting
    → length (v ∷ values) * percentile < 10000
    → (p : ℤ) × (calculate_percentile lib (v ∷ values) (pos percentile) ≡ some p)
      × IsRanked (v ∷ values) (nearest_rank (length (v ∷ values)) percentile) p
unfolding calculate_percentile
calculate_percentile-IsRanked lib v values percentile s h =
    let xs : List ℤ = v ∷ values in
    let sorted = lib.sorting.sort_slice less_value xs in
    let π : Perm xs sorted = ∣ s.permuted less_value xs ∣₁ in
    let n : length sorted ≡ length xs =
      sym (count-true sorted) ∙ count-perm (λ w. true) π ∙ count-true xs in
    let index =
      ap (λ m. clamp_rank m (rank_of lib m (pos percentile))) n
      ∙ rank_of-nearest lib (length xs) percentile (omega arith) h in
    let (low, high) = nearest_rank-range (length xs) percentile (omega arith) in
    let (p, e, r) =
      at_index-IsRanked sorted (nearest_rank (length xs) percentile)
        (IsSorted-IsAscending sorted (s.sorted less_value xs less_value-IsOrder)) low
        (omega (arith, n, high)) in
    (p, ap (λ i. at_index sorted (i -ℤ pos 1)) index ∙ e, Perm-IsRanked _ p π r)
