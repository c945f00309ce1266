-- ===== src/Prelude/Sort.antt =====
-- `sort.Slice` of the standard library, which takes the test `less` of two entries, and what is documented
-- of it.
use mathlib.Core.List.{Permᴰ}
use intelligent_cluster_opti.Prelude.{◌≡◌, subst, Bool, true, false, List, All}
use intelligent_cluster_opti.Prelude.Exchange.{
  exchange_sort, IsExchanged, exchange_sort-permuted, exchange_sort-IsExchanged,
}

pub record SortSlice : Type 1 where
  pub sort_slice : {A : Type 0} → (A → A → Bool) → List A → List A

-- No later entry is less than an earlier one.
abbrev pub IsSorted : {A : Type 0} → (A → A → Bool) → List A → Type 0
IsSorted less = IsExchanged (λ x y. less y x)

-- The test is a strict weak order.
pub record IsOrder {A : Type 0} (less : A → A → Bool) : Type 0 where
  pub asymmetric : (x y : A) → less x y ≡ true → less y x ≡ false
  pub transitive : (x y z : A) → less y x ≡ false → less z y ≡ false → less z x ≡ false

-- The entries are kept, and by a strict weak order they are sorted; it need not be stable.
pub record Sorts (s : SortSlice) : Type 1 where
  pub permuted : {A : Type 0} (less : A → A → Bool) (xs : List A) → Permᴰ xs (s.sort_slice less xs)
  pub sorted :
      {A : Type 0} (less : A → A → Bool) (xs : List A)
      → IsOrder less
      → IsSorted less (s.sort_slice less xs)

-- A sort that does so.
abbrev pub by_exchange : SortSlice
by_exchange = record { sort_slice = λ less. exchange_sort (λ x y. less y x) }

pub by_exchange-Sorts : Sorts by_exchange
by_exchange-Sorts = record {
  permuted = λ less. exchange_sort-permuted (λ x y. less y x);
  sorted = λ less xs order.
      exchange_sort-IsExchanged (λ x y. less y x) (λ x y. order.asymmetric y x) order.transitive xs;
}

-- What holds of every entry still does when the entries change places.
pub All-perm : {A : Type 0} (P : A → Type 0) {xs ys : List A} → Permᴰ xs ys → All P xs → All P ys
All-perm P Permᴰ.nil a = a
All-perm P (Permᴰ.cons e p) a = (subst P e a.0, All-perm P p a.1)
All-perm P (Permᴰ.swap e e') a = (subst P e' a.1.0, (subst P e a.0, a.1.1))
All-perm P (Permᴰ.trans p q) a = All-perm P q (All-perm P p a)
