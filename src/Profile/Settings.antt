-- ===== src/Profile/Settings.antt =====
-- What `Validate` promises, and what merging keeps of it.
use intelligent_cluster_opti.Prelude.{
  ◌≡◌, ◌↔◌, refl, Bool, true, false, not, ◌||◌, none, some, arith, if◌then◌else◌, guard_iff,
}
use intelligent_cluster_opti.Prelude.Int.{ℤ, pos, ◌≤ℤ◌, ltb_ℤ}
use intelligent_cluster_opti.Prelude.Float64.{Float64, ltb_float, of_ℕ}
use intelligent_cluster_opti.Profile.{ProfileSettings, SettingsError, is_strategy, merge, validate}

-- No comparison puts the value below `lo` or above `hi`. NaN, which no comparison holds for, is such.
abbrev pub IsFloatWithin : Float64 → Float64 → Float64 → Type 0
IsFloatWithin lo hi f = (ltb_float f lo ≡ false) × (ltb_float hi f ≡ false)

abbrev pub IsIntWithin : ℤ → ℤ → ℤ → Type 0
IsIntWithin lo hi v = (lo ≤ℤ v) × (v ≤ℤ hi)

-- The numbers in their ranges.
pub record IsInRange (s : ProfileSettings) : Type 0 where
  pub cpu_percentile : IsIntWithin (pos 50) (pos 99) s.cpu_percentile
  pub memory_percentile : IsIntWithin (pos 50) (pos 99) s.memory_percentile
  pub margin : IsFloatWithin (of_ℕ 1) (of_ℕ 3) s.safety_margin
  pub samples : pos 1 ≤ℤ s.min_samples
  pub confidence : IsFloatWithin (of_ℕ 0) (of_ℕ 100) s.min_confidence
  pub change : ltb_float s.max_change_percent (of_ℕ 0) ≡ false

outside-IsIntWithin : (lo hi v : ℤ) → ((ltb_ℤ v lo || ltb_ℤ hi v) ≡ false) ↔ IsIntWithin lo hi v
outside-IsIntWithin lo hi v = ground arith

outside-IsFloatWithin :
    (lo hi f : Float64) → ((ltb_float f lo || ltb_float hi f) ≡ false) ↔ IsFloatWithin lo hi f
outside-IsFloatWithin lo hi f = or_false (ltb_float f lo) (ltb_float hi f)
  where
    or_false : (a b : Bool) → ((a || b) ≡ false) ↔ ((a ≡ false) × (b ≡ false))
    or_false a b = ground arith

samples_iff : (v : ℤ) → (ltb_ℤ v (pos 1) ≡ false) ↔ (pos 1 ≤ℤ v)
samples_iff v = ground arith

-- `Validate` finds no error exactly if the percentiles are from 50 to 99, no comparison puts the margin
-- outside 1 to 3 or the confidence outside 0 to 100, there is a sample at least, the greatest change is
-- not below 0, and the strategy is one of the three.
pub validate_iff :
    (s : ProfileSettings) → (validate s ≡ none) ↔ (IsInRange s × (is_strategy s.strategy ≡ true))
unfolding validate
validate_iff s =
    let (f, f') = guard_iff _ _ (outside-IsIntWithin (pos 50) (pos 99) s.cpu_percentile) (
      guard_iff _ _ (outside-IsIntWithin (pos 50) (pos 99) s.memory_percentile) (
        guard_iff _ _ (outside-IsFloatWithin (of_ℕ 1) (of_ℕ 3) s.safety_margin) (
          guard_iff _ _ (samples_iff s.min_samples) (
            guard_iff _ _ (outside-IsFloatWithin (of_ℕ 0) (of_ℕ 100) s.min_confidence) (
              guard_iff {P = ltb_float s.max_change_percent (of_ℕ 0) ≡ false} _ _ (λ x. x, λ x. x)
                (last_iff (is_strategy s.strategy))))))) in
    (
      λ h.
          let (a, (b, (c, (d, (x, (y, z)))))) = f h in
          (
            record {
              cpu_percentile = a;
              memory_percentile = b;
              margin = c;
              samples = d;
              confidence = x;
              change = y;
            },
            z,
          ),
      λ (r, z). f' (
        r.cpu_percentile,
        (r.memory_percentile, (r.margin, (r.samples, (r.confidence, (r.change, z))))),
      ),
    )
  where
    last_iff :
        (good : Bool)
        → ((if not good then some SettingsError.bad_strategy else none) ≡ none) ↔ (good ≡ true)
    last_iff good = ground arith

-- Setting a field twice on the same condition.
if_twice :
    {A : Type 0} (b : Bool) (x y : A) → (if b then x else if b then x else y) ≡ (if b then x else y)
if_twice true x y = refl
if_twice false x y = refl

-- Merging the same overrides twice is merging them once.
pub merge-merge : (s o : ProfileSettings) → merge (merge s (some o)) (some o) ≡ merge s (some o)
unfolding merge
merge-merge s o = simp (if_twice)
