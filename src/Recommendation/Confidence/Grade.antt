-- ===== src/Recommendation/Confidence/Grade.antt =====
-- The range of the score, and what its level says.
use intelligent_cluster_opti.Prelude.{
  ℕ, ◌*◌, ◌^◌, ◌≤◌, arith, ◌≡◌, ◌↔◌, refl, Bool, true, false, Bool-cases, inl, inr, if◌then◌else◌,
}
use intelligent_cluster_opti.Prelude.Int.{pos}
use intelligent_cluster_opti.Prelude.Float64.{
  Float64, Numerics, finite, infinity, negative_infinity, nan, ltb_float, leb_float, of_ℕ,
}
use intelligent_cluster_opti.Api.{Instant}
use intelligent_cluster_opti.Recommendation.Confidence.Summary.{MetricsSummary}
use intelligent_cluster_opti.Recommendation.Confidence.{
  ConfidenceConfig, ConfidenceScore, very_low, low, medium, high, very_high, clamp, score_to_level,
  calculate_confidence,
}

-- From 0 to 100, or not a number; the highest level from 80 on, and the lowest below 20.
pub record IsGraded (s : ConfidenceScore) : Type 0 where
  pub not_below : ltb_float s.score (of_ℕ 0) ≡ false
  pub not_above : ltb_float (of_ℕ 100) s.score ≡ false
  pub highest : (s.level ≡ very_high) ↔ (leb_float (of_ℕ 80) s.score ≡ true)
  pub lowest : (s.level ≡ very_low) ↔ (leb_float (of_ℕ 20) s.score ≡ false)

clamp_range :
    (v : Float64)
    → (ltb_float (clamp v (of_ℕ 0) (of_ℕ 100)) (of_ℕ 0) ≡ false)
      × (ltb_float (of_ℕ 100) (clamp v (of_ℕ 0) (of_ℕ 100)) ≡ false)
unfolding clamp of_ℕ
clamp_range v = elim (Bool-cases (ltb_float v (of_ℕ 0))) [
  | inl e ↦ rw e (refl, refl)
  | inr e ↦ elim (Bool-cases (ltb_float (of_ℕ 100) v)) [
    | inl f ↦ rw (e, f) (refl, refl)
    | inr f ↦ rw (e, f) (e, f)
  ]
]

leb_float_mono :
    (a b : ℕ) (s : Float64)
    → b ≤ a
    → leb_float (finite (pos a)) s ≡ true
    → leb_float (finite (pos b)) s ≡ true
leb_float_mono a b (finite z) h e = ground arith
leb_float_mono a b infinity h e = refl
leb_float_mono a b negative_infinity h e = cc
leb_float_mono a b nan h e = cc

leb_of_ℕ :
    (m n : ℕ) (s : Float64) → n ≤ m → leb_float (of_ℕ m) s ≡ true → leb_float (of_ℕ n) s ≡ true
unfolding of_ℕ
leb_of_ℕ m n s h e = leb_float_mono (m * 2 ^ 1074) (n * 2 ^ 1074) s (scaled (2 ^ 1074)) e
  where
    scaled : (k : ℕ) → n * k ≤ m * k
    scaled k = grind (arith, h)

highest_level : (s : Float64) → (score_to_level s ≡ very_high) ↔ (leb_float (of_ℕ 80) s ≡ true)
unfolding score_to_level
highest_level s =
    of_tests (leb_float (of_ℕ 80) s) (leb_float (of_ℕ 60) s) (leb_float (of_ℕ 40) s)
      (leb_float (of_ℕ 20) s)
  where
    of_tests :
        (a b c d : Bool)
        → ((if a
              then very_high
              else if b
              then high
              else if c
              then medium
              else if d
              then low
              else very_low)
            ≡ very_high)
          ↔ (a ≡ true)
    of_tests true b c d = (λ e. refl, λ e. refl)
    of_tests false true c d = (λ e. cc, λ e. cc)
    of_tests false false true d = (λ e. cc, λ e. cc)
    of_tests false false false true = (λ e. cc, λ e. cc)
    of_tests false false false false = (λ e. cc, λ e. cc)

lowest_level : (s : Float64) → (score_to_level s ≡ very_low) ↔ (leb_float (of_ℕ 20) s ≡ false)
unfolding score_to_level
lowest_level s =
    of_tests (leb_float (of_ℕ 80) s) (leb_float (of_ℕ 60) s) (leb_float (of_ℕ 40) s)
      (leb_float (of_ℕ 20) s) (leb_of_ℕ 80 20 s (omega arith)) (leb_of_ℕ 60 20 s (omega arith))
      (leb_of_ℕ 40 20 s (omega arith))
  where
    of_tests :
        (a b c d : Bool)
        → (a ≡ true → d ≡ true)
        → (b ≡ true → d ≡ true)
        → (c ≡ true → d ≡ true)
        → ((if a
              then very_high
              else if b
              then high
              else if c
              then medium
              else if d
              then low
              else very_low)
            ≡ very_low)
          ↔ (d ≡ false)
    of_tests true b c d f g h = (λ e. cc, λ e. let t = f refl in cc)
    of_tests false true c d f g h = (λ e. cc, λ e. let t = g refl in cc)
    of_tests false false true d f g h = (λ e. cc, λ e. let t = h refl in cc)
    of_tests false false false true f g h = (λ e. cc, λ e. cc)
    of_tests false false false false f g h = (λ e. refl, λ e. refl)

-- Whatever the summary, the configuration and the logarithm: the score is neither below 0 nor above 100,
-- its level is the highest exactly from 80 on, and the lowest exactly if the score is not 20 or more,
-- as when it is not a number.
pub calculate_confidence-IsGraded :
    (num : Numerics) (config : ConfidenceConfig) (now : Instant) (summary : MetricsSummary)
    → IsGraded (calculate_confidence num config now summary)
unfolding calculate_confidence
calculate_confidence-IsGraded num config now summary =
    let s = calculate_confidence num config now summary in
    record {
      not_below = (clamp_range _).0;
      not_above = (clamp_range _).1;
      highest = highest_level s.score;
      lowest = lowest_level s.score;
    }
