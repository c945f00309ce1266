-- ===== src/Profile/Ranges.antt =====
-- What holds of the settings that the resolver gives, for a resource that the webhook accepts.
use intelligent_cluster_opti.Prelude.{
  ◌≡◌, refl, sym, subst, inl, inr, String, Bool, true, false, Option, none, some, arith, Bool-cases,
}
use intelligent_cluster_opti.Prelude.Int.{ℤ, pos, ◌≤ℤ◌}
use intelligent_cluster_opti.Prelude.Float64.{
  Float64, finite, infinity, negative_infinity, nan, ltb_float, eqb_float, of_ℕ, of_mantissa,
}
use intelligent_cluster_opti.Prelude.Dict.{lookup, lookup-All, insert}
use intelligent_cluster_opti.Api.{
  ProfileOverrides, RecommendationConfig, CircuitBreakerConfig, ResourceLimit, ResourceThresholds,
  OptimizerConfig, OptimizerConfigSpec,
}
use intelligent_cluster_opti.Profile.{
  ProfileSettings, Profile, over_float, validate, new_profile_manager, register_profile,
  production_profile, staging_profile, development_profile, test_profile,
}
use intelligent_cluster_opti.Profile.Resolver.{
  Scanner, ResolvedSettings, apply_overrides, override_profile, override_recommendations,
  override_breaker, override_thresholds, apply_spec_overrides, of_profile, balanced_defaults,
  resolve_from_spec, resolve, override_cpu, override_memory, or_else,
}
use intelligent_cluster_opti.Profile.Settings.{IsFloatWithin, IsIntWithin, validate_iff}
use intelligent_cluster_opti.Profile.Modes.{resolve-cases}
use intelligent_cluster_opti.Webhook.{Environment, validate_create}
use intelligent_cluster_opti.Webhook.Checks.{WhenSome}
use intelligent_cluster_opti.Webhook.Accepted.{
  IsOverrides, IsRecommendations, IsBreaker, IsAccepted, IsMargin,
}
use intelligent_cluster_opti.Webhook.Decides.{validate_create-IsAccepted}

pub record IsResolved (r : ResolvedSettings) : Type 0 where
  pub cpu_percentile : IsIntWithin (pos 50) (pos 99) r.cpu_percentile
  pub memory_percentile : IsIntWithin (pos 50) (pos 99) r.memory_percentile
  pub margin : IsFloatWithin (of_ℕ 1) (of_ℕ 3) r.safety_margin
  pub samples : pos 1 ≤ℤ r.min_samples
  pub confidence : IsFloatWithin (of_ℕ 0) (of_ℕ 100) r.min_confidence
  pub change : IsFloatWithin (of_ℕ 0) (of_ℕ 100) r.max_change_percent
  pub threshold : IsIntWithin (pos 1) (pos 20) r.circuit_breaker_threshold

zero_not_positive : (v : Float64) → eqb_float v (of_ℕ 0) ≡ true → ltb_float (of_ℕ 0) v ≡ false
unfolding of_ℕ
zero_not_positive (finite a) h = ground arith
zero_not_positive infinity h = cc
zero_not_positive negative_infinity h = cc
zero_not_positive nan h = cc

over_float-IsFloatWithin :
    (v field : Float64)
    → IsMargin v
    → IsFloatWithin (of_ℕ 1) (of_ℕ 3) field
    → IsFloatWithin (of_ℕ 1) (of_ℕ 3) (over_float v field)
over_float-IsFloatWithin v field (inl zero) k = rw (zero_not_positive v zero) k
over_float-IsFloatWithin v field (inr h) k = elim (Bool-cases (ltb_float (of_ℕ 0) v)) [
  | inl e ↦ rw e h
  | inr e ↦ rw e k
]

or_else-keeps :
    {A : Type 0} (P : A → Type 0) (o : Option A) (field : A)
    → WhenSome P o
    → P field
    → P (or_else o field)
or_else-keeps P none field w h = h
or_else-keeps P (some v) field w h = w

module _ (sc : Scanner) where
  open sc use {parse_duration}

  module _ (e : Environment) where
    override_profile-IsResolved :
        (r : ResolvedSettings) (o : Option ProfileOverrides)
        → IsResolved r
        → WhenSome (IsOverrides e) o
        → IsResolved (override_profile sc r o)
    unfolding override_profile apply_overrides
    override_profile-IsResolved r none h w = h
    override_profile-IsResolved r (some o) h w = record {
      cpu_percentile = h.cpu_percentile;
      memory_percentile = h.memory_percentile;
      margin = h.margin;
      samples = h.samples;
      confidence =
          or_else-keeps (IsFloatWithin (of_ℕ 0) (of_ℕ 100)) o.min_confidence r.min_confidence
            w.confidence h.confidence;
      change =
          or_else-keeps (IsFloatWithin (of_ℕ 0) (of_ℕ 100)) o.max_change_percent
            r.max_change_percent w.change h.change;
      threshold = h.threshold;
    }

    override_recommendations-IsResolved :
        (r : ResolvedSettings) (rec : Option RecommendationConfig)
        → IsResolved r
        → WhenSome (IsRecommendations e) rec
        → IsResolved (override_recommendations sc r rec)
    unfolding override_recommendations
    override_recommendations-IsResolved r none h w = h
    override_recommendations-IsResolved r (some rec) h w = record {
      cpu_percentile = ground (arith, h.cpu_percentile, w.cpu_percentile);
      memory_percentile = ground (arith, h.memory_percentile, w.memory_percentile);
      margin = over_float-IsFloatWithin rec.safety_margin r.safety_margin w.margin h.margin;
      samples = ground (arith, h.samples, w.min_samples);
      confidence = h.confidence;
      change = h.change;
      threshold = h.threshold;
    }

    override_breaker-IsResolved :
        (r : ResolvedSettings) (cb : Option CircuitBreakerConfig)
        → IsResolved r
        → WhenSome (IsBreaker e) cb
        → IsResolved (override_breaker sc r cb)
    unfolding override_breaker
    override_breaker-IsResolved r none h w = h
    override_breaker-IsResolved r (some cb) h w = record {
      cpu_percentile = h.cpu_percentile;
      memory_percentile = h.memory_percentile;
      margin = h.margin;
      samples = h.samples;
      confidence = h.confidence;
      change = h.change;
      threshold = ground (arith, h.threshold, w.errors);
    }

    -- The limits of the resources and the mode play no part.
    limited-IsResolved :
        (r : ResolvedSettings) (min_cpu max_cpu min_memory max_memory : ℤ) (dry_run : Bool)
        → IsResolved r
        → IsResolved (record r {
          min_cpu_millicores = min_cpu;
          max_cpu_millicores = max_cpu;
          min_memory_megabytes = min_memory;
          max_memory_megabytes = max_memory;
          dry_run = dry_run;
        })
    limited-IsResolved r min_cpu max_cpu min_memory max_memory dry_run h = record {
      cpu_percentile = h.cpu_percentile;
      memory_percentile = h.memory_percentile;
      margin = h.margin;
      samples = h.samples;
      confidence = h.confidence;
      change = h.change;
      threshold = h.threshold;
    }

    override_thresholds-IsResolved :
        (r : ResolvedSettings) (t : Option ResourceThresholds)
        → IsResolved r
        → IsResolved (override_thresholds sc r t)
    unfolding override_thresholds override_cpu override_memory
    override_thresholds-IsResolved r none h = h
    override_thresholds-IsResolved r (some t) h = of_parts t.cpu t.memory
      where
        of_parts :
            (cpu memory : Option ResourceLimit)
            → IsResolved (override_memory sc (override_cpu sc r cpu) memory)
        of_parts none none = h
        of_parts (some c) none = limited-IsResolved r _ _ _ _ _ h
        of_parts none (some m) = limited-IsResolved r _ _ _ _ _ h
        of_parts (some c) (some m) = limited-IsResolved r _ _ _ _ _ h

    apply_spec_overrides-IsResolved :
        (r : ResolvedSettings) (config : OptimizerConfig)
        → IsResolved r
        → IsAccepted e config
        → IsResolved (apply_spec_overrides sc r config.spec)
    unfolding apply_spec_overrides
    apply_spec_overrides-IsResolved r config h a =
        let t = override_thresholds-IsResolved _ config.spec.resource_thresholds (
          override_breaker-IsResolved _ config.spec.circuit_breaker
            (override_recommendations-IsResolved r config.spec.recommendations h a.recommendations)
            a.breaker) in
        limited-IsResolved _ _ _ _ _ _ t

    valid-IsResolved :
        (name : String) (s : ProfileSettings)
        → validate s ≡ none
        → ltb_float (of_ℕ 100) s.max_change_percent ≡ false
        → IsIntWithin (pos 1) (pos 20) s.circuit_breaker_threshold
        → IsResolved (of_profile sc name s)
    unfolding of_profile
    valid-IsResolved name s v c t =
        let (h, u) = (validate_iff s).0 v in
        record {
          cpu_percentile = h.cpu_percentile;
          memory_percentile = h.memory_percentile;
          margin = h.margin;
          samples = h.samples;
          confidence = h.confidence;
          change = (h.change, c);
          threshold = t;
        }

    of_profile-IsResolved :
        (name : String) (p : Profile)
        → lookup name new_profile_manager ≡ some p
        → IsResolved (of_profile sc name p.settings)
    unfolding new_profile_manager register_profile insert validate of_mantissa of_ℕ
    of_profile-IsResolved name p h =
        lookup-All (λ p. IsResolved (of_profile sc name p.settings)) name new_profile_manager p
          (
            valid-IsResolved name production_profile.settings refl refl (omega arith),
            (
              valid-IsResolved name staging_profile.settings refl refl (omega arith),
              (
                valid-IsResolved name development_profile.settings refl refl (omega arith),
                (valid-IsResolved name test_profile.settings refl refl (omega arith), tt),
              ),
            ),
          )
          h

    balanced_defaults-IsResolved :
        (spec : OptimizerConfigSpec) → IsResolved (balanced_defaults sc spec)
    unfolding balanced_defaults of_ℕ of_mantissa
    balanced_defaults-IsResolved spec = record {
      cpu_percentile = omega arith;
      memory_percentile = omega arith;
      margin = (refl, refl);
      samples = omega arith;
      confidence = (refl, refl);
      change = (refl, refl);
      threshold = omega arith;
    }

    -- For a resource that the webhook accepts, with the built-in profiles, the settings that the resolver
    -- gives are in range: percentiles from 50 to 99, a sample at least, a breaker threshold from 1 to 20,
    -- and no comparison puts the margin outside 1 to 3 or the least confidence and the greatest change
    -- outside 0 to 100.
    pub resolve-IsResolved :
        (config : OptimizerConfig) (r : ResolvedSettings)
        → validate_create e config ≡ none
        → resolve sc new_profile_manager config ≡ some r
        → IsResolved r
    unfolding resolve_from_spec apply_spec_overrides
    resolve-IsResolved config r v h =
        let a = (validate_create-IsAccepted e config config).0.0 v in
        elim (resolve-cases sc new_profile_manager config r h) [
          | inl q ↦ subst IsResolved (sym q) (
              apply_spec_overrides-IsResolved (balanced_defaults sc config.spec) config
                (balanced_defaults-IsResolved config.spec) a)
          | inr (p, s, q) ↦ subst IsResolved (sym q) (
              apply_spec_overrides-IsResolved _ config
                (override_profile-IsResolved _ config.spec.profile_overrides
                  (of_profile-IsResolved config.spec.profile p s) a.overrides)
                a)
        ]
