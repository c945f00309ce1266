-- ===== src/Profile/Modes.antt =====
-- Where the settings of the resolver come from, and when they let a recommendation be applied.
use intelligent_cluster_opti.Prelude.{
  ◌≡◌, ◌↔◌, ◌⊎◌, ◌≢◌, refl, inl, inr, String, Bool, false, not, ◌&&◌, none, some, [], ◌∷◌, arith,
  if◌then◌else◌, str_eq, Bool-cases, Option-cases, eq_iff, All,
}
use intelligent_cluster_opti.Prelude.Float64.{Float64, ltb_float, of_ℕ}
use intelligent_cluster_opti.Prelude.Dict.{Dict, lookup, lookup-none_iff, insert}
use intelligent_cluster_opti.Api.{OptimizerConfig}
use intelligent_cluster_opti.Profile.{Profile, new_profile_manager, get_profile, register_profile}
use intelligent_cluster_opti.Profile.Resolver.{
  Scanner, ResolvedSettings, Refusal, override_profile, apply_spec_overrides, of_profile,
  resolve_from_profile, resolve_from_spec, resolve, should_apply_recommendation,
}

module _ (sc : Scanner) where
  -- Where the settings come from.
  pub resolve-cases :
      (manager : Dict Profile) (config : OptimizerConfig) (r : ResolvedSettings)
      → resolve sc manager config ≡ some r
      → (r ≡ resolve_from_spec sc config.spec)
        ⊎ ((p : Profile) × (lookup config.spec.profile manager ≡ some p)
            × (r
                ≡ apply_spec_overrides sc
                    (override_profile sc
                      (of_profile sc config.spec.profile p.settings)
                      config.spec.profile_overrides)
                    config.spec))
  unfolding resolve resolve_from_profile get_profile
  resolve-cases manager config r h = elim (Option-cases (lookup config.spec.profile manager)) [
    | inl n ↦ ground (arith, n, h)
    | inr (p, s) ↦
        elim (Bool-cases
          (not (str_eq config.spec.profile "") && not (str_eq config.spec.profile "custom"))) [
            | inl named ↦ inr (p, s, ground (arith, s, h, named))
            | inr unnamed ↦ inl (ground (arith, h, unnamed))
          ]
  ]

  -- Whatever the profile and its overrides say, the settings are in dry-run mode exactly if the spec is.
  pub resolve-dry_run :
      (manager : Dict Profile) (config : OptimizerConfig) (r : ResolvedSettings)
      → resolve sc manager config ≡ some r
      → r.dry_run ≡ config.spec.dry_run
  unfolding resolve resolve_from_profile resolve_from_spec apply_spec_overrides
  resolve-dry_run manager config r h = elim (resolve-cases manager config r h) [
    | inl e ↦ rw e refl
    | inr (p, s, e) ↦ rw e refl
  ]

  unknown_iff :
      (manager : Dict Profile) (config : OptimizerConfig)
      → (resolve sc manager config ≡ none) ↔ (
          (config.spec.profile ≢ "")
          × (config.spec.profile ≢ "custom")
          × (lookup config.spec.profile manager ≡ none))
  unfolding resolve resolve_from_profile get_profile
  unknown_iff manager config = elim (Option-cases (lookup config.spec.profile manager)) [
    | inl n ↦ ground (arith, n, eq_iff config.spec.profile "", eq_iff config.spec.profile "custom")
    | inr (p, s) ↦ (λ h. ground (arith, s, h), λ (a, b, l). cc)
  ]

  builtin_iff :
      (name : String)
      → (lookup name new_profile_manager ≡ none)
        ↔ All (λ n. name ≢ n) ("production" ∷ "staging" ∷ "development" ∷ "test" ∷ [])
  unfolding new_profile_manager register_profile insert
  builtin_iff name = lookup-none_iff name new_profile_manager

  -- With the built-in profiles: a resource has settings exactly if its profile is empty, "custom" or one of
  -- the four.
  pub resolve-none_iff :
      (config : OptimizerConfig)
      → (resolve sc new_profile_manager config ≡ none)
        ↔ All
            (λ name. config.spec.profile ≢ name)
            ("" ∷ "custom" ∷ "production" ∷ "staging" ∷ "development" ∷ "test" ∷ [])
  resolve-none_iff config =
      let (f, f') = unknown_iff new_profile_manager config in
      (
        λ h. let (a, b, l) = f h in (a, (b, (builtin_iff config.spec.profile).0 l)),
        λ (a, (b, all)). f' (a, b, (builtin_iff config.spec.profile).1 all),
      )

-- A recommendation is applied exactly outside of dry-run mode, without a manual approval, with a
-- confidence that is not below the least one, and with a change that is not above the greatest one, where
-- there is such a limit.
pub should_apply_recommendation_iff :
    (r : ResolvedSettings) (confidence change : Float64)
    → (should_apply_recommendation r confidence change ≡ none) ↔ (
        (r.dry_run ≡ false)
        × ((ltb_float confidence r.min_confidence ≡ false)
            × (((ltb_float (of_ℕ 0) r.max_change_percent ≡ false)
                  ⊎ (ltb_float r.max_change_percent change ≡ false))
                × (r.require_approval ≡ false))))
unfolding should_apply_recommendation
should_apply_recommendation_iff r confidence change =
    answer_iff r.dry_run (ltb_float confidence r.min_confidence)
      (ltb_float (of_ℕ 0) r.max_change_percent) (ltb_float r.max_change_percent change)
      r.require_approval
  where
    answer_iff :
        (d c z m a : Bool)
        → ((if d
              then some Refusal.dry_run_enabled
              else if c
              then some Refusal.confidence_below
              else if z && m
              then some Refusal.change_exceeds
              else if a
              then some Refusal.approval_required
              else none)
            ≡ none)
          ↔ ((d ≡ false) × ((c ≡ false) × (((z ≡ false) ⊎ (m ≡ false)) × (a ≡ false))))
    answer_iff d c z m a = ground arith
