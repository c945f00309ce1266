-- ===== src/Applier/Live.antt =====
-- What the result of a live application says.
use intelligent_cluster_opti.Prelude.{
  ◌≡◌, ◌↔◌, refl, true, false, Option, none, some, Bool-cases, inl, inr,
}
use intelligent_cluster_opti.Api.{Instant}
use intelligent_cluster_opti.Rollback.{Configs}
use intelligent_cluster_opti.Platform.{Platform}
use intelligent_cluster_opti.Scaler.{ScaleError, apply_rolling_update}
use intelligent_cluster_opti.Scaler.Guard.{scale-apply_rolling_update}
use intelligent_cluster_opti.Applier.{
  ResourceRecommendation, has_changes, scale_request, live_apply, finished,
}

module _ (p : Platform) where
  open p use {cluster}

  finished_iff :
      (r : ResourceRecommendation) (e : Option ScaleError)
      → ((finished r e).applied ≡ true) ↔ (e ≡ none)
  finished_iff r none = (λ h. refl, λ h. refl)
  finished_iff r (some e) = (λ h. cc, λ h. cc)

  -- A live application reports that it has applied a recommendation exactly if the recommendation changes
  -- something and the rolling update returns no error; and without a change it leaves the cluster and the
  -- history as they are.
  pub live_apply-applied_iff :
      (w : cluster.World) (history : Configs) (now : Instant) (r : ResourceRecommendation)
      → (((live_apply p w history now r).1.1.applied ≡ true)
          ↔ ((has_changes r ≡ true) × ((apply_rolling_update p w (scale_request r)).1 ≡ none)))
        × (has_changes r ≡ false
            → ((live_apply p w history now r).0 ≡ w)
              × ((live_apply p w history now r).1.0 ≡ history))
  unfolding live_apply
  live_apply-applied_iff w history now r = elim (Bool-cases (has_changes r)) [
    | inr same ↦ (
      (λ a. (let b = rw (same, live_apply) at a in cc), λ (c, n). cc),
      λ s. rw (same, live_apply) (refl, refl),
    )
    | inl differs ↦ (
      rw (differs, live_apply, scale-apply_rolling_update p w (scale_request r))
          (
            λ a. (refl, (finished_iff r (apply_rolling_update p w (scale_request r)).1).0 a),
            λ (c, n). (finished_iff r (apply_rolling_update p w (scale_request r)).1).1 n,
          ),
      λ s. cc,
    )
  ]
