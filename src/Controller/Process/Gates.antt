-- ===== src/Controller/Process/Gates.antt =====
-- When `processRecommendations` leaves a workload alone.
use intelligent_cluster_opti.Prelude.{
  ℕ, suc, String, ◌≡◌, refl, sym, subst, ◌∙◌, Bool, true, false, ◌||◌, str_eq, Option, some, List,
  [], ◌∷◌, Bool-cases, Option-cases, inl, inr,
}
use intelligent_cluster_opti.Api.{Instant, HpaAwareness}
use intelligent_cluster_opti.Rollback.{Configs}
use intelligent_cluster_opti.Safety.Hpa.{
  HorizontalPodAutoscaler, HpaConflictResult, conflict_loop, check_hpa_conflict,
}
use intelligent_cluster_opti.Safety.Hpa.Conflicts.{
  has_conflicting, check_hpa_conflict-has_conflicting,
}
use intelligent_cluster_opti.Safety.Pdb.{check_pdb_safety}
use intelligent_cluster_opti.Prelude.Int.{pos}
use intelligent_cluster_opti.Scaler.{check_pdb}
use intelligent_cluster_opti.Scaler.Guard.{is_blocked, scale-is_blocked}
use intelligent_cluster_opti.Applier.{
  ResourceRecommendation, has_changes, scale_request, apply, live_apply,
}
use intelligent_cluster_opti.Profile.Resolver.{ResolvedSettings}
use intelligent_cluster_opti.Recommendation.Types.{ContainerRecommendation, WorkloadRecommendation}
use intelligent_cluster_opti.Controller.Process.{
  Pipeline, Run, to_applier, is_refused, process_container, containers_loop, hpa_gate, pdb_gate,
  process_workload,
}
use intelligent_cluster_opti.Controller.Process.Kept.{apply_container-kept}

module _ (pl : Pipeline) (clock : ℕ → Instant) where
  open pl use {platform, blocks_scaling, list_hpas}

  apply-is_blocked :
      (world : platform.cluster.World) (history : Configs) (now : Instant)
      (rec : ResourceRecommendation) (dry_run : Bool)
      → is_blocked (check_pdb platform world (scale_request rec)) ≡ true
      → (apply platform world history now rec dry_run).0 ≡ world
  unfolding apply live_apply
  apply-is_blocked world history now rec true b = refl
  apply-is_blocked world history now rec false b = elim (Bool-cases (has_changes rec)) [
    | inr same ↦ rw same refl
    | inl differs ↦ rw differs (scale-is_blocked platform world (scale_request rec) b).0
  ]

  module _ (settings : Option ResolvedSettings) (workload_rec : WorkloadRecommendation)
      (world : platform.cluster.World)
      (b : is_blocked (
          check_pdb_safety
            (platform.pdb_api world)
            workload_rec.namespace
            workload_rec.workload_kind
            workload_rec.workload_name
            (pos 1))
        ≡ true) where
    container_blocked :
        (c : ContainerRecommendation) (run : Run platform.cluster.World)
        → run.world ≡ world
        → (process_container pl clock settings workload_rec c run).world ≡ world
    unfolding process_container scale_request to_applier
    container_blocked c run h =
        let rec = to_applier workload_rec c in
        elim (Bool-cases (has_changes rec)) [
          | inr same ↦ rw same h
          | inl differs ↦ rw differs (elim (Bool-cases (is_refused pl clock settings c)) [
            | inl refused ↦ rw refused h
            | inr allowed ↦ rw allowed (
                (apply_container-kept pl clock rec run).1.1
                ∙ apply-is_blocked run.world run.history (clock run.ticks) rec
                    run.config.spec.dry_run
                    (subst (λ w. is_blocked (check_pdb platform w (scale_request rec)) ≡ true)
                      (sym h) b)
                ∙ h)
          ])
        ]

    containers_blocked :
        (cs : List ContainerRecommendation) (run : Run platform.cluster.World)
        → run.world ≡ world
        → (containers_loop pl clock settings workload_rec cs run).world ≡ world
    unfolding containers_loop
    containers_blocked [] run h = h
    containers_blocked (c ∷ cs) run h = containers_blocked cs _ (container_blocked c run h)

    workload_blocked :
        (run : Run platform.cluster.World)
        → run.world ≡ world
        → (process_workload pl clock settings workload_rec run).world ≡ world
    unfolding process_workload
    workload_blocked run h = elim (Option-cases (hpa_gate pl clock workload_rec run)) [
      | inr (result, e) ↦ rw (e, process_workload) h
      | inl e ↦
          rw (e, process_workload)
            (elim (Option-cases (pdb_gate pl clock workload_rec run)) [
              | inr (result, f) ↦ rw f h
              | inl f ↦
                  rw f
                    (elim (Bool-cases
                      (blocks_scaling workload_rec.namespace workload_rec.workload_name)) [
                        | inl x ↦ rw x h
                        | inr x ↦ rw x (containers_blocked workload_rec.containers run h)
                      ])
            ])
    ]

  -- Where the check of the budget of a workload fails, or finds a budget that the disruption of one pod
  -- does not keep, the processing of the workload leaves the cluster as it is, also where the resource
  -- does not ask for the budgets to be respected.
  pub process_workload-is_blocked :
      (settings : Option ResolvedSettings) (workload_rec : WorkloadRecommendation)
      (run : Run platform.cluster.World)
      → is_blocked (
          check_pdb_safety
            (platform.pdb_api run.world)
            workload_rec.namespace
            workload_rec.workload_kind
            workload_rec.workload_name
            (pos 1))
        ≡ true
      → (process_workload pl clock settings workload_rec run).world ≡ run.world
  process_workload-is_blocked settings workload_rec run b =
      workload_blocked settings workload_rec run.world b run refl

  -- The policy of a resource that passes over a workload with a conflict.
  abbrev pub Skips : String → Type 0
  Skips policy = (str_eq policy "" || str_eq policy "Skip") ≡ true

  gate_conflict :
      (workload_rec : WorkloadRecommendation) (run : Run platform.cluster.World)
      (awareness : HpaAwareness) (hpas : List HorizontalPodAutoscaler)
      → run.config.spec.hpa_awareness ≡ some awareness
      → awareness.enabled ≡ true
      → Skips awareness.conflict_policy
      → list_hpas run.world workload_rec.namespace ≡ some hpas
      → has_conflicting workload_rec.workload_kind workload_rec.workload_name hpas ≡ true
      → (result : HpaConflictResult) × (hpa_gate pl clock workload_rec run ≡ some result)
  unfolding hpa_gate check_hpa_conflict
  gate_conflict workload_rec run awareness hpas a on skips l c =
      let result : HpaConflictResult =
        conflict_loop workload_rec.workload_kind workload_rec.workload_name hpas in
      let h : result.has_conflict ≡ true =
        (check_hpa_conflict-has_conflicting hpas workload_rec.workload_kind
          workload_rec.workload_name result refl).0
        ∙ c in
      (result, rw (a, on, l, h, skips, hpa_gate) refl)

  -- Where the resource asks for conflicts with autoscalers to be passed over (the policy is "Skip" or
  -- none), and an autoscaler in the namespace targets the workload and has a metric of its processor or
  -- memory: the processing of the workload leaves the cluster and the history as they are, applies nothing
  -- and counts one skip.
  pub process_workload-has_conflicting :
      (settings : Option ResolvedSettings) (workload_rec : WorkloadRecommendation)
      (run : Run platform.cluster.World) (awareness : HpaAwareness)
      (hpas : List HorizontalPodAutoscaler)
      → run.config.spec.hpa_awareness ≡ some awareness
      → awareness.enabled ≡ true
      → Skips awareness.conflict_policy
      → list_hpas run.world workload_rec.namespace ≡ some hpas
      → has_conflicting workload_rec.workload_kind workload_rec.workload_name hpas ≡ true
      → let after = process_workload pl clock settings workload_rec run in
        (after.world ≡ run.world)
        × ((after.history ≡ run.history)
            × ((after.applied_count ≡ run.applied_count)
                × (after.skipped_count ≡ suc run.skipped_count)))
  unfolding process_workload
  process_workload-has_conflicting settings workload_rec run awareness hpas a on skips l c =
      let (result, e) = gate_conflict workload_rec run awareness hpas a on skips l c in
      rw (e, process_workload) (refl, (refl, (refl, refl)))
