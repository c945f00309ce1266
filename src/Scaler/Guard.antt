-- ===== src/Scaler/Guard.antt =====
-- The scaling asks for the disruption budget first, and never updates in place.
use intelligent_cluster_opti.Prelude.{
  if◌then◌else◌, ◌≡◌, refl, Bool, true, false, not, ◌&&◌, Option, none, some, is_some, Option-cases,
  inl, inr, arith,
}
use intelligent_cluster_opti.Safety.Pdb.{PdbCheckResult}
use intelligent_cluster_opti.Platform.{Platform}
use intelligent_cluster_opti.Scaler.{
  ScaleRequest, in_place, rolling, other_strategy, UpdateStrategy, check_pdb,
  detect_in_place_support, apply_rolling_update, scale, ScaleError, apply_in_place_update,
}

-- The check of the budget fails, or there is a budget that the disruption does not keep.
abbrev pub is_blocked : Option PdbCheckResult → Bool
is_blocked none = true
is_blocked (some result) = result.has_pdb && not result.is_safe

module _ (p : Platform) where
  open p use {cluster, server_version}

  -- Whatever strategy is asked for, the scaling is a rolling update.
  pub scale-apply_rolling_update :
      (w : cluster.World) (req : ScaleRequest) → scale p w req ≡ apply_rolling_update p w req
  unfolding scale detect_in_place_support
  scale-apply_rolling_update w req = of_strategy req.strategy (server_version w)
    where
      of_strategy :
          (s : UpdateStrategy) (answers : Bool)
          → (elim s as (λ t. cluster.World × Option ScaleError) [
            | in_place ↦ elim (if answers then some false else none) [
              | none ↦ apply_rolling_update p w req
              | some supported ↦
                  if not supported
                  then apply_rolling_update p w req
                  else apply_in_place_update p w req
            ]
            | rolling ↦ apply_rolling_update p w req
            | other_strategy _ ↦ apply_rolling_update p w req
          ])
            ≡ apply_rolling_update p w req
      of_strategy in_place true = refl
      of_strategy in_place false = refl
      of_strategy rolling answers = refl
      of_strategy (other_strategy s) answers = refl

  rolling_blocked :
      (w : cluster.World) (req : ScaleRequest)
      → is_blocked (check_pdb p w req) ≡ true
      → ((apply_rolling_update p w req).0 ≡ w) × (is_some (apply_rolling_update p w req).1 ≡ true)
  unfolding apply_rolling_update
  rolling_blocked w req b = elim (Option-cases (check_pdb p w req)) [
    | inl n ↦ rw (n, apply_rolling_update) (refl, refl)
    | inr (r, e) ↦
        let blocked : r.has_pdb && not r.is_safe ≡ true = ground (arith, e, b) in
        rw (e, blocked, apply_rolling_update) (refl, refl)
  ]

  -- Where the check of the budget fails, or finds a budget that the disruption of one pod does not keep,
  -- the scaling returns an error and leaves the cluster as it is.
  pub scale-is_blocked :
      (w : cluster.World) (req : ScaleRequest)
      → is_blocked (check_pdb p w req) ≡ true
      → ((scale p w req).0 ≡ w) × (is_some (scale p w req).1 ≡ true)
  scale-is_blocked w req b = rw (scale-apply_rolling_update w req) (rolling_blocked w req b)
