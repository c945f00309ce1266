-- ===== src/Safety/Oom/History/Invariant.antt =====
-- What the history of kills keeps, whatever is scanned and cleared.
use intelligent_cluster_opti.Prelude.{
  String, ◌≡◌, refl, Bool, true, false, Option, none, some, List, [], ◌∷◌, All, All-map, arith,
  if◌then◌else◌, Option-cases, Bool-cases, inl, inr,
}
use intelligent_cluster_opti.Prelude.Int.{ℤ, pos, ◌≤ℤ◌, ltb_ℤ, leb_ℤ}
use intelligent_cluster_opti.Prelude.Float64.{Float64, ltb_float, of_ℕ, constant, div_float}
use intelligent_cluster_opti.Prelude.Dict.{Dict, RangeOrder, lookup, lookup-All, insert-All}
use intelligent_cluster_opti.Api.{Instant, Duration}
use intelligent_cluster_opti.Safety.Oom.Check.{
  ContainerOomInfo, ContainerStatus, Pod, later, last_kill, calculate_memory_boost,
  check_container_for_oom, info_of, append_some, statuses_loop, check_pod_for_oom,
  extract_workload_name_from_pod,
}
use intelligent_cluster_opti.Safety.Oom.History.{
  OomHistory, Histories, refresh, record_container, record_loop, new_oom_detector, new_history,
  update_oom_history, history_key, clear_loop, clear_oom_history,
}
use intelligent_cluster_opti.Safety.Oom.Scan.{
  OomCheckResult, kills_of, check_pod, pods_loop, check_namespace_for_ooms,
}

-- A boost above 1, of 2 at most.
abbrev pub IsBoost : Float64 → Type 0
IsBoost boost = (ltb_float (of_ℕ 1) boost ≡ true) × (ltb_float (of_ℕ 2) boost ≡ false)

calculate_memory_boost-IsBoost : (n : ℤ) → IsBoost (calculate_memory_boost n)
unfolding calculate_memory_boost of_ℕ constant div_float
calculate_memory_boost-IsBoost n =
    of_tests (leb_ℤ (pos 10) n) (leb_ℤ (pos 5) n) (leb_ℤ (pos 3) n) (leb_ℤ (pos 1) n)
  where
    of_tests :
        (a b c d : Bool)
        → IsBoost (
            if a
            then of_ℕ 2
            else if b
            then constant 175 100
            else if c
            then constant 15 10
            else if d
            then constant 13 10
            else constant 12 10)
    of_tests true b c d = (refl, refl)
    of_tests false true c d = (refl, refl)
    of_tests false false true d = (refl, refl)
    of_tests false false false true = (refl, refl)
    of_tests false false false false = (refl, refl)

abbrev IsBoosted : ContainerOomInfo → Type 0
IsBoosted c = IsBoost c.recommended_boost

statuses_loop-IsBoosted :
    (statuses : List ContainerStatus) (pod : Pod) → All IsBoosted (statuses_loop statuses pod)
unfolding statuses_loop check_container_for_oom
statuses_loop-IsBoosted [] pod = tt
statuses_loop-IsBoosted (status ∷ statuses) pod =
    of_kill (last_kill status) (statuses_loop-IsBoosted statuses pod)
  where
    of_kill :
        (o : Option Instant)
        → All IsBoosted (statuses_loop statuses pod)
        → All IsBoosted (
            append_some
              (elim o as (λ x. Option ContainerOomInfo) [
                | none ↦ none
                | some t ↦ some (info_of status pod t)
              ])
              (statuses_loop statuses pod))
    of_kill none h = h
    of_kill (some t) h = (calculate_memory_boost-IsBoost status.restart_count, h)

-- Each container has a boost, and was not killed after the last kill that is recorded.
abbrev pub IsRecorded : Instant → ContainerOomInfo → Type 0
IsRecorded last c = IsBoosted c × (c.last_oom_time ≤ℤ last)

abbrev pub IsSound : OomHistory → Type 0
IsSound h = All (λ entry. IsRecorded h.last_oom_time entry.1) h.container_ooms

later-le : (t u : Instant) → (t ≤ℤ later t u) × (u ≤ℤ later t u)
later-le t u = (ground arith, ground arith)

le_trans : (a b c : ℤ) → a ≤ℤ b → b ≤ℤ c → a ≤ℤ c
le_trans a b c h k = ground (arith, h, k)

refresh-IsRecorded :
    (c existing : ContainerOomInfo) (last : Instant)
    → IsBoosted c
    → existing.last_oom_time ≤ℤ last
    → IsRecorded (later c.last_oom_time last) (refresh c existing)
refresh-IsRecorded c existing last b h = (b, ground (arith, h))

record_container-IsSound :
    (c : ContainerOomInfo) (h : OomHistory)
    → IsBoosted c
    → IsSound h
    → IsSound (record_container c h)
record_container-IsSound c h b s =
    let last = later c.last_oom_time h.last_oom_time in
    let grown : All (λ entry. IsRecorded last entry.1) h.container_ooms =
      All-map (λ entry. IsRecorded h.last_oom_time entry.1) (λ entry. IsRecorded last entry.1)
        h.container_ooms
        (λ entry r. (
          r.0,
          le_trans entry.1.last_oom_time h.last_oom_time last r.1
              (later-le c.last_oom_time h.last_oom_time).1,
        ))
        s in
    elim (Option-cases (lookup c.container_name h.container_ooms)) [
      | inl e ↦ rw e (
          insert-All (IsRecorded last) c.container_name c h.container_ooms
            (b, (later-le c.last_oom_time h.last_oom_time).0) grown)
      | inr (existing, e) ↦
          let r : IsRecorded h.last_oom_time existing =
            lookup-All (IsRecorded h.last_oom_time) c.container_name h.container_ooms existing s
              e in
          rw e (
            insert-All (IsRecorded last) c.container_name (refresh c existing) h.container_ooms
              (refresh-IsRecorded c existing h.last_oom_time b r.1) grown)
    ]

record_loop-IsSound :
    (cs : List ContainerOomInfo) (h : OomHistory)
    → All IsBoosted cs
    → IsSound h
    → IsSound (record_loop cs h)
unfolding record_loop
record_loop-IsSound [] h bs s = s
record_loop-IsSound (c ∷ cs) h (b, bs) s =
    record_loop-IsSound cs (record_container c h) bs (record_container-IsSound c h b s)

-- Every workload's history is sound.
abbrev pub IsSoundAll : Histories → Type 0
IsSoundAll histories = All (λ entry. IsSound entry.1) histories

update-IsSound :
    (now : Instant) (namespace name kind : String) (cs : List ContainerOomInfo)
    (histories : Histories)
    → All IsBoosted cs
    → IsSoundAll histories
    → IsSoundAll (update_oom_history now namespace name kind cs histories)
unfolding update_oom_history
update-IsSound now namespace name kind cs histories bs s =
    let key = history_key namespace name in
    elim (Option-cases (lookup key histories)) [
      | inl e ↦ rw e (
          insert-All IsSound key _ histories
            (record_loop-IsSound cs (new_history now namespace name kind) bs tt) s)
      | inr (h, e) ↦ rw e (
          insert-All IsSound key _ histories
            (record_loop-IsSound cs h bs (lookup-All IsSound key histories h s e)) s)
    ]

module _ (order : RangeOrder) where
  check_pod-IsSound :
      (now : Instant) (namespace : String) (pod : Pod) (state : Dict OomCheckResult × Histories)
      → IsSoundAll state.1
      → IsSoundAll (check_pod order now namespace pod state).1
  unfolding check_pod check_pod_for_oom
  check_pod-IsSound now namespace pod (results, histories) s =
      of_containers (check_pod_for_oom pod) (statuses_loop-IsBoosted pod.container_statuses pod)
    where
      of_containers :
          (cs : List ContainerOomInfo)
          → All IsBoosted cs
          → IsSoundAll (kills_of order now namespace pod (results, histories) cs).1
      of_containers [] bs = s
      of_containers (c ∷ cs) bs =
          update-IsSound now namespace (extract_workload_name_from_pod pod) "Deployment" (c ∷ cs)
            histories bs s

  pods_loop-IsSound :
      (now : Instant) (namespace : String) (pods : List Pod)
      (state : Dict OomCheckResult × Histories)
      → IsSoundAll state.1
      → IsSoundAll (pods_loop order now namespace pods state).1
  unfolding pods_loop
  pods_loop-IsSound now namespace [] state s = s
  pods_loop-IsSound now namespace (pod ∷ pods) state s =
      pods_loop-IsSound now namespace pods (check_pod order now namespace pod state)
        (check_pod-IsSound now namespace pod state s)

  check_namespace-IsSound :
      (hours : Duration → Float64) (now : Instant) (namespace : String) (pods : Option (List Pod))
      (histories : Histories)
      → IsSoundAll histories
      → IsSoundAll (check_namespace_for_ooms order hours now namespace pods histories).1
  unfolding check_namespace_for_ooms
  check_namespace-IsSound hours now namespace none histories s = s
  check_namespace-IsSound hours now namespace (some pods) histories s =
      pods_loop-IsSound now namespace pods ([], histories) s

  -- The history of kills after some scans and clearings, from a new detector.
  pub data Reached : Histories → Type 0 where
    start : Reached new_oom_detector
    scanned :
        {histories : Histories} (hours : Duration → Float64) (now : Instant) (namespace : String)
        (pods : Option (List Pod))
        → Reached histories
        → Reached (check_namespace_for_ooms order hours now namespace pods histories).1
    cleared :
        {histories : Histories} (now : Instant) (older_than : Duration)
        → Reached histories
        → Reached (clear_oom_history now older_than histories).0

clear_loop-IsSound :
    (cutoff : Instant) (histories : Histories)
    → IsSoundAll histories
    → IsSoundAll (clear_loop cutoff histories).0
unfolding clear_loop
clear_loop-IsSound cutoff [] s = tt
clear_loop-IsSound cutoff ((key, h) ∷ histories) (s, ss) =
    elim (Bool-cases (ltb_ℤ h.last_oom_time cutoff)) [
      | inl e ↦ rw e (clear_loop-IsSound cutoff histories ss)
      | inr n ↦ rw n (s, clear_loop-IsSound cutoff histories ss)
    ]

-- After any scans, whatever the pods, and any clearings: each container in the history has a boost above
-- 1, of 2 at most, and was not killed after the last kill recorded of its workload.
pub Reached-IsSoundAll :
    (order : RangeOrder) {histories : Histories} → Reached order histories → IsSoundAll histories
unfolding new_oom_detector clear_oom_history
Reached-IsSoundAll order start = tt
Reached-IsSoundAll order (scanned {histories = hs} hours now namespace pods r) =
    check_namespace-IsSound order hours now namespace pods hs (Reached-IsSoundAll order r)
Reached-IsSoundAll order (cleared {histories = hs} now older_than r) =
    clear_loop-IsSound _ hs (Reached-IsSoundAll order r)
