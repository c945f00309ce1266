-- ===== src/Safety/Oom/Scan/Complete.antt =====
-- A scan passes over no kill.
use intelligent_cluster_opti.Prelude.{
  String, ◌≡◌, ◌⊎◌, refl, ap, ◌∙◌, Bool, true, false, not, ◌||◌, some, List, [], ◌∷◌, All,
  if◌then◌else◌, is_some, inl, inr, str_eq,
}
use intelligent_cluster_opti.Prelude.Dict.{
  Dict, RangeOrder, lookup, insert, lookup-insert, lookup-insert_self,
}
use intelligent_cluster_opti.Prelude.Float64.{Float64}
use intelligent_cluster_opti.Api.{Instant, Duration}
use intelligent_cluster_opti.Safety.Oom.Check.{
  ContainerOomInfo, Pod, check_pod_for_oom, extract_workload_name_from_pod,
}
use intelligent_cluster_opti.Safety.Oom.History.{
  Histories, history_key, update_oom_history, get_oom_history,
}
use intelligent_cluster_opti.Safety.Oom.Scan.{
  OomCheckResult, kills_of, check_pod, pods_loop, check_namespace_for_ooms,
}

abbrev pub IsKnown : String → Histories → Type 0
IsKnown key histories = is_some (lookup key histories) ≡ true

-- The pod shows no kill, or its workload has a history.
abbrev pub IsNoted : String → Histories → Pod → Type 0
IsNoted namespace histories pod =
    (check_pod_for_oom pod ≡ [])
    ⊎ (is_some (get_oom_history namespace (extract_workload_name_from_pod pod) histories) ≡ true)

insert-IsKnown :
    {V : Type 0} (key asked : String) (v : V) (dict : Dict V)
    → is_some (lookup asked dict) ≡ true
    → is_some (lookup asked (insert key v dict)) ≡ true
insert-IsKnown key asked v dict h =
    ap is_some (lookup-insert key asked v dict) ∙ of_test (str_eq key asked)
  where
    of_test : (b : Bool) → is_some (if b then some v else lookup asked dict) ≡ true
    of_test true = refl
    of_test false = h

module _ (order : RangeOrder) (now : Instant) (namespace : String) where
  kills_of-IsKnown :
      (pod : Pod) (state : Dict OomCheckResult × Histories) (cs : List ContainerOomInfo)
      (asked : String)
      → IsKnown asked state.1
      → IsKnown asked (kills_of order now namespace pod state cs).1
  unfolding update_oom_history
  kills_of-IsKnown pod state [] asked h = h
  kills_of-IsKnown pod (results, histories) (c ∷ cs) asked h =
      insert-IsKnown (history_key namespace (extract_workload_name_from_pod pod)) asked _ histories
        h

  check_pod-IsNoted :
      (pod : Pod) (state : Dict OomCheckResult × Histories)
      → IsNoted namespace (check_pod order now namespace pod state).1 pod
  unfolding check_pod update_oom_history get_oom_history
  check_pod-IsNoted pod (results, histories) = of_kills (check_pod_for_oom pod)
    where
      of_kills :
          (cs : List ContainerOomInfo)
          → (cs ≡ [])
            ⊎ (is_some (
                  lookup
                    (history_key namespace (extract_workload_name_from_pod pod))
                    (kills_of order now namespace pod (results, histories) cs).1)
                ≡ true)
      of_kills [] = inl refl
      of_kills (c ∷ cs) = inr (
          ap is_some (
            lookup-insert_self (history_key namespace (extract_workload_name_from_pod pod)) _
              histories))

  pods_loop-IsKnown :
      (pods : List Pod) (state : Dict OomCheckResult × Histories) (asked : String)
      → IsKnown asked state.1
      → IsKnown asked (pods_loop order now namespace pods state).1
  unfolding pods_loop check_pod
  pods_loop-IsKnown [] state asked h = h
  pods_loop-IsKnown (pod ∷ pods) state asked h =
      pods_loop-IsKnown pods (check_pod order now namespace pod state) asked
        (kills_of-IsKnown pod state (check_pod_for_oom pod) asked h)

  pods_loop-IsNoted :
      (pods : List Pod) (state : Dict OomCheckResult × Histories)
      → All (IsNoted namespace (pods_loop order now namespace pods state).1) pods
  unfolding pods_loop get_oom_history
  pods_loop-IsNoted [] state = tt
  pods_loop-IsNoted (pod ∷ pods) state =
      let after = check_pod order now namespace pod state in
      (
        elim (check_pod-IsNoted pod state) [
          | inl none_killed ↦ inl none_killed
          | inr known ↦ inr (
              pods_loop-IsKnown pods after
                (history_key namespace (extract_workload_name_from_pod pod)) known)
        ],
        pods_loop-IsNoted pods after,
      )

of_implies : (p q : Bool) → (p ≡ true → q ≡ true) → (not p || q) ≡ true
of_implies true q f = f refl
of_implies false q f = refl

-- If the cluster answers with some pods: after the scan of their namespace, each of them that shows a kill
-- has a history of its workload, and a workload that had a history has one still.
pub check_namespace_for_ooms-IsNoted :
    (order : RangeOrder) (hours : Duration → Float64) (now : Instant) (namespace asked : String)
    (pods : List Pod) (histories : Histories)
    → let after = (check_namespace_for_ooms order hours now namespace (some pods) histories).1 in
      All (IsNoted namespace after) pods
      × ((not (is_some (get_oom_history namespace asked histories))
            || is_some (get_oom_history namespace asked after))
          ≡ true)
unfolding check_namespace_for_ooms get_oom_history
check_namespace_for_ooms-IsNoted order hours now namespace asked pods histories = (
  pods_loop-IsNoted order now namespace pods ([], histories),
  of_implies _ _
      (pods_loop-IsKnown order now namespace pods ([], histories) (history_key namespace asked)),
)
