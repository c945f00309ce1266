-- ===== src/Safety/Oom/History/Clear.antt =====
-- What a clearing removes, and what boost a container gets.
use intelligent_cluster_opti.Prelude.{
  ◌+◌, String, ◌≡◌, ◌⊎◌, refl, ap, ◌∙◌, subst, Option, none, some, [], ◌∷◌, length, arith,
  if◌then◌else◌, Option-cases, Bool-cases, inl, inr, str_eq, eq_iff,
}
use intelligent_cluster_opti.Prelude.Int.{pos, ◌+ℤ◌, ◌-ℤ◌, ltb_ℤ, wrap64}
use intelligent_cluster_opti.Prelude.Float64.{of_ℕ}
use intelligent_cluster_opti.Prelude.Dict.{RangeOrder, IsDistinct, lookup, lookup-All}
use intelligent_cluster_opti.Api.{Instant, Duration}
use intelligent_cluster_opti.Safety.Oom.Check.{ContainerOomInfo}
use intelligent_cluster_opti.Safety.Oom.History.{
  OomHistory, Histories, history_key, get_oom_history, get_memory_boost_factor, clear_loop,
  clear_oom_history,
}
use intelligent_cluster_opti.Safety.Oom.History.Invariant.{
  IsBoost, IsSound, IsRecorded, Reached, Reached-IsSoundAll,
}

-- A history, unless its last kill is before the cutoff.
abbrev pub unless_before : Instant → Option OomHistory → Option OomHistory
unless_before cutoff none = none
unless_before cutoff (some h) = if ltb_ℤ h.last_oom_time cutoff then none else some h

clear_loop_lem :
    (cutoff : Instant) (key : String) (histories : Histories)
    → IsDistinct histories
    → (lookup key (clear_loop cutoff histories).0 ≡ unless_before cutoff (lookup key histories))
      × (length (clear_loop cutoff histories).0 + (clear_loop cutoff histories).1
          ≡ length histories)
unfolding clear_loop lookup
clear_loop_lem cutoff key [] d = (refl, refl)
clear_loop_lem cutoff key ((k, h) ∷ histories) (n, d) =
    let (ih, count) = clear_loop_lem cutoff key histories d in
    elim (Bool-cases (ltb_ℤ h.last_oom_time cutoff)) [
      | inl old ↦ rw old (
        elim (Bool-cases (str_eq k key)) [
          | inl e ↦
              let gone : lookup key histories ≡ none =
                subst (λ j. lookup j histories ≡ none) ((eq_iff k key).0 e) n in
              rw (e, old) (ih ∙ ap (unless_before cutoff) gone)
          | inr e ↦ rw e ih
        ],
        omega (arith, count),
      )
      | inr young ↦ rw young (
        elim (Bool-cases (str_eq k key)) [ inl e ↦ rw (e, young) | inr e ↦ rw e ih ],
        omega (arith, count),
      )
    ]

-- In a history in which no workload stands twice: a clearing keeps exactly the workloads whose last kill is
-- not before the cutoff, as they are, and returns how many it removes.
pub clear_oom_history_lem :
    (now : Instant) (older_than : Duration) (namespace workload_name : String)
    (histories : Histories)
    → IsDistinct histories
    → let (after, removed) = clear_oom_history now older_than histories in
      (get_oom_history namespace workload_name after
        ≡ unless_before
            (now +ℤ wrap64 (pos 0 -ℤ older_than))
            (get_oom_history namespace workload_name histories))
      × (length after + removed ≡ length histories)
unfolding clear_oom_history get_oom_history
clear_oom_history_lem now older_than namespace workload_name histories d =
    clear_loop_lem (now +ℤ wrap64 (pos 0 -ℤ older_than)) (history_key namespace workload_name)
      histories d

-- The record of a container.
abbrev pub record_of : String → String → String → Histories → Option ContainerOomInfo
record_of namespace workload_name container_name histories =
    elim (get_oom_history namespace workload_name histories) [
      | none ↦ none
      | some history ↦ lookup container_name history.container_ooms
    ]

-- After any scans and clearings: the boost of a container without a record is 1, and that of a container
-- with a record is above 1 and at most 2.
pub get_memory_boost_factor-IsBoost :
    (order : RangeOrder) {histories : Histories} (namespace workload_name container_name : String)
    → Reached order histories
    → let factor = get_memory_boost_factor namespace workload_name container_name histories in
      ((record_of namespace workload_name container_name histories ≡ none) × (factor ≡ of_ℕ 1))
      ⊎ ((info : ContainerOomInfo) × ((record_of namespace workload_name container_name histories
              ≡ some info)
            × IsBoost factor))
unfolding get_memory_boost_factor get_oom_history
get_memory_boost_factor-IsBoost order {histories = hs} namespace workload_name container_name r =
    let key = history_key namespace workload_name in
    elim (Option-cases (lookup key hs)) [
      | inl e ↦ rw (record_of, get_memory_boost_factor, e) (inl (refl, refl))
      | inr (h, e) ↦
          let s = lookup-All IsSound key hs h (Reached-IsSoundAll order r) e in
          elim (Option-cases (lookup container_name h.container_ooms)) [
            | inl n ↦ rw (record_of, get_memory_boost_factor, e, n) (inl (refl, refl))
            | inr (info, f) ↦
                let b =
                  lookup-All (IsRecorded h.last_oom_time) container_name h.container_ooms info s
                    f in
                rw (record_of, get_memory_boost_factor, e, f) (inr (info, (refl, b.0)))
          ]
    ]
