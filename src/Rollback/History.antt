-- ===== src/Rollback/History.antt =====
-- The saved configurations: how many there are, and which one a rollback applies.
use mathlib.Core.List.{append_assoc}
use intelligent_cluster_opti.Prelude.{
  ℕ, zero, suc, ◌⊎◌, ◌-◌, ◌≤◌, String, ◌≡◌, refl, ap, ◌∙◌, false, none, some, List, [], ◌∷◌, ◌++◌,
  arith, length, length-append, length-drop, ltb, drop, take, get_elem?, All, Bool-cases, inl, inr,
}
use intelligent_cluster_opti.Prelude.Dict.{lookup, insert, entries, lookup-insert_self}
use intelligent_cluster_opti.Api.{Instant}
use intelligent_cluster_opti.Rollback.{
  Cluster, WorkloadConfig, Configs, Error, Result, ok, err, no_previous_config, key, config_key,
  max_history_per_workload, keep_last, fetch_current_config, save_previous_config, apply_config,
  rolled_back, rollback_workload,
}

-- Every container has at most five saved configurations.
abbrev pub IsBounded : Configs → Type 0
IsBounded history = All (λ entry. length entry.1 ≤ max_history_per_workload) history

length-keep_last : (n : ℕ) (configs : List WorkloadConfig) → length (keep_last n configs) ≤ n
unfolding keep_last
length-keep_last n configs = ground (arith, length-drop (length configs - n) configs)

length-take-le : (n : ℕ) (configs : List WorkloadConfig) → length (take n configs) ≤ n
length-take-le zero configs = omega arith
length-take-le (suc n) [] = omega arith
length-take-le (suc n) (x ∷ configs) = omega (arith, length-take-le n configs)

insert-IsBounded :
    (k : String) (configs : List WorkloadConfig) (history : Configs)
    → length configs ≤ max_history_per_workload
    → IsBounded history
    → IsBounded (insert k configs history)
unfolding insert
insert-IsBounded k configs [] h b = (h, tt)
insert-IsBounded k configs ((j, v) ∷ history) h b =
    ground (arith, insert-IsBounded k configs history h b.1)

lookup-IsBounded :
    (k : String) (history : Configs)
    → IsBounded history
    → length (entries (lookup k history)) ≤ max_history_per_workload
unfolding lookup
lookup-IsBounded k [] b = omega arith
lookup-IsBounded k ((j, v) ∷ history) b = ground (arith, lookup-IsBounded k history b.1)

fetch_cases :
    (r : Result WorkloadConfig)
    → ((e : Error) × (r ≡ err e)) ⊎ ((config : WorkloadConfig) × (r ≡ ok config))
fetch_cases (err e) = inl (e, refl)
fetch_cases (ok config) = inr (config, refl)

module _ (c : Cluster) (w : c.World) (namespace kind name container_name : String)
    (history : Configs) where
  save-IsBounded :
      (now : Instant)
      → IsBounded history
      → IsBounded (save_previous_config c w now namespace kind name container_name history).0
  unfolding save_previous_config
  save-IsBounded now b =
      elim (fetch_cases (fetch_current_config c w now namespace kind name container_name)) [
        | inl (e, q) ↦ rw (q, save_previous_config) b
        | inr (config, q) ↦
            rw (q, save_previous_config) (insert-IsBounded _ _ history (length-keep_last 5 _) b)
      ]

  rollback-IsBounded :
      IsBounded history
      → IsBounded (rollback_workload c w namespace kind name container_name history).1
  unfolding rollback_workload
  rollback-IsBounded b =
      let k = key namespace kind name container_name in
      let configs = entries (lookup k history) in
      ground (
        arith,
        insert-IsBounded k (take (length configs - 1) configs) history,
        length-take-le (length configs - 1) configs,
        lookup-IsBounded k history b,
      )

  -- If every container has at most five saved configurations, it still does after the saving of one and
  -- after a rollback, whatever the cluster answers.
  pub rollback_manager-IsBounded :
      (now : Instant)
      → IsBounded history
      → IsBounded (save_previous_config c w now namespace kind name container_name history).0
        × IsBounded (rollback_workload c w namespace kind name container_name history).1
  rollback_manager-IsBounded now b = (save-IsBounded now b, rollback-IsBounded b)

drop-append :
    (k : ℕ) (xs ys : List WorkloadConfig) → k ≤ length xs → drop k (xs ++ ys) ≡ drop k xs ++ ys
drop-append zero xs ys h = refl
drop-append (suc k) [] ys h = absurd (omega arith)
drop-append (suc k) (x ∷ xs) ys h = drop-append k xs ys (omega arith)

get_elem?-append :
    (xs ys : List WorkloadConfig) (x : WorkloadConfig)
    → get_elem? (xs ++ (x ∷ ys)) (length xs) ≡ some x
get_elem?-append [] ys x = refl
get_elem?-append (y ∷ xs) ys x = get_elem?-append xs ys x

take-append :
    (xs ys : List WorkloadConfig) (x : WorkloadConfig)
    → take (suc (length xs)) (xs ++ (x ∷ ys)) ≡ xs ++ (x ∷ [])
take-append [] ys x = refl
take-append (y ∷ xs) ys x = ap (◌∷◌ y) (take-append xs ys x)

-- The five last of some configurations that end in two.
keep_last-two :
    (older : List WorkloadConfig) (a b : WorkloadConfig)
    → keep_last 5 (older ++ (a ∷ b ∷ [])) ≡ drop (length older - 3) older ++ (a ∷ b ∷ [])
unfolding keep_last
keep_last-two older a b =
    let n = length-append older (a ∷ b ∷ []) in
    elim (Bool-cases (ltb 5 (length (older ++ (a ∷ b ∷ []))))) [
      | inl long ↦ rw long (
          let e : length (older ++ (a ∷ b ∷ [])) - 5 ≡ length older - 3 = omega arith in
          rw e (drop-append (length older - 3) older (a ∷ b ∷ []) (omega arith)))
      | inr short ↦ rw short (let e : length older - 3 ≡ 0 = ground arith in rw e refl)
    ]

module _ (c : Cluster) (w : c.World) (now : Instant)
    (namespace kind name container_name : String) where
  fetch-key :
      (config : WorkloadConfig)
      → fetch_current_config c w now namespace kind name container_name ≡ ok config
      → config_key config ≡ key namespace kind name container_name
  unfolding fetch_current_config
  fetch-key config e = ground arith

  saved :
      (config : WorkloadConfig) (history : Configs)
      → fetch_current_config c w now namespace kind name container_name ≡ ok config
      → let k = key namespace kind name container_name in
        save_previous_config c w now namespace kind name container_name history
        ≡ (insert k (keep_last 5 (entries (lookup k history) ++ (config ∷ []))) history, none)
  unfolding save_previous_config
  saved config history e = rw (e, save_previous_config) (rw (fetch-key config e) refl)

  saved-lookup :
      (config : WorkloadConfig) (history : Configs)
      → fetch_current_config c w now namespace kind name container_name ≡ ok config
      → let k = key namespace kind name container_name in
        lookup k (save_previous_config c w now namespace kind name container_name history).0
        ≡ some (keep_last 5 (entries (lookup k history) ++ (config ∷ [])))
  saved-lookup config history e =
      let k = key namespace kind name container_name in
      rw (saved config history e) (lookup-insert_self k _ history)

module _ (c : Cluster) (w : c.World) (namespace kind name container_name : String) where
  rollback_two :
      (history : Configs) (older : List WorkloadConfig) (a b : WorkloadConfig)
      → let k = key namespace kind name container_name in
        lookup k history ≡ some (older ++ (a ∷ b ∷ []))
        → rollback_workload c w namespace kind name container_name history
          ≡ rolled_back k (older ++ (a ∷ [])) history (apply_config c w a)
  unfolding rollback_workload
  rollback_two history older a b e =
      let n = length-append older (a ∷ b ∷ []) in
      let long : ltb (length (older ++ (a ∷ b ∷ []))) 2 ≡ false = ground arith in
      let i : length (older ++ (a ∷ b ∷ [])) - 2 ≡ length older = omega arith in
      let j : length (older ++ (a ∷ b ∷ [])) - 1 ≡ suc (length older) = omega arith in
      rw (e, rollback_workload)
        (rw long
          (rw (i, get_elem?-append older (b ∷ []) a) (rw (e, j, take-append older (b ∷ []) a))))

-- What stays saved: the last of the older ones, as many as there is room for.
abbrev pub room : List WorkloadConfig → List WorkloadConfig
room older = drop (length older - 3) older

module _ (c : Cluster) (w w' : c.World) (now : Instant)
    (namespace kind name container_name : String) where
  -- A rollback after the saving of a container's current configuration does not apply that one but the
  -- one saved before it, `previous`. It answers what applying that answers, and if that succeeds, then
  -- `previous` is the last that stays saved and the configuration just saved is forgotten.
  pub rollback-save :
      (history : Configs) (older : List WorkloadConfig) (previous current : WorkloadConfig)
      → let k = key namespace kind name container_name in
        fetch_current_config c w now namespace kind name container_name ≡ ok current
        → lookup k history ≡ some (older ++ (previous ∷ []))
        → let after = (save_previous_config c w now namespace kind name container_name history).0 in
          rollback_workload c w' namespace kind name container_name after
          ≡ rolled_back k (room older ++ (previous ∷ [])) after (apply_config c w' previous)
  rollback-save history older previous current f e =
      let k = key namespace kind name container_name in
      rollback_two c w' namespace kind name container_name _ (room older) previous current (
        saved-lookup c w now namespace kind name container_name current history f
        ∙ rw (e, append_assoc, keep_last-two older previous current))

  -- A rollback after the first saving of a container's configuration fails and changes nothing: one
  -- saved configuration is not enough.
  pub rollback-first_save :
      (history : Configs) (current : WorkloadConfig)
      → let k = key namespace kind name container_name in
        fetch_current_config c w now namespace kind name container_name ≡ ok current
        → lookup k history ≡ none
        → let after = (save_previous_config c w now namespace kind name container_name history).0 in
          rollback_workload c w' namespace kind name container_name after
          ≡ (w', after, some no_previous_config)
  unfolding rollback_workload keep_last
  rollback-first_save history current f e = rw (
    rw e at (saved-lookup c w now namespace kind name container_name current history f),
    rollback_workload,
  )
