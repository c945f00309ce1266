-- ===== src/Rollback/Restore.antt =====
-- A configuration that was applied is the one that the cluster then has.
use intelligent_cluster_opti.Prelude.{
  ◌≡◌, refl, ap, ◌∙◌, true, false, none, some, List, [], ◌∷◌, arith, str_eq, Bool-cases, inl, inr,
}
use intelligent_cluster_opti.Prelude.Dict.{Dict, lookup, insert, lookup-insert, lookup-insert_self}
use intelligent_cluster_opti.Api.{Instant}
use intelligent_cluster_opti.Rollback.{
  Cluster, Container, WorkloadConfig, ok, is_supported, string_or_empty, find_container,
  fetch_current_config, update_container_resources, update_containers, apply_config,
}

module _ (c : Cluster) (config : WorkloadConfig) where
  open c use {Quantity, parse_quantity, quantity_string}

  -- What a container requests, as the strings of the configuration.
  abbrev Requests : Container Quantity → Type 0
  Requests container =
      (string_or_empty c (lookup "cpu" container.requests) ≡ config.cpu)
      × (string_or_empty c (lookup "memory" container.requests) ≡ config.memory)

  -- The strings are there, and are what the quantities that they parse to print as.
  pub record IsCanonical : Type 0 where
    pub cpu_set : str_eq config.cpu "" ≡ false
    pub memory_set : str_eq config.memory "" ≡ false
    pub cpu_prints :
        (q : Quantity) → parse_quantity config.cpu ≡ some q → quantity_string q ≡ config.cpu
    pub memory_prints :
        (q : Quantity) → parse_quantity config.memory ≡ some q → quantity_string q ≡ config.memory

  resources_cases :
      (container after : Container Quantity)
      → IsCanonical
      → update_container_resources c container config ≡ ok after
      → (p : Quantity) × (q : Quantity) × (parse_quantity config.cpu ≡ some p)
        × (parse_quantity config.memory ≡ some q)
        × (after
            ≡ record container { requests = insert "memory" q (insert "cpu" p container.requests) })
  unfolding update_container_resources
  resources_cases container after i h = ground arith

  requested :
      (p q : Quantity) (requests : Dict Quantity)
      → let after = insert "memory" q (insert "cpu" p requests) in
        (lookup "cpu" after ≡ some p) × (lookup "memory" after ≡ some q)
  requested p q requests = (
    lookup-insert "memory" "cpu" q _ ∙ lookup-insert_self "cpu" p requests,
    lookup-insert_self "memory" q _,
  )

  resources-Requests :
      (container after : Container Quantity)
      → IsCanonical
      → update_container_resources c container config ≡ ok after
      → Requests after × (after.name ≡ container.name)
  resources-Requests container after i h =
      let (p, q, pc, pm, e) = resources_cases container after i h in
      let (lc, lm) = requested p q container.requests in
      (
        (
          ap (λ a. string_or_empty c (lookup "cpu" a.requests)) e ∙ rw lc (i.cpu_prints p pc),
          ap (λ a. string_or_empty c (lookup "memory" a.requests)) e ∙ rw lm (i.memory_prints q pm),
        ),
        ap (λ a. a.name) e,
      )

  head_cases :
      (x : Container Quantity) (xs after : List (Container Quantity))
      → str_eq x.name config.container_name ≡ true
      → update_containers c config (x ∷ xs) ≡ ok after
      → (x' : Container Quantity) × (update_container_resources c x config ≡ ok x')
        × (after ≡ x' ∷ xs)
  unfolding update_containers
  head_cases x xs after e u = ground arith

  tail_cases :
      (x : Container Quantity) (xs after : List (Container Quantity))
      → str_eq x.name config.container_name ≡ false
      → update_containers c config (x ∷ xs) ≡ ok after
      → (xs' : List (Container Quantity)) × (update_containers c config xs ≡ ok xs')
        × (after ≡ x ∷ xs')
  unfolding update_containers
  tail_cases x xs after e u = ground arith

  -- The loop changes the first container of the name, and that is the one that is found later.
  update-find :
      (containers after : List (Container Quantity)) (found : Container Quantity)
      → IsCanonical
      → find_container c config.container_name containers ≡ some found
      → update_containers c config containers ≡ ok after
      → (container : Container Quantity) × (find_container c config.container_name after
          ≡ some container)
        × Requests container
  unfolding find_container update_containers
  update-find [] after found i f u = cc
  update-find (x ∷ xs) after found i f u = elim (Bool-cases (str_eq x.name config.container_name)) [
    | inl e ↦
        let (x', done, same) = head_cases x xs after e u in
        let (req, name) = resources-Requests x x' i done in (x', rw same (rw (name, e) refl), req)
    | inr n ↦
        let (xs', done, same) = tail_cases x xs after n u in
        let (container, there, req) = update-find xs xs' found i (rw n at f) done in
        (container, rw same (rw n there), req)
  ]

module _ (c : Cluster) (w w' : c.World) (now : Instant) (config : WorkloadConfig) where
  -- What the API documents of a write that succeeded.
  abbrev pub ReadsBack : Type 0
  ReadsBack =
      (containers : List (Container c.Quantity))
      → c.update w config.kind config.namespace config.name containers ≡ (w', true)
      → c.get w' config.kind config.namespace config.name ≡ some containers

  apply_cases :
      (containers : List (Container c.Quantity))
      → c.get w config.kind config.namespace config.name ≡ some containers
      → apply_config c w config ≡ (w', none)
      → (containers' : List (Container c.Quantity)) × (is_supported config.kind ≡ true)
        × (update_containers c config containers ≡ ok containers')
        × (c.update w config.kind config.namespace config.name containers' ≡ (w', true))
  unfolding apply_config
  apply_cases containers g a = ground arith

  fetched :
      (containers : List (Container c.Quantity)) (container : Container c.Quantity)
      → is_supported config.kind ≡ true
      → c.get w' config.kind config.namespace config.name ≡ some containers
      → find_container c config.container_name containers ≡ some container
      → Requests c config container
      → fetch_current_config c w' now config.namespace config.kind config.name config.container_name
        ≡ ok (record config { timestamp = now })
  unfolding fetch_current_config
  fetched containers container s g f r =
      rw (s, g, f, fetch_current_config)
        (λ i. ok (record {
          namespace = config.namespace;
          kind = config.kind;
          name = config.name;
          container_name = config.container_name;
          cpu = r.0 i;
          memory = r.1 i;
          timestamp = now;
        }))

  -- After a configuration has been applied without an error, what is fetched of that container is that
  -- configuration, but for its time: if the workload had a container of the name, a write that succeeds
  -- is read back, and both resources are set and are what their quantities print as.
  pub fetch-apply_config :
      (containers : List (Container c.Quantity)) (container : Container c.Quantity)
      → ReadsBack
      → IsCanonical c config
      → c.get w config.kind config.namespace config.name ≡ some containers
      → find_container c config.container_name containers ≡ some container
      → apply_config c w config ≡ (w', none)
      → fetch_current_config c w' now config.namespace config.kind config.name config.container_name
        ≡ ok (record config { timestamp = now })
  fetch-apply_config containers container reads i g f a =
      let (containers', s, u, done) = apply_cases containers g a in
      let (container', there, req) = update-find c config containers containers' container i f u in
      fetched containers' container' s (reads containers' done) there req
