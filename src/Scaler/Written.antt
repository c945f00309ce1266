-- ===== src/Scaler/Written.antt =====
-- What the scaling hands to the cluster.
use intelligent_cluster_opti.Prelude.{
  ◌≡◌, refl, inl, inr, none, some, List, [], ◌∷◌, arith, str_eq, Bool-cases,
}
use intelligent_cluster_opti.Rollback.{Container, ok, err, container_not_found, find_container}
use intelligent_cluster_opti.Platform.{Platform}
use intelligent_cluster_opti.Scaler.{ScaleRequest, rolling_containers, in_place_containers}

module _ (p : Platform) where
  open p use {cluster}

  found :
      (req : ScaleRequest) (cs : List (Container cluster.Quantity)) (c : Container cluster.Quantity)
      → find_container cluster req.container_name cs ≡ some c
      → rolling_containers p req cs ≡ in_place_containers p req cs
  unfolding rolling_containers in_place_containers find_container
  found req [] c h = cc
  found req (x ∷ xs) c h = elim (Bool-cases (str_eq x.name req.container_name)) [
    | inl e ↦ rw (e, rolling_containers, in_place_containers) refl
    | inr n ↦
        rw (n, found req xs c (ground (arith, n, h)), rolling_containers, in_place_containers) refl
  ]

  missing :
      (req : ScaleRequest) (cs : List (Container cluster.Quantity))
      → find_container cluster req.container_name cs ≡ none
      → (rolling_containers p req cs ≡ ok cs)
        × (in_place_containers p req cs ≡ err container_not_found)
  unfolding rolling_containers in_place_containers find_container
  missing req [] h = (refl, refl)
  missing req (x ∷ xs) h = elim (Bool-cases (str_eq x.name req.container_name)) [
    | inl e ↦ ground (arith, e, h)
    | inr n ↦
        (let (r, i) = missing req xs (ground (arith, n, h)) in
          (rw (n, r, rolling_containers) refl, rw (n, i, in_place_containers) refl))
  ]

  -- Where there is a container of the name, the loop of the rolling update and that of the update in place
  -- agree. Where there is none, the one of the rolling update changes nothing and reports no error, while
  -- the one in place refuses.
  pub rolling_containers-in_place_containers :
      (req : ScaleRequest) (cs : List (Container cluster.Quantity))
      → ((c : Container cluster.Quantity)
          → find_container cluster req.container_name cs ≡ some c
          → rolling_containers p req cs ≡ in_place_containers p req cs)
        × (find_container cluster req.container_name cs ≡ none
            → (rolling_containers p req cs ≡ ok cs)
              × (in_place_containers p req cs ≡ err container_not_found))
  rolling_containers-in_place_containers req cs = (λ c h. found req cs c h, λ h. missing req cs h)
