-- ===== src/Prelude/Dict.antt =====
-- A `map[string]V` as an association list. The order of the entries stands for the order in which a
-- `range` over the map visits them, which the language leaves open.
use text.Mathlib.TextPositions.{eq_refl}
use intelligent_cluster_opti.Prelude.{
  String, ◌≡◌, refl, Option, none, some, List, [], ◌∷◌, arith, str_eq, eq_iff, if◌then◌else◌,
  Bool-cases, inl, inr, ◌∙◌, ◌≢◌, ◌↔◌, sym, All, subst,
}

abbrev pub Dict {ℓ} : Type ℓ → Type ℓ
Dict V = List (String × V)

-- The order in which a `range` over a map visits the entries, where that is left open.
pub record RangeOrder : Type 1 where
  pub visit : {V : Type 0} → Dict V → Dict V

-- `m[name]`, if there.
unfoldable pub lookup {ℓ} : {V : Type ℓ} → String → Dict V → Option V
lookup name [] = none
lookup name ((first, value) ∷ dict) = if str_eq first name then some value else lookup name dict

-- `m[name] = value`
unfoldable pub insert {ℓ} : {V : Type ℓ} → String → V → Dict V → Dict V
insert name value [] = (name, value) ∷ []
insert name value ((first, old) ∷ dict) =
    let rest = insert name value dict in
    if str_eq first name then (name, value) ∷ dict else (first, old) ∷ rest

-- Only the name written reads differently.
pub lookup-insert {ℓ} :
    {V : Type ℓ} (name asked : String) (value : V) (dict : Dict V)
    → lookup asked (insert name value dict)
      ≡ (if str_eq name asked then some value else lookup asked dict)
unfolding lookup insert
lookup-insert name asked value [] = refl
lookup-insert name asked value ((first, old) ∷ dict) = elim (Bool-cases (str_eq first name)) [
  | inl same ↦ ground (arith, eq_iff first name)
  | inr differ ↦ ground (
    arith,
    lookup-insert name asked value dict,
    eq_iff first asked,
    eq_iff name asked,
    eq_iff first name,
  )
]

-- `m[k]` for slices: a missing key reads as the empty one.
abbrev pub entries {ℓ} : {A : Type ℓ} → Option (List A) → List A
entries none = []
entries (some xs) = xs

module _ {ℓ} {V : Type ℓ} where
  -- No key stands twice.
  abbrev pub IsDistinct : Dict V → Type ℓ
  IsDistinct [] = Unit
  IsDistinct ((k, v) ∷ m) = (lookup k m ≡ none) × IsDistinct m

  pub insert-IsDistinct :
      (k : String) (v : V) (m : Dict V) → IsDistinct m → IsDistinct (insert k v m)
  unfolding lookup insert
  insert-IsDistinct k v [] h = (refl, tt)
  insert-IsDistinct k v ((j, w) ∷ m) h = elim (Bool-cases (str_eq j k)) [
    | inl e ↦ rw e (rw ((eq_iff j k).0 e) at h.0, h.1)
    | inr n ↦ rw n (
      lookup-insert k j v m ∙ ground (arith, eq_iff k j, eq_iff j k, h.0),
      insert-IsDistinct k v m h.1,
    )
  ]

  pub lookup-insert_self : (k : String) (v : V) (m : Dict V) → lookup k (insert k v m) ≡ some v
  lookup-insert_self k v m = lookup-insert k k v m ∙ rw (eq_refl k)

  -- What holds of every value holds of a value that is found.
  pub lookup-All {κ} :
      (P : V → Type κ) (name : String) (dict : Dict V) (v : V)
      → All (λ entry. P entry.1) dict
      → lookup name dict ≡ some v
      → P v
  unfolding lookup
  lookup-All P name [] v all h = cc
  lookup-All P name ((first, value) ∷ dict) v (p, all) h = elim (Bool-cases (str_eq first name)) [
    | inl e ↦ subst P (ground (arith, e, h)) p
    | inr n ↦ lookup-All P name dict v all (ground (arith, n, h))
  ]

  -- What holds of every value and of a new one holds after it is written.
  pub insert-All {κ} :
      (P : V → Type κ) (name : String) (v : V) (dict : Dict V)
      → P v
      → All (λ entry. P entry.1) dict
      → All (λ entry. P entry.1) (insert name v dict)
  unfolding insert
  insert-All P name v [] p all = (p, tt)
  insert-All P name v ((first, value) ∷ dict) p (q, all) = elim (Bool-cases (str_eq first name)) [
    | inl e ↦ rw e (p, all)
    | inr n ↦ rw n (q, insert-All P name v dict p all)
  ]

  -- A name is missing exactly if it differs from every key.
  pub lookup-none_iff :
      (name : String) (dict : Dict V)
      → (lookup name dict ≡ none) ↔ All (λ entry. name ≢ entry.0) dict
  unfolding lookup
  lookup-none_iff name [] = (λ h. tt, λ h. refl)
  lookup-none_iff name ((first, value) ∷ dict) =
      let (f, f') = lookup-none_iff name dict in
      elim (Bool-cases (str_eq first name)) [
        | inl e ↦
            (λ h. ground (arith, e, h), λ (n, all). absurd (n (sym ((eq_iff first name).0 e))))
        | inr n ↦ (
          λ h. (λ q. let e = (eq_iff first name).1 (sym q) in cc, f (ground (arith, n, h))),
          λ (d, all). ground (arith, n, f' all),
        )
      ]
