-- ===== src/Webhook/Checks.antt =====
-- When a check that is put together of others finds no problem.
use intelligent_cluster_opti.Prelude.{
  ◌≡◌, ◌↔◌, ◌⊎◌, refl, subst, inl, inr, Bool, true, false, Option, none, some, List, [], ◌∷◌, All,
  if◌then◌else◌,
}
use intelligent_cluster_opti.Webhook.{Problem, ◌then_check◌, check_each, check_some, reject}

-- A part that may be left out.
abbrev pub WhenSome : {A : Type 0} → (A → Type 0) → Option A → Type 0
WhenSome P none = Unit
WhenSome P (some a) = P a

-- A call that gives a value, and what holds of it.
abbrev pub Gives : {A : Type 0} → Option A → (A → Type 0) → Type 0
Gives {A} o P = (a : A) × (o ≡ some a) × P a

pub then_check_iff :
    {P Q : Type 0} {first rest : Option Problem}
    → (first ≡ none) ↔ P
    → (rest ≡ none) ↔ Q
    → ((first then_check rest) ≡ none) ↔ (P × Q)
then_check_iff {first = none} (f, f') (g, g') = (λ e. (f refl, g e), λ (p, q). g' q)
then_check_iff {first = some x} (f, f') (g, g') = (λ e. cc, λ (p, q). let n = f' p in cc)

pub reject_iff :
    {P : Type 0} (bad : Bool) (problem : Problem)
    → (bad ≡ false) ↔ P
    → (reject bad problem ≡ none) ↔ P
reject_iff true problem (f, f') = (λ e. cc, λ p. let n = f' p in cc)
reject_iff false problem (f, f') = (λ e. f refl, λ p. refl)

pub check_each_iff :
    {A : Type 0} {P : A → Type 0} {check : A → Option Problem}
    → ((a : A) → (check a ≡ none) ↔ P a)
    → (xs : List A) → (check_each check xs ≡ none) ↔ All P xs
unfolding check_each
check_each_iff h [] = (λ e. tt, λ p. refl)
check_each_iff h (x ∷ xs) = then_check_iff (h x) (check_each_iff h xs)

pub check_some_iff :
    {A : Type 0} {P : A → Type 0} {check : A → Option Problem}
    → ((a : A) → (check a ≡ none) ↔ P a)
    → (o : Option A) → (check_some check o ≡ none) ↔ WhenSome P o
check_some_iff h none = (λ e. tt, λ p. refl)
check_some_iff h (some a) = h a

-- `if skip { return nil }`, and the rest.
pub skip_iff :
    {Q : Type 0} (skip : Bool) {rest : Option Problem}
    → (rest ≡ none) ↔ Q
    → ((if skip then none else rest) ≡ none) ↔ ((skip ≡ true) ⊎ Q)
skip_iff true h = (λ e. inl refl, λ p. refl)
skip_iff false (g, g') = (λ e. inr (g e), λ p. elim p [ inl t ↦ cc | inr q ↦ g' q ])

-- `if test { … }`
pub when_iff :
    {Q : Type 0} (test : Bool) {rest : Option Problem}
    → (rest ≡ none) ↔ Q
    → ((if test then rest else none) ≡ none) ↔ ((test ≡ false) ⊎ Q)
when_iff true (g, g') = (λ e. inr (g e), λ p. elim p [ inl t ↦ cc | inr q ↦ g' q ])
when_iff false h = (λ e. inl refl, λ p. refl)

-- `if err != nil { return problem }` after a call, and the rest.
pub gives_iff :
    {A : Type 0} {P : A → Type 0} (o : Option A) (problem : Problem) {rest : A → Option Problem}
    → ((a : A) → (rest a ≡ none) ↔ P a)
    → ((elim o [ none ↦ some problem | some a ↦ rest a ]) ≡ none) ↔ Gives o P
gives_iff none problem h = (λ e. cc, λ (a, e, p). cc)
gives_iff {P} (some a) problem {rest} h =
    (λ e. (a, refl, (h a).0 e), λ (b, e, p). (h a).1 (subst P (cc) p))

pub same_iff : {P : Type 0} → P ↔ P
same_iff = (λ p. p, λ p. p)

pub refl_iff : {A : Type 0} {a : A} → (a ≡ a) ↔ Unit {0}
refl_iff = (λ e. tt, λ u. refl)
