-- ===== src/Recommendation/Names/RoundTrip.antt =====
-- A name is found again below the hashes that Kubernetes puts behind it.
use Prim.Native.Char.{code}
use Prim.Native.String.{◌++◌ as str_append}
use text.Mathlib.TextLemmas.{nil-append, cons-append, append-nil, append_assoc}
use intelligent_cluster_opti.Prelude.{
  ◌<◌, ◌+◌, ◌-◌, String, ◌≡◌, ◌≢◌, refl, sym, ap, ◌∙◌, Bool-cases, inl, inr, false, List, [], ◌∷◌,
  ◌++◌, All, All-append, str_eq, eq_iff, length, length-append, take, leb, ◌==◌, arith,
}
use intelligent_cluster_opti.Recommendation.Names.{
  split_loop, split_pod_name, join_loop, join_parts, without_last, extract_workload_name,
}

abbrev pub HasNoDash : String → Type 0
HasNoDash String.[] = Unit
HasNoDash (String.◌∷◌ c cs) = ((code c == 45) ≡ false) × HasNoDash cs

-- What stands between two dashes.
abbrev pub IsPart : String → Type 0
IsPart s = HasNoDash s × (s ≢ "")

-- A text without dashes is added to the part that is being read.
split_loop-append :
    (current s rest : String)
    → HasNoDash s
    → split_loop current (str_append s rest) ≡ split_loop (str_append current s) rest
unfolding split_loop
split_loop-append current String.[] rest h =
    ap (split_loop current) (nil-append rest)
    ∙ sym (ap (λ t. split_loop t rest) (append-nil current))
split_loop-append current (String.◌∷◌ c cs) rest (n, h) =
    ap (split_loop current) (cons-append c cs rest)
    ∙ rw n (
        split_loop-append (str_append current (String.◌∷◌ c "")) cs rest h
        ∙ ap (λ t. split_loop t rest)
            (append_assoc current (String.◌∷◌ c "") cs
              ∙ ap (str_append current)
                  (cons-append c "" cs ∙ ap (λ t. String.◌∷◌ c t) (nil-append cs))))

differs : (s : String) → s ≢ "" → str_eq s "" ≡ false
differs s h = elim (Bool-cases (str_eq s "")) [ inl e ↦ absurd (h ((eq_iff s "").0 e)) | inr n ↦ n ]

-- The parts after the first, each behind a dash.
abbrev behind_dashes : List String → String
behind_dashes [] = ""
behind_dashes (p ∷ parts) = str_append "-" (str_append p (behind_dashes parts))

join_loop-append :
    (result : String) (parts : List String)
    → join_loop result parts ≡ str_append result (behind_dashes parts)
unfolding join_loop
join_loop-append result [] = sym (append-nil result)
join_loop-append result (p ∷ parts) =
    join_loop-append (str_append (str_append result "-") p) parts
    ∙ append_assoc (str_append result "-") p (behind_dashes parts)
    ∙ append_assoc result "-" (str_append p (behind_dashes parts))

-- A dash ends a part.
split_loop-dash :
    (current rest : String)
    → current ≢ ""
    → split_loop current (str_append "-" rest) ≡ current ∷ split_loop "" rest
unfolding split_loop
split_loop-dash current rest n =
    ap (split_loop current) (cons-append "-" "" rest ∙ ap (λ t. String.◌∷◌ "-" t) (nil-append rest))
    ∙ rw (differs current n)

split_loop-behind_dashes :
    (p : String) (parts : List String)
    → IsPart p
    → All IsPart parts
    → split_loop p (behind_dashes parts) ≡ p ∷ parts
unfolding split_loop
split_loop-behind_dashes p [] (h, n) hs = rw (differs p n) refl
split_loop-behind_dashes p (q ∷ parts) (h, n) ((k, m), hs) =
    split_loop-dash p (str_append q (behind_dashes parts)) n
    ∙ ap (λ t. p ∷ t)
        (split_loop-append "" q (behind_dashes parts) k
          ∙ ap (λ t. split_loop t (behind_dashes parts)) (nil-append q)
          ∙ split_loop-behind_dashes q parts (k, m) hs)

-- Parts that are joined are found again.
split-join : (parts : List String) → All IsPart parts → split_pod_name (join_parts parts) ≡ parts
unfolding split_pod_name join_parts split_loop
split-join [] h = refl
split-join (p ∷ parts) ((h, n), hs) =
    ap (split_loop "") (join_loop-append p parts)
    ∙ split_loop-append "" p (behind_dashes parts) h
    ∙ ap (λ t. split_loop t (behind_dashes parts)) (nil-append p)
    ∙ split_loop-behind_dashes p parts (h, n) hs

take-append : {A : Type 0} (xs ys : List A) → take (length xs) (xs ++ ys) ≡ xs
take-append [] ys = refl
take-append (x ∷ xs) ys = ap (λ t. x ∷ t) (take-append xs ys)

without_last_two :
    (name : String) (xs : List String) (a b : String)
    → 0 < length xs
    → without_last 2 name (xs ++ (a ∷ b ∷ [])) ≡ join_parts xs
without_last_two name xs a b h =
    let n : length (xs ++ (a ∷ b ∷ [])) ≡ length xs + 2 = length-append xs (a ∷ b ∷ []) in
    let e : leb (length (xs ++ (a ∷ b ∷ []))) 2 ≡ false = ground (arith, n, h) in
    let m : length (xs ++ (a ∷ b ∷ [])) - 2 ≡ length xs = omega (arith, n) in
    rw (e, m) (ap join_parts (take-append xs (a ∷ b ∷ [])))

-- For a name of one part or more, where a part is not empty and has no dash: the name of the pod, which
-- is the workload's with two more parts for the hashes, gives back the name of the workload.
pub extract_workload_name_lem :
    (p : String) (parts : List String) (replica_set_hash pod_hash : String)
    → All IsPart (p ∷ parts)
    → IsPart replica_set_hash
    → IsPart pod_hash
    → extract_workload_name (join_parts ((p ∷ parts) ++ (replica_set_hash ∷ pod_hash ∷ [])))
      ≡ join_parts (p ∷ parts)
unfolding extract_workload_name
extract_workload_name_lem p parts replica_set_hash pod_hash h r q =
    let name = (p ∷ parts) ++ (replica_set_hash ∷ pod_hash ∷ []) in
    ap (without_last 2 (join_parts name))
      (split-join name (All-append IsPart (p ∷ parts) _ h (r, (q, tt))))
    ∙ without_last_two (join_parts name) (p ∷ parts) replica_set_hash pod_hash (omega arith)
