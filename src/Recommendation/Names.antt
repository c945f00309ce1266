-- ===== src/Recommendation/Names.antt =====
-- pkg/recommendation/engine.go: the name of a workload from that of a pod. The texts here are in Unicode
-- characters, as a `range` over a text gives them.
pub mod RoundTrip
use Prim.Native.Char.{code}
use Prim.Native.String.{◌++◌ as str_append}
use intelligent_cluster_opti.Prelude.{
  ℕ, ◌-◌, String, ◌≡◌, refl, Bool, not, ◌&&◌, List, [], ◌∷◌, if◌then◌else◌, str_eq, length, take,
  leb, ◌==◌,
}

-- The loop over the characters, with the part that is being read.
unfoldable pub split_loop : String → String → List String
split_loop current String.[] = if str_eq current "" then [] else current ∷ []
split_loop current (String.◌∷◌ c cs) =
    let dash = code c == 45 in
    let rest = split_loop (if dash then "" else str_append current (String.◌∷◌ c "")) cs in
    if dash && not (str_eq current "") then current ∷ rest else rest

unfoldable pub split_pod_name : String → List String
unfolding split_loop
split_pod_name name = split_loop "" name

-- The loop after the first part.
unfoldable pub join_loop : String → List String → String
join_loop result [] = result
join_loop result (p ∷ parts) = join_loop (str_append (str_append result "-") p) parts

unfoldable pub join_parts : List String → String
unfolding join_loop
join_parts [] = ""
join_parts (p ∷ parts) = join_loop p parts

-- `joinParts(parts[:len(parts)-n])`, if there are more than `n` parts.
abbrev pub without_last : ℕ → String → List String → String
without_last n name parts =
    if leb (length parts) n then name else join_parts (take (length parts - n) parts)

unfoldable pub extract_workload_name : String → String
unfolding split_pod_name join_parts
extract_workload_name pod_name = without_last 2 pod_name (split_pod_name pod_name)

without_hashes : extract_workload_name "nginx-deployment-5d7b8c7d9f-abc12" ≡ "nginx-deployment"
unfolding extract_workload_name split_pod_name split_loop join_parts join_loop
without_hashes = refl

-- An empty part is left out.
empty_part : extract_workload_name "a--b-5d7b8c7d9f-abc12" ≡ "a-b"
unfolding extract_workload_name split_pod_name split_loop join_parts join_loop
empty_part = refl
