-- ===== src/Policy/Values.antt =====
-- pkg/policy/utils.go: quantities such as "100m" and "512Mi", and the validity of actions. A text is
-- walked by its code points. The two regular expressions, `^(\d+\.?\d*)([m]?)$` and
-- `^(\d+\.?\d*)([KMGTP]i?)?$`, are matched from left to right; no other way to match differs, since
-- no suffix begins with a digit or a point.
use Prim.Native.Char.{code}
use intelligent_cluster_opti.Prelude.{
  ℕ, ◌*◌, String, Bool, true, false, ◌&&◌, ◌||◌, Option, none, some, List, [], ◌∷◌, ◌++◌,
  if◌then◌else◌, leb, ◌==◌, str_eq,
}
use intelligent_cluster_opti.Prelude.Int.{ℤ}
use intelligent_cluster_opti.Prelude.Dict.{lookup}
use intelligent_cluster_opti.Policy.Types.{
  Policy, Floats, Error, Result, ok, err, missing_parameter, invalid_value, unknown_resource,
}

abbrev pub codes : String → List ℕ
codes String.[] = []
codes (String.◌∷◌ c s) = code c ∷ codes s

-- The white space of `strings.TrimSpace`.
unfoldable pub is_space : ℕ → Bool
is_space c =
    (leb 9 c && leb c 13)
    || c == 32
    || c == 0x85
    || c == 0xa0
    || c == 0x1680
    || (leb 0x2000 c && leb c 0x200a)
    || c == 0x2028
    || c == 0x2029
    || c == 0x202f
    || c == 0x205f
    || c == 0x3000

unfoldable pub trim_left : List ℕ → List ℕ
trim_left [] = []
trim_left (c ∷ cs) = elim (is_space c) [ true ↦ trim_left cs | false ↦ c ∷ cs ]

unfoldable pub trim_right : List ℕ → List ℕ
trim_right [] = []
trim_right (c ∷ cs) = elim (trim_right cs) [
  | [] ↦ if is_space c then [] else c ∷ []
  | d ∷ ds ↦ c ∷ d ∷ ds
]

unfoldable pub trim_space : List ℕ → List ℕ
trim_space cs = trim_right (trim_left cs)

abbrev pub is_digit : ℕ → Bool
is_digit c = leb b'0' c && leb c b'9'

-- `\d*`: the digits at the front, and the rest.
unfoldable pub take_digits : List ℕ → List ℕ × List ℕ
take_digits [] = ([], [])
take_digits (c ∷ cs) =
    let (digits, rest) = take_digits cs in if is_digit c then (c ∷ digits, rest) else ([], c ∷ cs)

-- `\.?\d*`
unfoldable pub take_fraction : List ℕ → List ℕ × List ℕ
take_fraction [] = ([], [])
take_fraction (c ∷ cs) =
    if c == b'.'
    then (let (digits, rest) = take_digits cs in (c ∷ digits, rest))
    else take_digits (c ∷ cs)

-- `(\d+\.?\d*)`: the number, and the suffix behind it.
unfoldable pub take_number : List ℕ → Option (List ℕ × List ℕ)
take_number cs =
    let (whole, rest) = take_digits cs in
    elim whole [
      | [] ↦ none
      | d ∷ ds ↦ let (fraction, suffix) = take_fraction rest in some ((d ∷ ds) ++ fraction, suffix)
    ]

-- The suffix of a processor quantity: is it "m"?
unfoldable pub cpu_suffix : List ℕ → Option Bool
cpu_suffix [] = some false
cpu_suffix (c ∷ []) = if c == b'm' then some true else none
cpu_suffix (c ∷ d ∷ cs) = none

-- `[KMGTP]`, by its factor.
unfoldable pub unit_multiplier : ℕ → Option ℕ
unit_multiplier c =
    if c == b'K'
    then some 1024
    else if c == b'M'
    then some (1024 * 1024)
    else if c == b'G'
    then some (1024 * 1024 * 1024)
    else if c == b'T'
    then some (1024 * 1024 * 1024 * 1024)
    else if c == b'P'
    then some (1024 * 1024 * 1024 * 1024 * 1024)
    else none

unfoldable pub memory_suffix : List ℕ → Option ℕ
memory_suffix [] = some 1
memory_suffix (c ∷ []) = unit_multiplier c
memory_suffix (c ∷ d ∷ []) = if d == b'i' then unit_multiplier c else none
memory_suffix (c ∷ d ∷ e ∷ cs) = none

module _ (f : Floats) where
  open f use {parse_float, of_int, times, to_int64}

  unfoldable pub parse_cpu_value : List ℕ → Result ℤ
  parse_cpu_value value = elim (take_number (trim_space value)) [
    | none ↦ err invalid_value
    | some (number, suffix) ↦ elim (cpu_suffix suffix) [
      | none ↦ err invalid_value
      | some is_milli ↦ elim (parse_float number) [
        | none ↦ err invalid_value
        | some num ↦ ok (to_int64 (if is_milli then num else times num (of_int 1000)))
      ]
    ]
  ]

  unfoldable pub parse_memory_value : List ℕ → Result ℤ
  parse_memory_value value = elim (take_number (trim_space value)) [
    | none ↦ err invalid_value
    | some (number, suffix) ↦ elim (memory_suffix suffix) [
      | none ↦ err invalid_value
      | some multiplier ↦ elim (parse_float number) [
        | none ↦ err invalid_value
        | some num ↦ ok (to_int64 (times num (of_int multiplier)))
      ]
    ]
  ]

  unfoldable pub parse_resource_value : String → String → Result ℤ
  parse_resource_value value resource_type =
      if str_eq resource_type "cpu"
      then parse_cpu_value (trim_space (codes value))
      else if str_eq resource_type "memory"
      then parse_memory_value (trim_space (codes value))
      else err unknown_resource

  -- One case of `validateActionParameters`.
  unfoldable pub check_parameter : String → String → Policy → Option Error
  check_parameter key resource_type policy = elim (lookup key policy.parameters) [
    | none ↦ some missing_parameter
    | some value ↦ elim (parse_resource_value value resource_type) [
      | err e ↦ some e
      | ok limit ↦ none
    ]
  ]

  unfoldable pub validate_action_parameters : Policy → Option Error
  validate_action_parameters policy =
      if str_eq policy.action "set-min-cpu"
      then check_parameter "min-cpu" "cpu" policy
      else if str_eq policy.action "set-max-cpu"
      then check_parameter "max-cpu" "cpu" policy
      else if str_eq policy.action "set-min-memory"
      then check_parameter "min-memory" "memory" policy
      else if str_eq policy.action "set-max-memory"
      then check_parameter "max-memory" "memory" policy
      else none

unfoldable pub is_valid_action : String → Bool
is_valid_action action =
    str_eq action "allow"
    || str_eq action "deny"
    || str_eq action "skip"
    || str_eq action "skip-scaledown"
    || str_eq action "skip-scaleup"
    || str_eq action "set-min-cpu"
    || str_eq action "set-max-cpu"
    || str_eq action "set-min-memory"
    || str_eq action "set-max-memory"
    || str_eq action "require-approval"
