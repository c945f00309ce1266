-- ===== src/Recommendation/Values.antt =====
-- pkg/recommendation/engine.go: percentiles, thresholds and quantities. What the code takes from the
-- standard library is the record `Library`.
pub mod Bounds
pub mod Percentile
pub mod Rank
use Prim.Native.String.{◌++◌ as str_append}
use intelligent_cluster_opti.Prelude.{
  ℕ, ◌-◌, String, Bool, true, false, not, ◌&&◌, Option, none, some, List, [], ◌∷◌, if◌then◌else◌,
  str_eq, length, get_elem?,
}
use intelligent_cluster_opti.Prelude.Int.{ℤ, pos, negsuc, ◌-ℤ◌, ◌*ℤ◌, ltb_ℤ, wrap64}
use intelligent_cluster_opti.Prelude.Float64.{
  Float64, Numerics, of_ℕ, of_ℤ, constant, add_float, div_float, scale_float, to_int64,
}
use intelligent_cluster_opti.Prelude.Dict.{Dict}
use intelligent_cluster_opti.Prelude.Sort.{SortSlice}
use intelligent_cluster_opti.Api.{ResourceLimit, ResourceThresholds}
use intelligent_cluster_opti.Profile.Resolver.{Scanner, or_else}

pub record Library : Type 1 where
  pub numerics : Numerics
  pub scanner : Scanner
  pub sorting : SortSlice
  -- The order in which a `range` over a map visits the entries. Each `range` of a run has its own, which
  -- is told by how many namespaces are left and by the names of what it is about.
  pub visit : {V : Type 0} → ℕ × List String → Dict V → Dict V

-- From 1 to `n`, in this order of the tests.
abbrev pub clamp_rank : ℕ → ℤ → ℤ
clamp_rank n rank =
    let low = if ltb_ℤ rank (pos 1) then pos 1 else rank in if ltb_ℤ (pos n) low then pos n else low

-- `xs[i]`, where none is the panic of an index out of range.
unfoldable pub at_index : List ℤ → ℤ → Option ℤ
at_index xs (pos i) = get_elem? xs i
at_index xs (negsuc i) = none

-- The comparison of the sort.
unfoldable pub less_value : ℤ → ℤ → Bool
less_value a b = ltb_ℤ a b

-- The orders in which the parsing of a minimum and that of a maximum visit their suffixes.
pub record SuffixOrders : Type 0 where
  pub for_min : Dict ℕ → Dict ℕ
  pub for_max : Dict ℕ → Dict ℕ

module _ (lib : Library) where
  open lib use {scanner, sorting}
  open scanner use {scan_int, scan_float, unrepresentable}

  -- `int(float64(n*percentile)/100.0 + 0.5)`
  unfoldable pub rank_of : ℕ → ℤ → ℤ
  rank_of n percentile =
      to_int64 unrepresentable
        (add_float (div_float (of_ℤ (wrap64 (pos n *ℤ percentile))) (of_ℕ 100)) (constant 1 2))

  -- None is a panic.
  unfoldable pub calculate_percentile : List ℤ → ℤ → Option ℤ
  unfolding rank_of at_index less_value
  calculate_percentile [] percentile = some (pos 0)
  calculate_percentile (v ∷ values) percentile =
      let sorted = sorting.sort_slice less_value (v ∷ values) in
      let n = length sorted in at_index sorted (clamp_rank n (rank_of n percentile) -ℤ pos 1)

  unfoldable pub parse_cpu_to_millicores : String → ℤ
  parse_cpu_to_millicores cpu = if str_eq cpu "" then pos 0 else elim (scan_int cpu "%dm") [
    | some value ↦ value
    | none ↦ elim (scan_int cpu "%d") [
      | some value ↦ wrap64 (value *ℤ pos 1000)
      | none ↦ elim (scan_float cpu) [
        | some value ↦ to_int64 unrepresentable (scale_float 1000 value)
        | none ↦ pos 0
      ]
    ]
  ]

  abbrev pub suffixes : Dict ℕ
  suffixes =
      ("Ki", 1024)
      ∷ ("Mi", 1048576)
      ∷ ("Gi", 1073741824)
      ∷ ("Ti", 1099511627776)
      ∷ ("K", 1000)
      ∷ ("M", 1000000)
      ∷ ("G", 1000000000)
      ∷ ("T", 1000000000000)
      ∷ []

  -- The first suffix that the text is read with.
  pub suffixes_loop : String → Dict ℕ → Option ℤ
  suffixes_loop memory [] = none
  suffixes_loop memory ((suffix, multiplier) ∷ rest) =
      elim (scan_int memory (str_append "%d" suffix)) [
        | some value ↦ some (wrap64 (value *ℤ pos multiplier))
        | none ↦ suffixes_loop memory rest
      ]

  -- `order` is the one in which this call visits the suffixes.
  unfoldable pub parse_memory_to_bytes : (Dict ℕ → Dict ℕ) → String → ℤ
  unfolding suffixes_loop
  parse_memory_to_bytes order memory =
      if str_eq memory "" then pos 0 else elim (suffixes_loop memory (order suffixes)) [
        | some value ↦ value
        | none ↦ or_else (scan_int memory "%d") (pos 0)
      ]

  -- The lowest and the highest value of a limit, where 0 is none.
  abbrev pub limits : (String → ℤ) → (String → ℤ) → Option ResourceLimit → ℤ × ℤ
  limits parse_min parse_max none = (pos 0, pos 0)
  limits parse_min parse_max (some limit) = (parse_min limit.min, parse_max limit.max)

  abbrev pub limits_of : SuffixOrders → ResourceThresholds → String → ℤ × ℤ
  limits_of orders thresholds resource_type =
      if str_eq resource_type "cpu"
      then limits parse_cpu_to_millicores parse_cpu_to_millicores thresholds.cpu
      else if str_eq resource_type "memory"
      then limits (parse_memory_to_bytes orders.for_min) (parse_memory_to_bytes orders.for_max)
          thresholds.memory
      else (pos 0, pos 0)

  unfoldable pub apply_thresholds : SuffixOrders → ℤ → Option ResourceThresholds → String → ℤ
  unfolding parse_cpu_to_millicores parse_memory_to_bytes
  apply_thresholds orders value none resource_type = value
  apply_thresholds orders value (some thresholds) resource_type =
      let (min_val, max_val) = limits_of orders thresholds resource_type in
      if ltb_ℤ (pos 0) min_val && ltb_ℤ value min_val
      then min_val
      else if ltb_ℤ (pos 0) max_val && ltb_ℤ max_val value
      then max_val
      else value
