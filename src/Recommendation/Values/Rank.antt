-- ===== src/Recommendation/Values/Rank.antt =====
-- The rank of a percentile, which the code computes in float64, in whole numbers. The products of the
-- number of values and the percentile below 10000 are tried one by one, in blocks.
use intelligent_cluster_opti.Prelude.{
  ℕ, zero, suc, ◌*◌, ◌+◌, ◌-◌, ◌/◌, ◌<◌, ◌≤◌, ◌≡◌, refl, ap, ◌∙◌, subst, Bool, true, ◌&&◌, arith,
  Bool-cases, inl, inr, ltb, ◌==◌, if◌then◌else◌,
}
use intelligent_cluster_opti.Prelude.Int.{ℤ, pos, ◌*ℤ◌, wrap64, wrap64_id, eqb_ℤ, eqb_ℤ_iff}
use intelligent_cluster_opti.Prelude.Float64.{of_ℕ, of_ℤ, constant, add_float, div_float, to_int64}
use intelligent_cluster_opti.Recommendation.Values.{Library, rank_of, clamp_rank}

-- `int(float64(m)/100.0 + 0.5)`
abbrev pub rounded : ℤ → ℕ → ℤ
rounded u m = to_int64 u (add_float (div_float (of_ℤ (pos m)) (of_ℕ 100)) (constant 1 2))

-- The products from `from` on, `k` of them.
all_ranks : ℤ → ℕ → ℕ → Bool
all_ranks u from zero = true
all_ranks u from (suc k) =
    let rest = all_ranks u from k in
    eqb_ℤ (rounded u (from + k)) (pos ((from + k + 50) / 100)) && rest

first : (a b : Bool) → (a && b) ≡ true → a ≡ true
first a b h = ground (arith, h)

second : (a b : Bool) → (a && b) ≡ true → b ≡ true
second a b h = ground (arith, h)

all_ranks-at :
    (u : ℤ) (from k i : ℕ)
    → all_ranks u from k ≡ true
    → i < k
    → rounded u (from + i) ≡ pos ((from + i + 50) / 100)
unfolding all_ranks
all_ranks-at u from zero i h l = absurd (omega (arith, l))
all_ranks-at u from (suc k) i h l = elim (Bool-cases (i == k)) [
  | inl e ↦
      let e' : i ≡ k = ground (arith, e) in
      rw e' (
        (eqb_ℤ_iff (rounded u (from + k)) (pos ((from + k + 50) / 100))).0
          (first (eqb_ℤ (rounded u (from + k)) (pos ((from + k + 50) / 100))) _ h))
  | inr n ↦
      all_ranks-at u from k i
        (second (eqb_ℤ (rounded u (from + k)) (pos ((from + k + 50) / 100))) _ h)
        (ground (arith, n, l))
]

block_0 : (u : ℤ) → all_ranks u 0 2000 ≡ true
unfolding all_ranks of_ℕ of_ℤ constant div_float add_float to_int64
block_0 u = refl

block_1 : (u : ℤ) → all_ranks u 2000 2000 ≡ true
unfolding all_ranks of_ℕ of_ℤ constant div_float add_float to_int64
block_1 u = refl

block_2 : (u : ℤ) → all_ranks u 4000 2000 ≡ true
unfolding all_ranks of_ℕ of_ℤ constant div_float add_float to_int64
block_2 u = refl

block_3 : (u : ℤ) → all_ranks u 6000 2000 ≡ true
unfolding all_ranks of_ℕ of_ℤ constant div_float add_float to_int64
block_3 u = refl

block_4 : (u : ℤ) → all_ranks u 8000 2000 ≡ true
unfolding all_ranks of_ℕ of_ℤ constant div_float add_float to_int64
block_4 u = refl

-- The nearest rank, between 1 and the number of values.
abbrev pub nearest_rank : ℕ → ℕ → ℕ
nearest_rank n percentile =
    let r = (n * percentile + 50) / 100 in if r == 0 then 1 else if ltb n r then n else r

rounded-nearest : (u : ℤ) (m : ℕ) → m < 10000 → rounded u m ≡ pos ((m + 50) / 100)
rounded-nearest u m h = elim (Bool-cases (ltb m 2000)) [
  | inl a ↦ at 0 (block_0 u) (ground (arith, a)) (omega arith)
  | inr a ↦ elim (Bool-cases (ltb m 4000)) [
    | inl b ↦ at 2000 (block_1 u) (ground (arith, b)) (ground (arith, a))
    | inr b ↦ elim (Bool-cases (ltb m 6000)) [
      | inl c ↦ at 4000 (block_2 u) (ground (arith, c)) (ground (arith, b))
      | inr c ↦ elim (Bool-cases (ltb m 8000)) [
        | inl d ↦ at 6000 (block_3 u) (ground (arith, d)) (ground (arith, c))
        | inr d ↦ at 8000 (block_4 u) (omega (arith, h)) (ground (arith, d))
      ]
    ]
  ]
]
  where
    at :
        (from : ℕ)
        → all_ranks u from 2000 ≡ true
        → m < from + 2000
        → from ≤ m
        → rounded u m ≡ pos ((m + 50) / 100)
    at from block above below =
        let split : from + (m - from) ≡ m = omega (arith, below) in
        subst (λ k. rounded u k ≡ pos ((k + 50) / 100)) split
          (all_ranks-at u from 2000 (m - from) block (omega (arith, above, below)))

product : (a b : ℕ) → pos a *ℤ pos b ≡ pos (a * b)
unfolding ◌*ℤ◌
product a b = ground arith

clamp-nearest :
    (n r : ℕ) → 0 < n → clamp_rank n (pos r) ≡ pos (if r == 0 then 1 else if ltb n r then n else r)
clamp-nearest n r h = ground (arith, h)

-- Below the bound, the computed rank is the nearest.
pub rank_of-nearest :
    (lib : Library) (n percentile : ℕ)
    → 0 < n
    → n * percentile < 10000
    → clamp_rank n (rank_of lib n (pos percentile)) ≡ pos (nearest_rank n percentile)
unfolding rank_of
rank_of-nearest lib n percentile p h =
    let e =
      ap wrap64 (product n percentile)
      ∙ wrap64_id (pos (n * percentile)) (omega (arith, h), omega arith) in
    rw (e, rounded-nearest lib.scanner.unrepresentable (n * percentile) h)
      (clamp-nearest n ((n * percentile + 50) / 100) p)
