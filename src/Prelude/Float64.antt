-- ===== src/Prelude/Float64.antt =====
-- `float64`: comparisons, constants, conversions and exact arithmetic, a tie rounded to even and no
-- operations fused. A finite value is a whole number of the smallest unit, 2 ^ -1074; the two zeros,
-- which no comparison tells apart, are one, and a division by it takes it for the positive one. No
-- comparison with NaN is true.
use intelligent_cluster_opti.Prelude.{
  ℕ, zero, suc, ◌+◌, ◌-◌, ◌*◌, ◌/◌, ◌%◌, ◌^◌, Bool, true, false, not, ◌&&◌, ◌||◌, ◌≡◌, refl, ltb,
  leb, ◌==◌, if◌then◌else◌,
}
use intelligent_cluster_opti.Prelude.Int.{ℤ, pos, negsuc, sub_ℕ, ◌+ℤ◌, ltb_ℤ, eqb_ℤ}

pub data Float64 : Type 0 where
  finite : ℤ → Float64
  infinity negative_infinity nan : Float64

-- `a < b`
abbrev pub ltb_float : Float64 → Float64 → Bool
ltb_float nan b = false
ltb_float (finite a) nan = false
ltb_float (finite a) (finite b) = ltb_ℤ a b
ltb_float (finite a) infinity = true
ltb_float (finite a) negative_infinity = false
ltb_float infinity b = false
ltb_float negative_infinity nan = false
ltb_float negative_infinity negative_infinity = false
ltb_float negative_infinity (finite b) = true
ltb_float negative_infinity infinity = true

-- `a == b`
abbrev pub eqb_float : Float64 → Float64 → Bool
eqb_float (finite a) (finite b) = eqb_ℤ a b
eqb_float infinity infinity = true
eqb_float negative_infinity negative_infinity = true
eqb_float _ _ = false

-- The constant of a whole number, and that of `mantissa * 2 ^ -52`, as a decimal constant is rounded.
unfoldable pub of_ℕ : ℕ → Float64
of_ℕ n = finite (pos (n * 2 ^ 1074))

unfoldable pub of_mantissa : ℕ → Float64
of_mantissa mantissa = finite (pos (mantissa * 2 ^ 1022))

-- The functions of the standard library on `float64`: `math.Log`, `math.Sqrt`, and
-- `time.Duration.Hours`.
pub record Numerics : Type 0 where
  pub log : Float64 → Float64
  pub sqrt : Float64 → Float64
  pub hours : ℤ → Float64

-- The number of binary digits of a number below 2 ^ (2 ^ k).
unfoldable digits : ℕ → ℕ → ℕ
digits zero n = if n == 0 then 0 else 1
digits (suc k) n =
    let high = n / 2 ^ (2 ^ k) in
    let rest = digits k (if high == 0 then n else high) in if high == 0 then rest else 2 ^ k + rest

-- The quotient `n / d` in 53 digits, a tie to the even one. A quotient here is below 2 ^ 8192.
unfoldable pub round_ratio : ℕ → ℕ → ℕ
unfolding digits
round_ratio n d =
    let unit = 2 ^ (digits 13 (n / d) - 53) in
    let q = n / (d * unit) in
    let r = n % (d * unit) in
    if ltb (d * unit) (2 * r) || ((2 * r == d * unit) && (q % 2 == 1))
    then suc q * unit
    else q * unit

-- A magnitude in 53 digits.
unfoldable round : ℕ → ℕ
unfolding round_ratio
round n = round_ratio n 1

-- `k * f` for a constant `k` between 1 and 2 ^ 100.
unfoldable pub scale_float : ℕ → Float64 → Float64
unfolding round
scale_float k (finite (pos n)) =
    let m = round (k * n) in if ltb m (2 ^ 2098) then finite (pos m) else infinity
scale_float k (finite (negsuc n)) =
    let m = round (k * suc n) in
    if ltb m (2 ^ 2098) then finite (negsuc (m - 1)) else negative_infinity
scale_float k f = f

-- `int64(f)`, towards zero. What a value out of range gives is the implementation's.
unfoldable pub to_int64 : ℤ → Float64 → ℤ
to_int64 unrepresentable (finite (pos n)) =
    let m = n / 2 ^ 1074 in if ltb m (2 ^ 63) then pos m else unrepresentable
to_int64 unrepresentable (finite (negsuc n)) =
    let m = suc n / 2 ^ 1074 in
    if m == 0 then pos 0 else if leb m (2 ^ 63) then negsuc (m - 1) else unrepresentable
to_int64 unrepresentable f = unrepresentable

-- A rounded magnitude with its sign.
unfoldable signed : Bool → ℕ → Float64
signed negative m =
    if ltb m (2 ^ 2098)
    then finite (if negative then sub_ℕ 0 m else pos m)
    else if negative
    then negative_infinity
    else infinity

abbrev is_negative : ℤ → Bool
is_negative (pos n) = false
is_negative (negsuc n) = true

abbrev magnitude : ℤ → ℕ
magnitude (pos n) = n
magnitude (negsuc n) = suc n

abbrev differ : Bool → Bool → Bool
differ true b = not b
differ false b = b

-- An infinity times or over a number with the sign of `a`.
abbrev infinite : Bool → ℤ → Float64
infinite negative a = if differ negative (is_negative a) then negative_infinity else infinity

-- `float64(a)` of an integer.
unfoldable pub of_ℤ : ℤ → Float64
unfolding round signed
of_ℤ a = signed (is_negative a) (round (magnitude a * 2 ^ 1074))

-- `-f`
unfoldable pub negate : Float64 → Float64
negate (finite (pos n)) = finite (sub_ℕ 0 n)
negate (finite (negsuc n)) = finite (pos (suc n))
negate infinity = negative_infinity
negate negative_infinity = infinity
negate nan = nan

-- `a + b`
unfoldable pub add_float : Float64 → Float64 → Float64
unfolding round signed ◌+ℤ◌
add_float (finite a) (finite b) =
    let sum = a +ℤ b in signed (is_negative sum) (round (magnitude sum))
add_float nan b = nan
add_float infinity negative_infinity = nan
add_float infinity nan = nan
add_float infinity b = infinity
add_float negative_infinity infinity = nan
add_float negative_infinity nan = nan
add_float negative_infinity b = negative_infinity
add_float (finite a) b = b

-- `a - b`
unfoldable pub sub_float : Float64 → Float64 → Float64
unfolding add_float negate
sub_float a b = add_float a (negate b)

-- `a * b`
unfoldable pub mul_float : Float64 → Float64 → Float64
unfolding round_ratio signed
mul_float (finite a) (finite b) =
    signed (differ (is_negative a) (is_negative b))
      (round_ratio (magnitude a * magnitude b) (2 ^ 1074))
mul_float nan b = nan
mul_float infinity infinity = infinity
mul_float infinity negative_infinity = negative_infinity
mul_float infinity nan = nan
mul_float infinity (finite b) = if magnitude b == 0 then nan else infinite false b
mul_float negative_infinity infinity = negative_infinity
mul_float negative_infinity negative_infinity = infinity
mul_float negative_infinity nan = nan
mul_float negative_infinity (finite b) = if magnitude b == 0 then nan else infinite true b
mul_float (finite a) infinity = if magnitude a == 0 then nan else infinite false a
mul_float (finite a) negative_infinity = if magnitude a == 0 then nan else infinite true a
mul_float (finite a) nan = nan

-- `a / b`
unfoldable pub div_float : Float64 → Float64 → Float64
unfolding round_ratio signed
div_float (finite a) (finite b) =
    if magnitude b == 0
    then (if magnitude a == 0 then nan else infinite false a)
    else signed (differ (is_negative a) (is_negative b))
        (round_ratio (magnitude a * 2 ^ 1074) (magnitude b))
div_float nan b = nan
div_float infinity (finite b) = infinite false b
div_float infinity b = nan
div_float negative_infinity (finite b) = infinite true b
div_float negative_infinity b = nan
div_float (finite a) nan = nan
div_float (finite a) b = finite (pos 0)

-- The decimal constant `n / d`, where both have at most 53 digits.
unfoldable pub constant : ℕ → ℕ → Float64
unfolding of_ℕ div_float
constant n d = div_float (of_ℕ n) (of_ℕ d)

-- `a <= b`
abbrev pub leb_float : Float64 → Float64 → Bool
leb_float a b = ltb_float a b || eqb_float a b

-- `math.Abs`
unfoldable pub abs_float : Float64 → Float64
abs_float (finite a) = finite (pos (magnitude a))
abs_float negative_infinity = infinity
abs_float f = f

-- 1.4 * 1000 is rounded to 1400.
thousandfold : to_int64 (pos 0) (scale_float 1000 (of_mantissa 6305039478318694)) ≡ pos 1400
unfolding of_mantissa scale_float to_int64
thousandfold = refl

-- A tenth and two tenths make more than three tenths.
tenths :
    ltb_float
      (div_float (of_ℕ 3) (of_ℕ 10))
      (add_float (div_float (of_ℕ 1) (of_ℕ 10)) (div_float (of_ℕ 2) (of_ℕ 10)))
    ≡ true
unfolding of_ℕ div_float add_float
tenths = refl

-- A third times -3 is -1.
thirds : mul_float (div_float (of_ℕ 1) (of_ℕ 3)) (of_ℤ (negsuc 2)) ≡ of_ℤ (negsuc 0)
unfolding of_ℕ of_ℤ div_float mul_float
thirds = refl
