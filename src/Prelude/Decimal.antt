-- ===== src/Prelude/Decimal.antt =====
-- Numbers as `fmt` writes them with "%d".
use Prim.Native.String.{◌++◌ as str_append}
use intelligent_cluster_opti.Prelude.{
  ℕ, zero, suc, ◌/◌, ◌%◌, String, ◌≡◌, refl, ltb, ◌==◌, if◌then◌else◌,
}
use intelligent_cluster_opti.Prelude.Int.{ℤ, pos, negsuc}

abbrev digit : ℕ → String
digit n =
    if n == 0
    then "0"
    else if n == 1
    then "1"
    else if n == 2
    then "2"
    else if n == 3
    then "3"
    else if n == 4
    then "4"
    else if n == 5
    then "5"
    else if n == 6
    then "6"
    else if n == 7
    then "7"
    else if n == 8
    then "8"
    else "9"

unfoldable decimal_loop : ℕ → ℕ → String
decimal_loop zero n = ""
decimal_loop (suc fuel) n =
    let rest = decimal_loop fuel (n / 10) in
    if ltb n 10 then digit n else str_append rest (digit (n % 10))

-- An `int64` has at most 19 digits.
unfoldable pub decimal : ℕ → String
unfolding decimal_loop
decimal n = decimal_loop 20 n

unfoldable pub format_int : ℤ → String
unfolding decimal
format_int (pos n) = decimal n
format_int (negsuc n) = str_append "-" (decimal (suc n))

writes_digits : format_int (negsuc 1023) ≡ "-1024"
unfolding format_int decimal decimal_loop
writes_digits = refl
