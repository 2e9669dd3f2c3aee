-- ===== src/Prelude/Decimal.antt =====
-- Numbers as text: `to_string` and `str::parse::<usize>`.
use Prim.Native.Char.{code}
use Prim.Native.Nat.{ℕ, zero, suc, ◌+◌, ◌-◌, ◌*◌, ◌/◌, ◌%◌, ◌^◌}
use Prim.Native.String.{String}
use mathlib.Core.Bool.{◌&&◌}
use mathlib.Core.Option.{Option, none, some}
use wire_assume.Prelude.Tests.{ltb, leb, ◌==◌, if◌then◌else◌}
use wire_assume.Prelude.Text.{◌++ₛ◌}

digit : ℕ → String
digit n =
    if n == 0
    then "0"
    else if n == 1
    then "1"
    else if n == 2
    then "2"
    else if n == 3
    then "3"
    else if n == 4
    then "4"
    else if n == 5
    then "5"
    else if n == 6
    then "6"
    else if n == 7
    then "7"
    else if n == 8
    then "8"
    else "9"

-- The digits of `n` before `after`; each round leaves a smaller number, so `n` rounds and one are enough.
decimal : ℕ → ℕ → String → String
unfolding digit
decimal zero n after = after
decimal (suc fuel) n after =
    let text = digit (n % 10) ++ₛ after in
    let more = decimal fuel (n / 10) text in if ltb n 10 then text else more

unfoldable pub to_decimal : ℕ → String
unfolding decimal
to_decimal n = decimal (suc n) n ""

-- The value of the digits that are left, after those that make `n`.
digits_value : String → ℕ → Option ℕ
digits_value String.[] n = some n
digits_value (String.◌∷◌ c s) n =
    let rest = digits_value s (n * 10 + (code c - 48)) in
    if leb 48 (code c) && leb (code c) 57 then rest else none

in_range : Option ℕ → Option ℕ
in_range none = none
in_range (some n) = if ltb n (2 ^ 64) then some n else none

number_of : String → Option ℕ
unfolding digits_value in_range
number_of String.[] = none
number_of (String.◌∷◌ c s) = in_range (digits_value (String.◌∷◌ c s) 0)

-- A `+` may stand first, and a number that does not fit in 64 bits is refused.
unfoldable pub parse_usize : String → Option ℕ
unfolding number_of
parse_usize String.[] = none
parse_usize (String.◌∷◌ c s) = if code c == 43 then number_of s else number_of (String.◌∷◌ c s)
