-- ===== src/Json/Numbers.antt =====
-- What the sources do with values that may be numbers: the truth of a value, `a or b`, `float`, and
-- `int(round(x * scale))`. A float is an integer number of millionths.
use oathcast.Prelude.{
  ℕ, suc, ◌+◌, ◌*◌, ◌/◌, ◌%◌, ◌==◌, Bool, true, false, not, Option, none, some, ltb, eqb,
  if◌then◌else◌, zero,
}
use oathcast.Prelude.Int.{ℤ, pos, negsuc}
use oathcast.Json.{
  Value, Host, null, boolean, number, real, text, array, object, nil, cons, end, field,
}

is_zero : ℤ → Bool
is_zero (pos n) = eqb n 0
is_zero (negsuc n) = false

-- `bool(value)`
unfoldable pub truthy : Value → Bool
unfolding is_zero
truthy null = false
truthy (boolean b) = b
truthy (number n) = not (is_zero n)
truthy (real r) = not (is_zero r)
truthy (text s) = not (s == "")
truthy (array nil) = false
truthy (array (cons v vs)) = true
truthy (object end) = false
truthy (object (field k v fs)) = true

-- `a or b`
abbrev pub or_value : Value → Value → Value
or_value a b = if truthy a then a else b

millions : ℤ → ℤ
millions (pos n) = pos (1000000 * n)
millions (negsuc n) = negsuc (1000000 * n + 999999)

-- `float(value)`; `none` is the TypeError or the ValueError.
unfoldable pub to_float : Host → Value → Option ℤ
unfolding millions
to_float h null = none
to_float h (boolean b) = some (pos (if b then 1000000 else 0))
to_float h (number n) = some (millions n)
to_float h (real r) = some r
to_float h (text s) = h.parse_float s
to_float h (array vs) = none
to_float h (object fs) = none

-- `round(n / d)`, a tie to the even neighbour
unfoldable pub round_div : ℕ → ℕ → ℕ
round_div n d =
    let q = n / d in
    if ltb (2 * (n % d)) d
    then q
    else if ltb d (2 * (n % d))
    then q + 1
    else if eqb (q % 2) 0
    then q
    else q + 1

minus : ℕ → ℤ
minus zero = pos 0
minus (suc n) = negsuc n

-- `int(round(n / d))`
unfoldable pub round_div_ℤ : ℤ → ℕ → ℤ
unfolding round_div minus
round_div_ℤ (pos n) d = pos (round_div n d)
round_div_ℤ (negsuc n) d = minus (round_div (suc n) d)

-- `int(value)`; `none` is the TypeError or the ValueError. A float is cut towards zero.
unfoldable pub to_int : Host → Value → Option ℤ
unfolding minus
to_int h null = none
to_int h (boolean b) = some (pos (if b then 1 else 0))
to_int h (number n) = some n
to_int h (real (pos n)) = some (pos (n / 1000000))
to_int h (real (negsuc n)) = some (minus (suc n / 1000000))
to_int h (text s) = h.parse_int s
to_int h (array vs) = none
to_int h (object fs) = none
