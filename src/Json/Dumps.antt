-- ===== src/Json/Dumps.antt =====
-- `json.dumps` with sorted keys and no spaces. Every character outside the printable ASCII range is
-- escaped, as `ensure_ascii` has it, above U+FFFF by two surrogates; `dumps_raw` is the form with
-- `ensure_ascii=False` of application_payment.py.
use Prim.Native.Nat.{Ordering}
use Prim.Native.Char.{Char, code}
use Prim.Native.String.{◌++◌, compare}
use oathcast.Prelude.{
  ℕ, zero, suc, ◌+◌, ◌-◌, ◌/◌, ◌%◌, String, Bool, true, false, List, [], ◌∷◌, not, ◌&&◌, ltb, leb,
  eqb, if◌then◌else◌,
}
use oathcast.Prelude.Int.{ℤ, pos, negsuc}
use oathcast.Json.{
  Value, Items, Fields, Host, null, boolean, number, real, text, array, object, nil, cons, end,
  field,
}

-- One hexadecimal digit.
hex_digit : ℕ → String
hex_digit n =
    if eqb n 0
    then "0"
    else if eqb n 1
    then "1"
    else if eqb n 2
    then "2"
    else if eqb n 3
    then "3"
    else if eqb n 4
    then "4"
    else if eqb n 5
    then "5"
    else if eqb n 6
    then "6"
    else if eqb n 7
    then "7"
    else if eqb n 8
    then "8"
    else if eqb n 9
    then "9"
    else if eqb n 10
    then "a"
    else if eqb n 11
    then "b"
    else if eqb n 12
    then "c"
    else if eqb n 13
    then "d"
    else if eqb n 14
    then "e"
    else "f"

-- Decimal digits; `n + 1` rounds are enough, since each round divides by ten.
decimal_from : ℕ → ℕ → String
unfolding hex_digit
decimal_from zero n = ""
decimal_from (suc fuel) n =
    let more = decimal_from fuel (n / 10) ++ hex_digit (n % 10) in
    if ltb n 10 then hex_digit n else more

unfoldable pub decimal : ℕ → String
unfolding decimal_from
decimal n = decimal_from (suc n) n

-- `str` of an int
unfoldable pub int_text : ℤ → String
unfolding decimal
int_text (pos n) = decimal n
int_text (negsuc n) = "-" ++ decimal (suc n)

unicode_escape : ℕ → String
unfolding hex_digit
unicode_escape n =
    "\\u"
    ++ hex_digit (n / 4096 % 16)
    ++ hex_digit (n / 256 % 16)
    ++ hex_digit (n / 16 % 16)
    ++ hex_digit (n % 16)

escape_code : ℕ → String
unfolding unicode_escape
escape_code n =
    if eqb n 34
    then "\\\""
    else if eqb n 92
    then "\\\\"
    else if eqb n 10
    then "\\n"
    else if eqb n 13
    then "\\r"
    else if eqb n 9
    then "\\t"
    else if eqb n 8
    then "\\b"
    else if eqb n 12
    then "\\f"
    else if ltb n 65536
    then unicode_escape n
    else unicode_escape (55296 + (n - 65536) / 1024) ++ unicode_escape (56320 + (n - 65536) % 1024)

-- The characters that stand for themselves: printable ASCII but the quote and the backslash.
is_plain : ℕ → Bool
is_plain n = leb 32 n && leb n 126 && not (eqb n 34) && not (eqb n 92)

escape_char : Char → String
unfolding is_plain escape_code
escape_char c = if is_plain (code c) then String.◌∷◌ c String.[] else escape_code (code c)

escape : String → String
unfolding escape_char
escape String.[] = ""
escape (String.◌∷◌ c s) = escape_char c ++ escape s

quoted : String → String
unfolding escape
quoted s = "\"" ++ escape s ++ "\""

-- Insertion by key, in the order of code points.
insert_key : String → String → List (String × String) → List (String × String)
insert_key k v [] = (k, v) ∷ []
insert_key k v ((j, w) ∷ r) =
    let rest = insert_key k v r in
    elim (compare k j) [ Ordering.gt ↦ (j, w) ∷ rest | _ ↦ (k, v) ∷ (j, w) ∷ r ]

join : List String → String
join [] = ""
join (s ∷ []) = s
join (s ∷ t ∷ r) = s ++ "," ++ join (t ∷ r)

members : (String → String) → List (String × String) → List String
members quote [] = []
members quote ((k, v) ∷ r) = (quote k ++ ":" ++ v) ∷ members quote r

-- A text as `ensure_ascii=False` writes it: only the quote, the backslash and what is below the space
-- are escaped.
is_kept : ℕ → Bool
is_kept n = leb 32 n && not (eqb n 34) && not (eqb n 92)

keep_char : Char → String
unfolding is_kept escape_code
keep_char c = if is_kept (code c) then String.◌∷◌ c String.[] else escape_code (code c)

keep : String → String
unfolding keep_char
keep String.[] = ""
keep (String.◌∷◌ c s) = keep_char c ++ keep s

quoted_raw : String → String
unfolding keep
quoted_raw s = "\"" ++ keep s ++ "\""

unfoldable mutual
  unfolding int_text insert_key join members

  pub written : (String → String) → Host → Value → String
  written quote h null = "null"
  written quote h (boolean true) = "true"
  written quote h (boolean false) = "false"
  written quote h (number n) = int_text n
  written quote h (real r) = h.float_repr r
  written quote h (text s) = quote s
  written quote h (array xs) = "[" ++ join (written_items quote h xs) ++ "]"
  written quote h (object fs) = "{" ++ join (members quote (written_fields quote h fs)) ++ "}"

  pub written_items : (String → String) → Host → Items → List String
  written_items quote h nil = []
  written_items quote h (cons v vs) = written quote h v ∷ written_items quote h vs

  pub written_fields : (String → String) → Host → Fields → List (String × String)
  written_fields quote h end = []
  written_fields quote h (field k v fs) =
      insert_key k (written quote h v) (written_fields quote h fs)

unfoldable pub dumps : Host → Value → String
unfolding quoted written
dumps h v = written quoted h v

-- `json.dumps` with `ensure_ascii=False`
unfoldable pub dumps_raw : Host → Value → String
unfolding quoted_raw written
dumps_raw h v = written quoted_raw h v

-- `_sha256_json`
unfoldable pub sha256_json : Host → Value → String
unfolding dumps
sha256_json h v = h.sha256 (dumps h v)
