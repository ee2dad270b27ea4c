-- ===== src/Json.antt =====
-- The values of `json.loads` and what the sources do with them: `dict.get`, `isinstance`, and
-- `json.dumps(value, sort_keys=True, separators=(",", ":"))`, the `_canonical_json` of payment.py,
-- cases.py, demand.py and protocol.py. A float is an integer number of millionths; how a float
-- prints, and the digest function, are parameters (`Host`).
pub mod Dumps
pub mod Numbers
pub mod TestHost
mod Tests
use oathcast.Prelude.{
  ℕ, String, Bool, true, false, Option, none, some, List, [], ◌∷◌, ◌==◌, if◌then◌else◌,
}
use oathcast.Prelude.Int.{ℤ}
use oathcast.Prelude.Moment.{Moment}

mutual
  pub data Value : Type 0 where
    null : Value
    boolean : Bool → Value
    number : ℤ → Value
    real : ℤ → Value
    text : String → Value
    array : Items → Value
    object : Fields → Value

  pub data Items : Type 0 where
    nil : Items
    cons : Value → Items → Items

  pub data Fields : Type 0 where
    end : Fields
    field : String → Value → Fields → Fields

-- What the sources take from outside: hashlib's `sha256(text.encode("utf-8")).hexdigest()`, and what
-- the interpreter does by its own tables: `repr` of a float, `str` of a value that is no text, `lower`,
-- `strip`, `isdigit`, `int`, `float` and `datetime.fromisoformat` of a text (a `none` is the
-- ValueError; a float is in millionths), base64 and JSON decoding, and how deep a recursion of the
-- source may go.
pub record Host : Type 0 where
  pub sha256 : String → String
  pub float_repr : ℤ → String
  pub repr : Value → String
  pub lower : String → String
  pub strip : String → String
  pub is_digit : String → Bool
  pub parse_int : String → Option ℤ
  pub parse_float : String → Option ℤ
  pub parse_iso : String → Option Moment
  pub b64_json : String → Option Value
  pub json_loads : String → Option Value
  pub recursion_limit : ℕ

-- `d.get(key)`; a dict holds a key once.
abbrev pub get : String → Fields → Option Value
get k end = none
get k (field j v fs) = if j == k then some v else get k fs

-- `d.get(key, default)`
abbrev pub get_or : String → Value → Fields → Value
get_or k d fs = elim (get k fs) [ none ↦ d | some v ↦ v ]

-- `key in d`
abbrev pub contains : String → Fields → Bool
contains k fs = elim (get k fs) [ none ↦ false | some v ↦ true ]

-- `{key: v for key, v in d.items() if key != k}`
abbrev pub without : String → Fields → Fields
without k end = end
without k (field j v fs) = if j == k then without k fs else field j v (without k fs)

abbrev pub as_text : Value → Option String
as_text (text s) = some s
as_text _ = none

abbrev pub as_object : Value → Option Fields
as_object (object fs) = some fs
as_object _ = none

abbrev pub items : Items → List Value
items nil = []
items (cons v vs) = v ∷ items vs

abbrev pub of_list : List Value → Items
of_list [] = nil
of_list (v ∷ vs) = cons v (of_list vs)

abbrev pub of_pairs : List (String × Value) → Fields
of_pairs [] = end
of_pairs ((k, v) ∷ r) = field k v (of_pairs r)

-- `None` or a text, as a JSON value.
abbrev pub opt_text : Option String → Value
opt_text none = null
opt_text (some s) = text s

-- `str(value)`
abbrev pub str : Host → Value → String
str h (text s) = s
str h v = h.repr v
