-- ===== src/Discovery/Records.antt =====
-- `_is_active`, `_endpoint_path`, `_endpoint_name` and `_protocol_reliability` of src/oathcast/discovery.py.
use oathcast.Prelude.{
  String, ℕ, List, Option, ◌∷◌, Bool, if◌then◌else◌, [], one_of, eqb, false, ◌==◌, ◌&&◌, ◌||◌, some,
  none,
}
use oathcast.Json.{
  Value, Host, Fields, Items, object, null, boolean, get_or, cons, str, text, nil, real, array,
}
use oathcast.Json.Numbers.{truthy, to_float}
use oathcast.Prelude.Int.{ℤ, pos, leb_ℤ}
use oathcast.Prelude.Exec.{Result, err, ok}
use Prim.Native.Char.{code}

-- The ValueErrors that a record ends in, and the one about the response as a whole.
pub data RecordError : Type 0 where
  reliability_out_of_range price_malformed no_records : RecordError

abbrev active_words : List String
active_words = "active" ∷ "online" ∷ "healthy" ∷ "ready" ∷ []

-- `None` falls back.
abbrev pub unless_null : Value → Value → Value
unless_null null d = d
unless_null v d = v

abbrev pub says_active : Host → Value → Bool
says_active h (boolean b) = b
says_active h v = one_of (h.lower (h.strip (str h v))) active_words

-- `_is_active`
unfoldable pub is_active : Host → Fields → Bool
is_active h data_ = says_active h (
    unless_null (get_or "active" null data_)
      (get_or "activation_status" (get_or "status" (text "active") data_) data_))

-- `[endpoints] if isinstance(endpoints, dict)`, and nothing of what is no list
abbrev pub endpoint_items : Value → Items
endpoint_items (object fs) = cons (object fs) nil
endpoint_items (array vs) = vs
endpoint_items v = nil

abbrev path_of : Value → Value
path_of (object fs) = get_or "path" null fs
path_of v = null

unfoldable pub paths : Host → Items → List String
paths h nil = []
paths h (cons v vs) =
    let rest = paths h vs in if truthy (path_of v) then str h (path_of v) ∷ rest else rest

abbrev preferred_paths : List String
preferred_paths = "/predict" ∷ "/forecast" ∷ "/weather" ∷ "/current" ∷ []

abbrev first_path : List String → String
first_path [] = "/v1/forecast/point"
first_path (p ∷ ps) = p

abbrev pub preferred : List String → List String → String
preferred [] ps = first_path ps
preferred (q ∷ qs) ps = if one_of q ps then q else preferred qs ps

-- `_endpoint_path`
unfoldable pub endpoint_path : Host → Fields → String
unfolding paths truthy
endpoint_path h data_ =
    if truthy (get_or "endpoint_path" null data_)
    then str h (get_or "endpoint_path" null data_)
    else preferred preferred_paths (paths h (endpoint_items (get_or "endpoints" (array nil) data_)))

-- `s.lstrip("/")`
abbrev pub without_leading_slashes : String → String
without_leading_slashes String.[] = String.[]
without_leading_slashes (String.◌∷◌ c s) =
    if eqb (code c) 47 then without_leading_slashes s else String.◌∷◌ c s

-- `s.rstrip("/")`
abbrev pub without_trailing_slashes : String → String
without_trailing_slashes String.[] = String.[]
without_trailing_slashes (String.◌∷◌ c s) =
    let rest = without_trailing_slashes s in
    if eqb (code c) 47 && rest == "" then String.[] else String.◌∷◌ c rest

-- `"/" in s`, for a code point in place of the slash
abbrev pub has_code : ℕ → String → Bool
has_code n String.[] = false
has_code n (String.◌∷◌ c s) = eqb (code c) n || has_code n s

-- `s.rsplit("/", 1)[-1]`
abbrev pub last_segment : String → String
last_segment String.[] = String.[]
last_segment (String.◌∷◌ c s) =
    let rest = last_segment s in
    if has_code 47 s then rest else if eqb (code c) 47 then s else String.◌∷◌ c s

-- `s or "predict"`
abbrev or_predict : String → String
or_predict s = if s == "" then "predict" else s

-- `_endpoint_name`
unfoldable pub endpoint_name : Host → Fields → String → String
unfolding truthy
endpoint_name h data_ path =
    let explicit = get_or "endpoint_name" (get_or "endpoint" null data_) data_ in
    if truthy explicit
    then without_leading_slashes (str h explicit)
    else or_predict (last_segment (without_trailing_slashes path))

abbrev pub unit_or_error : Option ℤ → Result RecordError ℤ
unit_or_error none = err reliability_out_of_range
unit_or_error (some r) =
    if leb_ℤ (pos 0) r && leb_ℤ r (pos 1000000) then ok r else err reliability_out_of_range

-- `_protocol_reliability`, in millionths
unfoldable pub protocol_reliability : Host → Fields → Result RecordError ℤ
unfolding to_float
protocol_reliability h data_ = unit_or_error (
    to_float h (
      unless_null (get_or "avg_score" null data_)
        (get_or "historical_reliability" (real (pos 500000)) data_)))
