-- ===== src/Probability/Extract.antt =====
-- `normalize_probability_value`, `_content` and `extract_probability` of src/oathcast/probability.py. The
-- recursion goes as deep as the interpreter lets it, and then raises RecursionError; `json.dumps` is taken
-- to have no limit of its own, and an integer that is too large for float() is read as out of range.
use oathcast.Prelude.{
  ℕ, zero, suc, ◌*◌, String, ◌==◌, false, not, ◌&&◌, Option, none, some, List, [], ◌∷◌, ◌++◌, leb,
  one_of, map, if◌then◌else◌,
}
use oathcast.Prelude.Int.{pos}
use oathcast.Json.{
  Value, Fields, Host, null, boolean, number, real, text, array, object, get_or, items, str,
  as_object,
}
use oathcast.Json.Dumps.{dumps}
use oathcast.Sidecar.Text.{codes}
use oathcast.Probability.Percent.{whole, search_from, unit_of, Percentage}

abbrev pub probability_keys : List String
probability_keys =
    "probability" ∷ "precipitation_probability" ∷ "probability_of_precipitation"
    ∷ "rain_probability" ∷ "probability_of_rain" ∷ "pop" ∷ []

abbrev pub percent_probability_keys : List String
percent_probability_keys =
    "chance_of_rain" ∷ "rain_chance" ∷ "precipitation_chance" ∷ "precipitation_probability_percent"
    ∷ "rain_probability_percent" ∷ []

-- A number no less than zero, in millionths.
abbrev pub amount : Value → Option ℕ
amount (number (pos n)) = some (1000000 * n)
amount (real (pos n)) = some n
amount _ = none

abbrev pub normalized : String → ℕ → Option ℕ
normalized key p =
    if one_of key percent_probability_keys
    then if leb p whole then some p else none
    else if not (one_of key probability_keys)
    then none
    else if leb p 1000000
    then some (100 * p)
    else if not (key == "probability") && leb p whole
    then some p
    else none

-- `normalize_probability_value`; a number below zero has no probability under any key.
unfoldable pub normalize_probability_value : Value → String → Option ℕ
normalize_probability_value v key = elim (amount v) [ none ↦ none | some p ↦ normalized key p ]

abbrev first_of : List Value → Value
first_of [] = null
first_of (v ∷ vs) = v

abbrev content_text : Value → Option String
content_text (object fs) = elim (get_or "content" null fs) [ text s ↦ some s | _ ↦ none ]
content_text _ = none

-- The content of the first choice's message.
abbrev choice_text : Value → Option String
choice_text (array vs) = elim (first_of (items vs)) [
  | object choice ↦ content_text (get_or "message" null choice)
  | _ ↦ none
]
choice_text _ = none

abbrev or_else : {A : Type 0} → Option A → Option A → Option A
or_else none b = b
or_else (some a) b = some a

abbrev or_dumps : Host → Fields → Option String → String
or_dumps h fs none = dumps h (object fs)
or_dumps h fs (some s) = h.strip s

-- `_content`
unfoldable pub content : Host → Value → String
content h (text s) = h.strip s
content h (object fs) =
    or_dumps h fs (or_else (content_text (object fs)) (choice_text (get_or "choices" null fs)))
content h null = h.strip (str h null)
content h (boolean b) = h.strip (str h (boolean b))
content h (number n) = h.strip (str h (number n))
content h (real r) = h.strip (str h (real r))
content h (array vs) = h.strip (str h (array vs))

abbrev pub percent_of : Option Percentage → Option ℕ
percent_of none = none
percent_of (some p) = unit_of p

abbrev pub text_or : String → Option String → String
text_or s none = s
text_or s (some t) = t

-- The search in the content, or in `text` where that is given.
unfoldable pub in_text : Host → Value → Option String → Option ℕ
in_text h v t = percent_of (search_from false (codes (text_or (content h v) t)))

-- The loop over the recognized keys.
unfoldable pub by_keys : Fields → List String → Option ℕ
by_keys fs [] = none
by_keys fs (key ∷ keys) =
    let rest = by_keys fs keys in
    elim (normalize_probability_value (get_or key null fs) key) [ none ↦ rest | some p ↦ some p ]

-- The loops that recurse into values; the outer `none` is the RecursionError.
unfoldable pub first_in : (Value → Option (Option ℕ)) → List Value → Option (Option ℕ)
first_in visit [] = some none
first_in visit (v ∷ vs) =
    let rest = first_in visit vs in
    elim (visit v) [ none ↦ none | some none ↦ rest | some (some p) ↦ some (some p) ]

abbrev pub nested_keys : List String
nested_keys = "data" ∷ "result" ∷ "forecast" ∷ "prediction" ∷ "output" ∷ []

abbrev pub choices_of : Value → List Value
choices_of (array vs) = items vs
choices_of _ = []

-- The values that are visited in turn.
abbrev pub nested : Fields → List Value
nested fs = map (λ key. get_or key null fs) nested_keys ++ choices_of (get_or "choices" null fs)

abbrev pub found_or : Option (Option ℕ) → Option ℕ → Option (Option ℕ)
found_or none fallback = none
found_or (some none) fallback = some fallback
found_or (some (some p)) fallback = some (some p)

abbrev pub keyed_or : Option ℕ → Option (Option ℕ) → Option (Option ℕ)
keyed_or (some p) rest = some (some p)
keyed_or none rest = rest

-- With so many nested calls left.
unfoldable pub extract : ℕ → Host → Value → Option String → Option (Option ℕ)
extract zero h v t = elim (as_object v) [ none ↦ some (in_text h v t) | some fs ↦ none ]
extract (suc fuel) h v t =
    let visit : (Value → Option (Option ℕ)) = λ w. extract fuel h w none in
    elim (as_object v) [
      | none ↦ some (in_text h v t)
      | some fs ↦
          keyed_or (by_keys fs (probability_keys ++ percent_probability_keys))
            (found_or (first_in visit (nested fs)) (in_text h v t))
    ]

-- `extract_probability`
unfoldable pub extract_probability : Host → Value → Option String → Option (Option ℕ)
extract_probability h v t = extract h.recursion_limit h v t
