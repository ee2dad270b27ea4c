-- ===== src/Probability/Tests.antt =====
-- Probabilities read off concrete responses, and the theorem applied there.
use oathcast.Prelude.Int.{pos}
use oathcast.Json.{Value, text, number, object, of_pairs}
use oathcast.Json.TestHost.{test_host}
use oathcast.Probability.Percent.{whole, search_from, match_here, unit_of}
use oathcast.Probability.Extract.{
  extract_probability, extract, by_keys, normalize_probability_value, first_in, in_text, content,
}
use oathcast.Probability.Unit.{extract_probability-unit}
use oathcast.Prelude.{◌∷◌, none, ◌≤◌, [], ◌≡◌, some, refl}

abbrev nested_answer : Value
nested_answer = object (
    of_pairs (
      ("content", text "40% now")
      ∷ ("data", object (of_pairs (("chance_of_rain", number (pos 35)) ∷ [])))
      ∷ []))

found : extract_probability test_host nested_answer none ≡ some (some 35000000)
unfolding extract_probability extract by_keys normalize_probability_value first_in in_text content
    search_from match_here unit_of
found = refl

in_words : extract_probability test_host (text "1234% or 7.25 %") none ≡ some (some 7250000)
unfolding extract_probability extract in_text content search_from match_here unit_of
in_words = refl

too_much : extract_probability test_host (text "100.5%") none ≡ some none
unfolding extract_probability extract in_text content search_from match_here unit_of
too_much = refl

-- Two levels are too many for an interpreter with one.
too_deep : extract_probability (record test_host { recursion_limit = 1 }) nested_answer none ≡ none
unfolding extract_probability extract by_keys normalize_probability_value first_in in_text content
    search_from match_here unit_of
too_deep = refl

extract_probability-unit_example : 35000000 ≤ whole
extract_probability-unit_example =
    extract_probability-unit test_host nested_answer none 35000000 found
