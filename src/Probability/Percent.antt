-- ===== src/Probability/Percent.antt =====
-- `PROBABILITY_PATTERN` of src/oathcast/probability.py, `(?<![\d.])(\d{1,3}(?:\.\d+)?)\s*%`, as a search
-- over code points, for the digits and spaces of Latin text. A probability is a number of units of 10⁻⁸.
use oathcast.Prelude.{
  ℕ, ◌+◌, ◌-◌, ◌*◌, Bool, false, ◌&&◌, ◌||◌, Option, none, some, List, [], ◌∷◌, ltb, leb, eqb,
  length, if◌then◌else◌, ◌/◌,
}
use oathcast.Sidecar.Text.{every, is_digit}

-- The probability one.
abbrev pub whole : ℕ
whole = 100000000

-- \s
abbrev is_space : ℕ → Bool
is_space c = leb 9 c && leb c 13 || leb 28 c && leb c 32 || eqb c 133 || eqb c 160

-- \d*, and what follows.
abbrev pub digits : List ℕ → List ℕ × List ℕ
digits [] = ([], [])
digits (c ∷ cs) = let rest = digits cs in if is_digit c then (c ∷ rest.0, rest.1) else ([], c ∷ cs)

-- \s*%
abbrev pub at_percent : List ℕ → Bool
at_percent [] = false
at_percent (c ∷ cs) = let rest = at_percent cs in if is_space c then rest else eqb c 37

-- The digits before and after the point.
pub record Percentage : Type 0 where
  pub integer : List ℕ
  pub fraction : List ℕ

abbrev ended : List ℕ → List ℕ → List ℕ → Option Percentage
ended integer fraction cs =
    if at_percent cs then some (record { integer = integer; fraction = fraction }) else none

abbrev after_point : List ℕ → List ℕ × List ℕ → Option Percentage
after_point integer ([], cs) = none
after_point integer (d ∷ ds, cs) = ended integer (d ∷ ds) cs

abbrev after_integer : List ℕ → List ℕ → Option Percentage
after_integer integer [] = none
after_integer integer (c ∷ cs) =
    if eqb c 46 then after_point integer (digits cs) else ended integer [] (c ∷ cs)

-- A match that starts here. A run of more than three digits, or a point without digits, is no match: what
-- would follow a shorter run is neither a space nor a percent sign.
unfoldable pub match_here : List ℕ → Option Percentage
match_here cs =
    let run = digits cs in
    if leb 1 (length run.0) && leb (length run.0) 3 then after_integer run.0 run.1 else none

-- The leftmost match; the flag says whether a digit or a point stands before.
unfoldable pub search_from : Bool → List ℕ → Option Percentage
search_from blocked [] = none
search_from blocked (c ∷ cs) =
    let rest = search_from (is_digit c || eqb c 46) cs in
    if blocked then rest else elim (match_here (c ∷ cs)) [ none ↦ rest | some m ↦ some m ]

abbrev pub value_of : ℕ → List ℕ → ℕ
value_of n [] = n
value_of n (c ∷ cs) = value_of (10 * n + (c - 48)) cs

-- The first six digits after the point, as millionths.
abbrev pub millionths : ℕ → ℕ → List ℕ → ℕ
millionths unit n [] = n
millionths unit n (c ∷ cs) = millionths (unit / 10) (n + unit * (c - 48)) cs

-- `float(match.group(1)) / 100`
abbrev pub part_of_one : Percentage → ℕ
part_of_one p = value_of 0 p.integer * 1000000 + millionths 100000 0 p.fraction

-- Not above 100, where digits beyond the sixth count too.
abbrev pub in_range : Percentage → Bool
in_range p = ltb (value_of 0 p.integer) 100 || every (λ c. eqb c 48) p.fraction

-- `percentage / 100 if 0 <= percentage <= 100 else None`
unfoldable pub unit_of : Percentage → Option ℕ
unit_of p = if leb (part_of_one p) whole && in_range p then some (part_of_one p) else none
