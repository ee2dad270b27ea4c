-- ===== src/Scoring/Brier.antt =====
-- src/oathcast/scoring.py. A probability is an integer number of millionths, a squared error a number of
-- units of 10⁻¹², and a mean the exact quotient: the rounding of floats, and the floats that are not
-- finite, are left out.
use oathcast.Prelude.{
  ℕ, ◌+◌, ◌-◌, ◌*◌, String, ◌==◌, Bool, false, not, ◌&&◌, Option, none, some, List, [], ◌∷◌, leb,
  eqb, length, one_of, if◌then◌else◌,
}
use oathcast.Prelude.Int.{ℤ, pos, negsuc, sub_ℕ}
use oathcast.Prelude.Exec.{Result, ok, err}
use oathcast.Prelude.Checked.{◌>>=◌, ◌>>◌, guard}
use oathcast.Json.{Host}
use oathcast.GroundTruth.Resolve.{is_binary, distance}

pub data ScoringError : Type 0 where
  probability_not_in_unit outcome_not_binary case_id_empty climatology_not_in_unit
        status_unsupported value_missing :
      ScoringError

abbrev pub one : ℕ
one = 1000000000000

-- 0 <= p <= 1
abbrev pub in_unit : ℤ → Bool
in_unit (pos n) = leb n 1000000
in_unit (negsuc n) = false

abbrev pub square : ℕ → ℕ
square n = n * n

abbrev pub times_million : ℤ → ℤ
times_million (pos n) = pos (1000000 * n)
times_million (negsuc n) = negsuc (1000000 * n + 999999)

-- `brier_loss`
unfoldable pub brier_loss : ℤ → ℤ → Result ScoringError ℕ
brier_loss probability outcome = do
  guard (in_unit probability) probability_not_in_unit
  guard (is_binary (some outcome)) outcome_not_binary
  ok (square (distance probability (times_million outcome)))

-- A quotient.
pub record Ratio : Type 0 where
  pub num : ℤ
  pub den : ℕ

-- `brier_skill_score`, of two scores that are no less than zero: 1 - model / baseline
unfoldable pub brier_skill_score : ℕ × ℕ → ℕ × ℕ → Option Ratio
brier_skill_score (m, md) (b, bd) =
    if eqb b 0 then none else some (record { num = sub_ℕ (md * b) (m * bd); den = md * b })

pub record BrierCase : Type 0 where
  pub case_id : String
  pub probability : Option ℤ
  pub outcome : Option ℤ
  pub climatology_probability : ℤ
  pub status : String

abbrev pub statuses : List String
statuses = "valid" ∷ "late" ∷ "missing" ∷ "invalid" ∷ "abstained" ∷ []

-- `BrierCase.__post_init__`
unfoldable pub brier_case : Host → BrierCase → Result ScoringError BrierCase
brier_case h c = do
  guard (not (h.strip c.case_id == "")) case_id_empty
  guard (in_unit c.climatology_probability) climatology_not_in_unit
  guard (one_of c.status statuses) status_unsupported
  ok c

abbrev pub opt_in_unit : Option ℤ → Bool
opt_in_unit none = false
opt_in_unit (some p) = in_unit p

-- `is_valid`
unfoldable pub is_valid : BrierCase → Bool
is_valid c = c.status == "valid" && is_binary c.outcome && opt_in_unit c.probability

abbrev pub loss_of : Option ℤ → Option ℤ → Result ScoringError ℕ
loss_of (some p) (some o) = brier_loss p o
loss_of none o = err value_missing
loss_of (some p) none = err value_missing

abbrev pub model_loss : BrierCase → Result ScoringError ℕ
model_loss c = loss_of c.probability c.outcome

abbrev pub baseline_loss : BrierCase → Result ScoringError ℕ
baseline_loss c = loss_of (some c.climatology_probability) c.outcome

-- `score_attempt`; a loss is at most `one`.
unfoldable pub score_attempt : BrierCase → Result ScoringError ℕ
score_attempt c = if not (is_valid c) then ok 0 else do loss ← model_loss c; ok (one - loss)

-- [case for case in cases if case.is_valid]
unfoldable pub valid_cases : List BrierCase → List BrierCase
valid_cases [] = []
valid_cases (c ∷ cs) = if is_valid c then c ∷ valid_cases cs else valid_cases cs

-- counts[status] = counts.get(status, 0) + 1
abbrev pub tally : String → List (String × ℕ) → List (String × ℕ)
tally s [] = (s, 1) ∷ []
tally s ((t, n) ∷ r) = let rest = tally s r in if t == s then (t, n + 1) ∷ r else (t, n) ∷ rest

unfoldable pub invalid_counts : List (String × ℕ) → List BrierCase → List (String × ℕ)
invalid_counts counts [] = counts
invalid_counts counts (c ∷ cs) =
    invalid_counts (if is_valid c then counts else tally c.status counts) cs

-- sum(f(case) for case in cases)
unfoldable pub sum_of : (BrierCase → Result ScoringError ℕ) → List BrierCase → Result ScoringError ℕ
sum_of f [] = ok 0
sum_of f (c ∷ cs) = do x ← f c; rest ← sum_of f cs; ok (x + rest)

pub record BrierSummary : Type 0 where
  pub total_cases : ℕ
  pub valid : ℕ
  pub coverage : Ratio
  pub brier_score : Option Ratio
  pub brier_quality : Option Ratio
  pub baseline_brier_score : Option Ratio
  pub skill : Option Ratio
  pub end_to_end_score : Ratio
  pub invalid_cases_by_status : List (String × ℕ)

-- The scores that stand on the valid cases.
pub record Scores : Type 0 where
  pub brier : Option Ratio
  pub quality : Option Ratio
  pub baseline : Option Ratio
  pub skill_score : Option Ratio

abbrev pub no_scores : Scores
no_scores = record { brier = none; quality = none; baseline = none; skill_score = none }

abbrev pub scores_of : ℕ → ℕ → ℕ → Scores
scores_of n model baseline = record {
  brier = some (record { num = pos model; den = n * one });
  quality = some (record { num = sub_ℕ (n * one) model; den = n * one });
  baseline = some (record { num = pos baseline; den = n * one });
  skill_score = brier_skill_score (model, n * one) (baseline, n * one);
}

unfoldable pub scores : List BrierCase → Result ScoringError Scores
scores [] = ok no_scores
scores (c ∷ cs) = do
  model ← sum_of model_loss (c ∷ cs)
  baseline ← sum_of baseline_loss (c ∷ cs)
  ok (scores_of (length (c ∷ cs)) model baseline)

-- x / total if total else 0.0
abbrev pub over_total : ℕ → ℕ → ℕ → Ratio
over_total x unit total =
    if eqb total 0
    then record { num = pos 0; den = 1 }
    else record { num = pos x; den = total * unit }

-- `evaluate_brier`
unfoldable pub evaluate_brier : List BrierCase → Result ScoringError BrierSummary
evaluate_brier cases = do
  s ← scores (valid_cases cases)
  attempts ← sum_of score_attempt cases
  ok (record {
    total_cases = length cases;
    valid = length (valid_cases cases);
    coverage = over_total (length (valid_cases cases)) 1 (length cases);
    brier_score = s.brier;
    brier_quality = s.quality;
    baseline_brier_score = s.baseline;
    skill = s.skill_score;
    end_to_end_score = over_total attempts one (length cases);
    invalid_cases_by_status = invalid_counts [] cases;
  })
