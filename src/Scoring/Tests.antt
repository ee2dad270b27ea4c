-- ===== src/Scoring/Tests.antt =====
-- Three cases, evaluated, and the theorem applied there.
use oathcast.Prelude.Int.{pos, ℤ}
use oathcast.Prelude.Exec.{ok}
use oathcast.Json.TestHost.{test_host}
use oathcast.Scoring.Brier.{
  BrierCase, BrierSummary, evaluate_brier, valid_cases, invalid_counts, sum_of, score_attempt,
  is_valid, brier_loss, scores, brier_skill_score, brier_case,
}
use oathcast.Scoring.Totality.{Accepted, IsFair, evaluate_brier-IsFair}
use oathcast.Prelude.{String, List, some, ◌≡◌, Option, ◌∷◌, refl, none, []}

abbrev case : String → Option ℤ → Option ℤ → String → BrierCase
case id p o status = record {
  case_id = id;
  probability = p;
  outcome = o;
  climatology_probability = pos 500000;
  status = status;
}

abbrev cases : List BrierCase
cases =
    case "a" (some (pos 900000)) (some (pos 1)) "valid"
    ∷ case "b" none (some (pos 0)) "missing"
    ∷ case "c" (some (pos 100000)) (some (pos 0)) "valid"
    ∷ []

abbrev summary : BrierSummary
summary = record {
  total_cases = 3;
  valid = 2;
  coverage = record { num = pos 2; den = 3 };
  brier_score = some (record { num = pos 20000000000; den = 2000000000000 });
  brier_quality = some (record { num = pos 1980000000000; den = 2000000000000 });
  baseline_brier_score = some (record { num = pos 500000000000; den = 2000000000000 });
  skill = some (record { num = pos 960000000000000000000000; den = 1000000000000000000000000 });
  end_to_end_score = record { num = pos 1980000000000; den = 3000000000000 };
  invalid_cases_by_status = ("missing", 1) ∷ [];
}

evaluated : evaluate_brier cases ≡ ok summary
unfolding evaluate_brier valid_cases invalid_counts sum_of score_attempt is_valid brier_loss scores
    brier_skill_score
evaluated = refl

accepted : Accepted test_host cases
unfolding brier_case
accepted = (refl, (refl, (refl, tt)))

evaluate_brier-IsFair_example : (s : BrierSummary) × (evaluate_brier cases ≡ ok s) × IsFair cases s
evaluate_brier-IsFair_example = evaluate_brier-IsFair test_host cases accepted
