-- ===== src/Scoring/Totality.antt =====
-- The summary of `evaluate_brier` of src/oathcast/scoring.py.
use native.Mathlib.Nat.{mul-le-mul}
use oathcast.Prelude.Exec.{ok, Sure, Sure-ok}
use oathcast.Prelude.Checked.{Sure-guard}
use oathcast.Scoring.Brier.{
  one, in_unit, BrierCase, brier_case, valid_cases, Ratio, over_total, BrierSummary, evaluate_brier,
  brier_skill_score, scores, scores_of, no_scores, Scores, sum_of, model_loss, baseline_loss,
}
use oathcast.Scoring.Bounds.{
  attempts_lem, baseline_lem, count_all, invalid_counts_lem, count_in-invalid_counts, count_in,
  invalid_with,
}
use oathcast.Prelude.{
  ℕ, Option, List, ◌≡◌, some, ◌*◌, ◌≤◌, Bool-cases, All, length, ◌-◌, eqb, arith, true, none, ◌+◌,
  inl, ◌∷◌, [], refl, inr, leb, String,
}
use oathcast.Prelude.Int.{pos_part, sub_ℕ, pos, ◌≤ℤ◌}
use oathcast.Json.{Host}

-- 0 <= r <= 1
abbrev pub InUnit : Ratio → Type 0
InUnit r = (n : ℕ) × (r.num ≡ pos n) × (n ≤ r.den)

abbrev pub OptInUnit : Option Ratio → Type 0
OptInUnit none = Unit
OptInUnit (some r) = InUnit r

abbrev pub OptAtMostOne : Option Ratio → Type 0
OptAtMostOne none = Unit
OptAtMostOne (some r) = r.num ≤ℤ pos r.den

-- r <= s, of two quotients that are no less than zero
abbrev pub AtMost : Ratio → Ratio → Type 0
AtMost r s = pos_part r.num * s.den ≤ pos_part s.num * r.den

pub record IsFair (cases : List BrierCase) (s : BrierSummary) : Type 0 where
  pub total : s.total_cases ≡ length cases
  pub counted : count_all s.invalid_cases_by_status + s.valid ≡ s.total_cases
  pub by_status :
      (status : String) → count_in status s.invalid_cases_by_status ≡ invalid_with status cases
  pub coverage : InUnit s.coverage
  pub brier : OptInUnit s.brier_score
  pub quality : OptInUnit s.brier_quality
  pub baseline : OptInUnit s.baseline_brier_score
  pub skilled : OptAtMostOne s.skill
  pub end_to_end : InUnit s.end_to_end_score
  pub covered : AtMost s.end_to_end_score s.coverage

record AreFair (s : Scores) : Type 0 where
  brier : OptInUnit s.brier
  quality : OptInUnit s.quality
  baseline : OptInUnit s.baseline
  skilled : OptAtMostOne s.skill_score

sub_ℕ-InUnit : (a b : ℕ) → b ≤ a → InUnit (record { num = sub_ℕ a b; den = a })
sub_ℕ-InUnit a b h = (a - b, ground (arith, h), omega arith)

sub_ℕ-le : (a b : ℕ) → sub_ℕ a b ≤ℤ pos a
sub_ℕ-le a b = elim (Bool-cases (leb b a)) [
  | inl le ↦ rw le (omega arith)
  | inr gt ↦ rw gt (omega arith)
]

skill_lem : (m md b bd : ℕ) → OptAtMostOne (brier_skill_score (m, md) (b, bd))
unfolding brier_skill_score
skill_lem m md b bd = elim (Bool-cases (eqb b 0)) [
  | inl e ↦ rw e tt
  | inr e ↦ rw e (sub_ℕ-le (md * b) (m * bd))
]

scores_of-AreFair : (n m b : ℕ) → m ≤ n * one → b ≤ n * one → AreFair (scores_of n m b)
scores_of-AreFair n m b hm hb = record {
  brier = (m, refl, hm);
  quality = sub_ℕ-InUnit (n * one) m hm;
  baseline = (b, refl, hb);
  skilled = skill_lem m (n * one) b (n * one);
}

scores_lem :
    (cs : List BrierCase) (m b : ℕ)
    → sum_of model_loss cs ≡ ok m
    → sum_of baseline_loss cs ≡ ok b
    → m ≤ length cs * one
    → b ≤ length cs * one
    → (s : Scores) × (scores cs ≡ ok s) × AreFair s
unfolding scores
scores_lem [] m b sm sb hm hb =
    (no_scores, refl, record { brier = tt; quality = tt; baseline = tt; skilled = tt })
scores_lem (c ∷ cs) m b sm sb hm hb =
    rw (sm, sb)
      (scores_of (length (c ∷ cs)) m b, refl, scores_of-AreFair (length (c ∷ cs)) m b hm hb)

over_total-InUnit : (x u n : ℕ) → x ≤ n * u → InUnit (over_total x u n)
over_total-InUnit x u n h = elim (Bool-cases (eqb n 0)) [
  | inl e ↦ rw e (0, refl, omega arith)
  | inr e ↦ rw e (x, refl, h)
]

over_total-AtMost : (a v n : ℕ) → a ≤ v * one → AtMost (over_total a one n) (over_total v 1 n)
over_total-AtMost a v n h = elim (Bool-cases (eqb n 0)) [
  | inl e ↦ rw e (omega arith)
  | inr e ↦ let self : n ≤ n = omega arith in rw e (scaled (mul-le-mul h self))
]
  where
    scaled : a * n ≤ v * one * n → a * (n * 1) ≤ v * (n * one)
    scaled w = grind (arith, w)

abbrev HasClimate : BrierCase → Type 0
HasClimate c = in_unit c.climatology_probability ≡ true

brier_case-HasClimate : (h : Host) (c : BrierCase) → Sure HasClimate (brier_case h c)
unfolding brier_case
brier_case-HasClimate h c = search (Sure-guard HasClimate)

-- The cases that the class accepts.
abbrev pub Accepted : Host → List BrierCase → Type 0
Accepted h cs = All (λ c. brier_case h c ≡ ok c) cs

Accepted_lem : (h : Host) (cs : List BrierCase) → Accepted h cs → All HasClimate cs
Accepted_lem h [] a = tt
Accepted_lem h (c ∷ cs) a =
    (Sure-ok HasClimate (brier_case h c) c a.0 (brier_case-HasClimate h c), Accepted_lem h cs a.1)

-- Of cases that the class accepts, the evaluation never raises, and in its summary every case is valid or
-- counted once, and the count of each status is the number of the cases with it that are not valid; the
-- coverage, the mean losses, the quality and the end-to-end score lie between zero and one, the skill is
-- at most one, and the end-to-end score is at most the coverage.
pub evaluate_brier-IsFair :
    (h : Host) (cases : List BrierCase)
    → Accepted h cases
    → (s : BrierSummary) × (evaluate_brier cases ≡ ok s) × IsFair cases s
unfolding evaluate_brier
evaluate_brier-IsFair h cases accepted =
    let (a, m, sa, sm, e) = attempts_lem cases in
    let (b, sb, hb) = baseline_lem cases (Accepted_lem h cases accepted) in
    let (s, ss, fair) = scores_lem (valid_cases cases) m b sm sb (omega (arith, e)) hb in
    let count = invalid_counts_lem [] cases in
    rw (ss, sa)
      (
        _,
        refl,
        record {
          total = refl;
          counted = omega (arith, count);
          by_status = λ status. omega (arith, count_in-invalid_counts status [] cases);
          coverage =
              over_total-InUnit (length (valid_cases cases)) 1 (length cases)
                (omega (arith, count));
          brier = fair.brier;
          quality = fair.quality;
          baseline = fair.baseline;
          skilled = fair.skilled;
          end_to_end = over_total-InUnit a one (length cases) (omega (arith, count, e));
          covered =
              over_total-AtMost a (length (valid_cases cases)) (length cases) (omega (arith, e));
        },
      )
