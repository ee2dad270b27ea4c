-- ===== src/Scoring/Bounds.antt =====
-- The losses and the sums of src/oathcast/scoring.py.
use native.Mathlib.Nat.{mul-le-mul}
use oathcast.Prelude.Int.{ℤ, pos, negsuc}
use oathcast.Prelude.Exec.{Result, ok}
use oathcast.Scoring.Brier.{
  ScoringError, one, in_unit, brier_loss, BrierCase, is_valid, opt_in_unit, loss_of, model_loss,
  baseline_loss, score_attempt, valid_cases, tally, invalid_counts, sum_of, square,
}
use oathcast.Prelude.{
  ℕ, String, Option, ◌≡◌, List, ◌≤◌, true, ◌+◌, All, suc, some, length, arith, both, ◌*◌, ◌∷◌,
  Bool-cases, none, [], inr, inl, refl, ◌-◌, if◌then◌else◌, ◌==◌, not, ◌&&◌, eq_iff,
}
use oathcast.Prelude.Int.{ℤ}
use oathcast.GroundTruth.Resolve.{is_binary}

-- A call that returns at most `one`.
abbrev pub Small : Result ScoringError ℕ → Type 0
Small r = (l : ℕ) × (r ≡ ok l) × (l ≤ one)

square-le : (n : ℕ) → n ≤ 1000000 → square n ≤ one
square-le n h = let w : n * n ≤ 1000000 * 1000000 = mul-le-mul h h in omega (arith, w)

brier_loss-Small : (p o : ℤ) → in_unit p ≡ true → is_binary (some o) ≡ true → Small (brier_loss p o)
unfolding brier_loss
brier_loss-Small (pos n) (pos o) hp ho = rw (hp, ho) (_, refl, square-le _ (ground arith))
brier_loss-Small (pos n) (negsuc o) hp ho = ground (arith, ho)
brier_loss-Small (negsuc n) o hp ho = ground (arith, hp)

loss_of-Small : (p o : Option ℤ) → opt_in_unit p ≡ true → is_binary o ≡ true → Small (loss_of p o)
loss_of-Small (some p) (some o) hp ho = brier_loss-Small p o hp ho
loss_of-Small (some p) none hp ho = ground (arith, ho)
loss_of-Small none o hp ho = ground (arith, hp)

is_valid_lem :
    (c : BrierCase)
    → is_valid c ≡ true
    → (is_binary c.outcome ≡ true) × (opt_in_unit c.probability ≡ true)
unfolding is_valid
is_valid_lem c h = let (r, p) = both _ _ h in let (s, o) = both _ _ r in (o, p)

pub model_loss-Small : (c : BrierCase) → is_valid c ≡ true → Small (model_loss c)
model_loss-Small c h = let (o, p) = is_valid_lem c h in loss_of-Small c.probability c.outcome p o

pub baseline_loss-Small :
    (c : BrierCase)
    → in_unit c.climatology_probability ≡ true
    → is_valid c ≡ true
    → Small (baseline_loss c)
baseline_loss-Small c k h =
    let (o, p) = is_valid_lem c h in loss_of-Small (some c.climatology_probability) c.outcome k o

-- The sums that `evaluate_brier` takes exist, and the qualities and the losses of the valid cases add up
-- to one for each.
pub attempts_lem :
    (cs : List BrierCase)
    → (a : ℕ) × (m : ℕ) × (sum_of score_attempt cs ≡ ok a)
      × (sum_of model_loss (valid_cases cs) ≡ ok m)
      × (a + m ≡ length (valid_cases cs) * one)
unfolding sum_of valid_cases score_attempt
attempts_lem [] = (0, 0, refl, refl, refl)
attempts_lem (c ∷ cs) =
    let (a, m, sa, sm, e) = attempts_lem cs in
    elim (Bool-cases (is_valid c)) [
      | inr bad ↦ rw (bad, sa, sm) (0 + a, m, refl, refl, omega (arith, e))
      | inl good ↦
          let (l, q, le) = model_loss-Small c good in
          rw (good, q, sa, sm) (one - l + a, l + m, refl, refl, omega (arith, le, e))
    ]

pub baseline_lem :
    (cs : List BrierCase)
    → All (λ c. in_unit c.climatology_probability ≡ true) cs
    → (b : ℕ) × (sum_of baseline_loss (valid_cases cs) ≡ ok b) × (b ≤ length (valid_cases cs) * one)
unfolding sum_of valid_cases
baseline_lem [] h = (0, refl, omega arith)
baseline_lem (c ∷ cs) h =
    let (b, s, e) = baseline_lem cs h.1 in
    elim (Bool-cases (is_valid c)) [
      | inr bad ↦ rw bad (b, s, e)
      | inl good ↦
          let (l, q, le) = baseline_loss-Small c h.0 good in
          rw (good, q, s) (l + b, refl, omega (arith, le, e))
    ]

abbrev pub count_all : List (String × ℕ) → ℕ
count_all [] = 0
count_all ((s, n) ∷ r) = n + count_all r

count_all-tally : (s : String) (k : List (String × ℕ)) → count_all (tally s k) ≡ suc (count_all k)
count_all-tally s [] = refl
count_all-tally s ((t, n) ∷ r) = ground (arith, count_all-tally s r)

-- Every case is valid or counted once under its status.
pub invalid_counts_lem :
    (k : List (String × ℕ)) (cs : List BrierCase)
    → count_all (invalid_counts k cs) + length (valid_cases cs) ≡ count_all k + length cs
unfolding invalid_counts valid_cases
invalid_counts_lem k [] = refl
invalid_counts_lem k (c ∷ cs) = elim (Bool-cases (is_valid c)) [
  | inl good ↦ rw good (omega (arith, invalid_counts_lem k cs))
  | inr bad ↦
      rw bad (omega (arith, invalid_counts_lem (tally c.status k) cs, count_all-tally c.status k))
]

-- counts.get(status, 0)
abbrev pub count_in : String → List (String × ℕ) → ℕ
count_in s [] = 0
count_in s ((t, n) ∷ r) = if t == s then n else count_in s r

-- How many cases are not valid and have the status.
abbrev pub invalid_with : String → List BrierCase → ℕ
invalid_with s [] = 0
invalid_with s (c ∷ cs) = (if not (is_valid c) && c.status == s then 1 else 0) + invalid_with s cs

count_in-tally :
    (s u : String) (k : List (String × ℕ))
    → count_in s (tally u k) ≡ (if u == s then 1 else 0) + count_in s k
count_in-tally s u [] = ground arith
count_in-tally s u ((t, n) ∷ r) =
    ground (arith, count_in-tally s u r, eq_iff t u, eq_iff t s, eq_iff u s)

pub count_in-invalid_counts :
    (s : String) (k : List (String × ℕ)) (cs : List BrierCase)
    → count_in s (invalid_counts k cs) ≡ invalid_with s cs + count_in s k
unfolding invalid_counts
count_in-invalid_counts s k [] = omega arith
count_in-invalid_counts s k (c ∷ cs) = elim (Bool-cases (is_valid c)) [
  | inl good ↦ rw good (omega (arith, count_in-invalid_counts s k cs))
  | inr bad ↦
      rw bad (
        omega (arith, count_in-invalid_counts s (tally c.status k) cs, count_in-tally s c.status k))
]
