-- ===== src/GroundTruth/Resolve.antt =====
-- `GroundTruthResult` and `resolve_precipitation` of src/oathcast/ground_truth.py.
use oathcast.Prelude.{
  ℕ, ◌+◌, ◌-◌, ◌%◌, String, ◌==◌, not, ◌&&◌, Bool, true, false, Option, none, some, [], ◌∷◌, leb,
  ltb, eqb, if◌then◌else◌, one_of, is_some, opt_eq,
}
use oathcast.Prelude.Int.{ℤ, pos, negsuc, pos_part, neg_part, ltb_ℤ}
use oathcast.Prelude.Moment.{Moment}
use oathcast.Prelude.Exec.{Result, ok, err}
use oathcast.Clock.{ensure_utc, iso_utc}
use oathcast.Json.{Host, Fields, Value, null, text, real, number, of_pairs, opt_text}
use oathcast.Json.Numbers.{round_div_ℤ}
use oathcast.Forecast.{Question}
use oathcast.GroundTruth.{
  Observation, precipitation_micrometres, TruthError, status_unsupported,
  threshold_not_representable, outcome_not_binary, outcome_unexpected, negative_micrometres,
  issue_missing, event_id_empty, naive_timestamp,
}

pub record Truth : Type 0 where
  pub event_id : String
  pub status : String
  pub outcome : Option ℤ
  pub source : Option String
  pub observation_id : Option String
  pub precipitation_mm : Option ℤ
  pub resolved_at : ℕ
  pub issue : Option String
  pub precipitation_micrometres : Option ℤ

abbrev pub is_binary : Option ℤ → Bool
is_binary none = false
is_binary (some (pos n)) = leb n 1
is_binary (some (negsuc n)) = false

abbrev pub below_zero : Option ℤ → Bool
below_zero none = false
below_zero (some (pos n)) = false
below_zero (some (negsuc n)) = true

-- `GroundTruthResult.__post_init__`, of a result whose `resolved_at` is in UTC
unfoldable pub truth_of : Host → Truth → Result TruthError Truth
truth_of h t =
    if not (one_of t.status ("resolved" ∷ "missing" ∷ "invalid" ∷ []))
    then err status_unsupported
    else if t.status == "resolved" && not (is_binary t.outcome)
    then err outcome_not_binary
    else if not (t.status == "resolved") && is_some t.outcome
    then err outcome_unexpected
    else if below_zero t.precipitation_micrometres
    then err negative_micrometres
    else if t.status == "missing" && not (opt_eq t.issue (some "observation_missing"))
    then err issue_missing
    else if h.strip t.event_id == ""
    then err event_id_empty
    else ok t

abbrev opt_number : Option ℤ → Value
opt_number none = null
opt_number (some n) = number n

abbrev opt_real : Option ℤ → Value
opt_real none = null
opt_real (some n) = real n

-- `GroundTruthResult.to_dict`
unfoldable pub truth_dict : Truth → Fields
truth_dict t = of_pairs (
    ("event_id", text t.event_id)
    ∷ ("status", text t.status)
    ∷ ("outcome", opt_number t.outcome)
    ∷ ("source", opt_text t.source)
    ∷ ("observation_id", opt_text t.observation_id)
    ∷ ("precipitation_mm", opt_real t.precipitation_mm)
    ∷ ("precipitation_micrometres", opt_number t.precipitation_micrometres)
    ∷ ("resolved_at", text (iso_utc t.resolved_at))
    ∷ ("issue", opt_text t.issue)
    ∷ [])

-- abs(a - b)
abbrev pub distance : ℤ → ℤ → ℕ
distance a b =
    (pos_part a + neg_part b - (pos_part b + neg_part a))
    + (pos_part b + neg_part a - (pos_part a + neg_part b))

-- The first reason why the observation is not of the question's event; 1e-4 degrees are 100
-- millionths.
unfoldable pub issue_of : Question → Observation → Option String
issue_of q o =
    if not (o.event_id == q.event_id)
    then some "event_id_mismatch"
    else if ltb 100 (distance o.latitude q.latitude)
    then some "latitude_mismatch"
    else if ltb 100 (distance o.longitude q.longitude)
    then some "longitude_mismatch"
    else if not (eqb o.window_start q.horizon_start)
    then some "window_start_mismatch"
    else if not (eqb o.window_end q.horizon_end)
    then some "window_end_mismatch"
    else if ltb o.observed_at q.horizon_end
    then some "observation_predates_event_end"
    else none

abbrev pub missing_truth : Question → ℕ → Truth
missing_truth q at = record {
  event_id = q.event_id;
  status = "missing";
  outcome = none;
  source = none;
  observation_id = none;
  precipitation_mm = none;
  resolved_at = at;
  issue = some "observation_missing";
  precipitation_micrometres = none;
}

abbrev pub invalid_truth : Question → Observation → ℕ → String → Truth
invalid_truth q o at issue = record {
  event_id = q.event_id;
  status = "invalid";
  outcome = none;
  source = some o.source;
  observation_id = some o.observation_id;
  precipitation_mm = none;
  resolved_at = at;
  issue = some issue;
  precipitation_micrometres = none;
}

-- `int(precipitation_micrometres > threshold_micrometres)`
abbrev pub outcome_of : Question → Observation → ℤ
outcome_of q o =
    if ltb_ℤ (round_div_ℤ q.threshold_mm 1000) (precipitation_micrometres o) then pos 1 else pos 0

abbrev pub resolved_truth : Question → Observation → ℕ → Truth
resolved_truth q o at = record {
  event_id = q.event_id;
  status = "resolved";
  outcome = some (outcome_of q o);
  source = some o.source;
  observation_id = some o.observation_id;
  precipitation_mm = some o.precipitation_mm;
  resolved_at = at;
  issue = none;
  precipitation_micrometres = some (precipitation_micrometres o);
}

-- A whole number of micrometres.
abbrev pub is_representable : ℤ → Bool
is_representable t = eqb (pos_part t % 1000) 0 && eqb (neg_part t % 1000) 0

abbrev judged : Host → Question → Observation → ℕ → Option String → Result TruthError Truth
judged h q o at (some issue) = truth_of h (invalid_truth q o at issue)
judged h q o at none =
    if is_representable q.threshold_mm
    then truth_of h (resolved_truth q o at)
    else err threshold_not_representable

abbrev resolved_by : Host → Question → Option Observation → Option ℕ → Result TruthError Truth
resolved_by h q o none = err naive_timestamp
resolved_by h q none (some at) = truth_of h (missing_truth q at)
resolved_by h q (some o) (some at) = judged h q o at (issue_of q o)

-- `resolve_precipitation`
unfoldable pub resolve_precipitation :
    Host → Question → Option Observation → Moment → Result TruthError Truth
unfolding truth_of issue_of
resolve_precipitation h q o now = resolved_by h q o (ensure_utc now)
