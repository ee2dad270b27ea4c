-- ===== src/GroundTruth/Total.antt =====
-- The resolution of an accepted question by an accepted observation.
use oathcast.Prelude.{
  ℕ, String, ◌==◌, Bool, true, false, not, Option, none, some, ◌≡◌, inl, inr, refl, arith,
  Option-cases, if◌then◌else◌, ap,
}
use oathcast.Prelude.Int.{ℤ, pos, negsuc, ltb_ℤ}
use oathcast.Prelude.Moment.{Moment}
use oathcast.Prelude.Exec.{ok, Sure, Sure-ok, Sure-if}
use oathcast.Clock.{ensure_utc}
use oathcast.Json.{Host}
use oathcast.Json.Numbers.{round_div_ℤ}
use oathcast.Forecast
use oathcast.GroundTruth
use oathcast.Forecast.{Draft, Question, question_of, is_supported_threshold}
use oathcast.GroundTruth.{
  Reading, Observation, observation_of, precipitation_micrometres, is_negative,
}
use oathcast.GroundTruth.Resolve.{
  is_binary, Truth, truth_of, resolve_precipitation, issue_of, invalid_truth, resolved_truth,
  is_representable, below_zero,
}

-- What is read off an accepted question.
pub record Accepted (h : Host) (q : Question) : Type 0 where
  pub named : (h.strip q.event_id == "") ≡ false
  pub threshold : q.threshold_mm ≡ pos 100000

threshold_of : (t : ℤ) → not (is_supported_threshold t) ≡ false → t ≡ pos 100000
threshold_of (pos n) e = ap pos (ground (arith, e))
threshold_of (negsuc n) e = ground (arith, e)

module _ (h : Host) (d : Draft) (named : (h.strip d.event_id == "") ≡ false)
    (threshold : d.threshold_mm ≡ pos 100000) where
  dated-Accepted : (start end cutoff : ℕ) → Sure (Accepted h) (Forecast.dated d start end cutoff)
  dated-Accepted start end cutoff = search (Sure-if (Accepted h), accepted)
    where
      accepted :
          (start end cutoff : ℕ)
          → Accepted h (record {
            event_id = d.event_id;
            location_name = d.location_name;
            latitude = d.latitude;
            longitude = d.longitude;
            horizon_start = start;
            horizon_end = end;
            forecast_cutoff = cutoff;
            threshold_mm = d.threshold_mm;
            metric = d.metric;
            precipitation_type = d.precipitation_type;
            operator = d.operator;
            timezone = d.timezone;
            spatial_semantics = d.spatial_semantics;
          })
      accepted start end cutoff = record { named = named; threshold = threshold }

  in_utc-Accepted :
      (start end cutoff : Option ℕ) → Sure (Accepted h) (Forecast.in_utc d start end cutoff)
  in_utc-Accepted (some start) (some end) (some cutoff) = dated-Accepted start end cutoff
  in_utc-Accepted (some start) (some end) none = tt
  in_utc-Accepted (some start) none cutoff = tt
  in_utc-Accepted none end cutoff = tt

pub question_of-Accepted : (h : Host) (d : Draft) → Sure (Accepted h) (question_of h d)
unfolding question_of
question_of-Accepted h d = search (Sure-if (Accepted h), in_utc-Accepted, threshold_of) depth 12

abbrev pub Positive : Observation → Type 0
Positive o = is_negative o.precipitation_mm ≡ false

in_utc-Positive :
    (r : Reading)
    → is_negative r.precipitation_mm ≡ false
    → (start end observed : Option ℕ) → Sure Positive (GroundTruth.in_utc r start end observed)
in_utc-Positive r p (some start) (some end) (some observed) = search (Sure-if Positive)
in_utc-Positive r p (some start) (some end) none = tt
in_utc-Positive r p (some start) none observed = tt
in_utc-Positive r p none end observed = tt

pub observation_of-Positive : (h : Host) (r : Reading) → Sure Positive (observation_of h r)
unfolding observation_of
observation_of-Positive h r = search (Sure-if Positive, in_utc-Positive) depth 12

abbrev pub verdict : Question → Observation → ℕ → Option String → Truth
verdict q o at (some issue) = invalid_truth q o at issue
verdict q o at none = resolved_truth q o at

micrometres-positive :
    (m : ℤ) → is_negative m ≡ false → below_zero (some (round_div_ℤ m 1000)) ≡ false
unfolding round_div_ℤ
micrometres-positive (pos n) p = refl
micrometres-positive (negsuc n) p = ground (arith, p)

binary : (b : Bool) → is_binary (some (if b then pos 1 else pos 0)) ≡ true
binary true = refl
binary false = refl

representable :
    (q : Question) → q.threshold_mm ≡ pos 100000 → is_representable q.threshold_mm ≡ true
representable q e = rw e refl

-- The result that the code builds passes its own checks.
truth_of-resolved :
    (h : Host) (q : Question) (o : Observation) (at : ℕ)
    → Accepted h q
    → Positive o
    → truth_of h (resolved_truth q o at) ≡ ok (resolved_truth q o at)
unfolding truth_of precipitation_micrometres
truth_of-resolved h q o at a p =
    rw
      (
        binary (ltb_ℤ (round_div_ℤ q.threshold_mm 1000) (round_div_ℤ o.precipitation_mm 1000)),
        micrometres-positive o.precipitation_mm p,
        a.named,
      )
      refl

truth_of-invalid :
    (h : Host) (q : Question) (o : Observation) (at : ℕ) (issue : String)
    → Accepted h q
    → truth_of h (invalid_truth q o at issue) ≡ ok (invalid_truth q o at issue)
unfolding truth_of
truth_of-invalid h q o at issue a = rw a.named refl

-- An accepted question and an accepted observation resolve: to an
-- invalid result that names the first mismatch, or else to a resolved result whose outcome is whether
-- the precipitation in whole micrometres is above the threshold's.
pub resolve_precipitation_lem :
    (h : Host) (draft : Draft) (reading : Reading) (q : Question) (o : Observation) (now : Moment)
    → question_of h draft ≡ ok q
    → observation_of h reading ≡ ok o
    → now.aware ≡ true
    → resolve_precipitation h q (some o) now ≡ ok (verdict q o now.micros (issue_of q o))
unfolding resolve_precipitation ensure_utc
resolve_precipitation_lem h draft reading q o now e f aware =
    let a = Sure-ok (Accepted h) (question_of h draft) q e (question_of-Accepted h draft) in
    let p = Sure-ok Positive (observation_of h reading) o f (observation_of-Positive h reading) in
    elim (Option-cases (issue_of q o)) [
      | inr (issue, i) ↦ rw (aware, i) (truth_of-invalid h q o now.micros issue a)
      | inl i ↦ rw (aware, i, representable q a.threshold) (truth_of-resolved h q o now.micros a p)
    ]
