-- ===== src/GroundTruth.antt =====
-- The observation and the resolution of src/oathcast/ground_truth.py.
pub mod Resolve
pub mod Total
pub mod Verdict
mod Tests
use oathcast.Prelude.{
  ℕ, ◌+◌, String, ◌==◌, not, ◌&&◌, ◌||◌, Bool, true, false, Option, none, some, [], ◌∷◌, leb, eqb,
  if◌then◌else◌, one_of, is_some,
}
use oathcast.Prelude.Int.{ℤ, pos, negsuc}
use oathcast.Prelude.Moment.{Moment}
use oathcast.Prelude.Exec.{Result, ok, err}
use oathcast.Clock.{ensure_utc, iso_utc}
use oathcast.Json.{Host, Fields, Value, null, text, real, number, of_pairs, opt_text}
use oathcast.Json.Numbers.{round_div_ℤ}
use oathcast.Forecast.{in_range}

pub data TruthError : Type 0 where
  event_id_empty latitude_range longitude_range negative_precipitation source_empty : TruthError
  observation_id_empty naive_timestamp not_one_hour : TruthError
  status_unsupported outcome_not_binary outcome_unexpected : TruthError
  negative_micrometres issue_missing threshold_not_representable : TruthError

-- The arguments of `PrecipitationObservation(…)`.
pub record Reading : Type 0 where
  pub event_id : String
  pub latitude : ℤ
  pub longitude : ℤ
  pub window_start : Moment
  pub window_end : Moment
  pub precipitation_mm : ℤ
  pub source : String
  pub observation_id : String
  pub observed_at : Moment

-- The observation that `__post_init__` accepts, its datetimes in UTC.
pub record Observation : Type 0 where
  pub event_id : String
  pub latitude : ℤ
  pub longitude : ℤ
  pub window_start : ℕ
  pub window_end : ℕ
  pub precipitation_mm : ℤ
  pub source : String
  pub observation_id : String
  pub observed_at : ℕ

abbrev pub is_negative : ℤ → Bool
is_negative (pos n) = false
is_negative (negsuc n) = true

abbrev pub in_utc : Reading → Option ℕ → Option ℕ → Option ℕ → Result TruthError Observation
in_utc r (some start) (some end) (some observed) =
    if not (eqb end (start + 3600000000))
    then err not_one_hour
    else ok (record {
      event_id = r.event_id;
      latitude = r.latitude;
      longitude = r.longitude;
      window_start = start;
      window_end = end;
      precipitation_mm = r.precipitation_mm;
      source = r.source;
      observation_id = r.observation_id;
      observed_at = observed;
    })
in_utc r (some start) (some end) none = err naive_timestamp
in_utc r (some start) none observed = err naive_timestamp
in_utc r none end observed = err naive_timestamp

-- `PrecipitationObservation.__post_init__`
unfoldable pub observation_of : Host → Reading → Result TruthError Observation
observation_of h r =
    if h.strip r.event_id == ""
    then err event_id_empty
    else if not (in_range 90000000 r.latitude)
    then err latitude_range
    else if not (in_range 180000000 r.longitude)
    then err longitude_range
    else if is_negative r.precipitation_mm
    then err negative_precipitation
    else if h.strip r.source == ""
    then err source_empty
    else if h.strip r.observation_id == ""
    then err observation_id_empty
    else in_utc r (ensure_utc r.window_start) (ensure_utc r.window_end) (ensure_utc r.observed_at)

-- `precipitation_micrometres`
unfoldable pub precipitation_micrometres : Observation → ℤ
precipitation_micrometres o = round_div_ℤ o.precipitation_mm 1000

-- `PrecipitationObservation.to_dict`
unfoldable pub observation_dict : Observation → Fields
unfolding precipitation_micrometres
observation_dict o = of_pairs (
    ("event_id", text o.event_id)
    ∷ ("latitude", real o.latitude)
    ∷ ("longitude", real o.longitude)
    ∷ ("window_start", text (iso_utc o.window_start))
    ∷ ("window_end", text (iso_utc o.window_end))
    ∷ ("precipitation_mm", real o.precipitation_mm)
    ∷ ("precipitation_micrometres", number (precipitation_micrometres o))
    ∷ ("source", text o.source)
    ∷ ("observation_id", text o.observation_id)
    ∷ ("observed_at", text (iso_utc o.observed_at))
    ∷ [])
