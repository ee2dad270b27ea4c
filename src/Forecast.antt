-- ===== src/Forecast.antt =====
-- The forecast question of src/oathcast/forecast.py, a binary event over one hour. Its floats are
-- millionths; a datetime that went through `ensure_utc` is an instant.
use oathcast.Prelude.{
  ℕ, ◌+◌, String, ◌==◌, not, Option, none, some, [], ◌∷◌, leb, eqb, if◌then◌else◌, Bool, false,
}
use oathcast.Prelude.Int.{ℤ, pos, negsuc}
use oathcast.Prelude.Moment.{Moment}
use oathcast.Prelude.Exec.{Result, ok, err}
use oathcast.Clock.{ensure_utc, iso_utc}
use oathcast.Json.{Host, Fields, text, real, of_pairs}

pub data QuestionError : Type 0 where
  event_id_empty location_name_empty latitude_range longitude_range metric_unsupported :
      QuestionError
  type_unsupported operator_unsupported threshold_unsupported : QuestionError
  naive_timestamp end_before_start not_one_hour cutoff_too_late : QuestionError

-- The arguments of `ForecastQuestion(…)`.
pub record Draft : Type 0 where
  pub event_id : String
  pub location_name : String
  pub latitude : ℤ
  pub longitude : ℤ
  pub horizon_start : Moment
  pub horizon_end : Moment
  pub forecast_cutoff : Moment
  pub threshold_mm : ℤ
  pub metric : String
  pub precipitation_type : String
  pub operator : String
  pub timezone : String
  pub spatial_semantics : String

-- The question that `__post_init__` accepts, its datetimes in UTC.
pub record Question : Type 0 where
  pub event_id : String
  pub location_name : String
  pub latitude : ℤ
  pub longitude : ℤ
  pub horizon_start : ℕ
  pub horizon_end : ℕ
  pub forecast_cutoff : ℕ
  pub threshold_mm : ℤ
  pub metric : String
  pub precipitation_type : String
  pub operator : String
  pub timezone : String
  pub spatial_semantics : String

-- -bound ≤ degrees ≤ bound
abbrev pub in_range : ℕ → ℤ → Bool
in_range bound (pos n) = leb n bound
in_range bound (negsuc n) = leb (n + 1) bound

abbrev one_hour : ℕ
one_hour = 3600000000

abbrev pub dated : Draft → ℕ → ℕ → ℕ → Result QuestionError Question
dated d start end cutoff =
    if leb end start
    then err end_before_start
    else if not (eqb end (start + one_hour))
    then err not_one_hour
    else if leb start cutoff
    then err cutoff_too_late
    else ok (record {
      event_id = d.event_id;
      location_name = d.location_name;
      latitude = d.latitude;
      longitude = d.longitude;
      horizon_start = start;
      horizon_end = end;
      forecast_cutoff = cutoff;
      threshold_mm = d.threshold_mm;
      metric = d.metric;
      precipitation_type = d.precipitation_type;
      operator = d.operator;
      timezone = d.timezone;
      spatial_semantics = d.spatial_semantics;
    })

abbrev pub in_utc : Draft → Option ℕ → Option ℕ → Option ℕ → Result QuestionError Question
in_utc d (some start) (some end) (some cutoff) = dated d start end cutoff
in_utc d (some start) (some end) none = err naive_timestamp
in_utc d (some start) none cutoff = err naive_timestamp
in_utc d none end cutoff = err naive_timestamp

-- The threshold 0.1 mm.
abbrev pub is_supported_threshold : ℤ → Bool
is_supported_threshold (pos n) = eqb n 100000
is_supported_threshold (negsuc n) = false

-- `__post_init__`
unfoldable pub question_of : Host → Draft → Result QuestionError Question
question_of h d =
    if h.strip d.event_id == ""
    then err event_id_empty
    else if h.strip d.location_name == ""
    then err location_name_empty
    else if not (in_range 90000000 d.latitude)
    then err latitude_range
    else if not (in_range 180000000 d.longitude)
    then err longitude_range
    else if not (d.metric == "precipitation")
    then err metric_unsupported
    else if not (d.precipitation_type == "measurable")
    then err type_unsupported
    else if not (d.operator == ">")
    then err operator_unsupported
    else if not (is_supported_threshold d.threshold_mm)
    then err threshold_unsupported
    else in_utc d (ensure_utc d.horizon_start) (ensure_utc d.horizon_end)
        (ensure_utc d.forecast_cutoff)

-- `to_dict`
unfoldable pub question_dict : Question → Fields
question_dict q = of_pairs (
    ("event_id", text q.event_id)
    ∷ ("location_name", text q.location_name)
    ∷ ("latitude", real q.latitude)
    ∷ ("longitude", real q.longitude)
    ∷ ("horizon_start", text (iso_utc q.horizon_start))
    ∷ ("horizon_end", text (iso_utc q.horizon_end))
    ∷ ("forecast_cutoff", text (iso_utc q.forecast_cutoff))
    ∷ ("threshold_mm", real q.threshold_mm)
    ∷ ("metric", text q.metric)
    ∷ ("precipitation_type", text q.precipitation_type)
    ∷ ("operator", text q.operator)
    ∷ ("timezone", text q.timezone)
    ∷ ("spatial_semantics", text q.spatial_semantics)
    ∷ [])
