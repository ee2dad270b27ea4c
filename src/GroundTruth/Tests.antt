-- ===== src/GroundTruth/Tests.antt =====
-- An hour with rain over Paris, resolved from a station's reading.
use oathcast.Prelude.{◌≡◌, refl, true, some, none, ℕ, ◌*◌}
use oathcast.Prelude.Int.{pos}
use oathcast.Prelude.Moment.{Moment}
use oathcast.Prelude.Exec.{ok}
use oathcast.Clock.{ensure_utc}
use oathcast.Json.Numbers.{round_div_ℤ}
use oathcast.Json.TestHost.{test_host}
use oathcast.Forecast.{Draft, Question, question_of}
use oathcast.GroundTruth.{Reading, Observation, observation_of, precipitation_micrometres}
use oathcast.GroundTruth.Resolve.{resolve_precipitation, issue_of, outcome_of, Truth}
use oathcast.GroundTruth.Verdict.{IsVerdict, resolve_precipitation-IsVerdict}

abbrev at : ℕ → Moment
at hour = record { micros = 3600000000 * hour; aware = true }

abbrev draft : Draft
draft = record {
  event_id = "rain";
  location_name = "Paris";
  latitude = pos 48850000;
  longitude = pos 2350000;
  horizon_start = at 12;
  horizon_end = at 13;
  forecast_cutoff = at 11;
  threshold_mm = pos 100000;
  metric = "precipitation";
  precipitation_type = "measurable";
  operator = ">";
  timezone = "UTC";
  spatial_semantics = "point";
}

abbrev question : Question
question = record {
  event_id = "rain";
  location_name = "Paris";
  latitude = pos 48850000;
  longitude = pos 2350000;
  horizon_start = 43200000000;
  horizon_end = 46800000000;
  forecast_cutoff = 39600000000;
  threshold_mm = pos 100000;
  metric = "precipitation";
  precipitation_type = "measurable";
  operator = ">";
  timezone = "UTC";
  spatial_semantics = "point";
}

abbrev reading : Reading
reading = record {
  event_id = "rain";
  latitude = pos 48850050;
  longitude = pos 2350000;
  window_start = at 12;
  window_end = at 13;
  precipitation_mm = pos 100501;
  source = "station";
  observation_id = "o1";
  observed_at = at 13;
}

abbrev observation : Observation
observation = record {
  event_id = "rain";
  latitude = pos 48850050;
  longitude = pos 2350000;
  window_start = 43200000000;
  window_end = 46800000000;
  precipitation_mm = pos 100501;
  source = "station";
  observation_id = "o1";
  observed_at = 46800000000;
}

accepted_question : question_of test_host draft ≡ ok question
unfolding question_of ensure_utc
accepted_question = refl

accepted_observation : observation_of test_host reading ≡ ok observation
unfolding observation_of ensure_utc
accepted_observation = refl

no_issue : issue_of question observation ≡ none
unfolding issue_of
no_issue = refl

-- 0.100501 mm are 101 micrometres, above the 100 of the threshold.
rain : outcome_of question observation ≡ pos 1
unfolding round_div_ℤ precipitation_micrometres
rain = refl

resolve_precipitation-IsVerdict_example :
    (t : Truth) × (resolve_precipitation test_host question (some observation) (at 14) ≡ ok t)
    × IsVerdict question observation 50400000000 t
resolve_precipitation-IsVerdict_example =
    resolve_precipitation-IsVerdict test_host draft reading question observation (at 14)
      accepted_question accepted_observation refl
