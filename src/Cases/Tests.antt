-- ===== src/Cases/Tests.antt =====
-- One case from its creation to its resolution, run on the case store, and the theorems applied there.
use oathcast.Cases.Once.{create-exclusive}
use oathcast.Prelude.{
  Bool, true, false, none, some, List, [], ◌∷◌, ◌≡◌, refl, ◌==◌, if◌then◌else◌, is_some, map, ◌&&◌,
  arith,
}
use oathcast.Prelude.Int.{pos}
use oathcast.Prelude.Moment.{Moment}
use oathcast.Prelude.Exec.{ok, err}
use oathcast.Json.Numbers.{to_float, truthy}
use oathcast.Json.{
  Host, Fields, null, text, object, array, number, real, boolean, of_pairs, nil, cons,
}
use oathcast.Json.TestHost.{test_host}
use oathcast.Forecast.{question_dict, Question}
use oathcast.GroundTruth.{Observation}
use oathcast.Cases.Store.{
  Driver, CaseRow, Store, different_request, Binding, reply_id_of, different_decision,
  different_question,
}
use oathcast.Cases.Create.{
  bind_application_request, bind_at, create, binding_of, create_row, create_at, new_case,
}
use oathcast.Cases.Later.{Later, IsOrdered}
use oathcast.Cases.Replies.{probability_x10000}
use oathcast.Cases.History.{
  create_call, resolve_call, reply_call, seal_call, Call, replay, perform, replay-Grows,
}
use oathcast.Cases.Exclusive.{bind-exclusive}
use oathcast.Clock.{format_timestamp, iso_utc}
use oathcast.Cases.Resolve.{resolve, resolve_row, resolve_sealed, insert_observation}
use oathcast.Cases.Replies.{record_reply, insert_reply}
use oathcast.Cases.Seal.{
  seal_decision, seal_row, seal_new, seal_evidence, mark_sealed, project_replies,
}
use oathcast.Cases.Read.{get_case}
use oathcast.Json.Dumps.{dumps, sha256_json}
use oathcast.Cases.Sealed.{seal_row-again}

abbrev host : Host
host = record test_host { json_loads = λ s. some null }

abbrev driver : Driver
driver = record {
  text_column = λ v. elim v [ text s ↦ some (some s) | null ↦ some none | _ ↦ none ];
  real_column = λ v. some v;
}

abbrev empty_store : Store
empty_store = record {
  cases = [];
  bindings = [];
  replies = [];
  decisions = [];
  observations = [];
  resolutions = [];
}

abbrev noon : Moment
noon = record { micros = 43200000000; aware = true }

abbrev question : Question
question = record {
  event_id = "rain";
  location_name = "Paris";
  latitude = pos 48850000;
  longitude = pos 2350000;
  horizon_start = 43200000000;
  horizon_end = 46800000000;
  forecast_cutoff = 39600000000;
  threshold_mm = pos 100000;
  metric = "precipitation";
  precipitation_type = "measurable";
  operator = ">";
  timezone = "UTC";
  spatial_semantics = "point";
}

abbrev reply : Fields
reply = of_pairs (("miner_id", text "m1") ∷ ("probability", real (pos 700000)) ∷ [])

abbrev decision : Fields
decision = of_pairs (
    ("event_id", text "rain")
    ∷ ("replies", array (cons (object reply) nil))
    ∷ ("decided_at", text "1970-01-01T10:00:00Z")
    ∷ ("aggregate_probability", real (pos 700000))
    ∷ ("used_external_miner", boolean true)
    ∷ ("external_influence", boolean false)
    ∷ [])

abbrev observation : Observation
observation = record {
  event_id = "rain";
  latitude = pos 48850000;
  longitude = pos 2350000;
  window_start = 43200000000;
  window_end = 46800000000;
  precipitation_mm = pos 300000;
  source = "station";
  observation_id = "o1";
  observed_at = 46800000000;
}

abbrev truth : Fields
truth = of_pairs (
    ("event_id", text "rain")
    ∷ ("status", text "resolved")
    ∷ ("outcome", number (pos 1))
    ∷ ("observation_id", text "o1")
    ∷ ("resolved_at", text "1970-01-01T14:00:00Z")
    ∷ [])

abbrev calls : List Call
calls =
    create_call question none noon
    ∷ resolve_call "rain" truth (some observation) "strict_precipitation_v1"
    ∷ reply_call "rain" (object reply)
    ∷ seal_call "rain" decision (some noon) noon noon
    ∷ resolve_call "rain" truth (some observation) "strict_precipitation_v1"
    ∷ []

-- Of each case: is it sealed, is it resolved.
abbrev phases : List CaseRow → List (Bool × Bool)
phases = map (λ r. (is_some r.decision_json, is_some r.ground_truth_json))

empty-IsOrdered : IsOrdered empty_store
empty-IsOrdered = record { at = λ id r h. ground arith }

replay-Grows_example :
    Later empty_store (replay host driver calls empty_store)
    × IsOrdered (replay host driver calls empty_store)
replay-Grows_example = replay-Grows host driver calls empty_store empty-IsOrdered

abbrev binding : Binding
binding = binding_of "app" "key" "digest" "rain" "1970-01-01T12:00:00Z"

first_binding :
    bind_application_request "app" "key" "digest" "rain" (some noon) noon empty_store
    ≡ (ok tt, record empty_store { bindings = binding ∷ [] })
unfolding bind_application_request bind_at format_timestamp iso_utc
first_binding = refl

bind-exclusive_example :
    bind_application_request "app" "key" "other" "rain"
      (some noon)
      noon
      (replay host driver calls (record empty_store { bindings = binding ∷ [] }))
    ≡ (if "digest" == "other" && "rain" == "rain"
        then (ok tt, replay host driver calls (record empty_store { bindings = binding ∷ [] }))
        else (
          err different_request,
          replay host driver calls (record empty_store { bindings = binding ∷ [] }),
        ))
bind-exclusive_example =
    bind-exclusive host driver "app" "key" "digest" "rain" "other" "rain" (some noon) noon noon noon
      calls empty_store (record empty_store { bindings = binding ∷ [] }) empty-IsOrdered
      first_binding refl

-- The resolution before the decision has written nothing; the reply is there once.
whole_run : phases (replay host driver calls empty_store).cases ≡ (true, true) ∷ []
unfolding replay perform create create_row create_at new_case resolve resolve_row resolve_sealed
    insert_observation record_reply insert_reply seal_decision seal_row seal_new seal_evidence
    mark_sealed project_replies get_case format_timestamp iso_utc dumps sha256_json reply_id_of
    to_float question_dict truthy
whole_run = refl

abbrev created : List Call
created = create_call question none noon ∷ []

created_now :
    create_row host question none noon empty_store ≡ (ok tt, replay host driver created empty_store)
unfolding replay perform create create_row create_at new_case insert_reply format_timestamp iso_utc
    dumps sha256_json question_dict get_case
created_now = refl

create-exclusive_example :
    create_row host question
      (some noon)
      noon
      (replay host driver calls (replay host driver created empty_store))
    ≡ (if dumps host (object (question_dict question))
          == dumps host (object (question_dict question))
        then (ok tt, replay host driver calls (replay host driver created empty_store))
        else (
          err different_question,
          replay host driver calls (replay host driver created empty_store),
        ))
create-exclusive_example =
    create-exclusive host driver question question none noon noon noon calls empty_store
      (replay host driver created empty_store) created_now
      (replay-Grows host driver created empty_store empty-IsOrdered).1 refl refl

sealed_now :
    seal_row host driver "rain" decision
      (some noon)
      noon
      noon
      (replay host driver created empty_store)
    ≡ (
      ok tt,
      (seal_row host driver "rain" decision
          (some noon)
          noon
          noon
          (replay host driver created empty_store)).1,
    )
unfolding replay perform create create_row create_at new_case insert_reply seal_row seal_new
    seal_evidence mark_sealed project_replies get_case format_timestamp iso_utc dumps sha256_json
    reply_id_of to_float question_dict truthy probability_x10000
sealed_now = refl

seal_row-again_example :
    seal_row host driver "rain" reply none noon noon (
      replay host driver calls
        (seal_row host driver "rain" decision
          (some noon)
          noon
          noon
          (replay host driver created empty_store)).1)
    ≡ (if dumps host (object decision) == dumps host (object reply)
        then (
          ok tt,
          replay host driver calls
              (seal_row host driver "rain" decision
                (some noon)
                noon
                noon
                (replay host driver created empty_store)).1,
        )
        else (
          err different_decision,
          replay host driver calls
              (seal_row host driver "rain" decision
                (some noon)
                noon
                noon
                (replay host driver created empty_store)).1,
        ))
seal_row-again_example =
    seal_row-again host driver "rain" decision reply (some noon) none noon noon noon noon calls
      (replay host driver created empty_store)
      (seal_row host driver "rain" decision (some noon) noon noon
        (replay host driver created empty_store)).1
      (replay-Grows host driver created empty_store empty-IsOrdered).1 sealed_now
