-- ===== src/Cases/Store.antt =====
-- The tables of src/oathcast/cases.py, and what its methods compute of a reply before they write it.
-- The SQLite driver's conversion of a bound value to a column is outside: a `none` is a value that it
-- does not bind.
use oathcast.Prelude.{String, ◌==◌, Bool, Option, none, some, List, [], ◌∷◌, if◌then◌else◌}
use oathcast.Prelude.Int.{ℤ}
use oathcast.Prelude.Moment.{Moment}
use oathcast.Prelude.Exec.{Result, ok, err, Exec}
use oathcast.Clock.{format_timestamp}
use oathcast.Json.{Host, Value, Fields, null, text, object, get, get_or, of_pairs}
use oathcast.Json.Dumps.{dumps, sha256_json}
use oathcast.Json.Numbers.{to_float}

pub data Error : Type 0 where
  different_question different_request reply_not_object decision_event_mismatch : Error
  different_decision replies_not_list malformed_reply threshold_out_of_range : Error
  observation_event_mismatch different_evidence truth_event_mismatch : Error
  observation_id_mismatch : Error
  case_not_created binding_not_stored no_case not_sealed observation_not_retained : Error
  missing_key not_a_number not_bindable naive_timestamp unreadable_row : Error

pub record Driver : Type 0 where
  pub text_column : Value → Option (Option String)
  pub real_column : Value → Option Value

pub record CaseRow : Type 0 where
  pub event_id : String
  pub question_json : String
  pub question_sha256 : String
  pub contract_version : String
  pub created_at : String
  pub decision_json : Option String
  pub decision_sealed_at : Option String
  pub frozen_at : Option String
  pub ground_truth_json : Option String
  pub resolved_at : Option String

pub record Binding : Type 0 where
  pub principal_id : String
  pub idempotency_key : String
  pub request_sha256 : String
  pub event_id : String
  pub created_at : String

pub record ReplyRow : Type 0 where
  pub reply_id : String
  pub event_id : String
  pub miner_id : String
  pub slug : String
  pub owned : Bool
  pub raw_response_json : String
  pub raw_response_sha256 : String
  pub received_at : Option String
  pub latency_ms : Value
  pub probability_x10000 : Option ℤ
  pub parser_version : String
  pub validity_reason : Option String
  pub request_id : Option String
  pub protocol_receipt_json : Option String
  pub response_body_sha256 : Option String

pub record DecisionRow : Type 0 where
  pub decision_id : String
  pub event_id : String
  pub decision_json : String
  pub reply_ids_json : String
  pub policy_json : String
  pub decision_sha256 : String
  pub decided_at : String

pub record ObservationRow : Type 0 where
  pub observation_id : String
  pub event_id : String
  pub observation_json : String
  pub observation_sha256 : String
  pub source : String
  pub window_start : String
  pub window_end : String
  pub precipitation_micrometres : ℤ
  pub observed_at : String

pub record ResolutionRow : Type 0 where
  pub resolution_id : String
  pub event_id : String
  pub resolution_json : String
  pub resolution_sha256 : String
  pub observation_id : Option String
  pub resolver_version : String
  pub resolved_at : String

pub record Store : Type 0 where
  pub cases : List CaseRow
  pub bindings : List Binding
  pub replies : List ReplyRow
  pub decisions : List DecisionRow
  pub observations : List ObservationRow
  pub resolutions : List ResolutionRow

abbrev pub Cases : Type 0 → Type 0
Cases A = Exec Store Error A

-- WHERE event_id = ?
abbrev pub of_event : String → CaseRow → Bool
of_event id r = r.event_id == id

abbrev given_or_now : Option Moment → Moment → Moment
given_or_now none now = now
given_or_now (some m) now = m

abbrev formatted : Option String → Result Error String
formatted none = err naive_timestamp
formatted (some s) = ok s

-- `_timestamp(value)`: of the given datetime or else of the clock
abbrev pub timestamp : Option Moment → Moment → Result Error String
timestamp given now = formatted (format_timestamp (given_or_now given now))

-- `d[key]`
abbrev pub required : String → Fields → Result Error Value
required k fs = elim (get k fs) [ none ↦ err missing_key | some v ↦ ok v ]

-- `float(v)`, where the errors of `float` end the method
abbrev pub float_or_error : Host → Value → Result Error ℤ
float_or_error h v = elim (to_float h v) [ none ↦ err not_a_number | some x ↦ ok x ]

-- A bound parameter of a TEXT column.
abbrev pub text_param : Driver → Value → Result Error (Option String)
text_param d v = elim (d.text_column v) [ none ↦ err not_bindable | some c ↦ ok c ]

abbrev pub real_param : Driver → Value → Result Error Value
real_param d v = elim (d.real_column v) [ none ↦ err not_bindable | some c ↦ ok c ]

-- `_reply_id`
unfoldable pub reply_id_of : Host → String → Fields → String
reply_id_of h event_id reply = sha256_json h (
    object (
      of_pairs (
        ("event_id", text event_id)
        ∷ ("miner_id", get_or "miner_id" null reply)
        ∷ ("request_id", get_or "request_id" null reply)
        ∷ ("raw_response", get_or "raw_response" null reply)
        ∷ ("parser_version", get_or "parser_version" (text "probability_extractor_v1") reply)
        ∷ [])))

-- A text that is not empty.
abbrev pub text_or_none : Value → Option String
text_or_none (text s) = if s == "" then none else some s
text_or_none _ = none

pub record Projection : Type 0 where
  pub request_id : Option String
  pub protocol_receipt_json : Option String
  pub response_body_sha256 : Option String

abbrev of_receipt : Host → Option String → Value → Projection
of_receipt h id (object receipt) = record {
  request_id = id;
  protocol_receipt_json = some (dumps h (object receipt));
  response_body_sha256 = text_or_none (get_or "response_body_sha256" null receipt);
}
of_receipt h id _ = record {
  request_id = id;
  protocol_receipt_json = none;
  response_body_sha256 = none;
}

abbrev of_protocol : Host → Option String → Value → Projection
of_protocol h id (object protocol) = of_receipt h id (get_or "receipt" null protocol)
of_protocol h id _ = of_receipt h id null

-- `_protocol_projection_fields`
unfoldable pub protocol_projection_fields : Host → Fields → Projection
protocol_projection_fields h reply =
    of_protocol h (text_or_none (get_or "request_id" null reply))
      (get_or "protocol_result" null reply)
