-- ===== src/Cases/Create.antt =====
-- `create` and `bind_application_request` of src/oathcast/cases.py.
use oathcast.Prelude.{String, ◌==◌, Bool, not, ◌&&◌, ◌||◌, Option, none, some}
use oathcast.Prelude.Keyed.{find, insert_or_ignore}
use oathcast.Prelude.Moment.{Moment}
use oathcast.Prelude.Exec.{raise, gets, modify, raise_if, transaction, ◌>>=◌, ◌>>◌, lift}
use oathcast.Json.{Host, object}
use oathcast.Json.Dumps.{dumps, sha256_json}
use oathcast.Forecast.{Question, question_dict}
use oathcast.Cases.Store.{
  different_question, different_request, case_not_created, binding_not_stored, CaseRow, Binding,
  Store, Cases, of_event, timestamp,
}
use oathcast.Cases.Read.{CaseView, get_case}

unfoldable pub new_case : Host → Question → String → CaseRow
new_case h q at = record {
  event_id = q.event_id;
  question_json = dumps h (object (question_dict q));
  question_sha256 = sha256_json h (object (question_dict q));
  contract_version = "forecast_contract_v1";
  created_at = at;
  decision_json = none;
  decision_sealed_at = none;
  frozen_at = none;
  ground_truth_json = none;
  resolved_at = none;
}

abbrev pub add_case : CaseRow → Store → Store
add_case r s = record s { cases = insert_or_ignore (of_event r.event_id) r s.cases }

abbrev pub same_question : CaseRow → Option CaseRow → Cases (Unit {0})
same_question new none = raise case_not_created
same_question new (some r) =
    raise_if (not (r.question_json == new.question_json)) different_question

-- INSERT OR IGNORE, and the row that is then there.
unfoldable pub create_at : CaseRow → Cases (Unit {0})
create_at new = do
  modify (add_case new)
  row ← gets (λ s. find (of_event new.event_id) s.cases)
  same_question new row

-- The transaction of `create`.
unfoldable pub create_row : Host → Question → Option Moment → Moment → Cases (Unit {0})
unfolding create_at
create_row h q created_at now =
    transaction (do at ← lift (timestamp created_at now); create_at (new_case h q at))

-- `create`
unfoldable pub create : Host → Question → Option Moment → Moment → Cases (Option CaseView)
unfolding create_row
create h q created_at now = do create_row h q created_at now; get_case h q.event_id

abbrev pub of_key : String → String → Binding → Bool
of_key principal_id key b = b.principal_id == principal_id && b.idempotency_key == key

abbrev pub add_binding : Binding → Store → Store
add_binding b s = record s {
  bindings = insert_or_ignore (of_key b.principal_id b.idempotency_key) b s.bindings;
}

abbrev pub same_request : String → String → Option Binding → Cases (Unit {0})
same_request request_sha256 event_id none = raise binding_not_stored
same_request request_sha256 event_id (some b) =
    raise_if (not (b.request_sha256 == request_sha256) || not (b.event_id == event_id))
      different_request

abbrev pub binding_of : String → String → String → String → String → Binding
binding_of principal_id key request_sha256 event_id at = record {
  principal_id = principal_id;
  idempotency_key = key;
  request_sha256 = request_sha256;
  event_id = event_id;
  created_at = at;
}

-- INSERT OR IGNORE, and the row that is then there.
unfoldable pub bind_at : Binding → Cases (Unit {0})
bind_at new = do
  modify (add_binding new)
  existing ← gets (λ s. find (of_key new.principal_id new.idempotency_key) s.bindings)
  same_request new.request_sha256 new.event_id existing

-- `bind_application_request`
unfoldable pub bind_application_request :
    String → String → String → String → Option Moment → Moment → Cases (Unit {0})
unfolding bind_at
bind_application_request principal_id key request_sha256 event_id created_at now = transaction (do
  at ← lift (timestamp created_at now)
  bind_at (binding_of principal_id key request_sha256 event_id at))
