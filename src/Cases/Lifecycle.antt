-- ===== src/Cases/Lifecycle.antt =====
-- The methods of src/oathcast/cases.py, one by one, under the rules of `Keeps`.
use oathcast.Prelude.{
  String, Option, none, some, refl, Bool, true, false, ◌≡◌, Bool-cases, is_some, inr, inl, List,
}
use oathcast.Prelude.Moment.{Moment}
use oathcast.Prelude.Exec.{modify}
use oathcast.Json.{Host, Fields, Value, Items, object, cons, boolean, number, real, text, array}
use oathcast.Forecast.{Question}
use oathcast.Cases.Store.{
  CaseRow, Store, Binding, ReplyRow, Driver, DecisionRow, ObservationRow, of_event, Cases,
}
use oathcast.Cases.Read.{get_case}
use oathcast.Cases.Create.{
  create_row, new_case, same_question, add_case, create, bind_application_request, same_request,
  add_binding,
}
use oathcast.Json.{null}
use oathcast.Json.{nil}
use oathcast.Cases.Later.{IsSealed-lasts, Later, Later-refl, IsSealed, IsOrdered}
use oathcast.Cases.Keeps.{Keeps, keeps_rules, Grows, Keeps-transaction}
use oathcast.Cases.Writes.{
  add_case-Grows, seal_case-Grows, add_binding-Grows, add_reply-Grows, add_decision-Grows,
  add_observation-Grows, add_resolution-Grows, resolve_case-Grows,
}
use oathcast.Cases.Replies.{insert_reply, require_case, record_reply, add_reply, record_fields}
use oathcast.Cases.Seal.{
  project_replies, seal_case, seal_new, seal_row, seal_decision, add_decision, seal_found,
  project_one, seal_evidence, mark_sealed,
}
use oathcast.Cases.Resolve.{
  insert_observation, observe_row, record_observation, resolve_sealed, add_observation,
  add_resolution, keep_first, retain, resolve_row, resolve_found, resolve,
}
use oathcast.GroundTruth.{Observation}
use oathcast.Prelude.Int.{ℤ}
use oathcast.Prelude.Keyed.{find}

module _ (pre : Store → Type 0) (lasts : (s s' : Store) → pre s → Later s s' → pre s') where
  get_case-Keeps : (h : Host) (id : String) → Keeps pre lasts (get_case h id)
  unfolding get_case
  get_case-Keeps h id = record { at = λ s o _. (Later-refl s, o) }

  same_question-Keeps :
      (new : CaseRow) (row : Option CaseRow) → Keeps pre lasts (same_question new row)
  same_question-Keeps new none = search keeps_rules
  same_question-Keeps new (some r) = search keeps_rules

  create_row-Keeps :
      (h : Host) (q : Question) (created_at : Option Moment) (now : Moment)
      → Keeps pre lasts (create_row h q created_at now)
  unfolding create_row new_case
  create_row-Keeps h q created_at now = search (keeps_rules, same_question-Keeps, add-Keeps) depth 9
    where
      add-Keeps : (at : String) → Keeps pre lasts (modify (add_case (new_case h q at)))
      add-Keeps at = record { at = λ s o _. add_case-Grows (new_case h q at) refl s o }

  pub create-Keeps :
      (h : Host) (q : Question) (created_at : Option Moment) (now : Moment)
      → Keeps pre lasts (create h q created_at now)
  unfolding create
  create-Keeps h q created_at now = search (keeps_rules, create_row-Keeps, get_case-Keeps)

  same_request-Keeps :
      (request event : String) (b : Option Binding) → Keeps pre lasts (same_request request event b)
  same_request-Keeps request event none = search keeps_rules
  same_request-Keeps request event (some b) = search keeps_rules

  add_binding-Keeps : (b : Binding) → Keeps pre lasts (modify (add_binding b))
  add_binding-Keeps b = record { at = λ s o _. add_binding-Grows b s o }

  pub bind-Keeps :
      (principal key request event : String) (created_at : Option Moment) (now : Moment)
      → Keeps pre lasts (bind_application_request principal key request event created_at now)
  unfolding bind_application_request
  bind-Keeps principal key request event created_at now =
      search (keeps_rules, same_request-Keeps, add_binding-Keeps) depth 9

  add_reply-Keeps : (r : ReplyRow) → Keeps pre lasts (modify (add_reply r))
  add_reply-Keeps r = record { at = λ s o _. add_reply-Grows r s o }

  insert_reply-Keeps :
      (h : Host) (d : Driver) (event : String) (reply : Fields) (at : Value) (p : Option ℤ)
      → Keeps pre lasts (insert_reply h d event reply at p)
  unfolding insert_reply
  insert_reply-Keeps h d event reply at p = search (keeps_rules, add_reply-Keeps) depth 9

  require_case-Keeps : (event : String) → Keeps pre lasts (require_case event)
  require_case-Keeps event = search keeps_rules

  record_fields-Keeps :
      (h : Host) (d : Driver) (event : String) (reply : Fields)
      → Keeps pre lasts (record_fields h d event reply)
  record_fields-Keeps h d event reply =
      search (keeps_rules, require_case-Keeps, insert_reply-Keeps) depth 9

  pub record_reply-Keeps :
      (h : Host) (d : Driver) (event : String) (reply : Value)
      → Keeps pre lasts (record_reply h d event reply)
  unfolding record_reply
  record_reply-Keeps h d event (object reply) = record_fields-Keeps h d event reply
  record_reply-Keeps h d event null = search keeps_rules
  record_reply-Keeps h d event (boolean b) = search keeps_rules
  record_reply-Keeps h d event (number n) = search keeps_rules
  record_reply-Keeps h d event (real r) = search keeps_rules
  record_reply-Keeps h d event (text s) = search keeps_rules
  record_reply-Keeps h d event (array vs) = search keeps_rules

  project_one-Keeps :
      (h : Host) (d : Driver) (event : String) (payload reply : Fields) (m : Cases (List String))
      → Keeps pre lasts m
      → Keeps pre lasts (project_one h d event payload reply m)
  unfolding project_one
  project_one-Keeps h d event payload reply m k = search (keeps_rules, insert_reply-Keeps) depth 9

  project_replies-Keeps :
      (h : Host) (d : Driver) (event : String) (payload : Fields) (vs : Items)
      → Keeps pre lasts (project_replies h d event payload vs)
  unfolding project_replies
  project_replies-Keeps h d event payload nil = search keeps_rules
  project_replies-Keeps h d event payload (cons (object reply) rest) =
      project_one-Keeps h d event payload reply (project_replies h d event payload rest)
        (project_replies-Keeps h d event payload rest)
  project_replies-Keeps h d event payload (cons null rest) = search keeps_rules
  project_replies-Keeps h d event payload (cons (boolean b) rest) = search keeps_rules
  project_replies-Keeps h d event payload (cons (number n) rest) = search keeps_rules
  project_replies-Keeps h d event payload (cons (real r) rest) = search keeps_rules
  project_replies-Keeps h d event payload (cons (text s) rest) = search keeps_rules
  project_replies-Keeps h d event payload (cons (array vs) rest) = search keeps_rules

  add_decision-Keeps : (r : DecisionRow) → Keeps pre lasts (modify (add_decision r))
  add_decision-Keeps r = record { at = λ s o _. add_decision-Grows r s o }

  seal_case-Keeps :
      (event decision sealed frozen : String)
      → Keeps pre lasts (modify (seal_case event decision sealed frozen))
  seal_case-Keeps event decision sealed frozen = record {
    at = λ s o _. seal_case-Grows event decision sealed frozen s o;
  }

  seal_evidence-Keeps :
      (h : Host) (d : Driver) (event : String) (payload : Fields)
      → Keeps pre lasts (seal_evidence h d event payload)
  unfolding seal_evidence
  seal_evidence-Keeps h d event payload =
      search (keeps_rules, project_replies-Keeps, add_decision-Keeps) depth 20

  mark_sealed-Keeps :
      (h : Host) (event : String) (payload : Fields) (at : Option Moment) (now later : Moment)
      → Keeps pre lasts (mark_sealed h event payload at now later)
  unfolding mark_sealed
  mark_sealed-Keeps h event payload at now later = search (keeps_rules, seal_case-Keeps) depth 9

  seal_new-Keeps :
      (h : Host) (d : Driver) (event : String) (payload : Fields) (at : Option Moment)
      (now later : Moment)
      → Keeps pre lasts (seal_new h d event payload at now later)
  unfolding seal_new
  seal_new-Keeps h d event payload at now later =
      search (keeps_rules, seal_evidence-Keeps, mark_sealed-Keeps)

  seal_found-Keeps :
      (h : Host) (d : Driver) (event : String) (payload : Fields) (at : Option Moment)
      (now later : Moment) (found : Option (Option String))
      → Keeps pre lasts (seal_found h d event payload at now later found)
  seal_found-Keeps h d event payload at now later none = search keeps_rules
  seal_found-Keeps h d event payload at now later (some (some sealed)) = search keeps_rules
  seal_found-Keeps h d event payload at now later (some none) =
      seal_new-Keeps h d event payload at now later

  pub seal_row-Keeps :
      (h : Host) (d : Driver) (event : String) (payload : Fields) (at : Option Moment)
      (now later : Moment)
      → Keeps pre lasts (seal_row h d event payload at now later)
  unfolding seal_row
  seal_row-Keeps h d event payload at now later = search (keeps_rules, seal_found-Keeps)

  pub seal_decision-Keeps :
      (h : Host) (d : Driver) (event : String) (payload : Fields) (at : Option Moment)
      (now later : Moment)
      → Keeps pre lasts (seal_decision h d event payload at now later)
  unfolding seal_decision
  seal_decision-Keeps h d event payload at now later =
      search (keeps_rules, seal_row-Keeps, get_case-Keeps)

  add_observation-Keeps : (r : ObservationRow) → Keeps pre lasts (modify (add_observation r))
  add_observation-Keeps r = record { at = λ s o _. add_observation-Grows r s o }

  insert_observation-Keeps :
      (h : Host) (event : String) (o : Observation) → Keeps pre lasts (insert_observation h event o)
  unfolding insert_observation
  insert_observation-Keeps h event o = search (keeps_rules, add_observation-Keeps) depth 9

  observe_row-Keeps :
      (h : Host) (event : String) (o : Observation) → Keeps pre lasts (observe_row h event o)
  unfolding observe_row
  observe_row-Keeps h event o = search (keeps_rules, require_case-Keeps, insert_observation-Keeps)

  pub record_observation-Keeps :
      (h : Host) (event : String) (o : Observation) → Keeps pre lasts (record_observation h event o)
  unfolding record_observation
  record_observation-Keeps h event o = search (keeps_rules, observe_row-Keeps, get_case-Keeps)

  retain-Keeps :
      (h : Host) (event : String) (payload : Fields) (o : Option Observation)
      → Keeps pre lasts (retain h event payload o)
  retain-Keeps h event payload none = search keeps_rules
  retain-Keeps h event payload (some o) = search (keeps_rules, insert_observation-Keeps)

  add_resolution-Keeps :
      (h : Host) (event : String) (payload : Fields) (version : String) (id at : Option String)
      → Keeps pre lasts (modify (add_resolution h event payload version id at))
  add_resolution-Keeps h event payload version id at = record {
    at = λ s o _. add_resolution-Grows h event payload version id at s o;
  }

keep_first-Keeps :
    (event truth : String) (at : Option String) (found : Bool)
    → Keeps (IsSealed event) (IsSealed-lasts event) (keep_first event truth at found)
keep_first-Keeps event truth at true = search keeps_rules
keep_first-Keeps event truth at false = record {
  at = λ s o sealed. resolve_case-Grows event truth at s o sealed;
}

resolve_sealed-Keeps :
    (h : Host) (d : Driver) (event : String) (payload : Fields) (o : Option Observation)
    (version : String) (row : CaseRow)
    → Keeps (IsSealed event) (IsSealed-lasts event) (resolve_sealed h d event payload o version row)
unfolding resolve_sealed
resolve_sealed-Keeps h d event payload o version row =
    search
      (
        keeps_rules,
        retain-Keeps (IsSealed event) (IsSealed-lasts event),
        keep_first-Keeps,
        add_resolution-Keeps (IsSealed event) (IsSealed-lasts event),
      )
      depth 9

module _ (h : Host) (d : Driver) (event : String) (payload : Fields) (o : Option Observation)
    (version : String) where
  -- With the row that was read, the case is sealed unless the method raises.
  resolve_found-Grows :
      (row : Option CaseRow) (s : Store)
      → find (of_event event) s.cases ≡ row
      → IsOrdered s
      → Grows s (resolve_found h d event payload o version row s).1
  resolve_found-Grows none s e ordered = (Later-refl s, ordered)
  resolve_found-Grows (some r) s e ordered = elim (Bool-cases (is_some r.decision_json)) [
    | inr undecided ↦ rw undecided (Later-refl s, ordered)
    | inl decided ↦ rw decided (
        (resolve_sealed-Keeps h d event payload o version r).at s ordered
          (record { row = r; present = e; decided = decided }))
  ]

module _ (pre : Store → Type 0) (lasts : (s s' : Store) → pre s → Later s s' → pre s') where
  resolve_row-Keeps :
      (h : Host) (d : Driver) (event : String) (payload : Fields) (o : Option Observation)
      (version : String)
      → Keeps pre lasts (resolve_row h d event payload o version)
  unfolding resolve_row
  resolve_row-Keeps h d event payload o version = Keeps-transaction pre lasts _ (record {
    at = λ s ordered _.
        resolve_found-Grows h d event payload o version (find (of_event event) s.cases) s refl
          ordered;
  })

  pub resolve-Keeps :
      (h : Host) (d : Driver) (event : String) (payload : Fields) (o : Option Observation)
      (version : String)
      → Keeps pre lasts (resolve h d event payload o version)
  unfolding resolve
  resolve-Keeps h d event payload o version =
      search (keeps_rules, resolve_row-Keeps, get_case-Keeps pre lasts)
