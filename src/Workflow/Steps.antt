-- ===== src/Workflow/Steps.antt =====
-- `ApplicationWorkflow` of src/oathcast/workflow.py.
use oathcast.Prelude.{
  String, Bool, true, false, not, Option, none, some, List, [], ◌∷◌, is_some, if◌then◌else◌,
}
use oathcast.Prelude.Int.{ℤ}
use oathcast.Prelude.Moment.{Moment}
use oathcast.Prelude.Exec.{Result, ok, err, Exec, pure, raise_if, gets, ◌>>=◌, ◌>>◌}
use oathcast.Json.{Value, null}
use oathcast.Forecast.{Question}
use oathcast.GroundTruth.{Observation, TruthError}
use oathcast.GroundTruth.Resolve.{Truth, resolve_precipitation, truth_dict}
use oathcast.Cases.Store.{Error, Driver, CaseRow, Store, Cases}
use oathcast.Cases.Create.{create}
use oathcast.Cases.Resolve.{resolve as resolve_stored}
use oathcast.Cases.Seal.{seal_decision}
use oathcast.Cases.Read.{CaseView, Loaded, get_case}
use oathcast.Router.Paying.{CallFault}
use oathcast.Router.Reply.{Router}
use oathcast.Router.Decide.{decide as route, Decision, decision_dict}

pub data WorkflowError : Type 0 where
  case_error : Error → WorkflowError
  call_error : CallFault → WorkflowError
  truth_error : TruthError → WorkflowError
  observation_error : String → WorkflowError
  already_sealed : WorkflowError

-- The observation source is an interface of the source too.
pub record Workflow (S : Type 0) : Type 0 where
  pub router : Router S
  pub driver : Driver
  pub observe : Question → Exec S String (Option Observation)
  pub clock : S → Moment

-- The case store, and the state of everything outside.
pub record Work (S : Type 0) : Type 0 where
  pub store : Store
  pub outside : S

-- `case.get("decision")`
abbrev second : List Value → Value
second [] = null
second (v ∷ []) = null
second (v ∷ w ∷ vs) = w

abbrev pub decision_value : Loaded CaseRow → Value
decision_value l = if is_some l.row.decision_json then second l.values else null

abbrev is_null : Value → Bool
is_null null = true
is_null _ = false

abbrev pub has_decision : Option CaseView → Bool
has_decision none = false
has_decision (some v) = not (is_null (decision_value v.case_row))

abbrev pub at_instant : Decision → Option Moment
at_instant d = some (record { micros = d.decided_at; aware = true })

module _ {S : Type 0} where
  abbrev pub from_store :
      {A : Type 0} → S → Result Error A × Store → Result WorkflowError A × Work S
  from_store o (ok a, s) = (ok a, record { store = s; outside = o })
  from_store o (err e, s) = (err (case_error e), record { store = s; outside = o })

  abbrev pub on_store : {A : Type 0} → Cases A → Exec (Work S) WorkflowError A
  on_store m w = from_store w.outside (m w.store)

  abbrev pub from_outside :
      {A E : Type 0}
      → (E → WorkflowError)
      → Store
      → Result E A × S
      → Result WorkflowError A × Work S
  from_outside f t (ok a, o) = (ok a, record { store = t; outside = o })
  from_outside f t (err e, o) = (err (f e), record { store = t; outside = o })

  abbrev pub on_outside :
      {A E : Type 0} → (E → WorkflowError) → Exec S E A → Exec (Work S) WorkflowError A
  on_outside f m w = from_outside f w.store (m w.outside)

  abbrev pub checked : Result TruthError Truth → Exec (Work S) WorkflowError Truth
  checked (ok t) w = (ok t, w)
  checked (err e) w = (err (truth_error e), w)

  -- The part of `decide` before the router is asked.
  unfoldable pub open_case : Workflow S → Question → Exec (Work S) WorkflowError (Unit {0})
  open_case f q = do
    now ← gets (λ w. f.clock w.outside)
    on_store (create f.router.host q (some now) now)
    existing ← on_store (get_case f.router.host q.event_id)
    raise_if (has_decision existing) already_sealed

  -- `self.case_store.seal_decision(…)`
  unfoldable pub seal : Workflow S → Question → Decision → Exec (Work S) WorkflowError Decision
  seal f q d = do
    now ← gets (λ w. f.clock w.outside)
    on_store (
        seal_decision f.router.host f.driver q.event_id (decision_dict f.router.host d)
          (at_instant d) now now)
    pure d

  -- `decide`
  unfoldable pub decide :
      Workflow S
      → Question
      → Bool
      → Option String
      → ℤ
      → String
      → Exec (Work S) WorkflowError Decision
  unfolding open_case seal
  decide f q disable_owned request_id threshold uuid = do
    open_case f q
    d ← on_outside call_error (route f.router q disable_owned request_id threshold uuid)
    seal f q d

  -- `resolve`
  unfoldable pub resolve : Workflow S → Question → Exec (Work S) WorkflowError Truth
  resolve f q = do
    observation ← on_outside observation_error (f.observe q)
    now ← gets (λ w. f.clock w.outside)
    truth ← checked (resolve_precipitation f.router.host q observation now)
    on_store (
        resolve_stored f.router.host f.driver q.event_id (truth_dict truth) observation
          "strict_precipitation_v1")
    pure truth
