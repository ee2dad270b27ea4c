-- ===== src/Workflow/Closed.antt =====
-- `decide` of src/oathcast/workflow.py on a case that is decided already.
use oathcast.Prelude.Exec.{Result, ok, err, continue, Sure-ok, raise_if, Result-cases}
use oathcast.Cases.Store.{Error, Store, of_event, timestamp, CaseRow}
use oathcast.Cases.Create.{create, create_row, new_case}
use oathcast.Cases.Read.{CaseView, get_case, view}
use oathcast.Cases.Sealed.{Holds}
use oathcast.Cases.Exclusive.{create_row_lem, create_outcome, stamped}
use oathcast.Cases.Loaded.{ShowsCase, view-ShowsCase}
use oathcast.Workflow.Steps.{
  Workflow, Work, WorkflowError, already_sealed, from_store, open_case, decide, has_decision,
  case_error,
}
use oathcast.Prelude.{◌≡◌, Option, String, Bool, some, Bool-cases, ◌==◌, true, refl, inl, inr, sym}
use oathcast.Json.{Host, Fields, object}
use oathcast.Forecast.{Question}
use oathcast.Prelude.Moment.{Moment}
use oathcast.Prelude.Int.{ℤ}
use oathcast.Prelude.Keyed.{find}
use mathlib.Core.Path.{subst}

-- The store after is the store before.
abbrev Still : {A : Type 0} → Store → Result Error A × Store → Type 0
Still s p = p.1 ≡ s

-- `create` writes nothing for an event that has a case.
create-Still :
    (h : Host) (q : Question) (at : Option Moment) (now : Moment) (s : Store) (r : CaseRow)
    → find (of_event q.event_id) s.cases ≡ some r
    → Still s (create h q at now s)
unfolding create get_case
create-Still h q at now s r present =
    after (create_row h q at now s) (subst (Still s) (sym (create_row_lem h q at now s)) unwritten)
  where
    found : (new : CaseRow) → Still s (create_outcome new (find (of_event q.event_id) s.cases) s)
    found new = rw present (elim (Bool-cases (r.question_json == new.question_json)) [
      | inl same ↦ rw same refl
      | inr other ↦ rw other refl
    ])

    unwritten : Still s (
        stamped s
          (timestamp at now)
          (λ t. create_outcome (new_case h q t) (find (of_event q.event_id) s.cases) s))
    unwritten = elim (Result-cases (timestamp at now)) [
      | inl (t, e) ↦ rw e (found (new_case h q t))
      | inr (x, e) ↦ rw e refl
    ]

    after :
        (p : Result Error (Unit {0}) × Store)
        → Still s p
        → Still s (continue p.0 (λ _. get_case h q.event_id) p.1)
    after (ok u, t) e = e
    after (err x, t) e = e

-- A case whose decision can be read has one.
has_decision_lem :
    (h : Host) (row : CaseRow) (json : String) (fs : Fields) (o : Option CaseView)
    → row.decision_json ≡ some json
    → ShowsCase h row json (object fs) o
    → has_decision o ≡ true
has_decision_lem h row json fs o set (c, shown, (same, (q, vs, values))) =
    rw (shown, same, set, values) refl

module _ {S : Type 0} (f : Workflow S) (q : Question) where
  -- It raises, and changes neither the store nor anything outside.
  abbrev pub Refused : {A : Type 0} → Work S → Result WorkflowError A × Work S → Type 0
  Refused w p = (e : WorkflowError) × (p ≡ (err e, w))

  open_case-Refused :
      (w : Work S) (json : String) (fs : Fields)
      → Holds q.event_id json w.store
      → f.router.host.json_loads json ≡ some (object fs)
      → Refused w (open_case f q w)
  unfolding open_case get_case
  open_case-Refused w json fs held loads =
      let made = create f.router.host q (some (f.clock w.outside)) (f.clock w.outside) w.store in
      let still =
        create-Still f.router.host q (some (f.clock w.outside)) (f.clock w.outside) w.store held.row
          held.present in
      subst
        (λ t. Refused w (
          continue {A = Option CaseView} {B = Unit {0}} (from_store w.outside (made.0, t)).0 reading
            (from_store w.outside (made.0, t)).1))
        (sym still) (created made.0)
    where
      reading : Option CaseView → Work S → Result WorkflowError (Unit {0}) × Work S
      reading _ w' =
          continue (from_store w'.outside (get_case f.router.host q.event_id w'.store)).0
            (λ existing. raise_if (has_decision existing) already_sealed)
            (from_store w'.outside (get_case f.router.host q.event_id w'.store)).1

      viewed :
          (r : Result Error (Option CaseView))
          → view f.router.host q.event_id w.store (some held.row) ≡ r
          → Refused w (
              continue {A = Option CaseView} {B = Unit {0}}
                (from_store w.outside (r, w.store)).0
                (λ existing. raise_if (has_decision existing) already_sealed)
                (from_store w.outside (r, w.store)).1)
      viewed (err e) read = (case_error e, refl)
      viewed (ok o) read =
          let shows = Sure-ok (ShowsCase f.router.host held.row json (object fs)) _ o read (
            view-ShowsCase f.router.host held.row json (object fs) q.event_id w.store held.decision
              loads) in
          (
            already_sealed,
            rw (has_decision_lem f.router.host held.row json fs o held.decision shows) refl,
          )

      created :
          (r : Result Error (Option CaseView))
          → Refused w (
              continue {A = Option CaseView} {B = Unit {0}}
                (from_store w.outside (r, w.store)).0
                reading
                (from_store w.outside (r, w.store)).1)
      created (err e) = (case_error e, refl)
      created (ok o) =
          rw held.present (viewed (view f.router.host q.event_id w.store (some held.row)) refl)

  -- Deciding an event whose case holds a readable decision raises and changes nothing: no Miner is
  -- called, nothing is spent, and the store stays as it is.
  pub decide-Refused :
      (disable_owned : Bool) (request_id : Option String) (threshold : ℤ) (uuid : String)
      (w : Work S) (json : String) (fs : Fields)
      → Holds q.event_id json w.store
      → f.router.host.json_loads json ≡ some (object fs)
      → Refused w (decide f q disable_owned request_id threshold uuid w)
  unfolding decide
  decide-Refused disable_owned request_id threshold uuid w json fs held loads =
      let (e, refused) = open_case-Refused w json fs held loads in (e, rw refused refl)
