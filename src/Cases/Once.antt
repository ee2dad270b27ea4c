-- ===== src/Cases/Once.antt =====
-- An event of the case store of src/oathcast/cases.py is created with one question.
use oathcast.Prelude.{
  String, Option, some, ◌≡◌, List, none, refl, ap, true, eq_refl, sym, if◌then◌else◌, Bool-cases,
  ◌==◌, inr, ◌∙◌, arith, inl, eq_iff,
}
use oathcast.Cases.Store.{CaseRow, Store, Driver, of_event, different_question, timestamp}
use oathcast.Cases.Create.{new_case, create_row}
use oathcast.Json.{Host, object}
use oathcast.Prelude.Keyed.{find, find-insert_or_ignore_new}
use oathcast.Forecast.{Question, question_dict}
use oathcast.Cases.Later.{KeptCase, IsOrdered}
use oathcast.Prelude.Moment.{Moment}
use oathcast.Cases.Exclusive.{create_outcome, create_row_lem, timestamp-aware}
use oathcast.Prelude.Exec.{ok, err, Result-cases}
use oathcast.Cases.History.{Call, replay, replay-Grows}
use mathlib.Core.Path.{subst}
use oathcast.Json.Dumps.{dumps}

-- The row of an event that was created, with the question.
abbrev HasQuestion : String → String → Store → Type 0
HasQuestion id question s =
    (r : CaseRow) × (find (of_event id) s.cases ≡ some r) × (r.question_json ≡ question)

created :
    (new : CaseRow) (row : Option CaseRow) (s s' : Store)
    → find (of_event new.event_id) s.cases ≡ row
    → create_outcome new row s ≡ (ok tt, s')
    → HasQuestion new.event_id new.question_json s'
created new none s s' e p = (
  new,
  subst (λ t. find (of_event new.event_id) t.cases ≡ some new) (ap (λ x. x.1) p)
      (find-insert_or_ignore_new (of_event new.event_id) new s.cases e (eq_refl new.event_id)),
  refl,
)
created new (some r) s s' e p = elim (Bool-cases (r.question_json == new.question_json)) [
  | inr differs ↦ ground (arith, p, differs)
  | inl same ↦ (
    r,
    subst (λ t. find (of_event new.event_id) t.cases ≡ some r) (ap (λ x. x.1) (rw same at p)) e,
    (eq_iff r.question_json new.question_json).0 same,
  )
]

create-created :
    (h : Host) (q : Question) (created_at : Option Moment) (now : Moment) (s s' : Store)
    → create_row h q created_at now s ≡ (ok tt, s')
    → HasQuestion q.event_id (dumps h (object (question_dict q))) s'
unfolding new_case
create-created h q created_at now s s' e =
    let known = sym (create_row_lem h q created_at now s) ∙ e in
    elim (Result-cases (timestamp created_at now)) [
      | inr (x, p) ↦ ground (arith, known, p)
      | inl (t, p) ↦
          created (new_case h q t) (find (of_event q.event_id) s.cases) s s' refl (rw p at known)
    ]

kept :
    (r : CaseRow) (row : Option CaseRow)
    → KeptCase (some r) row
    → (r' : CaseRow) × (row ≡ some r') × (r'.question_json ≡ r.question_json)
kept r none k = absurd k
kept r (some r') k = (r', refl, k.question_json)

-- Once an event is created with a question, in a store in which then every case with a ground truth has a
-- decision, whatever calls follow, another creation of the event, at a time with a timezone, writes
-- nothing, and raises unless its question has the same canonical JSON.
pub create-exclusive :
    (h : Host) (d : Driver) (q q' : Question) (created_at : Option Moment) (now at now' : Moment)
    (cs : List Call) (s s' : Store)
    → create_row h q created_at now s ≡ (ok tt, s')
    → IsOrdered s'
    → q'.event_id ≡ q.event_id
    → at.aware ≡ true
    → create_row h q' (some at) now' (replay h d cs s') ≡ (
        if dumps h (object (question_dict q)) == dumps h (object (question_dict q'))
        then (ok tt, replay h d cs s')
        else (err different_question, replay h d cs s'))
unfolding new_case
create-exclusive h d q q' created_at now at now' cs s s' e ordered same aware =
    let (r, found, question) = create-created h q created_at now s s' e in
    let grown = rw found at ((replay-Grows h d cs s' ordered).0.cases q.event_id) in
    let (r', found', question') =
      kept r (find (of_event q.event_id) (replay h d cs s').cases) grown in
    create_row_lem h q' (some at) now' (replay h d cs s')
    ∙ rw (timestamp-aware at now' aware, same, found', question', question) refl
