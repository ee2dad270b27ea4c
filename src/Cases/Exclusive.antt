-- ===== src/Cases/Exclusive.antt =====
-- The outcome of `create` and of `bind_application_request` of src/oathcast/cases.py as a case distinction
-- on the row of their key.
use mathlib.Core.Path.{subst}
use oathcast.Prelude.{
  String, ◌==◌, Bool, true, false, Option, none, some, List, ◌≡◌, inl, inr, refl, sym, ◌∙◌, arith,
  Option-cases, Bool-cases, eq_iff, eq_refl, if◌then◌else◌, ◌&&◌, ap,
}
use oathcast.Prelude.Keyed.{find, find-insert_or_ignore_new, find-append_some}
use oathcast.Prelude.Moment.{Moment}
use oathcast.Prelude.Exec.{Result, ok, err, commit_or_rollback, Result-cases}
use oathcast.Clock.{format_timestamp-aware, iso_utc}
use oathcast.Json.{Host}
use oathcast.Forecast.{Question}
use oathcast.Cases.Store.{
  Error, different_question, different_request, Driver, CaseRow, Binding, Store, of_event,
  timestamp,
}
use oathcast.Cases.Create.{
  create_row, new_case, bind_application_request, of_key, create_at, bind_at, add_case, add_binding,
  binding_of,
}
use oathcast.Cases.Later.{IsOrdered}
use oathcast.Cases.History.{perform, Call, replay, replay-Grows, perform-Grows, bind_call}

-- What an insertion comes to: the row is added, or one with its key must agree.
abbrev pub create_outcome : CaseRow → Option CaseRow → Store → Result Error (Unit {0}) × Store
create_outcome new none s = (ok tt, add_case new s)
create_outcome new (some r) s =
    if r.question_json == new.question_json then (ok tt, s) else (err different_question, s)

abbrev pub bind_outcome : Binding → Option Binding → Store → Result Error (Unit {0}) × Store
bind_outcome new none s = (ok tt, add_binding new s)
bind_outcome new (some b) s =
    if b.request_sha256 == new.request_sha256 && b.event_id == new.event_id
    then (ok tt, s)
    else (err different_request, s)

create_at-found :
    (new r : CaseRow) (s : Store)
    → find (of_event new.event_id) s.cases ≡ some r
    → create_at new s ≡ create_outcome new (some r) s
unfolding create_at
create_at-found new r s e = elim (Bool-cases (r.question_json == new.question_json)) [
  | inl same ↦ rw (e, e, same) refl
  | inr differs ↦ rw (e, e, differs) refl
]

create_at-new :
    (new : CaseRow) (s : Store)
    → find (of_event new.event_id) s.cases ≡ none
    → create_at new s ≡ create_outcome new none s
unfolding create_at
create_at-new new s e =
    rw
      (
        find-insert_or_ignore_new (of_event new.event_id) new s.cases e (eq_refl new.event_id),
        eq_refl new.question_json,
      )
      refl

create_at_lem :
    (new : CaseRow) (s : Store)
    → create_at new s ≡ create_outcome new (find (of_event new.event_id) s.cases) s
create_at_lem new s = elim (Option-cases (find (of_event new.event_id) s.cases)) [
  | inl e ↦ rw e (create_at-new new s e)
  | inr (r, e) ↦ rw e (create_at-found new r s e)
]

abbrev key_of : Binding → Binding → Bool
key_of b = of_key b.principal_id b.idempotency_key

key_of_self : (b : Binding) → key_of b b ≡ true
key_of_self b = rw (eq_refl b.principal_id, eq_refl b.idempotency_key) refl

bind_at-found :
    (new b : Binding) (s : Store)
    → find (key_of new) s.bindings ≡ some b
    → bind_at new s ≡ bind_outcome new (some b) s
unfolding bind_at
bind_at-found new b s e = elim (Bool-cases (b.request_sha256 == new.request_sha256)) [
  | inr differs ↦ rw (e, e, differs) refl
  | inl same ↦ elim (Bool-cases (b.event_id == new.event_id)) [
    | inl event ↦ rw (e, e, same, event) refl
    | inr event ↦ rw (e, e, same, event) refl
  ]
]

bind_at-new :
    (new : Binding) (s : Store)
    → find (key_of new) s.bindings ≡ none
    → bind_at new s ≡ bind_outcome new none s
unfolding bind_at
bind_at-new new s e =
    rw
      (
        find-insert_or_ignore_new (key_of new) new s.bindings e (key_of_self new),
        eq_refl new.request_sha256,
        eq_refl new.event_id,
      )
      refl

bind_at_lem :
    (new : Binding) (s : Store) → bind_at new s ≡ bind_outcome new (find (key_of new) s.bindings) s
bind_at_lem new s = elim (Option-cases (find (key_of new) s.bindings)) [
  | inl e ↦ rw e (bind_at-new new s e)
  | inr (b, e) ↦ rw e (bind_at-found new b s e)
]

abbrev pub stamped :
    Store
    → Result Error String
    → (String → Result Error (Unit {0}) × Store)
    → Result Error (Unit {0}) × Store
stamped s (err e) f = (err e, s)
stamped s (ok t) f = f t

-- A method that raises has written nothing.
committed :
    (b : Bool) (e : Error) (s : Store)
    → commit_or_rollback s
        (if◌then◌else◌ {A = Result Error (Unit {0}) × Store} b (ok tt, s) (err e, s))
      ≡ (if◌then◌else◌ {A = Result Error (Unit {0}) × Store} b (ok tt, s) (err e, s))
committed true e s = refl
committed false e s = refl

create_outcome-committed :
    (new : CaseRow) (row : Option CaseRow) (s : Store)
    → commit_or_rollback s (create_outcome new row s) ≡ create_outcome new row s
create_outcome-committed new none s = refl
create_outcome-committed new (some r) s =
    committed (r.question_json == new.question_json) different_question s

bind_outcome-committed :
    (new : Binding) (b : Option Binding) (s : Store)
    → commit_or_rollback s (bind_outcome new b s) ≡ bind_outcome new b s
bind_outcome-committed new none s = refl
bind_outcome-committed new (some b) s =
    committed (b.request_sha256 == new.request_sha256 && b.event_id == new.event_id)
      different_request s

-- `create` adds the case of a new event, writes nothing for an event that has the question, and raises
-- for one that has another; with a naive time it raises. When it raises nothing is written.
pub create_row_lem :
    (h : Host) (q : Question) (created_at : Option Moment) (now : Moment) (s : Store)
    → create_row h q created_at now s
      ≡ stamped s
          (timestamp created_at now)
          (λ t. create_outcome (new_case h q t) (find (of_event q.event_id) s.cases) s)
unfolding create_row new_case
create_row_lem h q created_at now s = elim (Result-cases (timestamp created_at now)) [
  | inr (e, p) ↦ rw p refl
  | inl (t, p) ↦
      rw (p, create_at_lem (new_case h q t) s)
        (create_outcome-committed (new_case h q t) (find (of_event q.event_id) s.cases) s)
]

-- `bind_application_request` adds the binding of a new idempotency key of a principal, writes nothing
-- for one that is bound to this request and event, and raises for one that is bound to another; with a
-- naive time it raises. When it raises nothing is written.
pub bind_application_request_lem :
    (principal key request event : String) (created_at : Option Moment) (now : Moment) (s : Store)
    → bind_application_request principal key request event created_at now s
      ≡ stamped s (timestamp created_at now) (λ t.
        bind_outcome
          (binding_of principal key request event t)
          (find (of_key principal key) s.bindings)
          s)
unfolding bind_application_request
bind_application_request_lem principal key request event created_at now s =
    elim (Result-cases (timestamp created_at now)) [
      | inr (e, p) ↦ rw p refl
      | inl (t, p) ↦
          rw (p, bind_at_lem (binding_of principal key request event t) s)
            (bind_outcome-committed (binding_of principal key request event t)
              (find (of_key principal key) s.bindings) s)
    ]

-- A binding that was found to agree, or was added.
abbrev agrees : Binding → Binding → Bool
agrees new b = b.request_sha256 == new.request_sha256 && b.event_id == new.event_id

bound :
    (new : Binding) (row : Option Binding) (s s' : Store)
    → find (key_of new) s.bindings ≡ row
    → bind_outcome new row s ≡ (ok tt, s')
    → (b : Binding) × (find (key_of new) s'.bindings ≡ some b)
      × (b.request_sha256 ≡ new.request_sha256)
      × (b.event_id ≡ new.event_id)
bound new none s s' e p = (
  new,
  subst (λ t. find (key_of new) t.bindings ≡ some new) (ap (λ x. x.1) p)
      (find-insert_or_ignore_new (key_of new) new s.bindings e (key_of_self new)),
  refl,
  refl,
)
bound new (some b) s s' e p = elim (Bool-cases (agrees new b)) [
  | inr differs ↦ ground (arith, p, differs)
  | inl same ↦ (
    b,
    subst (λ t. find (key_of new) t.bindings ≡ some b) (ap (λ x. x.1) (rw same at p)) e,
    ground (arith, same, eq_iff b.request_sha256 new.request_sha256),
    ground (arith, same, eq_iff b.event_id new.event_id),
  )
]

bind-bound :
    (principal key request event : String) (created_at : Option Moment) (now : Moment)
    (s s' : Store)
    → bind_application_request principal key request event created_at now s ≡ (ok tt, s')
    → (b : Binding) × (find (of_key principal key) s'.bindings ≡ some b)
      × (b.request_sha256 ≡ request)
      × (b.event_id ≡ event)
bind-bound principal key request event created_at now s s' e =
    let known =
      sym (bind_application_request_lem principal key request event created_at now s) ∙ e in
    elim (Result-cases (timestamp created_at now)) [
      | inr (x, p) ↦ ground (arith, known, p)
      | inl (t, p) ↦
          bound (binding_of principal key request event t) (find (of_key principal key) s.bindings)
            s s' refl (rw p at known)
    ]

bind-IsOrdered :
    (h : Host) (d : Driver) (principal key request event : String) (created_at : Option Moment)
    (now : Moment) (s s' : Store)
    → IsOrdered s
    → bind_application_request principal key request event created_at now s ≡ (ok tt, s')
    → IsOrdered s'
unfolding perform
bind-IsOrdered h d principal key request event created_at now s s' o e =
    subst IsOrdered (ap (λ x. x.1) e)
      (perform-Grows h d (bind_call principal key request event created_at now) s o).1

pub timestamp-aware :
    (at now : Moment) → at.aware ≡ true → timestamp (some at) now ≡ ok (iso_utc at.micros)
timestamp-aware at now e = rw (format_timestamp-aware at e) refl

-- From a store in which every case with a ground truth has a decision, once a request is bound to an
-- idempotency key, whatever calls follow, another binding of that key, at a time with a timezone,
-- writes nothing, and raises unless it is of the same request and event.
pub bind-exclusive :
    (h : Host) (d : Driver) (principal key request event request' event' : String)
    (created_at : Option Moment) (now at now' : Moment) (cs : List Call) (s s' : Store)
    → IsOrdered s
    → bind_application_request principal key request event created_at now s ≡ (ok tt, s')
    → at.aware ≡ true
    → bind_application_request principal key request' event' (some at) now' (replay h d cs s') ≡ (
        if request == request' && event == event'
        then (ok tt, replay h d cs s')
        else (err different_request, replay h d cs s'))
bind-exclusive h d principal key request event request' event' created_at now at now' cs s s' o e
      aware =
    let (b, found, r, v) = bind-bound principal key request event created_at now s s' e in
    let ordered = bind-IsOrdered h d principal key request event created_at now s s' o e in
    let grown = (replay-Grows h d cs s' ordered).0.bindings in
    let found' =
      subst (λ bs. find (of_key principal key) bs ≡ some b) (sym grown.1)
        (find-append_some (of_key principal key) b s'.bindings grown.0 found) in
    bind_application_request_lem principal key request' event' (some at) now' (replay h d cs s')
    ∙ rw (timestamp-aware at now' aware, found', r, v) refl
