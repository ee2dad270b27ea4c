-- ===== src/Cases/Sealed.antt =====
-- A case of src/oathcast/cases.py that holds a decision, and what sealing it comes to.
use mathlib.Core.Path.{subst}
use oathcast.Prelude.{
  String, ◌==◌, Option, none, some, List, ◌≡◌, inl, inr, refl, sym, ◌∙◌, ap, Option-cases,
  Bool-cases, eq_iff, if◌then◌else◌,
}
use oathcast.Prelude.Keyed.{find, find-update, find-passes}
use oathcast.Prelude.Moment.{Moment}
use oathcast.Prelude.Exec.{Result, ok, err, continue, commit_or_rollback}
use oathcast.Json.{Host, Fields, object}
use oathcast.Json.Dumps.{dumps}
use oathcast.Cases.Store.{
  Error, different_decision, Driver, CaseRow, Store, Cases, of_event, timestamp,
}
use oathcast.Cases.Seal.{
  seal_evidence, mark_sealed, seal_new, seal_found, seal_row, seal_case, unsealed, sealed_row,
  decision_of,
}
use oathcast.Cases.Later.{Later, IsOrdered, Later-row, fixed_set}
use oathcast.Cases.Frame.{seal_evidence-Frames}
use oathcast.Cases.Lifecycle.{seal_row-Keeps}
use oathcast.Cases.History.{Call, replay, replay-Grows, Always, always}

-- The case of the event holds the decision.
pub record Holds (id json : String) (s : Store) : Type 0 where
  pub row : CaseRow
  pub present : find (of_event id) s.cases ≡ some row
  pub decision : row.decision_json ≡ some json

abbrev pub Returned : {A : Type 0} → (Store → Type 0) → Result Error A × Store → Type 0
Returned P (ok a, s) = P s
Returned P (err e, s) = Unit

continued :
    {A B : Type 0} (P : Store → Type 0) (r : Result Error A) (s : Store) (f : A → Cases B)
    → ((a : A) → Returned P (f a s))
    → Returned P (continue r f s)
continued P (ok a) s f k = k a
continued P (err e) s f k = tt

committed :
    {A : Type 0} (P : Store → Type 0) (s : Store) (p : Result Error A × Store)
    → Returned P p
    → Returned P (commit_or_rollback s p)
committed P s (ok a, s') k = k
committed P s (err e, s') k = tt

seal_case-Holds :
    (id decision sealed frozen : String) (s : Store) (r : CaseRow)
    → find (of_event id) s.cases ≡ some r
    → r.decision_json ≡ none
    → Holds id decision (seal_case id decision sealed frozen s)
seal_case-Holds id decision sealed frozen s r e unset = record {
  row = sealed_row decision sealed frozen r;
  present =
      find-update (unsealed id) (of_event id) (sealed_row decision sealed frozen) s.cases
        (λ x. refl)
      ∙ rw (e, find-passes (of_event id) r s.cases e, unset) refl;
  decision = refl;
}

mark_sealed-Holds :
    (h : Host) (id : String) (payload : Fields) (at : Option Moment) (now later : Moment)
    (s : Store) (r : CaseRow)
    → find (of_event id) s.cases ≡ some r
    → r.decision_json ≡ none
    → Returned (Holds id (dumps h (object payload))) (mark_sealed h id payload at now later s)
unfolding mark_sealed
mark_sealed-Holds h id payload at now later s r e unset =
    continued (Holds id (dumps h (object payload))) (timestamp at now) s _ (λ sealed.
      continued (Holds id (dumps h (object payload))) (timestamp at later) s _
        (λ frozen. seal_case-Holds id (dumps h (object payload)) sealed frozen s r e unset))

seal_new-Holds :
    (h : Host) (d : Driver) (id : String) (payload : Fields) (at : Option Moment)
    (now later : Moment) (s : Store) (r : CaseRow)
    → find (of_event id) s.cases ≡ some r
    → r.decision_json ≡ none
    → Returned (Holds id (dumps h (object payload))) (seal_new h d id payload at now later s)
unfolding seal_new
seal_new-Holds h d id payload at now later s r e unset =
    continued (Holds id (dumps h (object payload))) (seal_evidence h d id payload s).0
      (seal_evidence h d id payload s).1 _
      (λ _.
        mark_sealed-Holds h id payload at now later (seal_evidence h d id payload s).1 r
          (subst (λ cs. find (of_event id) cs ≡ some r)
            (sym ((seal_evidence-Frames h d id payload).at s)) e)
          unset)

-- A case that holds a decision: the same one is accepted, another is refused, and nothing is written.
seal_found-held :
    (h : Host) (d : Driver) (id : String) (payload : Fields) (at : Option Moment)
    (now later : Moment) (s : Store) (decision : String)
    → Holds id decision s
    → seal_row h d id payload at now later s
      ≡ (if decision == dumps h (object payload) then (ok tt, s) else (err different_decision, s))
unfolding seal_row
seal_found-held h d id payload at now later s decision held =
    elim (Bool-cases (decision == dumps h (object payload))) [
      | inl same ↦ rw (held.present, held.decision, same) refl
      | inr differs ↦ rw (held.present, held.decision, differs) refl
    ]

found-Holds :
    (h : Host) (d : Driver) (id : String) (payload : Fields) (at : Option Moment)
    (now later : Moment) (s : Store) (row : Option CaseRow)
    → find (of_event id) s.cases ≡ row
    → Returned
        (Holds id (dumps h (object payload)))
        (seal_found h d id payload at now later (decision_of row) s)
found-Holds h d id payload at now later s none e = tt
found-Holds h d id payload at now later s (some r) e = elim (Option-cases r.decision_json) [
  | inl unset ↦ rw unset (seal_new-Holds h d id payload at now later s r e unset)
  | inr (decision, set) ↦ rw set (elim (Bool-cases (decision == dumps h (object payload))) [
    | inr differs ↦ rw differs tt
    | inl same ↦ rw same (record {
      row = r;
      present = e;
      decision = set ∙ ap some ((eq_iff decision (dumps h (object payload))).0 same);
    })
  ])
]

pub seal_row-Holds :
    (h : Host) (d : Driver) (id : String) (payload : Fields) (at : Option Moment)
    (now later : Moment) (s : Store)
    → Returned (Holds id (dumps h (object payload))) (seal_row h d id payload at now later s)
unfolding seal_row
seal_row-Holds h d id payload at now later s =
    committed (Holds id (dumps h (object payload))) s _
      (found-Holds h d id payload at now later s (find (of_event id) s.cases) refl)

Later-Holds :
    (id decision : String) (s s' : Store) → Holds id decision s → Later s s' → Holds id decision s'
Later-Holds id decision s s' held later =
    let (r', e, kept) = Later-row s s' later id held.row held.present in
    record {
      row = r';
      present = e;
      decision =
          (fixed_set held.row.decision_json _ (rw held.decision refl) kept.decision).0
          ∙ held.decision;
    }

-- From a store in which every case with a ground truth has a decision: once a decision is sealed,
-- whatever calls follow, sealing the case again writes nothing, and raises unless the decision is the
-- same.
pub seal_row-again :
    (h : Host) (d : Driver) (id : String) (payload payload' : Fields) (at at' : Option Moment)
    (now later now' later' : Moment) (cs : List Call) (s s' : Store)
    → IsOrdered s
    → seal_row h d id payload at now later s ≡ (ok tt, s')
    → seal_row h d id payload' at' now' later' (replay h d cs s') ≡ (
        if dumps h (object payload) == dumps h (object payload')
        then (ok tt, replay h d cs s')
        else (err different_decision, replay h d cs s'))
seal_row-again h d id payload payload' at at' now later now' later' cs s s' o e =
    let held =
      subst (Returned (Holds id (dumps h (object payload)))) e
        (seal_row-Holds h d id payload at now later s) in
    let ordered =
      subst IsOrdered (ap (λ x. x.1) e)
        ((seal_row-Keeps Always always h d id payload at now later).at s o tt).1 in
    seal_found-held h d id payload' at' now' later' (replay h d cs s') (dumps h (object payload)) (
      Later-Holds id (dumps h (object payload)) s' (replay h d cs s') held
        (replay-Grows h d cs s' ordered).0)
