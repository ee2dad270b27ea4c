-- ===== src/Cases/Later.antt =====
-- The order in time of two case stores of src/oathcast/cases.py, and of two rows of a case.
use mathlib.Core.Path.{subst}
use oathcast.Prelude.{
  String, Bool, true, not, ◌||◌, Option, none, some, ◌≡◌, refl, ◌∙◌, is_some, arith, List, sym,
}
use oathcast.Prelude.Keyed.{find, Extends, Extends-refl, Extends-trans}
use oathcast.Cases.Store.{CaseRow, Store, of_event}

-- A column group that, once its first column is set, never changes.
abbrev pub Fixed : Option String → Type 0 → Type 0
Fixed none P = Unit
Fixed (some d) P = P

pub record Kept (r r' : CaseRow) : Type 0 where
  pub event_id : r'.event_id ≡ r.event_id
  pub question_json : r'.question_json ≡ r.question_json
  pub question_sha256 : r'.question_sha256 ≡ r.question_sha256
  pub created_at : r'.created_at ≡ r.created_at
  pub decision : Fixed r.decision_json (
      (r'.decision_json ≡ r.decision_json)
      × (r'.decision_sealed_at ≡ r.decision_sealed_at)
      × (r'.frozen_at ≡ r.frozen_at))
  pub truth :
      Fixed r.ground_truth_json
        ((r'.ground_truth_json ≡ r.ground_truth_json) × (r'.resolved_at ≡ r.resolved_at))

abbrev pub KeptCase : Option CaseRow → Option CaseRow → Type 0
KeptCase none row = Unit
KeptCase (some r) none = ⊥
KeptCase (some r) (some r') = Kept r r'

pub record Later (s s' : Store) : Type 0 where
  pub cases : (id : String) → KeptCase (find (of_event id) s.cases) (find (of_event id) s'.cases)
  pub bindings : Extends s.bindings s'.bindings
  pub replies : Extends s.replies s'.replies
  pub decisions : Extends s.decisions s'.decisions
  pub observations : Extends s.observations s'.observations
  pub resolutions : Extends s.resolutions s'.resolutions

pub Fixed-all : (o : Option String) (P : Type 0) → P → Fixed o P
Fixed-all none P p = tt
Fixed-all (some d) P p = p

pub Kept-refl : (r : CaseRow) → Kept r r
Kept-refl r = record {
  event_id = refl;
  question_json = refl;
  question_sha256 = refl;
  created_at = refl;
  decision = Fixed-all r.decision_json _ (refl, refl, refl);
  truth = Fixed-all r.ground_truth_json _ (refl, refl);
}

Fixed-decision :
    (o o' : Option String) (a b c d e f : Option String)
    → Fixed o ((o' ≡ o) × (c ≡ a) × (d ≡ b))
    → (o'' : Option String) → Fixed o' ((o'' ≡ o') × (e ≡ c) × (f ≡ d))
    → Fixed o ((o'' ≡ o) × (e ≡ a) × (f ≡ b))
Fixed-decision none o' a b c d e f h o'' k = tt
Fixed-decision (some x) none a b c d e f h o'' k = ground arith
Fixed-decision (some x) (some y) a b c d e f h o'' k = (k.0 ∙ h.0, k.1 ∙ h.1, k.2 ∙ h.2)

Fixed-truth :
    (o o' : Option String) (a c e : Option String)
    → Fixed o ((o' ≡ o) × (c ≡ a))
    → (o'' : Option String) → Fixed o' ((o'' ≡ o') × (e ≡ c))
    → Fixed o ((o'' ≡ o) × (e ≡ a))
Fixed-truth none o' a c e h o'' k = tt
Fixed-truth (some x) none a c e h o'' k = ground arith
Fixed-truth (some x) (some y) a c e h o'' k = (k.0 ∙ h.0, k.1 ∙ h.1)

pub Kept-trans : (r s t : CaseRow) → Kept r s → Kept s t → Kept r t
Kept-trans r s t h k = record {
  event_id = k.event_id ∙ h.event_id;
  question_json = k.question_json ∙ h.question_json;
  question_sha256 = k.question_sha256 ∙ h.question_sha256;
  created_at = k.created_at ∙ h.created_at;
  decision =
      Fixed-decision r.decision_json s.decision_json _ _ _ _ _ _ h.decision t.decision_json
        k.decision;
  truth =
      Fixed-truth r.ground_truth_json s.ground_truth_json _ _ _ h.truth t.ground_truth_json k.truth;
}

KeptCase-refl : (o : Option CaseRow) → KeptCase o o
KeptCase-refl none = tt
KeptCase-refl (some r) = Kept-refl r

KeptCase-trans : (o p q : Option CaseRow) → KeptCase o p → KeptCase p q → KeptCase o q
KeptCase-trans none p q h k = tt
KeptCase-trans (some r) (some s) (some t) h k = Kept-trans r s t h k
KeptCase-trans (some r) (some s) none h k = k
KeptCase-trans (some r) none q h k = ground arith

pub Later-refl : (s : Store) → Later s s
Later-refl s = record {
  cases = λ id. KeptCase-refl (find (of_event id) s.cases);
  bindings = Extends-refl s.bindings;
  replies = Extends-refl s.replies;
  decisions = Extends-refl s.decisions;
  observations = Extends-refl s.observations;
  resolutions = Extends-refl s.resolutions;
}

pub Later-trans : (s t u : Store) → Later s t → Later t u → Later s u
Later-trans s t u h k = record {
  cases = λ id.
      KeptCase-trans (find (of_event id) s.cases) (find (of_event id) t.cases)
        (find (of_event id) u.cases) (h.cases id) (k.cases id);
  bindings = Extends-trans s.bindings t.bindings u.bindings h.bindings k.bindings;
  replies = Extends-trans s.replies t.replies u.replies h.replies k.replies;
  decisions = Extends-trans s.decisions t.decisions u.decisions h.decisions k.decisions;
  observations =
      Extends-trans s.observations t.observations u.observations h.observations k.observations;
  resolutions = Extends-trans s.resolutions t.resolutions u.resolutions h.resolutions k.resolutions;
}

-- A case with a ground truth has a decision.
abbrev pub is_ordered : CaseRow → Bool
is_ordered r = not (is_some r.ground_truth_json) || is_some r.decision_json

pub record IsOrdered (s : Store) : Type 0 where
  pub at : (id : String) (r : CaseRow) → find (of_event id) s.cases ≡ some r → is_ordered r ≡ true

-- The case of the event has a decision.
pub record IsSealed (id : String) (s : Store) : Type 0 where
  pub row : CaseRow
  pub present : find (of_event id) s.cases ≡ some row
  pub decided : is_some row.decision_json ≡ true

-- A store with other cases and the same evidence.
pub Later-cases :
    (s : Store) (cases : List CaseRow)
    → ((id : String) → KeptCase (find (of_event id) s.cases) (find (of_event id) cases))
    → Later s (record s { cases = cases })
Later-cases s cases h = record {
  cases = h;
  bindings = Extends-refl s.bindings;
  replies = Extends-refl s.replies;
  decisions = Extends-refl s.decisions;
  observations = Extends-refl s.observations;
  resolutions = Extends-refl s.resolutions;
}

-- A store with the same cases and more evidence.
pub Later-evidence :
    (s s' : Store)
    → s'.cases ≡ s.cases
    → Extends s.bindings s'.bindings
    → Extends s.replies s'.replies
    → Extends s.decisions s'.decisions
    → Extends s.observations s'.observations
    → Extends s.resolutions s'.resolutions
    → IsOrdered s
    → Later s s' × IsOrdered s'
Later-evidence s s' e b r d o q ordered = (
  record {
    cases = λ id. rw e (KeptCase-refl (find (of_event id) s.cases));
    bindings = b;
    replies = r;
    decisions = d;
    observations = o;
    resolutions = q;
  },
  record { at = λ id row h. ordered.at id row (rw (sym e) h) },
)

pub fixed_set : (o : Option String) (P : Type 0) → is_some o ≡ true → Fixed o P → P
fixed_set none P h p = ground arith
fixed_set (some d) P h p = p

Kept-row :
    (r : CaseRow) (o : Option CaseRow)
    → KeptCase (some r) o
    → (r' : CaseRow) × (o ≡ some r') × Kept r r'
Kept-row r (some t) k = (t, refl, k)
Kept-row r none k = ground arith

-- The row of a case at a later time.
pub Later-row :
    (s s' : Store)
    → Later s s'
    → (id : String) (r : CaseRow) → find (of_event id) s.cases ≡ some r
    → (r' : CaseRow) × (find (of_event id) s'.cases ≡ some r') × Kept r r'
Later-row s s' later id r e =
    Kept-row r (find (of_event id) s'.cases)
      (subst (λ o. KeptCase o (find (of_event id) s'.cases)) e (later.cases id))

-- A case that has a decision keeps it.
pub IsSealed-lasts : (id : String) (s s' : Store) → IsSealed id s → Later s s' → IsSealed id s'
IsSealed-lasts id s s' sealed later =
    let (r', e, kept) = Later-row s s' later id sealed.row sealed.present in
    let (same, _, _) = fixed_set sealed.row.decision_json _ sealed.decided kept.decision in
    record { row = r'; present = e; decided = rw same sealed.decided }
