-- ===== src/Cases/Writes.antt =====
-- The writes of src/oathcast/cases.py, one by one, in the order of time of the stores.
use mathlib.Core.Path.{subst}
use oathcast.Prelude.{
  String, Bool, true, false, Option, none, some, ◌≡◌, inl, inr, refl, sym, ◌∙◌, is_some, arith,
  Bool-cases, eq_iff, if◌then◌else◌,
}
use oathcast.Prelude.Keyed.{
  find, update, Extends-refl, insert_or_ignore-Extends, find-insert_or_ignore_found,
  found-insert_or_ignore, find-update, find-passes,
}
use oathcast.Cases.Store.{CaseRow, Binding, ReplyRow, DecisionRow, ObservationRow, Store, of_event}
use oathcast.Cases.Create.{add_case, add_binding}
use oathcast.Cases.Replies.{add_reply}
use oathcast.Cases.Seal.{add_decision, seal_case, unsealed, sealed_row}
use oathcast.Cases.Resolve.{add_observation, add_resolution, resolve_case, unresolved, resolved_row}
use oathcast.Cases.Later.{
  Later-refl, Kept, Kept-refl, KeptCase, IsOrdered, is_ordered, IsSealed, Fixed, Later-cases,
  Later-evidence, Fixed-all,
}
use oathcast.Cases.Keeps.{Grows}
use oathcast.Json.{Host, Fields}

inserted : (o o' : Option CaseRow) → ((s : CaseRow) → o ≡ some s → o' ≡ some s) → KeptCase o o'
inserted none o' h = tt
inserted (some s) o' h = rw (h s refl) (Kept-refl s)

pub add_case-Grows :
    (r : CaseRow) → is_ordered r ≡ true → (s : Store) → IsOrdered s → Grows s (add_case r s)
add_case-Grows r good s o = (
  Later-cases s _ (λ id.
      inserted (find (of_event id) s.cases) _
        (λ t. find-insert_or_ignore_found (of_event r.event_id) (of_event id) r t s.cases)),
  record {
    at = λ id t h. elim (found-insert_or_ignore (of_event r.event_id) (of_event id) r t s.cases h) [
      | inl old ↦ o.at id t old
      | inr (absent, new) ↦ rw new good
    ];
  },
)

pub add_binding-Grows : (b : Binding) (s : Store) → IsOrdered s → Grows s (add_binding b s)
add_binding-Grows b s o =
    Later-evidence s (add_binding b s) refl (insert_or_ignore-Extends _ b s.bindings)
      (Extends-refl _) (Extends-refl _) (Extends-refl _) (Extends-refl _) o

pub add_reply-Grows : (r : ReplyRow) (s : Store) → IsOrdered s → Grows s (add_reply r s)
add_reply-Grows r s o =
    Later-evidence s (add_reply r s) refl (Extends-refl _) (insert_or_ignore-Extends _ r s.replies)
      (Extends-refl _) (Extends-refl _) (Extends-refl _) o

pub add_decision-Grows : (r : DecisionRow) (s : Store) → IsOrdered s → Grows s (add_decision r s)
add_decision-Grows r s o =
    Later-evidence s (add_decision r s) refl (Extends-refl _) (Extends-refl _)
      (insert_or_ignore-Extends _ r s.decisions) (Extends-refl _) (Extends-refl _) o

pub add_observation-Grows :
    (r : ObservationRow) (s : Store) → IsOrdered s → Grows s (add_observation r s)
add_observation-Grows r s o =
    Later-evidence s (add_observation r s) refl (Extends-refl _) (Extends-refl _) (Extends-refl _)
      (insert_or_ignore-Extends _ r s.observations) (Extends-refl _) o

pub add_resolution-Grows :
    (h : Host) (event_id : String) (payload : Fields) (version : String) (id at : Option String)
    (s : Store)
    → IsOrdered s
    → Grows s (add_resolution h event_id payload version id at s)
add_resolution-Grows h event_id payload version id none s o = (Later-refl s, o)
add_resolution-Grows h event_id payload version id (some at) s o =
    Later-evidence s (add_resolution h event_id payload version id (some at) s) refl
      (Extends-refl _) (Extends-refl _) (Extends-refl _) (Extends-refl _)
      (insert_or_ignore-Extends _ _ s.resolutions) o

-- The row that a conditional update leaves.
abbrev updated : (CaseRow → Bool) → (CaseRow → CaseRow) → Option CaseRow → Option CaseRow
updated p f none = none
updated p f (some r) = some (if p r then f r else r)

Fixed-unset : (o : Option String) (P : Type 0) → is_some o ≡ false → Fixed o P
Fixed-unset none P h = tt
Fixed-unset (some d) P h = ground arith

Kept-sealed :
    (id decision sealed frozen : String) (r : CaseRow)
    → Kept r (if unsealed id r then sealed_row decision sealed frozen r else r)
Kept-sealed id decision sealed frozen r = elim (Bool-cases (unsealed id r)) [
  | inr e ↦ rw e (Kept-refl r)
  | inl e ↦ rw e (record {
    event_id = refl;
    question_json = refl;
    question_sha256 = refl;
    created_at = refl;
    decision = Fixed-unset r.decision_json _ (ground (arith, e));
    truth = Fixed-all r.ground_truth_json _ (refl, refl);
  })
]

ordered-sealed :
    (id decision sealed frozen : String) (r : CaseRow)
    → is_ordered r ≡ true
    → is_ordered (if unsealed id r then sealed_row decision sealed frozen r else r) ≡ true
ordered-sealed id decision sealed frozen r h = elim (Bool-cases (unsealed id r)) [
  | inr e ↦ rw e h
  | inl e ↦ rw e (ground arith)
]

Kept-resolved :
    (id truth : String) (at : Option String) (r : CaseRow)
    → Kept r (if unresolved id r then resolved_row truth at r else r)
Kept-resolved id truth at r = elim (Bool-cases (unresolved id r)) [
  | inr e ↦ rw e (Kept-refl r)
  | inl e ↦ rw e (record {
    event_id = refl;
    question_json = refl;
    question_sha256 = refl;
    created_at = refl;
    decision = Fixed-all r.decision_json _ (refl, refl, refl);
    truth = Fixed-unset r.ground_truth_json _ (ground (arith, e));
  })
]

ordered-resolved :
    (id truth : String) (at : Option String) (r : CaseRow)
    → is_ordered r ≡ true
    → (r.event_id ≡ id → is_some r.decision_json ≡ true)
    → is_ordered (if unresolved id r then resolved_row truth at r else r) ≡ true
ordered-resolved id truth at r h k = elim (Bool-cases (unresolved id r)) [
  | inr e ↦ rw e h
  | inl e ↦ rw (e, k (ground (arith, e, eq_iff r.event_id id))) refl
]

updated-Kept :
    (p : CaseRow → Bool) (f : CaseRow → CaseRow) (o : Option CaseRow)
    → ((r : CaseRow) → Kept r (if p r then f r else r))
    → KeptCase o (updated p f o)
updated-Kept p f none h = tt
updated-Kept p f (some r) h = h r

abbrev ordered_row : Option CaseRow → Bool
ordered_row none = true
ordered_row (some r) = is_ordered r

updated-ordered :
    (p : CaseRow → Bool) (f : CaseRow → CaseRow) (o : Option CaseRow) (t : CaseRow)
    → updated p f o ≡ some t
    → ((r : CaseRow) → o ≡ some r → is_ordered (if p r then f r else r) ≡ true)
    → is_ordered t ≡ true
updated-ordered p f none t e h = ground arith
updated-ordered p f (some r) t e h = subst (λ o. ordered_row o ≡ true) e (h r refl)

-- A conditional update that keeps each row's event.
update-Grows :
    (p : CaseRow → Bool) (f : CaseRow → CaseRow) (s : Store)
    → ((id : String) (r : CaseRow) → of_event id (f r) ≡ of_event id r)
    → ((r : CaseRow) → Kept r (if p r then f r else r))
    → ((id : String) (r : CaseRow)
        → find (of_event id) s.cases ≡ some r
        → is_ordered (if p r then f r else r) ≡ true)
    → Grows s (record s { cases = update p f s.cases })
update-Grows p f s same kept ordered = (
  Later-cases s _ (λ id.
      rw (find-update p (of_event id) f s.cases (same id))
        (updated-Kept p f (find (of_event id) s.cases) kept)),
  record {
    at = λ id t h.
        updated-ordered p f (find (of_event id) s.cases) t
          (sym (find-update p (of_event id) f s.cases (same id)) ∙ h) (ordered id);
  },
)

pub seal_case-Grows :
    (id decision sealed frozen : String) (s : Store)
    → IsOrdered s
    → Grows s (seal_case id decision sealed frozen s)
seal_case-Grows id decision sealed frozen s o =
    update-Grows (unsealed id) (sealed_row decision sealed frozen) s (λ i r. refl)
      (Kept-sealed id decision sealed frozen)
      (λ i r h. ordered-sealed id decision sealed frozen r (o.at i r h))

abbrev is_decided : Option CaseRow → Bool
is_decided none = true
is_decided (some r) = is_some r.decision_json

-- A ground truth may be set on a case that has a decision.
pub resolve_case-Grows :
    (id truth : String) (at : Option String) (s : Store)
    → IsOrdered s
    → IsSealed id s
    → Grows s (resolve_case id truth at s)
resolve_case-Grows id truth at s o sealed =
    update-Grows (unresolved id) (resolved_row truth at) s (λ i r. refl) (Kept-resolved id truth at)
      (λ i r h. ordered-resolved id truth at r (o.at i r h) (decided i r h))
  where
    decided :
        (i : String) (r : CaseRow)
        → find (of_event i) s.cases ≡ some r
        → r.event_id ≡ id
        → is_some r.decision_json ≡ true
    decided i r h e =
        let same = sym ((eq_iff r.event_id i).0 (find-passes (of_event i) r s.cases h)) ∙ e in
        let found = subst (λ j. find (of_event j) s.cases ≡ some r) same h in
        subst (λ o. is_decided o ≡ true) (sym sealed.present ∙ found) sealed.decided
