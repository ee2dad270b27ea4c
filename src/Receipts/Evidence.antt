-- ===== src/Receipts/Evidence.antt =====
-- Reading and writing a receipt of src/oathcast/receipts.py after a save that returned.
use mathlib.Core.Path.{subst}
use oathcast.Prelude.{
  Option, none, some, List, ◌≡◌, refl, ◌==◌, arith, Bool-cases, inl, inr, eq_iff, eq_refl,
}
use oathcast.Prelude.Exec.{Result, ok, err, Result-cases, commit_or_rollback}
use oathcast.Json.{Host, Fields}
use oathcast.Receipts.Store.{
  Error, Table, Row, Caps, Candidate, select, stored_receipt, insert, save, check_receipt,
  get_receipt, untampered,
}
use oathcast.Receipts.Outcome.{refusal, added, save_outcome, save_candidate_lem, select-insert}
use oathcast.Receipts.History.{save_all, save_all-Extends, select-append}

-- The row of a candidate's event has its question, and the receipt that was returned.
record Retains (h : Host) (c : Candidate) (a : Fields) (t : Table) : Type 0 where
  row : Row
  present : select c.row.event_id t ≡ some row
  question : row.question_json ≡ c.row.question_json
  receipt : stored_receipt h row ≡ ok a

abbrev Retained : Host → Candidate → Result Error Fields × Table → Type 0
Retained h c (ok a, t) = Retains h c a t
Retained h c (err e, t) = Unit

module _ (h : Host) where
  committed-Retained :
      (c : Candidate) (t : Table) (r : Result Error Fields)
      → select c.row.event_id t ≡ none
      → stored_receipt h c.row ≡ r
      → Retained h c (commit_or_rollback t (r, insert c.row t))
  committed-Retained c t (err e) absent s = tt
  committed-Retained c t (ok a) absent s = record {
    row = c.row;
    present = rw (select-insert c.row.event_id c.row t absent, eq_refl c.row.event_id) refl;
    question = refl;
    receipt = s;
  }

  added-Retained :
      (c : Candidate) (refused : Option Error) (t : Table)
      → select c.row.event_id t ≡ none
      → Retained h c (added h c refused t)
  added-Retained c (some e) t absent = tt
  added-Retained c none t absent = committed-Retained c t (stored_receipt h c.row) absent refl

  same-Retained :
      (c : Candidate) (r : Row) (t : Table) (x : Result Error Fields)
      → select c.row.event_id t ≡ some r
      → r.question_json ≡ c.row.question_json
      → stored_receipt h r ≡ x
      → Retained h c (x, t)
  same-Retained c r t (err e) p q s = tt
  same-Retained c r t (ok a) p q s = record { row = r; present = p; question = q; receipt = s }

  outcome-Retained :
      (caps : Caps) (c : Candidate) (row : Option Row) (t : Table)
      → select c.row.event_id t ≡ row
      → Retained h c (save_outcome h caps c row t)
  outcome-Retained caps c none t p = added-Retained c (refusal caps c t) t p
  outcome-Retained caps c (some r) t p =
      elim (Bool-cases (r.question_json == c.row.question_json)) [
        | inl e ↦ rw e (
            same-Retained c r t (stored_receipt h r) p
              ((eq_iff r.question_json c.row.question_json).0 e) refl)
        | inr e ↦ rw e tt
      ]

  -- A save that returned has checked its receipt, and the row is there.
  saved :
      (caps : Caps) (receipt a : Fields) (t t' : Table)
      → save h caps receipt t ≡ (ok a, t')
      → (c : Candidate) × (check_receipt h receipt ≡ ok c) × Retains h c a t'
  unfolding save
  saved caps receipt a t t' e = elim (Result-cases (check_receipt h receipt)) [
    | inr (x, f) ↦ ground (arith, e, f)
    | inl (c, f) ↦ (
      c,
      f,
      subst (Retained h c) e (
          rw (f, save_candidate_lem h caps c t)
            (outcome-Retained caps c (select c.row.event_id t) t refl)),
    )
  ]

  later-Retains :
      (caps : Caps) (rs : List Fields) (c : Candidate) (a : Fields) (t : Table)
      → Retains h c a t
      → Retains h c a (save_all h caps rs t)
  later-Retains caps rs c a t k =
      let grown = save_all-Extends h caps rs t in
      record {
        row = k.row;
        present = rw grown.1 (select-append c.row.event_id k.row t grown.0 k.present);
        question = k.question;
        receipt = k.receipt;
      }

  Retains-get :
      (c : Candidate) (a : Fields) (t : Table)
      → Retains h c a t
      → (get_receipt h c.row.event_id t).0 ≡ untampered h a
  unfolding get_receipt
  Retains-get c a t k = rw (k.present, k.receipt) refl

  Retains-save :
      (caps : Caps) (receipt : Fields) (c : Candidate) (a : Fields) (t : Table)
      → check_receipt h receipt ≡ ok c
      → Retains h c a t
      → save h caps receipt t ≡ (ok a, t)
  unfolding save stored_receipt
  Retains-save caps receipt c a t f k =
      rw
        (
          f,
          save_candidate_lem h caps c t,
          k.present,
          k.question,
          eq_refl c.row.question_json,
          k.receipt,
        )
        refl

  -- After a save that returned, and any further saves, `get` returns for the event the receipt that
  -- was saved, unless the digest written in it is not its own.
  pub get_receipt-saved :
      (caps caps' : Caps) (receipt a : Fields) (rs : List Fields) (t t' : Table)
      → save h caps receipt t ≡ (ok a, t')
      → (c : Candidate) × (check_receipt h receipt ≡ ok c)
        × ((get_receipt h c.row.event_id (save_all h caps' rs t')).0 ≡ untampered h a)
  get_receipt-saved caps caps' receipt a rs t t' e =
      let (c, f, k) = saved caps receipt a t t' e in
      (c, f, Retains-get c a (save_all h caps' rs t') (later-Retains caps' rs c a t' k))

  -- After a save that returned, and any further saves, the same save returns the same receipt and
  -- changes nothing, whatever the caps: a full store still replays.
  pub save-again :
      (caps caps' caps'' : Caps) (receipt a : Fields) (rs : List Fields) (t t' : Table)
      → save h caps receipt t ≡ (ok a, t')
      → save h caps'' receipt (save_all h caps' rs t') ≡ (ok a, save_all h caps' rs t')
  save-again caps caps' caps'' receipt a rs t t' e =
      let (c, f, k) = saved caps receipt a t t' e in
      Retains-save caps'' receipt c a (save_all h caps' rs t') f (later-Retains caps' rs c a t' k)
