-- ===== src/Receipts/Roundtrip.antt =====
-- What `get` of src/oathcast/receipts.py reads of a receipt that `save` wrote.
use oathcast.Json.{Host, Fields, Value, get, text, object, get_or, without, null}
use oathcast.Receipts.Store.{
  Candidate, Error, Table, stored_receipt, insert, check_receipt, receipt_digest, Caps, save,
  untampered, select, save_candidate, candidate_of, checked_id, get_receipt, checked_created,
}
use oathcast.Prelude.{
  Option, String, ◌≡◌, some, ap, none, ◌⊎◌, List, inl, inr, sym, Bool-cases, eq_refl, ◌==◌, ◌∙◌,
  refl,
}
use oathcast.Prelude.Exec.{Result, ok, commit_or_rollback, err}
use oathcast.Receipts.Outcome.{added, refusal, save_candidate_lem}
use oathcast.Json.Dumps.{dumps}
use oathcast.Receipts.Evidence.{get_receipt-saved}
use oathcast.Receipts.History.{save_all}
use mathlib.Core.Path.{subst}

-- A new row is written with its own receipt.
added-stored :
    (h : Host) (c : Candidate) (refused : Option Error) (a : Fields) (t t' : Table)
    → added h c refused t ≡ (ok a, t')
    → stored_receipt h c.row ≡ ok a
added-stored h c (some e) a t t' p = cc
added-stored h c none a t t' p = go (stored_receipt h c.row) p
  where
    go :
        (r : Result Error Fields) → commit_or_rollback t (r, insert c.row t) ≡ (ok a, t') → r ≡ ok a
    go (ok b) q = ap (λ x. x.0) q
    go (err e) q = cc

-- The row that is written for a receipt has the event id of its question, and its text.
candidate-written :
    (h : Host) (receipt question : Fields) (id : Value) (created : Result Error String)
    (c : Candidate) (name : String)
    → id ≡ text name
    → candidate_of h receipt question (checked_id h id) created ≡ ok c
    → (c.row.event_id ≡ name) × (c.row.receipt_json ≡ dumps h (object receipt))
candidate-written h receipt question id created c name e p =
    elim (Bool-cases (h.strip name == "")) [
      | inl blank ↦ cc (rw (e, blank) at p)
      | inr named ↦ go created (rw (e, named) at p)
    ]
  where
    go :
        (created : Result Error String)
        → candidate_of h receipt question (ok name) created ≡ ok c
        → (c.row.event_id ≡ name) × (c.row.receipt_json ≡ dumps h (object receipt))
    go (err x) q = cc
    go (ok at) q = (cc, cc)

check-written :
    (h : Host) (receipt question : Fields) (c : Candidate) (id : String)
    → get "question" receipt ≡ some (object question)
    → get "event_id" question ≡ some (text id)
    → check_receipt h receipt ≡ ok c
    → (c.row.event_id ≡ id) × (c.row.receipt_json ≡ dumps h (object receipt))
unfolding check_receipt
check-written h receipt question c id asked named p =
    candidate-written h receipt question (get_or "event_id" null question)
      (checked_created (get_or "created_at" null receipt)) c id (rw (get_or, named) refl)
      (rw (get_or, asked) at p)

-- The digest that a receipt carries, if it does, is its own.
abbrev pub IsUntampered : Host → Fields → Type 0
IsUntampered h receipt =
    (get "receipt_sha256" receipt ≡ none)
    ⊎ (get "receipt_sha256" receipt
        ≡ some (text (h.sha256 (dumps h (object (without "receipt_sha256" receipt))))))

untampered-ok :
    (h : Host) (receipt : Fields)
    → IsUntampered h receipt
    → untampered h receipt ≡ ok (some receipt)
unfolding receipt_digest
untampered-ok h receipt (inl e) = rw e refl
untampered-ok h receipt (inr e) =
    rw (e, eq_refl (h.sha256 (dumps h (object (without "receipt_sha256" receipt))))) refl

module _ (h : Host) where
  new-stored :
      (caps : Caps) (c : Candidate) (a : Fields) (t t' : Table)
      → select c.row.event_id t ≡ none
      → save_candidate h caps c t ≡ (ok a, t')
      → stored_receipt h c.row ≡ ok a
  new-stored caps c a t t' absent p =
      added-stored h c (refusal caps c t) a t t'
        (rw absent at (sym (save_candidate_lem h caps c t) ∙ p))

  saved-written :
      (caps : Caps) (receipt a : Fields) (t t' : Table) (c : Candidate)
      → check_receipt h receipt ≡ ok c
      → save h caps receipt t ≡ (ok a, t')
      → save_candidate h caps c t ≡ (ok a, t')
  unfolding save
  saved-written caps receipt a t t' c checked p = rw checked at p

  -- What `save` returns for a receipt of an event that is not there yet, and what `get` returns for that
  -- event after any further saves, is what the JSON decoder reads back of the receipt's own text, if
  -- the digest in it, where there is one, is its own.
  pub get_receipt-roundtrip :
      (caps caps' : Caps) (receipt question again a : Fields) (id : String) (rs : List Fields)
      (t t' : Table)
      → get "question" receipt ≡ some (object question)
      → get "event_id" question ≡ some (text id)
      → h.json_loads (dumps h (object receipt)) ≡ some (object again)
      → IsUntampered h again
      → select id t ≡ none
      → save h caps receipt t ≡ (ok a, t')
      → (a ≡ again) × ((get_receipt h id (save_all h caps' rs t')).0 ≡ ok (some again))
  unfolding stored_receipt
  get_receipt-roundtrip caps caps' receipt question again a id rs t t' asked named loads genuine
        absent p =
      let (c, checked, kept) = get_receipt-saved h caps caps' receipt a rs t t' p in
      let (same, written) = check-written h receipt question c id asked named checked in
      let stored =
        new-stored caps c a t t' (rw same absent) (saved-written caps receipt a t t' c checked p) in
      let read : a ≡ again = cc (rw (written, loads) at stored) in
      let found : (get_receipt h id (save_all h caps' rs t')).0 ≡ untampered h a =
        subst (λ x. (get_receipt h x (save_all h caps' rs t')).0 ≡ untampered h a) same kept in
      (read, found ∙ rw read (untampered-ok h again genuine))
