-- ===== src/Receipts/Book.antt =====
-- `SqliteReceiptStore` of src/oathcast/receipts.py as a write-once book, which forgets the order of the rows.
use oathcast.Prelude.{
  String, Option, if◌then◌else◌, ◌≡◌, List, ◌==◌, none, ◌∷◌, some, ◌⊎◌, [], true, Option-cases,
  arith, inl, inr, false, Bool-cases, ap, eq_iff, refl,
}
use oathcast.Receipts.Store.{
  Table, Row, Error, Caps, select, Candidate, rows_full, check_receipt, save, insert, bytes_full,
  save_candidate, stored_receipt, conflict,
}
use oathcast.Json.{Host, Fields}
use oathcast.Receipts.History.{save_all, select-append}
use oathcast.Prelude.Exec.{Result, err, ok, Result-cases}
use oathcast.Receipts.Outcome.{refusal, added, select-insert, save_candidate_lem}

-- What a book holds for each event.
abbrev pub Book : Type 0
Book = String → Option Row

abbrev pub book : Table → Book
book t = λ id. select id t

abbrev pub put : Row → Book → Book
put r b = λ id. if r.event_id == id then some r else b id

abbrev pub IsFull : Error → Type 0
IsFull e = (e ≡ rows_full) ⊎ (e ≡ bytes_full)

-- What a write-once book answers to a receipt, and the book after it. A new receipt may find no room.
pub data Answers (h : Host) (receipt : Fields) (b : Book) (a : Result Error Fields) (b' : Book)
    : Type 0 where
  malformed :
      (e : Error) → check_receipt h receipt ≡ err e → a ≡ err e → b' ≡ b → Answers h receipt b a b'
  replays :
      (c : Candidate) (r : Row)
      → check_receipt h receipt ≡ ok c
      → b c.row.event_id ≡ some r
      → (r.question_json == c.row.question_json) ≡ true
      → a ≡ stored_receipt h r
      → b' ≡ b
      → Answers h receipt b a b'
  conflicts :
      (c : Candidate) (r : Row)
      → check_receipt h receipt ≡ ok c
      → b c.row.event_id ≡ some r
      → (r.question_json == c.row.question_json) ≡ false
      → a ≡ err conflict
      → b' ≡ b
      → Answers h receipt b a b'
  records :
      (c : Candidate) (fields : Fields)
      → check_receipt h receipt ≡ ok c
      → b c.row.event_id ≡ none
      → stored_receipt h c.row ≡ ok fields
      → a ≡ ok fields
      → b' ≡ put c.row b
      → Answers h receipt b a b'
  unreadable :
      (c : Candidate) (e : Error)
      → check_receipt h receipt ≡ ok c
      → b c.row.event_id ≡ none
      → stored_receipt h c.row ≡ err e
      → a ≡ err e
      → b' ≡ b
      → Answers h receipt b a b'
  full :
      (c : Candidate) (e : Error)
      → check_receipt h receipt ≡ ok c
      → b c.row.event_id ≡ none
      → IsFull e
      → a ≡ err e
      → b' ≡ b
      → Answers h receipt b a b'

-- The answers of a book to a list of receipts, one after another.
abbrev pub Run : Host → List Fields → List (Result Error Fields) → Book → Book → Type 0
Run h [] [] b b' = b' ≡ b
Run h [] (a ∷ answers) b b' = ⊥
Run h (r ∷ rs) [] b b' = ⊥
Run h (r ∷ rs) (a ∷ answers) b b' = (mid : Book) × Answers h r b a mid × Run h rs answers mid b'

-- What the saves of a list of receipts return or raise.
unfoldable pub answers_of : Host → Caps → List Fields → Table → List (Result Error Fields)
answers_of h caps [] t = []
answers_of h caps (r ∷ rs) t = (save h caps r t).0 ∷ answers_of h caps rs (save h caps r t).1

put_at :
    (id : String) (r : Row) (t : Table)
    → select r.event_id t ≡ none
    → select id (insert r t) ≡ (if r.event_id == id then some r else select id t)
put_at id r t absent = elim (Option-cases (select id t)) [
  | inl e ↦ rw e (select-insert id r t e)
  | inr (s, e) ↦ elim (Bool-cases (r.event_id == id)) [
    | inl same ↦ cc (rw (ap (λ k. select k t) ((eq_iff r.event_id id).0 same)) at absent)
    | inr differs ↦ rw (differs, e) (select-append id s t (r ∷ []) e)
  ]
]

book-insert :
    (r : Row) (t : Table) → select r.event_id t ≡ none → book (insert r t) ≡ put r (book t)
book-insert r t absent = λ i id. put_at id r t absent i

refusal-IsFull :
    (caps : Caps) (c : Candidate) (t : Table) (e : Error) → refusal caps c t ≡ some e → IsFull e
refusal-IsFull caps c t e refused = ground arith

module _ (h : Host) (caps : Caps) (receipt : Fields) (t : Table) where
  added-Answers :
      (c : Candidate)
      → check_receipt h receipt ≡ ok c
      → select c.row.event_id t ≡ none
      → Answers h receipt
          (book t)
          (added h c (refusal caps c t) t).0
          (book (added h c (refusal caps c t) t).1)
  added-Answers c checked absent = elim (Option-cases (refusal caps c t)) [
    | inr (e, refused) ↦
        rw refused (full c e checked absent (refusal-IsFull caps c t e refused) refl refl)
    | inl free ↦ rw free (elim (Result-cases (stored_receipt h c.row)) [
      | inl (fields, e) ↦ rw e (records c fields checked absent e refl (book-insert c.row t absent))
      | inr (x, e) ↦ rw e (unreadable c x checked absent e refl refl)
    ])
  ]

  outcome-Answers :
      (c : Candidate)
      → check_receipt h receipt ≡ ok c
      → Answers h receipt
          (book t)
          (save_candidate h caps c t).0
          (book (save_candidate h caps c t).1)
  outcome-Answers c checked =
      rw (save_candidate_lem h caps c t) (elim (Option-cases (select c.row.event_id t)) [
        | inl absent ↦ rw absent (added-Answers c checked absent)
        | inr (r, e) ↦ elim (Bool-cases (r.question_json == c.row.question_json)) [
          | inl same ↦ rw (e, same) (replays c r checked e same refl refl)
          | inr differs ↦ rw (e, differs) (conflicts c r checked e differs refl refl)
        ]
      ])

  save-Answers :
      Answers h receipt (book t) (save h caps receipt t).0 (book (save h caps receipt t).1)
  unfolding save
  save-Answers = elim (Result-cases (check_receipt h receipt)) [
    | inl (c, e) ↦ rw e (outcome-Answers c e)
    | inr (x, e) ↦ rw e (malformed x e refl refl)
  ]

-- Receipts saved one after another, of which some may raise, are answered as by a write-once book that
-- holds the first row of each event and no order. A malformed receipt is refused; for an event that is
-- there the stored receipt is returned to its question, and a conflict to another one; a new event is
-- put into the book, or refused as over a cap or as not readable back. Nothing else changes the book, and
-- what the store finds at the end is what the book holds.
pub save_all-Run :
    (h : Host) (caps : Caps) (rs : List Fields) (t : Table)
    → Run h rs (answers_of h caps rs t) (book t) (book (save_all h caps rs t))
unfolding answers_of save_all
save_all-Run h caps [] t = refl
save_all-Run h caps (r ∷ rs) t =
    (book (save h caps r t).1, save-Answers h caps r t, save_all-Run h caps rs (save h caps r t).1)
