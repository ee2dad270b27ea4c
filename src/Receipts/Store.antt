-- ===== src/Receipts/Store.antt =====
-- `SqliteReceiptStore` of src/oathcast/receipts.py: an append-only table keyed by event id, with caps on its
-- rows and its bytes. A method runs under the store's lock and, if it writes, in one transaction.
use Prim.Native.String.{len}
use oathcast.Prelude.{
  ℕ, ◌+◌, ◌-◌, String, ◌==◌, Bool, false, not, Option, none, some, List, [], ◌∷◌, ◌++◌, ltb, leb,
  length, if◌then◌else◌, ◌||◌,
}
use oathcast.Prelude.Exec.{
  Result, ok, err, Exec, pure, raise, gets, modify, raise_if, transaction, ◌>>=◌, ◌>>◌, lift,
}
use oathcast.Json.{Host, Value, Fields, object, text, get_or, null, end, without, get}
use oathcast.Json.Dumps.{dumps}

pub data Error : Type 0 where
  blank_event_id missing_question missing_created_at : Error
  rows_full bytes_full conflict tampering not_an_object integrity_error : Error
  negative_limit : Error

-- A row of `forecast_receipts`, in the order of rowid.
pub record Row : Type 0 where
  pub event_id : String
  pub question_json : String
  pub receipt_json : String
  pub created_at : String

abbrev pub Table : Type 0
Table = List Row

-- The caps, and SQLite's `page_count * page_size` of a database with these rows.
pub record Caps : Type 0 where
  pub max_rows : Option ℕ
  pub max_bytes : Option ℕ
  pub used_bytes : Table → ℕ

-- SELECT … WHERE event_id = ?
unfoldable pub select : String → Table → Option Row
select id [] = none
select id (r ∷ rs) = if r.event_id == id then some r else select id rs

-- `receipt_digest`
unfoldable pub receipt_digest : Host → Fields → String
receipt_digest h receipt = h.sha256 (dumps h (object (without "receipt_sha256" receipt)))

abbrev pub as_receipt : Option Value → Result Error Fields
as_receipt (some (object fs)) = ok fs
as_receipt _ = err not_an_object

-- `json.loads(row["receipt_json"])`, which must be an object
unfoldable pub stored_receipt : Host → Row → Result Error Fields
stored_receipt h r = as_receipt (h.json_loads r.receipt_json)

-- A digest that is a text is compared; a receipt without one predates the field.
abbrev pub mismatched : Host → Fields → Option Value → Bool
mismatched h receipt (some (text s)) = not (s == receipt_digest h receipt)
mismatched h receipt _ = false

abbrev pub untampered : Host → Fields → Result Error (Option Fields)
untampered h receipt =
    if mismatched h receipt (get "receipt_sha256" receipt) then err tampering else ok (some receipt)

abbrev pub read_row : Host → Option Row → Exec Table Error (Option Fields)
read_row h none = pure none
read_row h (some r) = do receipt ← lift (stored_receipt h r); lift (untampered h receipt)

-- `get`
unfoldable pub get_receipt : Host → String → Exec Table Error (Option Fields)
get_receipt h id = do row ← gets (select id); read_row h row

abbrev pub over_cap : Option ℕ → ℕ → Bool
over_cap none n = false
over_cap (some cap) n = leb cap n

abbrev pub no_room : Option ℕ → ℕ → ℕ → Bool
no_room none used more = false
no_room (some cap) used more = leb cap used || ltb (cap - used) more

-- `_assert_capacity_for_new_receipt`
unfoldable pub assert_capacity : Caps → ℕ → Exec Table Error (Unit {0})
assert_capacity caps candidate_bytes = do
  rows ← gets length
  raise_if (over_cap caps.max_rows rows) rows_full
  used ← gets caps.used_bytes
  raise_if (no_room caps.max_bytes used candidate_bytes) bytes_full

abbrev pub exceeds : Option ℕ → ℕ → Bool
exceeds none n = false
exceeds (some cap) n = ltb cap n

-- What `save` has checked of a receipt before it opens the transaction.
pub record Candidate : Type 0 where
  pub row : Row
  pub bytes : ℕ

abbrev pub checked_id : Host → Value → Result Error String
checked_id h (text s) = if h.strip s == "" then err blank_event_id else ok s
checked_id h _ = err blank_event_id

abbrev pub checked_created : Value → Result Error String
checked_created (text s) = if s == "" then err missing_created_at else ok s
checked_created _ = err missing_created_at

abbrev pub question_of : Value → Result Error Fields
question_of (object fs) = ok fs
question_of _ = err missing_question

abbrev pub candidate_of :
    Host → Fields → Fields → Result Error String → Result Error String → Result Error Candidate
candidate_of h receipt question (err e) created = err e
candidate_of h receipt question (ok id) (err e) = err e
candidate_of h receipt question (ok id) (ok created) =
    let question_json = dumps h (object question) in
    let receipt_json = dumps h (object receipt) in
    ok (record {
      row = record {
        event_id = id;
        question_json = question_json;
        receipt_json = receipt_json;
        created_at = created;
      };
      bytes = len id + len question_json + len receipt_json + len created;
    })

abbrev pub check_question : Host → Fields → Result Error Fields → Result Error Candidate
check_question h receipt (err e) = err e
check_question h receipt (ok question) =
    candidate_of h receipt question (checked_id h (get_or "event_id" null question))
      (checked_created (get_or "created_at" null receipt))

unfoldable pub check_receipt : Host → Fields → Result Error Candidate
check_receipt h receipt =
    check_question h receipt (question_of (get_or "question" (object end) receipt))

-- INSERT, a new row at the end of the rowid order.
abbrev pub insert : Row → Table → Table
insert r rows = rows ++ r ∷ []

-- The write of a receipt that is not there yet.
unfoldable pub add_new : Caps → Candidate → Option Row → Exec Table Error (Unit {0})
unfolding assert_capacity
add_new caps c (some r) = pure tt
add_new caps c none = do
  assert_capacity caps c.bytes
  modify (insert c.row)
  used ← gets caps.used_bytes
  raise_if (exceeds caps.max_bytes used) bytes_full

abbrev same_question : Candidate → Row → Exec Table Error (Unit {0})
same_question c r = raise_if (not (r.question_json == c.row.question_json)) conflict

abbrev require_row : Option Row → Exec Table Error Row
require_row none = raise integrity_error
require_row (some r) = pure r

-- The transaction of `save`.
unfoldable pub save_candidate : Host → Caps → Candidate → Exec Table Error Fields
unfolding add_new
save_candidate h caps c = transaction (do
  row ← gets (select c.row.event_id)
  add_new caps c row
  again ← gets (select c.row.event_id)
  stored ← require_row again
  same_question c stored
  lift (stored_receipt h stored))

-- `save`
unfoldable pub save : Host → Caps → Fields → Exec Table Error Fields
unfolding save_candidate
save h caps receipt = do c ← lift (check_receipt h receipt); save_candidate h caps c
