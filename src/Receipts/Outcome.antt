-- ===== src/Receipts/Outcome.antt =====
-- The outcome of a write of src/oathcast/receipts.py as a case distinction on the row of its event.
use oathcast.Prelude.{
  String, Option, none, some, [], ◌∷◌, ◌≡◌, refl, ◌==◌, if◌then◌else◌, length, arith, eq_refl,
  Option-cases, Bool-cases, inl, inr,
}
use oathcast.Prelude.Exec.{Result, ok, err, commit_or_rollback}
use oathcast.Json.{Host, Fields}
use oathcast.Receipts.Store.{
  Error, rows_full, bytes_full, conflict, Table, Row, Caps, Candidate, select, stored_receipt,
  over_cap, no_room, exceeds, insert, add_new, assert_capacity, save_candidate,
}

-- Why a new receipt is refused.
abbrev pub refusal : Caps → Candidate → Table → Option Error
refusal caps c t =
    if over_cap caps.max_rows (length t)
    then some rows_full
    else if no_room caps.max_bytes (caps.used_bytes t) c.bytes
    then some bytes_full
    else if exceeds caps.max_bytes (caps.used_bytes (insert c.row t))
    then some bytes_full
    else none

abbrev pub added : Host → Candidate → Option Error → Table → Result Error Fields × Table
added h c (some e) t = (err e, t)
added h c none t = commit_or_rollback t (stored_receipt h c.row, insert c.row t)

abbrev pub save_outcome : Host → Caps → Candidate → Option Row → Table → Result Error Fields × Table
save_outcome h caps c (some r) t =
    if r.question_json == c.row.question_json then (stored_receipt h r, t) else (err conflict, t)
save_outcome h caps c none t = added h c (refusal caps c t) t

pub select-insert :
    (id : String) (r : Row) (t : Table)
    → select id t ≡ none
    → select id (insert r t) ≡ (if r.event_id == id then some r else none)
unfolding select
select-insert id r [] h = refl
select-insert id r (s ∷ t) h = ground (arith, select-insert id r t)

rolled_back : (t : Table) (r : Result Error Fields) → commit_or_rollback t (r, t) ≡ (r, t)
rolled_back t (ok a) = refl
rolled_back t (err e) = refl

-- A write of a receipt that is there.
found_lem :
    (h : Host) (caps : Caps) (c : Candidate) (r : Row) (t : Table)
    → select c.row.event_id t ≡ some r
    → save_candidate h caps c t ≡ save_outcome h caps c (some r) t
unfolding save_candidate add_new
found_lem h caps c r t e = elim (Bool-cases (r.question_json == c.row.question_json)) [
  | inl same ↦ rw (e, e, same) (rolled_back t (stored_receipt h r))
  | inr differs ↦ rw (e, e, differs) refl
]

-- A write of a receipt that is not there.
new_lem :
    (h : Host) (caps : Caps) (c : Candidate) (t : Table)
    → select c.row.event_id t ≡ none
    → save_candidate h caps c t ≡ added h c (refusal caps c t) t
unfolding save_candidate add_new assert_capacity
new_lem h caps c t e = rw e (elim (Bool-cases (over_cap caps.max_rows (length t))) [
  | inl full ↦ rw full refl
  | inr free ↦ rw free (elim (Bool-cases (no_room caps.max_bytes (caps.used_bytes t) c.bytes)) [
    | inl full ↦ rw full refl
    | inr room ↦
        rw room (elim (Bool-cases (exceeds caps.max_bytes (caps.used_bytes (insert c.row t)))) [
          | inl over ↦ rw over refl
          | inr under ↦
              rw
                (
                  under,
                  select-insert c.row.event_id c.row t e,
                  eq_refl c.row.event_id,
                  eq_refl c.row.question_json,
                )
                refl
        ])
  ])
])

-- A write returns the stored receipt of the same question with the table unchanged, refuses another
-- question, and adds a new receipt at the end if the caps allow it.
pub save_candidate_lem :
    (h : Host) (caps : Caps) (c : Candidate) (t : Table)
    → save_candidate h caps c t ≡ save_outcome h caps c (select c.row.event_id t) t
save_candidate_lem h caps c t = elim (Option-cases (select c.row.event_id t)) [
  | inl e ↦ rw e (new_lem h caps c t e)
  | inr (r, e) ↦ rw e (found_lem h caps c r t e)
]
