-- ===== src/Receipts/Full.antt =====
-- The telemetry of the receipt store of src/oathcast/receipts.py beside its caps.
use oathcast.Prelude.{
  ℕ, Option, none, some, ◌≡◌, refl, true, false, not, ◌&&◌, length, arith, Bool-cases,
  if◌then◌else◌, inl, Bool, ap, inr, ◌∙◌,
}
use oathcast.Prelude.Exec.{Result, ok, err}
use oathcast.Json.{Host, Fields}
use oathcast.Receipts.Store.{
  Error, Table, Caps, Candidate, select, over_cap, no_room, exceeds, insert, save, check_receipt,
  rows_full, bytes_full,
}
use oathcast.Receipts.Capacity.{Report, capacity}
use oathcast.Receipts.Outcome.{save_candidate_lem}

no_room_if_full :
    (cap : Option ℕ) (used more : ℕ)
    → not (over_cap cap used) ≡ false
    → no_room cap used more ≡ true
no_room_if_full none used more f = ground arith
no_room_if_full (some cap) used more f = ground arith

full :
    (max_rows max_bytes : Option ℕ) (n used used' more : ℕ)
    → (not (over_cap max_rows n) && not (over_cap max_bytes used)) ≡ false
    → (e : Error) × ((if over_cap max_rows n
          then some rows_full
          else if no_room max_bytes used more
          then some bytes_full
          else if exceeds max_bytes used'
          then some bytes_full
          else none)
        ≡ some e)
full max_rows max_bytes n used used' more f = elim (Bool-cases (over_cap max_rows n)) [
  | inl a ↦ rw a (rows_full, refl)
  | inr a ↦ rw a (bytes_full, rw (no_room_if_full max_bytes used more (rw a at f)) refl)
]

-- What a report says of new receipts.
abbrev accepting : Result Error Report → Bool
accepting (ok r) = r.accepting_new_receipts
accepting (err e) = true

-- While `capacity` reports that no new receipts are accepted, a save of a checked receipt whose event
-- has no row raises, and leaves the table as it was.
pub capacity-refuses :
    (h : Host) (caps : Caps) (receipt : Fields) (c : Candidate) (t : Table) (report : Report)
    → (capacity caps t).0 ≡ ok report
    → report.accepting_new_receipts ≡ false
    → check_receipt h receipt ≡ ok c
    → select c.row.event_id t ≡ none
    → (e : Error) × (save h caps receipt t ≡ (err e, t))
unfolding save capacity
capacity-refuses h caps receipt c t report r closed f absent =
    let (e, refused) =
      full caps.max_rows caps.max_bytes (length t) (caps.used_bytes t)
        (caps.used_bytes (insert c.row t)) c.bytes (ap accepting r ∙ closed) in
    (e, rw (f, save_candidate_lem h caps c t, absent, refused) refl)
