-- ===== src/Receipts/History.antt =====
-- Sequences of writes of the receipt store of src/oathcast/receipts.py, the order of its tables in time,
-- and its invariant.
use oathcast.Prelude.{
  ℕ, String, Bool, Option, none, some, List, [], ◌∷◌, ◌++◌, ◌≡◌, refl, ◌==◌, if◌then◌else◌, length,
  ◌≤◌, arith, inl, inr, true, false, eq_iff, Option-cases, Bool-cases, length-append, ◌+◌,
}
use oathcast.Prelude.Exec.{Result, ok, err, Result-cases, commit_or_rollback}
use oathcast.Json.{Host, Fields}
use oathcast.Receipts.Store.{
  Error, Table, Row, Caps, Candidate, select, stored_receipt, insert, save, check_receipt, conflict,
  over_cap, rows_full, no_room, bytes_full, exceeds,
}
use oathcast.Receipts.Outcome.{refusal, added, save_outcome, save_candidate_lem, select-insert}

-- The writes of a list of receipts, each of which may raise.
unfoldable pub save_all : Host → Caps → List Fields → Table → Table
save_all h caps [] t = t
save_all h caps (r ∷ rs) t = save_all h caps rs (save h caps r t).1

abbrev pub Extends : Table → Table → Type 0
Extends t t' = (new : Table) × (t' ≡ t ++ new)

abbrev pub Within : Option ℕ → ℕ → Type 0
Within none n = Unit
Within (some cap) n = n ≤ cap

-- No event has two rows.
unfoldable pub IsKeyed : Table → Type 0
IsKeyed [] = Unit
IsKeyed (r ∷ t) = (select r.event_id t ≡ none) × IsKeyed t

pub record IsSound (caps : Caps) (t : Table) : Type 0 where
  pub keyed : IsKeyed t
  pub rows : Within caps.max_rows (length t)
  pub bytes : Within caps.max_bytes (caps.used_bytes t)

append_nil : (t : Table) → t ≡ t ++ []
append_nil [] = refl
append_nil (r ∷ t) = λ i. r ∷ append_nil t i

append_append : (t u v : Table) → (t ++ u) ++ v ≡ t ++ (u ++ v)
append_append [] u v = refl
append_append (r ∷ t) u v = λ i. r ∷ append_append t u v i

Extends-refl : (t : Table) → Extends t t
Extends-refl t = ([], append_nil t)

Extends-trans : (t u v : Table) → Extends t u → Extends u v → Extends t v
Extends-trans t u v (a, e) (b, f) = (a ++ b, rw (f, e) (append_append t a b))

pub select-append :
    (id : String) (r : Row) (t new : Table) → select id t ≡ some r → select id (t ++ new) ≡ some r
unfolding select
select-append id r [] new h = ground arith
select-append id r (s ∷ t) new h = ground (arith, select-append id r t new)

insert-IsKeyed :
    (r : Row) (t : Table) → select r.event_id t ≡ none → IsKeyed t → IsKeyed (insert r t)
unfolding select IsKeyed
insert-IsKeyed r [] h k = (refl, tt)
insert-IsKeyed r (s ∷ t) h k = ground (
  arith,
  select-insert s.event_id r t,
  insert-IsKeyed r t,
  eq_iff r.event_id s.event_id,
  eq_iff s.event_id r.event_id,
)

module _ (h : Host) (caps : Caps) where
  committed-Extends :
      (c : Candidate) (t : Table) (r : Result Error Fields)
      → Extends t (commit_or_rollback t (r, insert c.row t)).1
  committed-Extends c t (ok a) = (c.row ∷ [], refl)
  committed-Extends c t (err e) = Extends-refl t

  added-Extends : (c : Candidate) (e : Option Error) (t : Table) → Extends t (added h c e t).1
  added-Extends c (some e) t = Extends-refl t
  added-Extends c none t = committed-Extends c t (stored_receipt h c.row)

  kept-Extends :
      (b : Bool) (x y : Result Error Fields) (t : Table)
      → Extends t (if◌then◌else◌ {A = Result Error Fields × Table} b (x, t) (y, t)).1
  kept-Extends true x y t = Extends-refl t
  kept-Extends false x y t = Extends-refl t

  outcome-Extends :
      (c : Candidate) (row : Option Row) (t : Table) → Extends t (save_outcome h caps c row t).1
  outcome-Extends c none t = added-Extends c (refusal caps c t) t
  outcome-Extends c (some r) t =
      kept-Extends (r.question_json == c.row.question_json) (stored_receipt h r) (err conflict) t

  pub save-Extends : (receipt : Fields) (t : Table) → Extends t (save h caps receipt t).1
  unfolding save
  save-Extends receipt t = elim (Result-cases (check_receipt h receipt)) [
    | inl (c, e) ↦
        rw (e, save_candidate_lem h caps c t) (outcome-Extends c (select c.row.event_id t) t)
    | inr (x, e) ↦ rw e (Extends-refl t)
  ]

  pub save_all-Extends : (rs : List Fields) (t : Table) → Extends t (save_all h caps rs t)
  unfolding save_all
  save_all-Extends [] t = Extends-refl t
  save_all-Extends (r ∷ rs) t =
      Extends-trans t (save h caps r t).1 (save_all h caps rs (save h caps r t).1)
        (save-Extends r t) (save_all-Extends rs (save h caps r t).1)

-- The caps leave room for what is added.
room :
    (max_rows max_bytes : Option ℕ) (n used used' more : ℕ)
    → (if over_cap max_rows n
        then some rows_full
        else if no_room max_bytes used more
        then some bytes_full
        else if exceeds max_bytes used'
        then some bytes_full
        else none)
      ≡ none
    → Within max_rows (n + 1) × Within max_bytes used'
room none none n used used' more e = (tt, tt)
room none (some cap) n used used' more e = ground arith
room (some cap) none n used used' more e = ground arith
room (some rows) (some cap) n used used' more e = ground arith

room_for :
    (caps : Caps) (c : Candidate) (t : Table)
    → refusal caps c t ≡ none
    → Within caps.max_rows (length (insert c.row t))
      × Within caps.max_bytes (caps.used_bytes (insert c.row t))
room_for caps c t e = rw (length-append t (c.row ∷ [])) (
    room caps.max_rows caps.max_bytes (length t) (caps.used_bytes t)
      (caps.used_bytes (insert c.row t)) c.bytes e)

module _ (h : Host) (caps : Caps) where
  committed-IsSound :
      (c : Candidate) (t : Table) (r : Result Error Fields)
      → IsSound caps t
      → IsSound caps (insert c.row t)
      → IsSound caps (commit_or_rollback t (r, insert c.row t)).1
  committed-IsSound c t (ok a) s s' = s'
  committed-IsSound c t (err e) s s' = s

  inserted-IsSound :
      (c : Candidate) (t : Table)
      → select c.row.event_id t ≡ none
      → refusal caps c t ≡ none
      → IsSound caps t
      → IsSound caps (insert c.row t)
  inserted-IsSound c t absent free s =
      let (rows, bytes) = room_for caps c t free in
      record { keyed = insert-IsKeyed c.row t absent s.keyed; rows = rows; bytes = bytes }

  outcome-IsSound :
      (c : Candidate) (t : Table) (row : Option Row)
      → select c.row.event_id t ≡ row
      → IsSound caps t
      → IsSound caps (save_outcome h caps c row t).1
  outcome-IsSound c t none absent s = elim (Option-cases (refusal caps c t)) [
    | inl free ↦
        rw free
          (committed-IsSound c t (stored_receipt h c.row) s (inserted-IsSound c t absent free s))
    | inr (e, refused) ↦ rw refused s
  ]
  outcome-IsSound c t (some r) p s = elim (Bool-cases (r.question_json == c.row.question_json)) [
    | inl e ↦ rw e s
    | inr e ↦ rw e s
  ]

  -- A save keeps one row per event and both caps, whether it returns or raises.
  pub save-IsSound :
      (receipt : Fields) (t : Table) → IsSound caps t → IsSound caps (save h caps receipt t).1
  unfolding save
  save-IsSound receipt t s = elim (Result-cases (check_receipt h receipt)) [
    | inl (c, e) ↦
        rw (e, save_candidate_lem h caps c t) (outcome-IsSound c t (select c.row.event_id t) refl s)
    | inr (x, e) ↦ rw e s
  ]

  -- From a table with one row per event and within both caps, any sequence of saves, of which some may
  -- raise, keeps one row per event, the rows within the row cap and the database within the byte cap.
  pub save_all-IsSound :
      (rs : List Fields) (t : Table) → IsSound caps t → IsSound caps (save_all h caps rs t)
  unfolding save_all
  save_all-IsSound [] t s = s
  save_all-IsSound (r ∷ rs) t s = save_all-IsSound rs (save h caps r t).1 (save-IsSound r t s)
