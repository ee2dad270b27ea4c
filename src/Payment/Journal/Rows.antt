-- ===== src/Payment/Journal/Rows.antt =====
-- What the statements on the table `payment_journal` do to the row of a key, to its uniqueness, and to
-- the number and the sum of the blocking rows.
use oathcast.Prelude.{
  ℕ, ◌≤◌, String, ◌==◌, ◌≡◌, refl, true, false, Option, none, some, [], ◌∷◌, arith, eq_iff,
  if◌then◌else◌, Bool-cases, inl, inr,
}
use oathcast.Payment.Journal.Table.{
  Status, is_blocking, status_eq, status_eq-eq, one_if_blocking, amount_if_blocking, Row, Journal,
  select, blocking_count, blocking_total, delete, set_status, matches, update_where,
  row_count_where, moved_row,
}

-- The primary key: no request URL stands twice.
abbrev pub IsKeyed : Journal → Type 0
IsKeyed [] = Unit
IsKeyed (r ∷ rs) = (select r.request_url rs ≡ none) × IsKeyed rs

pub select-delete :
    (url k : String) (j : Journal)
    → select k (delete url j) ≡ (if url == k then none else select k j)
unfolding select delete
select-delete url k [] = ground arith
select-delete url k (r ∷ rs) =
    ground (
      arith,
      select-delete url k rs,
      eq_iff r.request_url url,
      eq_iff r.request_url k,
      eq_iff url k,
    )

pub delete-IsKeyed : (url : String) (j : Journal) → IsKeyed j → IsKeyed (delete url j)
unfolding delete
delete-IsKeyed url [] h = tt
delete-IsKeyed url (r ∷ rs) h =
    ground (arith, delete-IsKeyed url rs h.1, select-delete url r.request_url rs)

pub blocking_count-delete :
    (url : String) (j : Journal) → blocking_count (delete url j) ≤ blocking_count j
unfolding delete blocking_count
blocking_count-delete url [] = omega arith
blocking_count-delete url (r ∷ rs) = ground (arith, blocking_count-delete url rs)

pub blocking_total-delete :
    (url : String) (j : Journal) → blocking_total (delete url j) ≤ blocking_total j
unfolding delete blocking_total
blocking_total-delete url [] = omega arith
blocking_total-delete url (r ∷ rs) = ground (arith, blocking_total-delete url rs)

matches_status :
    (url : String) (from : Status) (r : Row) → matches url from r ≡ true → r.status ≡ from
unfolding matches
matches_status url from r h = ground (arith, status_eq-eq r.status from)

matches-ne :
    (url : String) (from : Status) (r : Row)
    → (r.request_url == url) ≡ false
    → matches url from r ≡ false
unfolding matches
matches-ne url from r h = rw h

matches-eq :
    (url : String) (from : Status) (r : Row)
    → (r.request_url == url) ≡ true
    → matches url from r ≡ status_eq r.status from
unfolding matches
matches-eq url from r h = rw h

-- The change that `_transition` makes to one row.
abbrev pub moved : String → Status → (Row → Row) → Option Row → Option Row
moved url from f none = none
moved url from f (some r) = some (moved_row url from f r)

module _ (url : String) (from to : Status) (evidence error : Option String) (now : String) where
  abbrev set_row : Row → Row
  set_row = set_status to evidence error now

  moved_row-request_url : (r : Row) → (moved_row url from set_row r).request_url ≡ r.request_url
  unfolding moved_row
  moved_row-request_url r = ground arith

  -- A row that the UPDATE takes from a blocking status weighs no more than before.
  moved_row-blocking :
      (r : Row)
      → is_blocking from ≡ true
      → (one_if_blocking (moved_row url from set_row r) ≤ one_if_blocking r)
        × (amount_if_blocking (moved_row url from set_row r) ≤ amount_if_blocking r)
  unfolding moved_row one_if_blocking amount_if_blocking
  moved_row-blocking r h = elim (Bool-cases (matches url from r)) [
    | inl e ↦ rw (e, matches_status url from r e, h) (ground arith)
    | inr e ↦ rw e (omega arith)
  ]

  pub select-update_where :
      (k : String) (j : Journal)
      → select k (update_where url from set_row j) ≡ moved url from set_row (select k j)
  unfolding select update_where moved_row
  select-update_where k [] = refl
  select-update_where k (r ∷ rs) = ground (arith, select-update_where k rs)

  pub update_where-IsKeyed : (j : Journal) → IsKeyed j → IsKeyed (update_where url from set_row j)
  unfolding update_where
  update_where-IsKeyed [] h = tt
  update_where-IsKeyed (r ∷ rs) h = (
    rw (moved_row-request_url r, select-update_where r.request_url rs, h.0) refl,
    update_where-IsKeyed rs h.1,
  )

  pub blocking_count-update_where :
      (j : Journal)
      → is_blocking from ≡ true
      → blocking_count (update_where url from set_row j) ≤ blocking_count j
  unfolding update_where blocking_count
  blocking_count-update_where [] h = omega arith
  blocking_count-update_where (r ∷ rs) h =
      omega (arith, blocking_count-update_where rs h, moved_row-blocking r h)

  pub blocking_total-update_where :
      (j : Journal)
      → is_blocking from ≡ true
      → blocking_total (update_where url from set_row j) ≤ blocking_total j
  unfolding update_where blocking_total
  blocking_total-update_where [] h = omega arith
  blocking_total-update_where (r ∷ rs) h =
      omega (arith, blocking_total-update_where rs h, moved_row-blocking r h)

-- Whether the WHERE clause of `_transition` finds the row of the key.
abbrev pub found : Status → Option Row → ℕ
found from none = 0
found from (some r) = if status_eq r.status from then 1 else 0

row_count_where-none :
    (url : String) (from : Status) (j : Journal)
    → select url j ≡ none
    → row_count_where url from j ≡ 0
unfolding select row_count_where
row_count_where-none url from [] h = refl
row_count_where-none url from (r ∷ rs) h = elim (Bool-cases (r.request_url == url)) [
  | inl e ↦ cc (rw e at h)
  | inr e ↦
      rw (matches-ne url from r e) (rw (row_count_where-none url from rs (rw e at h)) (omega arith))
]

-- On a keyed table the UPDATE meets the row of the key, or none.
pub row_count_where-eq-found :
    (url : String) (from : Status) (j : Journal)
    → IsKeyed j
    → row_count_where url from j ≡ found from (select url j)
unfolding select row_count_where
row_count_where-eq-found url from [] h = refl
row_count_where-eq-found url from (r ∷ rs) h = elim (Bool-cases (r.request_url == url)) [
  | inl e ↦
      rw (e, matches-eq url from r e)
        (rw (row_count_where-none url from rs (rw ((eq_iff r.request_url url).0 e) at h.0))
          (omega arith))
  | inr e ↦
      rw (e, matches-ne url from r e) (omega (arith, row_count_where-eq-found url from rs h.1))
]
