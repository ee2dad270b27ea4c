-- ===== src/Payment/Journal/Effects.antt =====
-- `reserve` and `_transition` of src/oathcast/payment.py as case distinctions on the table.
use oathcast.Prelude.{
  ◌+◌, String, ◌≡◌, refl, Option, none, some, arith, leb, ltb, eqb, if◌then◌else◌, Option-cases,
  inl, inr, [], ◌∷◌, eq_refl,
}
use oathcast.Prelude.Exec.{Result, ok, err}
use oathcast.Clock.{Moment, format_timestamp}
use oathcast.Json.{Host}
use oathcast.Payment.Authorization.{Authorization}
use oathcast.Payment.Journal.Table.{
  Status, Journal, select, blocking_count, blocking_total, set_status, update_where, delete, Row,
}
use oathcast.Payment.Journal.Rows.{IsKeyed, found, row_count_where-eq-found, select-delete}
use oathcast.Payment.Journal.Methods.{
  Error, requests_exhausted, amount_exhausted, transition_failed, naive_timestamp, Limits, reserve,
  transition, new_row, blocked_by, duplicate_error,
}

-- The outcome of a transition on a keyed table: the row moves, or nothing is written.
abbrev pub transition_outcome :
    String
    → Status
    → Status
    → Option String
    → Option String
    → Option String
    → Journal
    → Result Error (Unit {0}) × Journal
transition_outcome url from to evidence error none j = (err naive_timestamp, j)
transition_outcome url from to evidence error (some t) j =
    if eqb (found from (select url j)) 1
    then (ok tt, update_where url from (set_status to evidence error t) j)
    else (err (transition_failed from to), j)

-- On a journal with unique URLs a transition moves the row of the URL if its status is the expected one,
-- and else raises and writes nothing; so it does with a naive time.
pub transition_lem :
    (url : String) (from to : Status) (evidence error : Option String) (now : Moment) (j : Journal)
    → IsKeyed j
    → transition url from to evidence error now j
      ≡ transition_outcome url from to evidence error (format_timestamp now) j
unfolding transition
transition_lem url from to evidence error now j h = elim (Option-cases (format_timestamp now)) [
  | inl naive ↦ rw naive
  | inr (t, e) ↦ rw (e, row_count_where-eq-found url from j h) (ground arith)
]

-- Whether a reservation may be made, and what is raised if not: first by the row of the URL, then by
-- the budgets.
abbrev pub row_refusal : Option Row → Option Error → Option Error
row_refusal row rest = if blocked_by row then some (duplicate_error row) else rest

abbrev pub budget_refusal : Authorization → Limits → Journal → Option Error
budget_refusal a limits j =
    if leb limits.max_paid_requests (blocking_count j)
    then some requests_exhausted
    else if ltb limits.max_total_payment_micro_usdc (blocking_total j + a.amount_micro_usdc)
    then some amount_exhausted
    else none

abbrev pub refusal : Authorization → Limits → Journal → Option Error
refusal a limits j = row_refusal (select a.request_url j) (budget_refusal a limits j)

-- The table that a reservation leaves: an aborted row of the URL is replaced.
abbrev pub reserved_table : Host → Authorization → String → Journal → Journal
reserved_table h a t j = new_row h a t ∷ delete a.request_url j

abbrev pub reserve_outcome :
    Host
    → Authorization
    → Option Error
    → Option String
    → Journal
    → Result Error (Unit {0}) × Journal
reserve_outcome h a refused none j = (err naive_timestamp, j)
reserve_outcome h a (some e) (some t) j = (err e, j)
reserve_outcome h a none (some t) j = (ok tt, reserved_table h a t j)

new_row-request_url :
    (h : Host) (a : Authorization) (t : String) → (new_row h a t).request_url ≡ a.request_url
unfolding new_row
new_row-request_url h a t = refl

delete-absent : (url : String) (j : Journal) → select url j ≡ none → delete url j ≡ j
unfolding select delete
delete-absent url [] h = refl
delete-absent url (r ∷ rs) h = ground (arith, delete-absent url rs)

-- A reservation is refused for a URL whose payment blocks, then for a spent count or total, and raises
-- at a naive time, always with the journal as it was; else it puts one reserved row for the URL in place
-- of an aborted one.
pub reserve_lem :
    (h : Host) (a : Authorization) (limits : Limits) (now : Moment) (j : Journal)
    → reserve h a limits now j ≡ reserve_outcome h a (refusal a limits j) (format_timestamp now) j
unfolding reserve
reserve_lem h a limits now j = elim (Option-cases (format_timestamp now)) [
  | inl naive ↦ rw naive
  | inr (t, e) ↦ rw e (
      ground (
        arith,
        new_row-request_url h a t,
        delete-absent a.request_url j,
        select-delete a.request_url a.request_url j,
        eq_refl a.request_url,
      ))
]
