-- ===== src/Payment/Journal/Again.antt =====
-- A payment that `SqlitePaymentJournal` of src/oathcast/payment.py aborted may be reserved again.
use oathcast.Prelude.{String, ◌≡◌, none, ◌∷◌, some, arith, eq_refl, [], refl, Option, true, ap}
use oathcast.Payment.Journal.Table.{
  select, update_where, moved_row, Journal, matches, set_status, delete, blocking_count, Status,
  aborted, reserved, blocking_total, Row, one_if_blocking, amount_if_blocking,
}
use oathcast.Json.{Host}
use oathcast.Payment.Authorization.{Authorization}
use oathcast.Payment.Journal.Methods.{new_row, prefix, Limits, abort_reservation, reserve, Error}
use oathcast.Payment.Journal.Rows.{
  select-delete, blocking_count-delete, blocking_total-delete, IsKeyed, delete-IsKeyed,
}
use oathcast.Payment.Journal.Effects.{
  reserved_table, refusal, transition_lem, reserve_outcome, reserve_lem,
}
use oathcast.Clock.{Moment}
use oathcast.Prelude.Exec.{ok}
use oathcast.Clock.{format_timestamp, iso_utc, format_timestamp-aware}
use oathcast.Payment.Journal.Lifecycle.{status_of}

update_where-absent :
    (url : String) (from : Status) (f : Row → Row) (j : Journal)
    → select url j ≡ none
    → update_where url from f j ≡ j
unfolding select update_where moved_row matches
update_where-absent url from f [] e = refl
update_where-absent url from f (r ∷ j) e = ground (arith, update_where-absent url from f j)

-- The journal in which the payment was reserved at `t` and aborted at `t'`.
abbrev given_up_table : Host → Authorization → String → String → String → Journal → Journal
given_up_table h a reason t t' j =
    set_status aborted none (some (prefix 1000 reason)) t' (new_row h a t) ∷ delete a.request_url j

deleted-absent : (url : String) (j : Journal) → select url (delete url j) ≡ none
deleted-absent url j = rw (select-delete url url j, eq_refl url) refl

update-given_up :
    (h : Host) (a : Authorization) (reason t t' : String) (j : Journal)
    → update_where a.request_url reserved
        (set_status aborted none (some (prefix 1000 reason)) t')
        (reserved_table h a t j)
      ≡ given_up_table h a reason t t' j
unfolding update_where moved_row matches new_row
update-given_up h a reason t t' j =
    rw
      (
        eq_refl a.request_url,
        update_where-absent a.request_url reserved
            (set_status aborted none (some (prefix 1000 reason)) t') (delete a.request_url j)
            (deleted-absent a.request_url j),
      )
      refl

-- The reservation found the URL free and both budgets open.
refusal-given_up :
    (h : Host) (a : Authorization) (limits : Limits) (reason t t' : String) (j : Journal)
    → refusal a limits j ≡ none
    → refusal a limits (given_up_table h a reason t t' j) ≡ none
unfolding select new_row blocking_count blocking_total one_if_blocking amount_if_blocking
refusal-given_up h a limits reason t t' j free = ground (
  arith,
  eq_refl a.request_url,
  blocking_count-delete a.request_url j,
  blocking_total-delete a.request_url j,
)

reserve-ok :
    (h : Host) (a : Authorization) (limits : Limits) (now : Moment) (j : Journal)
    → (reserve h a limits now j).0 ≡ ok tt
    → (refusal a limits j ≡ none)
      × ((t : String) × ((reserve h a limits now j).1 ≡ reserved_table h a t j))
reserve-ok h a limits now j =
    rw (reserve_lem h a limits now j) (go (refusal a limits j) (format_timestamp now))
  where
    go :
        (refused : Option Error) (t : Option String)
        → (reserve_outcome h a refused t j).0 ≡ ok tt
        → (refused ≡ none)
          × ((t' : String) × ((reserve_outcome h a refused t j).1 ≡ reserved_table h a t' j))
    go refused none e = cc
    go (some x) (some t) e = cc
    go none (some t) e = (refl, (t, refl))

abort-reserved :
    (h : Host) (a : Authorization) (reason t t' : String) (later : Moment) (j : Journal)
    → IsKeyed (reserved_table h a t j)
    → format_timestamp later ≡ some t'
    → abort_reservation a.request_url reason later (reserved_table h a t j)
      ≡ (ok tt, given_up_table h a reason t t' j)
unfolding abort_reservation select new_row
abort-reserved h a reason t t' later j keyed e =
    rw
      (
        transition_lem a.request_url reserved aborted none (some (prefix 1000 reason)) later
            (reserved_table h a t j) keyed,
        e,
        eq_refl a.request_url,
        update-given_up h a reason t t' j,
      )
      refl

reserved_table-IsKeyed :
    (h : Host) (a : Authorization) (t : String) (j : Journal)
    → IsKeyed j
    → IsKeyed (reserved_table h a t j)
unfolding new_row
reserved_table-IsKeyed h a t j keyed =
    (deleted-absent a.request_url j, delete-IsKeyed a.request_url j keyed)

reserved_status :
    (h : Host) (a : Authorization) (t : String) (j : Journal)
    → status_of a.request_url (reserved_table h a t j) ≡ some reserved
unfolding select new_row
reserved_status h a t j = rw (eq_refl a.request_url) refl

reserve-free :
    (h : Host) (a : Authorization) (limits : Limits) (again : Moment) (j : Journal)
    → refusal a limits j ≡ none
    → again.aware ≡ true
    → reserve h a limits again j ≡ (ok tt, reserved_table h a (iso_utc again.micros) j)
reserve-free h a limits again j free aware =
    rw (reserve_lem h a limits again j, free, format_timestamp-aware again aware) refl

-- The journal after a reservation and its abort.
abbrev pub freed : Host → Authorization → Limits → String → Moment → Moment → Journal → Journal
freed h a limits reason now later j =
    (abort_reservation a.request_url reason later (reserve h a limits now j).1).1

reserved_given_up :
    (h : Host) (a : Authorization) (limits : Limits) (reason t : String) (now later : Moment)
    (j : Journal)
    → IsKeyed j
    → (reserve h a limits now j).1 ≡ reserved_table h a t j
    → later.aware ≡ true
    → abort_reservation a.request_url reason later (reserve h a limits now j).1
      ≡ (ok tt, given_up_table h a reason t (iso_utc later.micros) j)
reserved_given_up h a limits reason t now later j keyed table aware = rw table (
    abort-reserved h a reason t (iso_utc later.micros) later j
      (reserved_table-IsKeyed h a t j keyed) (format_timestamp-aware later aware))

-- What an aborted reservation took is free again: on a journal with unique URLs, when a reservation has
-- returned, its abort at a time with a timezone returns, and then the same reservation, at a time with a
-- timezone, returns again and leaves the URL reserved.
pub reserve-again :
    (h : Host) (a : Authorization) (limits : Limits) (reason : String) (now later again : Moment)
    (j : Journal)
    → IsKeyed j
    → (reserve h a limits now j).0 ≡ ok tt
    → later.aware ≡ true
    → again.aware ≡ true
    → ((abort_reservation a.request_url reason later (reserve h a limits now j).1).0 ≡ ok tt)
      × ((reserve h a limits again (freed h a limits reason now later j)).0 ≡ ok tt)
      × (status_of a.request_url (reserve h a limits again (freed h a limits reason now later j)).1
          ≡ some reserved)
reserve-again h a limits reason now later again j keyed reserved_ok later_aware again_aware =
    let (free, (t, table)) = reserve-ok h a limits now j reserved_ok in
    let t' = iso_utc later.micros in
    let free' = refusal-given_up h a limits reason t t' j free in
    let given_up = reserved_given_up h a limits reason t now later j keyed table later_aware in
    let freed_lem : freed h a limits reason now later j ≡ given_up_table h a reason t t' j =
      ap (λ x. x.1) given_up in
    let again_lem =
      reserve-free h a limits again (given_up_table h a reason t t' j) free' again_aware in
    (
      ap (λ x. x.0) given_up,
      rw (freed_lem, again_lem) refl,
      rw (freed_lem, again_lem)
          (reserved_status h a (iso_utc again.micros) (given_up_table h a reason t t' j)),
    )
