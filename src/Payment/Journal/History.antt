-- ===== src/Payment/Journal/History.antt =====
-- Histories of `SqlitePaymentJournal` of src/oathcast/payment.py: any sequence of method calls by any
-- processes, each of which is one SQL transaction.
use oathcast.Prelude.{
  ◌≤◌, String, ◌≡◌, refl, true, Option, none, some, List, [], ◌∷◌, arith, eqb, Bool-cases,
  Option-cases, inl, inr, eq_refl,
}
use oathcast.Prelude.Exec.{Result}
use oathcast.Clock.{Moment, format_timestamp}
use oathcast.Json.{Host}
use oathcast.Payment.Authorization.{Authorization}
use oathcast.Payment.Journal.Table.{
  Status, reserved, submitted, settled, unknown, aborted, is_blocking, Journal, select,
  blocking_count, blocking_total, one_if_blocking, amount_if_blocking,
}
use oathcast.Payment.Journal.Rows.{
  IsKeyed, found, delete-IsKeyed, update_where-IsKeyed, blocking_count-update_where,
  blocking_total-update_where, blocking_count-delete, blocking_total-delete, select-delete,
}
use oathcast.Payment.Journal.Methods.{
  Error, Limits, reserve, transition, mark_submitted, mark_settled, mark_unknown, abort_reservation,
  new_row, prefix,
}
use oathcast.Payment.Journal.Effects.{
  transition_lem, transition_outcome, reserve_lem, reserve_outcome, refusal, reserved_table,
}

-- A call of a method that writes.
pub data Call : Type 0 where
  reserve_call : Authorization → Moment → Call
  submitted_call : Authorization → Moment → Call
  settled_call : String → Option String → Moment → Call
  unknown_call : String → String → Moment → Call
  abort_call : String → String → Moment → Call

unfoldable pub perform : Host → Limits → Call → Journal → Result Error (Unit {0}) × Journal
perform h limits (reserve_call a now) j = reserve h a limits now j
perform h limits (submitted_call a now) j = mark_submitted a now j
perform h limits (settled_call url evidence now) j = mark_settled url evidence now j
perform h limits (unknown_call url error now) j = mark_unknown url error now j
perform h limits (abort_call url error now) j = abort_reservation url error now j

-- The table after the calls, whatever each of them returned or raised.
unfoldable pub replay : Host → Limits → List Call → Journal → Journal
replay h limits [] j = j
replay h limits (c ∷ cs) j = replay h limits cs (perform h limits c j).1

-- The key is unique, and the blocking rows stay inside both budgets.
pub record IsSound (limits : Limits) (j : Journal) : Type 0 where
  pub keyed : IsKeyed j
  pub count : blocking_count j ≤ limits.max_paid_requests
  pub total : blocking_total j ≤ limits.max_total_payment_micro_usdc

module _ (h : Host) (limits : Limits) where
  transition_outcome-IsSound :
      (url : String) (from to : Status) (evidence error t : Option String) (j : Journal)
      → is_blocking from ≡ true
      → IsSound limits j
      → IsSound limits (transition_outcome url from to evidence error t j).1
  transition_outcome-IsSound url from to evidence error none j b s = s
  transition_outcome-IsSound url from to evidence error (some t) j b s =
      elim (Bool-cases (eqb (found from (select url j)) 1)) [
        | inl e ↦ rw e (record {
          keyed = update_where-IsKeyed url from to evidence error t j s.keyed;
          count =
              omega (arith, blocking_count-update_where url from to evidence error t j b, s.count);
          total =
              omega (arith, blocking_total-update_where url from to evidence error t j b, s.total);
        })
        | inr e ↦ rw e s
      ]

  transition-IsSound :
      (url : String) (from to : Status) (evidence error : Option String) (now : Moment)
      (j : Journal)
      → is_blocking from ≡ true
      → IsSound limits j
      → IsSound limits (transition url from to evidence error now j).1
  transition-IsSound url from to evidence error now j b s =
      rw (transition_lem url from to evidence error now j s.keyed)
        (transition_outcome-IsSound url from to evidence error (format_timestamp now) j b s)

  reserved_table-IsSound :
      (a : Authorization) (t : String) (j : Journal)
      → refusal a limits j ≡ none
      → IsSound limits j
      → IsSound limits (reserved_table h a t j)
  unfolding new_row blocking_count blocking_total one_if_blocking amount_if_blocking
  reserved_table-IsSound a t j free s = record {
    keyed = (rw select-delete (rw (eq_refl a.request_url)), delete-IsKeyed a.request_url j s.keyed);
    count = ground (arith, blocking_count-delete a.request_url j);
    total = ground (arith, blocking_total-delete a.request_url j);
  }

  reserve_outcome-IsSound :
      (a : Authorization) (t : Option String) (j : Journal)
      → IsSound limits j
      → IsSound limits (reserve_outcome h a (refusal a limits j) t j).1
  reserve_outcome-IsSound a none j s = s
  reserve_outcome-IsSound a (some t) j s = elim (Option-cases (refusal a limits j)) [
    | inl free ↦ rw free (reserved_table-IsSound a t j free s)
    | inr (e, refused) ↦ rw refused s
  ]

  -- Every call keeps the key unique and both budgets, whether it returns or raises.
  pub perform-IsSound :
      (c : Call) (j : Journal) → IsSound limits j → IsSound limits (perform h limits c j).1
  unfolding perform mark_submitted mark_settled mark_unknown abort_reservation
  perform-IsSound (reserve_call a now) j s =
      rw (reserve_lem h a limits now j) (reserve_outcome-IsSound a (format_timestamp now) j s)
  perform-IsSound (submitted_call a now) j s =
      transition-IsSound a.request_url reserved submitted none none now j refl s
  perform-IsSound (settled_call url evidence now) j s =
      transition-IsSound url submitted settled evidence none now j refl s
  perform-IsSound (unknown_call url error now) j s =
      transition-IsSound url submitted unknown none (some (prefix 1000 error)) now j refl s
  perform-IsSound (abort_call url error now) j s =
      transition-IsSound url reserved aborted none (some (prefix 1000 error)) now j refl s

  -- From a journal with unique URLs and within both budgets, any sequence of calls, of which some may
  -- raise, leaves the URLs unique, the blocking payments at most `max_paid_requests` and their amounts
  -- at most `max_total_payment_micro_usdc`.
  pub replay-IsSound :
      (cs : List Call) (j : Journal) → IsSound limits j → IsSound limits (replay h limits cs j)
  unfolding replay
  replay-IsSound [] j s = s
  replay-IsSound (c ∷ cs) j s = replay-IsSound cs (perform h limits c j).1 (perform-IsSound c j s)
