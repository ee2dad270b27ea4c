-- ===== src/Payment/Journal/Lifecycle.antt =====
-- How the status of one request URL moves under the methods of the journal, and what that means for a
-- second payment.
use oathcast.Prelude.{
  String, ◌≡◌, refl, Option, none, some, ◌∷◌, arith, eqb, if◌then◌else◌, Bool-cases, ◌⊎◌, inl, inr,
  ◌==◌, List, Option-cases, eq_iff, true, ap, [],
}
use oathcast.Clock.{Moment, format_timestamp, format_timestamp-aware}
use oathcast.Payment.Journal.Table.{
  Status, reserved, submitted, settled, unknown, aborted, Row, Journal, select, set_status,
  moved_row, matches, status_eq-eq, delete,
}
use oathcast.Payment.Journal.Rows.{IsKeyed, found, moved, select-update_where, select-delete}
use oathcast.Payment.Journal.Methods.{
  transition, new_row, Error, unresolved_outcome, already_journaled, Limits, mark_submitted,
  mark_settled, mark_unknown, abort_reservation, duplicate_error, prefix, reserve,
}
use oathcast.Payment.Journal.Effects.{
  transition_lem, transition_outcome, reserve_outcome, refusal, reserve_lem, row_refusal,
  budget_refusal,
}
use oathcast.Json.{Host}
use oathcast.Payment.Journal.History.{
  perform, replay, Call, IsSound, reserve_call, perform-IsSound, submitted_call, settled_call,
  unknown_call, abort_call,
}
use oathcast.Payment.Authorization.{Authorization}
use oathcast.Prelude.Exec.{err, ok}

-- The status in the row of a request URL.
abbrev pub row_status : Option Row → Option Status
row_status none = none
row_status (some r) = some r.status

abbrev pub status_of : String → Journal → Option Status
status_of url j = row_status (select url j)

-- The moves of one request URL's status that the methods make.
pub data Edge (a b : Option Status) : Type 0 where
  stays : b ≡ a → Edge a b
  opens : a ≡ none → b ≡ some reserved → Edge a b
  reopens : a ≡ some aborted → b ≡ some reserved → Edge a b
  submits : a ≡ some reserved → b ≡ some submitted → Edge a b
  aborts : a ≡ some reserved → b ≡ some aborted → Edge a b
  settles : a ≡ some submitted → b ≡ some settled → Edge a b
  loses : a ≡ some submitted → b ≡ some unknown → Edge a b

select-head :
    (k : String) (r : Row) (j : Journal)
    → select k (r ∷ j) ≡ (if r.request_url == k then some r else select k j)
unfolding select
select-head k r j = refl

-- A transition leaves a status alone or makes its one move.
row_status-moved :
    (url : String) (from to : Status) (evidence error : Option String) (t : String) (o : Option Row)
    → (row_status (moved url from (set_status to evidence error t) o) ≡ row_status o)
      ⊎ ((row_status o ≡ some from)
          × (row_status (moved url from (set_status to evidence error t) o) ≡ some to))
unfolding moved_row matches
row_status-moved url from to evidence error t none = inl refl
row_status-moved url from to evidence error t (some r) = ground (arith, status_eq-eq r.status from)

abbrev pub Moves : Status → Status → Option Status → Option Status → Type 0
Moves from to a b = (b ≡ a) ⊎ ((a ≡ some from) × (b ≡ some to))

transition_outcome-Moves :
    (k url : String) (from to : Status) (evidence error t : Option String) (j : Journal)
    → Moves from to
        (status_of k j)
        (status_of k (transition_outcome url from to evidence error t j).1)
transition_outcome-Moves k url from to evidence error none j = inl refl
transition_outcome-Moves k url from to evidence error (some t) j =
    elim (Bool-cases (eqb (found from (select url j)) 1)) [
      | inl e ↦ rw e (
          rw (select-update_where url from to evidence error t k j)
            (row_status-moved url from to evidence error t (select k j)))
      | inr e ↦ rw e (inl refl)
    ]

pub transition-Moves :
    (k url : String) (from to : Status) (evidence error : Option String) (now : Moment)
    (j : Journal)
    → IsKeyed j
    → Moves from to (status_of k j) (status_of k (transition url from to evidence error now j).1)
transition-Moves k url from to evidence error now j h =
    rw (transition_lem url from to evidence error now j h)
      (transition_outcome-Moves k url from to evidence error (format_timestamp now) j)

select-request_url :
    (url : String) (r : Row) (j : Journal) → select url j ≡ some r → (r.request_url == url) ≡ true
unfolding select
select-request_url url r [] e = cc
select-request_url url r (x ∷ j) e = ground (arith, select-request_url url r j)

-- A row of the URL in the status that the WHERE clause asks for is moved.
found-moved :
    (url : String) (from to : Status) (evidence error : Option String) (t : String) (o : Option Row)
    → ((r : Row) → o ≡ some r → (r.request_url == url) ≡ true)
    → eqb (found from o) 1 ≡ true
    → (row_status o ≡ some from)
      × (row_status (moved url from (set_status to evidence error t) o) ≡ some to)
unfolding moved_row matches
found-moved url from to evidence error t none key e = cc
found-moved url from to evidence error t (some r) key e =
    ground (arith, key r refl, status_eq-eq r.status from)

-- A transition that returns has found the row in `from` and has left it in `to`.
pub transition-ok :
    (url : String) (from to : Status) (evidence error : Option String) (now : Moment) (j : Journal)
    → IsKeyed j
    → (transition url from to evidence error now j).0 ≡ ok tt
    → (status_of url j ≡ some from)
      × (status_of url (transition url from to evidence error now j).1 ≡ some to)
transition-ok url from to evidence error now j keyed =
    rw (transition_lem url from to evidence error now j keyed) (go (format_timestamp now))
  where
    go :
        (t : Option String)
        → (transition_outcome url from to evidence error t j).0 ≡ ok tt
        → (status_of url j ≡ some from)
          × (status_of url (transition_outcome url from to evidence error t j).1 ≡ some to)
    go none e = cc
    go (some t) e = elim (Bool-cases (eqb (found from (select url j)) 1)) [
      | inl f ↦ rw f (
          rw (select-update_where url from to evidence error t url j) (
            found-moved url from to evidence error t (select url j)
              (λ r q. select-request_url url r j q) f))
      | inr f ↦ cc (rw f at e)
    ]

reopened :
    (o : Option Row) (rest : Option Error)
    → row_refusal o rest ≡ none
    → Edge (row_status o) (some reserved)
reopened none rest e = opens refl refl
reopened (some r) rest e = by_status r.status refl e
  where
    by_status :
        (st : Status)
        → r.status ≡ st
        → row_refusal (some r) rest ≡ none
        → Edge (some r.status) (some reserved)
    by_status aborted q e = reopens (ap some q) refl
    by_status reserved q e = cc (rw q at e)
    by_status submitted q e = cc (rw q at e)
    by_status settled q e = cc (rw q at e)
    by_status unknown q e = cc (rw q at e)

reserve_outcome-Edge :
    (k : String) (h : Host) (a : Authorization) (limits : Limits) (t : Option String) (j : Journal)
    → Edge (status_of k j) (status_of k (reserve_outcome h a (refusal a limits j) t j).1)
unfolding new_row
reserve_outcome-Edge k h a limits none j = stays refl
reserve_outcome-Edge k h a limits (some t) j = elim (Option-cases (refusal a limits j)) [
  | inr (e, refused) ↦ rw refused (stays refl)
  | inl free ↦ rw free (
      rw (select-head k (new_row h a t) (delete a.request_url j), select-delete a.request_url k j)
        (elim (Bool-cases (a.request_url == k)) [
          | inr other ↦ rw other (stays refl)
          | inl same ↦ rw same (
              reopened (select k j) (budget_refusal a limits j)
                (rw ((eq_iff a.request_url k).0 same) at free))
        ]))
]

-- On a journal with unique URLs each call moves each request URL along one edge of the payment
-- lifecycle, or leaves it where it is.
pub perform-Edge :
    (h : Host) (limits : Limits) (k : String) (c : Call) (j : Journal)
    → IsKeyed j
    → Edge (status_of k j) (status_of k (perform h limits c j).1)
unfolding perform mark_submitted mark_settled mark_unknown abort_reservation
perform-Edge h limits k (reserve_call a now) j keyed =
    rw (reserve_lem h a limits now j) (reserve_outcome-Edge k h a limits (format_timestamp now) j)
perform-Edge h limits k (submitted_call a now) j keyed =
    elim (transition-Moves k a.request_url reserved submitted none none now j keyed) [
      | inl e ↦ stays e
      | inr (p, q) ↦ submits p q
    ]
perform-Edge h limits k (settled_call url evidence now) j keyed =
    elim (transition-Moves k url submitted settled evidence none now j keyed) [
      | inl e ↦ stays e
      | inr (p, q) ↦ settles p q
    ]
perform-Edge h limits k (unknown_call url error now) j keyed =
    elim (transition-Moves k url submitted unknown none (some (prefix 1000 error)) now j keyed) [
      | inl e ↦ stays e
      | inr (p, q) ↦ loses p q
    ]
perform-Edge h limits k (abort_call url error now) j keyed =
    elim (transition-Moves k url reserved aborted none (some (prefix 1000 error)) now j keyed) [
      | inl e ↦ stays e
      | inr (p, q) ↦ aborts p q
    ]

-- A proof for the request may have been sent: no method leads back from here.
abbrev pub IsSpent : Option Status → Type 0
IsSpent none = ⊥
IsSpent (some reserved) = ⊥
IsSpent (some submitted) = Unit
IsSpent (some settled) = Unit
IsSpent (some unknown) = Unit
IsSpent (some aborted) = ⊥

pub Edge-IsSpent : {a b : Option Status} → Edge a b → IsSpent a → IsSpent b
Edge-IsSpent {b = b} (stays e) s = rw e s
Edge-IsSpent (opens e f) s = absurd (rw e at s)
Edge-IsSpent (reopens e f) s = absurd (rw e at s)
Edge-IsSpent (submits e f) s = absurd (rw e at s)
Edge-IsSpent (aborts e f) s = absurd (rw e at s)
Edge-IsSpent (settles e f) s = rw f tt
Edge-IsSpent (loses e f) s = rw f tt

pub replay-IsSpent :
    (h : Host) (limits : Limits) (url : String) (cs : List Call) (j : Journal)
    → IsSound limits j
    → IsSpent (status_of url j)
    → IsSpent (status_of url (replay h limits cs j))
unfolding replay
replay-IsSpent h limits url [] j sound spent = spent
replay-IsSpent h limits url (c ∷ cs) j sound spent =
    replay-IsSpent h limits url cs (perform h limits c j).1 (perform-IsSound h limits c j sound)
      (Edge-IsSpent (perform-Edge h limits url c j sound.keyed) spent)

abbrev pub IsDuplicate : Error → Type 0
IsDuplicate e = (e ≡ unresolved_outcome) ⊎ (e ≡ already_journaled)

row_refusal-spent :
    (o : Option Row) (rest : Option Error)
    → IsSpent (row_status o)
    → (row_refusal o rest ≡ some (duplicate_error o)) × IsDuplicate (duplicate_error o)
row_refusal-spent none rest s = absurd s
row_refusal-spent (some r) rest s = by_status r.status refl s
  where
    by_status :
        (st : Status)
        → r.status ≡ st
        → IsSpent (some r.status)
        → (row_refusal (some r) rest ≡ some (duplicate_error (some r)))
          × IsDuplicate (duplicate_error (some r))
    by_status reserved e s = absurd (rw e at s)
    by_status submitted e s = rw e (refl, inr refl)
    by_status settled e s = rw e (refl, inr refl)
    by_status unknown e s = rw e (refl, inl refl)
    by_status aborted e s = absurd (rw e at s)

-- From a journal within its budgets in which a proof for a URL was submitted, whatever calls follow, by
-- any process, every further reservation of the URL, at a time with a timezone, raises
-- DuplicatePaymentError and writes nothing.
pub no_second_reservation :
    (h : Host) (limits : Limits) (a : Authorization) (cs : List Call) (j : Journal) (now : Moment)
    → IsSound limits j
    → IsSpent (status_of a.request_url j)
    → now.aware ≡ true
    → (e : Error) × (reserve h a limits now (replay h limits cs j) ≡ (err e, replay h limits cs j))
      × IsDuplicate e
no_second_reservation h limits a cs j now sound spent aware =
    let j' = replay h limits cs j in
    let (refused, duplicate) =
      row_refusal-spent (select a.request_url j') (budget_refusal a limits j')
        (replay-IsSpent h limits a.request_url cs j sound spent) in
    (
      duplicate_error (select a.request_url j'),
      rw (reserve_lem h a limits now j', format_timestamp-aware now aware, refused) refl,
      duplicate,
    )
