-- ===== src/Payment/Journal/Written.antt =====
-- What `reserve` and `_transition` of src/oathcast/payment.py leave in the journal, row by row.
use oathcast.Prelude.{
  String, Option, ◌≡◌, ◌⊎◌, none, some, Bool-cases, true, ◌≢◌, ◌==◌, ◌≤◌, inl, inr, arith, ◌<◌,
  if◌then◌else◌, eq_iff, eq_refl, leb, leb→le, ◌+◌, Option-cases, refl, ap,
}
use oathcast.Payment.Authorization.{Authorization}
use oathcast.Payment.Journal.Table.{
  select, Journal, Row, Status, aborted, blocking_count, blocking_total, is_blocking, reserved,
  submitted, settled, unknown, update_where, set_status,
}
use oathcast.Json.{Host}
use oathcast.Payment.Journal.Methods.{
  Limits, new_row, Error, reserve, duplicate_error, transition_failed,
}
use oathcast.Payment.Journal.Lifecycle.{status_of, row_status}
use oathcast.Prelude.Exec.{Result, ok, err}
use oathcast.Payment.Journal.Effects.{
  reserved_table, refusal, row_refusal, budget_refusal, reserve_lem,
}
use oathcast.Prelude.Moment.{Moment}
use oathcast.Clock.{iso_utc, format_timestamp-aware}
use oathcast.Payment.Journal.Rows.{select-delete}

-- Every other URL has the row that it had.
abbrev pub OthersKept : String → Journal → Journal → Type 0
OthersKept url j j' = (k : String) → (url ≡ k) ⊎ (select k j' ≡ select k j)

-- A reservation that returned: the URL was free and both budgets had room, and it has one reserved row
-- with the terms of the authorization.
pub record IsOpened (a : Authorization) (limits : Limits) (t : String) (j j' : Journal)
    : Type 0 where
  pub free : (status_of a.request_url j ≡ none) ⊎ (status_of a.request_url j ≡ some aborted)
  pub count : blocking_count j < limits.max_paid_requests
  pub total : blocking_total j + a.amount_micro_usdc ≤ limits.max_total_payment_micro_usdc
  pub row : Row
  pub stored : select a.request_url j' ≡ some row
  pub status : row.status ≡ reserved
  pub amount : row.amount_micro_usdc ≡ a.amount_micro_usdc
  pub pay_to : row.pay_to ≡ a.pay_to
  pub network : row.network ≡ a.network
  pub asset : row.asset ≡ a.asset
  pub created_at : row.created_at ≡ t
  pub others : OthersKept a.request_url j j'

-- Why a reservation is refused.
abbrev pub NoRoom : Authorization → Limits → Journal → Type 0
NoRoom a limits j =
    ((s : Status) × (status_of a.request_url j ≡ some s) × (s ≢ aborted))
    ⊎ ((limits.max_paid_requests ≤ blocking_count j)
        ⊎ (limits.max_total_payment_micro_usdc < blocking_total j + a.amount_micro_usdc))

abbrev pub Reserved :
    Authorization → Limits → String → Journal → Result Error (Unit {0}) × Journal → Type 0
Reserved a limits t j (ok u, j') = IsOpened a limits t j j'
Reserved a limits t j (err e, j') = (j' ≡ j) × NoRoom a limits j

row_refusal-Free :
    (o : Option Row) (rest : Option Error)
    → row_refusal o rest ≡ none
    → ((row_status o ≡ none) ⊎ (row_status o ≡ some aborted)) × (rest ≡ none)
row_refusal-Free none rest e = (inl refl, e)
row_refusal-Free (some r) rest e = by_status r.status refl e
  where
    by_status :
        (s : Status)
        → r.status ≡ s
        → (if is_blocking s then some (duplicate_error (some r)) else rest) ≡ none
        → ((some r.status ≡ none) ⊎ (some r.status ≡ some aborted)) × (rest ≡ none)
    by_status reserved p q = cc
    by_status submitted p q = cc
    by_status settled p q = cc
    by_status unknown p q = cc
    by_status aborted p q = (inr (ap some p), q)

row_refusal-Blocked :
    (o : Option Row) (rest : Option Error) (x : Error)
    → row_refusal o rest ≡ some x
    → ((s : Status) × (row_status o ≡ some s) × (s ≢ aborted)) ⊎ (rest ≡ some x)
row_refusal-Blocked none rest x e = inr e
row_refusal-Blocked (some r) rest x e = by_status r.status refl e
  where
    by_status :
        (s : Status)
        → r.status ≡ s
        → (if is_blocking s then some (duplicate_error (some r)) else rest) ≡ some x
        → ((s : Status) × (some r.status ≡ some s) × (s ≢ aborted)) ⊎ (rest ≡ some x)
    by_status reserved p q = inl (reserved, ap some p, (λ e. cc e))
    by_status submitted p q = inl (submitted, ap some p, (λ e. cc e))
    by_status settled p q = inl (settled, ap some p, (λ e. cc e))
    by_status unknown p q = inl (unknown, ap some p, (λ e. cc e))
    by_status aborted p q = inr q

reserved-others :
    (h : Host) (a : Authorization) (t : String) (j : Journal)
    → OthersKept a.request_url j (reserved_table h a t j)
unfolding select new_row
reserved-others h a t j k = elim (Bool-cases (a.request_url == k)) [
  | inl same ↦ inl ((eq_iff a.request_url k).0 same)
  | inr other ↦ inr (rw (other, select-delete a.request_url k j, other) refl)
]

opened :
    (h : Host) (a : Authorization) (limits : Limits) (t : String) (j : Journal)
    → refusal a limits j ≡ none
    → IsOpened a limits t j (reserved_table h a t j)
unfolding select new_row
opened h a limits t j e =
    let (free, room) = row_refusal-Free (select a.request_url j) (budget_refusal a limits j) e in
    record {
      free = free;
      count = ground (arith, room);
      total = ground (arith, room);
      row = new_row h a t;
      stored = rw (eq_refl a.request_url) refl;
      status = refl;
      amount = refl;
      pay_to = refl;
      network = refl;
      asset = refl;
      created_at = refl;
      others = reserved-others h a t j;
    }

no_room :
    (a : Authorization) (limits : Limits) (j : Journal) (x : Error)
    → refusal a limits j ≡ some x
    → NoRoom a limits j
no_room a limits j x e =
    elim (row_refusal-Blocked (select a.request_url j) (budget_refusal a limits j) x e) [
      | inl blocked ↦ inl blocked
      | inr spent ↦ elim (Bool-cases (leb limits.max_paid_requests (blocking_count j))) [
        | inl full ↦ inr (inl (leb→le _ _ full))
        | inr fine ↦ inr (inr (ground (arith, spent, fine)))
      ]
    ]

-- At a time with a timezone, a reservation that returns found the URL free and both budgets open, leaves
-- one reserved row for it, of the authorization's amount, recipient, network and asset, and the rows of
-- all other URLs; one that raises changes nothing, and the URL has a payment or a budget has no room.
pub reserve-Reserved :
    (h : Host) (a : Authorization) (limits : Limits) (now : Moment) (j : Journal)
    → now.aware ≡ true
    → Reserved a limits (iso_utc now.micros) j (reserve h a limits now j)
reserve-Reserved h a limits now j aware =
    rw (reserve_lem h a limits now j, format_timestamp-aware now aware)
      (elim (Option-cases (refusal a limits j)) [
        | inl free ↦ rw free (opened h a limits (iso_utc now.micros) j free)
        | inr (x, refused) ↦ rw refused (refl, no_room a limits j x refused)
      ])

-- A transition that returned: the row of the URL had the one status and has the other, with the evidence,
-- the error and the time of the move, and its terms.
pub record IsMoved (url : String) (from to : Status) (evidence error : Option String) (t : String)
    (j j' : Journal) : Type 0 where
  pub before : Row
  pub found : select url j ≡ some before
  pub from_status : before.status ≡ from
  pub after : Row
  pub stored : select url j' ≡ some after
  pub to_status : after.status ≡ to
  pub evidence_kept : after.settlement_evidence ≡ evidence
  pub error_kept : after.error ≡ error
  pub updated_at : after.updated_at ≡ t
  pub amount : after.amount_micro_usdc ≡ before.amount_micro_usdc
  pub pay_to : after.pay_to ≡ before.pay_to
  pub created_at : after.created_at ≡ before.created_at
  pub others : OthersKept url j j'

abbrev pub Transitioned :
    String
    → Status
    → Status
    → Option String
    → Option String
    → String
    → Journal
    → Result Error (Unit {0}) × Journal
    → Type 0
Transitioned url from to evidence error t j (ok u, j') = IsMoved url from to evidence error t j j'
Transitioned url from to evidence error t j (err e, j') =
    (j' ≡ j) × (e ≡ transition_failed from to) × (status_of url j ≢ some from)

module _ (url : String) (from to : Status) (evidence error : Option String) (t : String)
    (j : Journal) where
  abbrev moved_table : Journal
  moved_table = update_where url from (set_status to evidence error t) j
