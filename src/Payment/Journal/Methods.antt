-- ===== src/Payment/Journal/Methods.antt =====
-- The methods of `SqlitePaymentJournal` of src/oathcast/payment.py.
use Prim.Native.String.{[] as empty_text, ◌∷◌ as add_char}
use oathcast.Prelude.{
  ℕ, zero, suc, ◌+◌, String, Bool, false, not, Option, none, some, ◌∷◌, ltb, leb, eqb, is_some,
  if◌then◌else◌,
}
use oathcast.Prelude.Exec.{
  ok, err, Exec, pure, raise, gets, modify, raise_if, transaction, ◌>>=◌, ◌>>◌,
}
use oathcast.Clock.{Moment, format_timestamp}
use oathcast.Json.{Host}
use oathcast.Payment.Authorization.{Authorization, authorization_sha256}
use oathcast.Payment.Journal.Table.{
  Status, reserved, submitted, settled, unknown, aborted, status_eq, is_blocking, Row, Journal,
  select, blocking_count, blocking_total, delete, set_status, update_where, row_count_where,
}

-- What a method raises: the first two are `DuplicatePaymentError`, then two `PaymentBudgetExceeded`,
-- the `PaymentPolicyError` of `_transition`, sqlite's IntegrityError, and the ValueError about a
-- timestamp with no timezone.
pub data Error : Type 0 where
  unresolved_outcome already_journaled requests_exhausted amount_exhausted : Error
  transition_failed : Status → Status → Error
  integrity_error naive_timestamp : Error

pub record Limits : Type 0 where
  pub max_paid_requests : ℕ
  pub max_total_payment_micro_usdc : ℕ

abbrev pub stamped : Option String → Exec Journal Error String
stamped none = raise naive_timestamp
stamped (some t) = pure t

-- `_timestamp`
unfoldable pub timestamp : Moment → Exec Journal Error String
timestamp now = stamped (format_timestamp now)

-- INSERT INTO …, refused by the primary key.
unfoldable pub insert : Row → Exec Journal Error (Unit {0})
insert row j =
    if is_some (select row.request_url j) then (err integrity_error, j) else (ok tt, row ∷ j)

abbrev pub blocked_by : Option Row → Bool
blocked_by none = false
blocked_by (some r) = is_blocking r.status

abbrev pub duplicate_error : Option Row → Error
duplicate_error none = already_journaled
duplicate_error (some r) =
    if status_eq r.status unknown then unresolved_outcome else already_journaled

-- `_assert_available_in_transaction`
unfoldable pub assert_available : String → Limits → ℕ → Exec Journal Error (Unit {0})
assert_available url limits additional = do
  row ← gets (select url)
  raise_if (blocked_by row) (duplicate_error row)
  count ← gets blocking_count
  total ← gets blocking_total
  raise_if (leb limits.max_paid_requests count) requests_exhausted
  raise_if (ltb limits.max_total_payment_micro_usdc (total + additional)) amount_exhausted

abbrev pub is_aborted : Option Row → Bool
is_aborted none = false
is_aborted (some r) = status_eq r.status aborted

-- The row of a new reservation.
unfoldable pub new_row : Host → Authorization → String → Row
new_row h a now = record {
  request_url = a.request_url;
  status = reserved;
  amount_micro_usdc = a.amount_micro_usdc;
  pay_to = a.pay_to;
  network = a.network;
  asset = a.asset;
  request_sha256 = h.sha256 a.request_url;
  challenge_sha256 = a.challenge_sha256;
  authorization_sha256 = authorization_sha256 h a;
  settlement_evidence = none;
  error = none;
  created_at = now;
  updated_at = now;
}

unfoldable pub reserve : Host → Authorization → Limits → Moment → Exec Journal Error (Unit {0})
unfolding timestamp assert_available insert
reserve h a limits now = do
  t ← timestamp now
  transaction (do
    assert_available a.request_url limits a.amount_micro_usdc
    existing ← gets (select a.request_url)
    modify (λ j. if is_aborted existing then delete a.request_url j else j)
    insert (new_row h a t))

-- `_transition`
unfoldable pub transition :
    String
    → Status
    → Status
    → Option String
    → Option String
    → Moment
    → Exec Journal Error (Unit {0})
unfolding timestamp
transition url from to evidence error now = transaction (do
  t ← timestamp now
  updated ← gets (row_count_where url from)
  modify (update_where url from (set_status to evidence error t))
  raise_if (not (eqb updated 1)) (transition_failed from to))

-- `text[:n]`
abbrev pub prefix : ℕ → String → String
prefix zero s = empty_text
prefix (suc n) empty_text = empty_text
prefix (suc n) (add_char c s) = add_char c (prefix n s)

unfoldable pub mark_submitted : Authorization → Moment → Exec Journal Error (Unit {0})
unfolding transition
mark_submitted a now = transition a.request_url reserved submitted none none now

unfoldable pub mark_settled : String → Option String → Moment → Exec Journal Error (Unit {0})
unfolding transition
mark_settled url evidence now = transition url submitted settled evidence none now

unfoldable pub mark_unknown : String → String → Moment → Exec Journal Error (Unit {0})
unfolding transition
mark_unknown url error now = transition url submitted unknown none (some (prefix 1000 error)) now

unfoldable pub abort_reservation : String → String → Moment → Exec Journal Error (Unit {0})
unfolding transition
abort_reservation url error now =
    transition url reserved aborted none (some (prefix 1000 error)) now
