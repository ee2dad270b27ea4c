-- ===== src/Payment/Journal/Table.antt =====
-- The table `payment_journal` of src/oathcast/payment.py: its rows, and the SQL statements that the
-- methods run on it.
use oathcast.Prelude.{
  ℕ, ◌+◌, String, ◌==◌, ◌≡◌, arith, Bool, true, false, ◌&&◌, Option, none, some, List, [], ◌∷◌,
  if◌then◌else◌,
}

-- The PAYMENT_… constants
pub data Status : Type 0 where
  reserved submitted settled unknown aborted : Status

abbrev pub status_eq : Status → Status → Bool
status_eq reserved reserved = true
status_eq submitted submitted = true
status_eq settled settled = true
status_eq unknown unknown = true
status_eq aborted aborted = true
status_eq _ _ = false

-- `status in PAYMENT_BLOCKING_STATES`
abbrev pub is_blocking : Status → Bool
is_blocking reserved = true
is_blocking submitted = true
is_blocking settled = true
is_blocking unknown = true
is_blocking aborted = false

pub record Row : Type 0 where
  pub request_url : String
  pub status : Status
  pub amount_micro_usdc : ℕ
  pub pay_to : String
  pub network : String
  pub asset : String
  pub request_sha256 : String
  pub challenge_sha256 : String
  pub authorization_sha256 : String
  pub settlement_evidence : Option String
  pub error : Option String
  pub created_at : String
  pub updated_at : String

abbrev pub Journal : Type 0
Journal = List Row

-- SELECT … WHERE request_url = ?
unfoldable pub select : String → Journal → Option Row
select url [] = none
select url (r ∷ rs) = if r.request_url == url then some r else select url rs

unfoldable pub one_if_blocking : Row → ℕ
one_if_blocking r = if is_blocking r.status then 1 else 0

unfoldable pub amount_if_blocking : Row → ℕ
amount_if_blocking r = if is_blocking r.status then r.amount_micro_usdc else 0

-- SELECT COUNT(*) … WHERE status IN (…)
unfoldable pub blocking_count : Journal → ℕ
blocking_count [] = 0
blocking_count (r ∷ rs) = one_if_blocking r + blocking_count rs

-- SELECT COALESCE(SUM(amount_micro_usdc), 0) … WHERE status IN (…)
unfoldable pub blocking_total : Journal → ℕ
blocking_total [] = 0
blocking_total (r ∷ rs) = amount_if_blocking r + blocking_total rs

-- DELETE … WHERE request_url = ?
unfoldable pub delete : String → Journal → Journal
delete url [] = []
delete url (r ∷ rs) = if r.request_url == url then delete url rs else r ∷ delete url rs

pub status_eq-eq : (a b : Status) → status_eq a b ≡ true → a ≡ b
status_eq-eq reserved b h = ground arith
status_eq-eq submitted b h = ground arith
status_eq-eq settled b h = ground arith
status_eq-eq unknown b h = ground arith
status_eq-eq aborted b h = ground arith

-- The SET clause of `_transition`.
abbrev pub set_status : Status → Option String → Option String → String → Row → Row
set_status status evidence error now r = record r {
  status = status;
  settlement_evidence = evidence;
  error = error;
  updated_at = now;
}

unfoldable pub matches : String → Status → Row → Bool
matches url status r = r.request_url == url && status_eq r.status status

unfoldable pub moved_row : String → Status → (Row → Row) → Row → Row
moved_row url from f r = if matches url from r then f r else r

-- UPDATE … WHERE request_url = ? AND status = ?
unfoldable pub update_where : String → Status → (Row → Row) → Journal → Journal
update_where url from f [] = []
update_where url from f (r ∷ rs) = moved_row url from f r ∷ update_where url from f rs

-- its `rowcount`
unfoldable pub row_count_where : String → Status → Journal → ℕ
row_count_where url from [] = 0
row_count_where url from (r ∷ rs) =
    (if matches url from r then 1 else 0) + row_count_where url from rs
