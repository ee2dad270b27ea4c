-- ===== src/Sidecar/Evidence.antt =====
-- `_error_from_sidecar` and `_validate_paid_evidence` of src/oathcast/application_payment.py.
use oathcast.Prelude.{
  ◌*◌, String, ◌==◌, Bool, false, not, ◌&&◌, ◌||◌, [], ◌∷◌, eqb, one_of, if◌then◌else◌, ◌+◌,
}
use oathcast.Prelude.Int.{ℤ, pos, negsuc}
use oathcast.Prelude.Exec.{Result, ok, err}
use oathcast.Prelude.Checked.{◌>>=◌, ◌>>◌, guard}
use oathcast.Json.{Value, Fields, null, boolean, number, real, text, object, get_or}
use oathcast.Sidecar.Text.{
  PaymentError, boundary_unavailable, authorization_error, preflight_rejected, outcome_unknown,
  policy_conflict,
}

abbrev pub expected_devnet_network : String
expected_devnet_network = "solana:EtWTRABZaYq6iMfeYKouRu166VU2xqa1"

-- value is True
abbrev pub is_true : Value → Bool
is_true (boolean b) = b
is_true _ = false

-- value is False
abbrev pub is_false : Value → Bool
is_false (boolean b) = not b
is_false _ = false

-- value == s
abbrev pub is_text : String → Value → Bool
is_text s (text t) = t == s
is_text s _ = false

abbrev same : ℤ → ℤ → Bool
same (pos m) (pos n) = eqb m n
same (negsuc m) (negsuc n) = eqb m n
same _ _ = false

abbrev millions : ℤ → ℤ
millions (pos n) = pos (1000000 * n)
millions (negsuc n) = negsuc (1000000 * n + 999999)

-- value == n, which holds of the equal float and of `True` and `False` too
abbrev pub is_int : ℤ → Value → Bool
is_int n (number m) = same m n
is_int n (real r) = same r (millions n)
is_int n (boolean b) = same (pos (if b then 1 else 0)) n
is_int n _ = false

-- The messages by code.
unfoldable pub message_of : String → String
message_of code =
    if code == "AUTHORIZATION_FAILED"
    then "sidecar authorization failed"
    else if code == "PAYMENT_OUTCOME_UNKNOWN" || code == "INCOMPLETE_SETTLEMENT_EVIDENCE"
    then "the payment outcome requires explicit reconciliation"
    else if code == "PAYMENT_IN_PROGRESS"
    then "the payment attempt is already in progress"
    else if code == "PAYMENT_BUDGET_EXHAUSTED"
    then "the Application payment budget is exhausted"
    else if code == "IDEMPOTENCY_CONFLICT"
    then "the Application idempotency key conflicts with stored evidence"
    else if code == "IDEMPOTENCY_CONSUMED"
    then "the Application idempotency key was already consumed"
    else if code == "ALLOWLIST_REJECTED"
    then "the requested Miner route is not allowlisted"
    else if code == "TARGET_REJECTED"
    then "the requested Miner route was rejected"
    else if code == "REQUEST_FINGERPRINT_MISMATCH"
    then "the Application request fingerprint is invalid"
    else if code == "PREFLIGHT_FETCH_FAILED"
    then "the Miner preflight was unavailable"
    else if code == "PREFLIGHT_NOT_PAYMENT_REQUIRED"
    then "the Miner did not return a payment challenge"
    else if code == "RECONCILED_PAYMENT_RESPONSE_UNAVAILABLE"
    then "the reconciled payment response is not replayable"
    else if code == "JOURNAL_FAILURE"
    then "the private payment journal is unavailable"
    else "the private payment sidecar rejected the request"

abbrev pub is_ambiguous : String → Bool
is_ambiguous code = one_of code (
    "PAYMENT_OUTCOME_UNKNOWN" ∷ "PAYMENT_IN_PROGRESS" ∷ "INCOMPLETE_SETTLEMENT_EVIDENCE"
    ∷ "RECONCILED_PAYMENT_RESPONSE_UNAVAILABLE" ∷ "JOURNAL_FAILURE" ∷ [])

abbrev pub is_conflict : String → Bool
is_conflict code =
    one_of code ("IDEMPOTENCY_CONFLICT" ∷ "IDEMPOTENCY_CONSUMED" ∷ "PAYMENT_BUDGET_EXHAUSTED" ∷ [])

unfoldable pub error_of_code : String → PaymentError
unfolding message_of
error_of_code code =
    if code == "AUTHORIZATION_FAILED"
    then authorization_error (message_of code)
    else if is_ambiguous code
    then outcome_unknown (message_of code)
    else if is_conflict code
    then policy_conflict (message_of code)
    else preflight_rejected (message_of code)

abbrev code_of : Value → String
code_of (text code) = code
code_of _ = "SIDECAR_ERROR"

abbrev error_of : Value → PaymentError
error_of (object raw) = error_of_code (code_of (get_or "code" null raw))
error_of _ = boundary_unavailable "the payment sidecar returned an invalid error"

-- `_error_from_sidecar`
unfoldable pub error_from_sidecar : Fields → PaymentError
unfolding error_of_code
error_from_sidecar payload = error_of (get_or "error" null payload)

-- The values that the evidence is held to.
pub record Expected : Type 0 where
  pub status : ℤ
  pub operation_id : String
  pub challenge_sha256 : String
  pub target_sha256 : String
  pub settlement_artifact_sha256 : String
  pub transaction_signature : String
  pub response_body_sha256 : String

abbrev pub mapping_or : String → Value → Result PaymentError Fields
mapping_or message (object fs) = ok fs
mapping_or message _ = err (boundary_unavailable message)

-- `d.get(key)`
abbrev pub read : String → Fields → Value
read key fs = get_or key null fs

unfoldable pub preflight_matches : Expected → Fields → Bool
preflight_matches e preflight =
    is_true (read "challenge_validated" preflight)
    && is_true (read "payment_attempted" preflight)
    && is_text e.challenge_sha256 (read "challenge_sha256" preflight)

unfoldable pub settlement_matches : Expected → Fields → Bool
settlement_matches e settlement =
    is_true (read "success" settlement)
    && is_text expected_devnet_network (read "network" settlement)
    && is_text e.settlement_artifact_sha256 (read "header_sha256" settlement)
    && is_text e.transaction_signature (read "transaction_signature" settlement)

abbrev pub token_moved : Value → Bool
token_moved (object movement) = is_text "verified" (read "status" movement)
token_moved _ = false

unfoldable pub verification_matches : Fields → Bool
verification_matches verification =
    is_true (read "confirmed_transaction" verification)
    && is_false (read "transaction_error" verification)
    && is_true (read "transaction_signature_matches" verification)
    && is_true (read "fee_payer_verified" verification)
    && token_moved (read "token_movement" verification)

abbrev pub target_matches : Expected → Value → Bool
target_matches e (object target) =
    is_text e.target_sha256 (read "request_binding_sha256" target)
    || is_text e.target_sha256 (read "request_url_sha256" target)
target_matches e _ = false

-- `_validate_paid_evidence`, of `payload["evidence"]`
unfoldable pub validate_paid_evidence : Expected → Value → Result PaymentError Fields
unfolding preflight_matches settlement_matches verification_matches
validate_paid_evidence e v = do
  evidence ← mapping_or "the payment sidecar evidence is not verified" v
  guard (is_true (read "ok" evidence))
      (boundary_unavailable "the payment sidecar evidence is not verified")
  guard
      (is_text "execute" (read "mode" evidence)
        && is_text e.operation_id (read "operation_id" evidence))
      (boundary_unavailable "the payment sidecar evidence is mismatched")
  preflight ←
      mapping_or "the payment sidecar preflight evidence is malformed" (read "preflight" evidence)
  guard (preflight_matches e preflight)
      (boundary_unavailable "the payment sidecar preflight evidence is unverified")
  settlement ←
      mapping_or "the payment sidecar settlement evidence is malformed" (read "settlement" evidence)
  guard (settlement_matches e settlement)
      (boundary_unavailable "the payment sidecar settlement evidence is malformed")
  verification ←
      mapping_or "the payment sidecar verification evidence is malformed"
        (read "verification" evidence)
  guard (verification_matches verification)
      (boundary_unavailable "the payment sidecar settlement is not independently verified")
  guard (is_int e.status (read "paid_response_status" evidence))
      (boundary_unavailable "the payment sidecar response status is mismatched")
  guard (is_text e.response_body_sha256 (read "paid_response_body_sha256" evidence))
      (boundary_unavailable "the payment sidecar response body hash is mismatched")
  guard (target_matches e (read "target" evidence))
      (boundary_unavailable "the payment sidecar target evidence is mismatched")
  ok evidence
