-- ===== src/Sidecar/Response.antt =====
-- `ApplicationPaidResponse` and `_paid_response_from_mapping` of src/oathcast/application_payment.py.
use oathcast.Prelude.{String, ◌==◌, Bool, true, ◌&&◌, Option, none, some, List, [], ◌∷◌}
use oathcast.Prelude.Int.{ℤ, pos, leb_ℤ}
use oathcast.Prelude.Exec.{Result, ok, err}
use oathcast.Prelude.Checked.{◌>>=◌, ◌>>◌, guard}
use oathcast.Json.{Value, Fields, Host, text, contains}
use oathcast.Json.Numbers.{to_int}
use oathcast.Sidecar.Text.{PaymentError, boundary_unavailable, safe_text, safe_hash, id_pattern}
use oathcast.Sidecar.Evidence.{
  Expected, is_true, is_int, read, validate_paid_evidence, error_from_sidecar,
}

-- The fields that are fixed by their defaults here, `request_url` and `headers`, are left out.
pub record PaidResponse : Type 0 where
  pub body : Value
  pub status : ℤ
  pub operation_id : String
  pub payment_attempt_id : String
  pub challenge_sha256 : String
  pub target_sha256 : String
  pub settlement_artifact_sha256 : String
  pub transaction_signature : String
  pub response_body_sha256 : String
  pub evidence : Fields
  pub received_at : String
  pub settlement_verification : String

abbrev pub is_success : ℤ → Bool
is_success status = leb_ℤ (pos 200) status && leb_ℤ status (pos 299)

-- `ApplicationPaidResponse.__post_init__`
unfoldable pub paid_response : PaidResponse → Result PaymentError PaidResponse
paid_response r = do
  guard (is_success r.status) (boundary_unavailable "sidecar returned a non-success status")
  safe_text "operation_id" 128 (some id_pattern) (text r.operation_id)
  safe_text "payment_attempt_id" 128 (some id_pattern) (text r.payment_attempt_id)
  safe_hash "challenge_sha256" (text r.challenge_sha256)
  safe_hash "target_sha256" (text r.target_sha256)
  safe_hash "settlement_artifact_sha256" (text r.settlement_artifact_sha256)
  safe_hash "response_body_sha256" (text r.response_body_sha256)
  guard (r.settlement_verification == "verified")
      (boundary_unavailable "sidecar did not return verified settlement")
  ok r

abbrev pub required : List String
required =
    "body" ∷ "status" ∷ "operation_id" ∷ "payment_attempt_id" ∷ "body_sha256" ∷ "challenge_sha256"
    ∷ "target_sha256" ∷ "settlement_artifact_sha256" ∷ "transaction_signature" ∷ "received_at"
    ∷ "verification" ∷ "evidence" ∷ []

abbrev pub has_all : List String → Fields → Bool
has_all [] payload = true
has_all (key ∷ keys) payload = contains key payload && has_all keys payload

abbrev pub status_or : Option ℤ → Result PaymentError ℤ
status_or none = err (boundary_unavailable "the payment sidecar status is invalid")
status_or (some n) = ok n

abbrev pub is_answer : Fields → Bool
is_answer payload = is_int (pos 1) (read "version" payload) && is_true (read "ok" payload)

-- What the evidence has to agree with.
abbrev pub expected_of : PaidResponse → Expected
expected_of r = record {
  status = r.status;
  operation_id = r.operation_id;
  challenge_sha256 = r.challenge_sha256;
  target_sha256 = r.target_sha256;
  settlement_artifact_sha256 = r.settlement_artifact_sha256;
  transaction_signature = r.transaction_signature;
  response_body_sha256 = r.response_body_sha256;
}

-- `_paid_response_from_mapping`
unfoldable pub response_from_mapping : Host → Fields → Result PaymentError PaidResponse
response_from_mapping h payload = do
  guard (is_answer payload) (error_from_sidecar payload)
  guard (has_all required payload)
      (boundary_unavailable "the payment sidecar response is incomplete")
  status ← status_or (to_int h (read "status" payload))
  operation_id ← safe_text "operation_id" 128 (some id_pattern) (read "operation_id" payload)
  payment_attempt_id ←
      safe_text "payment_attempt_id" 128 (some id_pattern) (read "payment_attempt_id" payload)
  challenge_sha256 ← safe_hash "challenge_sha256" (read "challenge_sha256" payload)
  target_sha256 ← safe_hash "target_sha256" (read "target_sha256" payload)
  settlement_artifact_sha256 ←
      safe_hash "settlement_artifact_sha256" (read "settlement_artifact_sha256" payload)
  transaction_signature ←
      safe_text "transaction_signature" 128 none (read "transaction_signature" payload)
  response_body_sha256 ← safe_hash "body_sha256" (read "body_sha256" payload)
  evidence ←
      validate_paid_evidence
        (record {
          status = status;
          operation_id = operation_id;
          challenge_sha256 = challenge_sha256;
          target_sha256 = target_sha256;
          settlement_artifact_sha256 = settlement_artifact_sha256;
          transaction_signature = transaction_signature;
          response_body_sha256 = response_body_sha256;
        })
        (read "evidence" payload)
  received_at ← safe_text "received_at" 64 none (read "received_at" payload)
  paid_response (record {
    body = read "body" payload;
    status = status;
    operation_id = operation_id;
    payment_attempt_id = payment_attempt_id;
    challenge_sha256 = challenge_sha256;
    target_sha256 = target_sha256;
    settlement_artifact_sha256 = settlement_artifact_sha256;
    transaction_signature = transaction_signature;
    response_body_sha256 = response_body_sha256;
    evidence = evidence;
    received_at = received_at;
    settlement_verification = "verified";
  })
