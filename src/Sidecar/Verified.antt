-- ===== src/Sidecar/Verified.antt =====
-- What a response that `_paid_response_from_mapping` of src/oathcast/application_payment.py returns has
-- been checked for.
use oathcast.Json.{Value, null, boolean, number, real, text, array, object, Fields, Host}
use oathcast.Prelude.Checked.{Sure-bind, Sure-guard, Sure-then}
use oathcast.Prelude.{
  String, ◌&&◌, ◌≡◌, true, ap, arith, false, eq_iff, refl, both, ◌⊎◌, Bool-cases, inl, inr,
}
use oathcast.Json.{Value, Fields, text, object, boolean, number, real, array}
use oathcast.Sidecar.Evidence.{
  Expected, preflight_matches, settlement_matches, verification_matches, validate_paid_evidence,
  is_true, is_false, read, mapping_or, expected_devnet_network, is_int, token_moved, target_matches,
}
use oathcast.Payment.Validation.{is_text}
use oathcast.Prelude.Exec.{Sure, ok, Sure-ok}
use oathcast.Sidecar.Response.{
  PaidResponse, response_from_mapping, is_answer, is_success, expected_of, paid_response,
}
use oathcast.Prelude.Int.{ℤ}

is_true_lem : (v : Value) → is_true v ≡ true → v ≡ boolean true
is_true_lem (boolean b) e = ap boolean e
is_true_lem null e = ground (arith, e)
is_true_lem (number n) e = ground (arith, e)
is_true_lem (real r) e = ground (arith, e)
is_true_lem (text t) e = ground (arith, e)
is_true_lem (array vs) e = ground (arith, e)
is_true_lem (object fs) e = ground (arith, e)

is_false_lem : (v : Value) → is_false v ≡ true → v ≡ boolean false
is_false_lem (boolean b) e = ap boolean (ground (arith, e))
is_false_lem null e = ground (arith, e)
is_false_lem (number n) e = ground (arith, e)
is_false_lem (real r) e = ground (arith, e)
is_false_lem (text t) e = ground (arith, e)
is_false_lem (array vs) e = ground (arith, e)
is_false_lem (object fs) e = ground (arith, e)

is_text_lem : (s : String) (v : Value) → is_text s v ≡ true → v ≡ text s
is_text_lem s (text t) e = ap text ((eq_iff t s).0 e)
is_text_lem s (boolean b) e = ground (arith, e)
is_text_lem s null e = ground (arith, e)
is_text_lem s (number n) e = ground (arith, e)
is_text_lem s (real r) e = ground (arith, e)
is_text_lem s (array vs) e = ground (arith, e)
is_text_lem s (object fs) e = ground (arith, e)

-- A payment was attempted and settled on the expected network, under the very hashes and the signature
-- that the response carries; the transfer is confirmed, without an error, with that signature, by the
-- fee payer, and the tokens have moved; and the evidence is of this operation, of this request and of
-- this body.
pub record IsProven (e : Expected) (evidence : Fields) : Type 0 where
  pub fine : read "ok" evidence ≡ boolean true
  pub executed : read "mode" evidence ≡ text "execute"
  pub operation : read "operation_id" evidence ≡ text e.operation_id
  pub preflight : Fields
  pub preflight_read : read "preflight" evidence ≡ object preflight
  pub validated : read "challenge_validated" preflight ≡ boolean true
  pub attempted : read "payment_attempted" preflight ≡ boolean true
  pub challenge : read "challenge_sha256" preflight ≡ text e.challenge_sha256
  pub settlement : Fields
  pub settlement_read : read "settlement" evidence ≡ object settlement
  pub succeeded : read "success" settlement ≡ boolean true
  pub network : read "network" settlement ≡ text expected_devnet_network
  pub artifact : read "header_sha256" settlement ≡ text e.settlement_artifact_sha256
  pub signature : read "transaction_signature" settlement ≡ text e.transaction_signature
  pub verification : Fields
  pub verification_read : read "verification" evidence ≡ object verification
  pub confirmed : read "confirmed_transaction" verification ≡ boolean true
  pub no_error : read "transaction_error" verification ≡ boolean false
  pub signature_matches : read "transaction_signature_matches" verification ≡ boolean true
  pub fee_payer : read "fee_payer_verified" verification ≡ boolean true
  pub movement : Fields
  pub movement_read : read "token_movement" verification ≡ object movement
  pub moved : read "status" movement ≡ text "verified"
  pub status : is_int e.status (read "paid_response_status" evidence) ≡ true
  pub response_hash : read "paid_response_body_sha256" evidence ≡ text e.response_body_sha256
  pub target : Fields
  pub target_read : read "target" evidence ≡ object target
  pub requested :
      (read "request_binding_sha256" target ≡ text e.target_sha256)
      ⊎ (read "request_url_sha256" target ≡ text e.target_sha256)

mapping_or_lem :
    (message : String) (v : Value) (fs : Fields) → mapping_or message v ≡ ok fs → v ≡ object fs
mapping_or_lem message (object gs) fs e = cc
mapping_or_lem message null fs e = cc
mapping_or_lem message (boolean b) fs e = cc
mapping_or_lem message (number n) fs e = cc
mapping_or_lem message (real r) fs e = cc
mapping_or_lem message (text t) fs e = cc
mapping_or_lem message (array vs) fs e = cc

preflight_lem :
    (e : Expected) (fs : Fields)
    → preflight_matches e fs ≡ true
    → (read "challenge_validated" fs ≡ boolean true)
      × (read "payment_attempted" fs ≡ boolean true)
      × (read "challenge_sha256" fs ≡ text e.challenge_sha256)
unfolding preflight_matches
preflight_lem e fs h =
    let (r, c) = both _ _ h in
    let (a, b) = both _ _ r in (is_true_lem _ a, is_true_lem _ b, is_text_lem _ _ c)

settlement_lem :
    (e : Expected) (fs : Fields)
    → settlement_matches e fs ≡ true
    → (read "success" fs ≡ boolean true)
      × (read "network" fs ≡ text expected_devnet_network)
      × (read "header_sha256" fs ≡ text e.settlement_artifact_sha256)
      × (read "transaction_signature" fs ≡ text e.transaction_signature)
unfolding settlement_matches
settlement_lem e fs h =
    let (r, d) = both _ _ h in
    let (p, c) = both _ _ r in
    let (a, b) = both _ _ p in
    (is_true_lem _ a, is_text_lem _ _ b, is_text_lem _ _ c, is_text_lem _ _ d)

token_moved_lem :
    (v : Value)
    → token_moved v ≡ true
    → (movement : Fields) × (v ≡ object movement) × (read "status" movement ≡ text "verified")
token_moved_lem (object fs) e = (fs, refl, is_text_lem _ _ e)
token_moved_lem null e = ground (arith, e)
token_moved_lem (boolean b) e = ground (arith, e)
token_moved_lem (number n) e = ground (arith, e)
token_moved_lem (real r) e = ground (arith, e)
token_moved_lem (text t) e = ground (arith, e)
token_moved_lem (array vs) e = ground (arith, e)

target_lem :
    (e : Expected) (v : Value)
    → target_matches e v ≡ true
    → (target : Fields) × (v ≡ object target)
      × ((read "request_binding_sha256" target ≡ text e.target_sha256)
          ⊎ (read "request_url_sha256" target ≡ text e.target_sha256))
target_lem e (object fs) h =
    elim (Bool-cases (is_text e.target_sha256 (read "request_binding_sha256" fs))) [
      | inl bound ↦ (fs, refl, inl (is_text_lem _ _ bound))
      | inr unbound ↦ (fs, refl, inr (is_text_lem _ _ (rw unbound at h)))
    ]
target_lem e null h = ground (arith, h)
target_lem e (boolean b) h = ground (arith, h)
target_lem e (number n) h = ground (arith, h)
target_lem e (real r) h = ground (arith, h)
target_lem e (text t) h = ground (arith, h)
target_lem e (array vs) h = ground (arith, h)

verification_lem :
    (fs : Fields)
    → verification_matches fs ≡ true
    → (read "confirmed_transaction" fs ≡ boolean true)
      × (read "transaction_error" fs ≡ boolean false)
      × (read "transaction_signature_matches" fs ≡ boolean true)
      × (read "fee_payer_verified" fs ≡ boolean true)
      × (token_moved (read "token_movement" fs) ≡ true)
unfolding verification_matches
verification_lem fs h =
    let (r, m) = both _ _ h in
    let (p, d) = both _ _ r in
    let (q, c) = both _ _ p in
    let (a, b) = both _ _ q in
    (is_true_lem _ a, is_false_lem _ b, is_true_lem _ c, is_true_lem _ d, m)

abbrev pub Proof : Expected → Value → Fields → Type 0
Proof e v evidence = (v ≡ object evidence) × IsProven e evidence

module _ (e : Expected) (v : Value) where
  proven :
      (evidence preflight settlement verification : Fields)
      → mapping_or "the payment sidecar evidence is not verified" v ≡ ok evidence
      → is_true (read "ok" evidence) ≡ true
      → (is_text "execute" (read "mode" evidence)
          && is_text e.operation_id (read "operation_id" evidence))
        ≡ true
      → mapping_or "the payment sidecar preflight evidence is malformed" (read "preflight" evidence)
        ≡ ok preflight
      → preflight_matches e preflight ≡ true
      → mapping_or "the payment sidecar settlement evidence is malformed"
          (read "settlement" evidence)
        ≡ ok settlement
      → settlement_matches e settlement ≡ true
      → mapping_or "the payment sidecar verification evidence is malformed"
          (read "verification" evidence)
        ≡ ok verification
      → verification_matches verification ≡ true
      → is_int e.status (read "paid_response_status" evidence) ≡ true
      → is_text e.response_body_sha256 (read "paid_response_body_sha256" evidence) ≡ true
      → target_matches e (read "target" evidence) ≡ true
      → Proof e v evidence
  proven evidence preflight settlement verification mapped fine modes p preflight_fine s
        settlement_fine w verification_fine status hash targeted =
      let (execute, operation) = both _ _ modes in
      let (validated, attempted, challenge) = preflight_lem e preflight preflight_fine in
      let (success, network, artifact, signature) = settlement_lem e settlement settlement_fine in
      let (confirmed, no_error, signed, fee_payer, tokens) =
        verification_lem verification verification_fine in
      let (movement, movement_read, moved) =
        token_moved_lem (read "token_movement" verification) tokens in
      let (target, target_read, requested) = target_lem e (read "target" evidence) targeted in
      (
        mapping_or_lem _ _ _ mapped,
        record {
          fine = is_true_lem _ fine;
          executed = is_text_lem _ _ execute;
          operation = is_text_lem _ _ operation;
          preflight = preflight;
          preflight_read = mapping_or_lem _ _ _ p;
          validated = validated;
          attempted = attempted;
          challenge = challenge;
          settlement = settlement;
          settlement_read = mapping_or_lem _ _ _ s;
          succeeded = success;
          network = network;
          artifact = artifact;
          signature = signature;
          verification = verification;
          verification_read = mapping_or_lem _ _ _ w;
          confirmed = confirmed;
          no_error = no_error;
          signature_matches = signed;
          fee_payer = fee_payer;
          movement = movement;
          movement_read = movement_read;
          moved = moved;
          status = status;
          response_hash = is_text_lem _ _ hash;
          target = target;
          target_read = target_read;
          requested = requested;
        },
      )

  pub evidence-IsProven : Sure (Proof e v) (validate_paid_evidence e v)
  unfolding validate_paid_evidence
  evidence-IsProven = search (Sure-bind (Proof e v), Sure-guard (Proof e v), proven) depth 30

-- A response that was returned for what the sidecar answered.
pub record IsVerified (answer : Fields) (r : PaidResponse) : Type 0 where
  pub accepted : is_answer answer ≡ true
  pub success : is_success r.status ≡ true
  pub verified : r.settlement_verification ≡ "verified"
  pub body : r.body ≡ read "body" answer
  pub evidence_read : read "evidence" answer ≡ object r.evidence
  pub proven : IsProven (expected_of r) r.evidence

Sure-paid_response :
    (P : PaidResponse → Type 0) (r : PaidResponse)
    → (is_success r.status ≡ true → P r)
    → Sure P (paid_response r)
unfolding paid_response
Sure-paid_response P r f = search (Sure-then P, Sure-guard P) depth 20

module _ (answer : Fields) where
  verified :
      (status : ℤ)
      (operation_id payment_attempt_id challenge_sha256 target_sha256 settlement_artifact_sha256
        transaction_signature response_body_sha256 received_at : String)
      (evidence : Fields)
      → is_answer answer ≡ true
      → validate_paid_evidence
          (record {
            status = status;
            operation_id = operation_id;
            challenge_sha256 = challenge_sha256;
            target_sha256 = target_sha256;
            settlement_artifact_sha256 = settlement_artifact_sha256;
            transaction_signature = transaction_signature;
            response_body_sha256 = response_body_sha256;
          })
          (read "evidence" answer)
        ≡ ok evidence
      → is_success status ≡ true
      → IsVerified answer (record {
        body = read "body" answer;
        status = status;
        operation_id = operation_id;
        payment_attempt_id = payment_attempt_id;
        challenge_sha256 = challenge_sha256;
        target_sha256 = target_sha256;
        settlement_artifact_sha256 = settlement_artifact_sha256;
        transaction_signature = transaction_signature;
        response_body_sha256 = response_body_sha256;
        evidence = evidence;
        received_at = received_at;
        settlement_verification = "verified";
      })
  verified status _ _ _ _ _ _ _ _ evidence accepted valid success =
      let (evidence_read, proof) =
        Sure-ok (Proof _ _) _ evidence valid (evidence-IsProven _ (read "evidence" answer)) in
      record {
        accepted = accepted;
        success = success;
        verified = refl;
        body = refl;
        evidence_read = evidence_read;
        proven = proof;
      }

  tail :
      (status : ℤ)
      (operation_id payment_attempt_id challenge_sha256 target_sha256 settlement_artifact_sha256
        transaction_signature response_body_sha256 received_at : String)
      (evidence : Fields)
      → is_answer answer ≡ true
      → validate_paid_evidence
          (record {
            status = status;
            operation_id = operation_id;
            challenge_sha256 = challenge_sha256;
            target_sha256 = target_sha256;
            settlement_artifact_sha256 = settlement_artifact_sha256;
            transaction_signature = transaction_signature;
            response_body_sha256 = response_body_sha256;
          })
          (read "evidence" answer)
        ≡ ok evidence
      → Sure (IsVerified answer) (
          paid_response (record {
            body = read "body" answer;
            status = status;
            operation_id = operation_id;
            payment_attempt_id = payment_attempt_id;
            challenge_sha256 = challenge_sha256;
            target_sha256 = target_sha256;
            settlement_artifact_sha256 = settlement_artifact_sha256;
            transaction_signature = transaction_signature;
            response_body_sha256 = response_body_sha256;
            evidence = evidence;
            received_at = received_at;
            settlement_verification = "verified";
          }))
  tail status a b c d e f g i evidence accepted valid =
      Sure-paid_response (IsVerified answer) _
        (verified status a b c d e f g i evidence accepted valid)

  pub response-IsVerified : (h : Host) → Sure (IsVerified answer) (response_from_mapping h answer)
  unfolding response_from_mapping
  response-IsVerified h =
      search (Sure-bind (IsVerified answer), Sure-guard (IsVerified answer), tail) depth 40
