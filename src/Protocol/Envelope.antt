-- ===== src/Protocol/Envelope.antt =====
-- `ProtocolReceipt` and `ProtocolResultEnvelope` of src/oathcast/protocol.py.
use oathcast.Prelude.{
  String, ◌==◌, Bool, true, false, ◌&&◌, Option, none, some, List, [], ◌∷◌, one_of, is_some,
  if◌then◌else◌,
}
use oathcast.Prelude.Int.{ℤ, pos, leb_ℤ}
use oathcast.Prelude.Exec.{Result, ok}
use oathcast.Prelude.Checked.{◌>>=◌, ◌>>◌, guard}
use oathcast.Json.{Value, Fields, Host, null, text, number, object, get_or, of_pairs, opt_text}
use oathcast.Json.Dumps.{sha256_json}
use oathcast.Sidecar.Text.{codes, hash_pattern}
use oathcast.Sidecar.Response.{PaidResponse}

pub data ProtocolError : Type 0 where
  route_mode_unsupported verification_unsupported status_not_http digest_malformed : ProtocolError

pub record Receipt : Type 0 where
  pub request_url : Option String
  pub route_mode : String
  pub response_status : Option ℤ
  pub received_at : Option String
  pub challenge_sha256 : Option String
  pub payment_attempt_id : Option String
  pub settlement_artifact_sha256 : Option String
  pub settlement_verification : String
  pub signal_receipt_sha256 : Option String
  pub registry_snapshot_sha256 : Option String
  pub challenge_deadline : Option String
  pub response_sha256 : Option String
  pub response_body_sha256 : Option String
  pub request_url_sha256 : Option String
  pub settlement_transaction_signature : Option String

abbrev is_http : Option ℤ → Bool
is_http none = true
is_http (some n) = leb_ℤ (pos 100) n && leb_ℤ n (pos 599)

-- `_validate_optional_sha256`
abbrev pub is_digest : Option String → Bool
is_digest none = true
is_digest (some s) = hash_pattern (codes s)

-- `ProtocolReceipt.__post_init__`
unfoldable pub protocol_receipt : Receipt → Result ProtocolError Receipt
protocol_receipt r = do
  guard (one_of r.route_mode ("telegraph" ∷ "direct" ∷ "auto" ∷ "fixture" ∷ "unknown" ∷ []))
      route_mode_unsupported
  guard
      (one_of r.settlement_verification
        ("not_attempted" ∷ "unverified" ∷ "verified" ∷ "invalid" ∷ "unknown" ∷ []))
      verification_unsupported
  guard (is_http r.response_status) status_not_http
  guard (is_digest r.challenge_sha256) digest_malformed
  guard (is_digest r.settlement_artifact_sha256) digest_malformed
  guard (is_digest r.signal_receipt_sha256) digest_malformed
  guard (is_digest r.registry_snapshot_sha256) digest_malformed
  guard (is_digest r.response_sha256) digest_malformed
  guard (is_digest r.response_body_sha256) digest_malformed
  guard (is_digest r.request_url_sha256) digest_malformed
  ok r

-- `settlement_verified`
abbrev pub settlement_verified : Receipt → Bool
settlement_verified r = r.settlement_verification == "verified"

abbrev opt_number : Option ℤ → Value
opt_number none = null
opt_number (some n) = number n

-- `ProtocolReceipt.to_dict`
unfoldable pub receipt_dict : Receipt → Fields
receipt_dict r = of_pairs (
    ("request_url", opt_text r.request_url)
    ∷ ("route_mode", text r.route_mode)
    ∷ ("response_status", opt_number r.response_status)
    ∷ ("received_at", opt_text r.received_at)
    ∷ ("challenge_sha256", opt_text r.challenge_sha256)
    ∷ ("payment_attempt_id", opt_text r.payment_attempt_id)
    ∷ ("settlement_artifact_sha256", opt_text r.settlement_artifact_sha256)
    ∷ ("settlement_verification", text r.settlement_verification)
    ∷ ("signal_receipt_sha256", opt_text r.signal_receipt_sha256)
    ∷ ("registry_snapshot_sha256", opt_text r.registry_snapshot_sha256)
    ∷ ("challenge_deadline", opt_text r.challenge_deadline)
    ∷ ("response_sha256", opt_text r.response_sha256)
    ∷ ("response_body_sha256", opt_text r.response_body_sha256)
    ∷ ("request_url_sha256", opt_text r.request_url_sha256)
    ∷ ("settlement_transaction_signature", opt_text r.settlement_transaction_signature)
    ∷ [])

-- `receipt_sha256`
unfoldable pub receipt_sha256 : Host → Receipt → String
unfolding receipt_dict
receipt_sha256 h r = sha256_json h (object (receipt_dict r))

pub record Envelope : Type 0 where
  pub body : Value
  pub receipt : Receipt

-- What `getattr` reads of a response; a `none` is an attribute that it does not have, or that is None.
pub record Attributes : Type 0 where
  pub body : Value
  pub status : Option ℤ
  pub headers : List (String × String)
  pub request_url : Option String
  pub received_at : Option String
  pub challenge_sha256 : Option String
  pub challenge_deadline : Option String
  pub payment_attempt_id : Option String
  pub settlement_proof : Option String
  pub settlement_artifact_sha256 : Option String
  pub settlement_verification : Option String
  pub settlement_verified : Bool
  pub response_body_sha256 : Option String
  pub target_sha256 : Option String
  pub transaction_signature : Option String

abbrev pub nonempty : Option String → Option String
nonempty none = none
nonempty (some s) = if s == "" then none else some s

abbrev digest_of : Host → Option String → Option String
digest_of h none = none
digest_of h (some s) = some (h.sha256 s)

abbrev or_else : Option String → Option String → Option String
or_else none b = b
or_else (some a) b = some a

-- The state of verification that the response gives, or that its flag and its proof stand for.
abbrev verification_of : Option String → Bool → Option String → String
verification_of (some s) verified proof = s
verification_of none true proof = "verified"
verification_of none false proof =
    if is_some (nonempty proof) then "unverified" else "not_attempted"

-- The first of the headers for a signal receipt.
unfoldable pub signal_receipt : Host → List (String × String) → Option String
signal_receipt h [] = none
signal_receipt h ((key, value) ∷ headers) =
    let rest = signal_receipt h headers in
    if one_of (h.lower key) ("x-signal-receipt" ∷ "x-telegraph-signal-receipt" ∷ [])
    then nonempty (some value)
    else rest

-- The receipt before its checks.
abbrev pub receipt_of : Host → Attributes → String → Option String → Receipt
receipt_of h a route_mode registry = record {
  request_url = a.request_url;
  route_mode = route_mode;
  response_status = a.status;
  received_at = a.received_at;
  challenge_sha256 = a.challenge_sha256;
  payment_attempt_id = a.payment_attempt_id;
  settlement_artifact_sha256 =
      or_else a.settlement_artifact_sha256 (digest_of h (nonempty a.settlement_proof));
  settlement_verification =
      verification_of a.settlement_verification a.settlement_verified a.settlement_proof;
  signal_receipt_sha256 = digest_of h (signal_receipt h a.headers);
  registry_snapshot_sha256 = registry;
  challenge_deadline = a.challenge_deadline;
  response_sha256 = some (sha256_json h a.body);
  response_body_sha256 = a.response_body_sha256;
  request_url_sha256 = a.target_sha256;
  settlement_transaction_signature = a.transaction_signature;
}

-- `from_payment_response`
unfoldable pub from_payment_response :
    Host → Attributes → String → Option String → Result ProtocolError Envelope
unfolding protocol_receipt
from_payment_response h a route_mode registry = do
  receipt ← protocol_receipt (receipt_of h a route_mode registry)
  ok (record { body = a.body; receipt = receipt })

-- The attributes of the sidecar's response: it has no raw settlement header and no HTTP headers.
abbrev pub paid_attributes : PaidResponse → Attributes
paid_attributes r = record {
  body = r.body;
  status = some r.status;
  headers = [];
  request_url = none;
  received_at = some r.received_at;
  challenge_sha256 = some r.challenge_sha256;
  challenge_deadline = none;
  payment_attempt_id = some r.payment_attempt_id;
  settlement_proof = none;
  settlement_artifact_sha256 = some r.settlement_artifact_sha256;
  settlement_verification = some r.settlement_verification;
  settlement_verified = true;
  response_body_sha256 = some r.response_body_sha256;
  target_sha256 = some r.target_sha256;
  transaction_signature = some r.transaction_signature;
}

-- `get`, without a default
unfoldable pub envelope_get : String → Envelope → Value
envelope_get key e = elim e.body [ object fs ↦ get_or key null fs | _ ↦ null ]

-- `ProtocolResultEnvelope.to_dict`
unfoldable pub envelope_dict : Host → Envelope → Fields
unfolding receipt_dict receipt_sha256
envelope_dict h e = of_pairs (
    ("body", e.body)
    ∷ ("receipt", object (receipt_dict e.receipt))
    ∷ ("receipt_sha256", text (receipt_sha256 h e.receipt))
    ∷ [])
