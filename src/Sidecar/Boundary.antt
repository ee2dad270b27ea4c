-- ===== src/Sidecar/Boundary.antt =====
-- `canonical_request_fingerprint` and `ApplicationPaymentBoundary` of src/oathcast/application_payment.py.
use oathcast.Prelude.{ℕ, String, ◌==◌, Bool, ◌&&◌, none, some, List, [], ◌∷◌, leb, one_of, length}
use oathcast.Prelude.Int.{pos}
use oathcast.Prelude.Exec.{Result, ok, err, Exec}
use oathcast.Prelude.Checked.{◌>>=◌, ◌>>◌, guard}
use oathcast.Json.{Value, Fields, Host, text, number, object, of_pairs, end, field}
use oathcast.Json.Dumps.{dumps_raw}
use oathcast.Sidecar.Text.{
  PaymentError, policy_conflict, consent_required, boundary_unavailable, safe_text, safe_hash,
  id_pattern, miner_id_pattern, endpoint_pattern, parameter_pattern, ClientFault, payment, other,
}
use oathcast.Sidecar.Response.{PaidResponse, response_from_mapping}

-- `self.client`, which may change a state of its own.
abbrev pub SidecarClient : Type 0 → Type 0
SidecarClient S = Fields → Exec S ClientFault Fields

pub record Boundary : Type 0 where
  pub host : Host
  pub allowed_miner_ids : List String
  pub allowed_endpoints : List String
  pub max_params : ℕ
  pub max_param_value_length : ℕ

-- The arguments of `request_miner`; a dict's items stand in its order.
pub record MinerRequest : Type 0 where
  pub principal_id : String
  pub idempotency_key : String
  pub request_fingerprint : String
  pub miner_id : String
  pub endpoint : String
  pub params : List (String × Value)
  pub consent : Bool

-- `canonical_request_fingerprint`
unfoldable pub fingerprint : Host → String → String → String → String → Fields → String
fingerprint h principal_id idempotency_key miner_id endpoint params = h.sha256 (
    dumps_raw h (
      object (
        of_pairs (
          ("version", number (pos 1))
          ∷ ("principal_id", text principal_id)
          ∷ ("idempotency_key", text idempotency_key)
          ∷ ("miner_id", text miner_id)
          ∷ ("endpoint", text endpoint)
          ∷ ("params", object params)
          ∷ []))))

-- `for key, value in params.items()`
unfoldable pub normalized : ℕ → List (String × Value) → Result PaymentError Fields
normalized limit [] = ok end
normalized limit ((key, value) ∷ params) = do
  safe_text "parameter name" 64 (some parameter_pattern) (text key)
  v ← safe_text "parameter value" limit none value
  rest ← normalized limit params
  ok (field key (text v) rest)

abbrev pub payload_of : MinerRequest → Fields → Fields
payload_of r params = of_pairs (
    ("kind", text "paid_miner_request")
    ∷ ("principal_id", text r.principal_id)
    ∷ ("idempotency_key", text r.idempotency_key)
    ∷ ("request_fingerprint", text r.request_fingerprint)
    ∷ ("miner_id", text r.miner_id)
    ∷ ("endpoint", text r.endpoint)
    ∷ ("params", object params)
    ∷ [])

-- The part of `request_miner` before the client is called: the payload that it is called with.
unfoldable pub admit : Boundary → MinerRequest → Result PaymentError Fields
unfolding fingerprint normalized
admit b r = do
  guard r.consent (consent_required "explicit consent is required for a paid request")
  safe_text "principal_id" 128 (some id_pattern) (text r.principal_id)
  safe_text "idempotency_key" 128 (some id_pattern) (text r.idempotency_key)
  safe_hash "request_fingerprint" (text r.request_fingerprint)
  safe_text "miner_id" 64 (some miner_id_pattern) (text r.miner_id)
  safe_text "endpoint" 128 (some endpoint_pattern) (text r.endpoint)
  guard (one_of r.miner_id b.allowed_miner_ids && one_of r.endpoint b.allowed_endpoints)
      (policy_conflict "the requested Miner route is not allowlisted")
  guard (leb (length r.params) b.max_params) (policy_conflict "too many Miner parameters")
  params ← normalized b.max_param_value_length r.params
  guard
      (fingerprint b.host r.principal_id r.idempotency_key r.miner_id r.endpoint params
        == r.request_fingerprint)
      (policy_conflict "request_fingerprint does not match the canonical request")
  ok (payload_of r params)

-- The handlers round the call.
abbrev pub kept_or_unavailable : ClientFault → PaymentError
kept_or_unavailable (payment e) = e
kept_or_unavailable (other e) = boundary_unavailable "the private payment sidecar is unavailable"

module _ {S : Type 0} where
  abbrev pub delivered : Host → Result ClientFault Fields × S → Result PaymentError PaidResponse × S
  delivered h (ok response, s) = (response_from_mapping h response, s)
  delivered h (err e, s) = (err (kept_or_unavailable e), s)

  abbrev pub dispatch :
      Boundary → SidecarClient S → Result PaymentError Fields → Exec S PaymentError PaidResponse
  dispatch b client (err e) s = (err e, s)
  dispatch b client (ok payload) s = delivered b.host (client payload s)

  -- `request_miner`
  unfoldable pub request_miner :
      Boundary → SidecarClient S → MinerRequest → Exec S PaymentError PaidResponse
  unfolding admit
  request_miner b client r = dispatch b client (admit b r)
