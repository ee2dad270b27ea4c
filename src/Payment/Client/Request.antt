-- ===== src/Payment/Client/Request.antt =====
-- `_validate_target`, `_validate_signing_policy`, `_request` and `_response_or_error` of
-- src/oathcast/payment.py.
use oathcast.Prelude.{
  String, ◌==◌, Bool, true, false, not, ◌&&◌, Option, none, some, List, [], ◌∷◌, ltb, leb, is_some,
  if◌then◌else◌, one_of, ◌||◌, ◌++◌, starts_with,
}
use oathcast.Prelude.Exec.{Result, ok, err, ◌>>◌, pure, raise, raise_if, modify}
use oathcast.Clock.{Moment, format_timestamp}
use oathcast.Json.{Value, Host, text}
use oathcast.Payment.Client.World.{
  HttpResult, PaymentResponse, ClientError, Config, Sent, unpaid, paid, World, Client, on_journal,
  invalid_configuration, http_failure, naive_clock, challenge_header_missing, miner_not_approved,
  pay_to_missing, transport_raised, endpoint_not_approved, targets_missing, insecure_transport,
  journal_missing,
}
use oathcast.Payment.Challenge.{minimum_usdc_microunits}
use oathcast.Payment.Journal.Methods.{assert_available}

-- The guards of `__init__`.
unfoldable pub configure : Config → Result ClientError Config
configure c =
    if ltb c.limits.max_paid_requests 1
    then err invalid_configuration
    else if ltb c.limits.max_total_payment_micro_usdc minimum_usdc_microunits
    then err invalid_configuration
    else if is_some c.signer && not c.has_journal
    then err invalid_configuration
    else if is_some c.signer && c.allow_insecure_transport
    then err invalid_configuration
    else if is_some c.signer && not c.require_settlement
    then err invalid_configuration
    else if is_some c.signer && not (is_some c.verifier)
    then err invalid_configuration
    else ok c

abbrev pub in_targets : Option (List String) → String → Bool
in_targets none s = true
in_targets (some l) s = one_of s l

-- `_validate_target`, on a miner id that is a text and an endpoint without its leading slashes
unfoldable pub validate_target : Config → String → String → Client (Unit {0})
validate_target c miner_id endpoint = do
  raise_if (not (in_targets c.allowed_miner_ids miner_id)) miner_not_approved
  raise_if (not (in_targets c.allowed_endpoints endpoint)) endpoint_not_approved

-- `_validate_signing_policy`
unfoldable pub validate_signing_policy : Config → String → Client (Unit {0})
validate_signing_policy c url = if not (is_some c.signer) then pure tt else do
  raise_if (not (is_some c.expected_pay_to)) pay_to_missing
  raise_if (not (is_some c.allowed_miner_ids) || not (is_some c.allowed_endpoints)) targets_missing
  raise_if
      (not c.allow_insecure_transport
        && not (starts_with (c.host.lower c.dispatcher_url) "https://"))
      insecure_transport
  raise_if (not c.has_journal) journal_missing
  on_journal (assert_available url c.limits 0)

-- `next((value for key, value in headers.items() if key.lower() == name), None)`
abbrev pub header : Host → String → List (String × String) → Option String
header h name [] = none
header h name ((k, v) ∷ r) = if h.lower k == name then some v else header h name r

-- `settlement_proof`: a header of blanks counts as none.
unfoldable pub settlement_proof : Host → PaymentResponse → Option String
settlement_proof h r = elim (header h "x-payment-settle-response" r.headers) [
  | none ↦ none
  | some v ↦ if h.strip v == "" then none else some v
]

abbrev pub body_value : Option Value → String → Value
body_value (some v) s = v
body_value none s = text s

-- What the caller of `_response_or_error` adds to the response.
pub record Context : Type 0 where
  pub request_url : Option String
  pub received_at : Option String
  pub payment_attempt_id : Option String
  pub challenge_sha256 : Option String
  pub challenge_deadline : Option String

-- `_response_or_error`
unfoldable pub response_or_error : Host → HttpResult → Context → Client PaymentResponse
response_or_error h r context =
    if leb 200 r.status && ltb r.status 300
    then pure (record {
      status = r.status;
      body = body_value (h.json_loads r.body) r.body;
      headers = r.headers;
      request_url = context.request_url;
      received_at = context.received_at;
      payment_attempt_id = context.payment_attempt_id;
      challenge_sha256 = context.challenge_sha256;
      challenge_deadline = context.challenge_deadline;
      settlement_verified = false;
      settlement_verification =
          if is_some (header h "x-payment-settle-response" r.headers)
          then "unverified"
          else "not_attempted";
    })
    else raise (http_failure r.status)

abbrev pub record_sent : Sent → World → World
record_sent e w = record w { sent = e ∷ w.sent }

abbrev pub returned : {A : Type 0} → (String → ClientError) → Result String A → Client A
returned f (ok a) w = (ok a, w)
returned f (err s) w = (err (f s), w)

-- `self.transport("GET", url, headers)`: the request has left, whatever comes back.
unfoldable pub get_unpaid : Config → String → List (String × String) → Client HttpResult
get_unpaid c url headers = do
  modify (record_sent (unpaid url))
  returned transport_raised (c.transport url headers)

unfoldable pub get_paid : Config → String → List (String × String) → String → Client HttpResult
get_paid c url headers proof = do
  modify (record_sent (paid url proof))
  returned transport_raised (c.transport url (headers ++ ("PAYMENT-SIGNATURE", proof) ∷ []))

abbrev pub iso : Option String → Client String
iso none = raise naive_clock
iso (some t) = pure t

-- `_timestamp(self.clock())`
unfoldable pub read_clock : Moment → Client String
read_clock m = iso (format_timestamp m)

-- The challenge header of a 402 response.
abbrev pub require_header : Option String → Client String
require_header none = raise challenge_header_missing
require_header (some s) = if s == "" then raise challenge_header_missing else pure s
