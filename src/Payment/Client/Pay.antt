-- ===== src/Payment/Client/Pay.antt =====
-- The paid half of `_request`: sign under a reservation, send the proof once, verify the settlement, and
-- write the outcome. The order of the journal writes and of the sending is the code's.
use Prim.Native.String.{◌++◌ as ◌<>◌}
use oathcast.Prelude.{
  String, ◌==◌, Bool, true, false, not, Option, none, some, List, [], ◌∷◌, eqb, is_some,
  if◌then◌else◌,
}
use oathcast.Prelude.Exec.{Result, ok, err, ◌>>=◌, ◌>>◌, pure, raise}
use oathcast.Json.{Host}
use oathcast.Payment.Authorization.{Authorization, authorization_sha256}
use oathcast.Payment.Client.World.{
  HttpResult, PaymentResponse, Cause, Config, Readings, Client, on_journal, checked_by, try_except,
  signer_raised, verification_failed, no_settlement_header, empty_proof, outcome_unknown,
  not_verified, payment_required, not_journaled, request_failed,
}
use oathcast.Payment.Client.Request.{
  get_paid, read_clock, response_or_error, settlement_proof, validate_signing_policy, get_unpaid,
  require_header, header,
}
use oathcast.Payment.Journal.Methods.{
  abort_reservation, mark_unknown, mark_settled, mark_submitted, reserve,
}
use oathcast.Payment.Challenge.{Challenge, Policy, validate_deadline, decode}
use oathcast.Prelude.Int.{pos}
use oathcast.Payment.Validation.{validate_for_request, from_challenge}

abbrev pub signed_by : Result String String → Client String
signed_by (err s) = raise (signer_raised s)
signed_by (ok proof) = if proof == "" then raise empty_proof else pure proof

-- The signer runs only here, under a reservation; if it fails the reservation is aborted, and the
-- exception goes on.
unfoldable pub sign_or_abort :
    Config → Readings → (Authorization → Result String String) → Authorization → Client String
sign_or_abort c r signer a =
    try_except (signed_by (signer a))
      (λ e. do on_journal (abort_reservation a.request_url (c.str_exception e) r.aborted); raise e)

-- `mark_unknown`, then PaymentOutcomeUnknown
unfoldable pub lose : Config → Readings → String → String → Cause → Client PaymentResponse
lose c r url message cause = do
  on_journal (mark_unknown url message r.concluded)
  raise (outcome_unknown cause)

-- The paid request and the reading of its response.
unfoldable pub exchange :
    Config
    → Readings
    → String
    → List (String × String)
    → Challenge
    → Authorization
    → String
    → Client PaymentResponse
exchange c r url headers challenge a proof = do
  answer ← get_paid c url headers proof
  received ← read_clock r.received
  deadline ← checked_by (validate_deadline c.host challenge.payload r.deadline false)
  response_or_error c.host answer (record {
    request_url = some url;
    received_at = some received;
    payment_attempt_id = some (authorization_sha256 c.host a);
    challenge_sha256 = some a.challenge_sha256;
    challenge_deadline = deadline;
  })

abbrev pub with_verdict : PaymentResponse → PaymentResponse
with_verdict response = record response {
  settlement_verified = true;
  settlement_verification = "verified";
}

abbrev pub evidence_of : Host → Option String → Option String
evidence_of h none = none
evidence_of h (some s) = some (h.sha256 s)

-- `mark_settled` with the hash of the settlement header.
unfoldable pub settle : Config → Readings → String → PaymentResponse → Client PaymentResponse
settle c r url response =
    try_except
      (do
        on_journal
            (mark_settled url (evidence_of c.host (settlement_proof c.host response)) r.concluded)
        pure (with_verdict response))
      (λ e. raise (outcome_unknown not_journaled))

abbrev pub judged :
    Config
    → Readings
    → String
    → PaymentResponse
    → Option (Result String Bool)
    → Client PaymentResponse
judged c r url response (some (ok true)) = settle c r url response
judged c r url response (some (err s)) =
    lose c r url ("settlement verification failed: " <> s) verification_failed
judged c r url response _ =
    lose c r url "settlement header was present but was not independently verified" not_verified

abbrev pub verdict :
    Option (PaymentResponse → Authorization → Result String Bool)
    → PaymentResponse
    → Authorization
    → Option (Result String Bool)
verdict none response a = none
verdict (some verify) response a = some (verify response a)

-- What follows a response: without a settlement header, or unverified, the outcome is unknown.
unfoldable pub conclude :
    Config → Readings → String → Authorization → PaymentResponse → Client PaymentResponse
unfolding settle lose
conclude c r url a response =
    if not (is_some (settlement_proof c.host response))
    then lose c r url "successful response had no settlement header" no_settlement_header
    else judged c r url response (verdict c.verifier response a)

-- From the submitted mark on: a failure of the exchange leaves the outcome unknown.
unfoldable pub send :
    Config
    → Readings
    → String
    → List (String × String)
    → Challenge
    → Authorization
    → String
    → Client PaymentResponse
send c r url headers challenge a proof = do
  on_journal (mark_submitted a r.submitted)
  response ←
      try_except (exchange c r url headers challenge a proof)
        (λ e. lose c r url (c.str_exception e) request_failed)
  conclude c r url a response

abbrev pub or_empty : Option String → String
or_empty none = ""
or_empty (some s) = s

-- The policy that the client holds a challenge to.
abbrev pub policy_of : Config → Policy
policy_of c = record {
  expected_pay_to = or_empty c.expected_pay_to;
  max_amount_micro_usdc = c.max_payment_micro_usdc;
  allowed_versions = pos 2 ∷ [];
  require_resource = false;
  require_deadline = c.require_challenge_deadline;
}

-- The branch of `_request` that pays.
unfoldable pub pay :
    Config
    → Readings
    → String
    → List (String × String)
    → Challenge
    → (Authorization → Result String String)
    → Client PaymentResponse
pay c r url headers challenge signer = do
  option ← checked_by (validate_for_request c.host challenge.payload url (policy_of c) r.validated)
  a ← checked_by (from_challenge c.host challenge url option)
  on_journal (reserve c.host a c.limits r.reserved)
  proof ← sign_or_abort c r signer a
  send c r url headers challenge a proof

abbrev pub pay_if_signer :
    Config
    → Readings
    → String
    → List (String × String)
    → Challenge
    → Option (Authorization → Result String String)
    → Client PaymentResponse
pay_if_signer c r url headers challenge none = raise (payment_required challenge)
pay_if_signer c r url headers challenge (some signer) = pay c r url headers challenge signer

-- The branch of `_request` for a first response that is no 402.
unfoldable pub answer_unpaid : Config → Readings → String → HttpResult → Client PaymentResponse
answer_unpaid c r url first = do
  received ← read_clock r.received
  response_or_error c.host first (record {
    request_url = some url;
    received_at = some received;
    payment_attempt_id = none;
    challenge_sha256 = none;
    challenge_deadline = none;
  })

-- The branch for a 402.
unfoldable pub answer_challenge :
    Config → Readings → String → List (String × String) → HttpResult → Client PaymentResponse
answer_challenge c r url headers first = do
  encoded ← require_header (header c.host "payment-required" first.headers)
  challenge ← checked_by (decode c.host encoded)
  pay_if_signer c r url headers challenge c.signer

-- `_request`, from the URL and the headers on
unfoldable pub request :
    Config → Readings → String → List (String × String) → Client PaymentResponse
request c r url headers = do
  validate_signing_policy c url
  first ← get_unpaid c url headers
  if eqb first.status 402
      then answer_challenge c r url headers first
      else answer_unpaid c r url first
