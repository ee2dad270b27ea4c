-- ===== src/Payment/Tests/Scenario.antt =====
-- A client whose dispatcher asks for 10000 micro-USDC once, and what a run of it does.
use oathcast.Json.Numbers.{to_int}
use oathcast.Prelude.{String, List, [], ◌∷◌, Bool, true, false, some, ◌≡◌, refl, is_some}
use oathcast.Prelude.Exec.{ok}
use oathcast.Prelude.Int.{pos}
use oathcast.Clock.{Moment, date_of_days, format_timestamp, iso_utc}
use oathcast.Json.{Host, Fields, object, array, text, number, of_pairs, cons, nil}
use oathcast.Json.TestHost.{test_host}
use oathcast.Payment.Challenge.{
  base_sepolia_network, base_sepolia_usdc, decode, version, validate_deadline, accepts, amount_of,
  deadline_epoch, deadline_epoch_seconds, resource_url_of,
}
use oathcast.Payment.Client.World.{HttpResult, Config, Readings, paid, unpaid}
use oathcast.Payment.Client.AtMostOnce.{Event, happen, visit, fresh_world}
use oathcast.Payment.Client.Request.{
  header, validate_signing_policy, get_unpaid, get_paid, read_clock, response_or_error,
  settlement_proof,
}
use oathcast.Payment.Journal.Methods.{
  assert_available, insert, mark_settled, mark_submitted, mark_unknown, new_row, reserve, timestamp,
  transition,
}
use oathcast.Payment.Journal.Table.{
  select, blocking_count, blocking_total, amount_if_blocking, delete, matches, moved_row,
  one_if_blocking, row_count_where, update_where,
}
use oathcast.Payment.Client.Pay.{
  answer_challenge, pay, answer_unpaid, conclude, exchange, lose, request, send, settle,
  sign_or_abort,
}
use oathcast.Payment.Validation.{
  validate_for_request, first_candidate, is_candidate, check_option, from_challenge,
}
use oathcast.Json.Dumps.{decimal, dumps, int_text, sha256_json}
use oathcast.Payment.Authorization.{authorization_sha256}
use oathcast.Payment.Journal.History.{perform}

abbrev pub option : Fields
option = of_pairs (
    ("scheme", text "exact")
    ∷ ("network", text base_sepolia_network)
    ∷ ("asset", text base_sepolia_usdc)
    ∷ ("amount", number (pos 10000))
    ∷ ("payTo", text "0xabc")
    ∷ [])

abbrev pub payload : Fields
payload =
    of_pairs (("x402Version", number (pos 2)) ∷ ("accepts", array (cons (object option) nil)) ∷ [])

abbrev pub host : Host
host = record test_host { b64_json = λ s. some (object payload) }

abbrev pub url : String
url = "https://dispatcher/v1/7/predict"

abbrev answer : Bool → HttpResult
answer true = record {
  status = 200;
  headers = ("x-payment-settle-response", "receipt") ∷ [];
  body = "{}";
}
answer false = record { status = 402; headers = ("payment-required", "challenge") ∷ []; body = "" }

abbrev pub config : Config
config = record {
  host = host;
  dispatcher_url = "https://dispatcher";
  transport = λ u hs. ok (answer (is_some (header host "PAYMENT-SIGNATURE" hs)));
  signer = some (λ a. ok "proof");
  verifier = some (λ p a. ok true);
  expected_pay_to = some "0xabc";
  allowed_miner_ids = some ("7" ∷ []);
  allowed_endpoints = some ("predict" ∷ []);
  max_payment_micro_usdc = 10000;
  limits = record { max_paid_requests = 1; max_total_payment_micro_usdc = 10000 };
  allow_insecure_transport = false;
  require_settlement = true;
  require_challenge_deadline = false;
  has_journal = true;
  str_exception = λ e. "error";
}

abbrev pub noon : Moment
noon = record { micros = 1785283200000000; aware = true }

abbrev pub readings : Readings
readings = record {
  validated = noon;
  reserved = noon;
  aborted = noon;
  submitted = noon;
  received = noon;
  deadline = noon;
  concluded = noon;
}

abbrev pub visits : List Event
visits = (visit config readings url []) ∷ (visit config readings url []) ∷ []

-- The first visit pays and settles, and the second is refused before anything leaves.
sent_once : (happen config.limits visits fresh_world).sent ≡ (paid url "proof") ∷ (unpaid url) ∷ []
unfolding happen validate_signing_policy assert_available select blocking_count blocking_total
    get_unpaid answer_challenge decode pay validate_for_request version to_int validate_deadline
    first_candidate accepts is_candidate amount_of date_of_days format_timestamp iso_utc decimal
    dumps int_text sha256_json authorization_sha256 deadline_epoch deadline_epoch_seconds
    resource_url_of answer_unpaid conclude exchange lose request send settle sign_or_abort get_paid
    read_clock response_or_error settlement_proof perform insert mark_settled mark_submitted
    mark_unknown new_row reserve timestamp transition amount_if_blocking delete matches moved_row
    one_if_blocking row_count_where update_where check_option from_challenge
sent_once = refl
