-- ===== src/Payment/Validation.antt =====
-- `validate_for_request` and `ValidatedPaymentAuthorization.from_challenge` of src/oathcast/payment.py.
pub mod Approved
pub mod Authorized
use oathcast.Prelude.{
  ℕ, String, ◌==◌, Bool, true, false, not, ◌&&◌, ◌||◌, Option, none, some, List, [], ◌∷◌, ltb, leb,
  opt_eq, is_some, if◌then◌else◌, eqb,
}
use oathcast.Prelude.Int.{ℤ, pos, negsuc}
use oathcast.Prelude.Exec.{Result, ok, err}
use oathcast.Clock.{Moment}
use oathcast.Json.{Value, Fields, Host, text, object, get_or, str, null}
use oathcast.Payment.Challenge.{
  ◌>>=◌, ◌>>◌, amount_of, guard, amount_value, unsupported_version, amount_over_cap,
  cap_below_floor, pay_to_value, wrong_recipient, validate_deadline, resource_url_of, accepts,
}
use oathcast.Payment.Authorization.{Authorization}
use oathcast.Payment.Challenge.{
  Challenge, Policy, version, base_sepolia_network, ChallengeError, invalid_amount, no_recipient,
  resource_omitted, no_approved_option, incomplete_option, base_sepolia_usdc,
  minimum_usdc_microunits, wrong_resource,
}
use oathcast.Json.Dumps.{sha256_json, dumps}

abbrev pub int_eq : ℤ → ℤ → Bool
int_eq (pos a) (pos b) = eqb a b
int_eq (negsuc a) (negsuc b) = eqb a b
int_eq _ _ = false

-- `version in allowed_versions`
abbrev pub allows_version : List ℤ → Option ℤ → Bool
allows_version vs none = false
allows_version [] (some v) = false
allows_version (w ∷ vs) (some v) = int_eq v w || allows_version vs (some v)

abbrev pub text_of : String → Fields → Host → String
text_of key option h = h.lower (str h (get_or key (text "") option))

abbrev pub is_text : String → Value → Bool
is_text s (text t) = t == s
is_text s _ = false

-- The three tests after which an option is skipped with `continue`.
unfoldable pub is_candidate : Host → Fields → Bool
is_candidate h option =
    text_of "scheme" option h == "exact"
    && is_text base_sepolia_network (get_or "network" null option)
    && text_of "asset" option h == h.lower base_sepolia_usdc

abbrev nonempty_text : Value → Option String
nonempty_text (text s) = if s == "" then none else some s
nonempty_text _ = none

abbrev require_amount : Option ℕ → Result ChallengeError ℕ
require_amount none = err invalid_amount
require_amount (some n) = if ltb n minimum_usdc_microunits then err invalid_amount else ok n

abbrev require_recipient : Option String → Result ChallengeError String
require_recipient none = err no_recipient
require_recipient (some s) = ok s

abbrev check_resource : Bool → String → Option String → Result ChallengeError (Unit {0})
check_resource required url none = if required then err resource_omitted else ok tt
check_resource required url (some r) = if r == url then ok tt else err wrong_resource

-- The rest of the loop body, for the first candidate: it returns the option or raises.
unfoldable pub check_option :
    Host → Fields → String → Policy → Fields → Result ChallengeError Fields
check_option h payload url policy option = do
  found ← amount_of h (amount_value option)
  amount ← require_amount found
  guard (leb amount policy.max_amount_micro_usdc) amount_over_cap
  pay_to ← require_recipient (nonempty_text (pay_to_value option))
  guard (h.lower pay_to == h.lower policy.expected_pay_to) wrong_recipient
  check_resource policy.require_resource url (resource_url_of option payload)
  ok option

-- `for option in self.accepts`; a candidate ends the loop, whatever comes of it.
unfoldable pub first_candidate : Host → List Value → Option Fields
first_candidate h [] = none
first_candidate h (object option ∷ vs) =
    if is_candidate h option then some option else first_candidate h vs
first_candidate h (v ∷ vs) = first_candidate h vs

abbrev check_candidate :
    Host → Fields → String → Policy → Option Fields → Result ChallengeError Fields
check_candidate h payload url policy none = err no_approved_option
check_candidate h payload url policy (some option) = check_option h payload url policy option

unfoldable pub validate_for_request :
    Host → Fields → String → Policy → Moment → Result ChallengeError Fields
unfolding check_option
validate_for_request h payload url policy now = do
  guard (allows_version policy.allowed_versions (version h payload)) unsupported_version
  guard (leb minimum_usdc_microunits policy.max_amount_micro_usdc) cap_below_floor
  validate_deadline h payload now policy.require_deadline
  check_candidate h payload url policy (first_candidate h (accepts payload))

abbrev require_version : Option ℤ → Result ChallengeError ℤ
require_version none = err incomplete_option
require_version (some v) = ok v

abbrev complete : Option ℕ → Option String → Result ChallengeError (ℕ × String)
complete (some n) (some s) = ok (n, s)
complete _ _ = err incomplete_option

-- The authorization with its three checked parts.
abbrev pub authorization_for : Host → Challenge → String → Fields → ℤ → ℕ → String → Authorization
authorization_for h challenge url option v amount pay_to = record {
  request_url = url;
  challenge_sha256 = sha256_json h (object challenge.payload);
  version = v;
  scheme = text_of "scheme" option h;
  network = str h (get_or "network" (text "") option);
  asset = text_of "asset" option h;
  amount_micro_usdc = amount;
  pay_to = pay_to;
  resource_url = resource_url_of option challenge.payload;
  challenge_payload_json = dumps h (object challenge.payload);
  option_json = dumps h (object option);
}

-- `from_challenge`
unfoldable pub from_challenge :
    Host → Challenge → String → Fields → Result ChallengeError Authorization
from_challenge h challenge url option = do
  v ← require_version (version h challenge.payload)
  found ← amount_of h (amount_value option)
  parts ← complete found (nonempty_text (pay_to_value option))
  ok (authorization_for h challenge url option v parts.0 parts.1)
