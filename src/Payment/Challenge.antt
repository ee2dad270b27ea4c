-- ===== src/Payment/Challenge.antt =====
-- `PaymentChallenge` of src/oathcast/payment.py: what a 402 challenge offers, and the checks it must pass
-- before anything is signed. Deadlines are in microseconds.
use oathcast.Prelude.{
  ℕ, ◌*◌, String, ◌==◌, Bool, true, false, ◌&&◌, Option, none, some, List, [], ◌∷◌, ltb, is_some,
  if◌then◌else◌,
}
use oathcast.Prelude.Int.{ℤ, pos, negsuc}
use oathcast.Prelude.Exec.{Result, ok, err}
use oathcast.Clock.{Moment, iso_utc}
use oathcast.Json.Numbers.{to_int}
use oathcast.Json.{
  Value, Fields, Host, null, number, real, text, array, object, nil, get, get_or, contains, items,
}

abbrev pub base_sepolia_network : String
base_sepolia_network = "eip155:84532"

abbrev pub base_sepolia_usdc : String
base_sepolia_usdc = "0x036CbD53842c5426634e7929541eC2318f3dCF7e"

abbrev pub minimum_usdc_microunits : ℕ
minimum_usdc_microunits = 10000

-- What the checks raise: a `PaymentPolicyError` for each of its messages, and the ValueErrors.
pub data ChallengeError : Type 0 where
  unsupported_version cap_below_floor invalid_deadline no_deadline deadline_expired : ChallengeError
  invalid_amount amount_over_cap no_recipient wrong_recipient resource_omitted wrong_resource :
      ChallengeError
  no_approved_option : ChallengeError
  naive_now deadline_out_of_range incomplete_option unreadable_amount not_an_object undecodable :
      ChallengeError

infixl 5 ◌>>=◌
abbrev pub ◌>>=◌ :
    {A B : Type 0}
    → Result ChallengeError A
    → (A → Result ChallengeError B)
    → Result ChallengeError B
ok a >>= f = f a
err e >>= f = err e

abbrev pub guard : Bool → ChallengeError → Result ChallengeError (Unit {0})
guard true e = ok tt
guard false e = err e

infixl 5 ◌>>◌
abbrev pub ◌>>◌ :
    {A B : Type 0} → Result ChallengeError A → Result ChallengeError B → Result ChallengeError B
ok a >> k = k
err e >> k = err e

pub record Challenge : Type 0 where
  pub encoded_header : String
  pub payload : Fields

-- `decode`
unfoldable pub decode : Host → String → Result ChallengeError Challenge
decode h header = elim (h.b64_json header) [
  | none ↦ err undecodable
  | some v ↦ elim v [
    | object fs ↦ ok (record { encoded_header = header; payload = fs })
    | _ ↦ err not_an_object
  ]
]

abbrev pub array_items : Value → List Value
array_items (array xs) = items xs
array_items _ = []

-- `accepts`
unfoldable pub accepts : Fields → List Value
accepts payload = array_items (get_or "accepts" (array nil) payload)

-- `version`
unfoldable pub version : Host → Fields → Option ℤ
version h payload = to_int h (get_or "x402Version" (get_or "x402_version" null payload) payload)

abbrev nonnegative : ℤ → Option ℕ
nonnegative (pos n) = some n
nonnegative (negsuc n) = none

abbrev digits_amount : Option ℤ → Result ChallengeError (Option ℕ)
digits_amount none = err unreadable_amount
digits_amount (some n) = ok (nonnegative n)

-- `_amount`: an integer, or a text of digits. `int` may still refuse a text that `isdigit` accepts,
-- such as a superscript.
unfoldable pub amount_of : Host → Value → Result ChallengeError (Option ℕ)
amount_of h (number n) = ok (nonnegative n)
amount_of h (text s) =
    if h.is_digit (h.strip s) then digits_amount (h.parse_int (h.strip s)) else ok none
amount_of h _ = ok none

abbrev pub amount_value : Fields → Value
amount_value option = get_or "amount" (get_or "maxAmountRequired" null option) option

abbrev pub pay_to_value : Fields → Value
pay_to_value option = get_or "payTo" (get_or "pay_to" null option) option

abbrev aware_micros : Option Moment → Option ℕ
aware_micros none = none
aware_micros (some m) = if m.aware then some m.micros else none

-- `_deadline_epoch`, on the text with "Z" replaced
unfoldable pub deadline_epoch : Host → Value → Option ℕ
deadline_epoch h (number (pos n)) = some (n * 1000000)
deadline_epoch h (real r) = nonnegative r
deadline_epoch h (text s) = if h.strip s == "" then none else elim (h.parse_float (h.strip s)) [
  | some r ↦ nonnegative r
  | none ↦ aware_micros (h.parse_iso (h.strip s))
]
deadline_epoch h _ = none

abbrev pub first_present : List String → Fields → Option Value
first_present [] payload = none
first_present (k ∷ ks) payload =
    if contains k payload then get k payload else first_present ks payload

abbrev pub deadline_keys : List String
deadline_keys = "deadline" ∷ "expiresAt" ∷ "expires_at" ∷ "expiration" ∷ []

-- `deadline_epoch_seconds`
unfoldable pub deadline_epoch_seconds : Host → Fields → Option ℕ
unfolding deadline_epoch
deadline_epoch_seconds h payload = elim (first_present deadline_keys payload) [
  | none ↦ none
  | some v ↦ deadline_epoch h v
]

-- A deadline after the year 9999 has no datetime, and makes `fromtimestamp` raise ValueError.
abbrev pub check_deadline : Bool → Bool → Option ℕ → Moment → Result ChallengeError (Option String)
check_deadline required present none now =
    if required && present
    then err invalid_deadline
    else if required
    then err no_deadline
    else ok none
check_deadline required present (some deadline) now = do
  guard now.aware naive_now
  guard (ltb now.micros deadline) deadline_expired
  guard (ltb deadline 253402300800000000) deadline_out_of_range
  ok (some (iso_utc deadline))

-- `validate_deadline`
unfoldable pub validate_deadline :
    Host → Fields → Moment → Bool → Result ChallengeError (Option String)
unfolding deadline_epoch_seconds
validate_deadline h payload now required =
    check_deadline required (is_some (first_present deadline_keys payload))
      (deadline_epoch_seconds h payload) now

abbrev url_text : Value → Option String
url_text (text s) = if s == "" then none else some s
url_text _ = none

abbrev resource_text : Value → Option String
resource_text (object fs) = url_text (get_or "url" null fs)
resource_text v = url_text v

-- `_resource_url`
unfoldable pub resource_url_of : Fields → Fields → Option String
resource_url_of option payload =
    resource_text (get_or "resource" (get_or "resource" null payload) option)

-- What the caller of `validate_for_request` fixes.
pub record Policy : Type 0 where
  pub expected_pay_to : String
  pub max_amount_micro_usdc : ℕ
  pub allowed_versions : List ℤ
  pub require_resource : Bool
  pub require_deadline : Bool
