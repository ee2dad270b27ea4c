-- ===== src/Demand/Event.antt =====
-- `DemandEvent` of src/oathcast/demand.py. An `int(…)` or a `str(…)` of an argument is the argument: a
-- status is a number and a Miner id a text.
use Prim.Native.Char.{code}
use Prim.Native.String.{◌++◌ as ◌<>◌, [] as empty_text, ◌∷◌ as add_char}
use oathcast.Prelude.{
  ℕ, String, ◌==◌, Bool, false, not, ◌&&◌, Option, none, some, [], ◌∷◌, leb, ltb, eqb, is_some,
  one_of, if◌then◌else◌, List,
}
use oathcast.Prelude.Int.{ℤ, pos, negsuc}
use oathcast.Prelude.Moment.{Moment}
use oathcast.Prelude.Exec.{Result, ok, err}
use oathcast.Clock.{format_timestamp}
use oathcast.Json.{Host, Value, Fields, null, text, boolean, number, of_pairs, opt_text}

pub data Error : Type 0 where
  transport_unsupported method_unsupported status_unsupported evidence_unsupported : Error
  verification_unsupported miner_id_required endpoint_required http_status_invalid : Error
  transport_mismatch source_mismatch naive_timestamp : Error
  malformed_evidence not_an_object different_evidence hash_mismatch : Error

-- The arguments of `create`, with the hex digits of the uuid that it draws.
pub record Observed : Type 0 where
  pub question_event_id : Option String
  pub application_request_id : Option String
  pub miner_id : String
  pub endpoint : String
  pub transport : String
  pub routed_through_telegraph : Bool
  pub payment_method : String
  pub payment_status : String
  pub payment_evidence : String
  pub http_status : Option ℤ
  pub is_fixture : Bool
  pub source : String
  pub occurred_at : Option Moment
  pub payment_attempt_id : Option String
  pub settlement_artifact_sha256 : Option String
  pub settlement_verification : String
  pub protocol_receipt_sha256 : Option String
  pub uuid_hex : String

pub record Event : Type 0 where
  pub demand_id : String
  pub question_event_id : Option String
  pub application_request_id : Option String
  pub miner_id : String
  pub endpoint : String
  pub transport : String
  pub routed_through_telegraph : Bool
  pub payment_method : String
  pub payment_status : String
  pub payment_evidence : String
  pub http_status : Option ℤ
  pub is_fixture : Bool
  pub source : String
  pub occurred_at : String
  pub local_candidate : Bool
  pub payment_attempt_id : Option String
  pub settlement_artifact_sha256 : Option String
  pub settlement_verification : String
  pub protocol_receipt_sha256 : Option String

-- lo <= status < hi, of a status that is there
abbrev pub status_within : ℕ → ℕ → Option ℤ → Bool
status_within lo hi none = false
status_within lo hi (some (pos n)) = leb lo n && ltb n hi
status_within lo hi (some (negsuc n)) = false

-- `bool(value)` of a text or None
abbrev pub present : Option String → Bool
present none = false
present (some s) = not (s == "")

-- `_is_local_candidate`
unfoldable pub is_local_candidate : Observed → Bool
is_local_candidate o =
    o.transport == "telegraph"
    && (o.routed_through_telegraph
        && (o.source == "application"
            && (not o.is_fixture
                && (present o.application_request_id
                    && (one_of o.payment_status ("settled" ∷ "paid" ∷ [])
                        && (one_of o.payment_evidence
                              ("x402_settlement" ∷ "supported_method_receipt" ∷ [])
                            && (o.settlement_verification == "verified"
                                && status_within 200 300 o.http_status)))))))

-- `endpoint.lstrip("/")`
unfoldable pub without_slashes : String → String
without_slashes empty_text = empty_text
without_slashes (add_char c s) =
    let rest = without_slashes s in if eqb (code c) 47 then rest else add_char c s

abbrev demand_id_of : Host → Observed → String
demand_id_of h o =
    if present o.payment_attempt_id
    then "demand-" <> h.sha256 (attempt o.payment_attempt_id)
    else "demand-" <> o.uuid_hex
  where
    attempt : Option String → String
    attempt none = ""
    attempt (some s) = s

abbrev pub event_of : Host → Observed → String → Event
event_of h o at = record {
  demand_id = demand_id_of h o;
  question_event_id = o.question_event_id;
  application_request_id = o.application_request_id;
  miner_id = o.miner_id;
  endpoint = without_slashes o.endpoint;
  transport = o.transport;
  routed_through_telegraph = o.routed_through_telegraph;
  payment_method = o.payment_method;
  payment_status = o.payment_status;
  payment_evidence = o.payment_evidence;
  http_status = o.http_status;
  is_fixture = o.is_fixture;
  source = o.source;
  occurred_at = at;
  local_candidate = is_local_candidate o;
  payment_attempt_id = o.payment_attempt_id;
  settlement_artifact_sha256 = o.settlement_artifact_sha256;
  settlement_verification = o.settlement_verification;
  protocol_receipt_sha256 = o.protocol_receipt_sha256;
}

abbrev pub dated : Host → Observed → Option String → Result Error Event
dated h o none = err naive_timestamp
dated h o (some at) = ok (event_of h o at)

abbrev given_or_now : Option Moment → Moment → Moment
given_or_now none now = now
given_or_now (some m) now = m

-- `create`
unfoldable pub create : Host → Observed → Moment → Result Error Event
create h o now =
    if not (one_of o.transport ("telegraph" ∷ "direct_http" ∷ "fixture" ∷ []))
    then err transport_unsupported
    else if not (one_of o.payment_method ("x402" ∷ "other" ∷ "none" ∷ "unknown" ∷ []))
    then err method_unsupported
    else if not (
        one_of o.payment_status (
          "settled" ∷ "paid" ∷ "paid_unverified" ∷ "required" ∷ "unpaid" ∷ "unknown" ∷ "failed"
          ∷ []))
    then err status_unsupported
    else if not (
        one_of o.payment_evidence (
          "x402_settlement" ∷ "supported_method_receipt" ∷ "challenge_only"
          ∷ "x402_header_unverified" ∷ "none" ∷ []))
    then err evidence_unsupported
    else if not (
        one_of o.settlement_verification
          ("not_attempted" ∷ "unverified" ∷ "verified" ∷ "invalid" ∷ "unknown" ∷ []))
    then err verification_unsupported
    else if h.strip o.miner_id == ""
    then err miner_id_required
    else if h.strip o.endpoint == ""
    then err endpoint_required
    else if is_some o.http_status && not (status_within 100 600 o.http_status)
    then err http_status_invalid
    else if o.routed_through_telegraph && not (o.transport == "telegraph")
    then err transport_mismatch
    else if o.is_fixture && not (o.source == "development-fixture")
    then err source_mismatch
    else dated h o (format_timestamp (given_or_now o.occurred_at now))

abbrev opt_number : Option ℤ → Value
opt_number none = null
opt_number (some n) = number n

-- `to_dict`, without the id and the time, which a replay of a payment attempt may change
unfoldable pub stable_fields : Event → List (String × Value)
stable_fields e =
    ("question_event_id", opt_text e.question_event_id)
    ∷ ("application_request_id", opt_text e.application_request_id)
    ∷ ("miner_id", text e.miner_id)
    ∷ ("endpoint", text e.endpoint)
    ∷ ("transport", text e.transport)
    ∷ ("routed_through_telegraph", boolean e.routed_through_telegraph)
    ∷ ("payment_method", text e.payment_method)
    ∷ ("payment_status", text e.payment_status)
    ∷ ("payment_evidence", text e.payment_evidence)
    ∷ ("http_status", opt_number e.http_status)
    ∷ ("is_fixture", boolean e.is_fixture)
    ∷ ("source", text e.source)
    ∷ ("local_candidate", boolean e.local_candidate)
    ∷ ("payment_attempt_id", opt_text e.payment_attempt_id)
    ∷ ("settlement_artifact_sha256", opt_text e.settlement_artifact_sha256)
    ∷ ("settlement_verification", text e.settlement_verification)
    ∷ ("protocol_receipt_sha256", opt_text e.protocol_receipt_sha256)
    ∷ []

-- `to_dict`
unfoldable pub event_dict : Event → Fields
unfolding stable_fields
event_dict e =
    of_pairs
      (("demand_id", text e.demand_id) ∷ ("occurred_at", text e.occurred_at) ∷ stable_fields e)
