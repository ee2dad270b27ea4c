-- ===== src/Router/Reply.antt =====
-- `MinerReply` and `CrossMinerRouter._reply` of src/oathcast/application.py.
use Prim.Native.String.{◌++◌ as ◌<>◌}
use oathcast.Prelude.{
  ℕ, ◌-◌, String, ◌==◌, Bool, false, not, ◌&&◌, Option, none, some, List, [], ◌∷◌, one_of, is_some,
  if◌then◌else◌,
}
use oathcast.Prelude.Int.{pos}
use oathcast.Prelude.Exec.{Result, ok, err, Exec, pure, gets, ◌>>=◌, ◌>>◌}
use oathcast.Clock.{iso_utc}
use oathcast.Json.{Value, Fields, Host, null, boolean, real, text, object, of_pairs, opt_text}
use oathcast.Json.Numbers.{round_div}
use oathcast.Forecast.{Question}
use oathcast.Probability.Extract.{content}
use oathcast.Protocol.Envelope.{Envelope, envelope_dict}
use oathcast.Router.Paying.{CallFault, payment, projection_failed, routing, other}
use oathcast.Discovery.Miner.{Capability}

-- What a client returns: an envelope, or any other value.
pub data Raw : Type 0 where
  plain : Value → Raw
  enveloped : Envelope → Raw

abbrev pub body_of : Raw → Value
body_of (plain v) = v
body_of (enveloped e) = e.body

abbrev pub envelope_of : Raw → Option Envelope
envelope_of (plain v) = none
envelope_of (enveloped e) = some e

-- `AdaptedMinerResponse` of miner_adapters.py; a probability is in units of 10⁻⁸.
pub record Adapted : Type 0 where
  pub probability : Option ℕ
  pub probability_comparable : Bool
  pub validity_reason : Option String
  pub parser_version : String

abbrev pub has_comparable : Adapted → Bool
has_comparable a = a.probability_comparable && is_some a.probability

pub record Reply : Type 0 where
  pub miner_id : String
  pub slug : String
  pub owned : Bool
  pub raw_response : Value
  pub probability : Option ℕ
  pub content : String
  pub latency_ns : ℕ
  pub transport : String
  pub probability_comparable : Bool
  pub error : Option String
  pub received_at : ℕ
  pub parser_version : String
  pub validity_reason : Option String
  pub request_id : String
  pub protocol_result : Option Envelope

-- `valid`
unfoldable pub valid : Reply → Bool
valid r = not (is_some r.error) && is_some r.probability && r.probability_comparable

-- A probability as the JSON float, rounded to millionths.
abbrev opt_probability : Option ℕ → Value
opt_probability none = null
opt_probability (some p) = real (pos (round_div p 100))

abbrev opt_envelope : Host → Option Envelope → Value
opt_envelope h none = null
opt_envelope h (some e) = object (envelope_dict h e)

-- `MinerReply.to_dict`; a millionth of a millisecond is a nanosecond.
unfoldable pub reply_dict : Host → Reply → Fields
unfolding valid
reply_dict h r = of_pairs (
    ("miner_id", text r.miner_id)
    ∷ ("slug", text r.slug)
    ∷ ("owned", boolean r.owned)
    ∷ ("raw_response", r.raw_response)
    ∷ ("probability", opt_probability r.probability)
    ∷ ("probability_comparable", boolean r.probability_comparable)
    ∷ ("content", text r.content)
    ∷ ("latency_ms", real (pos r.latency_ns))
    ∷ ("transport", text r.transport)
    ∷ ("error", opt_text r.error)
    ∷ ("valid", boolean (valid r))
    ∷ ("received_at", text (iso_utc r.received_at))
    ∷ ("parser_version", text r.parser_version)
    ∷ ("validity_reason", opt_text r.validity_reason)
    ∷ ("request_id", text r.request_id)
    ∷ ("protocol_result", opt_envelope h r.protocol_result)
    ∷ [])

-- The router, over the state of its clients and of its projector. A clock reads that state. A client is
-- called with the question and the request id; an `err` of `parse_response` or of the projector is the
-- name of an exception's class.
pub record Router (S : Type 0) : Type 0 where
  pub host : Host
  pub capabilities : List Capability
  pub clients : String → Option (Question → String → Exec S CallFault Raw)
  pub parse_response : String → Raw → Question → Result String Adapted
  pub own_slugs : List String
  pub require_external : Bool
  pub clock : S → ℕ
  pub perf_counter : S → ℕ
  pub reply_projector : Option (Reply → Exec S String (Unit {0}))

abbrev pub or_text : Option String → String → String
or_text none s = s
or_text (some t) s = if t == "" then s else t

-- `a or b`
abbrev pub or_option : Option String → Option String → Option String
or_option none b = b
or_option (some a) b = if a == "" then b else some a

-- The error of a response without a comparable probability.
abbrev pub error_of : Adapted → Option String
error_of a =
    if has_comparable a
    then none
    else some (or_text a.validity_reason "response has no comparable probability")

module _ {S : Type 0} where
  unfoldable pub answered_reply :
      Router S → Capability → Question → String → ℕ → Raw → Adapted → S → Reply
  answered_reply c cap q request_id started raw a s = record {
    miner_id = cap.miner_id;
    slug = cap.slug;
    owned = one_of cap.slug c.own_slugs;
    raw_response = body_of raw;
    probability = a.probability;
    content = content c.host (body_of raw);
    latency_ns = c.perf_counter s - started;
    transport = if is_some (envelope_of raw) then "telegraph" else "development_http_or_injected";
    probability_comparable = has_comparable a;
    error = error_of a;
    received_at = c.clock s;
    parser_version = a.parser_version;
    validity_reason = or_option a.validity_reason (error_of a);
    request_id = request_id;
    protocol_result = envelope_of raw;
  }

  unfoldable pub failed_reply : Router S → Capability → String → ℕ → String → S → Reply
  failed_reply c cap request_id started name s = record {
    miner_id = cap.miner_id;
    slug = cap.slug;
    owned = one_of cap.slug c.own_slugs;
    raw_response = null;
    probability = none;
    content = "";
    latency_ns = c.perf_counter s - started;
    transport = "development_http_or_injected";
    probability_comparable = false;
    error = some ("miner request failed (" <> name <> ")");
    received_at = c.clock s;
    parser_version = "probability_extractor_v1";
    validity_reason = some ("miner request failed (" <> name <> ")");
    request_id = request_id;
    protocol_result = none;
  }

  abbrev pub projected : Result String (Unit {0}) × S → Result CallFault (Unit {0}) × S
  projected (ok u, s) = (ok u, s)
  projected (err name, s) = (err projection_failed, s)

  -- `_project_reply`
  unfoldable pub project_reply : Router S → Reply → Exec S CallFault (Unit {0})
  project_reply c r s = elim c.reply_projector [ none ↦ (ok tt, s) | some f ↦ projected (f r s) ]

  -- `self._call_client(self.clients[capability.slug], …)`
  abbrev pub call_client : Router S → Capability → Question → String → Exec S CallFault Raw
  call_client c cap q request_id s = elim (c.clients cap.slug) [
    | none ↦ (err (other "KeyError"), s)
    | some client ↦ client q request_id s
  ]

  abbrev pub adapted : Result String Adapted → Exec S CallFault Adapted
  adapted (ok a) s = (ok a, s)
  adapted (err name) s = (err (other name), s)

  -- The `try` block of `_reply`.
  unfoldable pub attempt : Router S → Capability → Question → String → ℕ → Exec S CallFault Reply
  unfolding answered_reply project_reply
  attempt c cap q request_id started = do
    raw ← call_client c cap q request_id
    a ← adapted (c.parse_response cap.miner_id raw q)
    reply ← gets (answered_reply c cap q request_id started raw a)
    project_reply c reply
    pure reply

  -- The last handler: the reply of a Miner that is not available.
  unfoldable pub unavailable : Router S → Capability → String → ℕ → String → Exec S CallFault Reply
  unfolding failed_reply project_reply
  unavailable c cap request_id started name = do
    reply ← gets (failed_reply c cap request_id started name)
    project_reply c reply
    pure reply

  -- The handlers in their order.
  unfoldable pub handled :
      Router S → Capability → String → ℕ → Result CallFault Reply × S → Result CallFault Reply × S
  handled c cap request_id started (ok r, s) = (ok r, s)
  handled c cap request_id started (err (payment e), s) = (err (payment e), s)
  handled c cap request_id started (err projection_failed, s) = (err projection_failed, s)
  handled c cap request_id started (err (routing m), s) =
      unavailable c cap request_id started "RoutingError" s
  handled c cap request_id started (err (other name), s) =
      unavailable c cap request_id started name s

  -- `_reply`
  unfoldable pub reply : Router S → Capability → Question → String → Exec S CallFault Reply
  unfolding handled attempt
  reply c cap q request_id s =
      handled c cap request_id (c.perf_counter s) (attempt c cap q request_id (c.perf_counter s) s)
