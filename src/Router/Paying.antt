-- ===== src/Router/Paying.antt =====
-- `ApplicationTelegraphMinerClient` of src/oathcast/application.py: a Miner call that is paid through the
-- sidecar and recorded in the demand ledger.
use Prim.Native.String.{◌++◌ as ◌<>◌}
use oathcast.Prelude.{
  ℕ, zero, suc, String, Bool, true, false, not, Option, none, some, List, if◌then◌else◌,
}
use oathcast.Prelude.Moment.{Moment}
use oathcast.Prelude.Exec.{Result, ok, err, Exec, pure, raise_if, ◌>>=◌, ◌>>◌}
use oathcast.Json.{Value, Host, of_pairs}
use oathcast.Forecast.{Question}
use oathcast.Demand.Event.{Error, Observed, Event, present}
use oathcast.Demand.Ledger.{Table, record_demand}
use oathcast.Sidecar.Text.{PaymentError}
use oathcast.Sidecar.Response.{PaidResponse}
use oathcast.Sidecar.Boundary.{Boundary, MinerRequest, SidecarClient, fingerprint, request_miner}
use oathcast.Protocol.Envelope.{
  ProtocolError, Envelope, receipt_sha256, from_payment_response, paid_attributes,
}
use oathcast.Discovery.Miner.{Capability}

-- What a Miner client raises.
pub data CallFault : Type 0 where
  payment : PaymentError → CallFault
  projection_failed : CallFault
  routing : String → CallFault
  other : String → CallFault

-- The request half of a `MinerResponseAdapter`: whether `validate_question` is missing or accepts, and
-- the parameters, or the exception that building them raises.
pub record RequestAdapter : Type 0 where
  pub serves : Question → Bool
  pub build_params : Question → Result String (List (String × Value))

pub record PayingClient (S : Type 0) : Type 0 where
  pub capability : Capability
  pub adapter : RequestAdapter
  pub payment_boundary : Boundary
  pub sidecar : SidecarClient S
  pub principal_id : String
  pub endpoint : String
  pub has_ledger : Bool
  pub consent : Bool

-- The state behind the sidecar, and the demand ledger.
pub record Spending (S : Type 0) : Type 0 where
  pub sidecar_state : S
  pub demand : Table

-- s[:n]
abbrev pub prefix_of : ℕ → String → String
prefix_of zero s = String.[]
prefix_of (suc n) String.[] = String.[]
prefix_of (suc n) (String.◌∷◌ c s) = String.◌∷◌ c (prefix_of n s)

-- `_payment_idempotency_key`
unfoldable pub payment_key : Host → Capability → String → String → String
payment_key h c endpoint request_id =
    "pay-" <> prefix_of 60 (h.sha256 (request_id <> "|" <> c.miner_id <> "|" <> endpoint))

abbrev pub Spend : Type 0 → Type 0 → Type 0
Spend S = Exec (Spending S) CallFault

-- `request_id`, after the check that it is there
abbrev pub id_or_empty : Option String → String
id_or_empty none = ""
id_or_empty (some s) = s

module _ {S : Type 0} where
  unfoldable pub miner_request : PayingClient S → String → List (String × Value) → MinerRequest
  unfolding payment_key
  miner_request c request_id params = record {
    principal_id = c.principal_id;
    idempotency_key = payment_key c.payment_boundary.host c.capability c.endpoint request_id;
    request_fingerprint =
        fingerprint c.payment_boundary.host c.principal_id
          (payment_key c.payment_boundary.host c.capability c.endpoint request_id)
          c.capability.miner_id c.endpoint (of_pairs params);
    miner_id = c.capability.miner_id;
    endpoint = c.endpoint;
    params = params;
    consent = c.consent;
  }

  -- The arguments of `demand_ledger.record`.
  unfoldable pub observed_of :
      PayingClient S → Question → String → PaidResponse → Envelope → String → Observed
  observed_of c q request_id response envelope uuid = record {
    question_event_id = some q.event_id;
    application_request_id = some request_id;
    miner_id = c.capability.miner_id;
    endpoint = c.endpoint;
    transport = "telegraph";
    routed_through_telegraph = true;
    payment_method = "x402";
    payment_status = "settled";
    payment_evidence = "x402_settlement";
    http_status = some response.status;
    is_fixture = false;
    source = "application";
    occurred_at = none;
    payment_attempt_id = envelope.receipt.payment_attempt_id;
    settlement_artifact_sha256 = envelope.receipt.settlement_artifact_sha256;
    settlement_verification = envelope.receipt.settlement_verification;
    protocol_receipt_sha256 = some (receipt_sha256 c.payment_boundary.host envelope.receipt);
    uuid_hex = uuid;
  }

  abbrev pub from_sidecar :
      Table → Result PaymentError PaidResponse × S → Result CallFault PaidResponse × Spending S
  from_sidecar t (ok r, s) = (ok r, record { sidecar_state = s; demand = t })
  from_sidecar t (err e, s) = (err (payment e), record { sidecar_state = s; demand = t })

  -- `self.payment_boundary.request_miner(…)`
  abbrev pub call_boundary : PayingClient S → MinerRequest → Spend S PaidResponse
  call_boundary c r w =
      from_sidecar w.demand (request_miner c.payment_boundary c.sidecar r w.sidecar_state)

  abbrev pub from_ledger : S → Result Error Event × Table → Result CallFault (Unit {0}) × Spending S
  from_ledger s (ok e, t) = (ok tt, record { sidecar_state = s; demand = t })
  from_ledger s (err e, t) = (err projection_failed, record { sidecar_state = s; demand = t })

  -- try: self.demand_ledger.record(…)  except Exception: raise ApplicationProjectionError(…)
  abbrev pub project : PayingClient S → Observed → Moment → Spend S (Unit {0})
  project c o now w =
      if c.has_ledger
      then from_ledger w.sidecar_state (record_demand c.payment_boundary.host o now w.demand)
      else (ok tt, w)

  abbrev pub built : Result String (List (String × Value)) → Spend S (List (String × Value))
  built (ok params) w = (ok params, w)
  built (err name) w = (err (other name), w)

  abbrev pub enveloped : Result ProtocolError Envelope → Spend S Envelope
  enveloped (ok e) w = (ok e, w)
  enveloped (err e) w = (err (other "ValueError"), w)

  -- What follows the payment.
  unfoldable pub finish :
      PayingClient S → Question → String → String → Moment → PaidResponse → Spend S Envelope
  unfolding observed_of
  finish c q request_id uuid now response = do
    envelope ← enveloped (
        from_payment_response c.payment_boundary.host (paid_attributes response) "telegraph"
          c.capability.registry_snapshot_sha256)
    project c (observed_of c q request_id response envelope uuid) now
    pure envelope

  -- `request_with_id`
  unfoldable pub request_with_id :
      PayingClient S → Question → Option String → String → Moment → Spend S Envelope
  unfolding miner_request finish
  request_with_id c q request_id uuid now = do
    raise_if (not (present request_id))
        (routing "an Application request id is required for a paid Miner call")
    raise_if (not (c.adapter.serves q))
        (routing "the external Miner cannot serve this forecast horizon")
    params ← built (c.adapter.build_params q)
    response ← call_boundary c (miner_request c (id_or_empty request_id) params)
    finish c q (id_or_empty request_id) uuid now response
