-- ===== src/Router/Paid.antt =====
-- What stands behind a reply of `ApplicationTelegraphMinerClient` of src/oathcast/application.py: the checks of
-- the sidecar's client, the envelope and the demand ledger together.
use oathcast.Prelude.Exec.{ok}
use oathcast.Demand.Event.{Event, is_local_candidate, Observed}
use oathcast.Sidecar.Delivered.{Behind}
use oathcast.Protocol.Envelope.{Envelope, settlement_verified}
use oathcast.Router.Paying.{PayingClient, Spending, miner_request, observed_of}
use oathcast.Forecast.{Question}
use oathcast.Prelude.{String, ◌≡◌, true, List, Bool}
use oathcast.Sidecar.Response.{PaidResponse}
use oathcast.Prelude.Moment.{Moment}
use oathcast.Json.{Value}
use oathcast.Demand.Recorded.{InLedger, Recorded}

module _ {S : Type 0} (c : PayingClient S) (q : Question) (uuid : String) (now : Moment) where
  -- The call was paid for, verified and recorded as demand.
  pub record IsPaid (request_id : String) (w : Spending S) (envelope : Envelope) (w' : Spending S)
      : Type 0 where
    pub params : List (String × Value)
    pub params_built : c.adapter.build_params q ≡ ok params
    pub response : PaidResponse
    pub behind :
        Behind c.payment_boundary c.sidecar
          (miner_request c request_id params)
          w.sidecar_state
          w'.sidecar_state
          response
    pub body : envelope.body ≡ response.body
    pub verified : settlement_verified envelope.receipt ≡ true
    pub candidate : is_local_candidate (observed_of c q request_id response envelope uuid) ≡ true
    pub recorded :
        InLedger c.has_ledger c.payment_boundary.host
          (observed_of c q request_id response envelope uuid)
          now
          w.demand
          w'.demand

  record Finished (request_id : String) (response : PaidResponse) (w : Spending S)
      (envelope : Envelope) (w' : Spending S) : Type 0 where
    kept : w'.sidecar_state ≡ w.sidecar_state
    recorded :
        InLedger c.has_ledger c.payment_boundary.host
          (observed_of c q request_id response envelope uuid)
          now
          w.demand
          w'.demand
    body : envelope.body ≡ response.body
    verification : envelope.receipt.settlement_verification ≡ response.settlement_verification

  abbrev Projected : Bool → Observed → Spending S → Spending S → Type 0
  Projected b o w w' =
      (w'.sidecar_state ≡ w.sidecar_state)
      × InLedger b c.payment_boundary.host o now w.demand w'.demand
