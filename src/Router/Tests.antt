-- ===== src/Router/Tests.antt =====
-- Decisions of a small router and a paid call, and the theorems applied there.
use oathcast.Prelude.Int.{pos}
use oathcast.Prelude.Exec.{ok, err, Yields, Result}
use oathcast.Sidecar.Text.{outcome_unknown, safe_text, safe_hash}
use oathcast.Json.Numbers.{to_int}
use oathcast.Demand.Event.{create}
use oathcast.Sidecar.Boundary.{normalized}
use oathcast.Protocol.Envelope.{signal_receipt}
use oathcast.Json.Dumps.{sha256_json}
use oathcast.Clock.{format_timestamp}
use oathcast.Router.Sample.{question, capability, router}
use oathcast.Sidecar.Sample.{boundary, client}
use oathcast.Router.Paying.{
  payment, CallFault, PayingClient, Spending, request_with_id, miner_request, finish, payment_key,
  observed_of,
}
use oathcast.Router.Reply.{reply, attempt, handled, answered_reply, project_reply, valid, Reply}
use oathcast.Router.Decide.{Decision, decide, replies_of, conclude, weighted, capability_of}
use oathcast.Router.Careful.{IsSupported, decide-IsSupported}
use oathcast.Router.Stop.{decide-payment}
use oathcast.Prelude.{List, true, false, ◌∷◌, some, [], ℕ, ◌≡◌, Option, none, Bool, refl, map}
use oathcast.Router.Adapter.{generic_response}
use oathcast.Probability.Extract.{
  extract_probability, extract, by_keys, normalize_probability_value, content,
}
use oathcast.Json.Numbers.{round_div}
use oathcast.Prelude.Moment.{Moment}
use oathcast.Protocol.Envelope.{Envelope, from_payment_response, protocol_receipt, receipt_sha256}
use oathcast.Json.{text}
use oathcast.Sidecar.Boundary.{fingerprint, request_miner, admit}
use oathcast.Sidecar.Response.{response_from_mapping, paid_response}
use oathcast.Sidecar.Evidence.{validate_paid_evidence}
use oathcast.Demand.Ledger.{record_demand, append, row_of}
use oathcast.Demand.Event.{is_local_candidate}
use oathcast.Discovery.Miner.{Capability}

abbrev two : List Capability
two = capability "own" ∷ capability "other" ∷ []

abbrev lost : List Capability
lost = capability "own" ∷ capability "lost" ∷ capability "other" ∷ []

-- The aggregate and the state after the decision.
abbrev outcome : Result CallFault Decision × ℕ → Option (ℕ × Bool) × ℕ
outcome (ok d, n) = (some (d.aggregate_x10000, d.event_likely), n)
outcome (err e, n) = (none, n)

decided :
    outcome (decide (router two) question false (some "r1") (pos 500000) "u" 0)
    ≡ (some (6000, true), 2)
unfolding decide replies_of conclude weighted capability_of reply attempt handled answered_reply
    project_reply valid generic_response extract_probability extract by_keys
    normalize_probability_value content round_div
decided = refl

-- The own Miner alone does not do.
own_only : outcome (decide (router two) question true (some "r1") (pos 1000001) "u" 0) ≡ (none, 0)
unfolding decide
own_only = refl

decide-IsSupported_example :
    Yields
      (λ d _. IsSupported (router two) question d)
      (decide (router two) question false (some "r1") (pos 500000) "u" 0)
decide-IsSupported_example =
    decide-IsSupported (router two) question false (some "r1") (pos 500000) "u" 0

first_reply :
    (rs : List Reply) × (replies_of (router lost) false question "r1" (capability "own" ∷ []) 0
      ≡ (ok rs, 1))
unfolding replies_of reply attempt handled answered_reply project_reply generic_response
    extract_probability extract by_keys normalize_probability_value content
first_reply = (_, refl)

decide-payment_example :
    decide (router lost) question false (some "r1") (pos 500000) "u" 0
    ≡ (err (payment (outcome_unknown "lost")), 2)
decide-payment_example =
    decide-payment (router lost) question false "r1" "u" (pos 500000) 500000 (capability "own" ∷ [])
      (capability "other" ∷ []) (capability "lost") first_reply.0 (outcome_unknown "lost") 0 1 2
      refl refl refl first_reply.1 refl refl

-- The sidecar answers one paid call.
abbrev paying : PayingClient ℕ
paying = record {
  capability = capability "m1";
  adapter = record { serves = λ q. true; build_params = λ q. ok (("lat", text "48.85") ∷ []) };
  payment_boundary = boundary;
  sidecar = client;
  principal_id = "app";
  endpoint = "rain";
  has_ledger = true;
  consent = true;
}

abbrev start : Spending ℕ
start = record { sidecar_state = 0; demand = [] }

abbrev noon : Moment
noon = record { micros = 43200000000; aware = true }

-- One call of the sidecar, and one candidate in the ledger.
abbrev spent : Result CallFault Envelope × Spending ℕ → Option (ℕ × List Bool)
spent (ok e, w) = some (w.sidecar_state, map (λ r. r.event.local_candidate) w.demand)
spent (err e, w) = none

spent_once :
    spent (request_with_id paying question (some "r1") "u" noon start) ≡ some (1, true ∷ [])
unfolding request_with_id miner_request finish payment_key fingerprint observed_of request_miner
    admit normalized safe_text safe_hash response_from_mapping paid_response validate_paid_evidence
    from_payment_response protocol_receipt record_demand append row_of receipt_sha256
    is_local_candidate to_int signal_receipt sha256_json create format_timestamp
spent_once = refl
