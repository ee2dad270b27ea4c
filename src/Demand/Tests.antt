-- ===== src/Demand/Tests.antt =====
-- A paid request that is recorded twice, the second time later: the ledger holds it once.
use oathcast.Prelude.{String, true, false, none, some, List, [], ◌∷◌, ◌≡◌, refl, All, ℕ, ◌*◌}
use oathcast.Prelude.Int.{pos}
use oathcast.Prelude.Moment.{Moment}
use oathcast.Prelude.Exec.{ok}
use oathcast.Json.{Host, object, of_pairs, Value, text, boolean, number}
use oathcast.Json.Dumps.{dumps}
use oathcast.Json.TestHost.{test_host}
use oathcast.Clock.{format_timestamp, iso_utc}
use oathcast.Demand.Event.{
  Observed, create, is_local_candidate, without_slashes, event_dict, stable_fields,
}
use oathcast.Demand.Ledger.{
  summary, append, record_demand, row_of, verify_rows, is_replay, all_same, same_value,
}
use oathcast.Demand.History.{IsSound, record_all, record_all-verified}
use oathcast.Json.Numbers.{to_float}

abbrev observed : Observed
observed = record {
  question_event_id = some "rain";
  application_request_id = some "request";
  miner_id = "m1";
  endpoint = "/forecast";
  transport = "telegraph";
  routed_through_telegraph = true;
  payment_method = "x402";
  payment_status = "settled";
  payment_evidence = "x402_settlement";
  http_status = some (pos 200);
  is_fixture = false;
  source = "application";
  occurred_at = none;
  payment_attempt_id = some "attempt";
  settlement_artifact_sha256 = none;
  settlement_verification = "verified";
  protocol_receipt_sha256 = none;
  uuid_hex = "";
}

abbrev at : ℕ → Moment
at hour = record { micros = 3600000000 * hour; aware = true }

abbrev visits : List (Observed × Moment)
visits = (observed, at 12) ∷ (observed, at 13) ∷ []

-- A host that reads every stored text as the fields of this event.
abbrev host : Host
host = record test_host { json_loads = λ s. some (object (of_pairs stored)) }
  where
    stored : List (String × Value)
    stored =
        ("question_event_id", text "rain")
        ∷ ("application_request_id", text "request")
        ∷ ("miner_id", text "m1")
        ∷ ("endpoint", text "forecast")
        ∷ ("transport", text "telegraph")
        ∷ ("routed_through_telegraph", boolean true)
        ∷ ("payment_method", text "x402")
        ∷ ("payment_status", text "settled")
        ∷ ("payment_evidence", text "x402_settlement")
        ∷ ("http_status", number (pos 200))
        ∷ ("is_fixture", boolean false)
        ∷ ("source", text "application")
        ∷ ("local_candidate", boolean true)
        ∷ ("payment_attempt_id", text "attempt")
        ∷ ("settlement_verification", text "verified")
        ∷ []

counted :
    (summary (record_all host visits [])).0
    ≡ ok (record { total_events = 1; local_candidate_events = 1 })
unfolding summary record_all record_demand create append row_of is_replay all_same same_value
    event_dict stable_fields dumps format_timestamp iso_utc is_local_candidate without_slashes
    to_float
counted = refl

record_all-verified_example :
    (verify_rows host (record_all host visits []) ≡ ok tt)
    × All (IsSound host) (record_all host visits [])
record_all-verified_example = record_all-verified host visits
