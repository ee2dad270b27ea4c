-- ===== src/Sidecar/Sample.antt =====
-- A paid request and a sidecar's answer to it, for tests.
use oathcast.Prelude.Int.{pos}
use oathcast.Prelude.Exec.{ok}
use oathcast.Json.{Host, Fields, text, number, boolean, object, of_pairs, null, get, end}
use oathcast.Json.TestHost.{test_host}
use oathcast.Sidecar.Response.{PaidResponse}
use oathcast.Sidecar.Boundary.{Boundary, MinerRequest, SidecarClient}
use oathcast.Prelude.{String, ℕ, ◌∷◌, false, some, true, [], suc}

abbrev pub digest : String
digest = "aaaaaaaaaaaaaaaaaaaaaaaaaaaaaaaaaaaaaaaaaaaaaaaaaaaaaaaaaaaaaaaa"

-- A host whose digest is always the same.
abbrev pub host : Host
host = record test_host { sha256 = λ s. digest }

abbrev pub boundary : Boundary
boundary = record {
  host = host;
  allowed_miner_ids = "m1" ∷ [];
  allowed_endpoints = "rain" ∷ [];
  max_params = 32;
  max_param_value_length = 512;
}

abbrev pub asked : MinerRequest
asked = record {
  principal_id = "app";
  idempotency_key = "pay-1";
  request_fingerprint = digest;
  miner_id = "m1";
  endpoint = "rain";
  params = ("lat", text "48.85") ∷ [];
  consent = true;
}

abbrev pub answer : Fields
answer = of_pairs (
    ("version", number (pos 1))
    ∷ ("ok", boolean true)
    ∷ ("body", null)
    ∷ ("status", number (pos 200))
    ∷ ("operation_id", text "op1")
    ∷ ("payment_attempt_id", text "pa1")
    ∷ ("body_sha256", text digest)
    ∷ ("challenge_sha256", text digest)
    ∷ ("target_sha256", text digest)
    ∷ ("settlement_artifact_sha256", text digest)
    ∷ ("transaction_signature", text "sig")
    ∷ ("received_at", text "now")
    ∷ ("verification", null)
    ∷ (
      "evidence",
      object (
          of_pairs (
            ("ok", boolean true)
            ∷ ("mode", text "execute")
            ∷ ("operation_id", text "op1")
            ∷ (
              "preflight",
              object (
                  of_pairs (
                    ("challenge_validated", boolean true)
                    ∷ ("payment_attempted", boolean true)
                    ∷ ("challenge_sha256", text digest)
                    ∷ [])),
            )
            ∷ (
              "settlement",
              object (
                  of_pairs (
                    ("success", boolean true)
                    ∷ ("network", text "solana:EtWTRABZaYq6iMfeYKouRu166VU2xqa1")
                    ∷ ("header_sha256", text digest)
                    ∷ ("transaction_signature", text "sig")
                    ∷ [])),
            )
            ∷ (
              "verification",
              object (
                  of_pairs (
                    ("confirmed_transaction", boolean true)
                    ∷ ("transaction_error", boolean false)
                    ∷ ("transaction_signature_matches", boolean true)
                    ∷ ("fee_payer_verified", boolean true)
                    ∷ ("token_movement", object (of_pairs (("status", text "verified") ∷ [])))
                    ∷ [])),
            )
            ∷ ("paid_response_status", number (pos 200))
            ∷ ("paid_response_body_sha256", text digest)
            ∷ ("target", object (of_pairs (("request_binding_sha256", text digest) ∷ [])))
            ∷ [])),
    )
    ∷ [])

-- A client that counts its calls.
abbrev pub client : SidecarClient ℕ
client payload n = (ok answer, suc n)

abbrev pub response : PaidResponse
response = record {
  body = null;
  status = pos 200;
  operation_id = "op1";
  payment_attempt_id = "pa1";
  challenge_sha256 = digest;
  target_sha256 = digest;
  settlement_artifact_sha256 = digest;
  transaction_signature = "sig";
  response_body_sha256 = digest;
  evidence = elim (get "evidence" answer) [ some (object fs) ↦ fs | _ ↦ end ];
  received_at = "now";
  settlement_verification = "verified";
}
