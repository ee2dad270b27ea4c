-- ===== src/Sidecar/Tests.antt =====
-- One paid request and the socket under it, run at concrete values, and the theorems applied there.
use oathcast.Prelude.Exec.{ok, err}
use oathcast.Json.{Fields, object, end}
use oathcast.Json.Numbers.{to_int}
use oathcast.Sidecar.Text.{
  policy_conflict, consent_required, safe_text, safe_hash, outcome_unknown, PaymentError, payment,
  other,
}
use oathcast.Sidecar.Response.{response_from_mapping, paid_response}
use oathcast.Sidecar.Socket.{
  Socket, Connection, chunk, broken, request, receive, join, start, loaded, too_long,
}
use oathcast.Sidecar.Boundary.{request_miner, fingerprint, normalized, delivered}
use oathcast.Sidecar.Gate.{IsAdmitted, request_miner-gated}
use oathcast.Sidecar.Delivered.{Behind, request_miner-verified}
use oathcast.Sidecar.Ambiguous.{Honest, request-Honest}
use oathcast.Sidecar.Bounded.{receive-bounded}
use oathcast.Prelude.{◌∷◌, false, ◌≡◌, some, true, length, [], ◌⊎◌, refl, ◌≤◌}
use oathcast.Sidecar.Evidence.{validate_paid_evidence}
use oathcast.Sidecar.Sample.{host, boundary, asked, answer, client, response}

paid : request_miner boundary client asked 0 ≡ (ok response, 1)
unfolding request_miner fingerprint normalized response_from_mapping paid_response
    validate_paid_evidence safe_text safe_hash to_int
paid = refl

refused :
    request_miner boundary client (record asked { consent = false }) 0
    ≡ (err (consent_required "explicit consent is required for a paid request"), 0)
unfolding request_miner
refused = refl

not_listed :
    request_miner boundary client (record asked { endpoint = "sun" }) 0
    ≡ (err (policy_conflict "the requested Miner route is not allowlisted"), 0)
unfolding request_miner safe_text safe_hash
not_listed = refl

request_miner-gated_example :
    ((e : PaymentError) × (request_miner boundary client asked 0 ≡ (err e, 0)))
    ⊎ ((payload : Fields) × IsAdmitted boundary asked payload
        × (request_miner boundary client asked 0 ≡ delivered boundary.host (client payload 0)))
request_miner-gated_example = request_miner-gated boundary client asked 0

request_miner-verified_example : Behind boundary client asked 0 1 response
request_miner-verified_example = request_miner-verified boundary client asked 0 1 response paid

abbrev socket : Socket
socket = record {
  host = host;
  codec = record { encode = λ s. some []; loads = λ bs. loaded (object answer) };
  auth_token = "token";
  max_response_bytes = 4;
}

-- The peer answers five bytes, and the cap is four.
abbrev long_answer : Connection
long_answer = record {
  connects = true;
  sends = true;
  received = chunk (49 ∷ 50 ∷ 51 ∷ []) ∷ chunk (52 ∷ 10 ∷ []) ∷ [];
}

abbrev short_answer : Connection
short_answer = record {
  connects = true;
  sends = true;
  received = chunk (49 ∷ 10 ∷ []) ∷ broken ∷ [];
}

too_large : request socket long_answer end start ≡ (
  err (payment (outcome_unknown "the private payment sidecar outcome is unknown")),
  record { request_may_have_run = true; sending_began = true },
)
unfolding request
too_large = refl

short :
    request socket short_answer end start
    ≡ (ok answer, record { request_may_have_run = true; sending_began = true })
unfolding request
short = refl

request-Honest_example : Honest socket.codec (request socket long_answer end start)
request-Honest_example = request-Honest socket long_answer end

one_chunk : receive 4 0 (chunk (49 ∷ 10 ∷ []) ∷ broken ∷ []) ≡ ok ((49 ∷ 10 ∷ []) ∷ [])
unfolding receive
one_chunk = refl

receive-bounded_example : length (join ((49 ∷ 10 ∷ []) ∷ [])) ≤ 4
receive-bounded_example =
    receive-bounded 4 (chunk (49 ∷ 10 ∷ []) ∷ broken ∷ []) ((49 ∷ 10 ∷ []) ∷ []) one_chunk

-- An integer that is too long for `json.loads` makes another exception leave the method, though the
-- payment may have run.
abbrev strict : Socket
strict = record socket { codec = record { encode = λ s. some []; loads = λ bs. too_long } }

escaped :
    request strict short_answer end start
    ≡ (err (other "ValueError"), record { request_may_have_run = true; sending_began = true })
unfolding request
escaped = refl
