-- ===== src/Sidecar/Ambiguous.antt =====
-- Which errors `UnixSocketPaymentClient.request` of src/oathcast/application_payment.py raises before and
-- after `sendall`, and how much it reads.
use Prim.Native.String.{◌++◌ as ◌<>◌}
use oathcast.Sidecar.Socket.{
  Socket, Connection, Fault, Sending, receive, fail, caught, exchange, request, answered, parsed,
  max_request_bytes, first_line, join, framed, Progress, start, Codec, too_long, Loaded, loaded,
  malformed,
}
use oathcast.Prelude.{
  String, false, List, Bool, true, Bool-cases, ℕ, Option-cases, inl, ◌≡◌, inr, ◌∷◌, [], refl, ltb,
  length,
}
use oathcast.Sidecar.Text.{
  outcome_unknown, PaymentError, boundary_unavailable, authorization_error, preflight_rejected,
  policy_conflict, consent_required, ClientFault, payment, other,
}
use oathcast.Prelude.Exec.{Result, ok, continue, err}
use oathcast.Json.{Fields, object, boolean, number, real, text, array, null}
use oathcast.Json.Dumps.{dumps_raw}

abbrev pub is_unknown : PaymentError → Bool
is_unknown (outcome_unknown m) = true
is_unknown (boundary_unavailable m) = false
is_unknown (authorization_error m) = false
is_unknown (preflight_rejected m) = false
is_unknown (policy_conflict m) = false
is_unknown (consent_required m) = false

-- The answer has an integer that is too long for `json.loads`.
abbrev pub HasTooLong : Codec → Type 0
HasTooLong codec = (bytes : List ℕ) × (codec.loads bytes ≡ too_long)

-- A value only after `sendall` began; an ApplicationPaymentError is PaymentOutcomeUnknown just if it
-- began; and another exception only after it began, of an integer in the answer that is too long.
abbrev pub Honest : Codec → {A : Type 0} → Result ClientFault A × Progress → Type 0
Honest codec (ok a, p) = p.sending_began ≡ true
Honest codec (err (payment e), p) = is_unknown e ≡ p.sending_began
Honest codec (err (other name), p) = (p.sending_began ≡ true) × HasTooLong codec

-- After `sendall` has begun and the variable is set.
abbrev running : Progress
running = record { request_may_have_run = true; sending_began = true }

-- What goes on does so from there.
abbrev Runs : {A : Type 0} → Result ClientFault A × Progress → Type 0
Runs (ok a, p) = p ≡ running
Runs (err (payment e), p) = is_unknown e ≡ p.sending_began
Runs (err (other name), p) = ⊥

Honest-continue :
    (codec : Codec) {A B : Type 0} (p : Result ClientFault A × Progress) (f : A → Sending B)
    → Runs p
    → ((a : A) → Honest codec (f a running))
    → Honest codec (continue p.0 f p.1)
Honest-continue codec (ok a, p) f h k = rw h (k a)
Honest-continue codec (err (payment e), p) f h k = h
Honest-continue codec (err (other name), p) f h k = absurd h

Honest-fail :
    (codec : Codec) (A : Type 0) (message : String) → Honest codec (fail {A = A} message running)
unfolding fail
Honest-fail codec A message = refl

Runs-caught : {A : Type 0} (r : Result Fault A) → Runs (caught r running)
unfolding fail
Runs-caught (ok a) = refl
Runs-caught (err e) = refl

exchange-Runs : (c : Socket) (connection : Connection) → Runs (exchange c connection start)
unfolding exchange fail
exchange-Runs c connection = elim (Bool-cases connection.connects) [
  | inl opened ↦ elim (Bool-cases connection.sends) [
    | inl sent ↦
        rw (opened, sent) (Runs-caught (receive c.max_response_bytes 0 connection.received))
    | inr lost ↦ rw (opened, lost) refl
  ]
  | inr closed ↦ rw closed refl
]

Honest-answered :
    (codec : Codec) (bytes : List ℕ) (o : Loaded)
    → codec.loads bytes ≡ o
    → Honest codec (answered o running)
Honest-answered codec bytes malformed e = Honest-fail codec _ _
Honest-answered codec bytes too_long e = (refl, (bytes, e))
Honest-answered codec bytes (loaded (object fs)) e = refl
Honest-answered codec bytes (loaded null) e = Honest-fail codec _ _
Honest-answered codec bytes (loaded (boolean b)) e = Honest-fail codec _ _
Honest-answered codec bytes (loaded (number n)) e = Honest-fail codec _ _
Honest-answered codec bytes (loaded (real r)) e = Honest-fail codec _ _
Honest-answered codec bytes (loaded (text t)) e = Honest-fail codec _ _
Honest-answered codec bytes (loaded (array vs)) e = Honest-fail codec _ _

Honest-parsed : (c : Socket) (raw : List ℕ) → Honest c.codec (parsed c raw running)
Honest-parsed c [] = Honest-fail c.codec _ _
Honest-parsed c (b ∷ bs) = Honest-answered c.codec (b ∷ bs) (c.codec.loads (b ∷ bs)) refl

-- Whatever the socket does and the sidecar answers, a call of `request` returns only after `sendall`
-- began. An ApplicationPaymentError that it raises is PaymentOutcomeUnknown exactly if `sendall` began.
-- The one other exception is the ValueError about an integer in the answer that is too long, and it
-- leaves the method after `sendall` began.
pub request-Honest :
    (c : Socket) (connection : Connection) (payload : Fields)
    → Honest c.codec (request c connection payload start)
unfolding request
request-Honest c connection payload =
    elim (Option-cases (c.codec.encode (dumps_raw c.host (object (framed c payload)) <> "\n"))) [
      | inl unsafe ↦ rw unsafe refl
      | inr (bytes, safe) ↦ elim (Bool-cases (ltb max_request_bytes (length bytes))) [
        | inl large ↦ rw (safe, large) refl
        | inr fine ↦
            rw (safe, fine)
              (Honest-continue c.codec (exchange c connection start)
                (λ chunks. parsed c (first_line (join chunks))) (exchange-Runs c connection)
                (λ chunks. Honest-parsed c (first_line (join chunks))))
      ]
    ]
