-- ===== src/Sidecar/Socket.antt =====
-- `UnixSocketPaymentClient` of src/oathcast/application_payment.py. What the socket does is an argument:
-- whether it opens and sends, and what each `recv` answers.
use Prim.Native.String.{◌++◌ as ◌<>◌}
use oathcast.Prelude.{
  ℕ, ◌+◌, ◌*◌, String, Bool, true, false, ◌||◌, Option, none, some, List, [], ◌∷◌, ◌++◌, ltb, eqb,
  ◌==◌, length, if◌then◌else◌,
}
use oathcast.Prelude.Int.{pos}
use oathcast.Prelude.Exec.{Result, ok, err, Exec, ◌>>=◌, ◌>>◌, pure, raise, modify, raise_if, gets}
use oathcast.Json.{Value, Fields, Host, text, number, object, end, field}
use oathcast.Json.Dumps.{dumps_raw}
use oathcast.Sidecar.Text.{
  boundary_unavailable, outcome_unknown, policy_conflict, ClientFault, payment, other,
}

abbrev pub max_request_bytes : ℕ
max_request_bytes = 128 * 1024

-- What `json.loads` comes to: a value, one of the errors that the source catches there, or the plain
-- ValueError about an integer of too many digits, which it does not catch.
pub data Loaded : Type 0 where
  loaded : Value → Loaded
  malformed too_long : Loaded

-- The bytes of a text in UTF-8, where `none` is the UnicodeEncodeError, and `json.loads` of bytes in
-- UTF-8.
pub record Codec : Type 0 where
  pub encode : String → Option (List ℕ)
  pub loads : List ℕ → Loaded

pub record Socket : Type 0 where
  pub host : Host
  pub codec : Codec
  pub auth_token : String
  pub max_response_bytes : ℕ

-- One answer of `recv`; `broken` is an OSError or a TimeoutError.
pub data Received : Type 0 where
  chunk : List ℕ → Received
  broken : Received

-- At the end of the answers the sidecar has closed the connection.
pub record Connection : Type 0 where
  pub connects : Bool
  pub sends : Bool
  pub received : List Received

-- What leaves the `try` block by an exception.
pub data Fault : Type 0 where
  size_cap os_error : Fault

-- d[key] = value
abbrev pub set : String → Value → Fields → Fields
set k v end = field k v end
set k v (field j w fs) = let rest = set k v fs in if j == k then field j v fs else field j w rest

abbrev pub framed : Socket → Fields → Fields
framed c payload = set "authorization" (text c.auth_token) (set "version" (number (pos 1)) payload)

abbrev pub has_newline : List ℕ → Bool
has_newline [] = false
has_newline (b ∷ bs) = eqb b 10 || has_newline bs

-- `b"".join(chunks).split(b"\n", 1)[0]`
abbrev pub first_line : List ℕ → List ℕ
first_line [] = []
first_line (b ∷ bs) = let rest = first_line bs in if eqb b 10 then [] else b ∷ rest

abbrev pub join : List (List ℕ) → List ℕ
join [] = []
join (bs ∷ chunks) = bs ++ join chunks

-- `while True: chunk = connection.recv(…)`, with the cap, the total so far, and the answers to come; the
-- chunks that are kept.
unfoldable pub receive : ℕ → ℕ → List Received → Result Fault (List (List ℕ))
receive cap total [] = ok []
receive cap total (broken ∷ answers) = err os_error
receive cap total (chunk [] ∷ answers) = ok []
receive cap total (chunk (b ∷ bs) ∷ answers) =
    let more = receive cap (total + length (b ∷ bs)) answers in
    if ltb cap (total + length (b ∷ bs))
    then err size_cap
    else if has_newline (b ∷ bs)
    then ok ((b ∷ bs) ∷ [])
    else elim more [ ok chunks ↦ ok ((b ∷ bs) ∷ chunks) | err e ↦ err e ]

-- The variable of the method, and whether `sendall` has really begun.
pub record Progress : Type 0 where
  pub request_may_have_run : Bool
  pub sending_began : Bool

abbrev pub start : Progress
start = record { request_may_have_run = false; sending_began = false }

-- A method of the client.
abbrev pub Sending : Type 0 → Type 0
Sending = Exec Progress ClientFault

-- if request_may_have_run: raise PaymentOutcomeUnknown(…)  raise PaymentBoundaryUnavailable(…)
unfoldable pub fail : {A : Type 0} → String → Sending A
fail message = do
  may_have_run ← gets (λ p. p.request_may_have_run)
  if may_have_run
      then raise (payment (outcome_unknown "the private payment sidecar outcome is unknown"))
      else raise (payment (boundary_unavailable message))

abbrev fault_message : Fault → String
fault_message size_cap = "sidecar response exceeds its size cap"
fault_message os_error = "the private payment sidecar is unavailable"

abbrev pub caught : {A : Type 0} → Result Fault A → Sending A
caught (ok a) = pure a
caught (err e) = fail (fault_message e)

abbrev step : Bool → Result Fault (Unit {0})
step true = ok tt
step false = err os_error

-- The `try` block: connect, then `sendall`, then read.
unfoldable pub exchange : Socket → Connection → Sending (List (List ℕ))
unfolding receive
exchange c connection = do
  caught (step connection.connects)
  modify (λ p. record p { request_may_have_run = true })
  modify (λ p. record p { sending_began = true })
  caught (step connection.sends)
  caught (receive c.max_response_bytes 0 connection.received)

abbrev pub encoded : Option (List ℕ) → Sending (List ℕ)
encoded none = raise (payment (policy_conflict "sidecar request is not JSON-safe"))
encoded (some bs) = pure bs

abbrev is_empty : List ℕ → Bool
is_empty [] = true
is_empty (b ∷ bs) = false

abbrev pub answered : Loaded → Sending Fields
answered malformed = fail "the payment sidecar returned malformed JSON"
answered too_long = raise (other "ValueError")
answered (loaded (object fs)) = pure fs
answered (loaded v) = fail "the payment sidecar returned a non-object"

abbrev pub parsed : Socket → List ℕ → Sending Fields
parsed c raw =
    if is_empty raw
    then fail "the payment sidecar returned no response"
    else answered (c.codec.loads raw)

-- `request`
unfoldable pub request : Socket → Connection → Fields → Sending Fields
unfolding exchange fail
request c connection payload = do
  bytes ← encoded (c.codec.encode (dumps_raw c.host (object (framed c payload)) <> "\n"))
  raise_if (ltb max_request_bytes (length bytes))
      (payment (policy_conflict "sidecar request is too large"))
  chunks ← exchange c connection
  parsed c (first_line (join chunks))
