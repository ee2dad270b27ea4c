-- ===== src/Payment/Client/World.antt =====
-- The client's configuration, the environment it calls, and the world that it changes.
use oathcast.Prelude.{ℕ, String, Bool, Option, List}
use oathcast.Prelude.Exec.{Result, ok, err, Exec}
use oathcast.Clock.{Moment}
use oathcast.Json.{Value, Host}
use oathcast.Payment.Authorization.{Authorization}
use oathcast.Payment.Challenge.{Challenge, ChallengeError}
use oathcast.Payment.Journal.Table.{Journal}
use oathcast.Payment.Journal.Methods.{Error, Limits}

pub record HttpResult : Type 0 where
  pub status : ℕ
  pub headers : List (String × String)
  pub body : String

pub record PaymentResponse : Type 0 where
  pub status : ℕ
  pub body : Value
  pub headers : List (String × String)
  pub request_url : Option String
  pub received_at : Option String
  pub payment_attempt_id : Option String
  pub challenge_sha256 : Option String
  pub challenge_deadline : Option String
  pub settlement_verified : Bool
  pub settlement_verification : String

-- Why a PaymentOutcomeUnknown is raised.
pub data Cause : Type 0 where
  request_failed no_settlement_header verification_failed not_verified not_journaled : Cause

pub data ClientError : Type 0 where
  invalid_configuration pay_to_missing targets_missing insecure_transport journal_missing :
      ClientError
  miner_not_approved endpoint_not_approved : ClientError
  http_failure : ℕ → ClientError
  challenge_header_missing : ClientError
  payment_required : Challenge → ClientError
  challenge_error : ChallengeError → ClientError
  journal_error : Error → ClientError
  transport_raised signer_raised : String → ClientError
  empty_proof naive_clock : ClientError
  outcome_unknown : Cause → ClientError

-- The transport, the signer and the verifier are callables that the client is given; an `err` is an
-- exception with its text. A callable that is `None` is a `none`.
pub record Config : Type 0 where
  pub host : Host
  pub dispatcher_url : String
  pub transport : String → List (String × String) → Result String HttpResult
  pub signer : Option (Authorization → Result String String)
  pub verifier : Option (PaymentResponse → Authorization → Result String Bool)
  pub expected_pay_to : Option String
  pub allowed_miner_ids : Option (List String)
  pub allowed_endpoints : Option (List String)
  pub max_payment_micro_usdc : ℕ
  pub limits : Limits
  pub allow_insecure_transport : Bool
  pub require_settlement : Bool
  pub require_challenge_deadline : Bool
  pub has_journal : Bool
  -- `str(exc)`
  pub str_exception : ClientError → String

-- What `self.clock()` answers at each place where it is read.
pub record Readings : Type 0 where
  pub validated : Moment
  pub reserved : Moment
  pub aborted : Moment
  pub submitted : Moment
  pub received : Moment
  pub deadline : Moment
  pub concluded : Moment

-- A request that has left: the first one, or the one that carries a payment proof.
pub data Sent : Type 0 where
  unpaid : String → Sent
  paid : String → String → Sent

pub record World : Type 0 where
  pub journal : Journal
  pub sent : List Sent

abbrev pub Client : Type 0 → Type 0
Client = Exec World ClientError

-- A method of the journal, called by the client.
abbrev pub journal_result :
    {A : Type 0} → List Sent → Result Error A × Journal → Result ClientError A × World
journal_result sent (ok a, j) = (ok a, record { journal = j; sent = sent })
journal_result sent (err e, j) = (err (journal_error e), record { journal = j; sent = sent })

abbrev pub on_journal : {A : Type 0} → Exec Journal Error A → Client A
on_journal m w = journal_result w.sent (m w.journal)

abbrev pub checked_by : {A : Type 0} → Result ChallengeError A → Client A
checked_by (ok a) w = (ok a, w)
checked_by (err e) w = (err (challenge_error e), w)

-- try: …  except Exception as exc: …
abbrev pub rescue :
    {A : Type 0}
    → (ClientError → Client A)
    → Result ClientError A × World
    → Result ClientError A × World
rescue handler (ok a, w) = (ok a, w)
rescue handler (err e, w) = handler e w

abbrev pub try_except : {A : Type 0} → Client A → (ClientError → Client A) → Client A
try_except m handler w = rescue handler (m w)
