-- ===== src/Lib.antt =====
-- OathCast keeps evidence about precipitation forecasts: a Miner service answers forecast questions and
-- freezes each answer in a receipt, and an Application pays Miners for forecasts, decides, and resolves
-- its cases against observations. This library models the parts that keep state or decide about money
-- and evidence, and proves what they promise.
--
-- The parts and their files (paths from the repository's root):
--   Json, Clock: the JSON values, json.dumps with sorted keys, and the timestamps that all parts write.
--   Payment (src/oathcast/payment.py): Challenge and Validation are PaymentChallenge, Authorization is
--     ValidatedPaymentAuthorization, Journal is SqlitePaymentJournal, Client is TelegraphX402Client.
--     The client asks for a URL, and on a 402 validates the challenge, reserves the payment in the
--     journal, has it signed, marks it submitted, sends it, and settles it or marks it unknown.
--     Journal.History lists the calls that any process may make, Journal.Lifecycle the states of a URL,
--     Journal.Again is about aborted payments, Journal.Written about the rows that a call leaves.
--   Receipts (src/oathcast/receipts.py): Store is SqliteReceiptStore with save and get, Capacity its
--     telemetry, Chain its hash chain. Outcome, History, Evidence, Roundtrip, Full, Prefix,
--     Tamper and Audit are proofs, Book is the store as an abstract write-once book.
--   Forecast (src/oathcast/forecast.py) has ForecastQuestion, GroundTruth (src/oathcast/ground_truth.py)
--     the observation, the result and resolve_precipitation; Total and Verdict are proofs.
--   Cases (src/oathcast/cases.py): Store has the tables of SqliteCaseStore, Create, Replies, Seal and
--     Resolve its methods, Read what they return. A decision of the Application is sealed there, and
--     later resolved with a GroundTruth observation. Later is the order in time of two stores, Keeps the
--     rules for methods that respect it, Writes and Lifecycle apply them, History lists the calls;
--     Frame and Sealed are about sealing, Exclusive about keys that are bound once, Once about events
--     that are created once.
--   Demand (src/oathcast/demand.py): Event is DemandEvent, Ledger is DemandLedger, History what a sequence
--     of records leaves, Recorded what one does.
--   Sidecar (src/oathcast/application_payment.py) is the client of the private payment sidecar: Text has its
--     errors and _safe_text, Socket is UnixSocketPaymentClient, Evidence the sidecar's errors and
--     _validate_paid_evidence, Response is ApplicationPaidResponse, Boundary is ApplicationPaymentBoundary.
--     Gate, Verified and Delivered follow request_miner before and after the call; Ambiguous and Bounded
--     are about the socket.
--   Protocol.Envelope (src/oathcast/protocol.py) has ProtocolReceipt and ProtocolResultEnvelope.
--   Probability (src/oathcast/probability.py): Percent is PROBABILITY_PATTERN, Extract the rest; Depth,
--     Limit and Unit are proofs.
--   Scoring.Brier is src/oathcast/scoring.py, with Bounds and Totality as proofs.
--   Router (src/oathcast/application.py): Paying is ApplicationTelegraphMinerClient, Adapter the generic
--     adapter of src/oathcast/miner_adapters.py, Reply and Decide are CrossMinerRouter with MinerReply and
--     ApplicationDecision. A paid call goes through Sidecar, becomes a Protocol envelope and is recorded in
--     Demand. Paid, Careful, Stop and Aggregate are proofs.
--   Discovery (src/oathcast/discovery.py): Records and Prices read a registry's record, Miner has
--     MinerCapability, which the Router's Miners are given by, and discover_weather_miners; Eligible and
--     Complete are proofs. A decimal.Decimal is a coefficient times a power of ten.
--   Leaderboard (src/oathcast/leaderboard.py): Entry and Board are the parsers and the leader of a board;
--     Ranked and Leader are proofs.
--   Registration.Declaration (src/oathcast/registration.py) is MinerRegistrationDeclaration; Generations has
--     proofs. A field has its annotated type.
--   Workflow (src/oathcast/workflow.py): Steps is ApplicationWorkflow, which asks the Router and seals its
--     decision with Cases; Frozen and Closed are proofs.
--   Prelude has what they share: Exec is the monad of methods that change a store and may raise, Checked
--     that of checks that only raise, Keyed a table with a primary key and INSERT OR IGNORE,
--     Distinct lists without a name twice.
--
-- How the code is modelled:
--   A store is the list of its rows in the order of rowid; only the payment journal's list is newest first,
--     and nothing reads its order. A method is a function from the store to a result, a value or an
--     error, and the store after it; a method's `except: rollback; raise` is `transaction`, which gives
--     the old store back beside the error. The locks and BEGIN IMMEDIATE make the methods run one after
--     another, so the processes that share a store are a list of calls.
--   What hashlib, base64, the JSON decoder, the text tables of the interpreter, SQLite's page count, its
--     column conversions, the signer, the transport and the verifier do is a parameter: `Host`, `Caps`,
--     `Driver`, `Config`. Nothing is assumed of the digest but, for the hash chain, its 64 characters; a
--     collision of the digest is the other case of that theorem.
--   A float is an integer number of millionths, so that sums and roundings are exact; NaN and infinity
--     are not values, and the OverflowError of float() of an integer that is too large for a float is
--     left out: such an integer reads as a number out of range. A datetime is an instant in microseconds
--     from 1970 on with whether it carries a timezone. The clock is an argument of each method that
--     reads it.
--   In Scoring and in the aggregate of Router a quotient of floats is the exact one, so that the rounding of
--     floats is left out. In Probability a number is an integer number of 10⁻⁸, the digits of a percentage
--     are the ASCII ones, and those after the sixth of its fraction are dropped; a number in a JSON value
--     has millionths.
--   The sidecar is behind parameters: `Connection` is what a socket does when it is opened, written to and
--     read, `Socket` how it was configured, with the JSON decoder, which decodes, refuses, or raises the
--     ValueError about an integer with too many digits (`Loaded`). A client of request_miner and the Miner
--     clients of the router are functions on a state of their own, which raise or return; of them and of
--     the adapters nothing is assumed.
--   Fuel is in `decimal`, one round per digit, which n + 1 rounds are enough for. `extract` goes as many
--     levels of nesting down as `Host.recursion_limit` says that the interpreter still allows, and then
--     has the `none` that stands for RecursionError. All other recursion is on lists and texts.
--
-- Not modelled: network and file I/O, log lines, connection handling and migrations, `write_readiness`,
-- `integrity_check` and `backup_to` of the receipt store, URL building and discovery of the payment
-- client, the unpaid HTTP clients of application.py, the reading of a registry snapshot's file, the
-- fetching of leaderboards, the adapters for particular providers, the Miner service, pilots,
-- gateway, browser interfaces and scripts; and 64-bit overflow in SQLite. They are I/O and
-- presentation around the parts above, or parts that this library does not have yet.
pub mod Cases
pub mod Clock
pub mod Demand
pub mod Discovery
pub mod Forecast
pub mod GroundTruth
pub mod Json
pub mod Leaderboard
pub mod Payment
pub mod Prelude
pub mod Probability
pub mod Protocol
pub mod Receipts
pub mod Registration
pub mod Router
pub mod Scoring
pub mod Sidecar
pub mod Workflow
