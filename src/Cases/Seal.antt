-- ===== src/Cases/Seal.antt =====
-- `seal_decision` of src/oathcast/cases.py.
use oathcast.Prelude.{
  String, ◌==◌, Bool, true, false, not, ◌&&◌, Option, none, some, List, [], ◌∷◌, is_some, leb, map,
}
use oathcast.Prelude.Int.{ℤ, pos, negsuc}
use oathcast.Prelude.Moment.{Moment}
use oathcast.Prelude.Keyed.{find, insert_or_ignore, update}
use oathcast.Prelude.Exec.{
  Result, ok, err, pure, raise, gets, modify, raise_if, transaction, ◌>>=◌, ◌>>◌, lift,
}
use oathcast.Json.{
  Host, Value, Fields, Items, object, array, text, null, number, boolean, real, str, get_or,
  of_pairs, of_list, nil, cons,
}
use oathcast.Json.Dumps.{dumps, sha256_json}
use oathcast.Json.Numbers.{truthy, or_value, round_div_ℤ}
use oathcast.Cases.Store.{
  Error, decision_event_mismatch, different_decision, replies_not_list, malformed_reply,
  threshold_out_of_range, no_case, Driver, CaseRow, DecisionRow, Store, Cases, of_event,
  reply_id_of, timestamp, required, float_or_error,
}
use oathcast.Cases.Read.{CaseView, get_case}
use oathcast.Cases.Replies.{insert_reply, probability_x10000, x10000}

-- One reply of the decision, and then the rest.
unfoldable pub project_one :
    Host → Driver → String → Fields → Fields → Cases (List String) → Cases (List String)
project_one h d event_id payload reply project_rest = do
  probability ← lift (probability_x10000 h (get_or "probability" null reply))
  insert_reply h d event_id reply
      (or_value (get_or "received_at" null reply) (get_or "decided_at" null payload)) probability
  ids ← project_rest
  pure (reply_id_of h event_id reply ∷ ids)

-- The loop over the decision's replies: each is written, and its id is kept.
unfoldable pub project_replies : Host → Driver → String → Fields → Items → Cases (List String)
unfolding project_one
project_replies h d event_id payload nil = pure []
project_replies h d event_id payload (cons (object reply) rest) =
    project_one h d event_id payload reply (project_replies h d event_id payload rest)
project_replies h d event_id payload (cons null rest) = raise malformed_reply
project_replies h d event_id payload (cons (boolean b) rest) = raise malformed_reply
project_replies h d event_id payload (cons (number n) rest) = raise malformed_reply
project_replies h d event_id payload (cons (real r) rest) = raise malformed_reply
project_replies h d event_id payload (cons (text s) rest) = raise malformed_reply
project_replies h d event_id payload (cons (array vs) rest) = raise malformed_reply

abbrev pub list_of : Value → Result Error Items
list_of (array vs) = ok vs
list_of _ = err replies_not_list

-- not 0 <= threshold <= 1
abbrev out_of_unit : ℤ → Bool
out_of_unit (pos n) = not (leb n 1000000)
out_of_unit (negsuc n) = true

abbrev texts : List String → Value
texts ids = array (of_list (map text ids))

abbrev policy_of : ℤ → ℤ → Value → Value → Value
policy_of threshold aggregate used_external influence = object (
    of_pairs (
      ("policy_version", text "cross_miner_weighted_v2")
      ∷ ("decision_threshold_x10000", number (round_div_ℤ threshold 100))
      ∷ ("aggregate_probability_x10000", number aggregate)
      ∷ ("used_external_miner", boolean (truthy used_external))
      ∷ ("external_influence", boolean (truthy influence))
      ∷ []))

abbrev decision_row : Host → String → Fields → List String → Value → String → DecisionRow
decision_row h event_id payload ids policy decided_at = record {
  decision_id = sha256_json h (
      object (
        of_pairs (
          ("event_id", text event_id)
          ∷ ("decision", object payload)
          ∷ ("reply_ids", texts ids)
          ∷ [])));
  event_id = event_id;
  decision_json = dumps h (object payload);
  reply_ids_json = dumps h (texts ids);
  policy_json = dumps h policy;
  decision_sha256 = sha256_json h (object payload);
  decided_at = decided_at;
}

abbrev of_decision : String → DecisionRow → Bool
of_decision id r = r.decision_id == id

abbrev pub add_decision : DecisionRow → Store → Store
add_decision r s = record s {
  decisions = insert_or_ignore (of_decision r.decision_id) r s.decisions;
}

-- WHERE event_id = ? AND decision_json IS NULL
abbrev pub unsealed : String → CaseRow → Bool
unsealed id r = of_event id r && not (is_some r.decision_json)

abbrev pub sealed_row : String → String → String → CaseRow → CaseRow
sealed_row decision_json sealed_at frozen_at r = record r {
  decision_json = some decision_json;
  decision_sealed_at = some sealed_at;
  frozen_at = some frozen_at;
}

abbrev pub seal_case : String → String → String → String → Store → Store
seal_case event_id decision_json sealed_at frozen_at s = record s {
  cases = update (unsealed event_id) (sealed_row decision_json sealed_at frozen_at) s.cases;
}

-- What is written of a decision before the case is marked: its replies and its row.
unfoldable pub seal_evidence : Host → Driver → String → Fields → Cases (Unit {0})
unfolding project_replies
seal_evidence h d event_id payload = do
  replies ← lift (list_of (get_or "replies" (array nil) payload))
  ids ← project_replies h d event_id payload replies
  decided_at ← lift (required "decided_at" payload)
  threshold ← lift (float_or_error h (get_or "decision_threshold" (real (pos 500000)) payload))
  raise_if (out_of_unit threshold) threshold_out_of_range
  aggregate_value ← lift (required "aggregate_probability" payload)
  aggregate ← lift (x10000 h aggregate_value)
  used_external ← lift (required "used_external_miner" payload)
  influence ← lift (required "external_influence" payload)
  modify (
      add_decision (
        decision_row h event_id payload ids (policy_of threshold aggregate used_external influence)
          (str h decided_at)))

-- The UPDATE of the case. `_timestamp(sealed_at)` is read twice, so that without a given time the clock
-- is too.
unfoldable pub mark_sealed :
    Host → String → Fields → Option Moment → Moment → Moment → Cases (Unit {0})
mark_sealed h event_id payload sealed_at now later = do
  sealed ← lift (timestamp sealed_at now)
  frozen ← lift (timestamp sealed_at later)
  modify (seal_case event_id (dumps h (object payload)) sealed frozen)

-- The branch of a case with no decision yet.
unfoldable pub seal_new :
    Host → Driver → String → Fields → Option Moment → Moment → Moment → Cases (Unit {0})
unfolding seal_evidence mark_sealed
seal_new h d event_id payload sealed_at now later = do
  seal_evidence h d event_id payload
  mark_sealed h event_id payload sealed_at now later

abbrev pub seal_found :
    Host
    → Driver
    → String
    → Fields
    → Option Moment
    → Moment
    → Moment
    → Option (Option String)
    → Cases (Unit {0})
seal_found h d event_id payload sealed_at now later none = raise no_case
seal_found h d event_id payload sealed_at now later (some (some sealed)) =
    raise_if (not (sealed == dumps h (object payload))) different_decision
seal_found h d event_id payload sealed_at now later (some none) =
    seal_new h d event_id payload sealed_at now later

abbrev pub decision_of : Option CaseRow → Option (Option String)
decision_of none = none
decision_of (some r) = some r.decision_json

abbrev pub names_event : String → Value → Bool
names_event event_id (text s) = s == event_id
names_event event_id _ = false

-- The transaction of `seal_decision`.
unfoldable pub seal_row :
    Host → Driver → String → Fields → Option Moment → Moment → Moment → Cases (Unit {0})
unfolding seal_new
seal_row h d event_id payload sealed_at now later = transaction (do
  row ← gets (λ s. decision_of (find (of_event event_id) s.cases))
  seal_found h d event_id payload sealed_at now later row)

-- `seal_decision`
unfoldable pub seal_decision :
    Host → Driver → String → Fields → Option Moment → Moment → Moment → Cases (Option CaseView)
unfolding seal_row
seal_decision h d event_id payload sealed_at now later = do
  raise_if (not (names_event event_id (get_or "event_id" null payload))) decision_event_mismatch
  seal_row h d event_id payload sealed_at now later
  get_case h event_id
