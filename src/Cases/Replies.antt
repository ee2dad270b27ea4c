-- ===== src/Cases/Replies.antt =====
-- `record_reply` of src/oathcast/cases.py, and the row of a reply, which `seal_decision` writes too.
use oathcast.Prelude.{String, ◌==◌, Bool, not, Option, none, some, is_some}
use oathcast.Prelude.Int.{ℤ}
use oathcast.Prelude.Keyed.{find, insert_or_ignore}
use oathcast.Prelude.Exec.{
  Result, ok, err, raise, gets, modify, raise_if, transaction, ◌>>=◌, ◌>>◌, lift,
}
use oathcast.Json.{Host, Value, Fields, object, text, null, str, get_or}
use oathcast.Json.Dumps.{dumps, sha256_json}
use oathcast.Json.Numbers.{truthy, or_value, round_div_ℤ}
use oathcast.Cases.Store.{
  Error, reply_not_object, no_case, Driver, ReplyRow, Store, Cases, of_event, reply_id_of,
  protocol_projection_fields, float_or_error, text_param, real_param,
}

-- `int(round(float(probability) * 10000))`, of a float in millionths
abbrev pub x10000 : Host → Value → Result Error ℤ
x10000 h v = elim (float_or_error h v) [ err e ↦ err e | ok x ↦ ok (round_div_ℤ x 100) ]

unfoldable pub probability_x10000 : Host → Value → Result Error (Option ℤ)
probability_x10000 h null = ok none
probability_x10000 h v = elim (x10000 h v) [ err e ↦ err e | ok x ↦ ok (some x) ]

abbrev pub reply_row :
    Host → String → Fields → Option ℤ → Option String → Value → Option String → ReplyRow
reply_row h event_id reply probability received_at latency_ms reason =
    let raw_response = get_or "raw_response" null reply in
    let p = protocol_projection_fields h reply in
    record {
      reply_id = reply_id_of h event_id reply;
      event_id = event_id;
      miner_id = str h (get_or "miner_id" (text "") reply);
      slug = str h (get_or "slug" (text "") reply);
      owned = truthy (get_or "owned" null reply);
      raw_response_json = dumps h raw_response;
      raw_response_sha256 = sha256_json h raw_response;
      received_at = received_at;
      latency_ms = latency_ms;
      probability_x10000 = probability;
      parser_version = str h (get_or "parser_version" (text "probability_extractor_v1") reply);
      validity_reason = reason;
      request_id = p.request_id;
      protocol_receipt_json = p.protocol_receipt_json;
      response_body_sha256 = p.response_body_sha256;
    }

abbrev pub of_reply : String → ReplyRow → Bool
of_reply id r = r.reply_id == id

abbrev pub add_reply : ReplyRow → Store → Store
add_reply r s = record s { replies = insert_or_ignore (of_reply r.reply_id) r s.replies }

-- INSERT OR IGNORE INTO miner_replies
unfoldable pub insert_reply : Host → Driver → String → Fields → Value → Option ℤ → Cases (Unit {0})
insert_reply h d event_id reply received_at probability = do
  at ← lift (text_param d received_at)
  latency ← lift (real_param d (get_or "latency_ms" null reply))
  reason ←
      lift
        (text_param d (or_value (get_or "validity_reason" null reply) (get_or "error" null reply)))
  modify (add_reply (reply_row h event_id reply probability at latency reason))

-- SELECT … FROM application_cases, and the CaseStateError if the case is not there
abbrev pub require_case : String → Cases (Unit {0})
require_case event_id = do
  present ← gets (λ s. is_some (find (of_event event_id) s.cases))
  raise_if (not present) no_case

abbrev pub record_fields : Host → Driver → String → Fields → Cases (Unit {0})
record_fields h d event_id reply = do
  probability ← lift (probability_x10000 h (get_or "probability" null reply))
  transaction (do
    require_case event_id
    insert_reply h d event_id reply (get_or "received_at" null reply) probability)

-- `record_reply`
unfoldable pub record_reply : Host → Driver → String → Value → Cases (Unit {0})
unfolding insert_reply probability_x10000
record_reply h d event_id (object reply) = record_fields h d event_id reply
record_reply h d event_id _ = raise reply_not_object
