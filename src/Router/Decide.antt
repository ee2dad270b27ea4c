-- ===== src/Router/Decide.antt =====
-- `CrossMinerRouter.decide` and `ApplicationDecision` of src/oathcast/application.py. The aggregate is the
-- exact quotient, rounded to four digits.
use Prim.Native.String.{◌++◌ as ◌<>◌}
use oathcast.Prelude.{
  ℕ, ◌+◌, ◌-◌, ◌*◌, String, ◌==◌, Bool, true, false, not, ◌&&◌, Option, none, some, List, [], ◌∷◌,
  ltb, leb, one_of, is_some, map, if◌then◌else◌, head?,
}
use oathcast.Prelude.Int.{ℤ, pos, negsuc, pos_part}
use oathcast.Prelude.Exec.{Result, ok, err, Exec, pure, raise_if, gets, ◌>>=◌, ◌>>◌}
use oathcast.Clock.{iso_utc}
use oathcast.Json.{Fields, Host, boolean, real, text, array, object, of_list, of_pairs}
use oathcast.Json.Numbers.{round_div}
use oathcast.Forecast.{Question}
use oathcast.Router.Paying.{CallFault, routing, other}
use oathcast.Router.Reply.{Reply, Router, valid, reply, reply_dict, or_text}
use oathcast.Discovery.Miner.{Capability}

-- The aggregate is in ten-thousandths, the threshold in millionths.
pub record Decision : Type 0 where
  pub question : Question
  pub aggregate_x10000 : ℕ
  pub event_likely : Bool
  pub recommended_action : String
  pub used_external_miner : Bool
  pub external_influence : Bool
  pub replies : List Reply
  pub decided_at : ℕ
  pub application_request_id : String
  pub decision_threshold : ℕ

-- `ApplicationDecision.to_dict`
unfoldable pub decision_dict : Host → Decision → Fields
decision_dict h d = of_pairs (
    ("event_id", text d.question.event_id)
    ∷ ("aggregate_probability", real (pos (100 * d.aggregate_x10000)))
    ∷ ("event_likely", boolean d.event_likely)
    ∷ ("recommended_action", text d.recommended_action)
    ∷ ("used_external_miner", boolean d.used_external_miner)
    ∷ ("external_influence", boolean d.external_influence)
    ∷ ("replies", array (of_list (map (λ r. object (reply_dict h r)) d.replies)))
    ∷ ("decided_at", text (iso_utc d.decided_at))
    ∷ ("application_request_id", text d.application_request_id)
    ∷ ("decision_threshold", real (pos d.decision_threshold))
    ∷ [])

-- [reply for reply in replies if test(reply)]
abbrev pub filter : (Reply → Bool) → List Reply → List Reply
filter p [] = []
filter p (r ∷ rs) = let rest = filter p rs in if p r then r ∷ rest else rest

abbrev pub is_empty : List Reply → Bool
is_empty [] = true
is_empty (r ∷ rs) = false

abbrev pub valid_replies : List Reply → List Reply
valid_replies rs = filter valid rs

abbrev pub external_valid : List Reply → List Reply
external_valid rs = filter (λ r. not r.owned) (valid_replies rs)

-- `{cap.slug: cap for cap in capabilities}[slug]`: the last of a slug
unfoldable pub capability_of : String → List Capability → Option Capability
capability_of slug [] = none
capability_of slug (cap ∷ caps) =
    let later = capability_of slug caps in
    elim later [ some c ↦ some c | none ↦ if cap.slug == slug then some cap else none ]

-- max(0.05, reliability)
abbrev pub weight_of : Capability → ℕ
weight_of cap =
    if ltb 50000 (pos_part cap.historical_reliability)
    then pos_part cap.historical_reliability
    else 50000

abbrev pub weighed : Option Capability → Option ℕ → ℕ × ℕ → Result CallFault (ℕ × ℕ)
weighed none p total = err (other "KeyError")
weighed (some cap) none total = err (other "TypeError")
weighed (some cap) (some p) (total, weights) =
    ok (total + p * weight_of cap, weights + weight_of cap)

-- The loop that adds up the weighted probabilities and the weights.
unfoldable pub weighted : List Capability → ℕ × ℕ → List Reply → Result CallFault (ℕ × ℕ)
unfolding capability_of
weighted caps sums [] = ok sums
weighted caps sums (r ∷ rs) = elim (weighed (capability_of r.slug caps) r.probability sums) [
  | err e ↦ err e
  | ok sums' ↦ weighted caps sums' rs
]

-- round(weighted_total / weight_total, 4)
abbrev pub aggregate_of : ℕ × ℕ → ℕ
aggregate_of (total, weights) = round_div total (weights * 10000)

-- abs(aggregate - owned_probability) > 0.0001, of the first owned valid reply
abbrev pub is_influenced : ℕ → Option Reply → Bool
is_influenced aggregate none = true
is_influenced aggregate (some r) = elim r.probability [
  | none ↦ true
  | some p ↦ ltb 10000 (aggregate * 10000 - p + (p - aggregate * 10000))
]

-- 0 <= threshold <= 1
abbrev pub unit_threshold : ℤ → Option ℕ
unit_threshold (pos n) = if leb n 1000000 then some n else none
unit_threshold (negsuc n) = none

abbrev pub decision_of : Question → String → ℕ → List Reply → ℕ → ℕ → Decision
decision_of q request_id threshold replies aggregate at = record {
  question = q;
  aggregate_x10000 = aggregate;
  event_likely = leb threshold (100 * aggregate);
  recommended_action =
      if leb threshold (100 * aggregate) then "plan_for_event" else "plan_for_no_event";
  used_external_miner = not (is_empty (external_valid replies));
  external_influence =
      is_influenced aggregate (head? (filter (λ r. r.owned) (valid_replies replies)));
  replies = replies;
  decided_at = at;
  application_request_id = request_id;
  decision_threshold = threshold;
}

module _ {S : Type 0} where
  abbrev pub is_called : Router S → Bool → Capability → Bool
  is_called c disable_owned cap =
      is_some (c.clients cap.slug) && not (disable_owned && one_of cap.slug c.own_slugs)

  -- The loop over the capabilities.
  unfoldable pub replies_of :
      Router S → Bool → Question → String → List Capability → Exec S CallFault (List Reply)
  replies_of c disable_owned q request_id [] = pure []
  replies_of c disable_owned q request_id (cap ∷ caps) =
      let rest = replies_of c disable_owned q request_id caps in
      if not (is_called c disable_owned cap)
      then rest
      else do r ← reply c cap q request_id; rs ← rest; pure (r ∷ rs)

  abbrev pub summed : Result CallFault (ℕ × ℕ) → Exec S CallFault (ℕ × ℕ)
  summed (ok t) s = (ok t, s)
  summed (err e) s = (err e, s)

  -- What follows the loop over the capabilities.
  unfoldable pub conclude :
      Router S → Question → String → ℕ → List Reply → Exec S CallFault Decision
  unfolding weighted
  conclude c q request_id threshold replies = do
    raise_if (c.require_external && is_empty (external_valid replies))
        (routing "no valid independently operated external Miner response")
    raise_if (is_empty (valid_replies replies)) (routing "no valid Miner response")
    sums ← summed (weighted c.capabilities (0, 0) (valid_replies replies))
    at ← gets c.clock
    pure (decision_of q request_id threshold replies (aggregate_of sums) at)

  -- `decide`; the hex digits of the uuid that it draws are an argument.
  unfoldable pub decide :
      Router S → Question → Bool → Option String → ℤ → String → Exec S CallFault Decision
  unfolding replies_of conclude
  decide c q disable_owned request_id threshold uuid s = elim (unit_threshold threshold) [
    | none ↦ (err (other "ValueError"), s)
    | some n ↦
        (do
          replies ←
              replies_of c disable_owned q (or_text request_id ("app-" <> uuid)) c.capabilities
          conclude c q (or_text request_id ("app-" <> uuid)) n replies)
          s
  ]
